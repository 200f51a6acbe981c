-- ===== src/Text/Number.antt =====
-- `str::parse::<u64>`: digits after an optional plus sign, refused beyond the range.
use rong.Base.{
  ℕ, ◌+◌, ◌-◌, ◌*◌, ◌^◌, ◌<◌, ◌≡◌, refl, ◌&&◌, Option, none, some, List, [], ◌∷◌, arith, ltb, leb,
  if◌then◌else◌, ◌==◌, nat_eq, codes,
}

digits : ℕ → List ℕ → Option ℕ
digits acc [] = some acc
digits acc (c ∷ s) =
    let rest = digits (acc * 10 + (c - b'0')) s in
    if leb b'0' c && leb c b'9' && ltb (acc * 10 + (c - b'0')) (2 ^ 64) then rest else none

unsigned : List ℕ → Option ℕ
unfolding digits
unsigned [] = none
unsigned (c ∷ s) = digits 0 (c ∷ s)

unfoldable pub parse_u64 : List ℕ → Option ℕ
unfolding unsigned
parse_u64 [] = none
parse_u64 (c ∷ s) = if c == b'+' then unsigned s else unsigned (c ∷ s)

digits-lt : (acc : ℕ) (s : List ℕ) (n : ℕ) → acc < 2 ^ 64 → digits acc s ≡ some n → n < 2 ^ 64
unfolding digits
digits-lt acc [] n h e = ground arith
digits-lt acc (c ∷ s) n h e = ground (arith, digits-lt (acc * 10 + (c - b'0')) s n)

pub parse_u64-lt : (s : List ℕ) (n : ℕ) → parse_u64 s ≡ some n → n < 2 ^ 64
unfolding parse_u64
parse_u64-lt [] n e = cc
parse_u64-lt (c ∷ []) n e = ground (arith, digits-lt 0 (c ∷ []) n)
parse_u64-lt (c ∷ d ∷ s) n e = ground (arith, digits-lt 0 (c ∷ d ∷ s) n, digits-lt 0 (d ∷ s) n)

parses :
    (parse_u64 (codes "+1500") ≡ some 1500)
    × (parse_u64 (codes "18446744073709551616") ≡ none)
    × (parse_u64 (codes "+") ≡ none)
    × (parse_u64 (codes "1 ") ≡ none)
unfolding parse_u64
parses = (refl, refl, refl, refl)
