-- ===== src/Text.antt =====
-- What the program uses of Rust's `str`: a text is the list of its code points.
pub mod Utf8
pub mod Encode
pub mod Number
use rong.Base.{
  ℕ, ◌+◌, ◌≡◌, refl, Bool, true, false, ◌&&◌, ◌||◌, Option, none, some, List, [], ◌∷◌, ◌++◌, map,
  leb, if◌then◌else◌, ◌==◌, nat_eq,
}

abbrev pub Text : Type 0
Text = List ℕ

unfoldable pub is_empty : Text → Bool
is_empty [] = true
is_empty (c ∷ s) = false

-- `str::starts_with` and `str::strip_prefix` of one character.
unfoldable pub starts_with : ℕ → Text → Bool
starts_with c [] = false
starts_with c (d ∷ s) = d == c

unfoldable pub strip_prefix : ℕ → Text → Text
strip_prefix c [] = []
strip_prefix c (d ∷ s) = if d == c then s else d ∷ s

-- `str::trim_start_matches` of one character.
unfoldable pub trim_start_matches : ℕ → Text → Text
trim_start_matches c [] = []
trim_start_matches c (d ∷ s) = if d == c then trim_start_matches c s else d ∷ s

abbrev cons_first : ℕ → Option (Text × Text) → Option (Text × Text)
cons_first d none = none
cons_first d (some (a, b)) = some (d ∷ a, b)

-- What stands before and after the first `c`.
unfoldable pub split_once : ℕ → Text → Option (Text × Text)
split_once c [] = none
split_once c (d ∷ s) = if d == c then some ([], s) else cons_first d (split_once c s)

-- `char::is_whitespace`: the Unicode property White_Space.
unfoldable pub is_whitespace : ℕ → Bool
is_whitespace c =
    (leb 9 c && leb c 13)
    || c == 32
    || c == 0x85
    || c == 0xa0
    || c == 0x1680
    || (leb 0x2000 c && leb c 0x200a)
    || c == 0x2028
    || c == 0x2029
    || c == 0x202f
    || c == 0x205f
    || c == 0x3000

unfoldable pub trim_start : Text → Text
trim_start [] = []
trim_start (c ∷ s) = if is_whitespace c then trim_start s else c ∷ s

abbrev keep_inner : ℕ → Text → Text
keep_inner c [] = if is_whitespace c then [] else c ∷ []
keep_inner c (d ∷ s) = c ∷ d ∷ s

unfoldable pub trim_end : Text → Text
trim_end [] = []
trim_end (c ∷ s) = keep_inner c (trim_end s)

unfoldable pub trim : Text → Text
unfolding trim_start trim_end is_whitespace
trim s = trim_end (trim_start s)

-- `Vec<String>::join`.
unfoldable pub join : Text → List Text → Text
join sep [] = []
join sep (x ∷ []) = x
join sep (x ∷ y ∷ xs) = x ++ sep ++ join sep (y ∷ xs)

-- `str::starts_with` of a text.
unfoldable pub has_prefix : Text → Text → Bool
has_prefix [] s = true
has_prefix (c ∷ p) [] = false
has_prefix (c ∷ p) (d ∷ s) = (d == c) && has_prefix p s

unfoldable pub to_ascii_lowercase : Text → Text
to_ascii_lowercase = map λ c. if leb b'A' c && leb c b'Z' then c + 32 else c
