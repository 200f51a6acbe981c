-- ===== src/Text/Utf8.antt =====
-- `String::from_utf8_lossy`: each maximal part of an ill-formed sequence becomes one U+FFFD.
use rong.Base.{
  ℕ, ◌+◌, ◌-◌, ◌*◌, ◌<◌, ◌≡◌, refl, ◌&&◌, List, [], ◌∷◌, ◌++◌, arith, ltb, leb, if◌then◌else◌, ◌==◌,
  nat_eq, All,
}

-- `more n acc lo hi` waits for `n` bytes, the first of them from `lo` to `hi`.
pub data Utf8 : Type 0 where
  start : Utf8
  more : (need acc lo hi : ℕ) → Utf8

lead : ℕ → List ℕ × Utf8
lead b =
    if ltb b 0x80
    then (b ∷ [], start)
    else if ltb b 0xc2
    then (0xfffd ∷ [], start)
    else if ltb b 0xe0
    then ([], more 1 (b - 0xc0) 0x80 0xbf)
    else if b == 0xe0
    then ([], more 2 0 0xa0 0xbf)
    else if b == 0xed
    then ([], more 2 0xd 0x80 0x9f)
    else if ltb b 0xf0
    then ([], more 2 (b - 0xe0) 0x80 0xbf)
    else if b == 0xf0
    then ([], more 3 0 0x90 0xbf)
    else if ltb b 0xf4
    then ([], more 3 (b - 0xf0) 0x80 0xbf)
    else if b == 0xf4
    then ([], more 3 4 0x80 0x8f)
    else (0xfffd ∷ [], start)

step : Utf8 → ℕ → List ℕ × Utf8
unfolding lead
step start b = lead b
step (more need acc lo hi) b =
    if leb lo b && leb b hi
    then (if need == 1
        then ((acc * 64 + (b - 0x80)) ∷ [], start)
        else ([], more (need - 1) (acc * 64 + (b - 0x80)) 0x80 0xbf))
    else (0xfffd ∷ (lead b).0, (lead b).1)

decode : Utf8 → List ℕ → List ℕ
decode start [] = []
decode (more need acc lo hi) [] = 0xfffd ∷ []
decode st (b ∷ bs) = (step st b).0 ++ decode (step st b).1 bs

unfoldable pub from_utf8_lossy : List ℕ → List ℕ
unfolding decode step
from_utf8_lossy bs = decode start bs

abbrev pub IsAscii : List ℕ → Type 0
IsAscii = All λ b. b < 0x80

step_ascii : (b : ℕ) → b < 0x80 → step start b ≡ (b ∷ [], start)
unfolding step
step_ascii b h = ground arith

pub from_utf8_lossy_ascii : (bs : List ℕ) → IsAscii bs → from_utf8_lossy bs ≡ bs
unfolding from_utf8_lossy
from_utf8_lossy_ascii [] h = refl
from_utf8_lossy_ascii (b ∷ bs) h = ground (arith, step_ascii b h.0, from_utf8_lossy_ascii bs h.1)

-- "é€😀", a byte that cannot begin a character, and a sequence cut short.
lossy :
    from_utf8_lossy (
      0xc3 ∷ 0xa9 ∷ 0xe2 ∷ 0x82 ∷ 0xac ∷ 0xf0 ∷ 0x9f ∷ 0x98 ∷ 0x80 ∷ 0xff ∷ 0xe2 ∷ 0x82 ∷ 0x41 ∷ [])
    ≡ 0xe9 ∷ 0x20ac ∷ 0x1f600 ∷ 0xfffd ∷ 0xfffd ∷ 0x41 ∷ []
unfolding from_utf8_lossy
lossy = refl
