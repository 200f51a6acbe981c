-- ===== src/Download/Range.antt =====
-- rong_rt/src/download.rs: the header Content-Range.
use rong.Base.{
  ℕ, ◌≤◌, ◌≡◌, inl, inr, Bool, true, Option, none, some, [], ◌∷◌, if◌then◌else◌, ◌==◌, nat_eq,
  list_eq, ltb, codes, arith, Bool-cases,
}
use rong.Text.{Text, trim, split_once}
use rong.Text.Number.{parse_u64}

pub data ContentRange : Type 0 where
  bytes_range : ℕ → ℕ → Option ℕ → ContentRange
  unsatisfied : Option ℕ → ContentRange

-- `str::strip_prefix` of a text.
unfoldable pub strip_text : Text → Text → Option Text
strip_text [] s = some s
strip_text (c ∷ p) [] = none
strip_text (c ∷ p) (d ∷ s) = let rest = strip_text p s in if d == c then rest else none

abbrev pub and_then {ℓ κ} : {A : Type ℓ} {B : Type κ} → Option A → (A → Option B) → Option B
and_then none f = none
and_then (some a) f = f a

unfoldable pub parse_complete_length : Text → Option (Option ℕ)
parse_complete_length value =
    if value == codes "*" then some none else and_then (parse_u64 value) (λ n. some (some n))

abbrev pub within : ℕ → Option ℕ → Bool
within end_ none = true
within end_ (some total) = ltb end_ total

abbrev pub checked_range : ℕ → ℕ → Option ℕ → Option ContentRange
checked_range start end_ total =
    if within end_ total then some (bytes_range start end_ total) else none

abbrev pub range_numbers : Text → Text → Text → Option ContentRange
range_numbers start end_ total = and_then (parse_u64 (trim start)) (λ a.
    and_then (parse_u64 (trim end_)) (λ b.
      if ltb b a
      then none
      else and_then (parse_complete_length (trim total)) (λ c. checked_range a b c)))

abbrev pub parse_unless : Option Text → Text → Option ContentRange
parse_unless (some total) rest =
    and_then (parse_complete_length (trim total)) (λ c. some (unsatisfied c))
parse_unless none rest =
    and_then (split_once 47 rest)
      (λ p. and_then (split_once 45 p.0) (λ q. range_numbers q.0 q.1 p.1))

unfoldable pub parse_content_range : Text → Option ContentRange
unfolding parse_complete_length strip_text
parse_content_range value =
    and_then (strip_text (codes "bytes ") (trim value))
      (λ rest. parse_unless (strip_text (codes "*/") rest) rest)

-- A range of bytes does not end before it starts, and ends within a complete length.
abbrev pub IsOrdered : ContentRange → Type 0
IsOrdered (bytes_range a b total) = (a ≤ b) × (within b total ≡ true)
IsOrdered (unsatisfied total) = Unit

abbrev pub IsParsed : Option ContentRange → Type 0
IsParsed none = Unit
IsParsed (some r) = IsOrdered r

then-IsParsed {ℓ} :
    {A : Type ℓ} (o : Option A) (f : A → Option ContentRange)
    → ((a : A) → IsParsed (f a))
    → IsParsed (and_then o f)
then-IsParsed none f h = tt
then-IsParsed (some a) f h = h a

checked-IsParsed : (a b : ℕ) (total : Option ℕ) → a ≤ b → IsParsed (checked_range a b total)
checked-IsParsed a b total h = elim (Bool-cases (within b total)) [
  | inl e ↦ rw e (h, e)
  | inr e ↦ rw e tt
]

numbers-IsParsed : (start end_ total : Text) → IsParsed (range_numbers start end_ total)
numbers-IsParsed start end_ total = then-IsParsed (parse_u64 (trim start)) _ (λ a.
    then-IsParsed (parse_u64 (trim end_)) _ (λ b. elim (Bool-cases (ltb b a)) [
      | inl e ↦ rw e tt
      | inr e ↦ rw e (
          then-IsParsed (parse_complete_length (trim total)) _
            (λ c. checked-IsParsed a b c (ground arith)))
    ]))

unless-IsParsed : (o : Option Text) (rest : Text) → IsParsed (parse_unless o rest)
unless-IsParsed (some total) rest = then-IsParsed (parse_complete_length (trim total)) _ (λ c. tt)
unless-IsParsed none rest =
    then-IsParsed (split_once 47 rest) _
      (λ p. then-IsParsed (split_once 45 p.0) _ (λ q. numbers-IsParsed q.0 q.1 p.1))

pub parse_content_range-IsParsed : (value : Text) → IsParsed (parse_content_range value)
unfolding parse_content_range
parse_content_range-IsParsed value =
    then-IsParsed (strip_text (codes "bytes ") (trim value)) _
      (λ rest. unless-IsParsed (strip_text (codes "*/") rest) rest)
