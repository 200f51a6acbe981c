-- ===== src/Blob/Slice.antt =====
-- `Blob.slice` with indices from either end.
use rong.Base.{
  ℕ, zero, suc, ◌+◌, ◌-◌, ◌≤◌, ◌≡◌, ◌⊎◌, ◌∙◌, sym, ap, refl, inl, inr, Bool, true, false, ◌&&◌,
  Option, none, some, [], ◌∷◌, ◌++◌, leb, ltb, length, arith, if◌then◌else◌, Bool-cases,
}
use rong.Text.{Text}
use rong.Blob.{Bytes, ℤ, pos, negsuc, Blob, clamp, unwrap_or, slice}

-- The bytes from index `a` up to index `b`, as `Bytes::slice` documents.
abbrev pub range : ℕ → ℕ → Bytes → Bytes
range a zero bytes = []
range a (suc b) [] = []
range zero (suc b) (x ∷ bytes) = x ∷ range zero b bytes
range (suc a) (suc b) (x ∷ bytes) = range a b bytes

-- `Bytes::slice` panics unless the range is ordered and ends within the data.
abbrev pub IsRange : (ℕ → ℕ → Bytes → Bytes) → Type 0
IsRange slice_bytes =
    (a b : ℕ) (bytes : Bytes) → a ≤ b → b ≤ length bytes → slice_bytes a b bytes ≡ range a b bytes

-- Index `i` is not before `start`, and is before `end_`; a negative index counts from `len`.
abbrev pub is_from : ℕ → ℤ → ℕ → Bool
is_from len (pos n) i = leb n i
is_from len (negsuc n) i = leb len (i + suc n)

abbrev pub is_before : ℕ → ℤ → ℕ → Bool
is_before len (pos n) i = ltb i n
is_before len (negsuc n) i = ltb (i + suc n) len

-- The bytes, the first of which has index `i`, whose index lies between the two.
abbrev pub select : ℕ → ℤ → ℤ → ℕ → Bytes → Bytes
select len start end_ i [] = []
select len start end_ i (x ∷ bytes) =
    let rest = select len start end_ (suc i) bytes in
    if is_from len start i && is_before len end_ i then x ∷ rest else rest

from-clamp : (len i : ℕ) (start : ℤ) → suc i ≤ len → is_from len start i ≡ leb (clamp len start) i
unfolding clamp
from-clamp len i (pos n) h = ground arith
from-clamp len i (negsuc n) h = ground arith

before-clamp : (len i : ℕ) (e : ℤ) → suc i ≤ len → is_before len e i ≡ ltb i (clamp len e)
unfolding clamp
before-clamp len i (pos n) h = ground arith
before-clamp len i (negsuc n) h = ground arith

clamp-le : (len : ℕ) (i : ℤ) → clamp len i ≤ len
unfolding clamp
clamp-le len (pos n) = omega arith
clamp-le len (negsuc n) = omega arith

clamp_len : (len : ℕ) → clamp len (pos len) ≡ len
unfolding clamp
clamp_len len = omega arith

clamp_zero : (len : ℕ) → clamp len (pos 0) ≡ 0
unfolding clamp
clamp_zero len = omega arith

range-nil : (a b : ℕ) → range a b [] ≡ []
range-nil a zero = refl
range-nil a (suc b) = refl

range_step :
    (c d : Bool) (p q r s x : ℕ) (bytes : Bytes)
    → ((q ≡ 0) × (s ≡ 0) × (d ≡ false))
      ⊎ ((p ≡ 0) × (r ≡ 0) × (q ≡ suc s) × (c ≡ true) × (d ≡ true))
      ⊎ ((p ≡ suc r) × (q ≡ suc s) × (c ≡ false))
    → (if c && d then x ∷ range r s bytes else range r s bytes) ≡ range p q (x ∷ bytes)
range_step true d p q r s x bytes (inl (e, f, g)) = rw (e, f, g) refl
range_step false d p q r s x bytes (inl (e, f, g)) = rw (e, f) refl
range_step c d p q r s x bytes (inr (inl (e, f, g, h, k))) = rw (e, f, g, h, k) refl
range_step c d p q r s x bytes (inr (inr (e, f, g))) = rw (e, f, g) refl

-- Before the range is over, in it, or before it begins.
place :
    (a b i : ℕ)
    → ((b - i ≡ 0) × (b - suc i ≡ 0) × (ltb i b ≡ false))
      ⊎ ((a - i ≡ 0)
          × (a - suc i ≡ 0)
          × (b - i ≡ suc (b - suc i))
          × (leb a i ≡ true)
          × (ltb i b ≡ true))
      ⊎ ((a - i ≡ suc (a - suc i)) × (b - i ≡ suc (b - suc i)) × (leb a i ≡ false))
place a b i = elim (Bool-cases (ltb i b)) [
  | inr e ↦ inl (ground arith, ground arith, e)
  | inl e ↦ elim (Bool-cases (leb a i)) [
    | inl f ↦ inr (inl (ground arith, ground arith, ground arith, f, e))
    | inr f ↦ inr (inr (ground arith, ground arith, f))
  ]
]

-- Whether the byte at `i` is taken, and what is left of the range.
range-cons :
    (a b i x : ℕ) (bytes : Bytes)
    → (if leb a i && ltb i b
        then x ∷ range (a - suc i) (b - suc i) bytes
        else range (a - suc i) (b - suc i) bytes)
      ≡ range (a - i) (b - i) (x ∷ bytes)
range-cons a b i x bytes =
    range_step (leb a i) (ltb i b) (a - i) (b - i) (a - suc i) (b - suc i) x bytes (place a b i)

select-range :
    (len i : ℕ) (start e : ℤ) (bytes : Bytes)
    → i + length bytes ≡ len
    → select len start e i bytes ≡ range (clamp len start - i) (clamp len e - i) bytes
select-range len i start e [] h = sym (range-nil (clamp len start - i) (clamp len e - i))
select-range len i start e (x ∷ bytes) h =
    rw
      (
        from-clamp len i start (omega arith),
        before-clamp len i e (omega arith),
        select-range len (suc i) start e bytes (omega arith),
      )
      (range-cons (clamp len start) (clamp len e) i x bytes)

range_empty : (a b : ℕ) (bytes : Bytes) → b ≤ a → range a b bytes ≡ []
range_empty a zero bytes h = refl
range_empty a (suc b) [] h = refl
range_empty zero (suc b) (x ∷ bytes) h = absurd (omega arith)
range_empty (suc a) (suc b) (x ∷ bytes) h = range_empty a b bytes (omega arith)

range_all : (bytes : Bytes) → range zero (length bytes) bytes ≡ bytes
range_all [] = refl
range_all (x ∷ bytes) = ap (◌∷◌ x) (range_all bytes)

range-append :
    (c : ℕ) (bytes : Bytes)
    → c ≤ length bytes
    → range zero c bytes ++ range c (length bytes) bytes ≡ bytes
range-append zero bytes h = range_all bytes
range-append (suc c) [] h = refl
range-append (suc c) (x ∷ bytes) h = ap (◌∷◌ x) (range-append c bytes (omega arith))

minus_zero : (n : ℕ) → n - 0 ≡ n
minus_zero n = omega arith

range_whole : (a b : ℕ) (bytes : Bytes) → range (a - 0) (b - 0) bytes ≡ range a b bytes
range_whole a b bytes = rw (minus_zero a, minus_zero b) refl

slice-clamp :
    (slice_bytes : ℕ → ℕ → Bytes → Bytes) (start e : Option ℤ) (mime : Option Text) (b : Blob)
    → IsRange slice_bytes
    → (slice slice_bytes start e mime b).data_
      ≡ range
          (clamp (length b.data_) (unwrap_or (pos 0) start))
          (clamp (length b.data_) (unwrap_or (pos (length b.data_)) e))
          b.data_
unfolding slice
slice-clamp slice_bytes start e mime b h =
    let len = length b.data_ in
    let from = clamp len (unwrap_or (pos 0) start) in
    let to = clamp len (unwrap_or (pos len) e) in
    elim (Bool-cases (ltb to from)) [
      | inl f ↦ rw f (sym (range_empty from to b.data_ (ground arith)))
      | inr f ↦ rw f (h from to b.data_ (ground arith) (clamp-le len (unwrap_or (pos len) e)))
    ]

-- A slice has exactly the bytes, in order, whose index is not before the start and is before the
-- end, where a negative index counts from the end of the data, the start is 0 and the end is the
-- length when they are left out; no range is asked of the buffer that it would refuse.
pub slice-select :
    (slice_bytes : ℕ → ℕ → Bytes → Bytes) (start e : Option ℤ) (mime : Option Text) (b : Blob)
    → IsRange slice_bytes
    → (slice slice_bytes start e mime b).data_
      ≡ select
          (length b.data_)
          (unwrap_or (pos 0) start)
          (unwrap_or (pos (length b.data_)) e)
          0
          b.data_
slice-select slice_bytes start e mime b h =
    slice-clamp slice_bytes start e mime b h
    ∙ sym (range_whole _ _ b.data_)
    ∙ sym (
        select-range (length b.data_) 0 (unwrap_or (pos 0) start)
          (unwrap_or (pos (length b.data_)) e) b.data_ (omega arith))

-- For every index, negative ones and ones beyond the data included, the slice up to it and the
-- slice from it are together the data.
pub slice-append :
    (slice_bytes : ℕ → ℕ → Bytes → Bytes) (k : ℤ) (mime : Option Text) (b : Blob)
    → IsRange slice_bytes
    → (slice slice_bytes none (some k) mime b).data_
        ++ (slice slice_bytes (some k) none mime b).data_
      ≡ b.data_
slice-append slice_bytes k mime b h =
    let len = length b.data_ in
    rw
      (
        slice-clamp slice_bytes none (some k) mime b h,
        slice-clamp slice_bytes (some k) none mime b h,
      )
      (rw (clamp_len len, clamp_zero len) (range-append (clamp len k) b.data_ (clamp-le len k)))
