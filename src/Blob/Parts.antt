-- ===== src/Blob/Parts.antt =====
-- The bytes of a blob's parts, its type, and when a file is refused.
use rong.Base.{
  ℕ, ◌+◌, ◌≡◌, ◌≢◌, ◌∙◌, sym, ap, refl, inl, inr, Bool, true, false, not, ◌&&◌, ◌||◌, Option, none,
  some, List, [], ◌∷◌, ◌++◌, map, append_assoc, All, All-append, any, contains, leb, arith,
  if◌then◌else◌, ◌==◌, nat_eq, nat_beq_iff, Bool-cases,
}
use rong.Text.{Text, to_ascii_lowercase, is_empty}
use rong.Text.Encode.{encode_char, as_bytes, encode_char_ascii}
use rong.Blob.{
  Bytes, ℤ, EndingType, Part, native_string, part_bytes, then_bytes, process_blob_part, in_range,
  normalize_type, new, blob_of, file_of, new_file, option_type, option_endings, unwrap_or,
}

then_bytes_assoc :
    (a b c : Option Bytes) → then_bytes (then_bytes a b) c ≡ then_bytes a (then_bytes b c)
then_bytes_assoc none b c = refl
then_bytes_assoc (some a) none c = refl
then_bytes_assoc (some a) (some b) none = refl
then_bytes_assoc (some a) (some b) (some c) = ap some (append_assoc a b c)

then_bytes_nil : (a : Option Bytes) → then_bytes (some []) a ≡ a
then_bytes_nil none = refl
then_bytes_nil (some a) = refl

-- The parts of a blob are concatenated in order: two arrays of parts one after the other give the
-- bytes of both, and are refused when one of the two is.
pub process_blob_part-append :
    (line_ending : Bytes) (endings : EndingType) (xs ys : List Part)
    → process_blob_part line_ending endings (xs ++ ys)
      ≡ then_bytes
          (process_blob_part line_ending endings xs)
          (process_blob_part line_ending endings ys)
unfolding process_blob_part
process_blob_part-append line_ending endings [] ys =
    sym (then_bytes_nil (process_blob_part line_ending endings ys))
process_blob_part-append line_ending endings (x ∷ xs) ys =
    ap (then_bytes (part_bytes line_ending endings x))
      (process_blob_part-append line_ending endings xs ys)
    ∙ sym (
        then_bytes_assoc (part_bytes line_ending endings x)
          (process_blob_part line_ending endings xs) (process_blob_part line_ending endings ys))

abbrev pub NoCr : List ℕ → Type 0
NoCr = All (λ x. x ≢ 13)

native-NoCr : (after_cr : Bool) (s : Text) → NoCr (native_string (10 ∷ []) after_cr s)
unfolding native_string
native-NoCr after_cr [] = tt
native-NoCr after_cr (c ∷ s) = elim (Bool-cases (after_cr && c == 10)) [
  | inl e ↦ rw e (native-NoCr false s)
  | inr e ↦ elim (Bool-cases (c == 13)) [
    | inl f ↦ rw (e, f) (λ k. absurd (omega (arith, k)), native-NoCr true s)
    | inr f ↦ elim (Bool-cases (c == 10)) [
      | inl g ↦ rw (e, f, g) (λ k. absurd (omega (arith, k)), native-NoCr false s)
      | inr g ↦
          rw (e, f, g)
            (All-append (λ x. x ≢ 13) (encode_char c) (native_string (10 ∷ []) false s)
              (encode_char_ascii c 13 refl (λ k. ground arith)) (native-NoCr false s))
    ]
  ]
]

native_same : (s : Text) → NoCr s → native_string (10 ∷ []) false s ≡ as_bytes s
unfolding native_string as_bytes
native_same [] h = refl
native_same (c ∷ s) h = elim (Bool-cases (c == 13)) [
  | inl f ↦ absurd (h.0 ((nat_beq_iff c 13).0 f))
  | inr f ↦ elim (Bool-cases (c == 10)) [
    | inl g ↦ rw (f, g, native_same s h.1) (rw ((nat_beq_iff c 10).0 g) refl)
    | inr g ↦ rw (f, g, native_same s h.1) refl
  ]
]

-- With the line ending LF, the bytes of any text with native endings have no CR, and a text that
-- has none keeps its bytes.
pub native_string_lem :
    (s t : Text)
    → NoCr t
    → NoCr (native_string (10 ∷ []) false s) × (native_string (10 ∷ []) false t ≡ as_bytes t)
native_string_lem s t h = (native-NoCr false s, native_same t h)

outside : Text → Bool
outside = any λ c. not (in_range c)

to_lower : ℕ → ℕ
to_lower c = if leb 65 c && leb c 90 then c + 32 else c

in_range-lower : (c : ℕ) → in_range c ≡ true → in_range (to_lower c) ≡ true
unfolding in_range to_lower
in_range-lower c h = ground arith

lower_twice : (c : ℕ) → to_lower (to_lower c) ≡ to_lower c
unfolding to_lower
lower_twice c = ground arith

outside-lower : (s : Text) → outside s ≡ false → outside (map to_lower s) ≡ false
unfolding outside
outside-lower [] h = refl
outside-lower (c ∷ s) h = elim (Bool-cases (in_range c)) [
  | inl e ↦ rw (in_range-lower c e) (outside-lower s (rw e at h))
  | inr e ↦ absurd (cc)
]

map-lower_twice : (s : Text) → map to_lower (map to_lower s) ≡ map to_lower s
map-lower_twice [] = refl
map-lower_twice (c ∷ s) = rw (lower_twice c, map-lower_twice s) refl

normalize_type_in : (s : Text) → outside s ≡ false → normalize_type s ≡ map to_lower s
unfolding normalize_type to_ascii_lowercase to_lower outside
normalize_type_in s h = rw h refl

normalize_type_out : (s : Text) → outside s ≡ true → normalize_type s ≡ []
unfolding normalize_type outside
normalize_type_out s h = rw h refl

normalize_type_nil : normalize_type [] ≡ []
unfolding normalize_type to_ascii_lowercase
normalize_type_nil = refl

-- Normalizing a MIME type twice is normalizing it once.
pub normalize_type-normalize_type :
    (s : Text) → normalize_type (normalize_type s) ≡ normalize_type s
normalize_type-normalize_type s = elim (Bool-cases (outside s)) [
  | inl e ↦ rw (normalize_type_out s e) normalize_type_nil
  | inr e ↦
      rw (normalize_type_in s e)
        (normalize_type_in (map to_lower s) (outside-lower s e) ∙ map-lower_twice s)
]

tilde_outside : (s : Text) → contains 126 s ≡ true → outside s ≡ true
unfolding outside in_range
tilde_outside [] h = absurd (cc)
tilde_outside (c ∷ s) h = elim (Bool-cases (c == 126)) [
  | inl e ↦ rw ((nat_beq_iff c 126).0 e) refl
  | inr e ↦ elim (Bool-cases (not (in_range c))) [
    | inl f ↦ rw f refl
    | inr f ↦ rw (f, tilde_outside s (rw e at h)) refl
  ]
]

-- A MIME type that has the character U+007E is replaced by the empty one.
pub normalize_type_tilde : (s : Text) → contains 126 s ≡ true → normalize_type s ≡ []
normalize_type_tilde s h = normalize_type_out s (tilde_outside s h)

abbrev pub fails {ℓ} : {A : Type ℓ} → Option A → Bool
fails none = true
fails (some a) = false

fails-file_of :
    (name : Text) (time : ℤ) (mime : Text) (o : Option Bytes)
    → fails (file_of name time (blob_of mime o)) ≡ fails o
fails-file_of name time mime none = refl
fails-file_of name time mime (some b) = refl

-- The constructor of a file throws exactly when the name is empty or one of the parts is refused.
pub new_file-fails :
    (line_ending : Bytes) (now : ℤ) (parts : List Part) (name : Text) (time : Option ℤ)
    (mime endings : Option Text)
    → fails (new_file line_ending now parts name time mime endings)
      ≡ is_empty name || fails (process_blob_part line_ending (option_endings endings) parts)
unfolding new_file new
new_file-fails line_ending now parts name time mime endings = elim (Bool-cases (is_empty name)) [
  | inl e ↦ rw e refl
  | inr e ↦ rw e (
      fails-file_of name (unwrap_or now time) (option_type mime)
        (process_blob_part line_ending (option_endings endings) parts))
]
