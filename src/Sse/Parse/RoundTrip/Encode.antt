-- ===== src/Sse/Parse/RoundTrip/Encode.antt =====
-- The bytes that a server writes for an event.
use rong.Base.{
  ℕ, ◌<◌, ◌≡◌, ◌≢◌, refl, ap, false, Option, none, some, List, [], ◌∷◌, ◌++◌, arith, codes, All,
  All-append, nat_beq_iff, nat_eq, contains,
}
use rong.Text.{Text, split_once}
use rong.Text.Utf8.{IsAscii}
use rong.Sse.{PendingEvent, no_pending}
use rong.Sse.Parse.{Session, pop_cr, add_field}
use rong.Sse.Parse.Scan.{NoNewline}

-- A byte of a field's value: ASCII and no line end.
abbrev pub IsValueByte : ℕ → Type 0
IsValueByte b = (b < 0x80) × (b ≢ 10) × (b ≢ 13)

abbrev pub IsValue : Text → Type 0
IsValue = All IsValueByte

pub IsValue-facts : (s : Text) → IsValue s → IsAscii s × NoNewline s × (pop_cr s ≡ s)
unfolding pop_cr
IsValue-facts [] h = (tt, tt, refl)
IsValue-facts (b ∷ []) h = ((h.0.0, tt), (h.0.1, tt), ground (arith, nat_beq_iff b 13, h.0.2))
IsValue-facts (b ∷ c ∷ s) h =
    let (ascii, plain, same) = IsValue-facts (c ∷ s) h.1 in
    ((h.0.0, ascii), (h.0.1, plain), ap (◌∷◌ b) same)

abbrev pub NoColon : Text → Type 0
NoColon = All λ b. b ≢ b':'

pub split_once-colon : (f v : Text) → NoColon f → split_once b':' (f ++ b':' ∷ v) ≡ some (f, v)
unfolding split_once
split_once-colon [] v h = refl
split_once-colon (b ∷ f) v h = ground (arith, nat_beq_iff b b':', split_once-colon f v h.1)

-- The bytes of one field.
abbrev pub field_line : Text → Text → Text
field_line f v = f ++ b':' ∷ b' ' ∷ v

pub field_line-IsValue : (f v : Text) → IsValue f → IsValue v → IsValue (field_line f v)
field_line-IsValue f v h k = All-append IsValueByte f _ h ((omega arith), ((omega arith), k))

-- An event as a server sends it.
pub record Wire : Type 0 where
  pub name : Option Text
  pub id : Option Text
  pub first : Text
  pub others : List Text

abbrev pub optional : Text → Option Text → List ℕ
optional f none = []
optional f (some v) = field_line f v ++ 10 ∷ []

abbrev pub data_lines : List Text → List ℕ
data_lines [] = []
data_lines (v ∷ vs) = (field_line (codes "data") v ++ 10 ∷ []) ++ data_lines vs

abbrev pub or_empty : Option Text → Text
or_empty none = []
or_empty (some v) = v

abbrev pub encode : Wire → List ℕ
encode w =
    optional (codes "event") w.name
    ++ (optional (codes "id") w.id ++ (data_lines (w.first ∷ w.others) ++ 10 ∷ []))

abbrev pub IsOptional : Option Text → Type 0
IsOptional none = Unit
IsOptional (some v) = IsValue v

abbrev pub gather : Text → Option Text → PendingEvent → PendingEvent
gather f none p = p
gather f (some v) p = add_field f v p

abbrev pub with_lines : Session → List Text → Session
with_lines s ls = record s { pending = record s.pending { data_lines = ls } }

abbrev pub NoNul : Text → Type 0
NoNul = All λ b. b ≢ 0

contains-NoNul : (v : Text) → NoNul v → contains 0 v ≡ false
contains-NoNul [] h = refl
contains-NoNul (b ∷ v) h = ground (arith, contains-NoNul v h.1)

pub gathered :
    (name id : Option Text)
    → NoNul (or_empty id)
    → gather (codes "id") id (gather (codes "event") name no_pending)
      ≡ record no_pending { event = name; id = id }
unfolding add_field
gathered none none h = refl
gathered (some n) none h = refl
gathered none (some v) h = rw (contains-NoNul v h)
gathered (some n) (some v) h = rw (contains-NoNul v h)
