-- ===== src/Event.antt =====
-- modules/rong_event/src/event_emitter.rs: the listener table behind `EventEmitter`,
-- `EventTarget` and `AbortSignal`. A `JSFunc` is its identity, a number; so is a `JSSymbol`. The
-- mutex is left out: the emitter lives on one thread (`Rc`), and a poisoned lock needs a panic.
pub mod Emit
pub mod View
use rong.Base.{
  ℕ, ◌+◌, ◌%◌, ◌^◌, ◌≡◌, refl, ◌↔◌, Bool, true, false, not, ◌&&◌, Option, none, some, List, [], ◌∷◌,
  ◌++◌, map, arith, leb, if◌then◌else◌, PartialEq, ◌==◌, list_beq, list_beq_iff, list_eq, nat_eq,
  nat_beq, nat_beq_iff, length, retain,
}
use rong.Base.Assoc.{get, insert, remove}

pub data EventKey : Type 0 where
  str : List ℕ → EventKey
  symbol : ℕ → EventKey

-- `impl PartialEq for EventKey`.
abbrev pub key_beq : EventKey → EventKey → Bool
key_beq (str l) (str r) = list_beq l r
key_beq (symbol l) (symbol r) = nat_beq l r
key_beq _ _ = false

pub key_beq_iff : (a b : EventKey) → (key_beq a b ≡ true) ↔ (a ≡ b)
key_beq_iff (str l) (str r) = ground (arith, list_beq_iff l r)
key_beq_iff (symbol l) (symbol r) = ground (arith, nat_beq_iff l r)
key_beq_iff (str l) (symbol r) = ground arith
key_beq_iff (symbol l) (str r) = ground arith

instance abbrev pub key_eq : PartialEq EventKey
key_eq = record { eq = key_beq; eq_iff = key_beq_iff }

pub record EventListener : Type 0 where
  pub listener : ℕ
  pub once : Bool

-- `EventEmitterInner`.
pub record EventEmitter : Type 0 where
  pub listeners : List (EventKey × List EventListener)
  pub max_listener : ℕ

pub data Error : Type 0 where
  overflow : ℕ → Error
  thrown : ℕ → Error

pub data Result {ℓ} (A : Type ℓ) : Type ℓ where
  ok : A → Result A
  err : Error → Result A

-- `len as u32`.
abbrev pub as_u32 : ℕ → ℕ
as_u32 n = n % 2 ^ 32

abbrev pub get_or_default : Option (List EventListener) → List EventListener
get_or_default none = []
get_or_default (some ls) = ls

abbrev pub is_some {ℓ} : {A : Type ℓ} → Option A → Bool
is_some none = false
is_some (some a) = true

abbrev pub is_empty {ℓ} : {A : Type ℓ} → List A → Bool
is_empty [] = true
is_empty (x ∷ xs) = false

pub new : EventEmitter
new = record { listeners = []; max_listener = 10 }

pub has_listeners : EventKey → EventEmitter → Bool
has_listeners key events = not (is_empty (get_or_default (get key events.listeners)))

abbrev pub front : List EventListener → Option ℕ
front [] = none
front (l ∷ ls) = some l.listener

pub get_listener : EventKey → EventEmitter → Option ℕ
get_listener key events = front (get_or_default (get key events.listeners))

pub contains_key : EventKey → EventEmitter → Bool
contains_key key events = is_some (get key events.listeners)

abbrev pub placed : Bool → EventListener → List EventListener → List EventListener
placed true l ls = l ∷ ls
placed false l ls = ls ++ l ∷ []

-- Whether the event type is new, and the table after the call.
pub add_listener : EventKey → ℕ → Bool → Bool → EventEmitter → Result (Bool × EventEmitter)
add_listener key listener prepend once events =
    let old = get_or_default (get key events.listeners) in
    let l : EventListener = record { listener = listener; once = once } in
    if leb events.max_listener (as_u32 (length old))
    then err (overflow (length old + 1))
    else ok (
      not (is_some (get key events.listeners)),
      record events { listeners = insert key (placed prepend l old) events.listeners },
    )

abbrev pub keeps : ℕ → EventListener → Bool
keeps listener l = not (l.listener == listener)

-- `entry(key).and_modify(…)`: a key that is missing stays missing.
abbrev pub modify :
    EventKey
    → (List EventListener → List EventListener)
    → EventEmitter
    → Option (List EventListener)
    → EventEmitter
modify key f events none = events
modify key f events (some ls) = record events { listeners = insert key (f ls) events.listeners }

pub remove_listener : EventKey → ℕ → EventEmitter → EventEmitter
remove_listener key listener events =
    modify key (retain (keeps listener)) events (get key events.listeners)

pub event_names : EventEmitter → List EventKey
event_names events = map (λ entry. entry.0) events.listeners

pub remove_all_listeners : Option EventKey → EventEmitter → EventEmitter
remove_all_listeners none events = record events { listeners = [] }
remove_all_listeners (some key) events = record events { listeners = remove key events.listeners }

pub listener_count : EventKey → Option ℕ → EventEmitter → ℕ
listener_count key none events = as_u32 (length (get_or_default (get key events.listeners)))
listener_count key (some f) events =
    as_u32 (length (retain (λ l. l.listener == f) (get_or_default (get key events.listeners))))

pub set_max_listeners : ℕ → EventEmitter → EventEmitter
set_max_listeners max events = record events { max_listener = max }

pub get_max_listeners : EventEmitter → ℕ
get_max_listeners events = events.max_listener
