-- ===== src/Event/View.antt =====
-- The emitter seen as a function from event types to listener lists, which the table implements.
use rong.Base.{
  ℕ, ◌+◌, ◌^◌, ◌≡◌, refl, ap, ◌∙◌, ◌<◌, ◌≤◌, ◌⊎◌, inl, inr, Bool-cases, leb, Bool, true, false, not,
  Option, none, some, List, [], ◌∷◌, map, arith, if◌then◌else◌, ◌==◌, nat_eq, length, retain,
}
use rong.Base.Assoc.{get, insert, get-insert, get-remove}
use rong.Event.{
  EventKey, key_eq, key_beq_iff, EventListener, EventEmitter, overflow, ok, err, get_or_default,
  as_u32, placed, keeps, modify, add_listener, remove_listener, remove_all_listeners, contains_key,
  event_names,
}

abbrev pub listeners_of : EventKey → EventEmitter → List EventListener
listeners_of key events = get_or_default (get key events.listeners)

pub get_or_default_if :
    (b : Bool) (ls : List EventListener) (o : Option (List EventListener))
    → get_or_default (if b then some ls else o) ≡ (if b then ls else get_or_default o)
get_or_default_if true ls o = refl
get_or_default_if false ls o = refl

stored : EventKey → EventListener → Bool → EventEmitter → EventEmitter
stored key l prepend events = record events {
  listeners = insert key (placed prepend l (listeners_of key events)) events.listeners;
}

listeners_of-stored :
    (key j : EventKey) (l : EventListener) (prepend : Bool) (events : EventEmitter)
    → listeners_of j (stored key l prepend events)
      ≡ (if key == j then placed prepend l (listeners_of key events) else listeners_of j events)
unfolding stored
listeners_of-stored key j l prepend events =
    ap get_or_default
      (get-insert key j (placed prepend l (listeners_of key events)) events.listeners)
    ∙ get_or_default_if (key == j) _ (get j events.listeners)

-- With fewer than `2 ^ 32` listeners for the event type, a listener that fits is placed at one end
-- of that type, and no other type changes; one that does not fit is refused, and the error tells
-- the size that it would have made.
pub add_listener-view :
    (key : EventKey) (f : ℕ) (prepend once : Bool) (events : EventEmitter)
    → length (listeners_of key events) < 2 ^ 32
    → ((length (listeners_of key events) < events.max_listener)
        × ((events' : EventEmitter) × (add_listener key f prepend once events
              ≡ ok (not (contains_key key events), events'))
            × (events'.max_listener ≡ events.max_listener)
            × ((j : EventKey)
                → listeners_of j events' ≡ (
                    if key == j
                    then placed prepend
                        (record { listener = f; once = once })
                        (listeners_of key events)
                    else listeners_of j events))))
      ⊎ ((events.max_listener ≤ length (listeners_of key events))
          × (add_listener key f prepend once events
              ≡ err (overflow (length (listeners_of key events) + 1))))
unfolding add_listener contains_key stored
add_listener-view key f prepend once events fits =
    elim (Bool-cases (leb events.max_listener (as_u32 (length (listeners_of key events))))) [
      | inl full ↦ inr (ground arith, rw full)
      | inr room ↦ inl (
        ground arith,
        (
          stored key (record { listener = f; once = once }) prepend events,
          rw room,
          refl,
          λ j. listeners_of-stored key j (record { listener = f; once = once }) prepend events,
        ),
      )
    ]

listeners_of-modify :
    (key j : EventKey) (f : ℕ) (events : EventEmitter) (o : Option (List EventListener))
    → get key events.listeners ≡ o
    → listeners_of j (modify key (retain (keeps f)) events o)
      ≡ (if key == j then retain (keeps f) (listeners_of j events) else listeners_of j events)
listeners_of-modify key j f events none e = ground (arith, key_beq_iff key j)
listeners_of-modify key j f events (some ls) e =
    ground (arith, key_beq_iff key j, get-insert key j (retain (keeps f) ls) events.listeners)

-- Removing takes every entry of that function out of its event type, and changes nothing else.
pub remove_listener-view :
    (key j : EventKey) (f : ℕ) (events : EventEmitter)
    → listeners_of j (remove_listener key f events)
      ≡ (if key == j then retain (keeps f) (listeners_of j events) else listeners_of j events)
unfolding remove_listener
remove_listener-view key j f events =
    listeners_of-modify key j f events (get key events.listeners) refl

-- Removing all clears one event type, or every one when none is named.
pub remove_all_listeners-view :
    (which : Option EventKey) (j : EventKey) (events : EventEmitter)
    → listeners_of j (remove_all_listeners which events)
      ≡ elim which [ none ↦ [] | some key ↦ if key == j then [] else listeners_of j events ]
unfolding remove_all_listeners get
remove_all_listeners-view none j events = refl
remove_all_listeners-view (some key) j events = ground (arith, get-remove key j events.listeners)

keys-insert :
    (key : EventKey) (ls old : List EventListener) (m : List (EventKey × List EventListener))
    → get key m ≡ some old
    → map (λ entry. entry.0) (insert key ls m) ≡ map (λ entry. entry.0) m
unfolding get insert
keys-insert key ls old [] e = cc
keys-insert key ls old ((j, w) ∷ m) e = ground (arith, key_beq_iff j key, keys-insert key ls old m)

event_names-modify :
    (key : EventKey) (f : ℕ) (events : EventEmitter) (o : Option (List EventListener))
    → get key events.listeners ≡ o
    → event_names (modify key (retain (keeps f)) events o) ≡ event_names events
unfolding event_names
event_names-modify key f events none e = refl
event_names-modify key f events (some ls) e = keys-insert key _ ls events.listeners e

-- An event type keeps its place in `eventNames` when its listeners are removed one by one, whether
-- or not any is left.
pub event_names-remove_listener :
    (key : EventKey) (f : ℕ) (events : EventEmitter)
    → event_names (remove_listener key f events) ≡ event_names events
unfolding remove_listener
event_names-remove_listener key f events =
    event_names-modify key f events (get key events.listeners) refl

pub max_listener-remove :
    (key : EventKey) (f : ℕ) (which : Option EventKey) (events : EventEmitter)
    → ((remove_listener key f events).max_listener ≡ events.max_listener)
      × ((remove_all_listeners which events).max_listener ≡ events.max_listener)
unfolding remove_listener remove_all_listeners
max_listener-remove key f which events = ground arith
