-- ===== src/Event/Emit/Bookkeeping.antt =====
-- What an emission does to the table when its callbacks are over, and what its loop logs.
use rong.Base.{
  All, ℕ, ◌≡◌, refl, ap, sym, inl, inr, Bool, true, false, not, Option, none, some, List, [], ◌∷◌,
  ◌++◌, map, arith, ◌==◌, nat_eq, nat_beq_iff, retain, contains, any, Bool-cases, append_assoc,
}
use rong.Base.Assoc.{get, get-insert, get-remove}
use rong.Event.{
  EventKey, key_eq, key_beq_iff, key_beq, EventListener, EventEmitter, Error, is_empty,
  get_or_default, contains_key,
}
use rong.Event.View.{listeners_of}
use rong.Event.Emit.{
  Callback, drop_once, store_or_remove, finish_found, finish_ok, fail_found, finish_err, note_once,
  run_listeners,
}

abbrev pub registered : ℕ → List EventListener → Bool
registered f = any λ l. l.listener == f

abbrev pub functions : List EventListener → List ℕ
functions = map λ l. l.listener

abbrev pub once_functions : List EventListener → List ℕ
once_functions ls = functions (retain (λ l. l.once) ls)

pub registered-drop_once :
    (f : ℕ) (once : List ℕ) (ls : List EventListener)
    → contains f once ≡ true
    → registered f (drop_once once ls) ≡ false
registered-drop_once f once [] h = refl
registered-drop_once f once (l ∷ ls) h =
    ground (arith, nat_beq_iff l.listener f, registered-drop_once f once ls h)

pub All-registered_from :
    (fs once : List ℕ) (ls : List EventListener)
    → ((f : ℕ) → contains f fs ≡ true → contains f once ≡ true)
    → All (λ f. registered f (drop_once once ls) ≡ false) fs
All-registered_from [] once ls h = tt
All-registered_from (f ∷ fs) once ls h = (
  registered-drop_once f once ls (h f (ground (arith, nat_beq_iff f f))),
  All-registered_from fs once ls (λ g m. h g (ground arith)),
)

pub All-registered :
    (once : List ℕ) (ls : List EventListener)
    → All (λ f. registered f (drop_once once ls) ≡ false) once
All-registered once ls = All-registered_from once once ls (λ f h. h)

pub drop_once-nil : (ls : List EventListener) → drop_once [] ls ≡ ls
drop_once-nil [] = refl
drop_once-nil (l ∷ ls) = ap (◌∷◌ l) (drop_once-nil ls)

pub key_refl : (key : EventKey) → key_beq key key ≡ true
key_refl key = (key_beq_iff key key).1 refl

pub store_or_remove_lem :
    (key : EventKey) (ls : List EventListener) (events : EventEmitter)
    → (listeners_of key (store_or_remove key ls events).0 ≡ ls)
      × ((store_or_remove key ls events).1 ≡ is_empty ls)
      × (contains_key key (store_or_remove key ls events).0 ≡ not (is_empty ls))
unfolding store_or_remove contains_key
store_or_remove_lem key [] events =
    ground (arith, get-remove key key events.listeners, key_refl key)
store_or_remove_lem key (l ∷ ls) events =
    ground (arith, get-insert key key (l ∷ ls) events.listeners, key_refl key)

pub finish_found_lem :
    (key : EventKey) (once : List ℕ) (events : EventEmitter) (o : Option (List EventListener))
    → let r = finish_found key once events o in
      let left = drop_once once (get_or_default o) in
      (listeners_of key r.0 ≡ left)
      × (r.1 ≡ is_empty left)
      × (contains_key key r.0 ≡ not (is_empty left))
unfolding contains_key
finish_found_lem key once events none =
    ground (arith, get-remove key key events.listeners, key_refl key)
finish_found_lem key once events (some ls) = store_or_remove_lem key (drop_once once ls) events

pub fail_found_lem :
    (key : EventKey) (once : List ℕ) (events : EventEmitter) (o : Option (List EventListener))
    → get key events.listeners ≡ o
    → listeners_of key (fail_found key once events o).0 ≡ drop_once once (get_or_default o)
fail_found_lem key once events none e = ap get_or_default e
fail_found_lem key once events (some ls) e = (store_or_remove_lem key (drop_once once ls) events).0

pub listeners_of-finish_ok :
    (key : EventKey) (once : List ℕ) (events : EventEmitter)
    → listeners_of key (finish_ok key once events).0 ≡ drop_once once (listeners_of key events)
unfolding finish_ok
listeners_of-finish_ok key once events =
    (finish_found_lem key once events (get key events.listeners)).0

pub listeners_of-finish_err :
    (key : EventKey) (once : List ℕ) (events : EventEmitter)
    → listeners_of key (finish_err key once events).0 ≡ drop_once once (listeners_of key events)
unfolding finish_err
listeners_of-finish_err key [] events = sym (drop_once-nil _)
listeners_of-finish_err key (f ∷ fs) events =
    fail_found_lem key (f ∷ fs) events (get key events.listeners) refl

-- A callback that also writes down which function was called, and what it threw.
abbrev pub logged : {W : Type 0} → Callback W → Callback (W × List (ℕ × Option Error))
logged call f events w =
    let (thrown, events', w') = call f events w.0 in
    (thrown, events', (w', w.1 ++ (f, thrown) ∷ []))

pub run_listeners-returned :
    {W : Type 0} (call : Callback W) (l : EventListener) (ls : List EventListener) (once : List ℕ)
    (events : EventEmitter) (w : W)
    → (call l.listener events w).0 ≡ none
    → run_listeners call (l ∷ ls) once events w
      ≡ run_listeners call ls
          (note_once l once)
          (call l.listener events w).1
          (call l.listener events w).2
unfolding run_listeners
run_listeners-returned call l ls once events w h = rw (h, run_listeners)

pub run_listeners-threw :
    {W : Type 0} (call : Callback W) (l : EventListener) (ls : List EventListener) (once : List ℕ)
    (events : EventEmitter) (w : W) (e : Error)
    → (call l.listener events w).0 ≡ some e
    → run_listeners call (l ∷ ls) once events w ≡ record {
      failed = some e;
      once = note_once l once;
      events = (call l.listener events w).1;
      world = (call l.listener events w).2;
    }
unfolding run_listeners
run_listeners-threw call l ls once events w e h = rw (h, run_listeners)

pub note_once-cons :
    (l : EventListener) (once : List ℕ) (ls : List EventListener)
    → note_once l once ++ once_functions ls ≡ once ++ once_functions (l ∷ ls)
note_once-cons l once ls = elim (Bool-cases l.once) [
  | inl h ↦ rw h (append_assoc once (l.listener ∷ []) (once_functions ls))
  | inr h ↦ rw h
]
