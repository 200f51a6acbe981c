-- ===== src/Event/Emit.antt =====
-- `EventEmitter::do_emit` and `EmitterExt::do_emit`. A callback is any change of the emitter and of
-- the rest of the program's state, `W`, that may throw; it may add and remove listeners.
pub mod Bookkeeping
pub mod Once
pub mod Tidy
pub mod Table
mod Tests
use rong.Base.{
  ℕ, Bool, true, false, not, Option, none, some, List, [], ◌∷◌, ◌++◌, if◌then◌else◌, nat_eq, retain,
  contains,
}
use rong.Base.Assoc.{get, insert, remove}
use rong.Event.{
  EventKey, key_eq, EventListener, EventEmitter, Error, Result, ok, err, is_empty, add_listener,
}

-- `listeners.retain(|l| !once_listeners_to_remove.contains(&l.listener))`.
abbrev pub drop_once : List ℕ → List EventListener → List EventListener
drop_once once = retain λ l. not (contains l.listener once)

-- The table after the entry of `key` has become `ls`, and whether the entry is gone.
pub store_or_remove : EventKey → List EventListener → EventEmitter → EventEmitter × Bool
store_or_remove key ls events =
    if is_empty ls
    then (record events { listeners = remove key events.listeners }, true)
    else (record events { listeners = insert key ls events.listeners }, false)

-- The bookkeeping after the last callback has returned.
abbrev pub finish_found :
    EventKey → List ℕ → EventEmitter → Option (List EventListener) → EventEmitter × Bool
finish_found key once events none =
    (record events { listeners = remove key events.listeners }, true)
finish_found key once events (some ls) = store_or_remove key (drop_once once ls) events

pub finish_ok : EventKey → List ℕ → EventEmitter → EventEmitter × Bool
finish_ok key once events = finish_found key once events (get key events.listeners)

-- The bookkeeping after a callback has thrown: nothing, if no `once` listener was reached.
abbrev pub fail_found :
    EventKey → List ℕ → EventEmitter → Option (List EventListener) → EventEmitter × Bool
fail_found key once events none = (events, true)
fail_found key once events (some ls) = store_or_remove key (drop_once once ls) events

pub finish_err : EventKey → List ℕ → EventEmitter → EventEmitter × Bool
finish_err key [] events = (events, false)
finish_err key (f ∷ fs) events = fail_found key (f ∷ fs) events (get key events.listeners)

pub record Emission (W : Type 0) : Type 0 where
  pub result : Result Bool
  pub is_empty : Bool
  pub events : EventEmitter
  pub world : W

-- What the loop over the snapshot leaves: the exception, the `once` functions met, and the state.
pub record Loop (W : Type 0) : Type 0 where
  pub failed : Option Error
  pub once : List ℕ
  pub events : EventEmitter
  pub world : W

abbrev pub note_once : EventListener → List ℕ → List ℕ
note_once l once = if l.once then once ++ l.listener ∷ [] else once

abbrev pub Callback : Type 0 → Type 0
Callback W = ℕ → EventEmitter → W → Option Error × EventEmitter × W

-- `do_emit` once the loop has ended.
conclude : {W : Type 0} → EventKey → Loop W → Emission W
conclude key r =
    let (kept, gone) = finish_ok key r.once r.events in
    let (kept', gone') = finish_err key r.once r.events in
    elim r.failed [
      | none ↦ record { result = ok true; is_empty = gone; events = kept; world = r.world }
      | some e ↦ record { result = err e; is_empty = gone'; events = kept'; world = r.world }
    ]

module _ {W : Type 0} (call : Callback W) where
  pub run_listeners : List EventListener → List ℕ → EventEmitter → W → Loop W
  run_listeners [] once events w = record { failed = none; once = once; events = events; world = w }
  run_listeners (l ∷ ls) once events w =
      let (thrown, events', w') = call l.listener events w in
      let rest = run_listeners ls (note_once l once) events' w' in
      elim thrown [
        | some e ↦ record { failed = some e; once = note_once l once; events = events'; world = w' }
        | none ↦ rest
      ]

  emit_found : EventKey → EventEmitter → W → Option (List EventListener) → Emission W
  unfolding conclude
  emit_found key events w (some (l ∷ ls)) = conclude key (run_listeners (l ∷ ls) [] events w)
  emit_found key events w _ = record {
    result = ok false;
    is_empty = false;
    events = events;
    world = w;
  }

  pub do_emit : EventKey → EventEmitter → W → Emission W
  unfolding emit_found
  do_emit key events w = emit_found key events w (get key events.listeners)

-- `EmitterExt`: the hook `on_event_changed` of the class that holds the emitter.
abbrev pub Hook : Type 0 → Type 0
Hook W = EventKey → Bool → EventEmitter → W → Option Error × EventEmitter × W

module _ {W : Type 0} (call : Callback W) (on_event_changed : Hook W) where
  pub ext_do_emit : EventKey → EventEmitter → W → Result Bool × EventEmitter × W
  ext_do_emit key events w =
      let r = do_emit call key events w in
      let (failed, events', w') = on_event_changed key false r.events r.world in
      if r.is_empty
      then (elim failed [ none ↦ r.result | some e ↦ err e ], events', w')
      else (r.result, r.events, r.world)

  -- A full table is reported before the hook runs.
  pub ext_add_listener :
      EventKey → ℕ → Bool → Bool → EventEmitter → W → Result (Unit {0}) × EventEmitter × W
  ext_add_listener key listener prepend once events w =
      elim (add_listener key listener prepend once events) [
        | err e ↦ (err e, events, w)
        | ok added ↦
            let (failed, events', w') = on_event_changed key true added.1 w in
            if added.0
            then (elim failed [ none ↦ ok tt | some e ↦ err e ], events', w')
            else (ok tt, added.1, w)
      ]
