-- ===== src/Event/Emit/Table.antt =====
-- The size of the table: no event type ever has more listeners than the limit.
use rong.Base.{
  ℕ, ◌+◌, ◌^◌, ◌<◌, ◌≤◌, ◌≡◌, inl, inr, Bool, true, false, Option, none, some, List, [], ◌∷◌, arith,
  if◌then◌else◌, ◌==◌, nat_eq, length, length-append, length-retain-le, Option-cases,
}
use rong.Base.Assoc.{get}
use rong.Event.{
  EventKey, symbol, key_eq, EventListener, EventEmitter, Result, ok, err, placed, keeps,
  add_listener, remove_listener, remove_all_listeners,
}
use rong.Event.View.{
  listeners_of, add_listener-view, remove_listener-view, remove_all_listeners-view,
  max_listener-remove,
}
use rong.Event.Emit.{
  note_once, Callback, Loop, store_or_remove, finish_ok, finish_err, run_listeners, conclude,
  emit_found, do_emit,
}
use rong.Event.Emit.Bookkeeping.{run_listeners-returned, run_listeners-threw}
use rong.Event.Emit.Tidy.{shrink-finish_ok, shrink-finish_err}

-- No event type has more listeners than the limit, which a `u32` holds.
pub record IsBounded (events : EventEmitter) : Type 0 where
  pub small : events.max_listener < 2 ^ 32
  pub within : (j : EventKey) → length (listeners_of j events) ≤ events.max_listener

max_listener-finish :
    (key : EventKey) (once : List ℕ) (events : EventEmitter)
    → ((finish_ok key once events).0.max_listener ≡ events.max_listener)
      × ((finish_err key once events).0.max_listener ≡ events.max_listener)
unfolding finish_ok finish_err store_or_remove
max_listener-finish key once events = ground arith

conclude-IsBounded :
    {W : Type 0} (key : EventKey) (r : Loop W)
    → IsBounded r.events
    → IsBounded (conclude key r).events
unfolding conclude
conclude-IsBounded key r v = elim (Option-cases r.failed) [
  | inl e ↦
      rw (e, conclude)
        (record {
          small = omega (arith, v.small, (max_listener-finish key r.once r.events).0);
          within = λ j. omega (
            arith,
            shrink-finish_ok key j r.once r.events,
            v.within j,
            (max_listener-finish key r.once r.events).0,
          );
        })
  | inr (x, e) ↦
      rw (e, conclude)
        (record {
          small = omega (arith, v.small, (max_listener-finish key r.once r.events).1);
          within = λ j. omega (
            arith,
            shrink-finish_err key j r.once r.events,
            v.within j,
            (max_listener-finish key r.once r.events).1,
          );
        })
]

module _ {W : Type 0} (call : Callback W)
    (keeps : (f : ℕ) (events : EventEmitter) (w : W)
      → IsBounded events
      → IsBounded (call f events w).1) where
  run_listeners-IsBounded :
      (ls : List EventListener) (once : List ℕ) (events : EventEmitter) (w : W)
      → IsBounded events
      → IsBounded (run_listeners call ls once events w).events
  unfolding run_listeners
  run_listeners-IsBounded [] once events w v = v
  run_listeners-IsBounded (l ∷ ls) once events w v =
      let (thrown, events', w') = call l.listener events w in
      let v' = keeps l.listener events w v in
      elim (Option-cases (call l.listener events w).0) [
        | inl h ↦
            rw (run_listeners-returned call l ls once events w h)
              (run_listeners-IsBounded ls (note_once l once) events' w' v')
        | inr (e, h) ↦ rw (run_listeners-threw call l ls once events w e h) v'
      ]

  emit_found-IsBounded :
      (key : EventKey) (events : EventEmitter) (w : W) (o : Option (List EventListener))
      → IsBounded events
      → IsBounded (emit_found call key events w o).events
  unfolding emit_found
  emit_found-IsBounded key events w none v = v
  emit_found-IsBounded key events w (some []) v = v
  emit_found-IsBounded key events w (some (l ∷ ls)) v =
      conclude-IsBounded key _ (run_listeners-IsBounded (l ∷ ls) [] events w v)

  -- An emission keeps every event type within the limit if its callbacks do.
  pub do_emit-IsBounded :
      (key : EventKey) (events : EventEmitter) (w : W)
      → IsBounded events
      → IsBounded (do_emit call key events w).events
  unfolding do_emit
  do_emit-IsBounded key events w v = emit_found-IsBounded key events w (get key events.listeners) v

length-placed :
    (prepend : Bool) (l : EventListener) (ls : List EventListener)
    → length (placed prepend l ls) ≡ length ls + 1
length-placed true l ls = omega arith
length-placed false l ls = omega (arith, length-append ls (l ∷ []))

IsBounded-by_view :
    (key : EventKey) (ls : List EventListener) (events events' : EventEmitter)
    → length ls ≤ events.max_listener
    → events'.max_listener ≡ events.max_listener
    → ((j : EventKey) → listeners_of j events' ≡ (if key == j then ls else listeners_of j events))
    → IsBounded events
    → IsBounded events'
IsBounded-by_view key ls events events' fits same view v = record {
  small = omega (arith, v.small);
  within = λ j. ground (arith, view j, v.within j);
}

abbrev after : EventEmitter → Result (Bool × EventEmitter) → EventEmitter
after events (ok r) = r.1
after events (err e) = events

add_listener-IsBounded :
    (key : EventKey) (f : ℕ) (prepend once : Bool) (events : EventEmitter)
    → IsBounded events
    → IsBounded (after events (add_listener key f prepend once events))
add_listener-IsBounded key f prepend once events v =
    elim (add_listener-view key f prepend once events (omega (arith, v.within key, v.small))) [
      | inl (room, (made, eq, same, view)) ↦
          rw (eq, after)
            (IsBounded-by_view key _ events made
              (omega (
                arith,
                length-placed prepend (record { listener = f; once = once })
                    (listeners_of key events),
              ))
              same view v)
      | inr (full, eq) ↦ rw (eq, after) v
    ]

remove_listener-IsBounded :
    (key : EventKey) (f : ℕ) (events : EventEmitter)
    → IsBounded events
    → IsBounded (remove_listener key f events)
remove_listener-IsBounded key f events v = record {
  small = omega (arith, v.small, (max_listener-remove key f none events).0);
  within = λ j. ground (
    arith,
    remove_listener-view key j f events,
    length-retain-le (keeps f) (listeners_of j events),
    v.within j,
    (max_listener-remove key f none events).0,
  );
}

clear-IsBounded :
    (which : Option EventKey) (events : EventEmitter)
    → IsBounded events
    → IsBounded (remove_all_listeners which events)
clear-IsBounded which events v = record {
  small = omega (arith, v.small, (max_listener-remove (symbol 0) 0 which events).1);
  within = λ j. ground (
    arith,
    remove_all_listeners-view which j events,
    v.within j,
    (max_listener-remove (symbol 0) 0 which events).1,
  );
}

-- One call on an emitter: `on`, `off`, `removeAllListeners` or `emit`.
pub data Call : Type 0 where
  add : (key : EventKey) (listener : ℕ) (prepend once : Bool) → Call
  off : (key : EventKey) (listener : ℕ) → Call
  clear : Option EventKey → Call
  emit : EventKey → Call

-- A call leaves a new table and a new state of the program.
pub apply : {W : Type 0} → Callback W → Call → EventEmitter × W → EventEmitter × W
apply call (add key f prepend once) (events, w) =
    (after events (add_listener key f prepend once events), w)
apply call (off key f) (events, w) = (remove_listener key f events, w)
apply call (clear which) (events, w) = (remove_all_listeners which events, w)
apply call (emit key) (events, w) = let r = do_emit call key events w in (r.events, r.world)

pub run : {W : Type 0} → Callback W → List Call → EventEmitter × W → EventEmitter × W
run call [] s = s
run call (c ∷ cs) s = run call cs (apply call c s)

-- However an emitter is used, short of raising or lowering the limit, no event type ever has more
-- listeners than the limit, if none had at first, the limit is below `2 ^ 32`, and the callbacks
-- keep to that themselves.
pub run-IsBounded :
    {W : Type 0} (call : Callback W)
    → ((f : ℕ) (events : EventEmitter) (w : W) → IsBounded events → IsBounded (call f events w).1)
    → (cs : List Call) (events : EventEmitter) (w : W) → IsBounded events
    → IsBounded (run call cs (events, w)).0
unfolding run apply
run-IsBounded call keep [] events w v = v
run-IsBounded call keep (add key f prepend once ∷ cs) events w v =
    run-IsBounded call keep cs _ w (add_listener-IsBounded key f prepend once events v)
run-IsBounded call keep (off key f ∷ cs) events w v =
    run-IsBounded call keep cs _ w (remove_listener-IsBounded key f events v)
run-IsBounded call keep (clear which ∷ cs) events w v =
    run-IsBounded call keep cs _ w (clear-IsBounded which events v)
run-IsBounded call keep (emit key ∷ cs) events w v =
    run-IsBounded call keep cs _ _ (do_emit-IsBounded call keep key events w v)
