-- ===== src/Event/Emit/Tests.antt =====
-- Runs of the emitter, and its theorems at concrete inputs.
use rong.Base.{
  ℕ, ◌≡◌, refl, ap, true, false, none, some, [], ◌∷◌, arith, codes, if◌then◌else◌, ◌==◌, nat_eq,
  ◌≤◌, not, ◌⊎◌, ◌<◌,
}
use rong.Base.Assoc.{get, insert, remove}
use rong.Event.{
  EventKey, str, key_eq, key_beq, overflow, EventEmitter, thrown, ok, err, new, add_listener,
  remove_listener, event_names, contains_key, has_listeners,
}
use rong.Event.Emit.{
  Callback, do_emit, emit_found, run_listeners, conclude, finish_ok, finish_err, store_or_remove,
}
use rong.Event.Emit.Bookkeeping.{logged}
use rong.Event.Emit.Once.{Emitted, do_emit-Emitted}
use rong.Event.Emit.Table.{IsBounded, add, off, emit, run, run-IsBounded}
use rong.Event.Emit.Tidy.{do_emit-IsTidy}
use rong.Event.View.{listeners_of, add_listener-view}

abbrev data_event : EventKey
data_event = str (codes "data")

-- Function 1 stays, function 2 is for one call, and so is a second entry of function 1.
abbrev mixed : EventEmitter
mixed = record {
  listeners =
      (
        data_event,
        record { listener = 1; once = false }
            ∷ record { listener = 2; once = true }
            ∷ record { listener = 1; once = true }
            ∷ [],
      )
      ∷ [];
  max_listener = 10;
}

-- Function 3 throws, and no function touches the emitter.
abbrev calm : Callback ℕ
calm f events w = (if f == 3 then some (thrown 7) else none, events, w)

runs : Unit {0}
unfolding do_emit emit_found run_listeners conclude finish_ok finish_err store_or_remove get insert
    remove remove_listener contains_key event_names add_listener
runs = tt

-- The lasting entry of function 1 goes with the one that was for one call.
emit_mixed : do_emit (logged calm) data_event mixed (0, []) ≡ record {
  result = ok true;
  is_empty = true;
  events = record { listeners = []; max_listener = 10 };
  world = (0, (1, none) ∷ (2, none) ∷ (1, none) ∷ []);
}
unfolding runs
emit_mixed = refl

-- A listener that throws ends the emission; what ran for one call is dropped all the same.
emit_throws :
    do_emit
      (logged calm)
      data_event
      (record mixed {
        listeners =
            (
              data_event,
              record { listener = 2; once = true }
                  ∷ record { listener = 3; once = false }
                  ∷ record { listener = 1; once = false }
                  ∷ [],
            )
            ∷ [];
      })
      (0, [])
    ≡ record {
      result = err (thrown 7);
      is_empty = false;
      events = record {
        listeners =
            (
              data_event,
              record { listener = 3; once = false } ∷ record { listener = 1; once = false } ∷ [],
            )
            ∷ [];
        max_listener = 10;
      };
      world = (0, (2, none) ∷ (3, some (thrown 7)) ∷ []);
    }
unfolding runs
emit_throws = refl

calm_keeps :
    (f : ℕ) (events : EventEmitter) (w : ℕ) → IsBounded events → IsBounded (calm f events w).1
calm_keeps f events w v = v

empty-IsBounded : IsBounded new
unfolding new get
empty-IsBounded = record { small = omega arith; within = λ j. omega arith }

add_listener-view_example :
    (0 < 10)
      × ((events' : EventEmitter) × (add_listener data_event 5 false true new
            ≡ ok (not (contains_key data_event new), events'))
          × (events'.max_listener ≡ 10)
          × ((j : EventKey)
              → listeners_of j events'
                ≡ (if key_beq data_event j then record { listener = 5; once = true } ∷ [] else [])))
    ⊎ ((10 ≤ 0) × (add_listener data_event 5 false true new ≡ err (overflow 1)))
unfolding new get
add_listener-view_example = add_listener-view data_event 5 false true new (omega arith)

do_emit-Emitted_example : Emitted data_event mixed (do_emit (logged calm) data_event mixed (0, []))
do_emit-Emitted_example = do_emit-Emitted calm data_event mixed 0

do_emit-IsTidy_example :
    (contains_key data_event (do_emit (logged calm) data_event mixed (0, [])).events
      ≡ has_listeners data_event (do_emit (logged calm) data_event mixed (0, [])).events)
    × ((do_emit (logged calm) data_event mixed (0, [])).is_empty
        ≡ not (has_listeners data_event (do_emit (logged calm) data_event mixed (0, [])).events))
do_emit-IsTidy_example =
    do_emit-IsTidy (logged calm) data_event mixed (0, []) (ap (λ r. r.result) emit_mixed)

run-IsBounded_example :
    IsBounded
      (run calm (add data_event 1 false true ∷ emit data_event ∷ off data_event 1 ∷ []) (new, 0)).0
run-IsBounded_example =
    run-IsBounded calm calm_keeps
      (add data_event 1 false true ∷ emit data_event ∷ off data_event 1 ∷ []) new 0 empty-IsBounded
