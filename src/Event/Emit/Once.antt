-- ===== src/Event/Emit/Once.antt =====
-- What an emission runs, and what it leaves in the table, whatever the callbacks do.
use rong.Base.{
  All, ℕ, ◌≡◌, refl, ap, sym, ◌∙◌, ◌≢◌, ◌⊎◌, inl, inr, true, false, Option, none, some, List, [],
  ◌∷◌, ◌++◌, arith, nat_eq, Option-cases, append-nil, append_assoc, map, subst,
}
use rong.Base.Assoc.{get}
use rong.Event.{EventKey, key_eq, EventListener, EventEmitter, Error, ok, err, get_or_default}
use rong.Event.View.{listeners_of}
use rong.Event.Emit.{
  Callback, Loop, Emission, drop_once, note_once, run_listeners, conclude, emit_found, do_emit,
}
use rong.Event.Emit.Bookkeeping.{
  registered, once_functions, All-registered, listeners_of-finish_ok, listeners_of-finish_err,
  logged, run_listeners-returned, run_listeners-threw, note_once-cons,
}

abbrev pub Log : Type 0
Log = List (ℕ × Option Error)

-- The calls of listeners that return.
abbrev pub returned : List EventListener → Log
returned = map λ l. (l.listener, none)

-- Of the listeners called, the last threw `e`, and the ones before it returned.
pub record Threw (called : List EventListener) (e : Error) (log log' : Log) : Type 0 where
  pub before : List EventListener
  pub last : EventListener
  pub called_last : called ≡ before ++ last ∷ []
  pub calls : log' ≡ log ++ (returned before ++ (last.listener, some e) ∷ [])

-- The listeners that an emission reaches are a prefix of the snapshot `ls`, in order: all of it if
-- none throws, and otherwise up to the first that does. `once` are the functions noted before, and
-- `log` the calls made before.
pub record Ran {W : Type 0} (ls : List EventListener) (once : List ℕ) (log : Log)
    (r : Loop (W × Log)) : Type 0 where
  pub called : List EventListener
  pub skipped : List EventListener
  pub split : ls ≡ called ++ skipped
  pub noted : r.once ≡ once ++ once_functions called
  pub complete :
      ((r.failed ≡ none) × (skipped ≡ []) × (r.world.1 ≡ log ++ returned called))
      ⊎ ((e : Error) × (r.failed ≡ some e) × Threw called e log r.world.1)

Ran-nil :
    {W : Type 0} (once : List ℕ) (log : Log) (events : EventEmitter) (w : W)
    → Ran [] once log (record { failed = none; once = once; events = events; world = (w, log) })
Ran-nil once log events w = record {
  called = [];
  skipped = [];
  split = refl;
  noted = sym (append-nil once);
  complete = inl (refl, refl, sym (append-nil log));
}

Ran-threw :
    {W : Type 0} (l : EventListener) (ls : List EventListener) (once : List ℕ) (log : Log)
    (events : EventEmitter) (w : W) (thrown : Option Error) (e : Error)
    → thrown ≡ some e
    → Ran (l ∷ ls) once log (record {
      failed = some e;
      once = note_once l once;
      events = events;
      world = (w, log ++ (l.listener, thrown) ∷ []);
    })
Ran-threw l ls once log events w thrown e h = record {
  called = l ∷ [];
  skipped = ls;
  split = refl;
  noted = sym (append-nil _) ∙ note_once-cons l once [];
  complete = inr (
    e,
    refl,
    record {
      before = [];
      last = l;
      called_last = refl;
      calls = ap (λ t. log ++ (l.listener, t) ∷ []) h;
    },
  );
}

-- One more listener that returned, before the others.
Threw-cons :
    (l : EventListener) (called : List EventListener) (e : Error) (log log' : Log)
    → Threw called e (log ++ (l.listener, none) ∷ []) log'
    → Threw (l ∷ called) e log log'
Threw-cons l called e log log' t = record {
  before = l ∷ t.before;
  last = t.last;
  called_last = ap (◌∷◌ l) t.called_last;
  calls =
      t.calls
      ∙ append_assoc log ((l.listener, none) ∷ [])
          (returned t.before ++ (t.last.listener, some e) ∷ []);
}

Ran-cons :
    {W : Type 0} (l : EventListener) (ls : List EventListener) (once : List ℕ) (log : Log)
    (thrown : Option Error) (r : Loop (W × Log))
    → thrown ≡ none
    → Ran ls (note_once l once) (log ++ (l.listener, thrown) ∷ []) r
    → Ran (l ∷ ls) once log r
Ran-cons {W = W} l ls once log thrown r h ran' =
    let ran : Ran {W = W} ls (note_once l once) (log ++ (l.listener, none) ∷ []) r =
      subst (λ t. Ran {W = W} ls (note_once l once) (log ++ (l.listener, t) ∷ []) r) h ran' in
    record {
      called = l ∷ ran.called;
      skipped = ran.skipped;
      split = ap (◌∷◌ l) ran.split;
      noted = ran.noted ∙ note_once-cons l once ran.called;
      complete = elim ran.complete [
        | inl (f, all, calls) ↦
            inl (f, all, calls ∙ append_assoc log ((l.listener, none) ∷ []) (returned ran.called))
        | inr (e, f, t) ↦ inr (e, f, Threw-cons l ran.called e log r.world.1 t)
      ];
    }

-- What an emission of `key` did, `w` being the state of the program before it.
pub record Emitted {W : Type 0} (key : EventKey) (events : EventEmitter) (r : Emission (W × Log))
    : Type 0 where
  pub called : List EventListener
  pub skipped : List EventListener
  pub split : listeners_of key events ≡ called ++ skipped
  pub outcome :
      ((r.result ≡ ok true)
        × (listeners_of key events ≢ [])
        × (skipped ≡ [])
        × (r.world.1 ≡ returned called))
      ⊎ ((r.result ≡ ok false) × (listeners_of key events ≡ []) × (r.world.1 ≡ []))
      ⊎ ((e : Error) × (r.result ≡ err e) × Threw called e [] r.world.1)
  pub spent : All (λ f. registered f (listeners_of key r.events) ≡ false) (once_functions called)

Emitted-idle :
    {W : Type 0} (key : EventKey) (events : EventEmitter) (w : W)
    → listeners_of key events ≡ []
    → Emitted key events
        (record { result = ok false; is_empty = false; events = events; world = (w, []) })
Emitted-idle key events w e = record {
  called = [];
  skipped = [];
  split = e;
  outcome = inr (inl (refl, e, refl));
  spent = tt;
}

listeners_of-conclude :
    {W : Type 0} (key : EventKey) (r : Loop W)
    → listeners_of key (conclude key r).events ≡ drop_once r.once (listeners_of key r.events)
unfolding conclude
listeners_of-conclude key r = elim (Option-cases r.failed) [
  | inl h ↦ rw (h, conclude) (listeners_of-finish_ok key r.once r.events)
  | inr (e, h) ↦ rw (h, conclude) (listeners_of-finish_err key r.once r.events)
]

world-conclude : {W : Type 0} (key : EventKey) (r : Loop W) → (conclude key r).world ≡ r.world
unfolding conclude
world-conclude key r = ground arith

-- What `conclude` answers, given what the loop did.
conclude_outcome :
    {W : Type 0} (key : EventKey) (ls : List EventListener) (r : Loop (W × Log))
    → (ran : Ran ls [] [] r) → ls ≢ []
    → (((conclude key r).result ≡ ok true)
        × (ls ≢ [])
        × (ran.skipped ≡ [])
        × ((conclude key r).world.1 ≡ returned ran.called))
      ⊎ (((conclude key r).result ≡ ok false) × (ls ≡ []) × ((conclude key r).world.1 ≡ []))
      ⊎ ((e : Error) × ((conclude key r).result ≡ err e)
          × Threw ran.called e [] (conclude key r).world.1)
unfolding conclude
conclude_outcome key ls r ran h = elim ran.complete [
  | inl (e, all, calls) ↦
      inl (rw (e, conclude), h, all, ap (λ s. s.1) (world-conclude key r) ∙ calls)
  | inr (e, f, t) ↦
      let w = sym (ap (λ s. s.1) (world-conclude key r)) in
      inr (inr (e, rw (f, conclude), subst (Threw ran.called e []) w t))
]

conclude-Emitted :
    {W : Type 0} (key : EventKey) (events : EventEmitter) (l : EventListener)
    (ls : List EventListener) (r : Loop (W × Log))
    → listeners_of key events ≡ l ∷ ls
    → Ran (l ∷ ls) [] [] r
    → Emitted key events (conclude key r)
conclude-Emitted key events l ls r same ran = record {
  called = ran.called;
  skipped = ran.skipped;
  split = same ∙ ran.split;
  outcome = rw same (conclude_outcome key (l ∷ ls) r ran (λ h. cc));
  spent =
      rw (listeners_of-conclude key r, ran.noted)
        (All-registered (once_functions ran.called) (listeners_of key r.events));
}

module _ {W : Type 0} (call : Callback W) where
  run_listeners-Ran :
      (ls : List EventListener) (once : List ℕ) (events : EventEmitter) (w : W) (log : Log)
      → Ran ls once log (run_listeners (logged call) ls once events (w, log))
  unfolding run_listeners
  run_listeners-Ran [] once events w log = Ran-nil once log events w
  run_listeners-Ran (l ∷ ls) once events w log =
      let (thrown, events', w') = call l.listener events w in
      let ih =
        run_listeners-Ran ls (note_once l once) events' w' (log ++ (l.listener, thrown) ∷ []) in
      elim (Option-cases (call l.listener events w).0) [
        | inl h ↦
            rw (run_listeners-returned (logged call) l ls once events (w, log) h)
              (Ran-cons l ls once log thrown _ h ih)
        | inr (e, h) ↦
            rw (run_listeners-threw (logged call) l ls once events (w, log) e h)
              (Ran-threw l ls once log events' w' thrown e h)
      ]

  emit_found-Emitted :
      (key : EventKey) (events : EventEmitter) (w : W) (o : Option (List EventListener))
      → get key events.listeners ≡ o
      → Emitted key events (emit_found (logged call) key events (w, []) o)
  unfolding emit_found
  emit_found-Emitted key events w none e = Emitted-idle key events w (ap get_or_default e)
  emit_found-Emitted key events w (some []) e = Emitted-idle key events w (ap get_or_default e)
  emit_found-Emitted key events w (some (l ∷ ls)) e =
      conclude-Emitted key events l ls _ (ap get_or_default e)
        (run_listeners-Ran (l ∷ ls) [] events w [])

  -- An emission calls the listeners that were there when it began, in their order, each once, up to
  -- the first that throws: callbacks that add or remove listeners do not change which are called.
  -- It answers true when there are some and all of them have returned, false when there are none,
  -- and otherwise the error of the last one called, all before that having returned. No `once`
  -- listener that it reached is registered for the event when it returns, an exception or not.
  pub do_emit-Emitted :
      (key : EventKey) (events : EventEmitter) (w : W)
      → Emitted key events (do_emit (logged call) key events (w, []))
  unfolding do_emit
  do_emit-Emitted key events w = emit_found-Emitted key events w (get key events.listeners) refl
