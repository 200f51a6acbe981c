-- ===== src/Event/Emit/Tidy.antt =====
-- What an emission leaves of an event type: its entry goes with its last listener.
use rong.Base.{
  ℕ, ◌≤◌, ◌≡◌, inl, inr, true, not, Option, none, some, List, [], ◌∷◌, arith, nat_eq, length,
  length-retain-le, contains, Option-cases,
}
use rong.Base.Assoc.{get, get-insert, get-remove}
use rong.Event.{
  EventKey, key_eq, key_beq_iff, EventListener, EventEmitter, ok, contains_key, has_listeners,
}
use rong.Event.View.{listeners_of}
use rong.Event.Emit.{
  Callback, Loop, Emission, store_or_remove, finish_found, finish_ok, fail_found, finish_err,
  conclude, emit_found, do_emit,
}
use rong.Event.Emit.Bookkeeping.{finish_found_lem}

abbrev IsTidy : {W : Type 0} → EventKey → Emission W → Type 0
IsTidy key r =
    (contains_key key r.events ≡ has_listeners key r.events)
    × (r.is_empty ≡ not (has_listeners key r.events))

conclude-IsTidy :
    {W : Type 0} (key : EventKey) (r : Loop W)
    → (conclude key r).result ≡ ok true
    → IsTidy key (conclude key r)
unfolding conclude has_listeners finish_ok
conclude-IsTidy key r h = elim (Option-cases r.failed) [
  | inl e ↦
      rw (e, conclude)
        (ground (arith, finish_found_lem key r.once r.events (get key r.events.listeners)))
  | inr (x, e) ↦ absurd (ground arith)
]

emit_found-IsTidy :
    {W : Type 0} (call : Callback W) (key : EventKey) (events : EventEmitter) (w : W)
    (o : Option (List EventListener))
    → (emit_found call key events w o).result ≡ ok true
    → IsTidy key (emit_found call key events w o)
unfolding emit_found
emit_found-IsTidy call key events w none h = absurd (cc)
emit_found-IsTidy call key events w (some []) h = absurd (cc)
emit_found-IsTidy call key events w (some (l ∷ ls)) h = conclude-IsTidy key _ h

-- After an emission that ran all listeners, the event has an entry exactly when a listener is left,
-- and the caller is told that it became empty exactly when none is.
pub do_emit-IsTidy :
    {W : Type 0} (call : Callback W) (key : EventKey) (events : EventEmitter) (w : W)
    → (do_emit call key events w).result ≡ ok true
    → (contains_key key (do_emit call key events w).events
        ≡ has_listeners key (do_emit call key events w).events)
      × ((do_emit call key events w).is_empty
          ≡ not (has_listeners key (do_emit call key events w).events))
unfolding do_emit
do_emit-IsTidy call key events w h =
    emit_found-IsTidy call key events w (get key events.listeners) h

pub shrink-get :
    (key j : EventKey) (ls : List EventListener) (events : EventEmitter)
    → length ls ≤ length (listeners_of key events)
    → length (listeners_of j (store_or_remove key ls events).0) ≤ length (listeners_of j events)
unfolding store_or_remove
shrink-get key j ls events h = ground (
  arith,
  get-insert key j ls events.listeners,
  get-remove key j events.listeners,
  key_beq_iff key j,
)

pub shrink-finish_ok :
    (key j : EventKey) (once : List ℕ) (events : EventEmitter)
    → length (listeners_of j (finish_ok key once events).0) ≤ length (listeners_of j events)
unfolding finish_ok
shrink-finish_ok key j once events = elim (Option-cases (get key events.listeners)) [
  | inl e ↦ rw (e, finish_found) (ground (arith, get-remove key j events.listeners))
  | inr (ls, e) ↦
      rw (e, finish_found)
        (shrink-get key j _ events (
          ground
            (arith, length-retain-le (λ (l : EventListener). not (contains l.listener once)) ls)))
]

pub shrink-finish_err :
    (key j : EventKey) (once : List ℕ) (events : EventEmitter)
    → length (listeners_of j (finish_err key once events).0) ≤ length (listeners_of j events)
unfolding finish_err
shrink-finish_err key j [] events = omega arith
shrink-finish_err key j (f ∷ fs) events = elim (Option-cases (get key events.listeners)) [
  | inl e ↦ rw (e, fail_found) (omega arith)
  | inr (ls, e) ↦
      rw (e, fail_found)
        (shrink-get key j _ events (
          ground (
            arith,
            length-retain-le (λ (l : EventListener). not (contains l.listener (f ∷ fs))) ls,
          )))
]
