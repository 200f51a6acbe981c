-- ===== src/Timer/Queue.antt =====
-- An interval queues no second tick before the first has been handled.
use rong.Base.{
  ℕ, ◌≤◌, ◌≡◌, ◌≢◌, ◌⊎◌, inl, inr, refl, ap, Bool, true, false, ◌&&◌, Option, none, some, List, [],
  ◌∷◌, arith, if◌then◌else◌, nat_eq, Bool-cases,
}
use rong.Base.Assoc.{get, remove}
use rong.Timer.{
  TimerTick, TimerEntry, sleep, Phase, absent, over, Running, TimerRegistry, new,
  set_timeout_with_repeat, sleep_async, cancel_timer, shutdown, wake, rest, notice, reap, abort,
  receive, receive_found, call_entry, return_from, close,
}
use rong.Timer.Step.{
  IsDue, IsSelecting, Step, set, nap, elapse, clear, handled, stopped, joined, dropped, received,
  returned, closed, ended, Steps, here, next,
}
use rong.Timer.Paced.{
  queued, in_callback, ticks, IsPaced, still-IsPaced, cancel_timer-IsStill, cancel_all-IsStill,
  lower-IsPaced, IsOwed, still-IsOwed,
}
use rong.Timer.Sending.{
  if-elim, begun-IsPaced, drop-IsPaced, wake_kind-IsPaced, notice_kind-IsPaced, spawn-IsPaced,
}

-- The tick at the head of the queue is gone, and its flag not yet lowered.
head-IsOwed :
    (tick : TimerTick) (rest : List TimerTick) (timers : List (ℕ × TimerEntry)) (s : TimerRegistry)
    → s.queue ≡ tick ∷ rest
    → IsPaced s
    → IsOwed tick.task (record s { queue = rest; timers = timers })
unfolding queued
head-IsOwed tick rest timers s q v = record {
  bound = λ j. omega (arith, ap (queued j) q, v.bound j);
  unmade = v.unmade;
}

call_entry-IsPaced :
    (tick : TimerTick) (rest : List TimerTick) (timers : List (ℕ × TimerEntry)) (repeat : Bool)
    (s : TimerRegistry) (o : Option ℕ)
    → s.queue ≡ tick ∷ rest
    → IsPaced s
    → IsPaced (call_entry tick repeat (record s { queue = rest; timers = timers }) o)
unfolding queued
call_entry-IsPaced tick rest timers repeat s none q v =
    lower-IsPaced tick.task _ (head-IsOwed tick rest timers s q v)
call_entry-IsPaced tick rest timers repeat s (some f) q v = record {
  bound = λ j. omega (arith, ap (queued j) q, v.bound j);
  unmade = v.unmade;
}

receive_found-IsPaced :
    (tick : TimerTick) (rest : List TimerTick) (s : TimerRegistry) (o : Option TimerEntry)
    → s.queue ≡ tick ∷ rest
    → IsPaced s
    → IsPaced (receive_found tick (record s { queue = rest }) o)
receive_found-IsPaced tick rest s none q v =
    lower-IsPaced tick.task _ (head-IsOwed tick rest s.timers s q v)
receive_found-IsPaced tick rest s (some entry) q v =
    if-elim (λ u. IsPaced (call_entry tick entry.repeat u entry.callback)) entry.repeat
      (record s { queue = rest }) (record s { queue = rest; timers = remove tick.id s.timers })
      (λ r. call_entry-IsPaced tick rest s.timers entry.repeat s entry.callback q v)
      λ r. call_entry-IsPaced tick rest (remove tick.id s.timers) entry.repeat s entry.callback q v

return_from-IsPaced :
    (r : Running) (failed : Bool) (s : TimerRegistry)
    → s.running ≡ some r
    → IsPaced s
    → IsPaced (return_from r failed s)
unfolding return_from
return_from-IsPaced r failed s e v =
    let s' : TimerRegistry = record s { running = none } in
    let owed : IsOwed r.tick.task s' = record {
      bound = λ j. omega (arith, ap (in_callback j) e, v.bound j);
      unmade = v.unmade;
    } in
    lower-IsPaced r.tick.task _ (
      if-elim (IsOwed r.tick.task) (failed && r.repeat) (cancel_timer r.tick.id s') s'
        (λ b. still-IsOwed r.tick.task s' _ (cancel_timer-IsStill r.tick.id s') owed) λ b. owed)

close-IsPaced : (s : TimerRegistry) → IsPaced s → IsPaced (close s)
unfolding close queued
close-IsPaced s v = record { bound = λ j. omega (arith, v.bound j); unmade = v.unmade }

shutdown-IsPaced : (s : TimerRegistry) → IsPaced s → IsPaced (shutdown s)
unfolding shutdown
shutdown-IsPaced s v =
    still-IsPaced (record s { timers = [] }) _
      (cancel_all-IsStill s.timers (record s { timers = [] }))
      (record { bound = v.bound; unmade = v.unmade })

due_begun : (p : Phase) → IsDue p → p ≢ absent
due_begun p (inl e) a = absurd (cc)
due_begun p (inr (ms, e)) a = absurd (cc)

selecting_begun : (p : Phase) (pending : Bool) → IsSelecting p pending → p ≢ absent
selecting_begun p pending (inl (ms, e)) a = absurd (cc)
selecting_begun p pending (inr (e, up)) a = absurd (cc)

if-IsPaced : (b : Bool) (s t : TimerRegistry) → IsPaced s → IsPaced t → IsPaced (if b then s else t)
if-IsPaced true s t v u = v
if-IsPaced false s t v u = u

reap-IsPaced :
    (k : ℕ) (queued : Bool) (s : TimerRegistry)
    → (s.tasks k).phase ≢ absent
    → IsPaced s
    → IsPaced (reap k queued s)
unfolding reap
reap-IsPaced k true s begun v = begun-IsPaced k over s begun v
reap-IsPaced k false s begun v = drop-IsPaced k (s.tasks k).id s begun v

Step-IsPaced : {s t : TimerRegistry} → Step s t → IsPaced s → IsPaced t
unfolding receive sleep_async set_timeout_with_repeat wake rest notice abort
Step-IsPaced (set s f delay repeat) v = spawn-IsPaced _ _ delay s v
Step-IsPaced (nap s delay) v = spawn-IsPaced sleep _ delay s v
Step-IsPaced (clear s id) v = still-IsPaced s _ (cancel_timer-IsStill id s) v
Step-IsPaced (elapse s k h) v =
    wake_kind-IsPaced (s.tasks k).kind k s (due_begun (s.tasks k).phase h) v
Step-IsPaced (handled s k h p) v = begun-IsPaced k _ s (λ a. absurd (cc)) v
Step-IsPaced (stopped s k c h) v =
    notice_kind-IsPaced (s.tasks k).kind k s
      (selecting_begun (s.tasks k).phase (s.tasks k).pending h) v
Step-IsPaced (joined s k queued h) v = reap-IsPaced k queued s (λ a. absurd (cc)) v
Step-IsPaced (dropped s k h) v = drop-IsPaced k (s.tasks k).id s h.0 v
Step-IsPaced (received s tick rest q h) v =
    receive_found-IsPaced tick rest s (get tick.id s.timers) q v
Step-IsPaced (returned s r failed h) v = return_from-IsPaced r failed s h v
Step-IsPaced (closed s h) v = close-IsPaced s v
Step-IsPaced (ended s) v = shutdown-IsPaced s v

Steps-IsPaced : {t : TimerRegistry} → Steps new t → IsPaced t
unfolding queued
Steps-IsPaced here = record { bound = λ k. omega arith; unmade = λ k h. (refl, refl) }
Steps-IsPaced (next steps step) = Step-IsPaced step (Steps-IsPaced steps)

-- However the tasks interleave, of one timer at most one tick waits in the queue or has its callback
-- running, and none does while its `pending` flag is down.
pub one_tick :
    (t : TimerRegistry) (k : ℕ)
    → Steps new t
    → (ticks k t ≤ 1) × (((t.tasks k).pending ≡ true) ⊎ (ticks k t ≡ 0))
one_tick t k steps =
    let v = Steps-IsPaced steps in
    elim (Bool-cases (t.tasks k).pending) [
      | inl p ↦ let one = rw p at (v.bound k) in (omega (arith, one), inl p)
      | inr p ↦
          let zero_left = rw p at (v.bound k) in
          (omega (arith, zero_left), inr (omega (arith, zero_left)))
    ]
