-- ===== src/Timer/Firing.antt =====
-- How often a callback is called, over every interleaving.
use rong.Base.{
  ℕ, ◌+◌, ◌^◌, ◌≤◌, ◌<◌, ◌≡◌, ◌≢◌, inl, inr, refl, ap, ◌∙◌, Bool, true, false, Option, none, some,
  ◌∷◌, arith, ◌==◌, nat_eq, nat_beq_iff, Bool-cases,
}
use rong.Base.Assoc.{get}
use rong.Timer.{
  TimerTick, TimerEntry, Kind, one_shot, interval, sleep, TimerRegistry, new, spawn,
  set_timeout_with_repeat, sleep_async, cancel_timer, receive, receive_found, take_entry,
  call_entry,
}
use rong.Timer.Step.{
  Step, set, nap, elapse, clear, handled, stopped, joined, dropped, received, returned, closed,
  ended, Steps, here, next,
}
use rong.Timer.Frame.{
  IsShrunk, get-cancel_timer, cancel_timer-IsShrunk, shutdown-IsShrunk, wake-IsShrunk,
  notice-IsShrunk, rest-IsShrunk, abort-IsShrunk, update-IsShrunk, take_entry-IsShrunk,
  reap-IsShrunk, return_from-IsShrunk, close-IsShrunk,
}
use rong.Timer.Counted.{
  still_none, shots, shots_other, IsSpent-le, IsCounted, shrunk-IsCounted, get-spawn_other,
  spawn-IsCounted, take_entry_others, receive_found-IsCounted,
}

receive_found-made :
    (tick : TimerTick) (s : TimerRegistry) (o : Option TimerEntry)
    → (receive_found tick s o).made ≡ s.made
receive_found-made tick s none = refl
receive_found-made tick s (some entry) =
    call_entry-made tick entry.repeat (take_entry tick entry s) entry.callback
    ∙ (take_entry-IsShrunk tick entry s).made
  where
    call_entry-made :
        (tick : TimerTick) (repeat : Bool) (s : TimerRegistry) (o : Option ℕ)
        → (call_entry tick repeat s o).made ≡ s.made
    call_entry-made tick repeat s none = refl
    call_entry-made tick repeat s (some f) = refl

Step-made : {s t : TimerRegistry} → Step s t → s.made ≤ t.made
unfolding receive sleep_async set_timeout_with_repeat
Step-made (set s f delay repeat) = omega arith
Step-made (nap s delay) = omega arith
Step-made (clear s id) = omega (arith, (cancel_timer-IsShrunk id s).made)
Step-made (elapse s k h) = omega (arith, (wake-IsShrunk k s).made)
Step-made (handled s k h p) = omega (arith, (rest-IsShrunk k s).made)
Step-made (stopped s k h p) = omega (arith, (notice-IsShrunk k s).made)
Step-made (joined s k queued h) = omega (arith, (reap-IsShrunk k queued s).made)
Step-made (dropped s k h) = omega (arith, (abort-IsShrunk k s).made)
Step-made (received s tick ticks q h) =
    omega (arith, receive_found-made tick (record s { queue = ticks }) (get tick.id s.timers))
Step-made (returned s r failed h) = omega (arith, (return_from-IsShrunk r failed s).made)
Step-made (closed s h) = omega (arith, (close-IsShrunk s).made)
Step-made (ended s) = omega (arith, (shutdown-IsShrunk s).made)

Step-IsCounted : {s t : TimerRegistry} → Step s t → t.made ≤ 2 ^ 32 → IsCounted s → IsCounted t
unfolding receive sleep_async set_timeout_with_repeat
Step-IsCounted (set s f delay true) small v =
    spawn-IsCounted interval _ delay s (λ h. absurd (h refl)) small v
Step-IsCounted (set s f delay false) small v =
    spawn-IsCounted one_shot _ delay s (λ h. refl) small v
Step-IsCounted (nap s delay) small v = spawn-IsCounted sleep _ delay s (λ h. refl) small v
Step-IsCounted (clear s id) small v = shrunk-IsCounted s _ (cancel_timer-IsShrunk id s) v
Step-IsCounted (elapse s k h) small v = shrunk-IsCounted s _ (wake-IsShrunk k s) v
Step-IsCounted (handled s k h p) small v = shrunk-IsCounted s _ (rest-IsShrunk k s) v
Step-IsCounted (stopped s k h p) small v = shrunk-IsCounted s _ (notice-IsShrunk k s) v
Step-IsCounted (joined s k queued h) small v = shrunk-IsCounted s _ (reap-IsShrunk k queued s) v
Step-IsCounted (dropped s k h) small v = shrunk-IsCounted s _ (abort-IsShrunk k s) v
Step-IsCounted (received s tick ticks q h) small v =
    receive_found-IsCounted tick ticks s (get tick.id s.timers) refl v
Step-IsCounted (returned s r failed h) small v =
    shrunk-IsCounted s _ (return_from-IsShrunk r failed s) v
Step-IsCounted (closed s h) small v = shrunk-IsCounted s _ (close-IsShrunk s) v
Step-IsCounted (ended s) small v = shrunk-IsCounted s _ (shutdown-IsShrunk s) v

Steps-IsCounted : {t : TimerRegistry} → Steps new t → t.made ≤ 2 ^ 32 → IsCounted t
unfolding shots get
Steps-IsCounted here small = record { early = λ j h. (refl, refl); spent = λ j h. omega arith }
Steps-IsCounted (next steps step) small =
    let fewer = Step-made step in
    Step-IsCounted step small (Steps-IsCounted steps (omega (arith, fewer)))

-- However the tasks interleave, a timer that was not set to repeat calls its callback at most once,
-- if at most `2 ^ 32` timers are made.
pub fires_once :
    (t : TimerRegistry) (j : ℕ)
    → Steps new t
    → t.made ≤ 2 ^ 32
    → (t.tasks j).kind ≢ interval
    → shots j t.fired ≤ 1
fires_once t j steps small h =
    let v = Steps-IsCounted steps small in
    IsSpent-le (get j t.timers) (shots j t.fired) (v.spent j h)

-- The entry of `j` is gone, and what follows leaves the count of its calls.
record IsSilent (j n : ℕ) (s : TimerRegistry) : Type 0 where
  old : j < s.made
  gone : get j s.timers ≡ none
  count : shots j s.fired ≡ n

shrunk-IsSilent : (j n : ℕ) (s t : TimerRegistry) → IsShrunk s t → IsSilent j n s → IsSilent j n t
shrunk-IsSilent j n s t p v = record {
  old = rw p.made v.old;
  gone = still_none _ _ (p.entries j) v.gone;
  count = ap (shots j) p.fired ∙ v.count;
}

spawn-IsSilent :
    (j n : ℕ) (kind : Kind) (entry : TimerEntry) (delay : ℕ) (s : TimerRegistry)
    → s.made + 1 ≤ 2 ^ 32
    → IsSilent j n s
    → IsSilent j n (spawn kind entry delay s)
spawn-IsSilent j n kind entry delay s small v = record {
  old = omega (arith, v.old);
  gone =
      get-spawn_other kind entry delay s j small (ground (arith, nat_beq_iff s.made j, v.old))
      ∙ v.gone;
  count = v.count;
}

-- A tick of another id.
other-IsSilent :
    (j n : ℕ) (tick : TimerTick) (entry : TimerEntry) (s : TimerRegistry) (o : Option ℕ)
    → (tick.id == j) ≡ false
    → IsSilent j n s
    → IsSilent j n (call_entry tick entry.repeat (take_entry tick entry s) o)
other-IsSilent j n tick entry s none q v =
    let taken = take_entry tick entry s in
    shrunk-IsSilent j n taken _ (update-IsShrunk tick.task _ taken refl)
      (shrunk-IsSilent j n s taken (take_entry-IsShrunk tick entry s) v)
other-IsSilent j n tick entry s (some f) q v = record {
  old = rw (take_entry-IsShrunk tick entry s).made v.old;
  gone = take_entry_others tick entry s j q ∙ v.gone;
  count =
      ap (λ fired. shots j (tick.id ∷ fired)) (take_entry-IsShrunk tick entry s).fired
      ∙ shots_other tick.id j s.fired q
      ∙ v.count;
}

receive_found-IsSilent :
    (j n : ℕ) (tick : TimerTick) (s : TimerRegistry) (o : Option TimerEntry)
    → get tick.id s.timers ≡ o
    → IsSilent j n s
    → IsSilent j n (receive_found tick s o)
receive_found-IsSilent j n tick s none e v =
    shrunk-IsSilent j n s _ (update-IsShrunk tick.task _ s refl) v
receive_found-IsSilent j n tick s (some entry) e v = elim (Bool-cases (tick.id == j)) [
  | inl q ↦
      let same = (nat_beq_iff tick.id j).0 q in
      let gone = ap (λ i. get i s.timers) same ∙ v.gone in absurd (cc)
  | inr q ↦ other-IsSilent j n tick entry s entry.callback q v
]

Step-IsSilent :
    (j n : ℕ) {s t : TimerRegistry} → Step s t → t.made ≤ 2 ^ 32 → IsSilent j n s → IsSilent j n t
unfolding receive sleep_async set_timeout_with_repeat
Step-IsSilent j n (set s f delay repeat) small v = spawn-IsSilent j n _ _ delay s small v
Step-IsSilent j n (nap s delay) small v = spawn-IsSilent j n sleep _ delay s small v
Step-IsSilent j n (clear s id) small v = shrunk-IsSilent j n s _ (cancel_timer-IsShrunk id s) v
Step-IsSilent j n (elapse s k h) small v = shrunk-IsSilent j n s _ (wake-IsShrunk k s) v
Step-IsSilent j n (handled s k h p) small v = shrunk-IsSilent j n s _ (rest-IsShrunk k s) v
Step-IsSilent j n (stopped s k h p) small v = shrunk-IsSilent j n s _ (notice-IsShrunk k s) v
Step-IsSilent j n (joined s k queued h) small v =
    shrunk-IsSilent j n s _ (reap-IsShrunk k queued s) v
Step-IsSilent j n (dropped s k h) small v = shrunk-IsSilent j n s _ (abort-IsShrunk k s) v
Step-IsSilent j n (received s tick ticks q h) small v =
    receive_found-IsSilent j n tick (record s { queue = ticks }) (get tick.id s.timers) refl
      (record { old = v.old; gone = v.gone; count = v.count })
Step-IsSilent j n (returned s r failed h) small v =
    shrunk-IsSilent j n s _ (return_from-IsShrunk r failed s) v
Step-IsSilent j n (closed s h) small v = shrunk-IsSilent j n s _ (close-IsShrunk s) v
Step-IsSilent j n (ended s) small v = shrunk-IsSilent j n s _ (shutdown-IsShrunk s) v

Steps-IsSilent :
    (j n : ℕ) {s t : TimerRegistry} → Steps s t → t.made ≤ 2 ^ 32 → IsSilent j n s → IsSilent j n t
Steps-IsSilent j n here small v = v
Steps-IsSilent j n (next steps step) small v =
    let fewer = Step-made step in
    Step-IsSilent j n step small (Steps-IsSilent j n steps (omega (arith, fewer)) v)

-- Once a timer that has been made is cleared, its callback is never called again, a queued tick
-- notwithstanding, as long as at most `2 ^ 32` timers are made.
pub cleared_never_fires :
    (s t : TimerRegistry) (id : ℕ)
    → id < s.made
    → Steps (cancel_timer id s) t
    → t.made ≤ 2 ^ 32
    → shots id t.fired ≡ shots id s.fired
cleared_never_fires s t id h steps small =
    let p = cancel_timer-IsShrunk id s in
    let silent =
      Steps-IsSilent id (shots id s.fired) steps small (record {
        old = rw p.made h;
        gone = get-cancel_timer id s;
        count = ap (shots id) p.fired;
      }) in
    silent.count
