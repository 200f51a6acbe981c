-- ===== src/Timer/Tests.antt =====
-- A one-shot timer and an interval, run.
use rong.Base.{◌≤◌, ◌≡◌, ◌⊎◌, inr, refl, Bool, true, false, [], ◌∷◌, arith, nat_eq}
use rong.Base.Assoc.{get, insert, remove}
use rong.Timer.{
  TimerTick, TimerRegistry, new, set_timeout_with_repeat, cancel_timer, send_tick, wake, receive,
  return_from,
}
use rong.Timer.Step.{Steps, here, next, set, elapse, received}
use rong.Timer.Counted.{shots}
use rong.Timer.Firing.{fires_once, cleared_never_fires}
use rong.Timer.Paced.{ticks, queued}
use rong.Timer.Queue.{one_tick}

abbrev tick : TimerTick
tick = record { id = 0; task = 0 }

-- The timer is set, its delay passes, and the receiver calls it.
abbrev armed : Bool → TimerRegistry
armed repeat = (set_timeout_with_repeat 7 5 repeat new).1

abbrev due : Bool → TimerRegistry
due repeat = wake 0 (armed repeat)

abbrev called : Bool → TimerRegistry
called repeat = receive tick [] (due repeat)

runs : Unit {0}
unfolding set_timeout_with_repeat send_tick wake receive return_from cancel_timer get insert remove
    shots queued
runs = tt

called_runs : (called false).fired ≡ 0 ∷ []
unfolding runs
called_runs = refl

due-Steps : (repeat : Bool) → Steps new (due repeat)
unfolding runs
due-Steps true = next (next here (set new 7 5 true)) (elapse (armed true) 0 (inr (5, refl)))
due-Steps false = next (next here (set new 7 5 false)) (elapse (armed false) 0 (inr (5, refl)))

called-Steps : Steps new (called false)
unfolding runs
called-Steps = next (due-Steps false) (received (due false) tick [] refl refl)

fires_once_example : shots 0 (called false).fired ≤ 1
unfolding runs
fires_once_example = fires_once (called false) 0 called-Steps (omega arith) (λ e. cc)

-- The tick is queued when the timer is cleared, and the receiver takes it afterwards.
cleared_never_fires_example :
    shots 0 (receive tick [] (cancel_timer 0 (due false))).fired ≡ shots 0 (due false).fired
unfolding runs
cleared_never_fires_example =
    cleared_never_fires (due false) (receive tick [] (cancel_timer 0 (due false))) 0 (omega arith)
      (next here (received (cancel_timer 0 (due false)) tick [] refl refl)) (omega arith)

one_tick_example :
    (ticks 0 (due true) ≤ 1) × ((((due true).tasks 0).pending ≡ true) ⊎ (ticks 0 (due true) ≡ 0))
one_tick_example = one_tick (due true) 0 (due-Steps true)
