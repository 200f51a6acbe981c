-- ===== src/Timer/Step.antt =====
-- The steps of the timers: the script's calls, the tasks of the executor, the wrappers and the
-- receiver, in any order.
use rong.Base.{ℕ, ◌≡◌, ◌≢◌, ◌⊎◌, Bool, true, false, none, some, List, ◌∷◌}
use rong.Timer.{
  TimerTick, Running, Phase, absent, ready, waiting, over, sleeping, finished, TimerRegistry,
  set_timeout_with_repeat, sleep_async, cancel_timer, shutdown, wake, rest, notice, reap, abort,
  receive, return_from, close,
}

-- The task's sleep may be over.
abbrev pub IsDue : Phase → Type 0
IsDue p = (p ≡ ready) ⊎ ((ms : ℕ) × (p ≡ sleeping ms))

-- The task waits in a select with its cancellation.
abbrev pub IsSelecting : Phase → Bool → Type 0
IsSelecting p pending = ((ms : ℕ) × (p ≡ sleeping ms)) ⊎ ((p ≡ waiting) × (pending ≡ true))

-- The wrapper still waits for the task.
abbrev pub IsOpen : Phase → Type 0
IsOpen p = (p ≢ absent) × (p ≢ over)

pub data Step : TimerRegistry → TimerRegistry → Type 0 where
  set :
      (s : TimerRegistry) (callback delay : ℕ) (repeat : Bool)
      → Step s (set_timeout_with_repeat callback delay repeat s).1
  nap : (s : TimerRegistry) (delay : ℕ) → Step s (sleep_async delay s)
  clear : (s : TimerRegistry) (id : ℕ) → Step s (cancel_timer id s)
  elapse : (s : TimerRegistry) (k : ℕ) → IsDue (s.tasks k).phase → Step s (wake k s)
  handled :
      (s : TimerRegistry) (k : ℕ)
      → (s.tasks k).phase ≡ waiting
      → (s.tasks k).pending ≡ false
      → Step s (rest k s)
  stopped :
      (s : TimerRegistry) (k : ℕ)
      → (s.tasks k).cancelled ≡ true
      → IsSelecting (s.tasks k).phase (s.tasks k).pending
      → Step s (notice k s)
  joined :
      (s : TimerRegistry) (k : ℕ) (queued : Bool)
      → (s.tasks k).phase ≡ finished queued
      → Step s (reap k queued s)
  dropped : (s : TimerRegistry) (k : ℕ) → IsOpen (s.tasks k).phase → Step s (abort k s)
  received :
      (s : TimerRegistry) (tick : TimerTick) (ticks : List TimerTick)
      → s.queue ≡ tick ∷ ticks
      → s.running ≡ none
      → Step s (receive tick ticks s)
  returned :
      (s : TimerRegistry) (r : Running) (failed : Bool)
      → s.running ≡ some r
      → Step s (return_from r failed s)
  closed : (s : TimerRegistry) → s.running ≡ none → Step s (close s)
  ended : (s : TimerRegistry) → Step s (shutdown s)

pub data Steps (s : TimerRegistry) : TimerRegistry → Type 0 where
  here : Steps s s
  next : {t u : TimerRegistry} → Steps s t → Step t u → Steps s u
