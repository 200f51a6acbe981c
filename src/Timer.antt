-- ===== src/Timer.antt =====
-- modules/rong_timer: `setTimeout`, `setInterval`, their clear functions and `Rong.sleep`. Each
-- timer is a task of the host executor, a wrapper task of the context that waits for it, and an
-- entry of the registry; a receiver task of the context runs the callbacks. The children have the
-- steps that these take in any order, and what holds over every interleaving.
pub mod Step
pub mod Frame
pub mod Paced
pub mod Sending
pub mod Queue
pub mod Counted
pub mod Firing
mod Tests
use rong.Base.{
  ℕ, ◌+◌, ◌%◌, ◌^◌, Bool, true, false, not, ◌&&◌, Option, none, some, List, [], ◌∷◌, ◌++◌, max,
  if◌then◌else◌, ◌==◌, nat_eq, ltb,
}
use rong.Base.Assoc.{get, insert, remove}

-- A `TimerTick`: the timer's id, and the task whose `pending` flag it carries.
pub record TimerTick : Type 0 where
  pub id : ℕ
  pub task : ℕ

-- `cancel` is the task that the cancellation reaches; a callback is its identity.
pub record TimerEntry : Type 0 where
  pub cancel : ℕ
  pub callback : Option ℕ
  pub repeat : Bool

pub data Kind : Type 0 where
  one_shot interval sleep : Kind

-- Where a task stands. `ready` is a one-shot timer with no delay, which sends without a select;
-- `finished` carries the answer of `run_timer`, until the wrapper reads it.
pub data Phase : Type 0 where
  absent ready waiting over : Phase
  sleeping : (ms : ℕ) → Phase
  finished : (queued : Bool) → Phase

pub record Task : Type 0 where
  pub id : ℕ
  pub kind : Kind
  pub delay : ℕ
  pub cancelled : Bool
  pub pending : Bool
  pub phase : Phase

-- The tick whose callback runs, and whether its entry repeats.
pub record Running : Type 0 where
  pub tick : TimerTick
  pub repeat : Bool

-- `TimerRegistryInner` and the tasks. `made` counts `fetch_add`; `receiving` is whether the receiver
-- task still lives; `fired` has the ids whose callbacks were called, the last one first.
pub record TimerRegistry : Type 0 where
  pub made : ℕ
  pub timers : List (ℕ × TimerEntry)
  pub queue : List TimerTick
  pub tasks : ℕ → Task
  pub running : Option Running
  pub receiving : Bool
  pub fired : List ℕ

abbrev pub no_task : Task
no_task = record {
  id = 0;
  kind = one_shot;
  delay = 0;
  cancelled = false;
  pending = false;
  phase = absent;
}

abbrev pub new : TimerRegistry
new = record {
  made = 0;
  timers = [];
  queue = [];
  tasks = λ k. no_task;
  running = none;
  receiving = true;
  fired = [];
}

abbrev pub update : ℕ → Task → TimerRegistry → TimerRegistry
update k t s = record s { tasks = λ j. if k == j then t else s.tasks j }

abbrev pub set_phase : ℕ → Phase → TimerRegistry → TimerRegistry
set_phase k p s = update k (record (s.tasks k) { phase = p }) s

abbrev pub set_pending : ℕ → Bool → TimerRegistry → TimerRegistry
set_pending k b s = update k (record (s.tasks k) { pending = b }) s

-- `TimerCancellation::cancel`.
abbrev pub cancel : ℕ → TimerRegistry → TimerRegistry
cancel k s = update k (record (s.tasks k) { cancelled = true }) s

-- The atomic counter wraps.
abbrev pub next_id : TimerRegistry → ℕ
next_id s = s.made % 2 ^ 32

abbrev pub cancel_found : ℕ → TimerRegistry → Option TimerEntry → TimerRegistry
cancel_found id s none = s
cancel_found id s (some entry) = cancel entry.cancel (record s { timers = remove id s.timers })

-- `cancel_timer`, which `clearTimeout` and `clearInterval` call too.
pub cancel_timer : ℕ → TimerRegistry → TimerRegistry
cancel_timer id s = cancel_found id s (get id s.timers)

abbrev pub cancel_all : List (ℕ × TimerEntry) → TimerRegistry → TimerRegistry
cancel_all [] s = s
cancel_all ((id, entry) ∷ entries) s = cancel_all entries (cancel entry.cancel s)

pub shutdown : TimerRegistry → TimerRegistry
shutdown s = cancel_all s.timers (record s { timers = [] })

abbrev first_phase : Kind → ℕ → Phase
first_phase one_shot delay = if ltb 0 delay then sleeping delay else ready
first_phase interval delay = sleeping (max delay 1)
first_phase sleep delay = sleeping delay

abbrev pub spawned_task : Kind → ℕ → TimerRegistry → Task
spawned_task kind delay s = record {
  id = next_id s;
  kind = kind;
  delay = delay;
  cancelled = false;
  pending = false;
  phase = first_phase kind delay;
}

-- A timer of any kind: its id is taken, its entry registered and its task spawned.
abbrev pub spawn : Kind → TimerEntry → ℕ → TimerRegistry → TimerRegistry
spawn kind entry delay s =
    update s.made (spawned_task kind delay s)
      (record s { made = s.made + 1; timers = insert (next_id s) entry s.timers })

-- The delay is in whole milliseconds, as `delay.max(0.0) as u64` makes it.
pub set_timeout_with_repeat : ℕ → ℕ → Bool → TimerRegistry → ℕ × TimerRegistry
set_timeout_with_repeat callback delay repeat s =
    let entry : TimerEntry = record {
      cancel = s.made;
      callback = some callback;
      repeat = repeat;
    } in
    (next_id s, spawn (if repeat then interval else one_shot) entry delay s)

pub sleep_async : ℕ → TimerRegistry → TimerRegistry
sleep_async delay s =
    spawn sleep (record { cancel = s.made; callback = none; repeat = false }) delay s

-- `send_tick`: whether a tick was queued.
pub send_tick : ℕ → TimerRegistry → TimerRegistry × Bool
send_tick k s =
    let tick : TimerTick = record { id = (s.tasks k).id; task = k } in
    if (s.tasks k).pending
    then (s, false)
    else if s.receiving
    then (set_pending k true (record s { queue = s.queue ++ tick ∷ [] }), true)
    else (set_pending k false s, false)

-- The task's sleep is over. A `Rong.sleep` ends, and its registration drops with it.
abbrev wake_kind : Kind → ℕ → TimerRegistry → TimerRegistry
wake_kind one_shot k s = let (s', sent) = send_tick k s in set_phase k (finished sent) s'
wake_kind interval k s =
    let (s', sent) = send_tick k s in
    set_phase k (if sent then waiting else sleeping (max (s.tasks k).delay 1)) s'
wake_kind sleep k s = set_phase k over (cancel_timer (s.tasks k).id s)

pub wake : ℕ → TimerRegistry → TimerRegistry
unfolding send_tick cancel_timer
wake k s = wake_kind (s.tasks k).kind k s

-- An interval's tick has been handled, and it sleeps again.
pub rest : ℕ → TimerRegistry → TimerRegistry
rest k s = set_phase k (sleeping (max (s.tasks k).delay 1)) s

-- The task sees its cancellation.
abbrev notice_kind : Kind → ℕ → TimerRegistry → TimerRegistry
notice_kind sleep k s = set_phase k over (cancel_timer (s.tasks k).id s)
notice_kind _ k s = set_phase k (finished false) s

pub notice : ℕ → TimerRegistry → TimerRegistry
unfolding cancel_timer
notice k s = notice_kind (s.tasks k).kind k s

-- The wrapper reads the answer: a one-shot timer that queued its tick leaves its entry to the
-- receiver, any other registration is dropped.
pub reap : ℕ → Bool → TimerRegistry → TimerRegistry
unfolding cancel_timer
reap k queued s = set_phase k over (if queued then s else cancel_timer (s.tasks k).id s)

-- The context drops the wrapper before that, and with it the task and the registration.
pub abort : ℕ → TimerRegistry → TimerRegistry
unfolding cancel_timer
abort k s = set_phase k over (cancel_timer (s.tasks k).id s)

-- The entry of a tick, if a timer still has it.
abbrev take_entry : TimerTick → TimerEntry → TimerRegistry → TimerRegistry
take_entry tick entry s = if entry.repeat then s else record s { timers = remove tick.id s.timers }

abbrev call_entry : TimerTick → Bool → TimerRegistry → Option ℕ → TimerRegistry
call_entry tick repeat s none = set_pending tick.task false s
call_entry tick repeat s (some callback) = record s {
  running = some (record { tick = tick; repeat = repeat });
  fired = tick.id ∷ s.fired;
}

abbrev receive_found : TimerTick → TimerRegistry → Option TimerEntry → TimerRegistry
receive_found tick s none = set_pending tick.task false s
receive_found tick s (some entry) =
    call_entry tick entry.repeat (take_entry tick entry s) entry.callback

-- The receiver takes a tick and calls the callback of its entry.
pub receive : TimerTick → List TimerTick → TimerRegistry → TimerRegistry
receive tick ticks s = receive_found tick (record s { queue = ticks }) (get tick.id s.timers)

-- The callback has returned: an interval whose callback throws is cancelled.
pub return_from : Running → Bool → TimerRegistry → TimerRegistry
unfolding cancel_timer
return_from r failed s = set_pending r.tick.task false (
    let s' : TimerRegistry = record s { running = none } in
    if failed && r.repeat then cancel_timer r.tick.id s' else s')

-- The context drops the receiver task, and what is queued.
pub close : TimerRegistry → TimerRegistry
close s = record s { receiving = false; queue = [] }
