-- ===== src/Cron/Jobs.antt =====
-- modules/rong_cron/src/lib.rs: the jobs of a context. A job is known by its number in the order of
-- creation; the counter of ids is taken not to wrap. The scheduler decides when a job is due, and
-- its closure tests `active` and sets `running` in one step.
pub mod Overlap
mod Stopped
mod Tests
use rong.Base.{
  ℕ, zero, suc, ◌+◌, Bool, true, false, not, ◌&&◌, Option, none, some, List, [], ◌∷◌, ◌++◌, map,
  if◌then◌else◌, ◌==◌, nat_eq,
}
use rong.Stream.Slots.{nth, set_nth, remove_nth}

-- The flags that the scheduled closures share with the entry, and whether there is an entry.
pub record CronEntry : Type 0 where
  pub active : Bool
  pub running : Bool
  pub is_entered : Bool

pub record CronContextRegistry : Type 0 where
  pub entries : List CronEntry
  -- The invocations in the channel, and the one whose callback is being awaited.
  pub queue : List ℕ
  pub calling : Option ℕ
  -- The closures that have been told of the end and have not cleared `running` yet.
  pub finishing : List ℕ
  -- Every callback that was called, the newest first.
  pub called : List ℕ

abbrev pub empty : CronContextRegistry
empty = record { entries = []; queue = []; calling = none; finishing = []; called = [] }

unfoldable pub create_cron_job : CronContextRegistry → CronContextRegistry
create_cron_job y = record y {
  entries = y.entries ++ record { active = true; running = false; is_entered = true } ∷ [];
}

abbrev pub set_entry : ℕ → CronEntry → CronContextRegistry → CronContextRegistry
set_entry i e y = record y { entries = set_nth i e y.entries }

-- The scheduler could not be started, or refused the job.
abbrev pub deactivate : ℕ → Option CronEntry → CronContextRegistry → CronContextRegistry
deactivate i none y = y
deactivate i (some e) y = set_entry i (record e { active = false }) y

-- A job is due: `listening` while the task of the context receives.
abbrev pub invoke : ℕ → Bool → CronEntry → CronContextRegistry → CronContextRegistry
invoke i listening e y =
    if listening
    then record (set_entry i (record e { running = true }) y) { queue = y.queue ++ i ∷ [] }
    else set_entry i (record e { running = false }) y

abbrev pub due : ℕ → Bool → Option CronEntry → CronContextRegistry → CronContextRegistry
due i listening none y = y
due i listening (some e) y =
    if not e.active then y else if e.running then y else invoke i listening e y

abbrev pub has_callback : Option CronEntry → Bool
has_callback none = false
has_callback (some e) = e.is_entered && e.active

-- The context's task takes an invocation, and calls back if the job is still there.
abbrev pub receive_one : Option ℕ → List ℕ → CronContextRegistry → CronContextRegistry
receive_one (some j) q y = y
receive_one none [] y = y
receive_one none (i ∷ q) y =
    if has_callback (nth i y.entries)
    then record y { queue = q; calling = some i; called = i ∷ y.called }
    else record y { queue = q; finishing = i ∷ y.finishing }

abbrev pub return_one : Option ℕ → CronContextRegistry → CronContextRegistry
return_one none y = y
return_one (some i) y = record y { calling = none; finishing = i ∷ y.finishing }

abbrev pub pending : Option ℕ → List ℕ
pending none = []
pending (some i) = i ∷ []

-- The context's task ends: the invocations that it has are dropped, and their closures learn it.
unfoldable pub drop_task : CronContextRegistry → CronContextRegistry
drop_task y = record y {
  queue = [];
  calling = none;
  finishing = y.queue ++ (pending y.calling ++ y.finishing);
}

abbrev pub clear_at : ℕ → Option ℕ → Option CronEntry → CronContextRegistry → CronContextRegistry
clear_at k none e y = y
clear_at k (some i) none y = record y { finishing = remove_nth k y.finishing }
clear_at k (some i) (some e) y = record (set_entry i (record e { running = false }) y) {
  finishing = remove_nth k y.finishing;
}

abbrev entry_of : Option ℕ → List CronEntry → Option CronEntry
entry_of none es = none
entry_of (some i) es = nth i es

abbrev pub stop_entry : ℕ → Option CronEntry → CronContextRegistry → CronContextRegistry
stop_entry i none y = y
stop_entry i (some e) y =
    if e.is_entered then set_entry i (record e { active = false; is_entered = false }) y else y

unfoldable pub stop_job : ℕ → CronContextRegistry → CronContextRegistry
stop_job i y = stop_entry i (nth i y.entries) y

abbrev drained : CronEntry → CronEntry
drained e = if e.is_entered then record e { active = false; is_entered = false } else e

unfoldable pub shutdown : CronContextRegistry → CronContextRegistry
shutdown y = record y { entries = map drained y.entries }

pub data Step : Type 0 where
  creates receives returns shuts_down ends : Step
  fails stops clears : ℕ → Step
  is_due : ℕ → Bool → Step

unfoldable pub step : Step → CronContextRegistry → CronContextRegistry
unfolding create_cron_job stop_job shutdown drop_task
step creates y = create_cron_job y
step receives y = receive_one y.calling y.queue y
step returns y = return_one y.calling y
step shuts_down y = shutdown y
step ends y = drop_task y
step (fails i) y = deactivate i (nth i y.entries) y
step (stops i) y = stop_job i y
step (clears k) y = clear_at k (nth k y.finishing) (entry_of (nth k y.finishing) y.entries) y
step (is_due i listening) y = due i listening (nth i y.entries) y

unfoldable pub run : List Step → CronContextRegistry → CronContextRegistry
run [] y = y
run (s ∷ ss) y = run ss (step s y)
