-- ===== src/Cron/Jobs/Tests.antt =====
-- Jobs that are due, stopped and received.
use rong.Base.{◌≤◌, ◌≡◌, refl, true, none, List, [], ◌∷◌}
use rong.Stream.Slots.{nth}
use rong.Cron.Jobs.{
  CronContextRegistry, empty, create_cron_job, stop_job, shutdown, drop_task, Step, creates,
  receives, returns, clears, is_due, step, run,
}
use rong.Cron.Jobs.Overlap.{tally, under_way, flag, never_overlap}
use rong.Cron.Jobs.Stopped.{no_call_after_stop}

runs : Unit {0}
unfolding create_cron_job stop_job shutdown drop_task step run
runs = tt

-- Two jobs; the first is due twice while its callback runs.
abbrev due_again : List Step
due_again = creates ∷ creates ∷ is_due 0 true ∷ receives ∷ is_due 0 true ∷ is_due 1 true ∷ []

-- One invocation of the first job is being called; the second invocation was dropped.
one_call : (run due_again empty).called ≡ 0 ∷ []
unfolding runs
one_call = refl

-- When the callback has returned and the flag is cleared, the job is called again.
calls_again :
    (run
      (returns ∷ clears 0 ∷ is_due 0 true ∷ receives ∷ returns ∷ receives ∷ [])
      (run due_again empty)).called
    ≡ 0 ∷ 1 ∷ 0 ∷ []
unfolding runs
calls_again = refl

never_overlap_example :
    (under_way 0 (run due_again empty) ≡ flag (nth 0 (run due_again empty).entries))
    × (under_way 0 (run due_again empty) ≤ 1)
never_overlap_example = never_overlap due_again 0

abbrev waiting : CronContextRegistry
waiting = record {
  entries = record { active = true; running = true; is_entered = true } ∷ [];
  queue = 0 ∷ [];
  calling = none;
  finishing = [];
  called = 0 ∷ [];
}

-- The job is stopped while an invocation of it waits in the channel.
no_call_after_stop_example :
    (tally 0 (run (receives ∷ is_due 0 true ∷ receives ∷ []) (stop_job 0 waiting)).called
      ≡ tally 0 waiting.called)
    × (tally 0 (run (receives ∷ is_due 0 true ∷ receives ∷ []) (shutdown waiting)).called
        ≡ tally 0 waiting.called)
no_call_after_stop_example =
    no_call_after_stop 0 (record { active = true; running = true; is_entered = true }) waiting
      (receives ∷ is_due 0 true ∷ receives ∷ []) refl
