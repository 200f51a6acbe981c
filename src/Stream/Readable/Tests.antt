-- ===== src/Stream/Readable/Tests.antt =====
-- Runs of a stream with its readers.
use rong.Base.{ℕ, ◌≡◌, refl, false, none, some, List, [], ◌∷◌, ◌++◌, arith}
use rong.Stream.{ok}
use rong.Stream.Readable.{
  ReadableStream, value, done, from_receiver, from_lazy_receiver, fill, get_reader, release_lock,
  take_channel, restore, read_answer,
}
use rong.Stream.Readable.Calls.{
  System, Call, gets_reader, begins_read, releases, cancels, ends_read, opened, begin_next, call,
  run, holders, owners,
}
use rong.Stream.Readable.Locked.{held-Refuses, Refuses, second_read}
use rong.Stream.Readable.Cancelled.{IsSilent, cancelled-IsSilent}

runs : Unit {0}
unfolding run call opened from_receiver from_lazy_receiver get_reader fill take_channel holders
    owners begin_next
runs = tt

-- A receiver.
abbrev handle : ℕ
handle = 7

abbrev file : ReadableStream ℕ
file = record { rx_slot = some 7; initializer = none }

-- A reader whose first read waits.
abbrev waiting : List Call
waiting = gets_reader ∷ begins_read 0 ∷ []

abbrev reading : System ℕ
reading = record {
  stream = record { rx_slot = none; initializer = none };
  readers = record { rx = none; canceled = false } ∷ [];
  reads = (0, 7) ∷ [];
  nexts = [];
  taken = [];
  answers = [];
}

waiting_run : run waiting (opened (from_receiver handle)) ≡ reading
unfolding runs
waiting_run = refl

-- A chunk arrives, the reader is released, and a second reader gets the end.
two_readers :
    (run
      (waiting
        ++ ends_read 0 (some (ok (1 ∷ 2 ∷ [])))
          ∷ releases 0
          ∷ gets_reader
          ∷ begins_read 1
          ∷ ends_read 0 none
          ∷ [])
      (opened (from_lazy_receiver handle))).answers
    ≡ (1, done) ∷ (0, value (1 ∷ 2 ∷ [])) ∷ []
unfolding runs restore release_lock read_answer
two_readers = refl

held-Refuses_example : Refuses (run waiting (opened (from_receiver handle))).stream
unfolding runs
held-Refuses_example = held-Refuses handle waiting (omega arith)

second_read_example :
    call (begins_read 0) (run waiting (opened (from_receiver handle)))
    ≡ record (run waiting (opened (from_receiver handle))) {
      answers = (0, done) ∷ (run waiting (opened (from_receiver handle))).answers;
    }
unfolding runs
second_read_example =
    second_read handle waiting 0 0 handle (record { rx = none; canceled = false }) refl refl

-- The chunk that arrives after the reader was cancelled is not delivered.
cancelled-IsSilent_example :
    IsSilent 0 (run (ends_read 0 (some (ok (1 ∷ []))) ∷ []) (call (cancels 0) reading)).answers
cancelled-IsSilent_example =
    cancelled-IsSilent 0 (record { rx = none; canceled = false })
      (ends_read 0 (some (ok (1 ∷ []))) ∷ []) reading refl refl
