-- ===== src/Stream/Readable/Calls.antt =====
-- modules/rong_stream/src/readable.rs: one stream with its readers under calls in any order.
-- A call that waits in `recv` begins and ends, and the receiver is its own in between.
use rong.Base.{ℕ, Option, none, some, List, [], ◌∷◌, ◌++◌, length, ◌+◌}
use rong.Stream.{Result, ok, err}
use rong.Stream.Slots.{held, nth, set_nth, remove_nth, total}
use rong.Stream.Readable.{
  StreamChunk, ReadableStream, ReadableStreamDefaultReader, StreamError, ReadAnswer, done,
  get_reader, cancel_stream, readable_stream_take_receiver, release_lock, cancel, take_channel,
  restore, read_answer, next_returns,
}

pub record System {ℓ} (R : Type ℓ) : Type ℓ where
  pub stream : ReadableStream R
  pub readers : List (ReadableStreamDefaultReader R)
  -- Calls of `read` in `recv`, by the reader's number, and calls of `next`.
  pub reads : List (ℕ × R)
  pub nexts : List R
  -- Receivers that `pipeTo`, `tee` or a native consumer has taken.
  pub taken : List R
  -- What `read` answered, by the reader's number, the newest first.
  pub answers : List (ℕ × ReadAnswer)

pub data Call : Type 0 where
  gets_reader cancels_stream takes begins_next : Call
  begins_read releases cancels pipes : ℕ → Call
  ends_read ends_next : ℕ → Option StreamChunk → Call

module _ {ℓ} {R : Type ℓ} where
  unfoldable pub opened : ReadableStream R → System R
  opened s = record { stream = s; readers = []; reads = []; nexts = []; taken = []; answers = [] }

  abbrev pub add_reader :
      Result (ReadableStreamDefaultReader R) StreamError × ReadableStream R → System R → System R
  add_reader (ok r, s) y = record y { stream = s; readers = y.readers ++ r ∷ [] }
  add_reader (err e, s) y = record y { stream = s }

  abbrev pub add_taken : Option R × ReadableStream R → System R → System R
  add_taken (some rx, s) y = record y { stream = s; taken = rx ∷ y.taken }
  add_taken (none, s) y = record y { stream = s }

  -- A read that finds no receiver is done at once.
  abbrev pub begin_read_with : ℕ → Option R × ReadableStreamDefaultReader R → System R → System R
  begin_read_with i (none, r) y = record y { answers = (i, done) ∷ y.answers }
  begin_read_with i (some rx, r) y = record y {
    readers = set_nth i r y.readers;
    reads = (i, rx) ∷ y.reads;
  }

  abbrev pub begin_read : ℕ → Option (ReadableStreamDefaultReader R) → System R → System R
  begin_read i none y = y
  begin_read i (some r) y = begin_read_with i (take_channel r) y

  abbrev pub end_read_with :
      ℕ → R → Option StreamChunk → Option (ReadableStreamDefaultReader R) → System R → System R
  end_read_with i rx item none y = y
  end_read_with i rx item (some r) y = record y {
    readers = set_nth i (restore rx r) y.readers;
    answers = (i, read_answer r.canceled item) ∷ y.answers;
  }

  -- The `k`-th of the reads in `recv` is woken with `item`.
  abbrev pub end_read : ℕ → Option StreamChunk → Option (ℕ × R) → System R → System R
  end_read k item none y = y
  end_read k item (some (i, rx)) y =
      end_read_with i rx item (nth i y.readers) (record y { reads = remove_nth k y.reads })

  abbrev pub release_at : ℕ → Option (ReadableStreamDefaultReader R) → System R → System R
  release_at i none y = y
  release_at i (some r) y = record y {
    stream = (release_lock r y.stream).1;
    readers = set_nth i (release_lock r y.stream).0 y.readers;
  }

  abbrev pub cancel_at : ℕ → Option (ReadableStreamDefaultReader R) → System R → System R
  cancel_at i none y = y
  cancel_at i (some r) y = record y { readers = set_nth i (cancel r) y.readers }

  abbrev pub pipe_with : ℕ → Option R × ReadableStreamDefaultReader R → System R → System R
  pipe_with i (none, r) y = record y { readers = set_nth i r y.readers }
  pipe_with i (some rx, r) y = record y { readers = set_nth i r y.readers; taken = rx ∷ y.taken }

  abbrev pub pipe_at : ℕ → Option (ReadableStreamDefaultReader R) → System R → System R
  pipe_at i none y = y
  pipe_at i (some r) y = pipe_with i (take_channel r) y

  abbrev pub begin_next_with : Option R → System R → System R
  begin_next_with none y = y
  begin_next_with (some rx) y = record y {
    stream = record y.stream { rx_slot = none };
    nexts = rx ∷ y.nexts;
  }

  -- `next` takes from the slot alone: the initializer is not run.
  unfoldable pub begin_next : System R → System R
  begin_next y = begin_next_with y.stream.rx_slot y

  abbrev pub end_next : ℕ → Option StreamChunk → Option R → System R → System R
  end_next k item none y = y
  end_next k item (some rx) y = record y {
    stream = record y.stream { rx_slot = next_returns item rx y.stream.rx_slot };
    nexts = remove_nth k y.nexts;
  }

  unfoldable pub call : Call → System R → System R
  unfolding begin_next
  call gets_reader y = add_reader (get_reader y.stream) y
  call cancels_stream y = record y { stream = cancel_stream y.stream }
  call takes y = add_taken (readable_stream_take_receiver y.stream) y
  call begins_next y = begin_next y
  call (begins_read i) y = begin_read i (nth i y.readers) y
  call (releases i) y = release_at i (nth i y.readers) y
  call (cancels i) y = cancel_at i (nth i y.readers) y
  call (pipes i) y = pipe_at i (nth i y.readers) y
  call (ends_read k item) y = end_read k item (nth k y.reads) y
  call (ends_next k item) y = end_next k item (nth k y.nexts) y

  unfoldable pub run : List Call → System R → System R
  run [] y = y
  run (c ∷ cs) y = run cs (call c y)

  -- The receivers that readers, waiting calls and consumers hold.
  unfoldable pub holders : System R → ℕ
  holders y =
      total (λ r. held r.rx) y.readers + (length y.reads + (length y.nexts + length y.taken))

  unfoldable pub owners : System R → ℕ
  unfolding holders
  owners y = held y.stream.rx_slot + held y.stream.initializer + holders y
