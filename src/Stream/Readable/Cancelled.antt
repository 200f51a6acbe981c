-- ===== src/Stream/Readable/Cancelled.antt =====
-- A cancelled reader delivers nothing.
use rong.Base.{ℕ, ◌≡◌, ◌∙◌, refl, true, Option, none, some, List, [], ◌∷◌, All, nat_eq}
use rong.Stream.{Result, ok, err}
use rong.Stream.Slots.{nth, set_nth, remove_nth, set_nth-holds, nth-set_nth, nth-append}
use rong.Stream.Readable.{
  StreamChunk, ReadableStream, ReadableStreamDefaultReader, StreamError, ReadAnswer, done,
  get_reader, readable_stream_take_receiver, release_lock, cancel, take_channel, restore,
  read_answer,
}
use rong.Stream.Readable.Calls.{
  System, Call, gets_reader, cancels_stream, takes, begins_next, begins_read, releases, cancels,
  pipes, ends_read, ends_next, add_reader, add_taken, begin_read_with, begin_read, end_read_with,
  end_read, release_at, cancel_at, pipe_with, pipe_at, begin_next_with, begin_next, end_next, call,
  run,
}

-- Every read of this reader so far was answered as done.
abbrev pub IsSilent : ℕ → List (ℕ × ReadAnswer) → Type 0
IsSilent i answers = All (λ a. a.0 ≡ i → a.1 ≡ done) answers

module _ {ℓ} {R : Type ℓ} where
  abbrev pub IsCancelled : ℕ → System R → Type ℓ
  IsCancelled i y =
      (r : ReadableStreamDefaultReader R) × (nth i y.readers ≡ some r) × (r.canceled ≡ true)

  record IsOver (i : ℕ) (y : System R) : Type ℓ where
    gone : IsCancelled i y
    silent : IsSilent i y.answers

  -- A change of the readers that leaves the cancelled reader cancelled.
  set_nth-gone :
      (i j : ℕ) (a b : ReadableStreamDefaultReader R) (rs : List (ReadableStreamDefaultReader R))
      → nth j rs ≡ some b
      → (b.canceled ≡ true → a.canceled ≡ true)
      → (r : ReadableStreamDefaultReader R) × (nth i rs ≡ some r) × (r.canceled ≡ true)
      → (r : ReadableStreamDefaultReader R) × (nth i (set_nth j a rs) ≡ some r)
        × (r.canceled ≡ true)
  set_nth-gone i j a b rs = set_nth-holds (λ r. r.canceled ≡ true) i j a b rs

  add_reader-IsOver :
      (i : ℕ) (r : Result (ReadableStreamDefaultReader R) StreamError) (s : ReadableStream R)
      (y : System R)
      → IsOver i y
      → IsOver i (add_reader (r, s) y)
  add_reader-IsOver i (ok r) s y h = record {
    gone = (h.gone.0, nth-append i h.gone.0 y.readers (r ∷ []) h.gone.1, h.gone.2);
    silent = h.silent;
  }
  add_reader-IsOver i (err e) s y h = record { gone = h.gone; silent = h.silent }

  add_taken-IsOver :
      (i : ℕ) (o : Option R) (s : ReadableStream R) (y : System R)
      → IsOver i y
      → IsOver i (add_taken (o, s) y)
  add_taken-IsOver i none s y h = record { gone = h.gone; silent = h.silent }
  add_taken-IsOver i (some rx) s y h = record { gone = h.gone; silent = h.silent }

  begin_next-IsOver :
      (i : ℕ) (o : Option R) (y : System R) → IsOver i y → IsOver i (begin_next_with o y)
  begin_next-IsOver i none y h = h
  begin_next-IsOver i (some rx) y h = record { gone = h.gone; silent = h.silent }

  begin_read_with-IsOver :
      (i j : ℕ) (o : Option R) (r s : ReadableStreamDefaultReader R) (y : System R)
      → nth j y.readers ≡ some s
      → r.canceled ≡ s.canceled
      → IsOver i y
      → IsOver i (begin_read_with j (o, r) y)
  begin_read_with-IsOver i j none r s y e f h = record {
    gone = h.gone;
    silent = (λ _. refl, h.silent);
  }
  begin_read_with-IsOver i j (some rx) r s y e f h = record {
    gone = set_nth-gone i j r s y.readers e (λ c. f ∙ c) h.gone;
    silent = h.silent;
  }

  pipe_with-IsOver :
      (i j : ℕ) (o : Option R) (r s : ReadableStreamDefaultReader R) (y : System R)
      → nth j y.readers ≡ some s
      → r.canceled ≡ s.canceled
      → IsOver i y
      → IsOver i (pipe_with j (o, r) y)
  pipe_with-IsOver i j none r s y e f h = record {
    gone = set_nth-gone i j r s y.readers e (λ c. f ∙ c) h.gone;
    silent = h.silent;
  }
  pipe_with-IsOver i j (some rx) r s y e f h = record {
    gone = set_nth-gone i j r s y.readers e (λ c. f ∙ c) h.gone;
    silent = h.silent;
  }

  -- The reader that is answered is the cancelled one, or another.
  answered :
      (i j : ℕ) (item : Option StreamChunk) (r : ReadableStreamDefaultReader R) (y : System R)
      → nth j y.readers ≡ some r
      → IsCancelled i y
      → j ≡ i
      → read_answer r.canceled item ≡ done
  unfolding read_answer
  answered i j item r y e (s, f, c) k = let t : r.canceled ≡ true = cc in rw t refl

  end_read_with-IsOver :
      (i j : ℕ) (rx : R) (item : Option StreamChunk) (o : Option (ReadableStreamDefaultReader R))
      (y : System R)
      → nth j y.readers ≡ o
      → IsOver i y
      → IsOver i (end_read_with j rx item o y)
  unfolding restore
  end_read_with-IsOver i j rx item none y e h = h
  end_read_with-IsOver i j rx item (some r) y e h = record {
    gone = set_nth-gone i j (restore rx r) r y.readers e (λ c. c) h.gone;
    silent = (λ k. answered i j item r y e h.gone k, h.silent);
  }

  end_read-IsOver :
      (i k : ℕ) (item : Option StreamChunk) (o : Option (ℕ × R)) (y : System R)
      → IsOver i y
      → IsOver i (end_read k item o y)
  end_read-IsOver i k item none y h = h
  end_read-IsOver i k item (some (j, rx)) y h =
      end_read_with-IsOver i j rx item (nth j y.readers) (record y { reads = remove_nth k y.reads })
        refl (record { gone = h.gone; silent = h.silent })

  end_next-IsOver :
      (i k : ℕ) (item : Option StreamChunk) (o : Option R) (y : System R)
      → IsOver i y
      → IsOver i (end_next k item o y)
  end_next-IsOver i k item none y h = h
  end_next-IsOver i k item (some rx) y h = record { gone = h.gone; silent = h.silent }

  begin_read-IsOver :
      (i j : ℕ) (o : Option (ReadableStreamDefaultReader R)) (y : System R)
      → nth j y.readers ≡ o
      → IsOver i y
      → IsOver i (begin_read j o y)
  unfolding take_channel
  begin_read-IsOver i j none y e h = h
  begin_read-IsOver i j (some r) y e h =
      begin_read_with-IsOver i j r.rx (record r { rx = none }) r y e refl h

  pipe_at-IsOver :
      (i j : ℕ) (o : Option (ReadableStreamDefaultReader R)) (y : System R)
      → nth j y.readers ≡ o
      → IsOver i y
      → IsOver i (pipe_at j o y)
  unfolding take_channel
  pipe_at-IsOver i j none y e h = h
  pipe_at-IsOver i j (some r) y e h =
      pipe_with-IsOver i j r.rx (record r { rx = none }) r y e refl h

  release_at-IsOver :
      (i j : ℕ) (o : Option (ReadableStreamDefaultReader R)) (y : System R)
      → nth j y.readers ≡ o
      → IsOver i y
      → IsOver i (release_at j o y)
  unfolding release_lock
  release_at-IsOver i j none y e h = h
  release_at-IsOver i j (some r) y e h = record {
    gone = set_nth-gone i j (record r { rx = none }) r y.readers e (λ c. c) h.gone;
    silent = h.silent;
  }

  cancel_at-IsOver :
      (i j : ℕ) (o : Option (ReadableStreamDefaultReader R)) (y : System R)
      → nth j y.readers ≡ o
      → IsOver i y
      → IsOver i (cancel_at j o y)
  unfolding cancel
  cancel_at-IsOver i j none y e h = h
  cancel_at-IsOver i j (some r) y e h = record {
    gone = set_nth-gone i j (cancel r) r y.readers e (λ c. refl) h.gone;
    silent = h.silent;
  }

  call-IsOver : (i : ℕ) (c : Call) (y : System R) → IsOver i y → IsOver i (call c y)
  unfolding call begin_next
  call-IsOver i gets_reader y h =
      add_reader-IsOver i (get_reader y.stream).0 (get_reader y.stream).1 y h
  call-IsOver i cancels_stream y h = record { gone = h.gone; silent = h.silent }
  call-IsOver i takes y h =
      add_taken-IsOver i (readable_stream_take_receiver y.stream).0
        (readable_stream_take_receiver y.stream).1 y h
  call-IsOver i begins_next y h = begin_next-IsOver i y.stream.rx_slot y h
  call-IsOver i (begins_read j) y h = begin_read-IsOver i j (nth j y.readers) y refl h
  call-IsOver i (releases j) y h = release_at-IsOver i j (nth j y.readers) y refl h
  call-IsOver i (cancels j) y h = cancel_at-IsOver i j (nth j y.readers) y refl h
  call-IsOver i (pipes j) y h = pipe_at-IsOver i j (nth j y.readers) y refl h
  call-IsOver i (ends_read k item) y h = end_read-IsOver i k item (nth k y.reads) y h
  call-IsOver i (ends_next k item) y h = end_next-IsOver i k item (nth k y.nexts) y h

  run-IsOver : (i : ℕ) (cs : List Call) (y : System R) → IsOver i y → IsOver i (run cs y)
  unfolding run
  run-IsOver i [] y h = h
  run-IsOver i (c ∷ cs) y h = run-IsOver i cs (call c y) (call-IsOver i c y h)

  -- After `cancel` of a reader that exists, whatever the calls that follow and the chunks that
  -- arrive, every `read` of this reader that is answered, also one that was waiting, is answered
  -- as done.
  pub cancelled-IsSilent :
      (i : ℕ) (r : ReadableStreamDefaultReader R) (cs : List Call) (y : System R)
      → nth i y.readers ≡ some r
      → y.answers ≡ []
      → IsSilent i (run cs (call (cancels i) y)).answers
  unfolding call cancel
  cancelled-IsSilent i r cs y e f =
      (run-IsOver i cs (call (cancels i) y) (
        rw e (record {
          gone = (cancel r, nth-set_nth i (cancel r) r y.readers e, refl);
          silent = rw f tt;
        }))).silent
