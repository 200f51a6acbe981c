-- ===== src/Stream/Readable/Owner.antt =====
-- A stream's receiver has one owner at most.
use rong.Base.{
  ℕ, ◌+◌, ◌≤◌, ◌≡◌, refl, ap, inl, inr, false, Option, none, some, List, [], ◌∷◌, arith, Bool-cases,
  Option-cases,
}
use rong.Stream.{ok, err}
use rong.Stream.Slots.{
  held, nth, set_nth, remove_nth, total, total-append, total-set_nth, length-remove_nth,
}
use rong.Stream.Readable.{
  StreamChunk, ReadableStream, ReadableStreamDefaultReader, from_receiver, from_lazy_receiver, fill,
  get_reader, cancel_stream, readable_stream_take_receiver, put_back, return_to, release_lock,
  cancel, take_channel, restore, next_returns,
}
use rong.Stream.Readable.Calls.{
  System, Call, gets_reader, cancels_stream, takes, begins_next, begins_read, releases, cancels,
  pipes, ends_read, ends_next, opened, add_reader, add_taken, begin_read, end_read_with, end_read,
  release_at, cancel_at, pipe_at, begin_next, end_next, call, run, holders, owners,
}

module _ {ℓ} {R : Type ℓ} where
  abbrev in_reader : ReadableStreamDefaultReader R → ℕ
  in_reader r = held r.rx

  -- What getting a reader moves from the slot.
  add_reader_le : (y : System R) → owners (add_reader (get_reader y.stream) y) ≤ owners y
  unfolding get_reader fill owners holders
  add_reader_le y = elim (Option-cases y.stream.rx_slot) [
    | inl e ↦ elim (Option-cases y.stream.initializer) [
      | inl f ↦ rw (e, f) (omega arith)
      | inr (rx, f) ↦
          rw (e, f)
            (omega (
              arith,
              total-append in_reader y.readers (record { rx = some rx; canceled = false } ∷ []),
            ))
    ]
    | inr (rx, e) ↦ rw e (
        omega (
          arith,
          total-append in_reader y.readers (record { rx = some rx; canceled = false } ∷ []),
        ))
  ]

  add_taken_le :
      (y : System R) → owners (add_taken (readable_stream_take_receiver y.stream) y) ≤ owners y
  unfolding readable_stream_take_receiver fill owners holders
  add_taken_le y = elim (Option-cases y.stream.rx_slot) [
    | inl e ↦ elim (Option-cases y.stream.initializer) [
      | inl f ↦ rw (e, f) (omega arith)
      | inr (rx, f) ↦ rw (e, f) (omega arith)
    ]
    | inr (rx, e) ↦ rw e (omega arith)
  ]

  begin_next_le : (y : System R) → owners (begin_next y) ≤ owners y
  unfolding begin_next owners holders
  begin_next_le y = elim (Option-cases y.stream.rx_slot) [
    | inl e ↦ rw e (omega arith)
    | inr (rx, e) ↦ rw e (omega arith)
  ]

  begin_read_le : (i : ℕ) (y : System R) → owners (begin_read i (nth i y.readers) y) ≤ owners y
  unfolding take_channel owners holders
  begin_read_le i y = elim (Option-cases (nth i y.readers)) [
    | inl e ↦ rw e (omega arith)
    | inr (r, e) ↦ elim (Option-cases r.rx) [
      | inl f ↦ rw (e, f) (omega arith)
      | inr (rx, f) ↦
          rw (e, f)
            (omega
              (arith, total-set_nth in_reader i (record r { rx = none }) r y.readers e, ap held f))
    ]
  ]

  held-put_back-le : (slot : Option R) (rx : R) → held (put_back slot rx) ≤ held slot + 1
  held-put_back-le none rx = omega arith
  held-put_back-le (some other) rx = omega arith

  held-restore-le : (rx : R) (r : ReadableStreamDefaultReader R) → held (restore rx r).rx ≤ 1
  unfolding restore
  held-restore-le rx r = elim (Bool-cases r.canceled) [
    | inl e ↦ rw e (omega arith)
    | inr e ↦ rw e (omega arith)
  ]

  held-return_to-le :
      (r : ReadableStreamDefaultReader R) (s : ReadableStream R)
      → held (return_to r.rx r.canceled s).rx_slot + held (return_to r.rx r.canceled s).initializer
        ≤ held s.rx_slot + held s.initializer + held r.rx
  held-return_to-le r s = elim (Option-cases r.rx) [
    | inl e ↦ rw e (omega arith)
    | inr (rx, e) ↦ elim (Bool-cases r.canceled) [
      | inl f ↦ rw (e, f) (omega arith)
      | inr f ↦ rw (e, f) (omega (arith, held-put_back-le s.rx_slot rx))
    ]
  ]

  release_at_le : (i : ℕ) (y : System R) → owners (release_at i (nth i y.readers) y) ≤ owners y
  unfolding release_lock owners holders
  release_at_le i y = elim (Option-cases (nth i y.readers)) [
    | inl e ↦ rw e (omega arith)
    | inr (r, e) ↦ rw e (
        omega (
          arith,
          total-set_nth in_reader i (record r { rx = none }) r y.readers e,
          held-return_to-le r y.stream,
        ))
  ]

  cancel_at_le : (i : ℕ) (y : System R) → owners (cancel_at i (nth i y.readers) y) ≤ owners y
  unfolding cancel owners holders
  cancel_at_le i y = elim (Option-cases (nth i y.readers)) [
    | inl e ↦ rw e (omega arith)
    | inr (r, e) ↦ rw e (omega (arith, total-set_nth in_reader i (cancel r) r y.readers e))
  ]

  pipe_at_le : (i : ℕ) (y : System R) → owners (pipe_at i (nth i y.readers) y) ≤ owners y
  unfolding take_channel owners holders
  pipe_at_le i y = elim (Option-cases (nth i y.readers)) [
    | inl e ↦ rw e (omega arith)
    | inr (r, e) ↦
        let moved : total in_reader (set_nth i (record r { rx = none }) y.readers) + held r.rx
            ≡ total in_reader y.readers + 0 =
          total-set_nth in_reader i (record r { rx = none }) r y.readers e in
        elim (Option-cases r.rx) [
          | inl f ↦ rw (e, f) (omega (arith, moved))
          | inr (rx, f) ↦ rw (e, f) (omega (arith, moved, ap held f))
        ]
  ]

  end_read_with_le :
      (i k : ℕ) (rx : R) (item : Option StreamChunk) (y : System R)
      → owners (end_read_with i rx item (nth i y.readers) y) ≤ owners y + 1
  unfolding owners holders
  end_read_with_le i k rx item y = elim (Option-cases (nth i y.readers)) [
    | inl e ↦ rw e (omega arith)
    | inr (r, e) ↦ rw e (
        omega (arith, total-set_nth in_reader i (restore rx r) r y.readers e, held-restore-le rx r))
  ]

  end_read_le :
      (k : ℕ) (item : Option StreamChunk) (y : System R)
      → owners (end_read k item (nth k y.reads) y) ≤ owners y
  unfolding owners holders
  end_read_le k item y = elim (Option-cases (nth k y.reads)) [
    | inl e ↦ rw e (omega arith)
    | inr (p, e) ↦ rw e (
        omega (
          arith,
          end_read_with_le p.0 k p.1 item (record y { reads = remove_nth k y.reads }),
          length-remove_nth k p y.reads e,
        ))
  ]

  next_returns_le :
      (item : Option StreamChunk) (rx : R) (slot : Option R)
      → held (next_returns item rx slot) ≤ held slot + 1
  next_returns_le (some (ok bytes)) rx slot = held-put_back-le slot rx
  next_returns_le (some (err e)) rx slot = omega arith
  next_returns_le none rx slot = omega arith

  end_next_le :
      (k : ℕ) (item : Option StreamChunk) (y : System R)
      → owners (end_next k item (nth k y.nexts) y) ≤ owners y
  unfolding owners holders
  end_next_le k item y = elim (Option-cases (nth k y.nexts)) [
    | inl e ↦ rw e (omega arith)
    | inr (rx, e) ↦
        rw e (
          omega (arith, next_returns_le item rx y.stream.rx_slot, length-remove_nth k rx y.nexts e))
  ]

  cancels_stream_le :
      (y : System R) → owners (record y { stream = cancel_stream y.stream }) ≤ owners y
  unfolding cancel_stream owners holders
  cancels_stream_le y = omega arith

  call_le : (c : Call) (y : System R) → owners (call c y) ≤ owners y
  unfolding call
  call_le gets_reader y = add_reader_le y
  call_le cancels_stream y = cancels_stream_le y
  call_le takes y = add_taken_le y
  call_le begins_next y = begin_next_le y
  call_le (begins_read i) y = begin_read_le i y
  call_le (releases i) y = release_at_le i y
  call_le (cancels i) y = cancel_at_le i y
  call_le (pipes i) y = pipe_at_le i y
  call_le (ends_read k item) y = end_read_le k item y
  call_le (ends_next k item) y = end_next_le k item y

  run_le : (cs : List Call) (y : System R) → owners (run cs y) ≤ owners y
  unfolding run
  run_le [] y = omega arith
  run_le (c ∷ cs) y = omega (arith, run_le cs (call c y), call_le c y)

  opened-owners : (rx : R) → owners (opened (from_receiver rx)) ≡ 1
  unfolding owners holders opened from_receiver
  opened-owners rx = refl

  opened_lazy-owners : (rx : R) → owners (opened (from_lazy_receiver rx)) ≡ 1
  unfolding owners holders opened from_lazy_receiver
  opened_lazy-owners rx = refl

  -- Whatever the calls on a stream, its readers, and the consumers that take its receiver, and in
  -- whatever order they begin and end, the receiver has one owner at most among the slot, the
  -- initializer, the readers, the waiting calls of `read` and `next`, and the consumers.
  pub one_owner :
      (rx : R) (cs : List Call)
      → (owners (run cs (opened (from_receiver rx))) ≤ 1)
        × (owners (run cs (opened (from_lazy_receiver rx))) ≤ 1)
  one_owner rx cs = (
    omega (arith, run_le cs (opened (from_receiver rx)), opened-owners rx),
    omega (arith, run_le cs (opened (from_lazy_receiver rx)), opened_lazy-owners rx),
  )
