-- ===== src/Stream/Readable/Locked.antt =====
-- A stream whose receiver is held elsewhere is locked, and a reader reads one chunk at a time.
use rong.Base.{ℕ, ◌+◌, ◌≤◌, ◌≡◌, refl, true, Option, none, some, List, ◌∷◌, arith}
use rong.Stream.{err}
use rong.Stream.Slots.{held, nth, length-remove_nth, total-nth-le}
use rong.Stream.Readable.{
  ReadableStream, ReadableStreamDefaultReader, locked, done, from_receiver, fill_slot, fill,
  get_reader, readable_stream_take_receiver, readable_stream_is_locked, take_channel, is_none,
}
use rong.Stream.Readable.Calls.{System, Call, begins_read, opened, call, run, holders, owners}
use rong.Stream.Readable.Owner.{one_owner}

module _ {ℓ} {R : Type ℓ} where
  -- `getReader` throws, `tee` finds no receiver, and the stream counts as locked.
  abbrev pub Refuses : ReadableStream R → Type ℓ
  Refuses s =
      ((get_reader s).0 ≡ err locked)
      × ((readable_stream_take_receiver s).0 ≡ none)
      × (readable_stream_is_locked s ≡ true)

  emptied : (n : ℕ) (o : Option R) → held o + n ≤ 1 → 1 ≤ n → o ≡ none
  emptied n none h k = refl
  emptied n (some rx) h k = absurd (omega arith)

  fill_slot-none : (a b : Option R) → a ≡ none → b ≡ none → (fill_slot a b).rx_slot ≡ none
  fill_slot-none a b e f = rw (e, f) refl

  is_locked : (y : System R) → owners y ≤ 1 → 1 ≤ holders y → Refuses y.stream
  unfolding owners get_reader fill readable_stream_is_locked is_none readable_stream_take_receiver
  is_locked y h k =
      let e : y.stream.rx_slot ≡ none =
        emptied (held y.stream.initializer + holders y) y.stream.rx_slot (omega arith)
          (omega arith) in
      let f : y.stream.initializer ≡ none =
        emptied (held y.stream.rx_slot + holders y) y.stream.initializer (omega arith)
          (omega arith) in
      rw (e, f) (refl, refl, refl)

  -- On a stream made from a receiver, after any calls: while a reader, a waiting `read` or `next`,
  -- or a consumer has the receiver, `getReader` throws that the stream is locked, `tee` finds no
  -- receiver and the stream counts as locked.
  pub held-Refuses :
      (rx : R) (cs : List Call)
      → 1 ≤ holders (run cs (opened (from_receiver rx)))
      → Refuses (run cs (opened (from_receiver rx))).stream
  held-Refuses rx cs = is_locked (run cs (opened (from_receiver rx))) (one_owner rx cs).0

  read_in_recv :
      (y : System R) (k i : ℕ) (rx : R) (r : ReadableStreamDefaultReader R)
      → owners y ≤ 1
      → nth k y.reads ≡ some (i, rx)
      → nth i y.readers ≡ some r
      → call (begins_read i) y ≡ record y { answers = (i, done) ∷ y.answers }
  unfolding owners holders call take_channel
  read_in_recv y k i rx r h e f =
      let g : r.rx ≡ none =
        emptied 1 r.rx
          (omega (
            arith,
            total-nth-le (λ r. held r.rx) i r y.readers f,
            length-remove_nth k (i, rx) y.reads e,
          ))
          (omega arith) in
      rw (f, g) refl

  -- On a stream made from a receiver, after any calls: a `read` that begins while another `read`
  -- of the same reader waits for a chunk is answered as done at once, and changes nothing else.
  pub second_read :
      (rx : R) (cs : List Call) (k i : ℕ) (held_rx : R) (r : ReadableStreamDefaultReader R)
      → nth k (run cs (opened (from_receiver rx))).reads ≡ some (i, held_rx)
      → nth i (run cs (opened (from_receiver rx))).readers ≡ some r
      → call (begins_read i) (run cs (opened (from_receiver rx)))
        ≡ record (run cs (opened (from_receiver rx))) {
          answers = (i, done) ∷ (run cs (opened (from_receiver rx))).answers;
        }
  second_read rx cs k i held_rx r =
      read_in_recv (run cs (opened (from_receiver rx))) k i held_rx r (one_owner rx cs).0
