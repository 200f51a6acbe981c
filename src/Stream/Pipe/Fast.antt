-- ===== src/Stream/Pipe/Fast.antt =====
-- `pipeTo` when the destination is a channel, and when it is refused or aborted at once.
use rong.Base.{
  ℕ, zero, suc, ◌≡◌, ◌∙◌, sym, ap, refl, false, Option, none, some, List, [], ◌∷◌, ◌++◌, append-nil,
}
use rong.Text.{Text}
use rong.Stream.{Bytes, ok, err}
use rong.Stream.Readable.{
  ReadableStream, ReadableStreamDefaultReader, StreamError, locked, from_receiver, fill_slot, fill,
  get_reader, reader_of, return_to,
}
use rong.Stream.Readable
use rong.Stream.Channel.{Sender, send, fresh, upto, upto-nil, upto-send}
use rong.Stream.Writable.{
  Done, WritableStream, WritableStreamDefaultWriter, get_writer, lock_channel, lock_sink,
  take_channel,
}
use rong.Stream.Writable
use rong.Stream.Pump.{
  PipeToOptions, source_failed, aborted_with, Turn, receives, aborts, Pumped, waiting, ended, pump,
  SinkTurn, Handles,
}
use rong.Stream.Pipe.{
  Streams, Settled, pending, resolves, rejects, settle, aborted_already, pipe_to_with_handles,
  pipe_to,
}

-- The chunks before the end of the source, its error, or the abort.
unfoldable pub payload : List Turn → List Bytes
payload [] = []
payload (receives (some (ok bytes)) ∷ turns) = bytes ∷ payload turns
payload (receives (some (err e)) ∷ turns) = []
payload (receives none ∷ turns) = []
payload (aborts reason ∷ turns) = []

-- How these turns end.
unfoldable pub stop : List Turn → Pumped
stop [] = waiting
stop (receives (some (ok bytes)) ∷ turns) = stop turns
stop (receives (some (err e)) ∷ turns) = ended (some (source_failed e))
stop (receives none ∷ turns) = ended none
stop (aborts reason ∷ turns) = ended (some (aborted_with reason))

abbrev pub settled : Pumped → Settled
settled waiting = pending
settled (ended none) = resolves
settled (ended (some e)) = rejects e

pump_sent :
    (turns : List Turn) (room : Option ℕ) (sent : List Bytes)
    → (pump turns (record { room = room; sent = sent })).1.sent ≡ sent ++ upto room (payload turns)
unfolding pump payload send
pump_sent [] room sent = rw (upto-nil room) (sym (append-nil sent))
pump_sent (receives (some (ok bytes)) ∷ turns) none sent =
    pump_sent turns none (sent ++ bytes ∷ []) ∙ upto-send none bytes sent (payload turns)
pump_sent (receives (some (ok bytes)) ∷ turns) (some zero) sent = sym (append-nil sent)
pump_sent (receives (some (ok bytes)) ∷ turns) (some (suc n)) sent =
    pump_sent turns (some n) (sent ++ bytes ∷ [])
    ∙ upto-send (some (suc n)) bytes sent (payload turns)
pump_sent (receives (some (err e)) ∷ turns) room sent = rw (upto-nil room) (sym (append-nil sent))
pump_sent (receives none ∷ turns) room sent = rw (upto-nil room) (sym (append-nil sent))
pump_sent (aborts reason ∷ turns) room sent = rw (upto-nil room) (sym (append-nil sent))

pump-stop :
    (turns : List Turn) (sent : List Bytes)
    → (pump turns (record { room = none; sent = sent })).0 ≡ stop turns
unfolding pump stop send
pump-stop [] sent = refl
pump-stop (receives (some (ok bytes)) ∷ turns) sent = pump-stop turns (sent ++ bytes ∷ [])
pump-stop (receives (some (err e)) ∷ turns) sent = refl
pump-stop (receives none ∷ turns) sent = refl
pump-stop (aborts reason ∷ turns) sent = refl

-- The end of the source is reached, or a send fails before it.
pump_done :
    (turns : List Turn) (room : Option ℕ) (sent : List Bytes)
    → stop turns ≡ ended none
    → (pump turns (record { room = room; sent = sent })).0 ≡ ended none
unfolding pump stop send
pump_done [] room sent h = absurd (cc)
pump_done (receives (some (ok bytes)) ∷ turns) none sent h =
    pump_done turns none (sent ++ bytes ∷ []) h
pump_done (receives (some (ok bytes)) ∷ turns) (some zero) sent h = refl
pump_done (receives (some (ok bytes)) ∷ turns) (some (suc n)) sent h =
    pump_done turns (some n) (sent ++ bytes ∷ []) h
pump_done (receives (some (err e)) ∷ turns) room sent h = absurd (cc)
pump_done (receives none ∷ turns) room sent h = refl
pump_done (aborts reason ∷ turns) room sent h = absurd (cc)

abbrev pub channel_of : Sender Bytes → Option Done → Option Text → WritableStream
channel_of tx done_rx error = record {
  tx_slot = some tx;
  done_slot = done_rx;
  err_slot = error;
  sink_slot = none;
}

-- No reader and no writer can be had of these streams.
abbrev pub IsShut {ℓ} : {R : Type ℓ} → Streams R → Type ℓ
IsShut y = ((get_reader y.source).0 ≡ err locked) × ((get_writer y.dest).0 ≡ err locked)

module _ {ℓ} {R : Type ℓ} (opts : PipeToOptions) (turns : List Turn) (sink_turns : List SinkTurn)
    (raises : Option Text) (rx : R) where
  abbrev locked_source : ReadableStreamDefaultReader R
  locked_source = record { rx = none; canceled = false }

  abbrev handles : Handles R
  handles = record {
    reader = locked_source;
    writer = record { tx = none; done_rx = none; sink_obj = none };
  }

  abbrev streams : Option Text → Streams R
  streams error = record {
    source = record { rx_slot = none; initializer = none };
    dest = record { tx_slot = none; done_slot = none; err_slot = error; sink_slot = none };
    moved = [];
    dropped = none;
  }

  pipe_to-settle :
      (tx : Sender Bytes) (done_rx : Option Done) (error : Option Text)
      → aborted_already opts.signal ≡ none
      → pipe_to opts turns sink_turns raises (from_receiver rx) (channel_of tx done_rx error)
        ≡ settle opts raises (pump turns tx) handles (streams error)
  unfolding pipe_to pipe_to_with_handles from_receiver get_reader fill get_writer take_channel
      Readable.take_channel
  pipe_to-settle tx done_rx error h = rw h refl

  settle_moved :
      (p : Pumped) (tx : Sender Bytes) (h : Handles R) (y : Streams R)
      → ((settle opts raises (p, tx) h y).0 ≡ settled p)
        × ((settle opts raises (p, tx) h y).1.moved ≡ tx.sent)
  settle_moved waiting tx h y = (refl, refl)
  settle_moved (ended none) tx h y = (refl, refl)
  settle_moved (ended (some e)) tx h y = (refl, refl)

  -- When the signal is not aborted yet, `pipeTo` of a source into a channel sends the chunks before
  -- the end, the error or the abort, in order, up to the dropping of the channel's receiver. When
  -- that receiver stays, `pipeTo` rejects with the source's error or the abort's reason, and
  -- resolves when the source ends.
  pub pipe_to_channel :
      (room : Option ℕ) (done_rx : Option Done) (error : Option Text)
      → aborted_already opts.signal ≡ none
      → ((pipe_to opts turns sink_turns raises
            (from_receiver rx)
            (channel_of (fresh room) done_rx error)).1.moved
          ≡ upto room (payload turns))
        × ((pipe_to opts turns sink_turns raises
              (from_receiver rx)
              (channel_of (fresh none) done_rx error)).0
            ≡ settled (stop turns))
  unfolding fresh
  pipe_to_channel room done_rx error h =
      let p = pump turns (fresh room) in
      let q = pump turns (fresh none) in
      (
        ap (λ r. r.1.moved) (pipe_to-settle (fresh room) done_rx error h)
            ∙ (settle_moved p.0 p.1 handles (streams error)).1
            ∙ pump_sent turns room [],
        ap (λ r. r.0) (pipe_to-settle (fresh none) done_rx error h)
            ∙ (settle_moved q.0 q.1 handles (streams error)).0
            ∙ ap settled (pump-stop turns []),
      )

  -- When the signal is not aborted yet and the source would end without an error or an abort,
  -- `pipeTo` into a channel resolves, whatever the completion signal of the destination says, also
  -- that a write has failed, and also when the channel's receiver is dropped before the last chunk.
  pub pipe_to_resolves :
      (room : Option ℕ) (done_rx : Option Done) (error : Option Text)
      → aborted_already opts.signal ≡ none
      → stop turns ≡ ended none
      → (pipe_to opts turns sink_turns raises
          (from_receiver rx)
          (channel_of (fresh room) done_rx error)).0
        ≡ resolves
  unfolding fresh
  pipe_to_resolves room done_rx error h k =
      let p = pump turns (fresh room) in
      ap (λ r. r.0) (pipe_to-settle (fresh room) done_rx error h)
      ∙ (settle_moved p.0 p.1 handles (streams error)).0
      ∙ ap settled (pump_done turns room [] k)
