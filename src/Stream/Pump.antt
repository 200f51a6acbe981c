-- ===== src/Stream/Pump.antt =====
-- modules/rong_stream/src/readable.rs, the loops of `pipeTo`: from channel to channel, and into a
-- sink object. Values of the engine stand by their identity.
use rong.Base.{ℕ, Bool, true, false, Option, none, some, List, [], ◌∷◌, if◌then◌else◌}
use rong.Text.{Text}
use rong.Stream.{Bytes, ok, err}
use rong.Stream.Readable.{
  StreamChunk, ReadableStream, ReadableStreamDefaultReader, StreamError, locked, ReadAnswer, value,
  done, throws, get_reader, read_answer, restore,
}
use rong.Stream.Readable
use rong.Stream.Channel.{Sender, send}
use rong.Stream.Controller.{array_buffer}
use rong.Stream.Writable.{WritableStreamDefaultWriter, WriteError, Outcome, fine, fails, write}

abbrev pub JsValue : Type 0
JsValue = ℕ

pub record Signal : Type 0 where
  pub aborted : Bool
  pub reason : JsValue

pub record PipeToOptions : Type 0 where
  pub prevent_close : Bool
  pub prevent_abort : Bool
  pub prevent_cancel : Bool
  pub signal : Option Signal

pub data PipeError : Type 0 where
  not_locked : StreamError → PipeError
  source_failed : Text → PipeError
  write_failed : WriteError → PipeError
  aborted_with : JsValue → PipeError

-- One turn of the loop over channels: what `recv` gave, or the signal's reason.
pub data Turn : Type 0 where
  receives : Option StreamChunk → Turn
  aborts : JsValue → Turn

-- Where a loop is after its turns: it waits, or it has ended, perhaps with an error.
pub data Pumped : Type 0 where
  waiting : Pumped
  ended : Option PipeError → Pumped

abbrev pump_after : Bool × Sender Bytes → Pumped × Sender Bytes → Pumped × Sender Bytes
pump_after (true, tx) rest = rest
pump_after (false, tx) rest = (ended none, tx)

unfoldable pub pump : List Turn → Sender Bytes → Pumped × Sender Bytes
pump [] tx = (waiting, tx)
pump (receives (some (ok bytes)) ∷ turns) tx =
    let rest = pump turns (send bytes tx).1 in pump_after (send bytes tx) rest
pump (receives (some (err e)) ∷ turns) tx = (ended (some (source_failed e)), tx)
pump (receives none ∷ turns) tx = (ended none, tx)
pump (aborts reason ∷ turns) tx = (ended (some (aborted_with reason)), tx)

-- One turn of the loop with a sink: what `recv` gave to the reader, whether the signal has been
-- aborted by then, and what the sink's `write` throws; or the signal's reason.
pub data SinkTurn : Type 0 where
  reads : Option StreamChunk → Option JsValue → Option Text → SinkTurn
  interrupts : JsValue → SinkTurn

-- `leaves`: the method returns from inside the loop.
pub data Ended : Type 0 where
  still : Ended
  over : Option PipeError → Ended
  leaves : PipeError → Ended

pub record Handles {ℓ} (R : Type ℓ) : Type ℓ where
  pub reader : ReadableStreamDefaultReader R
  pub writer : WritableStreamDefaultWriter

module _ {ℓ} {R : Type ℓ} where
  abbrev cancel_unless : Bool → ReadableStreamDefaultReader R → ReadableStreamDefaultReader R
  cancel_unless prevent r = if prevent then r else Readable.cancel r

  -- A read that does not overlap another.
  abbrev read_with :
      Option StreamChunk
      → Option R × ReadableStreamDefaultReader R
      → ReadAnswer × ReadableStreamDefaultReader R
  read_with item (none, r) = (done, r)
  read_with item (some rx, r) = (read_answer r.canceled item, restore rx r)

  abbrev read_now :
      Option StreamChunk
      → ReadableStreamDefaultReader R
      → ReadAnswer × ReadableStreamDefaultReader R
  read_now item r = read_with item (Readable.take_channel r)

  abbrev after_write :
      Bool
      → ReadableStreamDefaultReader R
      → Outcome × WritableStreamDefaultWriter
      → Ended × Handles R
      → Ended × Handles R
  after_write prevent r (fine, w) rest = rest
  after_write prevent r (fails e, w) rest =
      (over (some (write_failed e)), record { reader = cancel_unless prevent r; writer = w })

  -- `go` is the loop after a write that returned.
  abbrev after_read :
      ReadAnswer × ReadableStreamDefaultReader R
      → Option JsValue
      → WritableStreamDefaultWriter
      → (Bytes → ReadableStreamDefaultReader R → Ended × Handles R)
      → Ended × Handles R
  after_read (done, r) aborted w go = (over none, record { reader = r; writer = w })
  after_read (throws e, r) aborted w go =
      (leaves (source_failed e), record { reader = r; writer = w })
  after_read (value bytes, r) (some reason) w go =
      (over (some (aborted_with reason)), record { reader = r; writer = w })
  after_read (value bytes, r) none w go = go bytes r

  unfoldable pub pump_sink : Bool → Option Text → List SinkTurn → Handles R → Ended × Handles R
  pump_sink prevent_cancel error [] h = (still, h)
  pump_sink prevent_cancel error (interrupts reason ∷ turns) h =
      (over (some (aborted_with reason)), h)
  pump_sink prevent_cancel error (reads item aborted raises ∷ turns) h =
      after_read (read_now item h.reader) aborted h.writer (λ bytes r.
        let written = write error raises (array_buffer bytes) h.writer in
        let rest =
          pump_sink prevent_cancel error turns (record { reader = r; writer = written.1 }) in
        after_write prevent_cancel r written rest)
