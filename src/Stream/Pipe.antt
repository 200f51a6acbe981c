-- ===== src/Stream/Pipe.antt =====
-- modules/rong_stream/src/readable.rs, `pipeTo`: a source is locked by a reader, a destination by
-- a writer, and chunks are moved until one side ends or the signal aborts.
pub mod Fast
pub mod Slow
pub mod Tests
use rong.Base.{ℕ, Bool, true, false, not, ◌&&◌, Option, none, some, List, [], ◌∷◌, if◌then◌else◌}
use rong.Text.{Text}
use rong.Stream.{Bytes, Result, ok, err}
use rong.Stream.Readable.{
  StreamChunk, ReadableStream, ReadableStreamDefaultReader, StreamError, locked, ReadAnswer, value,
  done, throws, get_reader, read_answer, restore,
}
use rong.Stream.Readable
use rong.Stream.Channel.{Sender, send}
use rong.Stream.Controller.{array_buffer}
use rong.Stream.Writable.{
  Done, Sink, WritableStream, WritableStreamDefaultWriter, WriteError, Outcome, fine, fails,
  get_writer, write, close, abort, take_channel,
}
use rong.Stream.Writable
use rong.Stream.Pump.{
  JsValue, Signal, PipeToOptions, PipeError, not_locked, source_failed, write_failed, aborted_with,
  Turn, receives, aborts, Pumped, waiting, ended, pump, SinkTurn, reads, interrupts, Ended, still,
  over, leaves, Handles, pump_sink,
}

-- The two streams, what was sent when the destination is a channel, and the sink of a writer that
-- was dropped without being released.
pub record Streams {ℓ} (R : Type ℓ) : Type ℓ where
  pub source : ReadableStream R
  pub dest : WritableStream
  pub moved : List Bytes
  pub dropped : Option Sink

pub data Settled : Type 0 where
  pending resolves : Settled
  rejects : PipeError → Settled

abbrev abort_unless : Bool → Option Text → WritableStreamDefaultWriter → WritableStreamDefaultWriter
abort_unless prevent raises w = if prevent then w else (abort raises w).1

abbrev pub close_unless :
    Bool → Option Text → WritableStreamDefaultWriter → WritableStreamDefaultWriter
close_unless prevent raises w = if prevent then w else (close raises w).1

abbrev pub aborted_already : Option Signal → Option PipeError
aborted_already none = none
aborted_already (some s) = if s.aborted then some (aborted_with s.reason) else none

-- The argument of `pipeThrough`: an object without a stream to read or to write, or one with both.
pub data Transform : Type 0 where
  no_readable not_readable no_writable : Transform
  halves : WritableStream → Transform

module _ {ℓ} {R : Type ℓ} where
  abbrev pub release_both : Handles R → Streams R → Streams R
  release_both h y = record y {
    source = (Readable.release_lock h.reader y.source).1;
    dest = (Writable.release_lock h.writer y.dest).1;
  }

  abbrev fail_pipe :
      PipeToOptions → Option Text → PipeError → Handles R → Streams R → Settled × Streams R
  fail_pipe opts raises e h y = (
    rejects e,
    release_both (record h { writer = abort_unless opts.prevent_abort raises h.writer }) y,
  )

  -- The sender is dropped when the method returns, `preventClose` or not.
  abbrev pub settle :
      PipeToOptions
      → Option Text
      → Pumped × Sender Bytes
      → Handles R
      → Streams R
      → Settled × Streams R
  settle opts raises (waiting, tx) h y = (pending, record y { moved = tx.sent })
  settle opts raises (ended none, tx) h y =
      (resolves, release_both h (record y { moved = tx.sent }))
  settle opts raises (ended (some e), tx) h y =
      fail_pipe opts raises e h (record y { moved = tx.sent })

  abbrev pub settle_sink :
      PipeToOptions → Option Text → Ended × Handles R → Streams R → Settled × Streams R
  settle_sink opts raises (still, h) y = (pending, y)
  settle_sink opts raises (leaves e, h) y = (rejects e, record y { dropped = h.writer.sink_obj })
  settle_sink opts raises (over (some e), h) y = fail_pipe opts raises e h y
  settle_sink opts raises (over none, h) y = (
    resolves,
    release_both (record h { writer = close_unless opts.prevent_close raises h.writer }) y,
  )

  -- What happens from outside during the call: the turns of either loop, and what the sink's
  -- `close` or `abort` throws.
  abbrev with_sink :
      PipeToOptions → List SinkTurn → Option Text → Handles R → Streams R → Settled × Streams R
  with_sink opts turns raises h y =
      settle_sink opts raises (pump_sink opts.prevent_cancel y.dest.err_slot turns h) y

  abbrev with_receiver :
      PipeToOptions
      → List Turn
      → List SinkTurn
      → Option Text
      → Sender Bytes
      → Option R × ReadableStreamDefaultReader R
      → WritableStreamDefaultWriter
      → Streams R
      → Settled × Streams R
  with_receiver opts turns sink_turns raises tx (some rx, r) w y =
      settle opts raises (pump turns tx) (record { reader = r; writer = w }) y
  with_receiver opts turns sink_turns raises tx (none, r) w y =
      with_sink opts sink_turns raises (record { reader = r; writer = w }) y

  abbrev with_channel :
      PipeToOptions
      → List Turn
      → List SinkTurn
      → Option Text
      → Option (Sender Bytes × Option Done) × WritableStreamDefaultWriter
      → ReadableStreamDefaultReader R
      → Streams R
      → Settled × Streams R
  with_channel opts turns sink_turns raises (some (tx, done_rx), w) r y =
      with_receiver opts turns sink_turns raises tx (Readable.take_channel r) w y
  with_channel opts turns sink_turns raises (none, w) r y =
      with_sink opts sink_turns raises (record { reader = r; writer = w }) y

  abbrev unless_aborted :
      Option PipeError
      → PipeToOptions
      → List Turn
      → List SinkTurn
      → Option Text
      → Handles R
      → Streams R
      → Settled × Streams R
  unless_aborted (some e) opts turns sink_turns raises h y = (rejects e, release_both h y)
  unless_aborted none opts turns sink_turns raises h y =
      with_channel opts turns sink_turns raises (take_channel h.writer) h.reader y

  unfoldable pub pipe_to_with_handles :
      PipeToOptions
      → List Turn
      → List SinkTurn
      → Option Text
      → Handles R
      → Streams R
      → Settled × Streams R
  pipe_to_with_handles opts = unless_aborted (aborted_already opts.signal) opts

  abbrev with_writer :
      PipeToOptions
      → List Turn
      → List SinkTurn
      → Option Text
      → ReadableStreamDefaultReader R
      → ReadableStream R
      → Result WritableStreamDefaultWriter StreamError × WritableStream
      → Settled × Streams R
  with_writer opts turns sink_turns raises r src (err e, dst) =
      (rejects (not_locked e), record { source = src; dest = dst; moved = []; dropped = none })
  with_writer opts turns sink_turns raises r src (ok w, dst) =
      pipe_to_with_handles opts turns sink_turns raises (record { reader = r; writer = w })
        (record { source = src; dest = dst; moved = []; dropped = none })

  abbrev with_reader :
      PipeToOptions
      → List Turn
      → List SinkTurn
      → Option Text
      → Result (ReadableStreamDefaultReader R) StreamError × ReadableStream R
      → WritableStream
      → Settled × Streams R
  with_reader opts turns sink_turns raises (err e, src) dst =
      (rejects (not_locked e), record { source = src; dest = dst; moved = []; dropped = none })
  with_reader opts turns sink_turns raises (ok r, src) dst =
      with_writer opts turns sink_turns raises r src (get_writer dst)

  unfoldable pub pipe_to :
      PipeToOptions
      → List Turn
      → List SinkTurn
      → Option Text
      → ReadableStream R
      → WritableStream
      → Settled × Streams R
  pipe_to opts turns sink_turns raises src dst =
      with_reader opts turns sink_turns raises (get_reader src) dst

  -- `pipeThrough`: a TypeError for a wrong argument, and otherwise the pipe, of which only a lock
  -- that is refused is thrown to the caller.
  unfoldable pub pipe_through :
      PipeToOptions
      → List Turn
      → List SinkTurn
      → Option Text
      → Transform
      → ReadableStream R
      → Option (Settled × Streams R)
  unfolding pipe_to
  pipe_through opts turns sink_turns raises no_readable src = none
  pipe_through opts turns sink_turns raises not_readable src = none
  pipe_through opts turns sink_turns raises no_writable src = none
  pipe_through opts turns sink_turns raises (halves dst) src =
      some (pipe_to opts turns sink_turns raises src dst)
