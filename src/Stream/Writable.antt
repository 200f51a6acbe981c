-- ===== src/Stream/Writable.antt =====
-- modules/rong_stream/src/writable.rs: a writable stream, over a channel or over a sink object of
-- JavaScript, and its writer. What a sink's functions throw is an input.
pub mod Sinks
pub mod Task
pub mod Tests
use rong.Base.{ℕ, Bool, true, false, ◌&&◌, Option, none, some, List, [], ◌∷◌, ◌++◌, if◌then◌else◌}
use rong.Text.{Text}
use rong.Stream.{Bytes, Result, ok, err}
use rong.Stream.Readable.{StreamError, locked, put_back}
use rong.Stream.Channel.{Sender, send_in, send}
use rong.Stream.Controller.{Chunk, EnqueueError, bytes_of}

pub data SinkCall : Type 0 where
  wrote : Chunk → SinkCall
  closed_sink aborted_sink : SinkCall

-- A sink object: which functions it has, and the calls made of them.
pub record Sink : Type 0 where
  pub has_write : Bool
  pub has_close : Bool
  pub has_abort : Bool
  pub calls : List SinkCall

-- What awaiting the done receiver gives; `gone` when the task ended without a word.
pub data Done : Type 0 where
  flushed gone : Done
  failed : Text → Done

pub record WritableStream : Type 0 where
  pub tx_slot : Option (Sender Bytes)
  pub done_slot : Option Done
  pub err_slot : Option Text
  pub sink_slot : Option Sink

pub record WritableStreamDefaultWriter : Type 0 where
  pub tx : Option (Sender Bytes)
  pub done_rx : Option Done
  pub sink_obj : Option Sink

pub data WriteError : Type 0 where
  stream_error thrown : Text → WriteError
  bad_chunk : EnqueueError → WriteError
  stream_closed not_acquired : WriteError

pub data Outcome : Type 0 where
  fine : Outcome
  fails : WriteError → Outcome

unfoldable pub to_sender : Sender Bytes → WritableStream
to_sender tx = record { tx_slot = some tx; done_slot = none; err_slot = none; sink_slot = none }

unfoldable pub writable_stream_to_sender_with_done : Sender Bytes → Done → WritableStream
writable_stream_to_sender_with_done tx done = record {
  tx_slot = some tx;
  done_slot = some done;
  err_slot = none;
  sink_slot = none;
}

unfoldable pub new : Option Sink → WritableStream
new sink = record { tx_slot = none; done_slot = none; err_slot = none; sink_slot = sink }

abbrev pub lock_sink :
    Option Sink → WritableStream → Result WritableStreamDefaultWriter StreamError × WritableStream
lock_sink none s = (err locked, s)
lock_sink (some obj) s =
    (ok (record { tx = none; done_rx = none; sink_obj = some obj }), record s { sink_slot = none })

abbrev pub lock_channel :
    Option (Sender Bytes)
    → WritableStream
    → Result WritableStreamDefaultWriter StreamError × WritableStream
lock_channel none s = lock_sink s.sink_slot s
lock_channel (some tx) s = (
  ok (record { tx = some tx; done_rx = s.done_slot; sink_obj = none }),
  record s { tx_slot = none; done_slot = none },
)

unfoldable pub get_writer :
    WritableStream → Result WritableStreamDefaultWriter StreamError × WritableStream
get_writer s = lock_channel s.tx_slot s

unfoldable pub abort_stream : WritableStream → WritableStream
abort_stream s = record s { tx_slot = none }

abbrev pub after_call : Option Text → Outcome
after_call none = fine
after_call (some e) = fails (thrown e)

abbrev write_sent :
    Bool × Sender Bytes → WritableStreamDefaultWriter → Outcome × WritableStreamDefaultWriter
write_sent (true, tx) w = (fine, record w { tx = some tx })
write_sent (false, tx) w = (fails stream_closed, record w { tx = some tx })

abbrev write_bytes :
    Result Bytes EnqueueError
    → Option (Sender Bytes)
    → WritableStreamDefaultWriter
    → Outcome × WritableStreamDefaultWriter
write_bytes (err e) tx w = (fails (bad_chunk e), w)
write_bytes (ok bytes) none w = (fails not_acquired, w)
write_bytes (ok bytes) (some tx) w = write_sent (send bytes tx) w

-- Into the sink when it has `write`, and otherwise into the channel.
abbrev write_to :
    Option Sink
    → Option Text
    → Chunk
    → WritableStreamDefaultWriter
    → Outcome × WritableStreamDefaultWriter
write_to none throws chunk w = write_bytes (bytes_of chunk) w.tx w
write_to (some obj) throws chunk w =
    if obj.has_write
    then (
      after_call throws,
      record w { sink_obj = some (record obj { calls = obj.calls ++ wrote chunk ∷ [] }) },
    )
    else write_bytes (bytes_of chunk) w.tx w

-- `error` is what the stream's error slot holds.
abbrev write_unless :
    Option Text
    → Option Text
    → Chunk
    → WritableStreamDefaultWriter
    → Outcome × WritableStreamDefaultWriter
write_unless (some e) throws chunk w = (fails (stream_error e), w)
write_unless none throws chunk w = write_to w.sink_obj throws chunk w

unfoldable pub write :
    Option Text
    → Option Text
    → Chunk
    → WritableStreamDefaultWriter
    → Outcome × WritableStreamDefaultWriter
write = write_unless

-- The call of a sink's `close` or `abort`.
abbrev call_sink : Bool → SinkCall → Option Text → Sink → Outcome × Sink
call_sink has call throws obj =
    if has then (after_call throws, record obj { calls = obj.calls ++ call ∷ [] }) else (fine, obj)

abbrev await_done : Option Done → Outcome
await_done (some (failed e)) = fails (stream_error e)
await_done (some flushed) = fine
await_done (some gone) = fine
await_done none = fine

abbrev close_channel : WritableStreamDefaultWriter → Outcome × WritableStreamDefaultWriter
close_channel w = (await_done w.done_rx, record w { tx = none; done_rx = none })

abbrev close_after :
    Outcome × Sink → WritableStreamDefaultWriter → Outcome × WritableStreamDefaultWriter
close_after (fine, obj) w = close_channel (record w { sink_obj = some obj })
close_after (fails e, obj) w = (fails e, record w { sink_obj = some obj })

abbrev close_with :
    Option Sink → Option Text → WritableStreamDefaultWriter → Outcome × WritableStreamDefaultWriter
close_with none throws w = close_channel w
close_with (some obj) throws w = close_after (call_sink obj.has_close closed_sink throws obj) w

unfoldable pub close :
    Option Text → WritableStreamDefaultWriter → Outcome × WritableStreamDefaultWriter
close throws w = close_with w.sink_obj throws w

abbrev abort_after :
    Outcome × Sink → WritableStreamDefaultWriter → Outcome × WritableStreamDefaultWriter
abort_after (fine, obj) w = (fine, record w { sink_obj = some obj; tx = none })
abort_after (fails e, obj) w = (fails e, record w { sink_obj = some obj })

abbrev abort_with :
    Option Sink → Option Text → WritableStreamDefaultWriter → Outcome × WritableStreamDefaultWriter
abort_with none throws w = (fine, record w { tx = none })
abort_with (some obj) throws w = abort_after (call_sink obj.has_abort aborted_sink throws obj) w

unfoldable pub abort :
    Option Text → WritableStreamDefaultWriter → Outcome × WritableStreamDefaultWriter
abort throws w = abort_with w.sink_obj throws w

-- What is returned goes into a slot that is empty.
abbrev pub give_back {ℓ} : {A : Type ℓ} → Option A → Option A → Option A
give_back none slot = slot
give_back (some a) slot = put_back slot a

unfoldable pub release_lock :
    WritableStreamDefaultWriter → WritableStream → WritableStreamDefaultWriter × WritableStream
release_lock w s = (
  record { tx = none; done_rx = none; sink_obj = none },
  record s {
    tx_slot = give_back w.tx s.tx_slot;
    done_slot = give_back w.done_rx s.done_slot;
    sink_slot = give_back w.sink_obj s.sink_slot;
  },
)

abbrev take_tx :
    Option (Sender Bytes)
    → WritableStreamDefaultWriter
    → Option (Sender Bytes × Option Done) × WritableStreamDefaultWriter
take_tx none w = (none, w)
take_tx (some tx) w = (some (tx, w.done_rx), record w { tx = none; done_rx = none })

abbrev take_unless_sink :
    Option Sink
    → WritableStreamDefaultWriter
    → Option (Sender Bytes × Option Done) × WritableStreamDefaultWriter
take_unless_sink none w = take_tx w.tx w
take_unless_sink (some obj) w = (none, w)

unfoldable pub take_channel :
    WritableStreamDefaultWriter → Option (Sender Bytes × Option Done) × WritableStreamDefaultWriter
take_channel w = take_unless_sink w.sink_obj w
