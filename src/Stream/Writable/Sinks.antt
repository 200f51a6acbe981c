-- ===== src/Stream/Writable/Sinks.antt =====
-- Locking and releasing, and what is left of a writer that was closed.
use rong.Base.{◌≡◌, refl, Bool, true, false, Option, none, some, List, [], ◌∷◌, ◌++◌}
use rong.Text.{Text}
use rong.Stream.{Bytes, Result, ok, err}
use rong.Stream.Channel.{Sender}
use rong.Stream.Controller.{
  Chunk, typed_array, array_buffer, detached_array, other_object, primitive, EnqueueError, bytes_of,
}
use rong.Stream.Writable.{
  SinkCall, wrote, closed_sink, Sink, Done, WritableStream, WritableStreamDefaultWriter, WriteError,
  bad_chunk, not_acquired, fine, fails, get_writer, write, close, release_lock,
}

released :
    (tx : Option (Sender Bytes)) (signal : Option Done) (e : Option Text) (sink : Option Sink)
    (w : WritableStreamDefaultWriter)
    → (get_writer (record { tx_slot = tx; done_slot = signal; err_slot = e; sink_slot = sink })).0
      ≡ ok w
    → (release_lock w
        (get_writer
          (record { tx_slot = tx; done_slot = signal; err_slot = e; sink_slot = sink })).1).1
      ≡ record { tx_slot = tx; done_slot = signal; err_slot = e; sink_slot = sink }
unfolding get_writer release_lock
released none signal e none w h = absurd (cc)
released none signal e (some obj) w h =
    let k : w ≡ record { tx = none; done_rx = none; sink_obj = some obj } = cc in rw k refl
released (some tx) none e sink w h =
    let k : w ≡ record { tx = some tx; done_rx = none; sink_obj = none } = cc in rw k refl
released (some tx) (some signal) e sink w h =
    let k : w ≡ record { tx = some tx; done_rx = some signal; sink_obj = none } = cc in rw k refl

-- When `getWriter` succeeds, releasing that writer restores the writable stream: its sender, its
-- completion signal and its sink.
pub release_lock-get_writer :
    (s : WritableStream) (w : WritableStreamDefaultWriter)
    → (get_writer s).0 ≡ ok w
    → (release_lock w (get_writer s).1).1 ≡ s
release_lock-get_writer s w = released s.tx_slot s.done_slot s.err_slot s.sink_slot w

abbrev unacquired : Result Bytes EnqueueError → WriteError
unacquired (ok bytes) = not_acquired
unacquired (err e) = bad_chunk e

-- The writer of a new stream over `sink`, after `close` returned.
abbrev pub closed_writer : Sink → WritableStreamDefaultWriter
closed_writer sink = (close none (record { tx = none; done_rx = none; sink_obj = some sink })).1

refuses :
    (chunk : Chunk) (signal : Option Done) (throws : Option Text)
    → (write none throws chunk (record { tx = none; done_rx = signal; sink_obj = none })).0
      ≡ fails (unacquired (bytes_of chunk))
unfolding write bytes_of
refuses (typed_array bytes) signal throws = refl
refuses (array_buffer bytes) signal throws = refl
refuses detached_array signal throws = refl
refuses other_object signal throws = refl
refuses primitive signal throws = refl

kept :
    (has_write has_close has_abort : Bool) (calls : List SinkCall) (chunk : Chunk)
    → has_write ≡ true
    → has_close ≡ true
    → write none none chunk (
        closed_writer (record {
          has_write = has_write;
          has_close = has_close;
          has_abort = has_abort;
          calls = calls;
        }))
      ≡ (
        fine,
        record {
          tx = none;
          done_rx = none;
          sink_obj = some (record {
            has_write = has_write;
            has_close = has_close;
            has_abort = has_abort;
            calls = (calls ++ closed_sink ∷ []) ++ wrote chunk ∷ [];
          });
        },
      )
unfolding write close
kept true true has_abort calls chunk h k = refl
kept false b has_abort calls chunk h k = absurd (cc)
kept true false has_abort calls chunk h k = absurd (cc)

-- After `close` of a writer over a channel, every `write` fails. After `close` of a writer over a
-- sink that has `write` and `close`, a `write` still hands its chunk to the sink, behind the call
-- of the sink's `close`, and returns.
pub write-close :
    (tx : Option (Sender Bytes)) (signal : Option Done) (throws : Option Text) (chunk : Chunk)
    (sink : Sink)
    → sink.has_write ≡ true
    → sink.has_close ≡ true
    → ((write none throws chunk
          (close none (record { tx = tx; done_rx = signal; sink_obj = none })).1).0
        ≡ fails (unacquired (bytes_of chunk)))
      × (write none none chunk (closed_writer sink) ≡ (
        fine,
        record {
          tx = none;
          done_rx = none;
          sink_obj =
              some (record sink { calls = (sink.calls ++ closed_sink ∷ []) ++ wrote chunk ∷ [] });
        },
      ))
unfolding write close bytes_of
write-close tx signal throws chunk sink h k = (
  refuses chunk none throws,
  kept sink.has_write sink.has_close sink.has_abort sink.calls chunk h k,
)
