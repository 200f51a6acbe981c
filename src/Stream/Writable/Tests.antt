-- ===== src/Stream/Writable/Tests.antt =====
-- A sink object that is written to after its end, and a file that is full after three bytes.
use rong.Base.{
  ◌≡◌, refl, true, false, Option, none, some, [], ◌∷◌, ◌++◌, length, leb, if◌then◌else◌, codes,
}
use rong.Text.{Text}
use rong.Stream.{Bytes}
use rong.Stream.Controller.{Chunk, typed_array, bytes_of}
use rong.Stream.Writable.{
  wrote, closed_sink, Sink, failed, WritableStreamDefaultWriter, stream_error, not_acquired, fine,
  fails, write, close,
}
use rong.Stream.Writable.Sinks.{closed_writer, write-close}
use rong.Stream.Writable.Task.{to_async_writer, first_failure}

abbrev sink : Sink
sink = record { has_write = true; has_close = true; has_abort = false; calls = [] }

abbrev chunk : Chunk
chunk = typed_array (1 ∷ [])

write-close_example :
    ((write none none chunk
        (close none (record { tx = none; done_rx = none; sink_obj = none })).1).0
      ≡ fails not_acquired)
    × (write none none chunk (closed_writer sink) ≡ (
      fine,
      record {
        tx = none;
        done_rx = none;
        sink_obj = some (record sink { calls = closed_sink ∷ wrote chunk ∷ [] });
      },
    ))
unfolding bytes_of
write-close_example = write-close none none none chunk sink refl refl

abbrev writer : WritableStreamDefaultWriter
writer = record { tx = none; done_rx = none; sink_obj = some sink }

-- A file with room for three bytes.
abbrev write_all : Bytes → Bytes → Option Text × Bytes
write_all bytes file =
    if leb (length (file ++ bytes)) 3 then (none, file ++ bytes) else (some (codes "full"), file)

abbrev flush : Bytes → Option Text × Bytes
flush file = (none, file)

first_failure_example :
    (to_async_writer write_all flush ((1 ∷ []) ∷ (2 ∷ 3 ∷ 4 ∷ []) ∷ (5 ∷ []) ∷ []) []
      ≡ record { writer = 1 ∷ []; done_tx = failed (codes "full"); err_slot = some (codes "full") })
    × ((write
          (to_async_writer write_all flush
            ((1 ∷ []) ∷ (2 ∷ 3 ∷ 4 ∷ []) ∷ (5 ∷ []) ∷ [])
            []).err_slot
          none
          chunk
          writer).0
        ≡ fails (stream_error (codes "full")))
first_failure_example =
    first_failure write_all flush ((1 ∷ []) ∷ []) ((5 ∷ []) ∷ []) (2 ∷ 3 ∷ 4 ∷ []) [] (codes "full")
      none chunk writer (refl, tt) refl
