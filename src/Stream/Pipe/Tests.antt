-- ===== src/Stream/Pipe/Tests.antt =====
-- Two chunks through a channel and into a sink.
use rong.Base.{ℕ, ◌≡◌, refl, true, false, Option, none, some, List, [], ◌∷◌, codes}
use rong.Stream.{Bytes, ok}
use rong.Stream.Readable.{from_receiver}
use rong.Stream.Channel.{fresh}
use rong.Stream.Controller.{array_buffer}
use rong.Stream.Writable.{wrote, closed_sink, Done, failed, WritableStream, new}
use rong.Stream.Pump.{PipeToOptions, Turn, receives, reads}
use rong.Stream.Pipe.{Streams, resolves, pipe_to}
use rong.Stream.Pipe.Fast.{stop, channel_of, pipe_to_resolves}
use rong.Stream.Pipe.Slow.{sink_of, into_sink, pipe_to_sink}

-- A receiver.
abbrev handle : ℕ
handle = 7

abbrev options : PipeToOptions
options = record {
  prevent_close = true;
  prevent_abort = false;
  prevent_cancel = false;
  signal = none;
}

abbrev late_options : PipeToOptions
late_options = record options { signal = some (record { aborted = true; reason = 4 }) }

abbrev turns : List Turn
turns = receives (some (ok (1 ∷ []))) ∷ receives (some (ok (2 ∷ []))) ∷ receives none ∷ []

abbrev failed_file : Option Done
failed_file = some (failed (codes "disk full"))

pipe_to_resolves_example :
    (pipe_to options turns [] none
      (from_receiver handle)
      (channel_of (fresh (some 1)) failed_file none)).0
    ≡ resolves
unfolding stop
pipe_to_resolves_example =
    pipe_to_resolves options turns [] none handle (some 1) failed_file none refl refl

abbrev locked_dest : WritableStream
locked_dest = record { tx_slot = none; done_slot = none; err_slot = none; sink_slot = none }

abbrev chunks : List Bytes
chunks = (1 ∷ []) ∷ (2 ∷ []) ∷ []

pipe_to_sink_example :
    into_sink
      (record options { prevent_close = false })
      []
      none
      handle
      true
      true
      chunks
      (reads none none none ∷ [])
    ≡ (
      resolves,
      record {
        source = from_receiver handle;
        dest = new (
            some (record (sink_of true true) {
              calls =
                  wrote (array_buffer (1 ∷ [])) ∷ wrote (array_buffer (2 ∷ [])) ∷ closed_sink ∷ [];
            }));
        moved = [];
        dropped = none;
      },
    )
pipe_to_sink_example =
    pipe_to_sink (record options { prevent_close = false }) [] none handle true true chunks [] none
      none refl

abbrev shut : Streams ℕ
shut = record {
  source = record { rx_slot = none; initializer = none };
  dest = new none;
  moved = [];
  dropped = some (record (sink_of true true) {
    calls = wrote (array_buffer (1 ∷ [])) ∷ wrote (array_buffer (2 ∷ [])) ∷ [];
  });
}

abbrev sink_dest : WritableStream
sink_dest = new (some (sink_of true true))
