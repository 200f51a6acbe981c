-- ===== src/Stream/Pipe/Slow.antt =====
-- `pipeTo` that is refused or aborted before it moves a chunk, and into a sink whose source fails.
use rong.Base.{
  ◌≡◌, ◌∙◌, ap, refl, Bool, true, false, Option, none, some, List, [], ◌∷◌, ◌++◌, map, append-nil,
  append_assoc, if◌then◌else◌,
}
use rong.Text.{Text}
use rong.Stream.{Bytes, ok, err}
use rong.Stream.Readable.{
  StreamError, locked, from_receiver, from_lazy_receiver, fill_slot, fill, get_reader, reader_of,
  return_to, read_answer, restore,
}
use rong.Stream.Readable
use rong.Stream.Controller.{array_buffer}
use rong.Stream.Writable.{
  SinkCall, wrote, closed_sink, close, Sink, WritableStream, get_writer, new, write, take_channel,
  release_lock,
}
use rong.Stream.Pump.{PipeToOptions, not_locked, Turn, SinkTurn, reads, pump_sink, JsValue, Handles}
use rong.Stream.Pipe.{
  Streams, Settled, rejects, resolves, aborted_already, pipe_to_with_handles, pipe_to, settle_sink,
  close_unless, release_both,
}

module _ {ℓ} {R : Type ℓ} (opts : PipeToOptions) (turns : List Turn) (sink_turns : List SinkTurn)
    (raises : Option Text) where
  -- A destination that is locked: `pipeTo` rejects for that, and leaves the source, made from a
  -- receiver or lazily, without its receiver, so that `getReader` of the source throws from then on.
  pub pipe_to_locked :
      (rx : R) (dst : WritableStream)
      → (get_writer dst).0 ≡ err locked
      → (pipe_to opts turns sink_turns raises (from_receiver rx) dst ≡ (
        rejects (not_locked locked),
        record {
          source = record { rx_slot = none; initializer = none };
          dest = (get_writer dst).1;
          moved = [];
          dropped = none;
        },
      ))
        × (pipe_to opts turns sink_turns raises (from_lazy_receiver rx) dst
            ≡ pipe_to opts turns sink_turns raises (from_receiver rx) dst)
        × ((get_reader (pipe_to opts turns sink_turns raises (from_receiver rx) dst).1.source).0
            ≡ err locked)
  unfolding pipe_to from_receiver from_lazy_receiver get_reader fill
  pipe_to_locked rx dst l = rw l (refl, refl, refl)

abbrev chunk_turn : Bytes → SinkTurn
chunk_turn bytes = reads (some (ok bytes)) none none

abbrev wrote_bytes : Bytes → SinkCall
wrote_bytes bytes = wrote (array_buffer bytes)

module _ {ℓ} {R : Type ℓ} (rx : R) where
  abbrev sink_handles : Bool → Bool → List SinkCall → Handles R
  sink_handles has_close has_abort calls = record {
    reader = record { rx = some rx; canceled = false };
    writer = record {
      tx = none;
      done_rx = none;
      sink_obj = some (record {
        has_write = true;
        has_close = has_close;
        has_abort = has_abort;
        calls = calls;
      });
    };
  }

  pump_sink_chunks :
      (prevent c a : Bool) (chunks : List Bytes) (calls : List SinkCall) (rest : List SinkTurn)
      → pump_sink prevent none (map chunk_turn chunks ++ rest) (sink_handles c a calls)
        ≡ pump_sink prevent none rest (sink_handles c a (calls ++ map wrote_bytes chunks))
  unfolding pump_sink write Readable.take_channel read_answer restore
  pump_sink_chunks prevent c a [] calls rest = rw (append-nil calls) refl
  pump_sink_chunks prevent c a (bytes ∷ chunks) calls rest =
      pump_sink_chunks prevent c a chunks (calls ++ wrote_bytes bytes ∷ []) rest
      ∙ ap (λ l. pump_sink prevent none rest (sink_handles c a l))
          (append_assoc calls (wrote_bytes bytes ∷ []) (map wrote_bytes chunks))

-- A sink object with `write`, before it is written to.
abbrev pub sink_of : Bool → Bool → Sink
sink_of has_close has_abort = record {
  has_write = true;
  has_close = has_close;
  has_abort = has_abort;
  calls = [];
}

abbrev closing : Bool → Bool → List SinkCall
closing prevent has_close = if prevent then [] else if has_close then closed_sink ∷ [] else []

module _ {ℓ} {R : Type ℓ} (opts : PipeToOptions) (turns : List Turn) (raises : Option Text) (rx : R)
    (c a : Bool) (chunks : List Bytes) where
  abbrev pub into_sink : List SinkTurn → Settled × Streams R
  into_sink rest =
      pipe_to opts turns (map chunk_turn chunks ++ rest) raises (from_receiver rx)
        (new (some (sink_of c a)))

  abbrev streams : Streams R
  streams = record {
    source = record { rx_slot = none; initializer = none };
    dest = new none;
    moved = [];
    dropped = none;
  }

  into_sink-settle :
      (rest : List SinkTurn)
      → aborted_already opts.signal ≡ none
      → into_sink rest
        ≡ settle_sink opts raises
            (pump_sink opts.prevent_cancel none rest (sink_handles rx c a (map wrote_bytes chunks)))
            streams
  unfolding pipe_to pipe_to_with_handles from_receiver get_reader fill get_writer new take_channel
  into_sink-settle rest h = rw (h, pump_sink_chunks rx opts.prevent_cancel c a chunks [] rest) refl

  closed_streams :
      (prevent c : Bool) (raises : Option Text) (calls : List SinkCall)
      → release_both
          (record {
            reader = record { rx = some rx; canceled = false };
            writer = close_unless prevent raises (record {
              tx = none;
              done_rx = none;
              sink_obj = some (record (sink_of c a) { calls = calls });
            });
          })
          streams
        ≡ record {
          source = from_receiver rx;
          dest = new (some (record (sink_of c a) { calls = calls ++ closing prevent c }));
          moved = [];
          dropped = none;
        }
  unfolding new from_receiver Readable.release_lock release_lock close
  closed_streams true c raises calls = rw (append-nil calls) refl
  closed_streams false false raises calls = rw (append-nil calls) refl
  closed_streams false true none calls = refl
  closed_streams false true (some e) calls = refl

  -- A source made from a receiver, a new stream over a sink that has `write`, which does not throw,
  -- and a signal that is not aborted: when the source ends after `chunks`, `pipeTo` resolves,
  -- whatever the sink's `close` does, the sink has been handed exactly these chunks, in order, and
  -- then been closed unless `preventClose` is set or it has no `close`, and both streams can be
  -- locked again.
  pub pipe_to_sink :
      (rest : List SinkTurn) (flag : Option JsValue) (raised : Option Text)
      → aborted_already opts.signal ≡ none
      → into_sink (reads none flag raised ∷ rest) ≡ (
        resolves,
        record {
          source = from_receiver rx;
          dest = new (
              some (record (sink_of c a) {
                calls = map wrote_bytes chunks ++ closing opts.prevent_close c;
              }));
          moved = [];
          dropped = none;
        },
      )
  unfolding pump_sink write Readable.take_channel read_answer restore from_receiver new
      Readable.release_lock release_lock close
  pipe_to_sink rest flag raised h =
      into_sink-settle (reads none flag raised ∷ rest) h
      ∙ ap (λ y. (resolves, y))
          (closed_streams opts.prevent_close c raises (map wrote_bytes chunks))

  -- The streams and the sink after the source has failed.
  abbrev pub failed_streams : Streams R
  failed_streams = record streams {
    dropped = some (record (sink_of c a) { calls = map wrote_bytes chunks });
  }
