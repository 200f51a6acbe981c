-- ===== src/Stream/Copy.antt =====
-- The parts of modules/rong_stream/src together: a native reader is read into a stream, the stream is piped
-- into a channel, and the channel is written to a native writer.
pub mod Tests
use rong.Base.{ℕ, ◌≡◌, ◌≢◌, ◌∙◌, sym, ap, refl, Option, none, some, List, [], ◌∷◌, ◌++◌, map, All}
use rong.Text.{Text}
use rong.Stream.{Bytes, Result, ok, err}
use rong.Stream.Readable.{StreamChunk, from_receiver, from_lazy_receiver, get_reader, fill}
use rong.Stream.Channel.{Sender, fresh, upto}
use rong.Stream.Source.{ReadBuf, bytes_read, read_failed, read_task, contents, read_task_sent}
use rong.Stream.Writable.{Done, flushed}
use rong.Stream.Writable.Task.{Task, to_async_writer, after, Accepts, all_written}
use rong.Stream.Pump.{PipeToOptions, Turn, receives, ended}
use rong.Stream.Pipe.{Settled, resolves, aborted_already, pipe_to, Streams}
use rong.Stream.Pipe.Fast.{payload, stop, settled, channel_of, pipe_to_channel}

-- A reader that gives `chunks` and then its end.
abbrev pub file : List Bytes → List ReadBuf
file chunks = map bytes_read chunks ++ bytes_read [] ∷ []

-- The turns of a pipe whose source channel holds these items and is then closed.
abbrev pub turns_of : List StreamChunk → List Turn
turns_of [] = receives none ∷ []
turns_of (item ∷ items) = receives (some item) ∷ turns_of items

abbrev pub turns_from : List ReadBuf → List Turn
turns_from reads = turns_of (read_task reads (fresh none)).sent

contents-file :
    (chunks : List Bytes) → All (λ c. c ≢ []) chunks → contents (file chunks) ≡ map ok chunks
unfolding contents
contents-file [] h = refl
contents-file ([] ∷ chunks) h = absurd (h.0 refl)
contents-file ((b ∷ bs) ∷ chunks) h = ap (◌∷◌ (ok (b ∷ bs))) (contents-file chunks h.1)

payload-turns_of : (chunks : List Bytes) → payload (turns_of (map ok chunks)) ≡ chunks
unfolding payload
payload-turns_of [] = refl
payload-turns_of (c ∷ chunks) = ap (◌∷◌ c) (payload-turns_of chunks)

stop-turns_of : (chunks : List Bytes) → stop (turns_of (map ok chunks)) ≡ ended none
unfolding stop
stop-turns_of [] = refl
stop-turns_of (c ∷ chunks) = stop-turns_of chunks

read_file :
    (chunks : List Bytes)
    → All (λ c. c ≢ []) chunks
    → turns_from (file chunks) ≡ turns_of (map ok chunks)
unfolding fresh
read_file chunks h = ap turns_of (read_task_sent (file chunks) none [] ∙ contents-file chunks h)

module _ {ℓ} {W : Type ℓ} (write_all : Bytes → W → Option Text × W)
    (flush : W → Option Text × W) where
  abbrev pub copied :
      {R : Type 0} → PipeToOptions → R → Option Done → List Bytes → Settled × Streams R
  copied opts rx done_rx chunks =
      pipe_to opts (turns_from (file chunks)) [] none (from_lazy_receiver rx)
        (channel_of (fresh none) done_rx none)

  -- A native reader that gives non-empty chunks and then its end, piped without an aborted signal
  -- into a native writer that fails at none of them and not at the flush: `pipeTo` resolves, and
  -- the writer has been given exactly these chunks, in order, and flushed.
  pub copied_lem :
      {R : Type 0} (opts : PipeToOptions) (rx : R) (done_rx : Option Done) (chunks : List Bytes)
      (w : W)
      → aborted_already opts.signal ≡ none
      → All (λ c. c ≢ []) chunks
      → Accepts write_all flush chunks w
      → (flush (after write_all flush chunks w)).0 ≡ none
      → ((copied opts rx done_rx chunks).0 ≡ resolves)
        × (to_async_writer write_all flush (copied opts rx done_rx chunks).1.moved w ≡ record {
          writer = (flush (after write_all flush chunks w)).1;
          done_tx = flushed;
          err_slot = none;
        })
  unfolding pipe_to from_receiver from_lazy_receiver get_reader fill
  copied_lem opts rx done_rx chunks w h k l m =
      let t = turns_from (file chunks) in
      let p = pipe_to_channel opts t [] none rx none done_rx none h in
      (
        p.1 ∙ ap (λ ts. settled (stop ts)) (read_file chunks k) ∙ ap settled (stop-turns_of chunks),
        ap (λ c. to_async_writer write_all flush c w)
              (p.0 ∙ ap payload (read_file chunks k) ∙ payload-turns_of chunks)
            ∙ all_written write_all flush chunks w l m,
      )
