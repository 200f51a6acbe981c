-- ===== src/Stream/Writable/Task.antt =====
-- modules/rong_stream/src/writable.rs, `to_async_writer`: the task that writes the chunks of the
-- channel to an asynchronous writer. The writer is a parameter.
use rong.Base.{◌≡◌, refl, Option, none, some, List, [], ◌∷◌, ◌++◌}
use rong.Text.{Text}
use rong.Stream.{Bytes}
use rong.Stream.Controller.{Chunk}
use rong.Stream.Writable.{
  Done, flushed, failed, WritableStreamDefaultWriter, stream_error, fails, write,
}

-- `write_all` and `flush` of the writer, whose state is a `W`, and what they fail with.
module _ {ℓ} {W : Type ℓ} (write_all : Bytes → W → Option Text × W)
    (flush : W → Option Text × W) where
  abbrev unless_failed : Option Text → W → Option Text × W → Option Text × W
  unless_failed none w rest = rest
  unless_failed (some e) w rest = (some e, w)

  unfoldable pub write_chunks : List Bytes → W → Option Text × W
  write_chunks [] w = (none, w)
  write_chunks (chunk ∷ chunks) w =
      let rest = write_chunks chunks (write_all chunk w).1 in
      unless_failed (write_all chunk w).0 (write_all chunk w).1 rest

  -- An error of the writing comes before one of the flush.
  abbrev pub first_error : Option Text → Option Text → Option Text
  first_error none e = e
  first_error (some e) f = some e

  abbrev pub done_of : Option Text → Done
  done_of none = flushed
  done_of (some e) = failed e

  pub record Task : Type ℓ where
    pub writer : W
    pub done_tx : Done
    pub err_slot : Option Text

  -- The task when the senders of the channel are gone, after `chunks`.
  unfoldable pub to_async_writer : List Bytes → W → Task
  unfolding write_chunks
  to_async_writer chunks w =
      let wrote = write_chunks chunks w in
      let error = first_error wrote.0 (flush wrote.1).0 in
      record { writer = (flush wrote.1).1; done_tx = done_of error; err_slot = error }

  -- The writer after each of the chunks in turn.
  abbrev pub after : List Bytes → W → W
  after [] w = w
  after (chunk ∷ chunks) w = after chunks (write_all chunk w).1

  -- None of the chunks fails in its turn.
  abbrev pub Accepts : List Bytes → W → Type 0
  Accepts [] w = Unit
  Accepts (chunk ∷ chunks) w = ((write_all chunk w).0 ≡ none) × Accepts chunks (write_all chunk w).1

  write_chunks_lem :
      (chunks rest : List Bytes) (w : W)
      → Accepts chunks w
      → write_chunks (chunks ++ rest) w ≡ write_chunks rest (after chunks w)
  unfolding write_chunks
  write_chunks_lem [] rest w h = refl
  write_chunks_lem (chunk ∷ chunks) rest w h =
      rw h.0 (write_chunks_lem chunks rest (write_all chunk w).1 h.1)

  write_chunks_all :
      (chunks : List Bytes) (w : W)
      → Accepts chunks w
      → write_chunks chunks w ≡ (none, after chunks w)
  unfolding write_chunks
  write_chunks_all [] w h = refl
  write_chunks_all (chunk ∷ chunks) w h = rw h.0 (write_chunks_all chunks (write_all chunk w).1 h.1)

  -- When no write and not the flush fails, every chunk that was sent has been written, in order,
  -- and flushed when the task ends, and the task reports success and no error.
  pub all_written :
      (chunks : List Bytes) (w : W)
      → Accepts chunks w
      → (flush (after chunks w)).0 ≡ none
      → to_async_writer chunks w
        ≡ record { writer = (flush (after chunks w)).1; done_tx = flushed; err_slot = none }
  unfolding to_async_writer
  all_written chunks w h k = rw (write_chunks_all chunks w h, k) refl

  failing :
      (chunk : Bytes) (rest : List Bytes) (w : W) (e : Text)
      → (write_all chunk w).0 ≡ some e
      → write_chunks (chunk ∷ rest) w ≡ (some e, (write_all chunk w).1)
  unfolding write_chunks
  failing chunk rest w e h = rw h refl

  -- When the chunks before `chunk` are written and `chunk` fails with `e`, the task writes none of
  -- the chunks after it, flushes, and reports `e`, also when the flush fails; and every later
  -- `write` on the stream, whose error slot it fills, fails with `e`.
  pub first_failure :
      (chunks rest : List Bytes) (chunk : Bytes) (w : W) (e : Text) (throws : Option Text)
      (value : Chunk) (writer : WritableStreamDefaultWriter)
      → Accepts chunks w
      → (write_all chunk (after chunks w)).0 ≡ some e
      → (to_async_writer (chunks ++ chunk ∷ rest) w ≡ record {
        writer = (flush (write_all chunk (after chunks w)).1).1;
        done_tx = failed e;
        err_slot = some e;
      })
        × ((write (to_async_writer (chunks ++ chunk ∷ rest) w).err_slot throws value writer).0
            ≡ fails (stream_error e))
  unfolding to_async_writer write
  first_failure chunks rest chunk w e throws value writer h k =
      let f = write_chunks_lem chunks (chunk ∷ rest) w h in
      let g = failing chunk rest (after chunks w) e k in rw (f, g) (refl, refl)
