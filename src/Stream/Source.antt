-- ===== src/Stream/Source.antt =====
-- modules/rong_stream/src/readable.rs: the task that reads an asynchronous reader into a stream,
-- and the registry of these tasks.
pub mod Tests
use rong.Base.{
  ℕ, zero, suc, ◌+◌, ◌*◌, ◌≤◌, max, ◌≡◌, ◌∙◌, sym, ap, refl, inl, inr, Bool, true, false, not,
  Option, none, some, List, [], ◌∷◌, ◌++◌, append-nil, length, length-append, retain,
  length-retain-le, retain-append, leb, arith, if◌then◌else◌, Bool-cases,
}
use rong.Text.{Text}
use rong.Stream.{Bytes, Result, ok, err}
use rong.Stream.Readable.{StreamChunk}
use rong.Stream.Channel.{Sender, send, upto, upto-nil, upto-send, upto-last}

-- What `read_buf` gives: bytes, none of them at the end, or an error.
pub data ReadBuf : Type 0 where
  bytes_read : Bytes → ReadBuf
  read_failed : Text → ReadBuf

abbrev go_on : Bool × Sender StreamChunk → Sender StreamChunk → Sender StreamChunk
go_on (true, tx) rest = rest
go_on (false, tx) rest = tx

unfoldable pub read_task : List ReadBuf → Sender StreamChunk → Sender StreamChunk
read_task [] tx = tx
read_task (bytes_read [] ∷ reads) tx = tx
read_task (bytes_read (b ∷ bs) ∷ reads) tx =
    let rest = read_task reads (send (ok (b ∷ bs)) tx).1 in go_on (send (ok (b ∷ bs)) tx) rest
read_task (read_failed e ∷ reads) tx = (send (err e) tx).1

-- The contents of the reader: what is read before its end, and its error.
unfoldable pub contents : List ReadBuf → List StreamChunk
contents [] = []
contents (bytes_read [] ∷ reads) = []
contents (bytes_read (b ∷ bs) ∷ reads) = ok (b ∷ bs) ∷ contents reads
contents (read_failed e ∷ reads) = err e ∷ []

pub read_task_sent :
    (reads : List ReadBuf) (room : Option ℕ) (sent : List StreamChunk)
    → (read_task reads (record { room = room; sent = sent })).sent
      ≡ sent ++ upto room (contents reads)
unfolding read_task contents send
read_task_sent [] room sent = rw (upto-nil room) (sym (append-nil sent))
read_task_sent (bytes_read [] ∷ reads) room sent = rw (upto-nil room) (sym (append-nil sent))
read_task_sent (bytes_read (b ∷ bs) ∷ reads) none sent =
    read_task_sent reads none (sent ++ ok (b ∷ bs) ∷ [])
    ∙ upto-send none (ok (b ∷ bs)) sent (contents reads)
read_task_sent (bytes_read (b ∷ bs) ∷ reads) (some zero) sent = sym (append-nil sent)
read_task_sent (bytes_read (b ∷ bs) ∷ reads) (some (suc n)) sent =
    read_task_sent reads (some n) (sent ++ ok (b ∷ bs) ∷ [])
    ∙ upto-send (some (suc n)) (ok (b ∷ bs)) sent (contents reads)
read_task_sent (read_failed e ∷ reads) room sent = upto-last room (err e) sent

-- The registry: tasks by their numbers.
pub record AsyncReaderTaskRegistry : Type 0 where
  pub handles : List ℕ
  pub sweep_at : ℕ

unfoldable pub default : AsyncReaderTaskRegistry
default = record { handles = []; sweep_at = 0 }

unfoldable pub is_due : AsyncReaderTaskRegistry → Bool
is_due r = leb (max r.sweep_at 64) (length r.handles)

abbrev running : (ℕ → Bool) → List ℕ → List ℕ
running is_finished = retain (λ t. not (is_finished t))

abbrev sweep : (ℕ → Bool) → AsyncReaderTaskRegistry → AsyncReaderTaskRegistry
sweep is_finished r = record {
  handles = running is_finished r.handles;
  sweep_at = length (running is_finished r.handles) * 2;
}

abbrev push : ℕ → AsyncReaderTaskRegistry → AsyncReaderTaskRegistry
push handle r = record r { handles = r.handles ++ handle ∷ [] }

unfoldable pub track : (ℕ → Bool) → ℕ → AsyncReaderTaskRegistry → AsyncReaderTaskRegistry
track is_finished handle r = push handle (if is_due r then sweep is_finished r else r)

-- How many tasks this `track` looks at.
unfoldable pub looked_at : AsyncReaderTaskRegistry → ℕ
looked_at r = if is_due r then length r.handles else 0

-- Every tracked task with what has finished when it is tracked.
unfoldable pub track_all : List ((ℕ → Bool) × ℕ) → AsyncReaderTaskRegistry → AsyncReaderTaskRegistry
track_all [] r = r
track_all ((is_finished, handle) ∷ hs) r = track_all hs (track is_finished handle r)

unfoldable pub looked_at_all : List ((ℕ → Bool) × ℕ) → AsyncReaderTaskRegistry → ℕ
looked_at_all [] r = 0
looked_at_all ((is_finished, handle) ∷ hs) r =
    looked_at r + looked_at_all hs (track is_finished handle r)

-- The tasks that are aborted, and the registry after it.
unfoldable pub on_shutdown : AsyncReaderTaskRegistry → List ℕ × AsyncReaderTaskRegistry
on_shutdown r = (r.handles, record r { handles = [] })

is_due_le : (r : AsyncReaderTaskRegistry) → is_due r ≡ true → r.sweep_at ≤ length r.handles
unfolding is_due
is_due_le r h = ground arith

not_due_lt :
    (r : AsyncReaderTaskRegistry) → is_due r ≡ false → suc (length r.handles) ≤ max r.sweep_at 64
unfolding is_due
not_due_lt r h = ground arith

-- One `track` pays for what it looks at out of the tasks tracked since the last sweep.
track-paid :
    (is_finished : ℕ → Bool) (handle : ℕ) (r : AsyncReaderTaskRegistry)
    → r.sweep_at ≤ 2 * length r.handles
    → ((track is_finished handle r).sweep_at ≤ 2 * length (track is_finished handle r).handles)
      × (looked_at r + 2 * length (track is_finished handle r).handles + r.sweep_at
          ≤ 2 * length r.handles + 2 + (track is_finished handle r).sweep_at)
unfolding track looked_at
track-paid is_finished handle r h = elim (Bool-cases (is_due r)) [
  | inl e ↦ rw e (
    omega (arith, length-append (running is_finished r.handles) (handle ∷ [])),
    omega (arith, length-append (running is_finished r.handles) (handle ∷ []), is_due_le r e),
  )
  | inr e ↦ rw e (
    omega (arith, length-append r.handles (handle ∷ [])),
    omega (arith, length-append r.handles (handle ∷ [])),
  )
]

looked_at_paid :
    (hs : List ((ℕ → Bool) × ℕ)) (r : AsyncReaderTaskRegistry)
    → r.sweep_at ≤ 2 * length r.handles
    → looked_at_all hs r + r.sweep_at ≤ 2 * length r.handles + 2 * length hs
unfolding looked_at_all
looked_at_paid [] r h = omega arith
looked_at_paid ((is_finished, handle) ∷ hs) r h =
    let p = track-paid is_finished handle r h in
    omega (arith, p.1, looked_at_paid hs (track is_finished handle r) p.0)

-- However many tasks are tracked, and whichever of them finish meanwhile, all sweeps together look
-- at no more than two tasks for each one tracked.
pub looked_at_all-le : (hs : List ((ℕ → Bool) × ℕ)) → looked_at_all hs default ≤ 2 * length hs
unfolding default
looked_at_all-le hs = omega (arith, looked_at_paid hs default (omega arith))

track-le :
    (is_finished : ℕ → Bool) (handle : ℕ) (r : AsyncReaderTaskRegistry)
    → length r.handles ≤ max r.sweep_at 64
    → length (track is_finished handle r).handles ≤ max (track is_finished handle r).sweep_at 64
unfolding track
track-le is_finished handle r h = elim (Bool-cases (is_due r)) [
  | inl e ↦ rw e (ground (arith, length-append (running is_finished r.handles) (handle ∷ [])))
  | inr e ↦ rw e (omega (arith, length-append r.handles (handle ∷ []), not_due_lt r e))
]

retain_twice : (p : ℕ → Bool) (xs : List ℕ) → retain p (retain p xs) ≡ retain p xs
retain_twice p [] = refl
retain_twice p (x ∷ xs) = elim (Bool-cases (p x)) [
  | inl e ↦ simp (e, retain_twice p xs)
  | inr e ↦ simp (e, retain_twice p xs)
]

-- Tracking a task adds it behind the others, and a sweep on that occasion removes finished tasks
-- alone: the tasks that are running are the ones before and the new one, in order. And when the
-- list was not longer than the sweep mark and 64, it is not so afterwards.
pub running-track :
    (is_finished : ℕ → Bool) (handle : ℕ) (r : AsyncReaderTaskRegistry)
    → length r.handles ≤ max r.sweep_at 64
    → (running is_finished (track is_finished handle r).handles
        ≡ running is_finished (r.handles ++ handle ∷ []))
      × (length (track is_finished handle r).handles ≤ max (track is_finished handle r).sweep_at 64)
unfolding track
running-track is_finished handle r h = (
  elim (Bool-cases (is_due r)) [
    | inl e ↦ rw e (
        let p : ℕ → Bool = λ t. not (is_finished t) in
        retain-append p (retain p r.handles) (handle ∷ [])
        ∙ ap (λ l. l ++ retain p (handle ∷ [])) (retain_twice p r.handles)
        ∙ sym (retain-append p r.handles (handle ∷ [])))
    | inr e ↦ rw e refl
  ],
  track-le is_finished handle r h,
)
