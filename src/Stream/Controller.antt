-- ===== src/Stream/Controller.antt =====
-- modules/rong_stream/src/readable.rs: the constructor's task and the controller, which an
-- underlying source holds. The channel between them is unbounded.
pub mod Tests
use rong.Base.{
  ℕ, zero, suc, ◌≡◌, ◌∙◌, sym, ap, refl, Bool, true, false, Option, none, some, List, [], ◌∷◌, ◌++◌,
  append-nil, append_assoc, if◌then◌else◌, codes,
}
use rong.Text.{Text}
use rong.Stream.{Bytes, Result, ok, err}
use rong.Stream.Readable.{StreamChunk}
use rong.Stream.Channel.{Sender, send_in, send, fresh, upto, upto-nil, upto-send}

-- A value of the engine, as `enqueue` and `write` tell them apart.
pub data Chunk : Type 0 where
  typed_array array_buffer : Bytes → Chunk
  detached_array other_object primitive : Chunk

pub data EnqueueError : Type 0 where
  invalid_arg closed : EnqueueError

unfoldable pub bytes_of : Chunk → Result Bytes EnqueueError
bytes_of (typed_array bytes) = ok bytes
bytes_of (array_buffer bytes) = ok bytes
bytes_of detached_array = err invalid_arg
bytes_of other_object = err invalid_arg
bytes_of primitive = err invalid_arg

-- The sender, with the items that wait for the constructor's task.
pub record ReadableStreamDefaultController : Type 0 where
  pub tx : Bool
  pub sent : List StreamChunk

pub data Answer : Type 0 where
  returned : Answer
  threw : EnqueueError → Answer

-- `listening`: the constructor's task has not ended.
abbrev pub send_bytes :
    Bool → Bytes → ReadableStreamDefaultController → Answer × ReadableStreamDefaultController
send_bytes listening bytes c =
    if listening then (returned, record c { sent = c.sent ++ ok bytes ∷ [] }) else (threw closed, c)

abbrev pub enqueue_bytes :
    Bool
    → Result Bytes EnqueueError
    → ReadableStreamDefaultController
    → Answer × ReadableStreamDefaultController
enqueue_bytes listening (err e) c = (threw e, c)
enqueue_bytes listening (ok bytes) c =
    if c.tx then send_bytes listening bytes c else (threw closed, c)

unfoldable pub enqueue :
    Bool → Chunk → ReadableStreamDefaultController → Answer × ReadableStreamDefaultController
enqueue listening chunk = enqueue_bytes listening (bytes_of chunk)

unfoldable pub close : ReadableStreamDefaultController → Answer × ReadableStreamDefaultController
close c = (returned, record c { tx = false })

abbrev pub default_error : Text
default_error = codes "ReadableStream error"

abbrev pub message : Option Text → Text
message none = default_error
message (some reason) = reason

unfoldable pub error :
    Bool → Option Text → ReadableStreamDefaultController → Answer × ReadableStreamDefaultController
error listening reason c = (
  returned,
  record {
    tx = false;
    sent =
        if c.tx
        then (if listening then c.sent ++ err (message reason) ∷ [] else c.sent)
        else c.sent;
  },
)

pub data Use : Type 0 where
  enqueues : Chunk → Use
  closes : Use
  errors : Option Text → Use

unfoldable pub use_of :
    Use → ReadableStreamDefaultController → Answer × ReadableStreamDefaultController
use_of (enqueues chunk) c = enqueue true chunk c
use_of closes c = close c
use_of (errors reason) c = error true reason c

-- The answers, in order, and the items sent, while the task listens.
unfoldable pub run :
    List Use → ReadableStreamDefaultController → List Answer × ReadableStreamDefaultController
run [] c = ([], c)
run (u ∷ us) c = let now = use_of u c in let rest = run us now.1 in (now.0 ∷ rest.0, rest.1)

-- The constructor's task: it moves items on until the stream's receiver is dropped.
abbrev pub forward_after : Bool × Sender StreamChunk → Sender StreamChunk → Sender StreamChunk
forward_after (true, t) rest = rest
forward_after (false, t) rest = t

unfoldable pub forward : List StreamChunk → Sender StreamChunk → Sender StreamChunk
unfolding send
forward [] t = t
forward (item ∷ items) t =
    let rest = forward items (send item t).1 in forward_after (send item t) rest

abbrev accepted : Result Bytes EnqueueError → List StreamChunk → List StreamChunk
accepted (ok bytes) rest = ok bytes ∷ rest
accepted (err e) rest = rest

-- What the stream is to deliver: the valid chunks before the first `close` or `error`, and the
-- message of that `error`.
unfoldable pub promised : List Use → List StreamChunk
promised [] = []
promised (enqueues chunk ∷ us) = accepted (bytes_of chunk) (promised us)
promised (closes ∷ us) = []
promised (errors reason ∷ us) = err (message reason) ∷ []

unfoldable pub opened : ReadableStreamDefaultController
opened = record { tx = true; sent = [] }

abbrev refused : Result Bytes EnqueueError → Answer
refused (ok bytes) = threw closed
refused (err e) = threw e

-- What the calls on an ended stream answer.
unfoldable pub late : List Use → List Answer
late [] = []
late (enqueues chunk ∷ us) = refused (bytes_of chunk) ∷ late us
late (closes ∷ us) = returned ∷ late us
late (errors reason ∷ us) = returned ∷ late us

-- What ends a stream.
abbrev pub Ends : Use → Type 0
Ends (enqueues chunk) = false ≡ true
Ends closes = Unit
Ends (errors reason) = Unit

ended_run :
    (us : List Use) (sent : List StreamChunk)
    → run us (record { tx = false; sent = sent }) ≡ (late us, record { tx = false; sent = sent })
unfolding run late use_of enqueue close error bytes_of
ended_run [] sent = refl
ended_run (enqueues (typed_array bytes) ∷ us) sent = simp (ended_run us sent)
ended_run (enqueues (array_buffer bytes) ∷ us) sent = simp (ended_run us sent)
ended_run (enqueues detached_array ∷ us) sent = simp (ended_run us sent)
ended_run (enqueues other_object ∷ us) sent = simp (ended_run us sent)
ended_run (enqueues primitive ∷ us) sent = simp (ended_run us sent)
ended_run (closes ∷ us) sent = simp (ended_run us sent)
ended_run (errors reason ∷ us) sent = simp (ended_run us sent)

-- After `close` or `error`, whatever the state before, the stream is sent nothing more: every
-- later `enqueue` throws, that the stream is closed when the chunk is valid, and later calls of
-- `close` and `error` return and change nothing.
pub run-late :
    (u : Use) (us : List Use) (c : ReadableStreamDefaultController)
    → Ends u
    → run us (use_of u c).1 ≡ (late us, (use_of u c).1)
unfolding use_of close error
run-late (enqueues chunk) us c h = absurd (cc)
run-late closes us c h = ended_run us c.sent
run-late (errors reason) us c h = ended_run us (error true reason c).1.sent

run_sent :
    (us : List Use) (sent : List StreamChunk)
    → (run us (record { tx = true; sent = sent })).1.sent ≡ sent ++ promised us
unfolding run use_of enqueue close error bytes_of promised
run_sent [] sent = sym (append-nil sent)
run_sent (enqueues (typed_array bytes) ∷ us) sent =
    run_sent us (sent ++ ok bytes ∷ []) ∙ append_assoc sent (ok bytes ∷ []) (promised us)
run_sent (enqueues (array_buffer bytes) ∷ us) sent =
    run_sent us (sent ++ ok bytes ∷ []) ∙ append_assoc sent (ok bytes ∷ []) (promised us)
run_sent (enqueues detached_array ∷ us) sent = run_sent us sent
run_sent (enqueues other_object ∷ us) sent = run_sent us sent
run_sent (enqueues primitive ∷ us) sent = run_sent us sent
run_sent (closes ∷ us) sent = ap (λ r. r.1.sent) (ended_run us sent) ∙ sym (append-nil sent)
run_sent (errors reason ∷ us) sent =
    ap (λ r. r.1.sent) (ended_run us (sent ++ err (message reason) ∷ []))

forward_sent :
    (items : List StreamChunk) (room : Option ℕ) (sent : List StreamChunk)
    → (forward items (record { room = room; sent = sent })).sent ≡ sent ++ upto room items
unfolding forward send
forward_sent [] room sent = rw (upto-nil room) (sym (append-nil sent))
forward_sent (item ∷ items) none sent =
    forward_sent items none (sent ++ item ∷ []) ∙ upto-send none item sent items
forward_sent (item ∷ items) (some zero) sent = sym (append-nil sent)
forward_sent (item ∷ items) (some (suc n)) sent =
    forward_sent items (some n) (sent ++ item ∷ []) ∙ upto-send (some (suc n)) item sent items

-- Of what an underlying source does with its controller, the stream's channel gets the valid
-- chunks before the first `close` or `error`, in order, and the message of that `error`, up to
-- the dropping of the stream's receiver.
pub forward-run :
    (us : List Use) (room : Option ℕ)
    → (forward (run us opened).1.sent (fresh room)).sent ≡ upto room (promised us)
unfolding opened fresh
forward-run us room = forward_sent (run us opened).1.sent room [] ∙ ap (upto room) (run_sent us [])
