-- ===== src/Stream/Readable.antt =====
-- modules/rong_stream/src/readable.rs: a readable stream, its readers, and the calls of both that
-- wait for the channel. A receiver is a value that is moved; a call that awaits `recv` is two
-- steps, between which other calls run.
pub mod Calls
pub mod Owner
pub mod Locked
pub mod Cancelled
pub mod Released
pub mod Tests
use rong.Base.{
  ℕ, ◌+◌, Bool, true, false, not, ◌&&◌, Option, none, some, List, [], ◌∷◌, ◌++◌, if◌then◌else◌,
  length,
}
use rong.Text.{Text}
use rong.Stream.{Bytes, Result, ok, err}
use rong.Stream.Slots.{held, nth, set_nth, remove_nth, total}

-- `Result<Bytes, String>`.
abbrev pub StreamChunk : Type 0
StreamChunk = Result Bytes Text

pub record ReadableStream {ℓ} (R : Type ℓ) : Type ℓ where
  pub rx_slot : Option R
  -- The receiver that the closure makes.
  pub initializer : Option R

-- A reader also has its stream's slot, which is the one stream of the system below.
pub record ReadableStreamDefaultReader {ℓ} (R : Type ℓ) : Type ℓ where
  pub rx : Option R
  pub canceled : Bool

pub data StreamError : Type 0 where
  locked : StreamError

-- What a read settles to: a chunk, the end, or a thrown stream error.
pub data ReadAnswer : Type 0 where
  value : Bytes → ReadAnswer
  done : ReadAnswer
  throws : Text → ReadAnswer

unfoldable pub is_none {ℓ} : {A : Type ℓ} → Option A → Bool
is_none none = true
is_none (some a) = false

module _ {ℓ} {R : Type ℓ} where
  unfoldable pub from_receiver : R → ReadableStream R
  from_receiver rx = record { rx_slot = some rx; initializer = none }

  unfoldable pub from_lazy_receiver : R → ReadableStream R
  from_lazy_receiver rx = record { rx_slot = none; initializer = some rx }

  -- An empty slot is filled by the initializer, which is gone then.
  abbrev pub fill_slot : Option R → Option R → ReadableStream R
  fill_slot none init = record { rx_slot = init; initializer = none }
  fill_slot (some rx) init = record { rx_slot = some rx; initializer = init }

  unfoldable pub fill : ReadableStream R → ReadableStream R
  fill s = fill_slot s.rx_slot s.initializer

  abbrev pub reader_of : Option R → Result (ReadableStreamDefaultReader R) StreamError
  reader_of none = err locked
  reader_of (some rx) = ok (record { rx = some rx; canceled = false })

  unfoldable pub get_reader :
      ReadableStream R → Result (ReadableStreamDefaultReader R) StreamError × ReadableStream R
  unfolding fill
  get_reader s = (reader_of (fill s).rx_slot, record (fill s) { rx_slot = none })

  unfoldable pub cancel_stream : ReadableStream R → ReadableStream R
  cancel_stream s = record { rx_slot = none; initializer = none }

  unfoldable pub readable_stream_take_receiver : ReadableStream R → Option R × ReadableStream R
  unfolding fill
  readable_stream_take_receiver s = ((fill s).rx_slot, record (fill s) { rx_slot = none })

  unfoldable pub readable_stream_is_locked : ReadableStream R → Bool
  unfolding is_none
  readable_stream_is_locked s = if not (is_none s.rx_slot) then false else is_none s.initializer

  -- A receiver goes back to a slot that is empty.
  abbrev pub put_back : Option R → R → Option R
  put_back none rx = some rx
  put_back (some other) rx = some other

  abbrev pub return_to : Option R → Bool → ReadableStream R → ReadableStream R
  return_to none canceled s = s
  return_to (some rx) canceled s =
      if canceled then s else record s { rx_slot = put_back s.rx_slot rx }

  unfoldable pub release_lock :
      ReadableStreamDefaultReader R
      → ReadableStream R
      → ReadableStreamDefaultReader R × ReadableStream R
  release_lock r s = (record r { rx = none }, return_to r.rx r.canceled s)

  unfoldable pub cancel : ReadableStreamDefaultReader R → ReadableStreamDefaultReader R
  cancel r = record { rx = none; canceled = true }

  unfoldable pub take_channel :
      ReadableStreamDefaultReader R → Option R × ReadableStreamDefaultReader R
  take_channel r = (r.rx, record r { rx = none })

  -- After `recv`: the receiver is put back unless the reader was cancelled meanwhile.
  unfoldable pub restore : R → ReadableStreamDefaultReader R → ReadableStreamDefaultReader R
  restore rx r = record r { rx = if r.canceled then none else some rx }

abbrev pub received : Option StreamChunk → ReadAnswer
received (some (ok bytes)) = value bytes
received (some (err e)) = throws e
received none = done

unfoldable pub read_answer : Bool → Option StreamChunk → ReadAnswer
read_answer canceled item = if canceled then done else received item

-- `next` keeps the receiver only when a chunk came.
abbrev pub next_returns {ℓ} : {R : Type ℓ} → Option StreamChunk → R → Option R → Option R
next_returns (some (ok bytes)) rx slot = put_back slot rx
next_returns (some (err e)) rx slot = slot
next_returns none rx slot = slot
