-- ===== src/Stream.antt =====
-- modules/rong_stream/src. What a channel answers (a chunk, an error, its end) is an input of the
-- model; the children are the parts of the crate.
pub mod Slots
pub mod Readable
pub mod Channel
pub mod Tee
pub mod Controller
pub mod Writable
pub mod Pump
pub mod Pipe
pub mod Source
pub mod Copy
use rong.Base.{ℕ, List}

-- `Bytes`.
abbrev pub Bytes : Type 0
Bytes = List ℕ

-- `Result<A, E>`.
pub data Result {ℓ} (A : Type ℓ) (E : Type 0) : Type ℓ where
  ok : A → Result A E
  err : E → Result A E
