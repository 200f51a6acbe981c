-- ===== src/Stream/Readable/Released.antt =====
-- A reader that is released, and iteration over a stream that has not started.
use rong.Base.{◌≡◌, refl, false, Option, none, some, nat_eq}
use rong.Stream.{ok}
use rong.Stream.Readable.{
  ReadableStream, ReadableStreamDefaultReader, fill_slot, fill, get_reader, return_to, release_lock,
  reader_of,
}

module _ {ℓ} {R : Type ℓ} where
  released :
      (a b : Option R) (r : ReadableStreamDefaultReader R)
      → reader_of (fill_slot a b).rx_slot ≡ ok r
      → (get_reader (return_to r.rx r.canceled (record (fill_slot a b) { rx_slot = none }))
          ≡ (reader_of (fill_slot a b).rx_slot, record (fill_slot a b) { rx_slot = none }))
        × (return_to r.rx r.canceled (record (fill_slot a b) { rx_slot = none }) ≡ fill_slot a b)
  unfolding get_reader fill
  released none none r h = absurd (cc)
  released none (some rx) r h =
      let k : r ≡ record { rx = some rx; canceled = false } = cc in rw k (refl, refl)
  released (some rx) b r h =
      let k : r ≡ record { rx = some rx; canceled = false } = cc in rw k (refl, refl)

  -- When `getReader` succeeds, releasing that reader leaves the stream so that the next
  -- `getReader` succeeds with the same receiver, and leaves the reader without one; a stream that
  -- had a receiver in its slot is as it was before.
  pub release_lock-get_reader :
      (s : ReadableStream R) (r : ReadableStreamDefaultReader R)
      → (get_reader s).0 ≡ ok r
      → (get_reader (release_lock r (get_reader s).1).1 ≡ get_reader s)
        × ((release_lock r (get_reader s).1).0.rx ≡ none)
        × ((release_lock r (get_reader s).1).1 ≡ fill s)
  unfolding get_reader release_lock fill
  release_lock-get_reader s r h = let k = released s.rx_slot s.initializer r h in (k.0, refl, k.1)
