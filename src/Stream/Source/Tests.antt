-- ===== src/Stream/Source/Tests.antt =====
-- A registry that has just begun, and one that is full of finished tasks.
use rong.Base.{ℕ, ◌*◌, ◌≤◌, ◌≡◌, refl, Bool, true, List, [], ◌∷◌, replicate, length}
use rong.Stream.Source.{
  AsyncReaderTaskRegistry, default, track, looked_at_all, looked_at_all-le, is_due,
}

abbrev finished : ℕ → Bool
finished t = true

abbrev full : AsyncReaderTaskRegistry
full = record { handles = replicate 64 1; sweep_at = 0 }

abbrev burst : List ((ℕ → Bool) × ℕ)
burst = replicate 70 (finished, 1)

full_swept : track finished 2 full ≡ record { handles = 2 ∷ []; sweep_at = 0 }
unfolding track is_due
full_swept = refl

looked_at_all-le_example : looked_at_all burst default ≤ 2 * length burst
looked_at_all-le_example = looked_at_all-le burst
