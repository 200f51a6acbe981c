-- ===== src/Blob/Tests.antt =====
-- A blob of five bytes, and a type with a tilde.
use rong.Base.{◌≡◌, refl, false, none, some, [], ◌∷◌, codes}
use rong.Text.{Text, is_empty}
use rong.Text.Encode.{as_bytes}
use rong.Blob.{negsuc, Blob, native_string, clamp, slice}
use rong.Blob.Slice.{range, select, slice-select}

abbrev hello : Blob
hello = record { mime_type = codes "text/plain"; data_ = codes "hello" }

-- From the third byte from the end up to the last one.
sliced :
    slice range (some (negsuc 2)) (some (negsuc 0)) none hello
    ≡ record { mime_type = codes "text/plain"; data_ = codes "ll" }
unfolding slice clamp
sliced = refl

slice-select_example :
    (slice range (some (negsuc 2)) (some (negsuc 0)) none hello).data_
    ≡ select 5 (negsuc 2) (negsuc 0) 0 (codes "hello")
slice-select_example =
    slice-select range (some (negsuc 2)) (some (negsuc 0)) none hello (λ a b bytes h k. refl)

mixed_endings :
    native_string (10 ∷ []) false (97 ∷ 13 ∷ 10 ∷ 98 ∷ 13 ∷ 99 ∷ 10 ∷ [])
    ≡ 97 ∷ 10 ∷ 98 ∷ 10 ∷ 99 ∷ 10 ∷ []
unfolding native_string rong.Text.Encode.encode_char
mixed_endings = refl
