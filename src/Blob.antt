-- ===== src/Blob.antt =====
-- modules/rong_buffer/src: blobs and files. The range of a shared buffer is a parameter.
pub mod Slice
pub mod Parts
pub mod Tests
use rong.Base.{
  ℕ, suc, ◌-◌, min, Bool, true, false, not, ◌&&◌, Option, none, some, List, [], ◌∷◌, ◌++◌, leb, ltb,
  length, any, if◌then◌else◌, ◌==◌, nat_eq, list_eq, codes,
}
use rong.Text.{Text, to_ascii_lowercase, is_empty}
use rong.Text.Encode.{encode_char, as_bytes}

abbrev pub Bytes : Type 0
Bytes = List ℕ

-- `i64`; its bounds do not matter below, since lengths are far smaller.
pub data ℤ : Type 0 where
  pos negsuc : ℕ → ℤ

pub data EndingType : Type 0 where
  transparent native : EndingType

pub record BlobOptions : Type 0 where
  pub type_ : Text
  pub endings : EndingType

pub record Blob : Type 0 where
  pub mime_type : Text
  pub data_ : Bytes

-- One item of the constructor's array, as the engine tells them apart.
pub data Part : Type 0 where
  typed_array array_buffer : Bytes → Part
  detached_array unsupported : Part
  blob_part : Blob → Part
  string_part : Text → Part

-- `LINE_ENDING` is CR LF on Windows and LF elsewhere. `after_cr`: a CR came just before, whose
-- LF is skipped.
unfoldable pub native_string : Bytes → Bool → Text → Bytes
native_string line_ending after_cr [] = []
native_string line_ending after_cr (c ∷ s) =
    let rest = native_string line_ending false s in
    let rest_cr = native_string line_ending true s in
    if after_cr && c == 10
    then rest
    else if c == 13
    then line_ending ++ rest_cr
    else if c == 10
    then line_ending ++ rest
    else encode_char c ++ rest

abbrev string_bytes : Bytes → EndingType → Text → Bytes
string_bytes line_ending native s = native_string line_ending false s
string_bytes line_ending transparent s = as_bytes s

-- The bytes of one item, unless it is refused.
unfoldable pub part_bytes : Bytes → EndingType → Part → Option Bytes
unfolding native_string
part_bytes line_ending endings (typed_array bytes) = some bytes
part_bytes line_ending endings (array_buffer bytes) = some bytes
part_bytes line_ending endings detached_array = some []
part_bytes line_ending endings (blob_part b) = some b.data_
part_bytes line_ending endings (string_part s) = some (string_bytes line_ending endings s)
part_bytes line_ending endings unsupported = none

abbrev then_bytes : Option Bytes → Option Bytes → Option Bytes
then_bytes none rest = none
then_bytes (some a) none = none
then_bytes (some a) (some b) = some (a ++ b)

unfoldable pub process_blob_part : Bytes → EndingType → List Part → Option Bytes
process_blob_part line_ending endings [] = some []
process_blob_part line_ending endings (part ∷ parts) =
    then_bytes (part_bytes line_ending endings part) (process_blob_part line_ending endings parts)

-- `(' '..'~').contains(&c)`.
unfoldable pub in_range : ℕ → Bool
in_range c = leb 0x20 c && ltb c 0x7e

unfoldable pub normalize_type : Text → Text
unfolding in_range
normalize_type mime_type =
    if any (λ c. not (in_range c)) mime_type then [] else to_ascii_lowercase mime_type

unfoldable pub ending_type : Text → EndingType
ending_type s =
    if s == codes "native"
    then native
    else if s == codes "transparent"
    then transparent
    else transparent

abbrev option_type : Option Text → Text
option_type none = []
option_type (some t) = normalize_type t

abbrev option_endings : Option Text → EndingType
option_endings none = transparent
option_endings (some s) = ending_type s

abbrev parts_or_none : Bytes → EndingType → Option (List Part) → Option Bytes
parts_or_none line_ending endings none = some []
parts_or_none line_ending endings (some parts) = process_blob_part line_ending endings parts

abbrev blob_of : Text → Option Bytes → Option Blob
blob_of mime none = none
blob_of mime (some bytes) = some (record { mime_type = mime; data_ = bytes })

-- The constructor; `none` when it throws a TypeError.
unfoldable pub new : Bytes → Option (List Part) → Option Text → Option Text → Option Blob
unfolding ending_type normalize_type
new line_ending parts mime endings =
    blob_of (option_type mime) (parts_or_none line_ending (option_endings endings) parts)

unfoldable pub size : Blob → ℕ
size b = length b.data_

-- An index from the end when it is negative, kept within the data.
unfoldable pub clamp : ℕ → ℤ → ℕ
clamp len (pos n) = min n len
clamp len (negsuc n) = len - suc n

abbrev unwrap_or {ℓ} : {A : Type ℓ} → A → Option A → A
unwrap_or a none = a
unwrap_or a (some b) = b

module _ (slice_bytes : ℕ → ℕ → Bytes → Bytes) where
  unfoldable pub slice : Option ℤ → Option ℤ → Option Text → Blob → Blob
  unfolding clamp
  slice start end_ content_type b =
      let len = length b.data_ in
      let from = clamp len (unwrap_or (pos 0) start) in
      let to = clamp len (unwrap_or (pos len) end_) in
      if ltb to from then record { mime_type = unwrap_or [] content_type; data_ = [] } else record {
        mime_type = unwrap_or b.mime_type content_type;
        data_ = slice_bytes from to b.data_;
      }

-- A file's name and time; times are milliseconds.
pub record File : Type 0 where
  pub blob : Blob
  pub filename : Text
  pub last_modified : ℤ

abbrev file_of : Text → ℤ → Option Blob → Option File
file_of filename time none = none
file_of filename time (some b) =
    some (record { blob = b; filename = filename; last_modified = time })

-- `File::new`, at the time `now`; `time` is the option `lastModified`.
unfoldable pub new_file :
    Bytes → ℤ → List Part → Text → Option ℤ → Option Text → Option Text → Option File
new_file line_ending now bytes filename time mime endings =
    if is_empty filename
    then none
    else file_of filename (unwrap_or now time) (new line_ending (some bytes) mime endings)

unfoldable pub from_parts : ℤ → Text → Bytes → Text → Option ℤ → Option File
from_parts now mime bytes filename time =
    if is_empty filename
    then none
    else some (record {
      blob = record { mime_type = mime; data_ = bytes };
      filename = filename;
      last_modified = unwrap_or now time;
    })
