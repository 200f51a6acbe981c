-- ===== src/Download.antt =====
-- rong_rt/src/download.rs: a download into a file beside its destination, which replaces the
-- destination in the end. What the server answers and which calls of the file system and of the
-- sink fail are inputs; the url crate is a parameter.
pub mod Range
pub mod Follow
pub mod Body
pub mod Keeps
pub mod Success
pub mod Tests
use rong.Base.{
  ℕ, ◌+◌, ◌-◌, ◌^◌, Bool, true, false, not, ◌&&◌, ◌||◌, Option, none, some, List, [], ◌∷◌, ◌++◌,
  length, if◌then◌else◌, ◌==◌, nat_eq, ltb, leb, codes,
}
use rong.Text.{Text, trim, is_empty}
use Range.{ContentRange, bytes_range, unsatisfied, parse_content_range}

abbrev pub Bytes : Type 0
Bytes = List ℕ

pub data DownloadError : Type 0 where
  create_dir open_file reopen too_many_redirects no_location bad_location bad_redirect :
      DownloadError
  bad_scheme unexpected_partial missing_range invalid_range range_overflow : DownloadError
  ends_early no_length wrong_start not_bytes rename stale_discarded : DownloadError
  unexpected_status http_status : ℕ → DownloadError
  request_failed body_failed : Text → DownloadError
  length_overflow too_long write_chunk wrong_length flush_file : DownloadError

pub data Result (A : Type 0) : Type 0 where
  ok : A → Result A
  err : DownloadError → Result A

-- A header of a response; its value may not be text.
pub data Field : Type 0 where
  missing not_text : Field
  text : Text → Field

-- A piece of a body, with what the sink's `write` returns for it, and how much of it the file takes
-- when writing it fails.
pub record Piece : Type 0 where
  pub bytes : Bytes
  pub sink_error : Option Text
  pub write_fault : Option Bytes

pub data BodyItem : Type 0 where
  piece : Piece → BodyItem
  broken : Text → BodyItem

pub data HttpBody : Type 0 where
  empty : HttpBody
  small : Piece → HttpBody
  stream : List BodyItem → HttpBody

pub record Response : Type 0 where
  pub status : ℕ
  pub content_range_field : Field
  pub location : Field
  pub body : HttpBody

-- One round of the loop: the request is not made or fails, or there is a response.
pub data Hop : Type 0 where
  refused : Text → Hop
  responded : Response → Hop

-- Which calls of the file system fail.
pub record Faults : Type 0 where
  pub on_create_dir : Bool
  pub on_open : Bool
  pub on_reopen : Bool
  pub on_flush : Bool
  pub on_rename : Bool

pub data SinkEvent : Type 0 where
  wrote : Bytes → SinkEvent
  closed : Result (Unit {0}) → SinkEvent
  closed_failed : Text → SinkEvent

-- The `.part` file, the destination, and the sink with what was called of it. `with_extension`
-- leaves a path that ends in `.part` as it is: then both files are one, and `is_same` is true.
pub record Disk : Type 0 where
  pub is_same : Bool
  pub part : Option Bytes
  pub dest : Option Bytes
  pub has_sink : Bool
  pub events : List SinkEvent

abbrev pub Ended : Type 0
Ended = Result (Unit {0}) × Disk

-- What is done to the file at `temp_path` is done to the destination if that is the same file.
abbrev pub set_part : Option Bytes → Disk → Disk
set_part content d = record d { part = content; dest = if d.is_same then content else d.dest }

unfoldable pub finalize_sink : Disk → Result (Unit {0}) → Ended
finalize_sink d res =
    if d.has_sink
    then (res, record d { has_sink = false; events = d.events ++ closed res ∷ [] })
    else (res, d)

unfoldable pub is_success : ℕ → Bool
is_success status = leb 200 status && ltb status 300

unfoldable pub is_download_redirect : ℕ → Bool
is_download_redirect status =
    status == 301 || status == 302 || status == 303 || status == 307 || status == 308

abbrev pub or_invalid : Option ContentRange → Result ContentRange
or_invalid none = err invalid_range
or_invalid (some r) = ok r

unfoldable pub content_range : Field → Result ContentRange
content_range missing = err missing_range
content_range not_text = err invalid_range
content_range (text value) = or_invalid (parse_content_range value)

abbrev pub max_download_redirects : ℕ
max_download_redirects = 10

abbrev pub file_length : Option Bytes → ℕ
file_length none = 0
file_length (some bytes) = length bytes

unfoldable pub resume_offset : Bool → Option Bytes → ℕ
resume_offset resume part = if resume then file_length part else 0

-- `File::create`.
abbrev pub truncate : Disk → Disk
truncate d = set_part (some []) d

abbrev pub appended : Option Bytes → Bytes → Option Bytes
appended none bytes = some bytes
appended (some old) bytes = some (old ++ bytes)

-- `forward`: a sink that fails is closed with its error, and is gone.
abbrev forward_with : Option Text → Bytes → Disk → Disk
forward_with none bytes d = record d { events = d.events ++ wrote bytes ∷ [] }
forward_with (some e) bytes d = record d {
  has_sink = false;
  events = d.events ++ wrote bytes ∷ closed_failed e ∷ [];
}

unfoldable pub forward : Piece → Disk → Disk
forward p d = if d.has_sink then forward_with p.sink_error p.bytes d else d

-- Whether `received` bytes are more than the content range announced.
abbrev pub exceeds : Option ℕ → ℕ → Bool
exceeds none received = false
exceeds (some expected) received = ltb expected received

unfoldable pub check_partial_body_len : Option ℕ → ℕ → Option DownloadError
check_partial_body_len expected received =
    if leb (2 ^ 64) received
    then some length_overflow
    else if exceeds expected received
    then some too_long
    else none

abbrev write_all : Option Bytes → Bytes → Disk → Result (Unit {0}) × Disk
write_all none bytes d = (ok tt, set_part (appended d.part bytes) d)
write_all (some torn) bytes d = (err write_chunk, set_part (appended d.part torn) d)

abbrev pub take_piece : Option DownloadError → Piece → Disk → Result (Unit {0}) × Disk
take_piece (some e) p d = (err e, d)
take_piece none p d = write_all p.write_fault p.bytes (forward p d)

abbrev pub go_on : Result (Unit {0}) × Disk → Result ℕ × Disk → Result ℕ × Disk
go_on (ok u, d) rest = rest
go_on (err e, d) rest = (err e, d)

-- The body's items, and how many bytes came.
unfoldable pub write_items : Option ℕ → List BodyItem → ℕ → Disk → Result ℕ × Disk
write_items expected [] received d = (ok received, d)
write_items expected (broken e ∷ items) received d = (err (body_failed e), d)
write_items expected (piece p ∷ items) received d =
    let total = received + length p.bytes in
    let now = take_piece (check_partial_body_len expected total) p d in
    let rest = write_items expected items total now.1 in go_on now rest

-- A small body is handled as the only piece of a stream is.
abbrev pub items_of : HttpBody → List BodyItem
items_of empty = []
items_of (small p) = piece p ∷ []
items_of (stream items) = items

-- A file that is renamed to its own name stays.
abbrev pub renamed : Disk → Disk
renamed d = record d { part = if d.is_same then d.part else none; dest = d.part }

abbrev pub finish_rename : Bool → Disk → Ended
finish_rename fails d =
    if fails then finalize_sink d (err rename) else finalize_sink (renamed d) (ok tt)

abbrev pub differs : Option ℕ → ℕ → Bool
differs none received = false
differs (some expected) received = not (received == expected)

abbrev pub finish_body : Faults → Option ℕ → Result ℕ × Disk → Ended
finish_body faults expected (err e, d) = finalize_sink d (err e)
finish_body faults expected (ok received, d) =
    if differs expected received
    then finalize_sink d (err wrong_length)
    else if faults.on_flush
    then finalize_sink d (err flush_file)
    else finish_rename faults.on_rename d

-- From the status on: `expected` is the length that a content range announced.
unfoldable pub receive : Faults → Option ℕ → Response → Disk → Ended
receive faults expected resp d =
    if is_success resp.status
    then finish_body faults expected (write_items expected (items_of resp.body) 0 d)
    else finalize_sink d (err (http_status resp.status))

abbrev pub with_length : Faults → ℕ → ℕ → Option ℕ → Response → Disk → Ended
with_length faults start end_ none resp d = finalize_sink d (err no_length)
with_length faults start end_ (some total) resp d =
    if end_ + 1 == total
    then receive faults (some (end_ - start + 1)) resp d
    else finalize_sink d (err ends_early)

abbrev pub with_range : Faults → ℕ → Result ContentRange → Response → Disk → Ended
with_range faults offset (err e) resp d = finalize_sink d (err e)
with_range faults offset (ok (unsatisfied total)) resp d = finalize_sink d (err not_bytes)
with_range faults offset (ok (bytes_range start end_ total)) resp d =
    if start == offset
    then (if leb (2 ^ 64) (end_ + 1)
        then finalize_sink d (err range_overflow)
        else with_length faults start end_ total resp d)
    else finalize_sink d (err wrong_start)

abbrev pub is_complete : ℕ → Result ContentRange → Bool
is_complete offset (ok (unsatisfied (some total))) = total == offset
is_complete offset (ok (unsatisfied none)) = false
is_complete offset (ok (bytes_range start end_ total)) = false
is_complete offset (err e) = false

-- The answer to a request for a range.
abbrev pub receive_resumed : Faults → ℕ → Response → Disk → Ended
receive_resumed faults offset resp d =
    if resp.status == 200
    then (if faults.on_reopen
        then finalize_sink d (err reopen)
        else receive faults none resp (truncate d))
    else if resp.status == 206
    then with_range faults offset (content_range resp.content_range_field) resp d
    else if resp.status == 416
    then (if is_complete offset (content_range resp.content_range_field)
        then finish_rename faults.on_rename d
        else finalize_sink (set_part none d) (err stale_discarded))
    else if is_success resp.status
    then finalize_sink d (err (unexpected_status resp.status))
    else finalize_sink d (err (http_status resp.status))

unfoldable pub respond : Faults → ℕ → Response → Disk → Ended
unfolding receive
respond faults offset resp d =
    if offset == 0
    then (if resp.status == 206
        then finalize_sink d (err unexpected_partial)
        else receive faults none resp d)
    else receive_resumed faults offset resp d
