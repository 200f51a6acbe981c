-- ===== src/Sse/Parse.antt =====
-- `parse_available_events` and `flush_pending_event`: the bytes of a stream become events.
pub mod Scan
pub mod Delay
pub mod RoundTrip
mod Tests
use rong.Base.{
  ℕ, zero, suc, ◌≡◌, Bool, true, false, not, ◌&&◌, Option, none, some, List, [], ◌∷◌, ◌++◌, codes,
  ltb, if◌then◌else◌, ◌==◌, nat_eq, list_eq, length, contains,
}
use rong.Text.{Text, is_empty, starts_with, strip_prefix, split_once, join}
use rong.Text.Utf8.{from_utf8_lossy}
use rong.Text.Number.{parse_u64}
use rong.Sse.{as_str, SseDestination, SseEvent, PendingEvent, Item, event}

-- The variables of one connection: the buffer, the event being gathered, the two that outlive the
-- connection, and the items that the channel has taken.
pub record Session : Type 0 where
  pub line_buf : List ℕ
  pub pending : PendingEvent
  pub last_event_id : Option Text
  pub reconnect_delay_ms : ℕ
  pub sent : List Item

-- `u64::clamp`; the program calls it with `lo ≤ hi`.
abbrev pub clamp : ℕ → ℕ → ℕ → ℕ
clamp x lo hi = if ltb x lo then lo else if ltb hi x then hi else x

-- What stands before the first newline, and what behind it.
unfoldable pub split_line : List ℕ → Option (List ℕ × List ℕ)
split_line = split_once 10

-- The line without a carriage return at its end.
unfoldable pub pop_cr : List ℕ → List ℕ
pop_cr [] = []
pop_cr (b ∷ []) = if b == 13 then [] else b ∷ []
pop_cr (b ∷ c ∷ bs) = b ∷ pop_cr (c ∷ bs)

-- The field's name and value; a line with no colon is all name.
abbrev pub field_of : Text → Option (Text × Text) → Text × Text
field_of line none = (line, [])
field_of line (some (f, v)) = (f, strip_prefix b' ' v)

abbrev pub set_retry : Option ℕ → PendingEvent → PendingEvent
set_retry none p = p
set_retry (some v) p = record p { retry_ms = some v }

-- `match field { … }`.
unfoldable pub add_field : Text → Text → PendingEvent → PendingEvent
add_field field value p =
    if field == codes "event"
    then record p { event = some value }
    else if field == codes "data"
    then record p { data_lines = p.data_lines ++ value ∷ [] }
    else if (field == codes "id") && not (contains 0 value)
    then record p { id = some value }
    else if field == codes "retry"
    then set_retry (parse_u64 value) p
    else p

abbrev pub or_message : Option Text → Text
or_message none = codes "message"
or_message (some e) = e

unfoldable pub origin_of : SseDestination → Text
origin_of d = as_str d.scheme ++ codes "://" ++ d.target

abbrev pub id_after : Option Text → Option Text → Option Text
id_after none last = last
id_after (some i) last = some i

abbrev pub delay_after : ℕ → Option ℕ → ℕ → ℕ
delay_after max_delay_ms none delay = delay
delay_after max_delay_ms (some r) delay = clamp r 1 max_delay_ms

-- The event that a blank line completes.
unfoldable pub finished_event : ℕ → SseDestination → Session → SseEvent
finished_event max_delay_ms destination s = record {
  event = or_message s.pending.event;
  body = join (10 ∷ []) s.pending.data_lines;
  id = id_after s.pending.id s.last_event_id;
  retry_ms = some (delay_after max_delay_ms s.pending.retry_ms s.reconnect_delay_ms);
  origin = origin_of destination;
}

-- The session when the pending fields have been taken.
unfoldable pub taken : ℕ → Session → Session
taken max_delay_ms s = record s {
  pending = record { event = none; data_lines = []; id = none; retry_ms = none };
  last_event_id = id_after s.pending.id s.last_event_id;
  reconnect_delay_ms = delay_after max_delay_ms s.pending.retry_ms s.reconnect_delay_ms;
}

-- `tx.send(…)`: the session after it, and the error of a dropped receiver. `listening` tells
-- whether the consumer still holds the receiver when it has been sent the given items.
unfoldable pub send : (List Item → Bool) → Item → Session → Session × Option Text
send listening item s =
    if listening s.sent
    then (record s { sent = s.sent ++ item ∷ [] }, none)
    else (s, some (codes "sse consumer dropped"))

module _ (listening : List Item → Bool) (max_delay_ms : ℕ) (destination : SseDestination) where
  -- With no data line there is no event to send.
  unfoldable pub flush_data : List Text → Session → Session × Option Text
  flush_data [] s = (taken max_delay_ms s, none)
  flush_data (d ∷ ds) s =
      send listening (event (finished_event max_delay_ms destination s)) (taken max_delay_ms s)

  unfoldable pub flush_pending_event : Session → Session × Option Text
  unfolding flush_data taken send
  flush_pending_event s = flush_data s.pending.data_lines s

  unfoldable pub process_text : Text → Session → Session × Option Text
  process_text line s =
      let (field, value) = field_of line (split_once b':' line) in
      if is_empty line
      then flush_pending_event s
      else if starts_with b':' line
      then (s, none)
      else (record s { pending = add_field field value s.pending }, none)

  -- One line of the stream, without its newline.
  unfoldable pub process_line : List ℕ → Session → Session × Option Text
  unfolding process_text
  process_line raw s = process_text (from_utf8_lossy (pop_cr raw)) s

  -- `while let Some(pos) = …`, on fuel.
  unfoldable pub parse_lines : ℕ → Session → Session × Option Text
  parse_lines zero s = (s, none)
  parse_lines (suc fuel) s = elim (split_line s.line_buf) [
    | none ↦ (s, none)
    | some (raw, rest) ↦
        let (s', failed) = process_line raw (record s { line_buf = rest }) in
        let more = parse_lines fuel s' in elim failed [ some e ↦ (s', some e) | none ↦ more ]
  ]

  -- A round takes a newline out of the buffer, so that its length is fuel enough.
  unfoldable pub parse_available_events : Session → Session × Option Text
  unfolding parse_lines
  parse_available_events s = parse_lines (length s.line_buf) s

  -- `Some(Ok(chunk))`: the worker appends the chunk and parses.
  unfoldable pub feed : List ℕ → Session → Session × Option Text
  feed chunk s = parse_available_events (record s { line_buf = s.line_buf ++ chunk })
