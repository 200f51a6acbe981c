-- ===== src/Sse/Parse/RoundTrip.antt =====
-- What a server writes for an event is read back as that event.
pub mod Encode
use rong.Base.{
  ℕ, ◌<◌, ◌≡◌, ◌≢◌, refl, ap, sym, ◌∙◌, Bool, true, false, Option, none, some, List, [], ◌∷◌, ◌++◌,
  arith, codes, All, All-append, append_assoc, append-nil, nat_beq_iff, nat_eq, ◌==◌, if◌then◌else◌,
  contains,
}
use rong.Text.{Text, is_empty, starts_with, strip_prefix, split_once, join}
use rong.Text.Utf8.{from_utf8_lossy, from_utf8_lossy_ascii, IsAscii}
use rong.Sse.{SseDestination, SseEvent, PendingEvent, no_pending, Item, event}
use rong.Sse.Parse.{
  Session, send, taken, finished_event, flush_data, flush_pending_event, process_text, process_line,
  feed, pop_cr, add_field, field_of, or_message, id_after, origin_of, set_retry,
}
use rong.Sse.Parse.Scan.{NoNewline, scan, feed-scan, scan-line, scan-nil}
use Encode.{
  IsValue, IsValue-facts, NoColon, split_once-colon, field_line, field_line-IsValue, Wire, optional,
  data_lines, or_empty, encode, IsOptional, gather, with_lines, NoNul, gathered,
}

module _ (listening : List Item → Bool) (max_delay_ms : ℕ) (destination : SseDestination) where
  process_line-field :
      (c : ℕ) (f v : Text) (s : Session)
      → NoColon (c ∷ f)
      → IsValue (c ∷ f)
      → IsValue v
      → process_line listening max_delay_ms destination (field_line (c ∷ f) v) s
        ≡ (record s { pending = add_field (c ∷ f) v s.pending }, none)
  unfolding process_line is_empty starts_with strip_prefix
  process_line-field c f v s h i k =
      let line = field_line (c ∷ f) v in
      let (ascii, _, same) = IsValue-facts line (field_line-IsValue (c ∷ f) v i k) in
      let text : from_utf8_lossy (pop_cr line) ≡ line =
        ap from_utf8_lossy same ∙ from_utf8_lossy_ascii line ascii in
      rw text (ground (arith, split_once-colon (c ∷ f) (b' ' ∷ v) h, nat_beq_iff c b':'))

  -- Reading one line that is a field.
  scan-field :
      (c : ℕ) (f v rest : Text) (s : Session)
      → NoColon (c ∷ f)
      → IsValue (c ∷ f)
      → IsValue v
      → scan listening max_delay_ms destination [] ((field_line (c ∷ f) v ++ 10 ∷ []) ++ rest) s
        ≡ scan listening max_delay_ms destination [] rest
            (record s { pending = add_field (c ∷ f) v s.pending })
  scan-field c f v rest s h i k =
      ap (λ bs. scan listening max_delay_ms destination [] bs s)
        (append_assoc (field_line (c ∷ f) v) (10 ∷ []) rest)
      ∙ scan-line listening max_delay_ms destination [] (field_line (c ∷ f) v) rest s _
          (IsValue-facts (field_line (c ∷ f) v) (field_line-IsValue (c ∷ f) v i k)).1
          (process_line-field c f v s h i k)

  scan-optional :
      (c : ℕ) (f : Text) (o : Option Text) (rest : Text) (s : Session)
      → NoColon (c ∷ f)
      → IsValue (c ∷ f)
      → IsOptional o
      → scan listening max_delay_ms destination [] (optional (c ∷ f) o ++ rest) s
        ≡ scan listening max_delay_ms destination [] rest
            (record s { pending = gather (c ∷ f) o s.pending })
  scan-optional c f none rest s h i k = refl
  scan-optional c f (some v) rest s h i k = scan-field c f v rest s h i k

  scan-data :
      (vs : List Text) (rest : Text) (s : Session)
      → All IsValue vs
      → scan listening max_delay_ms destination [] (data_lines vs ++ rest) s
        ≡ scan listening max_delay_ms destination [] rest
            (with_lines s (s.pending.data_lines ++ vs))
  unfolding add_field
  scan-data [] rest s h =
      ap (λ ls. scan listening max_delay_ms destination [] rest (with_lines s ls))
        (sym (append-nil s.pending.data_lines))
  scan-data (v ∷ vs) rest s h =
      ap (λ bs. scan listening max_delay_ms destination [] bs s)
        (append_assoc (field_line (codes "data") v ++ 10 ∷ []) (data_lines vs) rest)
      ∙ scan-field b'd' (codes "ata") v (data_lines vs ++ rest) s (omega arith) (omega arith) h.0
      ∙ scan-data vs rest (with_lines s (s.pending.data_lines ++ v ∷ [])) h.1
      ∙ ap (λ ls. scan listening max_delay_ms destination [] rest (with_lines s ls))
          (append_assoc s.pending.data_lines (v ∷ []) vs)

  process_line-blank :
      (s : Session)
      → process_line listening max_delay_ms destination [] s
        ≡ flush_data listening max_delay_ms destination s.pending.data_lines s
  unfolding process_line pop_cr from_utf8_lossy is_empty flush_pending_event
  process_line-blank s = refl

  -- A blank line, with the event's data gathered.
  scan-blank :
      (s : Session) (first : Text) (others : List Text)
      → s.pending.data_lines ≡ first ∷ others
      → listening s.sent ≡ true
      → scan listening max_delay_ms destination [] (10 ∷ []) s ≡ (
        record (taken max_delay_ms s) {
          line_buf = [];
          sent = s.sent ++ event (finished_event max_delay_ms destination s) ∷ [];
        },
        none,
      )
  unfolding flush_data send taken
  scan-blank s first others e on =
      scan-line listening max_delay_ms destination [] [] [] s
        (record (taken max_delay_ms s) {
          sent = s.sent ++ event (finished_event max_delay_ms destination s) ∷ [];
        })
        tt
        (process_line-blank s
          ∙ ap (λ ls. flush_data listening max_delay_ms destination ls s) e
          ∙ rw on)
      ∙ scan-nil listening max_delay_ms destination [] _

  -- A session that waits for the first byte of an event.
  abbrev pub fresh : Session → Session
  fresh s = record s { line_buf = []; pending = no_pending }

  -- A server's event whose name, id and data lines are ASCII without line ends, the id also without
  -- a zero byte, read by a session that has nothing pending while the consumer listens, is sent
  -- once: with its name or "message", its data lines joined, its own id or the last one, which it
  -- replaces, and the current delay. Nothing stays pending.
  pub feed-encode :
      (w : Wire) (s : Session)
      → IsOptional w.name
      → IsOptional w.id
      → NoNul (or_empty w.id)
      → All IsValue (w.first ∷ w.others)
      → listening s.sent ≡ true
      → feed listening max_delay_ms destination (encode w) (fresh s) ≡ (
        record (fresh s) {
          last_event_id = id_after w.id s.last_event_id;
          sent =
              s.sent
              ++ event (record {
                event = or_message w.name;
                body = join (10 ∷ []) (w.first ∷ w.others);
                id = id_after w.id s.last_event_id;
                retry_ms = some s.reconnect_delay_ms;
                origin = origin_of destination;
              })
                ∷ [];
        },
        none,
      )
  unfolding taken finished_event
  feed-encode w s hn hi hz hd on =
      let p = gather (codes "event") w.name no_pending in
      let q : PendingEvent = record no_pending { event = w.name; id = w.id } in
      let lines = data_lines (w.first ∷ w.others) in
      feed-scan listening max_delay_ms destination (encode w) (fresh s) tt
      ∙ scan-optional b'e' (codes "vent") w.name _ (fresh s) (omega arith) (omega arith) hn
      ∙ scan-optional b'i' (codes "d") w.id _ (record (fresh s) { pending = p }) (omega arith)
          (omega arith) hi
      ∙ ap
          (λ r.
            scan listening max_delay_ms destination [] (lines ++ 10 ∷ [])
              (record (fresh s) { pending = r }))
          (gathered w.name w.id hz)
      ∙ scan-data (w.first ∷ w.others) (10 ∷ []) (record (fresh s) { pending = q }) hd
      ∙ scan-blank (record (fresh s) { pending = record q { data_lines = w.first ∷ w.others } })
          w.first w.others refl on
