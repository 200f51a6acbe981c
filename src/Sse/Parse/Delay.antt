-- ===== src/Sse/Parse/Delay.antt =====
-- What a stream can do to the connection: it sends events only, and keeps the delay in its range.
use rong.Base.{
  ℕ, zero, suc, ◌≤◌, ◌≡◌, refl, sym, ◌∙◌, inl, inr, Option, none, some, List, [], ◌∷◌, ◌++◌, map,
  arith, length, All, All-append, append-nil, append_assoc, Bool-cases, Option-cases, Bool,
}
use mathlib.Core.List.{map-append}
use rong.Text.{Text, is_empty, starts_with}
use rong.Text.Utf8.{from_utf8_lossy}
use rong.Sse.{SseDestination, SseEvent, Item, event}
use rong.Sse.Parse.{
  Session, split_line, send, taken, finished_event, flush_data, flush_pending_event, process_line,
  delay_after, parse_lines, parse_available_events, feed, origin_of, pop_cr,
}

abbrev pub IsPaced : ℕ → Session → Type 0
IsPaced most s = (1 ≤ s.reconnect_delay_ms) × (s.reconnect_delay_ms ≤ most)

module _ (listening : List Item → Bool) (max_delay_ms : ℕ) (destination : SseDestination) where
  -- The event names the connection and a delay that may be waited.
  abbrev pub IsTagged : SseEvent → Type 0
  IsTagged e =
      (e.origin ≡ origin_of destination)
      × ((r : ℕ) × (e.retry_ms ≡ some r) × (1 ≤ r) × (r ≤ max_delay_ms))

  pub record Progress (s s' : Session) : Type 0 where
    pub new : List SseEvent
    pub sent : s'.sent ≡ s.sent ++ map event new
    pub tagged : All IsTagged new
    pub paced : IsPaced max_delay_ms s'

  Progress-none : (s s' : Session) → s'.sent ≡ s.sent → IsPaced max_delay_ms s' → Progress s s'
  Progress-none s s' e p = record {
    new = [];
    sent = e ∙ sym (append-nil s.sent);
    tagged = tt;
    paced = p;
  }

  Progress-trans : (s t u : Session) → Progress s t → Progress t u → Progress s u
  Progress-trans s t u p q = record {
    new = p.new ++ q.new;
    sent = simp (q.sent, p.sent, map-append, append_assoc);
    tagged = All-append IsTagged p.new q.new p.tagged q.tagged;
    paced = q.paced;
  }

  delay_after-range :
      (retry : Option ℕ) (delay : ℕ)
      → 1 ≤ max_delay_ms
      → 1 ≤ delay
      → delay ≤ max_delay_ms
      → (1 ≤ delay_after max_delay_ms retry delay)
        × (delay_after max_delay_ms retry delay ≤ max_delay_ms)
  delay_after-range none delay m h k = (h, k)
  delay_after-range (some r) delay m h k = ground arith

  taken-IsPaced :
      (s : Session)
      → 1 ≤ max_delay_ms
      → IsPaced max_delay_ms s
      → IsPaced max_delay_ms (taken max_delay_ms s)
  unfolding taken
  taken-IsPaced s m h = delay_after-range s.pending.retry_ms s.reconnect_delay_ms m h.0 h.1

  finished_event-IsTagged :
      (s : Session)
      → 1 ≤ max_delay_ms
      → IsPaced max_delay_ms s
      → IsTagged (finished_event max_delay_ms destination s)
  unfolding finished_event
  finished_event-IsTagged s m h =
      let (low, high) = delay_after-range s.pending.retry_ms s.reconnect_delay_ms m h.0 h.1 in
      (refl, (_, refl, low, high))

  send-Progress :
      (e : SseEvent) (s : Session)
      → IsTagged e
      → IsPaced max_delay_ms s
      → Progress s (send listening (event e) s).0
  unfolding send
  send-Progress e s t h = elim (Bool-cases (listening s.sent)) [
    | inl on ↦ rw on (record { new = e ∷ []; sent = refl; tagged = (t, tt); paced = h })
    | inr off ↦ rw off (Progress-none s s refl h)
  ]

  flush_data-Progress :
      (lines : List Text) (s : Session)
      → 1 ≤ max_delay_ms
      → IsPaced max_delay_ms s
      → Progress s (flush_data listening max_delay_ms destination lines s).0
  unfolding flush_data
  flush_data-Progress [] s m h = Progress-none s _ (unfold taken in refl) (taken-IsPaced s m h)
  flush_data-Progress (d ∷ ds) s m h =
      Progress-trans s (taken max_delay_ms s) _
        (Progress-none s _ (unfold taken in refl) (taken-IsPaced s m h))
        (send-Progress _ _ (finished_event-IsTagged s m h) (taken-IsPaced s m h))

  pub flush-Progress :
      (s : Session)
      → 1 ≤ max_delay_ms
      → IsPaced max_delay_ms s
      → Progress s (flush_pending_event listening max_delay_ms destination s).0
  unfolding flush_pending_event
  flush-Progress s m h = flush_data-Progress s.pending.data_lines s m h

  process_line-Progress :
      (raw : List ℕ) (s : Session)
      → 1 ≤ max_delay_ms
      → IsPaced max_delay_ms s
      → Progress s (process_line listening max_delay_ms destination raw s).0
  unfolding process_line
  process_line-Progress raw s m h =
      let line = from_utf8_lossy (pop_cr raw) in
      elim (Bool-cases (is_empty line)) [
        | inl e ↦ rw e (flush-Progress s m h)
        | inr e ↦ rw e (elim (Bool-cases (starts_with b':' line)) [
          | inl c ↦ rw c (Progress-none s s refl h)
          | inr c ↦ rw c (Progress-none s _ refl h)
        ])
      ]

  parse_lines-Progress :
      (fuel : ℕ) (s : Session)
      → 1 ≤ max_delay_ms
      → IsPaced max_delay_ms s
      → Progress s (parse_lines listening max_delay_ms destination fuel s).0
  unfolding parse_lines
  parse_lines-Progress zero s m h = Progress-none s s refl h
  parse_lines-Progress (suc fuel) s m h = elim (Option-cases (split_line s.line_buf)) [
    | inl e ↦ rw (e, parse_lines) (Progress-none s s refl h)
    | inr ((raw, rest), e) ↦
        let t : Session = record s { line_buf = rest } in
        let r = process_line listening max_delay_ms destination raw t in
        let first = process_line-Progress raw t m h in
        let read : Progress s r.0 = record {
          new = first.new;
          sent = first.sent;
          tagged = first.tagged;
          paced = first.paced;
        } in
        elim (Option-cases r.1) [
          | inl on ↦
              rw (e, parse_lines)
                (rw on (Progress-trans s r.0 _ read (parse_lines-Progress fuel r.0 m first.paced)))
          | inr (x, off) ↦ rw (e, parse_lines) (rw off read)
        ]
  ]

  pub parse_available_events-Progress :
      (s : Session)
      → 1 ≤ max_delay_ms
      → IsPaced max_delay_ms s
      → Progress s (parse_available_events listening max_delay_ms destination s).0
  unfolding parse_available_events
  parse_available_events-Progress s m h = parse_lines-Progress (length s.line_buf) s m h

  -- Whatever bytes arrive, only events go to the consumer, each with the origin of the connection
  -- and with a delay from 1 to the greatest; and the delay that the session keeps is in that range,
  -- if it was before and the greatest delay is at least 1.
  pub feed-Progress :
      (chunk : List ℕ) (s : Session)
      → 1 ≤ max_delay_ms
      → IsPaced max_delay_ms s
      → Progress s (feed listening max_delay_ms destination chunk s).0
  unfolding feed
  feed-Progress chunk s m h =
      let p = parse_available_events-Progress (record s { line_buf = s.line_buf ++ chunk }) m h in
      record { new = p.new; sent = p.sent; tagged = p.tagged; paced = p.paced }
