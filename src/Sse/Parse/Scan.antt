-- ===== src/Sse/Parse/Scan.antt =====
-- Chunks: the parser against a reader that takes one byte after the other.
use rong.Base.{
  ℕ, zero, suc, ◌≤◌, ◌≡◌, ◌≢◌, refl, ap, sym, ◌∙◌, inl, inr, Bool, Option, none, some, List, [],
  ◌∷◌, ◌++◌, arith, if◌then◌else◌, ◌==◌, nat_eq, nat_beq_iff, length, length-append, All,
  All-append, append-nil, append_assoc, Bool-cases,
}
use rong.Text.{Text, split_once}
use rong.Sse.{SseDestination, Item}
use rong.Sse.Parse.{
  Session, split_line, finished_event, flush_pending_event, process_line, parse_lines,
  parse_available_events, feed,
}

abbrev pub NoNewline : List ℕ → Type 0
NoNewline = All λ b. b ≢ 10

pub split_line-line :
    (raw rest : List ℕ) → NoNewline raw → split_line (raw ++ 10 ∷ rest) ≡ some (raw, rest)
unfolding split_line split_once
split_line-line [] rest h = refl
split_line-line (b ∷ raw) rest h = ground (arith, nat_beq_iff b 10, split_line-line raw rest h.1)

pub split_line-partial : (raw : List ℕ) → NoNewline raw → split_line raw ≡ none
unfolding split_line split_once
split_line-partial [] h = refl
split_line-partial (b ∷ raw) h = ground (arith, nat_beq_iff b 10, split_line-partial raw h.1)

module _ (listening : List Item → Bool) (max_delay_ms : ℕ) (destination : SseDestination) where
  abbrev with_buf : List ℕ → Session × Option Text → Session × Option Text
  with_buf buf r = (record r.0 { line_buf = buf }, r.1)

  flush-with_buf :
      (buf : List ℕ) (s : Session)
      → flush_pending_event listening max_delay_ms destination (record s { line_buf = buf })
        ≡ with_buf buf (flush_pending_event listening max_delay_ms destination s)
  unfolding flush_pending_event finished_event
  flush-with_buf buf s = ground arith

  -- A line is processed the same whatever waits behind it.
  pub process_line-with_buf :
      (raw buf : List ℕ) (s : Session)
      → process_line listening max_delay_ms destination raw (record s { line_buf = buf })
        ≡ with_buf buf (process_line listening max_delay_ms destination raw s)
  unfolding process_line
  process_line-with_buf raw buf s = ground (arith, flush-with_buf buf s)

  -- The reader: `acc` is the line so far.
  pub scan : List ℕ → List ℕ → Session → Session × Option Text
  scan acc [] s = (record s { line_buf = acc }, none)
  scan acc (b ∷ bs) s =
      let (s', failed) = process_line listening max_delay_ms destination acc s in
      let after = scan [] bs s' in
      let longer = scan (acc ++ b ∷ []) bs s in
      if b == 10
      then (elim failed [ some e ↦ (record s' { line_buf = bs }, some e) | none ↦ after ])
      else longer

  scan-with_buf :
      (acc bs buf : List ℕ) (s : Session)
      → scan acc bs (record s { line_buf = buf }) ≡ scan acc bs s
  unfolding scan
  scan-with_buf acc [] buf s = refl
  scan-with_buf acc (b ∷ bs) buf s =
      let r = process_line listening max_delay_ms destination acc s in
      ground (
        arith,
        process_line-with_buf acc buf s,
        scan-with_buf [] bs buf r.0,
        scan-with_buf (acc ++ b ∷ []) bs buf s,
      )

  parse_lines-scan :
      (fuel : ℕ) (acc bs : List ℕ) (s : Session)
      → NoNewline acc
      → length (acc ++ bs) ≤ fuel
      → parse_lines listening max_delay_ms destination fuel (record s { line_buf = acc ++ bs })
        ≡ scan acc bs s
  unfolding parse_lines scan
  parse_lines-scan zero [] [] s h k = refl
  parse_lines-scan zero (a ∷ acc) [] s h k = absurd (omega arith)
  parse_lines-scan zero acc (b ∷ bs) s h k = absurd (omega (arith, length-append acc (b ∷ bs)))
  parse_lines-scan (suc fuel) acc [] s h k =
      rw (append-nil acc) (rw (split_line-partial acc h, parse_lines))
  parse_lines-scan (suc fuel) acc (b ∷ bs) s h k = elim (Bool-cases (b == 10)) [
    | inl e ↦
        let r = process_line listening max_delay_ms destination acc s in
        let newline : b ≡ 10 = (nat_beq_iff b 10).0 e in
        let fewer : length bs ≤ fuel = omega (arith, length-append acc (b ∷ bs)) in
        ground (
          arith,
          e,
          newline,
          split_line-line acc bs h,
          process_line-with_buf acc bs s,
          parse_lines-scan fuel [] bs r.0 tt fewer,
        )
    | inr e ↦
        let longer =
          parse_lines-scan (suc fuel) (acc ++ b ∷ []) bs s
            (All-append (λ b. b ≢ 10) acc (b ∷ []) h (ground (arith, nat_beq_iff b 10), tt))
            (rw (append_assoc acc (b ∷ []) bs) k) in
        rw (← append_assoc acc (b ∷ []) bs) (rw (e, scan) longer)
  ]

  -- The bytes `ys` arrive after an outcome; a failure leaves them in the buffer.
  abbrev resume : List ℕ → Session × Option Text → Session × Option Text
  resume ys (s, none) = scan s.line_buf ys s
  resume ys (s, some e) = (record s { line_buf = s.line_buf ++ ys }, some e)

  scan-append :
      (acc xs ys : List ℕ) (s : Session) → scan acc (xs ++ ys) s ≡ resume ys (scan acc xs s)
  unfolding scan
  scan-append acc [] ys s = sym (scan-with_buf acc ys acc s)
  scan-append acc (b ∷ xs) ys s =
      let r = process_line listening max_delay_ms destination acc s in
      ground (arith, scan-append [] xs ys r.0, scan-append (acc ++ b ∷ []) xs ys s)

  scan-NoNewline :
      (acc bs : List ℕ) (s : Session)
      → NoNewline acc
      → (scan acc bs s).1 ≡ none
      → NoNewline (scan acc bs s).0.line_buf
  unfolding scan
  scan-NoNewline acc [] s h e = h
  scan-NoNewline acc (b ∷ bs) s h e =
      let r = process_line listening max_delay_ms destination acc s in
      ground (
        arith,
        nat_beq_iff b 10,
        All-append (λ b. b ≢ 10) acc (b ∷ []) h,
        scan-NoNewline [] bs r.0 tt,
        scan-NoNewline (acc ++ b ∷ []) bs s,
      )

  -- Feeding a chunk is reading its bytes one after the other.
  pub feed-scan :
      (chunk : List ℕ) (s : Session)
      → NoNewline s.line_buf
      → feed listening max_delay_ms destination chunk s ≡ scan s.line_buf chunk s
  unfolding feed parse_available_events
  feed-scan chunk s h =
      parse_lines-scan (length (s.line_buf ++ chunk)) s.line_buf chunk s h (omega arith)

  -- No whole line is left in the buffer.
  pub feed-NoNewline :
      (chunk : List ℕ) (s : Session)
      → NoNewline s.line_buf
      → (feed listening max_delay_ms destination chunk s).1 ≡ none
      → NoNewline (feed listening max_delay_ms destination chunk s).0.line_buf
  feed-NoNewline chunk s h e =
      rw (feed-scan chunk s h) (scan-NoNewline s.line_buf chunk s h (rw (feed-scan chunk s h) at e))

  abbrev pub then_feed : List ℕ → Session × Option Text → Session × Option Text
  then_feed ys (s, none) = feed listening max_delay_ms destination ys s
  then_feed ys (s, some e) = (record s { line_buf = s.line_buf ++ ys }, some e)

  then_feed-resume :
      (ys : List ℕ) (r : Session × Option Text)
      → (r.1 ≡ none → NoNewline r.0.line_buf)
      → then_feed ys r ≡ resume ys r
  then_feed-resume ys (s, none) h = feed-scan ys s (h refl)
  then_feed-resume ys (s, some e) h = refl

  -- Where the network cuts the stream changes nothing: if no whole line waits in the buffer, two
  -- chunks are parsed as their concatenation is. If the consumer is gone after the first, the bytes
  -- of the second stay in the buffer.
  pub feed-append :
      (xs ys : List ℕ) (s : Session)
      → NoNewline s.line_buf
      → feed listening max_delay_ms destination (xs ++ ys) s
        ≡ then_feed ys (feed listening max_delay_ms destination xs s)
  feed-append xs ys s h =
      feed-scan (xs ++ ys) s h
      ∙ scan-append s.line_buf xs ys s
      ∙ ap (resume ys) (sym (feed-scan xs s h))
      ∙ sym (then_feed-resume ys _ (feed-NoNewline xs s h))

  -- Reading a whole line that gives no error.
  pub scan-line :
      (acc raw rest : List ℕ) (s t : Session)
      → NoNewline raw
      → process_line listening max_delay_ms destination (acc ++ raw) s ≡ (t, none)
      → scan acc (raw ++ 10 ∷ rest) s ≡ scan [] rest t
  unfolding scan
  scan-line acc [] rest s t h e =
      let e' = rw (append-nil acc) at e in ground (arith, ap (λ r. r.0) e', ap (λ r. r.1) e')
  scan-line acc (b ∷ raw) rest s t h e = ground (
    arith,
    nat_beq_iff b 10,
    scan-line (acc ++ b ∷ []) raw rest s t h.1 (rw (append_assoc acc (b ∷ []) raw) e),
  )

  pub scan-nil : (acc : List ℕ) (s : Session) → scan acc [] s ≡ (record s { line_buf = acc }, none)
  unfolding scan
  scan-nil acc s = refl
