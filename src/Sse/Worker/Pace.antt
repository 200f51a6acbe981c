-- ===== src/Sse/Worker/Pace.antt =====
-- The delays that a worker waits, and what it sends, over any script.
use rong.Base.{
  ℕ, ◌≤◌, inl, inr, refl, ap, Bool, true, false, not, Option, none, some, List, [], ◌∷◌, ◌++◌,
  arith, Bool-cases, Option-cases, codes, ◌==◌, nat_eq,
}
use mathlib.Core.List.{map-append}
use rong.Text.{Text, is_empty, has_prefix, to_ascii_lowercase}
use rong.Sse.{SseConnectOptions, Item, failure, Result, ok, err}
use rong.Sse.Parse.{Session, send, flush_pending_event, feed}
use rong.Sse.Parse.Delay.{
  IsPaced, Progress, feed-Progress, flush-Progress, parse_available_events-Progress,
}
use rong.Sse.Worker.Build.{Http, Request}
use rong.Sse.Worker.{
  Ending, Body, stream, small, empty, Response, Attempt, stop, fail, respond, Worker, done,
  max_delay_ms, should_reconnect, open_with, complete_initial_open, back_off, after_wait, Read,
  send_failure, report, read_body, at_limit, or_default, finish_line, finish_body, reopen,
  after_body, start_session, read_stream, next_of, retry_or, read_response, respond_to, attempted,
  sent_request, built, iteration, run_sse_worker, start,
}
use rong.Sse.Worker.Sound.{
  base_delay-range, Next-cases, OnlyEvents, WaitsInRange, IsRunning, HasEnded, IsSound, ended,
  back_off-IsRunning, if-IsSound, after_wait-IsSound,
}

module _ (listening : List Item → Bool) (options : SseConnectOptions) (http : Http)
    (denied : Request → Option Text) where
  send_failure-HasEnded :
      (e : Text) (w : Worker)
      → IsRunning options.reconnect w
      → HasEnded options.reconnect (send_failure listening options http denied e w)
  unfolding send_failure send
  send_failure-HasEnded e w v = elim (Bool-cases (listening w.session.sent)) [
    | inl on ↦ rw on (record {
      waits = v.waits;
      sends = (v.events.0, failure e ∷ [], ap (λ s. s ++ failure e ∷ []) v.events.1, inr (e, refl));
    })
    | inr off ↦ rw off (record { waits = v.waits; sends = (ended options.reconnect w v).sends })
  ]

  open_with-IsRunning :
      (r : Result Text) (w : Worker) (o : Option (Result Text))
      → IsRunning options.reconnect w
      → IsRunning options.reconnect (open_with r w o)
  open_with-IsRunning r w none v = record { paced = v.paced; waits = v.waits; events = v.events }
  open_with-IsRunning r w (some old) v = v

  complete-IsRunning :
      (r : Result Text) (w : Worker)
      → IsRunning options.reconnect w
      → IsRunning options.reconnect (complete_initial_open r w)
  unfolding complete_initial_open
  complete-IsRunning r w v = open_with-IsRunning r w w.opened v

  report-HasEnded :
      (e : Text) (w : Worker)
      → IsRunning options.reconnect w
      → HasEnded options.reconnect (report listening options http denied e w)
  unfolding report
  report-HasEnded e w v =
      send_failure-HasEnded e (complete_initial_open (err e) w) (complete-IsRunning (err e) w v)

  abbrev SoundSession : Session → Type 0
  SoundSession s = IsPaced (max_delay_ms options.reconnect) s × OnlyEvents s.sent

  one-le-max_delay : 1 ≤ max_delay_ms options.reconnect
  one-le-max_delay = omega (arith, base_delay-range options.reconnect)

  advance :
      (s s' : Session)
      → Progress listening (max_delay_ms options.reconnect) options.destination s s'
      → SoundSession s
      → SoundSession s'
  advance s s' p v = (p.paced, (v.1.0 ++ p.new, simp (p.sent, v.1.1, map-append)))

  feed-SoundSession :
      (chunk : List ℕ) (s : Session)
      → SoundSession s
      → SoundSession (feed listening (max_delay_ms options.reconnect) options.destination chunk s).0
  feed-SoundSession chunk s v =
      advance s _ (feed-Progress listening _ options.destination chunk s one-le-max_delay v.0) v

  read_body-SoundSession :
      (chunks : List (List ℕ)) (ending : Ending) (s : Session)
      → SoundSession s
      → SoundSession (read_body listening options http denied chunks ending s).session
  unfolding read_body
  read_body-SoundSession [] ending s v = v
  read_body-SoundSession (chunk ∷ chunks) ending s v =
      let r = feed listening (max_delay_ms options.reconnect) options.destination chunk s in
      let next = feed-SoundSession chunk s v in
      elim (Option-cases r.1) [
        | inl e ↦ rw (e, read_body) (read_body-SoundSession chunks ending r.0 next)
        | inr (x, e) ↦ rw (e, read_body) next
      ]

  flush-SoundSession :
      (s : Session)
      → SoundSession s
      → SoundSession
          (flush_pending_event listening (max_delay_ms options.reconnect) options.destination s).0
  flush-SoundSession s v =
      advance s _ (flush-Progress listening _ options.destination s one-le-max_delay v.0) v

  finish_line-SoundSession :
      (s : Session) → SoundSession s → SoundSession (finish_line listening options http denied s)
  unfolding finish_line
  finish_line-SoundSession s v =
      let line : Session = record s { line_buf = s.line_buf ++ 10 ∷ [] } in
      elim (Bool-cases (is_empty s.line_buf)) [
        | inl e ↦ rw e v
        | inr e ↦ rw e (
            advance line _
              (parse_available_events-Progress listening _ options.destination line one-le-max_delay
                v.0)
              v)
      ]

  finish_body-SoundSession :
      (s : Session) → SoundSession s → SoundSession (finish_body listening options http denied s)
  unfolding finish_body
  finish_body-SoundSession s v = flush-SoundSession _ (finish_line-SoundSession s v)

  with_session-IsRunning :
      (s : Session) (w : Worker)
      → WaitsInRange options.reconnect w.waited
      → SoundSession s
      → IsRunning options.reconnect (record w { session = s })
  with_session-IsRunning s w h v = record { paced = v.0; waits = h; events = v.1 }

  reconnect-IsSound :
      (b : Bool) (w : Worker)
      → IsRunning options.reconnect w
      → IsSound options.reconnect (after_wait b (back_off options.reconnect w))
  reconnect-IsSound b w v =
      after_wait-IsSound options.reconnect b _ (back_off-IsRunning options.reconnect w v)

  retry_or-IsSound :
      (b : Bool) (w given_up : Worker)
      → IsRunning options.reconnect w
      → HasEnded options.reconnect given_up
      → IsSound options.reconnect (retry_or listening options http denied b w given_up)
  unfolding retry_or
  retry_or-IsSound b w given_up v g =
      if-IsSound options.reconnect (should_reconnect options.reconnect w.retries) _ _
        (reconnect-IsSound b w v) g

  reopen-IsSound :
      (b : Bool) (w : Worker)
      → IsRunning options.reconnect w
      → IsSound options.reconnect (reopen listening options http denied b w)
  unfolding reopen
  reopen-IsSound b w v =
      let end = ended options.reconnect w v in
      if-IsSound options.reconnect (not options.reconnect.enabled) (done w) _ end (
        if-IsSound options.reconnect (at_limit options.reconnect.max_retries w.retries) (done w) _
          end (reconnect-IsSound b w v))

  after_body-IsSound :
      (failed : Option Text) (b : Bool) (w : Worker)
      → IsRunning options.reconnect w
      → IsSound options.reconnect (after_body listening options http denied failed b w)
  unfolding after_body
  after_body-IsSound none b w v = reopen-IsSound b w v
  after_body-IsSound (some e) b w v =
      if-IsSound options.reconnect (not (should_reconnect options.reconnect w.retries)) _ _
        (send_failure-HasEnded (codes "sse stream failed: " ++ e) w v) (reopen-IsSound b w v)

  next_of-IsSound :
      (b : Bool) (w : Worker) (r : Read) (o : Option (Option Text))
      → WaitsInRange options.reconnect w.waited
      → SoundSession r.session
      → IsSound options.reconnect
          (next_of listening options http denied b w (record { session = r.session; outcome = o }))
  next_of-IsSound b w r none h v =
      ended options.reconnect _ (with_session-IsRunning r.session w h v)
  next_of-IsSound b w r (some failed) h v =
      after_body-IsSound failed b _
        (with_session-IsRunning _ w h (finish_body-SoundSession r.session v))

  read_stream-IsSound :
      (chunks : List (List ℕ)) (ending : Ending) (b : Bool) (w : Worker)
      → IsRunning options.reconnect w
      → IsSound options.reconnect (read_stream listening options http denied chunks ending b w)
  unfolding read_stream start_session
  read_stream-IsSound chunks ending b w v =
      let range = base_delay-range options.reconnect in
      let r =
        read_body listening options http denied chunks ending
          (start_session listening options http denied w.session) in
      next_of-IsSound b (record w { retries = 0 }) r r.outcome v.waits
        (read_body-SoundSession chunks ending _ (range, v.events))

  read_response-IsSound :
      (body : Body) (ending : Ending) (b : Bool) (w : Worker)
      → IsRunning options.reconnect w
      → IsSound options.reconnect (read_response listening options http denied body ending b w)
  unfolding read_response
  read_response-IsSound empty ending b w v = retry_or-IsSound b w w v (ended options.reconnect w v)
  read_response-IsSound (stream chunks) ending b w v = read_stream-IsSound chunks ending b w v
  read_response-IsSound (small bytes) ending b w v = read_stream-IsSound (bytes ∷ []) ending b w v

  respond_to-IsSound :
      (response : Response) (b : Bool) (w : Worker)
      → IsRunning options.reconnect w
      → IsSound options.reconnect (respond_to listening options http denied response b w)
  unfolding respond_to
  respond_to-IsSound response b w v =
      if-IsSound options.reconnect (not (response.status == 200)) _ _ (report-HasEnded _ w v) (
        if-IsSound options.reconnect
          (not (
            has_prefix (codes "text/event-stream")
              (to_ascii_lowercase (or_default response.content_type))))
          _ _ (report-HasEnded _ w v)
          (read_response-IsSound response.body response.ending b _ (complete-IsRunning _ w v)))

  attempted-IsSound :
      (a : Attempt) (w : Worker)
      → IsRunning options.reconnect w
      → IsSound options.reconnect (attempted listening options http denied a w)
  unfolding attempted
  attempted-IsSound stop w v = ended options.reconnect w v
  attempted-IsSound (fail e b) w v = retry_or-IsSound b w _ v (report-HasEnded _ w v)
  attempted-IsSound (respond response b) w v = respond_to-IsSound response b w v

  sent_request-IsSound :
      (request : Request) (a : Attempt) (w : Worker) (o : Option Text)
      → IsRunning options.reconnect w
      → IsSound options.reconnect (sent_request listening options http denied request a w o)
  unfolding sent_request
  sent_request-IsSound request a w (some e) v = report-HasEnded _ w v
  sent_request-IsSound request a w none v =
      attempted-IsSound a _ (record { paced = v.paced; waits = v.waits; events = v.events })

  built-IsSound :
      (a : Attempt) (w : Worker) (r : Result Request)
      → IsRunning options.reconnect w
      → IsSound options.reconnect (built listening options http denied a w r)
  unfolding built
  built-IsSound a w (err e) v = report-HasEnded e w v
  built-IsSound a w (ok request) v = sent_request-IsSound request a w (denied request) v

  abbrev pub IsSoundRun : Worker × Bool → Type 0
  IsSoundRun (w, true) = HasEnded options.reconnect w
  IsSoundRun (w, false) = IsRunning options.reconnect w

  iteration-IsSound :
      (a : Attempt) (w : Worker)
      → IsRunning options.reconnect w
      → IsSound options.reconnect (iteration listening options http denied a w)
  unfolding iteration
  iteration-IsSound a w v = built-IsSound a w _ v

  run-IsSound_from :
      (script : List Attempt) (w : Worker)
      → IsRunning options.reconnect w
      → IsSoundRun (run_sse_worker listening options http denied script w)
  unfolding run_sse_worker
  run-IsSound_from [] w v = v
  run-IsSound_from (a ∷ script) w v =
      let sound = iteration-IsSound a w v in
      elim (Next-cases (iteration listening options http denied a w)) [
        | inl (w', e) ↦ rw (e, run_sse_worker) (run-IsSound_from script w' (rw e at sound))
        | inr (w', e) ↦ rw (e, run_sse_worker) (rw e at sound)
      ]

  -- However the network behaves, each delay that the worker sleeps lies between one millisecond and
  -- the greatest delay, and the consumer is sent events only, and behind them one error at most,
  -- with which the worker ends.
  pub run-IsSound :
      (script : List Attempt)
      → IsSoundRun (
          run_sse_worker listening options http denied script (start listening options http denied))
  unfolding start
  run-IsSound script =
      run-IsSound_from script _
        (record { paced = base_delay-range options.reconnect; waits = tt; events = ([], refl) })
