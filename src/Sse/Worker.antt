-- ===== src/Sse/Worker.antt =====
-- `run_sse_worker`: connect, read, and reconnect after a delay that doubles. The network, the
-- clock and the caller's stop signal are a script: what each attempt meets.
pub mod Build
pub mod Sound
pub mod Pace
pub mod Retry
mod Tests
use rong.Base.{
  ℕ, ◌+◌, ◌*◌, ◌-◌, ◌%◌, ◌^◌, min, max, Bool, true, false, not, ◌&&◌, Option, none, some, List, [],
  ◌∷◌, ◌++◌, codes, ltb, leb, if◌then◌else◌, ◌==◌, nat_eq,
}
use rong.Text.{Text, is_empty, has_prefix, to_ascii_lowercase}
use rong.Sse.{
  as_str, SseConnectOptions, SseReconnectOptions, Item, failure, Result, ok, err, no_pending,
}
use rong.Sse.Parse.{Session, origin_of, send, flush_pending_event, parse_available_events, feed}
use Build.{Http, Request, build_sse_request}

-- How a body ends: the channel closes, reports an error, or the caller stops the worker first.
pub data Ending : Type 0 where
  closed stopped : Ending
  broken : Text → Ending

-- `HttpBody`, with the chunks that it delivers.
pub data Body : Type 0 where
  stream : List (List ℕ) → Body
  small : List ℕ → Body
  empty : Body

pub record Response : Type 0 where
  pub status : ℕ
  pub content_type : Option Text
  pub body : Body
  pub ending : Ending

-- What an attempt meets, and whether the caller stops the worker in the wait after it.
pub data Attempt : Type 0 where
  stop : Attempt
  fail : Text → (stopped_in_wait : Bool) → Attempt
  respond : Response → (stopped_in_wait : Bool) → Attempt

-- `opened` is what the handshake channel was sent; `waited` are the delays slept.
pub record Worker : Type 0 where
  pub session : Session
  pub retries : ℕ
  pub opened : Option (Result Text)
  pub waited : List ℕ
  pub requests : List Request

pub data Next : Type 0 where
  again : Worker → Next
  done : Worker → Next

abbrev pub as_u64 : ℕ → ℕ
as_u64 n = n % 2 ^ 64

-- `u32::saturating_add(1)` and `u64::saturating_mul(2)`.
abbrev pub saturating_suc : ℕ → ℕ
saturating_suc n = min (n + 1) (2 ^ 32 - 1)

abbrev pub saturating_double : ℕ → ℕ
saturating_double n = min (n * 2) (2 ^ 64 - 1)

pub base_delay_ms : SseReconnectOptions → ℕ
base_delay_ms r = max 1 (as_u64 r.base_delay)

pub max_delay_ms : SseReconnectOptions → ℕ
unfolding base_delay_ms
max_delay_ms r = max (base_delay_ms r) (as_u64 r.max_delay)

abbrev pub below_limit : Option ℕ → ℕ → Bool
below_limit none retries = true
below_limit (some most) retries = ltb retries most

abbrev at_limit : Option ℕ → ℕ → Bool
at_limit none retries = false
at_limit (some most) retries = leb most retries

pub should_reconnect : SseReconnectOptions → ℕ → Bool
should_reconnect r retries = if not r.enabled then false else below_limit r.max_retries retries

abbrev open_with : Result Text → Worker → Option (Result Text) → Worker
open_with r w none = record w { opened = some r }
open_with r w (some old) = w

-- `opened_tx.take()`: the handshake is answered once.
pub complete_initial_open : Result Text → Worker → Worker
complete_initial_open r w = open_with r w w.opened

-- The counter, the delay and the sleep of a reconnection.
pub back_off : SseReconnectOptions → Worker → Worker
back_off r w =
    let delay = min w.session.reconnect_delay_ms (max_delay_ms r) in
    record w {
      retries = saturating_suc w.retries;
      session = record w.session {
        reconnect_delay_ms = min (saturating_double delay) (max_delay_ms r);
      };
      waited = w.waited ++ max delay 1 ∷ [];
    }

-- `wait_reconnect_delay` has slept, or the caller has stopped the worker meanwhile.
abbrev pub after_wait : Bool → Worker → Next
after_wait true w = done w
after_wait false w = again w

abbrev or_default : Option Text → Text
or_default none = []
or_default (some s) = s

abbrev shown : Text → Text
shown s = if is_empty s then codes "<empty>" else s

-- The session in which a body has been read, and how reading ended: `none` is a stop.
pub record Read : Type 0 where
  pub session : Session
  pub outcome : Option (Option Text)

abbrev end_of : Ending → Option (Option Text)
end_of closed = some none
end_of stopped = none
end_of (broken e) = some (some e)

abbrev chunks_of : Body → List (List ℕ)
chunks_of (stream cs) = cs
chunks_of (small bytes) = bytes ∷ []
chunks_of empty = []

module _ (listening : List Item → Bool) (options : SseConnectOptions) (http : Http)
    (denied : Request → Option Text) where
  send_failure : Text → Worker → Worker
  unfolding send
  send_failure e w = record w { session = (send listening (failure e) w.session).0 }

  -- The worker gives up: the handshake fails if it is still open, and the consumer is told.
  pub report : Text → Worker → Worker
  unfolding send_failure
  report e w = send_failure e (complete_initial_open (err e) w)

  pub read_body : List (List ℕ) → Ending → Session → Read
  read_body [] ending s = record { session = s; outcome = end_of ending }
  read_body (chunk ∷ chunks) ending s =
      let (s', failed) =
        feed listening (max_delay_ms options.reconnect) options.destination chunk s in
      let rest = read_body chunks ending s' in
      elim failed [ some e ↦ record { session = s'; outcome = some (some e) } | none ↦ rest ]

  -- Bytes behind the last newline are one more line.
  pub finish_line : Session → Session
  finish_line s =
      let line : Session = record s { line_buf = s.line_buf ++ 10 ∷ [] } in
      let most = max_delay_ms options.reconnect in
      if is_empty s.line_buf
      then s
      else (parse_available_events listening most options.destination line).0

  -- Then what is pending is flushed. Neither reports an error.
  pub finish_body : Session → Session
  unfolding finish_line
  finish_body s =
      let most = max_delay_ms options.reconnect in
      (flush_pending_event listening most options.destination (finish_line s)).0

  -- A stream that has ended is opened again if that is allowed.
  pub reopen : Bool → Worker → Next
  reopen stopped_in_wait w =
      let r = options.reconnect in
      if not r.enabled
      then done w
      else if at_limit r.max_retries w.retries
      then done w
      else after_wait stopped_in_wait (back_off r w)

  -- What follows the body: an error that is not retried is told to the consumer.
  pub after_body : Option Text → Bool → Worker → Next
  unfolding reopen send_failure
  after_body none stopped_in_wait w = reopen stopped_in_wait w
  after_body (some e) stopped_in_wait w =
      if not (should_reconnect options.reconnect w.retries)
      then done (send_failure (codes "sse stream failed: " ++ e) w)
      else reopen stopped_in_wait w

  pub start_session : Session → Session
  start_session s = record s {
    line_buf = [];
    pending = no_pending;
    reconnect_delay_ms = base_delay_ms options.reconnect;
  }

  abbrev next_of : Bool → Worker → Read → Next
  next_of stopped_in_wait w r = elim r.outcome [
    | none ↦ done (record w { session = r.session })
    | some failed ↦ after_body failed stopped_in_wait (record w { session = finish_body r.session })
  ]

  pub read_stream : List (List ℕ) → Ending → Bool → Worker → Next
  unfolding read_body finish_body after_body start_session
  read_stream chunks ending stopped_in_wait w =
      next_of stopped_in_wait (record w { retries = 0 })
        (read_body chunks ending (start_session w.session))

  retry_or : Bool → Worker → Worker → Next
  retry_or stopped_in_wait w given_up =
      if should_reconnect options.reconnect w.retries
      then after_wait stopped_in_wait (back_off options.reconnect w)
      else done given_up

  read_response : Body → Ending → Bool → Worker → Next
  unfolding read_stream retry_or
  read_response empty ending stopped_in_wait w = retry_or stopped_in_wait w w
  read_response body ending stopped_in_wait w =
      read_stream (chunks_of body) ending stopped_in_wait w

  pub respond_to : Response → Bool → Worker → Next
  unfolding read_response report
  respond_to response stopped_in_wait w =
      let content_type = to_ascii_lowercase (or_default response.content_type) in
      if not (response.status == 200)
      then done (report (codes "sse server returned status " ++ http.status_text response.status) w)
      else if not (has_prefix (codes "text/event-stream") content_type)
      then done (report (codes "invalid sse content-type: " ++ shown content_type) w)
      else read_response response.body response.ending stopped_in_wait
          (complete_initial_open (ok (origin_of options.destination)) w)

  pub attempted : Attempt → Worker → Next
  unfolding respond_to retry_or report
  attempted stop w = done w
  attempted (fail e stopped_in_wait) w =
      retry_or stopped_in_wait w (report (codes "sse request failed: " ++ e) w)
  attempted (respond response stopped_in_wait) w = respond_to response stopped_in_wait w

  sent_request : Request → Attempt → Worker → Option Text → Next
  sent_request request a w (some e) = done (report (codes "sse request failed: " ++ e) w)
  sent_request request a w none = attempted a (record w { requests = w.requests ++ request ∷ [] })

  built : Attempt → Worker → Result Request → Next
  unfolding sent_request
  built a w (err e) = done (report e w)
  built a w (ok request) = sent_request request a w (denied request)

  -- One round of the worker's loop.
  pub iteration : Attempt → Worker → Next
  unfolding built
  iteration a w = built a w (build_sse_request http options w.session.last_event_id)

  -- The loop, over a script; the flag tells whether the worker has ended.
  pub run_sse_worker : List Attempt → Worker → Worker × Bool
  run_sse_worker [] w = (w, false)
  run_sse_worker (a ∷ script) w = elim (iteration a w) [
    | done w' ↦ (w', true)
    | again w' ↦ run_sse_worker script w'
  ]

  pub start : Worker
  start = record {
    session = record {
      line_buf = [];
      pending = no_pending;
      last_event_id = options.last_event_id;
      reconnect_delay_ms = base_delay_ms options.reconnect;
      sent = [];
    };
    retries = 0;
    opened = none;
    waited = [];
    requests = [];
  }
