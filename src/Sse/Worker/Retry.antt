-- ===== src/Sse/Worker/Retry.antt =====
-- A server that cannot be reached: how often the worker tries, and how long it waits.
use native.Mathlib.Nat.{pow-suc}
use rong.Base.{
  ℕ, zero, suc, ◌+◌, ◌*◌, ◌-◌, ◌^◌, ◌<◌, ◌≤◌, ◌≡◌, refl, ap, sym, ◌∙◌, subst, min, max, Bool, true,
  false, Option, none, some, List, [], ◌∷◌, ◌++◌, arith, if◌then◌else◌, codes, replicate,
  replicate-append,
}
use rong.Text.{Text}
use rong.Sse.{SseConnectOptions, SseReconnectOptions, Item, ok, err}
use rong.Sse.Worker.Build.{Http, Request, build_sse_request}
use rong.Sse.Worker.{
  fail, Attempt, Worker, again, done, base_delay_ms, max_delay_ms, saturating_suc,
  saturating_double, after_wait, should_reconnect, back_off, report, retry_or, attempted,
  sent_request, built, iteration, run_sse_worker, start, send_failure, complete_initial_open,
}
use rong.Sse.Worker.Sound.{base_delay-range}

-- The delay before the next attempt after `i` failures: the base delay doubled `i` times, up to the
-- greatest delay.
abbrev pub backoff : SseReconnectOptions → ℕ → ℕ
backoff r i = min (base_delay_ms r * 2 ^ i) (max_delay_ms r)

abbrev pub waits : SseReconnectOptions → ℕ → List ℕ
waits r zero = []
waits r (suc n) = waits r n ++ backoff r n ∷ []

max_delay-small : (r : SseReconnectOptions) → max_delay_ms r ≤ 2 ^ 64 - 1
unfolding max_delay_ms base_delay_ms
max_delay-small r = omega arith

doubled : (b i : ℕ) → b * 2 ^ suc i ≡ (b * 2 ^ i) * 2
doubled b i = rw (pow-suc 2 i) (omega arith)

doubled-positive : (b i : ℕ) → 1 ≤ b → 1 ≤ b * 2 ^ i
doubled-positive b zero h = omega arith
doubled-positive b (suc i) h = let rest = doubled-positive b i h in rw (doubled b i) (omega arith)

backoff-range :
    (r : SseReconnectOptions) (i : ℕ) → (1 ≤ backoff r i) × (backoff r i ≤ max_delay_ms r)
backoff-range r i =
    let range = base_delay-range r in
    let positive = doubled-positive (base_delay_ms r) i range.0 in omega arith

backoff-suc :
    (r : SseReconnectOptions) (i : ℕ)
    → min (saturating_double (min (backoff r i) (max_delay_ms r))) (max_delay_ms r)
      ≡ backoff r (suc i)
backoff-suc r i = let small = max_delay-small r in rw (doubled (base_delay_ms r) i) (omega arith)

backoff-slept :
    (r : SseReconnectOptions) (i : ℕ) → max (min (backoff r i) (max_delay_ms r)) 1 ≡ backoff r i
backoff-slept r i = let range = backoff-range r i in omega arith

backoff-zero : (r : SseReconnectOptions) → backoff r 0 ≡ base_delay_ms r
backoff-zero r = let range = base_delay-range r in omega arith

module _ (listening : List Item → Bool) (options : SseConnectOptions) (http : Http)
    (denied : Request → Option Text) (request : Request) (e : Text) where
  -- The worker after `i` failures.
  after_failures : ℕ → Worker
  after_failures i = record w {
    session = record w.session { reconnect_delay_ms = backoff options.reconnect i };
    retries = i;
    waited = waits options.reconnect i;
    requests = replicate i request;
  }
    where
      w : Worker
      w = start listening options http denied

  -- The worker when one more request is out, and when it gives up after that.
  sending : ℕ → Worker
  unfolding after_failures
  sending i = record (after_failures i) { requests = replicate i request ++ request ∷ [] }

  given_up : ℕ → Worker
  unfolding sending
  given_up i = report listening options http denied (codes "sse request failed: " ++ e) (sending i)

  back_off-after_failures :
      (i : ℕ) → i < 2 ^ 32 - 1 → back_off options.reconnect (sending i) ≡ after_failures (suc i)
  unfolding back_off after_failures sending
  back_off-after_failures i h =
      let suc-small : saturating_suc i ≡ suc i = omega arith in
      simp (backoff-suc, backoff-slept, suc-small, replicate-append)

  should_reconnect-below :
      (most i : ℕ)
      → options.reconnect.enabled ≡ true
      → options.reconnect.max_retries ≡ some most
      → i < most
      → should_reconnect options.reconnect i ≡ true
  unfolding should_reconnect
  should_reconnect-below most i on limit h = simp (on, limit) (ground arith)

  should_reconnect-at :
      (most : ℕ)
      → options.reconnect.enabled ≡ true
      → options.reconnect.max_retries ≡ some most
      → should_reconnect options.reconnect most ≡ false
  unfolding should_reconnect
  should_reconnect-at most on limit = simp (on, limit) (ground arith)

  iteration-below :
      (most i : ℕ)
      → options.reconnect.enabled ≡ true
      → options.reconnect.max_retries ≡ some most
      → most < 2 ^ 32
      → build_sse_request http options options.last_event_id ≡ ok request
      → denied request ≡ none
      → i < most
      → iteration listening options http denied (fail e false) (after_failures i)
        ≡ again (after_failures (suc i))
  unfolding iteration after_failures sending given_up built sent_request attempted retry_or start
  iteration-below most i on limit small request-built allowed h =
      ap (built listening options http denied (fail e false) (after_failures i)) request-built
      ∙ ap (sent_request listening options http denied request (fail e false) (after_failures i))
          allowed
      ∙ ap
          (λ b.
            if b
            then after_wait false (back_off options.reconnect (sending i))
            else done (given_up i))
          (should_reconnect-below most i on limit h)
      ∙ ap again (back_off-after_failures i (omega arith))

  iteration-at :
      (most : ℕ)
      → options.reconnect.enabled ≡ true
      → options.reconnect.max_retries ≡ some most
      → build_sse_request http options options.last_event_id ≡ ok request
      → denied request ≡ none
      → iteration listening options http denied (fail e false) (after_failures most)
        ≡ done (given_up most)
  unfolding iteration after_failures sending given_up built sent_request attempted retry_or start
  iteration-at most on limit request-built allowed =
      ap (built listening options http denied (fail e false) (after_failures most)) request-built
      ∙ ap (sent_request listening options http denied request (fail e false) (after_failures most))
          allowed
      ∙ ap
          (λ b.
            if b
            then after_wait false (back_off options.reconnect (sending most))
            else done (given_up most))
          (should_reconnect-at most on limit)

  run-again :
      (script : List Attempt) (a : Attempt) (w w' : Worker)
      → iteration listening options http denied a w ≡ again w'
      → run_sse_worker listening options http denied (a ∷ script) w
        ≡ run_sse_worker listening options http denied script w'
  unfolding run_sse_worker
  run-again script a w w' h = rw (h, run_sse_worker) refl

  run-done :
      (script : List Attempt) (a : Attempt) (w w' : Worker)
      → iteration listening options http denied a w ≡ done w'
      → run_sse_worker listening options http denied (a ∷ script) w ≡ (w', true)
  unfolding run_sse_worker
  run-done script a w w' h = rw (h, run_sse_worker) refl

  -- From `i` failures on, `left` more are retried, and the next one is the last.
  run-after_failures :
      (left i most : ℕ)
      → i + left ≡ most
      → options.reconnect.enabled ≡ true
      → options.reconnect.max_retries ≡ some most
      → most < 2 ^ 32
      → build_sse_request http options options.last_event_id ≡ ok request
      → denied request ≡ none
      → run_sse_worker listening options http denied
          (replicate (suc left) (fail e false))
          (after_failures i)
        ≡ (given_up most, true)
  run-after_failures zero i most total on limit small request-built allowed =
      let i-most : i ≡ most = omega arith in
      subst
        (λ n.
          run_sse_worker listening options http denied (replicate 1 (fail e false))
            (after_failures n)
          ≡ (given_up most, true))
        (sym i-most)
        (run-done [] (fail e false) (after_failures most) (given_up most)
          (iteration-at most on limit request-built allowed))
  run-after_failures (suc left) i most total on limit small request-built allowed =
      run-again (replicate (suc left) (fail e false)) (fail e false) (after_failures i)
        (after_failures (suc i))
        (iteration-below most i on limit small request-built allowed (omega arith))
      ∙ run-after_failures left (suc i) most (omega arith) on limit small request-built allowed

  after_failures-zero : after_failures 0 ≡ start listening options http denied
  unfolding after_failures start
  after_failures-zero = simp (backoff-zero)

  given_up-shape :
      (n : ℕ)
      → ((given_up n).waited ≡ waits options.reconnect n)
        × ((given_up n).requests ≡ replicate (suc n) request)
        × ((given_up n).opened ≡ some (err (codes "sse request failed: " ++ e)))
  unfolding given_up sending after_failures start report complete_initial_open send_failure
  given_up-shape n = (refl, replicate-append n request, refl)

  -- When each attempt fails, reconnection is enabled with a limit `most` below `2 ^ 32`, the
  -- request can be built and is allowed, and no wait is interrupted, the worker ends after `most +
  -- 1` attempts, each with the same request; before retry number `i`, counted from 0, it sleeps the
  -- base delay doubled `i` times, capped; and the handshake is answered with the failure.
  pub retries_exhausted :
      (most : ℕ)
      → options.reconnect.enabled ≡ true
      → options.reconnect.max_retries ≡ some most
      → most < 2 ^ 32
      → build_sse_request http options options.last_event_id ≡ ok request
      → denied request ≡ none
      → let (w, ended) =
          run_sse_worker listening options http denied
            (replicate (suc most) (fail e false))
            (start listening options http denied) in
        (ended ≡ true)
        × (w.waited ≡ waits options.reconnect most)
        × (w.requests ≡ replicate (suc most) request)
        × (w.opened ≡ some (err (codes "sse request failed: " ++ e)))
  retries_exhausted most on limit small request-built allowed =
      let run =
        ap (run_sse_worker listening options http denied (replicate (suc most) (fail e false)))
          (sym after_failures-zero)
        ∙ run-after_failures most 0 most (omega arith) on limit small request-built allowed in
      let shape = given_up-shape most in
      (
        ap (λ r. r.1) run,
        ap (λ r. r.0.waited) run ∙ shape.0,
        ap (λ r. r.0.requests) run ∙ shape.1,
        ap (λ r. r.0.opened) run ∙ shape.2,
      )
