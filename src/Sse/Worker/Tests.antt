-- ===== src/Sse/Worker/Tests.antt =====
-- The worker against a server that cannot be reached, and one that answers.
use rong.Base.{
  ◌≡◌, refl, Bool, true, false, Option, none, some, List, [], ◌∷◌, ◌++◌, codes, arith, replicate,
}
use rong.Base.Assoc.{insert}
use rong.Text.{Text, trim, starts_with, trim_start_matches, is_empty}
use rong.Sse.{https, SseConnectOptions, Item, ok, err}
use rong.Sse.Destination.{to_url, absolute, with_query}
use rong.Sse.Worker.Build.{
  Http, Request, build_sse_request, builder, with_last_id, insert_all, finish,
}
use rong.Sse.Worker.{fail, respond, Attempt, stream, closed, Worker, run_sse_worker, start}
use rong.Sse.Worker.Pace.{IsSoundRun, run-IsSound}
use rong.Sse.Worker.Retry.{waits, retries_exhausted}

abbrev options : SseConnectOptions
options = record {
  destination = record {
    scheme = https;
    target = codes "api.test";
    path = codes "/v1";
    query = none;
  };
  headers = (codes "x-key", codes "k") ∷ [];
  last_event_id = some (codes "6");
  reconnect = record { enabled = true; max_retries = some 2; base_delay = 1000; max_delay = 3000 };
}

-- Header names and values that are taken as they are.
abbrev http : Http
http = record {
  header_name = λ name. ok name;
  header_value = λ value. ok value;
  uri_error = λ uri. none;
  user_agent = codes "rong";
  status_text = λ status. codes "404 Not Found";
}

abbrev all_allowed : Request → Option Text
all_allowed request = none

abbrev listening : List Item → Bool
listening sent = true

abbrev request : Request
request = record {
  uri = codes "https://api.test/v1";
  headers =
      (codes "accept", codes "text/event-stream")
      ∷ (codes "cache-control", codes "no-cache")
      ∷ (codes "user-agent", codes "rong")
      ∷ (codes "last-event-id", codes "6")
      ∷ (codes "x-key", codes "k")
      ∷ [];
}

builds : build_sse_request http options (some (codes "6")) ≡ ok request
unfolding build_sse_request builder with_last_id insert_all finish to_url absolute with_query trim
    starts_with trim_start_matches is_empty insert
builds = refl

abbrev timeout : Text
timeout = codes "connection timed out"

-- Two events, the stream ends, a failure, and the caller stops the worker in the next wait.
abbrev script : List Attempt
script =
    respond
      (record {
        status = 200;
        content_type = some (codes "Text/Event-Stream; charset=utf-8");
        body = stream (codes "data: a" ∷ (10 ∷ 10 ∷ codes "data: b") ∷ []);
        ending = closed;
      })
      false
    ∷ fail timeout false
    ∷ fail timeout true
    ∷ []

run-IsSound_example : IsSoundRun listening options http all_allowed (
    run_sse_worker listening options http all_allowed script
      (start listening options http all_allowed))
run-IsSound_example = run-IsSound listening options http all_allowed script

abbrev opened_worker : Worker
opened_worker = record (start listening options http all_allowed) {
  opened = some (ok (codes "https://api.test"));
}

retries_exhausted_example :
    let (w, ended) =
      run_sse_worker listening options http all_allowed
        (replicate 3 (fail timeout false))
        (start listening options http all_allowed) in
    (ended ≡ true)
    × (w.waited ≡ waits options.reconnect 2)
    × (w.requests ≡ replicate 3 request)
    × (w.opened ≡ some (err (codes "sse request failed: " ++ timeout)))
retries_exhausted_example =
    retries_exhausted listening options http all_allowed request timeout 2 refl refl (omega arith)
      builds refl
