-- ===== src/Sse/Parse/Tests.antt =====
-- A stream's bytes at concrete inputs.
use rong.Base.{
  ℕ, ◌≡◌, refl, Bool, true, false, none, some, List, [], ◌∷◌, ◌++◌, codes, arith, nat_eq, list_eq,
}
use rong.Text.{Text, is_empty, starts_with, strip_prefix, split_once, join}
use rong.Text.Utf8.{from_utf8_lossy}
use rong.Text.Number.{parse_u64}
use rong.Sse.{https, SseDestination, Item, event, no_pending}
use rong.Sse.Parse.{
  Session, split_line, pop_cr, add_field, origin_of, finished_event, taken, send, flush_data,
  flush_pending_event, process_text, process_line, parse_lines, parse_available_events, feed,
  or_message, id_after,
}
use rong.Sse.Parse.Scan.{then_feed, feed-append}
use rong.Sse.Parse.Delay.{Progress, feed-Progress}
use rong.Sse.Parse.RoundTrip.{fresh, feed-encode}
use rong.Sse.Parse.RoundTrip.Encode.{Wire, encode}

abbrev api : SseDestination
api = record { scheme = https; target = codes "api.test"; path = codes "/v1"; query = none }

abbrev idle : Session
idle = record {
  line_buf = [];
  pending = no_pending;
  last_event_id = some (codes "6");
  reconnect_delay_ms = 1000;
  sent = [];
}

-- A consumer that takes one item and goes.
abbrev takes_one : List Item → Bool
takes_one sent = is_empty_items sent
  where
    is_empty_items : List Item → Bool
    is_empty_items [] = true
    is_empty_items (i ∷ is) = false

abbrev line : Text → List ℕ
line t = t ++ 10 ∷ []

abbrev sample : List ℕ
sample =
    line (codes ": hello")
    ++ line (codes "retry: 90000")
    ++ line (codes "data:a")
    ++ line (codes "data: b")
    ++ line []
    ++ codes "da"

runs : Unit {0}
unfolding split_line pop_cr add_field origin_of finished_event taken send flush_data
    flush_pending_event process_text process_line parse_lines parse_available_events feed is_empty
    starts_with strip_prefix split_once join from_utf8_lossy parse_u64
runs = tt

-- The delay that the server asks for is capped, and the rest of the chunk waits in the buffer.
feed-sample : feed takes_one 30_000 api sample idle ≡ (
  record idle {
    line_buf = codes "da";
    reconnect_delay_ms = 30_000;
    sent =
        event (record {
          event = codes "message";
          body = codes "a" ++ 10 ∷ codes "b";
          id = some (codes "6");
          retry_ms = some 30_000;
          origin = codes "https://api.test";
        })
        ∷ [];
  },
  none,
)
unfolding runs
feed-sample = refl

feed-append_example :
    feed takes_one 30_000 api (codes "dat" ++ codes "a: x") idle
    ≡ then_feed takes_one 30_000 api (codes "a: x") (feed takes_one 30_000 api (codes "dat") idle)
feed-append_example = feed-append takes_one 30_000 api (codes "dat") (codes "a: x") idle tt

feed-Progress_example : Progress takes_one 30_000 api idle (feed takes_one 30_000 api sample idle).0
feed-Progress_example = feed-Progress takes_one 30_000 api sample idle (omega arith) (omega arith)

abbrev greeting : Wire
greeting = record {
  name = some (codes "hi");
  id = some (codes "7");
  first = codes "a";
  others = codes "b:c" ∷ [];
}

feed-encode_example :
    feed takes_one 30_000 api (encode greeting) (fresh takes_one 30_000 api idle) ≡ (
      record (fresh takes_one 30_000 api idle) {
        last_event_id = id_after greeting.id idle.last_event_id;
        sent =
            idle.sent
            ++ event (record {
              event = or_message greeting.name;
              body = join (10 ∷ []) (greeting.first ∷ greeting.others);
              id = id_after greeting.id idle.last_event_id;
              retry_ms = some idle.reconnect_delay_ms;
              origin = origin_of api;
            })
              ∷ [];
      },
      none,
    )
feed-encode_example =
    feed-encode takes_one 30_000 api greeting idle (omega arith) (omega arith) (omega arith)
      (omega arith) refl
