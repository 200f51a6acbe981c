-- ===== src/Sse/Destination/Tests.antt =====
-- URLs of concrete destinations.
use rong.Base.{◌≡◌, refl, some, codes}
use rong.Text.{trim, starts_with, trim_start_matches, is_empty}
use rong.Sse.{https, SseDestination, ok}
use rong.Sse.Destination.{to_url}

abbrev events : SseDestination
events = record {
  scheme = https;
  target = codes " api.test:8443 ";
  path = codes "v1/events";
  query = some (codes "??x=1");
}

to_url_runs : to_url events ≡ ok (codes "https://api.test:8443/v1/events?x=1")
unfolding to_url trim starts_with trim_start_matches is_empty
to_url_runs = refl
