-- ===== src/Sse.antt =====
-- rong_rt/src/sse.rs: server-sent events. The parent has the data; the children the destination,
-- the line parser and the worker that connects, reads and reconnects.
pub mod Destination
pub mod Parse
pub mod Worker
use rong.Base.{ℕ, Bool, true, none, some, Option, List, [], codes}
use rong.Text.{Text}

pub data SseScheme : Type 0 where
  http https : SseScheme

-- `SseScheme::as_str`.
abbrev pub as_str : SseScheme → Text
as_str http = codes "http"
as_str https = codes "https"

pub record SseDestination : Type 0 where
  pub scheme : SseScheme
  pub target : Text
  pub path : Text
  pub query : Option Text

-- `Result<A, String>`.
pub data Result {ℓ} (A : Type ℓ) : Type ℓ where
  ok : A → Result A
  err : Text → Result A

-- Durations are in milliseconds.
pub record SseReconnectOptions : Type 0 where
  pub enabled : Bool
  pub max_retries : Option ℕ
  pub base_delay : ℕ
  pub max_delay : ℕ

-- `impl Default for SseReconnectOptions`.
abbrev pub default_reconnect : SseReconnectOptions
default_reconnect = record {
  enabled = true;
  max_retries = none;
  base_delay = 1000;
  max_delay = 30_000;
}

-- The timeouts go to the HTTP client alone and are left out.
pub record SseConnectOptions : Type 0 where
  pub destination : SseDestination
  pub headers : List (Text × Text)
  pub last_event_id : Option Text
  pub reconnect : SseReconnectOptions

pub record SseEvent : Type 0 where
  pub event : Text
  pub body : Text
  pub id : Option Text
  pub retry_ms : Option ℕ
  pub origin : Text

pub record PendingEvent : Type 0 where
  pub event : Option Text
  pub data_lines : List Text
  pub id : Option Text
  pub retry_ms : Option ℕ

abbrev pub no_pending : PendingEvent
no_pending = record { event = none; data_lines = []; id = none; retry_ms = none }

-- What goes over the event channel: `Result<SseEvent, String>`.
pub data Item : Type 0 where
  event : SseEvent → Item
  failure : Text → Item
