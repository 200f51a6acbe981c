-- ===== src/Sse/Worker/Build.antt =====
-- `build_sse_request`. The `http` crate is the parameter `Http`.
use rong.Base.{ℕ, Option, none, some, List, [], ◌∷◌, ◌++◌, codes, if◌then◌else◌, nat_eq, list_eq}
use rong.Base.Assoc.{insert}
use rong.Text.{Text, is_empty}
use rong.Sse.{SseConnectOptions, Result, ok, err}
use rong.Sse.Destination.{to_url}

-- What the `http` crate tells of a text: the name of a header in lower case, a value's bytes, why a
-- text is no URI; and the `User-Agent`, and how a status is printed.
pub record Http : Type 0 where
  pub header_name : Text → Result Text
  pub header_value : Text → Result Text
  pub uri_error : Text → Option Text
  pub user_agent : Text
  pub status_text : ℕ → Text

pub record Request : Type 0 where
  pub uri : Text
  pub headers : List (Text × Text)

infixl 5 ◌>>=◌
abbrev pub ◌>>=◌ {ℓ κ} : {A : Type ℓ} {B : Type κ} → Result A → (A → Result B) → Result B
ok a >>= f = f a
err e >>= f = err e

-- `map_err(|e| format!("…{}", e))`.
abbrev with_context {ℓ} : {A : Type ℓ} → Text → Result A → Result A
with_context what (ok a) = ok a
with_context what (err e) = err (what ++ e)

abbrev pub bad_name : Text → Text
bad_name name = codes "invalid sse header name '" ++ name ++ codes "': "

abbrev pub bad_value : Text → Text
bad_value name = codes "invalid sse header '" ++ name ++ codes "' value: "

module _ (http : Http) where
  -- `Request::builder()` with the three fixed headers: a bad URI is kept until `body`.
  unfoldable pub builder : Text → Option Text → Result (List (Text × Text))
  builder uri (some e) = err e
  builder uri none = ok (
      (codes "accept", codes "text/event-stream")
      ∷ (codes "cache-control", codes "no-cache")
      ∷ (codes "user-agent", http.user_agent)
      ∷ [])

  unfoldable pub with_last_id :
      Option Text → Result (List (Text × Text)) → Result (List (Text × Text))
  with_last_id none b = b
  with_last_id (some id) b = if is_empty id then b else (do
    headers ← b
    value ← http.header_value id
    ok (headers ++ (codes "last-event-id", value) ∷ []))

  -- The caller's headers: a later one takes the place of an earlier one of that name.
  unfoldable pub insert_all : List (Text × Text) → List (Text × Text) → Result (List (Text × Text))
  insert_all [] headers = ok headers
  insert_all ((name, value) ∷ more) headers = do
    key ← with_context (bad_name name) (http.header_name name)
    val ← with_context (bad_value name) (http.header_value value)
    insert_all more (insert key val headers)

  -- `headers_mut` is `None` after an error, which `body` then reports.
  unfoldable pub finish : Text → List (Text × Text) → Result (List (Text × Text)) → Result Request
  finish uri headers (err e) = err (codes "failed to build sse request: " ++ e)
  finish uri headers (ok base) = do
    all ← insert_all headers base
    ok (record { uri = uri; headers = all })

  unfoldable pub build_sse_request : SseConnectOptions → Option Text → Result Request
  unfolding builder with_last_id insert_all finish
  build_sse_request options last_event_id = do
    uri ← to_url options.destination
    finish uri options.headers (with_last_id last_event_id (builder uri (http.uri_error uri)))
