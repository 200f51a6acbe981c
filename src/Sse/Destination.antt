-- ===== src/Sse/Destination.antt =====
-- `SseDestination::to_url` and `parse_destination`. The `url` crate is the parameter `parse_url`.
mod Tests
use rong.Base.{
  ℕ, ◌≡◌, ◌≢◌, ◌⊎◌, inl, inr, refl, Bool, true, false, not, Option, none, some, List, [], ◌∷◌, ◌++◌,
  arith, codes, if◌then◌else◌, ◌==◌, nat_eq, list_eq, append-nil, sym, ap, Bool-cases, nat_beq_iff,
}
use rong.Text.{Text, is_empty, starts_with, trim_start_matches, trim}
use rong.Sse.{SseScheme, http, https, as_str, SseDestination, Result, ok, err}

-- The path that is used: "/" for none, and with a slash before it.
unfoldable pub absolute : Text → Text
absolute path =
    if is_empty path then codes "/" else if not (starts_with b'/' path) then b'/' ∷ path else path

unfoldable pub with_query : Text → Option Text → Text
with_query url none = url
with_query url (some query) =
    let q = trim_start_matches b'?' query in if not (is_empty q) then url ++ b'?' ∷ q else url

unfoldable pub to_url : SseDestination → Result Text
unfolding absolute with_query
to_url d =
    let target = trim d.target in
    if is_empty target
    then err (codes "destination.target cannot be empty")
    else ok
        (with_query (as_str d.scheme ++ codes "://" ++ target ++ absolute (trim d.path)) d.query)

-- What `url::Url` tells of a parsed text; its port is in decimal.
pub record ParsedUrl : Type 0 where
  pub scheme : Text
  pub host : Option Text
  pub port : Option Text
  pub path : Text
  pub query : Option Text

abbrev with_port : Text → Option Text → Text
with_port host none = host
with_port host (some port) = host ++ b':' ∷ port

located : SseScheme → ParsedUrl → Option Text → Result SseDestination
located scheme parsed none = err (codes "sse url must contain a host")
located scheme parsed (some host) = ok (record {
  scheme = scheme;
  target = with_port host parsed.port;
  path = parsed.path;
  query = parsed.query;
})

from_parsed : Result ParsedUrl → Result SseDestination
unfolding located
from_parsed (err e) = err (codes "invalid sse url: " ++ e)
from_parsed (ok parsed) =
    if parsed.scheme == codes "http"
    then located http parsed parsed.host
    else if parsed.scheme == codes "https"
    then located https parsed parsed.host
    else err (codes "unsupported sse url scheme: " ++ parsed.scheme)

pub parse_destination : (Text → Result ParsedUrl) → Text → Result SseDestination
unfolding from_parsed
parse_destination parse_url url = from_parsed (parse_url url)

trim_start_matches-starts_with : (c : ℕ) (s : Text) → starts_with c (trim_start_matches c s) ≡ false
unfolding starts_with trim_start_matches
trim_start_matches-starts_with c [] = refl
trim_start_matches-starts_with c (d ∷ s) = ground (arith, trim_start_matches-starts_with c s)

-- Nothing, or a question mark and a query that is not empty and begins with no question mark.
abbrev pub IsQuery : Text → Type 0
IsQuery rest =
    (rest ≡ []) ⊎ ((q : Text) × (rest ≡ b'?' ∷ q) × (q ≢ []) × (starts_with b'?' q ≡ false))

is_empty→ne-nil : (s : Text) → is_empty s ≡ false → s ≢ []
unfolding is_empty
is_empty→ne-nil [] h = cc
is_empty→ne-nil (c ∷ s) h = λ e. cc

is_empty→eq-nil : (s : Text) → is_empty s ≡ true → s ≡ []
unfolding is_empty
is_empty→eq-nil [] h = refl
is_empty→eq-nil (c ∷ s) h = cc

with_query_lem :
    (url : Text) (query : Option Text)
    → (rest : Text) × (with_query url query ≡ url ++ rest) × IsQuery rest
unfolding with_query
with_query_lem url none = ([], sym (append-nil url), inl refl)
with_query_lem url (some query) = elim (Bool-cases (is_empty (trim_start_matches b'?' query))) [
  | inl e ↦ ([], rw e (sym (append-nil url)), inl refl)
  | inr e ↦ (
    b'?' ∷ trim_start_matches b'?' query,
    rw e,
    inr (
      trim_start_matches b'?' query,
      refl,
      is_empty→ne-nil _ e,
      trim_start_matches-starts_with b'?' query,
    ),
  )
]

starts_with-absolute : (path : Text) → starts_with b'/' (absolute path) ≡ true
unfolding starts_with absolute
starts_with-absolute path = ground arith

-- A URL is made exactly when the trimmed target is not empty. It consists of the scheme, that
-- target, a path that begins with a slash, and then nothing, or a question mark and a query that is
-- not empty and begins with no question mark.
pub to_url_shape :
    (d : SseDestination)
    → ((trim d.target ≡ []) × (to_url d ≡ err (codes "destination.target cannot be empty")))
      ⊎ ((trim d.target ≢ [])
          × ((path : Text) × (rest : Text) × (to_url d
                ≡ ok ((as_str d.scheme ++ codes "://" ++ trim d.target ++ path) ++ rest))
              × (starts_with b'/' path ≡ true)
              × IsQuery rest))
unfolding to_url
to_url_shape d = elim (Bool-cases (is_empty (trim d.target))) [
  | inl e ↦ inl (is_empty→eq-nil _ e, rw e)
  | inr e ↦
      let path = absolute (trim d.path) in
      let (rest, made, query) =
        with_query_lem (as_str d.scheme ++ codes "://" ++ trim d.target ++ path) d.query in
      inr (
        is_empty→ne-nil _ e,
        (path, rest, rw e (ap ok made), starts_with-absolute (trim d.path), query),
      )
]
