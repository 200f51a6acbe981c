-- ===== src/Url.antt =====
-- modules/rong_url: `URLSearchParams` and the part of `URL` that shares its query with one. The
-- parent has the state and the operations; the children what holds of them.
pub mod Set
pub mod Sort
pub mod Sync
mod Tests
use rong.Base.{
  ℕ, zero, suc, ◌+◌, ◌%◌, ◌^◌, Bool, true, false, not, ◌&&◌, ◌||◌, Option, none, some, List, [],
  ◌∷◌, ◌++◌, map, if◌then◌else◌, ◌==◌, nat_eq, list_eq, ltb, length, retain, any,
}
use rong.Text.{Text, is_empty, strip_prefix}

abbrev pub Pairs : Type 0
Pairs = List (Text × Text)

-- What the `url` crate offers: the pairs of a URL's query, setting the query, a query in the form
-- encoding, and reading one.
pub record UrlCrate (U : Type 0) : Type 0 where
  pub query_pairs : U → Pairs
  pub set_query : Option Text → U → U
  pub serialize : Pairs → Text
  pub parse : Text → Pairs

-- `shared_data` is whether the parameters belong to a URL, which is passed beside them.
pub record UrlSearchParams : Type 0 where
  pub params : Pairs
  pub shared_data : Bool

-- `inner` is the URL that both share; `search_params` the parameters that were asked for first.
pub record Url (U : Type 0) : Type 0 where
  pub inner : U
  pub search_params : Option UrlSearchParams

abbrev named : Text → Text × Text → Bool
named name pair = pair.0 == name

abbrev first_value : Pairs → Option Text
first_value [] = none
first_value ((k, v) ∷ pairs) = some v

pub get : Text → Pairs → Option Text
get name pairs = first_value (retain (named name) pairs)

pub get_all : Text → Pairs → List Text
get_all name pairs = map (λ pair. pair.1) (retain (named name) pairs)

pub has : Text → Pairs → Bool
has name pairs = any (named name) pairs

-- `len() as u32`.
pub size : Pairs → ℕ
size pairs = length pairs % 2 ^ 32

pub keys : Pairs → List Text
keys pairs = map (λ pair. pair.0) pairs

pub values : Pairs → List Text
values pairs = map (λ pair. pair.1) pairs

pub append_pair : Text → Text → Pairs → Pairs
append_pair name value pairs = pairs ++ (name, value) ∷ []

pub delete_name : Text → Pairs → Pairs
delete_name name pairs = retain (λ pair. not (named name pair)) pairs

unfoldable pub pair_at : ℕ → Pairs → Option (Text × Text)
pair_at i [] = none
pair_at zero (pair ∷ pairs) = some pair
pair_at (suc i) (pair ∷ pairs) = pair_at i pairs

-- `params[i].1 = value`.
unfoldable pub replace_at : ℕ → Text → Pairs → Pairs
replace_at i value [] = []
replace_at zero value ((k, v) ∷ pairs) = (k, value) ∷ pairs
replace_at (suc i) value (pair ∷ pairs) = pair ∷ replace_at i value pairs

-- `params.remove(i)`.
unfoldable pub remove_at : ℕ → Pairs → Pairs
remove_at i [] = []
remove_at zero (pair ∷ pairs) = pairs
remove_at (suc i) (pair ∷ pairs) = pair ∷ remove_at i pairs

-- The variables of the loop of `set`.
pub record Cursor : Type 0 where
  pub i : ℕ
  pub found : Bool
  pub params : Pairs

abbrev pub advance : Text → Text → Text → Cursor → Cursor
advance name value key c =
    if key == name
    then (if not c.found
        then record { i = c.i + 1; found = true; params = replace_at c.i value c.params }
        else record c { params = remove_at c.i c.params })
    else record c { i = c.i + 1 }

-- `while i < params.len()`, on fuel: `none` when the fuel is spent before the loop has ended.
unfoldable pub set_loop : ℕ → Text → Text → Cursor → Option Cursor
set_loop zero name value c = none
set_loop (suc fuel) name value c = elim (pair_at c.i c.params) [
  | none ↦ some c
  | some pair ↦ set_loop fuel name value (advance name value pair.0 c)
]

-- The fuel of `set`: a round for each pair, and one for the end.
abbrev pub set_from_start : Text → Text → Pairs → Option Cursor
set_from_start name value pairs =
    set_loop (length pairs + 1) name value (record { i = 0; found = false; params = pairs })

abbrev pub set_rest : Text → Text → Pairs → Option Cursor → Pairs
set_rest name value pairs none = pairs
set_rest name value pairs (some c) =
    if not c.found then c.params ++ (name, value) ∷ [] else c.params

pub set_pair : Text → Text → Pairs → Pairs
set_pair name value pairs = set_rest name value pairs (set_from_start name value pairs)

-- `String`'s order: code points are ordered as their UTF-8 bytes are.
abbrev pub lt_text : Text → Text → Bool
lt_text [] [] = false
lt_text [] (d ∷ t) = true
lt_text (c ∷ s) [] = false
lt_text (c ∷ s) (d ∷ t) = ltb c d || ((c == d) && lt_text s t)

-- A stable sort by name, as `sort_by` is.
unfoldable pub place : Text × Text → Pairs → Pairs
place pair [] = pair ∷ []
place pair (other ∷ pairs) =
    if lt_text other.0 pair.0 then other ∷ place pair pairs else pair ∷ other ∷ pairs

unfoldable pub sort_pairs : Pairs → Pairs
sort_pairs [] = []
sort_pairs (pair ∷ pairs) = place pair (sort_pairs pairs)

abbrev query_of : Text → Option Text
query_of s = if is_empty s then none else some s

module _ {U : Type 0} (crate : UrlCrate U) where
  pub to_string : Pairs → Text
  to_string [] = []
  to_string (pair ∷ pairs) = crate.serialize (pair ∷ pairs)

  abbrev pub from_query : Text → Pairs
  from_query query = if is_empty query then [] else crate.parse query

  -- `new URLSearchParams(query)`.
  pub new_from_string : Text → UrlSearchParams
  new_from_string query = record {
    params = from_query (strip_prefix b'?' query);
    shared_data = false;
  }

  pub from_shared_data : U → UrlSearchParams
  from_shared_data url = record { params = crate.query_pairs url; shared_data = true }

  abbrev pub sync_shared : Bool → Pairs → U → U
  sync_shared false pairs url = url
  sync_shared true pairs url = crate.set_query (query_of (to_string pairs)) url

  -- An operation that changes the parameters, and then the URL that they belong to.
  abbrev pub changed : (Pairs → Pairs) → UrlSearchParams → U → UrlSearchParams × U
  changed f p url = (record p { params = f p.params }, sync_shared p.shared_data (f p.params) url)

  pub append : Text → Text → UrlSearchParams → U → UrlSearchParams × U
  unfolding append_pair to_string
  append name value p url = changed (append_pair name value) p url

  pub delete : Text → UrlSearchParams → U → UrlSearchParams × U
  unfolding delete_name to_string
  delete name p url = changed (delete_name name) p url

  pub set : Text → Text → UrlSearchParams → U → UrlSearchParams × U
  unfolding set_pair to_string
  set name value p url = changed (set_pair name value) p url

  pub sort : UrlSearchParams → U → UrlSearchParams × U
  unfolding sort_pairs to_string
  sort p url = changed sort_pairs p url

  abbrev pub params_or : Option UrlSearchParams → U → UrlSearchParams
  params_or none url = from_shared_data url
  params_or (some p) url = p

  -- The getter `searchParams`: a clone of the parameters that were asked for first.
  pub search_params : Url U → UrlSearchParams × Url U
  unfolding from_shared_data
  search_params url =
      let p = params_or url.search_params url.inner in (p, record url { search_params = some p })

  -- The setter `search`.
  pub set_search : Text → Url U → Url U
  set_search value url = record {
    inner = crate.set_query (query_of (strip_prefix b'?' value)) url.inner;
    search_params = none;
  }
