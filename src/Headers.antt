-- ===== src/Headers.antt =====
-- modules/rong_http/src/header.rs. The map of the http crate, and its parsing of names and values,
-- are parameters: `HeaderMap` says what the code relies on.
pub mod Calls
pub mod Tests
use rong.Base.{
  ℕ, ◌≡◌, Bool, true, false, not, Option, none, some, List, [], ◌∷◌, ◌++◌, contains, if◌then◌else◌,
  PartialEq, ◌==◌, nat_eq, codes,
}
use rong.Text.{Text, join}

abbrev pub is_nil {ℓ} : {A : Type ℓ} → List A → Bool
is_nil [] = true
is_nil (a ∷ l) = false

-- A multimap from header names to values.
pub record HeaderMap (N V : Type 0) ⦃e : PartialEq N⦄ (M : Type 0) : Type 0 where
  pub new_map : M
  pub append_to : N → V → M → M
  pub insert_to : N → V → M → M
  pub remove_from : N → M → M
  pub get_all : N → M → List V
  pub contains_key : N → M → Bool
  pub get_all-new_map : (k : N) → get_all k new_map ≡ []
  pub get_all-append_to :
      (k n : N) (v : V) (m : M)
      → get_all k (append_to n v m) ≡ (if n == k then get_all k m ++ v ∷ [] else get_all k m)
  pub get_all-insert_to :
      (k n : N) (v : V) (m : M)
      → get_all k (insert_to n v m) ≡ (if n == k then v ∷ [] else get_all k m)
  pub get_all-remove_from :
      (k n : N) (m : M) → get_all k (remove_from n m) ≡ (if n == k then [] else get_all k m)
  pub contains_key-get_all : (k : N) (m : M) → contains_key k m ≡ not (is_nil (get_all k m))

-- `HeaderName::try_from`, `HeaderValue::try_from` and `HeaderValue::to_str`.
pub record Parsing (N V : Type 0) : Type 0 where
  pub name_of : Text → Option N
  pub value_of : Text → Option V
  pub to_str : V → Option Text

pub data HeaderError : Type 0 where
  invalid_name invalid_value null_value invalid_pair invalid_init : HeaderError

-- What a method returns, or the TypeError that it throws.
pub data Returned {ℓ} (A : Type ℓ) : Type ℓ where
  returns : A → Returned A
  throws : HeaderError → Returned A

-- An item of an array of pairs: its length is not 2, an element is missing, or it is a pair.
pub data PairItem : Type 0 where
  not_pair wrong_length no_name no_value : PairItem
  pair : Text → Text → PairItem

module _ {N V : Type 0} ⦃e : PartialEq N⦄ {M : Type 0} (http : HeaderMap N V M)
    (parse : Parsing N V) where
  abbrev append_parsed : Option N → Option V → M → Returned M
  append_parsed (some name) (some value) m = returns (http.append_to name value m)
  append_parsed none value m = throws invalid_name
  append_parsed (some name) none m = throws invalid_value

  unfoldable pub append : Text → Text → M → Returned M
  append name value = append_parsed (parse.name_of name) (parse.value_of value)

  abbrev delete_parsed : Option N → M → Returned M
  delete_parsed (some name) m = returns (http.remove_from name m)
  delete_parsed none m = throws invalid_name

  unfoldable pub delete : Text → M → Returned M
  delete name = delete_parsed (parse.name_of name)

  abbrev insert_parsed : Option N → Option V → M → Returned M
  insert_parsed (some name) (some value) m = returns (http.insert_to name value m)
  insert_parsed none value m = throws invalid_name
  insert_parsed (some name) none m = throws invalid_value

  unfoldable pub set : Text → Text → M → Returned M
  set name value m =
      if contains 0 value
      then throws null_value
      else insert_parsed (parse.name_of name) (parse.value_of value) m

  abbrev has_parsed : Option N → M → Returned Bool
  has_parsed (some name) m = returns (http.contains_key name m)
  has_parsed none m = throws invalid_name

  unfoldable pub has : Text → M → Returned Bool
  has name = has_parsed (parse.name_of name)

  -- `filter_map(|v| v.to_str().ok())`.
  abbrev cons_some : Option Text → List Text → List Text
  cons_some none l = l
  cons_some (some s) l = s ∷ l

  unfoldable pub texts : List V → List Text
  texts [] = []
  texts (v ∷ vs) = cons_some (parse.to_str v) (texts vs)

  abbrev pub joined : List Text → Option Text
  joined [] = none
  joined (s ∷ l) = some (join (codes ", ") (s ∷ l))

  abbrev get_parsed : Option N → M → Returned (Option Text)
  get_parsed (some name) m = returns (joined (texts (http.get_all name m)))
  get_parsed none m = throws invalid_name

  unfoldable pub get : Text → M → Returned (Option Text)
  unfolding texts
  get name = get_parsed (parse.name_of name)

  -- With the name `set-cookie`.
  unfoldable pub get_set_cookie : N → M → List Text
  unfolding texts
  get_set_cookie set_cookie m = texts (http.get_all set_cookie m)

  abbrev pub bind : Returned M → (M → Returned M) → Returned M
  bind (returns m) f = f m
  bind (throws x) f = throws x

  abbrev append_item : PairItem → M → Returned M
  append_item not_pair m = throws invalid_pair
  append_item wrong_length m = throws invalid_pair
  append_item no_name m = throws invalid_name
  append_item no_value m = throws invalid_value
  append_item (pair name value) m = append_parsed (parse.name_of name) (parse.value_of value) m

  unfoldable pub append_items : List PairItem → M → Returned M
  append_items [] m = returns m
  append_items (item ∷ items) m = bind (append_item item m) (append_items items)

  -- The constructor, of an array of pairs; the entries of an object are such pairs too.
  unfoldable pub new : List PairItem → Returned M
  unfolding append_items
  new items = append_items items http.new_map
