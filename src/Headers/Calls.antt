-- ===== src/Headers/Calls.antt =====
-- Headers under calls in any order, against the list of values that each name should have.
use rong.Base.{
  ◌≡◌, ◌∙◌, ap, refl, inl, inr, true, not, Option, none, some, List, [], ◌∷◌, ◌++◌, map, contains,
  if◌then◌else◌, PartialEq, ◌==◌, nat_eq, Bool-cases, All,
}
use rong.Text.{Text}
use rong.Headers.{
  is_nil, HeaderMap, Parsing, HeaderError, invalid_name, invalid_value, invalid_pair, Returned,
  returns, throws, PairItem, not_pair, wrong_length, no_name, no_value, pair, append_parsed, append,
  delete_parsed, delete, insert_parsed, set, has, texts, joined, get, bind, append_item,
  append_items, new,
}

pub data HeaderCall : Type 0 where
  appends sets : Text → Text → HeaderCall
  deletes : Text → HeaderCall

module _ {N V : Type 0} ⦃e : PartialEq N⦄ {M : Type 0} (http : HeaderMap N V M)
    (parse : Parsing N V) where
  -- A method that throws leaves the headers as they are.
  abbrev or_same : Returned M → M → M
  or_same (returns m) old = m
  or_same (throws x) old = old

  unfoldable pub call : HeaderCall → M → M
  call (appends name value) m = or_same (append http parse name value m) m
  call (sets name value) m = or_same (set http parse name value m) m
  call (deletes name) m = or_same (delete http parse name m) m

  unfoldable pub run : List HeaderCall → M → M
  run [] m = m
  run (c ∷ cs) m = run cs (call c m)

  -- What one call does to the values of the name `k`.
  abbrev added : N → List V → Option N → Option V → List V
  added k vs (some n) (some v) = if n == k then vs ++ v ∷ [] else vs
  added k vs none v = vs
  added k vs (some n) none = vs

  abbrev replaced : N → List V → Option N → Option V → List V
  replaced k vs (some n) (some v) = if n == k then v ∷ [] else vs
  replaced k vs none v = vs
  replaced k vs (some n) none = vs

  abbrev dropped : N → List V → Option N → List V
  dropped k vs (some n) = if n == k then [] else vs
  dropped k vs none = vs

  abbrev values_of : N → HeaderCall → List V → List V
  values_of k (appends name value) vs = added k vs (parse.name_of name) (parse.value_of value)
  values_of k (sets name value) vs =
      if contains 0 value then vs else replaced k vs (parse.name_of name) (parse.value_of value)
  values_of k (deletes name) vs = dropped k vs (parse.name_of name)

  unfoldable pub values_after : N → List HeaderCall → List V → List V
  values_after k [] vs = vs
  values_after k (c ∷ cs) vs = values_after k cs (values_of k c vs)

  append-values :
      (k : N) (n : Option N) (v : Option V) (m : M)
      → http.get_all k (or_same (append_parsed http parse n v m) m) ≡ added k (http.get_all k m) n v
  append-values k (some n) (some v) m = http.get_all-append_to k n v m
  append-values k none v m = refl
  append-values k (some n) none m = refl

  insert-values :
      (k : N) (n : Option N) (v : Option V) (m : M)
      → http.get_all k (or_same (insert_parsed http parse n v m) m)
        ≡ replaced k (http.get_all k m) n v
  insert-values k (some n) (some v) m = http.get_all-insert_to k n v m
  insert-values k none v m = refl
  insert-values k (some n) none m = refl

  delete-values :
      (k : N) (n : Option N) (m : M)
      → http.get_all k (or_same (delete_parsed http parse n m) m) ≡ dropped k (http.get_all k m) n
  delete-values k (some n) m = http.get_all-remove_from k n m
  delete-values k none m = refl

  call-values :
      (k : N) (c : HeaderCall) (m : M)
      → http.get_all k (call c m) ≡ values_of k c (http.get_all k m)
  unfolding call append set delete
  call-values k (appends name value) m =
      append-values k (parse.name_of name) (parse.value_of value) m
  call-values k (sets name value) m = elim (Bool-cases (contains 0 value)) [
    | inl f ↦ rw f refl
    | inr f ↦ rw f (insert-values k (parse.name_of name) (parse.value_of value) m)
  ]
  call-values k (deletes name) m = delete-values k (parse.name_of name) m

  run-values :
      (k : N) (cs : List HeaderCall) (m : M)
      → http.get_all k (run cs m) ≡ values_after k cs (http.get_all k m)
  unfolding run values_after
  run-values k [] m = refl
  run-values k (c ∷ cs) m = run-values k cs (call c m) ∙ ap (values_after k cs) (call-values k c m)

  -- The calls since the headers were empty, each with the name and the value as they are written,
  -- determine the values of a name, in order: `append` adds one, `set` replaces all, `delete`
  -- removes them, a call with an invalid name or value, or a `set` with a null character, changes
  -- nothing. For every spelling of the name, `has` says whether there are values, and `get` gives
  -- those that are text, joined, or null when there is none.
  pub get-run :
      (cs : List HeaderCall) (name : Text) (k : N)
      → parse.name_of name ≡ some k
      → (has http parse name (run cs http.new_map) ≡ returns (not (is_nil (values_after k cs []))))
        × (get http parse name (run cs http.new_map)
            ≡ returns (joined http parse (texts http parse (values_after k cs []))))
  unfolding has get
  get-run cs name k h =
      let f : http.get_all k (run cs http.new_map) ≡ values_after k cs [] =
        run-values k cs http.new_map ∙ ap (values_after k cs) (http.get_all-new_map k) in
      rw (h, http.contains_key-get_all k (run cs http.new_map), f) (refl, refl)

  abbrev parsed_error : Option N → Option V → Option HeaderError
  parsed_error none v = some invalid_name
  parsed_error (some n) none = some invalid_value
  parsed_error (some n) (some v) = none

  item_error : PairItem → Option HeaderError
  item_error not_pair = some invalid_pair
  item_error wrong_length = some invalid_pair
  item_error no_name = some invalid_name
  item_error no_value = some invalid_value
  item_error (pair name value) = parsed_error (parse.name_of name) (parse.value_of value)

  abbrev or_else : Option HeaderError → Option HeaderError → Option HeaderError
  or_else none x = x
  or_else (some x) y = some x

  unfoldable pub first_error : List PairItem → Option HeaderError
  unfolding item_error
  first_error [] = none
  first_error (item ∷ items) = or_else (item_error item) (first_error items)

  abbrev call_of : PairItem → HeaderCall
  call_of (pair name value) = appends name value
  call_of not_pair = deletes []
  call_of wrong_length = deletes []
  call_of no_name = deletes []
  call_of no_value = deletes []

  abbrev pub throws_or : Option HeaderError → M → Returned M
  throws_or none m = returns m
  throws_or (some x) m = throws x

  append_parsed_lem :
      (n : Option N) (v : Option V) (m : M)
      → append_parsed http parse n v m
        ≡ throws_or (parsed_error n v) (or_same (append_parsed http parse n v m) m)
  append_parsed_lem none v m = refl
  append_parsed_lem (some n) none m = refl
  append_parsed_lem (some n) (some v) m = refl

  append_item_lem :
      (item : PairItem) (m : M)
      → append_item http parse item m ≡ throws_or (item_error item) (call (call_of item) m)
  unfolding item_error call append
  append_item_lem not_pair m = refl
  append_item_lem wrong_length m = refl
  append_item_lem no_name m = refl
  append_item_lem no_value m = refl
  append_item_lem (pair name value) m =
      append_parsed_lem (parse.name_of name) (parse.value_of value) m

  bind_lem :
      (x y : Option HeaderError) (m r : M) (f : M → Returned M)
      → f m ≡ throws_or y r
      → bind http parse (throws_or x m) f ≡ throws_or (or_else x y) r
  bind_lem none y m r f h = h
  bind_lem (some x) y m r f h = refl

  append_items_lem :
      (items : List PairItem) (m : M)
      → append_items http parse items m ≡ throws_or (first_error items) (run (map call_of items) m)
  unfolding append_items first_error run
  append_items_lem [] m = refl
  append_items_lem (item ∷ items) m =
      ap (λ r. bind http parse r (append_items http parse items)) (append_item_lem item m)
      ∙ bind_lem (item_error item) (first_error items) (call (call_of item) m)
          (run (map call_of items) (call (call_of item) m)) (append_items http parse items)
          (append_items_lem items (call (call_of item) m))

  -- Headers made from an array of pairs are what appending the pairs one by one makes of empty
  -- headers; the constructor throws, with the error of the first bad item, when an item is no pair,
  -- or its name or its value is missing or invalid.
  pub new_lem :
      (items : List PairItem)
      → new http parse items ≡ throws_or (first_error items) (run (map call_of items) http.new_map)
  unfolding new
  new_lem items = append_items_lem items http.new_map

  no_texts : (vs : List V) → All (λ v. parse.to_str v ≡ none) vs → texts http parse vs ≡ []
  unfolding texts
  no_texts [] h = refl
  no_texts (v ∷ vs) h = rw (h.0, no_texts vs h.1) refl

  -- After appending to empty headers a value that `to_str` refuses, as it is not visible ASCII,
  -- `has` says true for the name, and `get` gives null.
  pub get-has :
      (name value : Text) (k : N) (v : V)
      → parse.name_of name ≡ some k
      → parse.value_of value ≡ some v
      → parse.to_str v ≡ none
      → (has http parse name (run (appends name value ∷ []) http.new_map) ≡ returns true)
        × (get http parse name (run (appends name value ∷ []) http.new_map) ≡ returns none)
  unfolding values_after
  get-has name value k v h f g =
      let r = get-run (appends name value ∷ []) name k h in
      let s : values_after k (appends name value ∷ []) [] ≡ v ∷ [] =
        rw (h, f, (e.eq_iff k k).1 refl) refl in
      (
        r.0 ∙ ap (λ l. returns (not (is_nil l))) s,
        r.1
            ∙ ap (λ l. returns (joined http parse (texts http parse l))) s
            ∙ rw (no_texts (v ∷ []) (g, tt)) refl,
      )
