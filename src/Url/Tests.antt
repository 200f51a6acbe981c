-- ===== src/Url/Tests.antt =====
-- Parameters over a small encoding of queries, in which every pair can be read back.
use rong.Base.{
  ℕ, zero, suc, ◌≡◌, refl, ap, sym, ◌∙◌, Bool, true, false, Option, none, some, List, [], ◌∷◌, ◌++◌,
  map, codes, append_assoc, append-nil, if◌then◌else◌, ◌==◌, nat_eq, list_eq,
}
use rong.Text.{Text, is_empty}
use rong.Url.{
  Pairs, UrlCrate, UrlSearchParams, Url, query_of, to_string, get_all, pair_at, replace_at,
  remove_at, set_loop, set_pair, Cursor, set_from_start, place, sort_pairs, append_pair,
}
use rong.Url.Set.{get_all-set_pair}
use rong.Url.Sort.{IsSorted, sort_pairs_lem}
use rong.Url.Sync.{appended, deleted, sorted, all_after, run, run_lem, edit, edit-edit}

-- A name, 0, a value, 1; the characters are moved up by two.
abbrev shift : Text → List ℕ
shift s = map (λ c. suc (suc c)) s

abbrev body : Pairs → List ℕ
body [] = []
body ((k, v) ∷ pairs) = shift k ++ zero ∷ (shift v ++ suc zero ∷ body pairs)

abbrev read : Bool → Text → Text → List ℕ → Pairs
read in_value k v [] = []
read false k v (zero ∷ s) = read true k [] s
read false k v (suc zero ∷ s) = []
read false k v (suc (suc c) ∷ s) = read false (k ++ c ∷ []) v s
read true k v (zero ∷ s) = []
read true k v (suc zero ∷ s) = (k, v) ∷ read false [] [] s
read true k v (suc (suc c) ∷ s) = read true k (v ++ c ∷ []) s

read-key :
    (k j v : Text) (s : List ℕ) → read false j v (shift k ++ zero ∷ s) ≡ read true (j ++ k) [] s
read-key [] j v s = ap (λ n. read true n [] s) (sym (append-nil j))
read-key (c ∷ k) j v s =
    read-key k (j ++ c ∷ []) v s ∙ ap (λ n. read true n [] s) (append_assoc j (c ∷ []) k)

read-value :
    (v k u : Text) (s : List ℕ)
    → read true k u (shift v ++ suc zero ∷ s) ≡ (k, u ++ v) ∷ read false [] [] s
read-value [] k u s = ap (λ n. (k, n) ∷ read false [] [] s) (sym (append-nil u))
read-value (c ∷ v) k u s =
    read-value v k (u ++ c ∷ []) s
    ∙ ap (λ n. (k, n) ∷ read false [] [] s) (append_assoc u (c ∷ []) v)

read-body : (pairs : Pairs) → read false [] [] (body pairs) ≡ pairs
read-body [] = refl
read-body ((k, v) ∷ pairs) =
    read-key k [] [] (shift v ++ suc zero ∷ body pairs)
    ∙ read-value v k [] (body pairs)
    ∙ ap (◌∷◌ (k, v)) (read-body pairs)

abbrev read_query : Option Text → Pairs
read_query none = []
read_query (some []) = []
read_query (some (c ∷ s)) = read false [] [] s

-- A URL is the pairs of its query.
abbrev crate : UrlCrate Pairs
crate = record {
  query_pairs = λ url. url;
  set_query = λ query url. read_query query;
  serialize = λ pairs. b'?' ∷ body pairs;
  parse = λ query. read_query (some query);
}

reads_back :
    (pairs : Pairs) (url : Pairs)
    → crate.query_pairs (crate.set_query (query_of (to_string crate pairs)) url) ≡ pairs
unfolding to_string is_empty
reads_back [] url = refl
reads_back (p ∷ pairs) url = read-body (p ∷ pairs)

abbrev sample : Pairs
sample = (codes "b", codes "1") ∷ (codes "a", codes "2") ∷ (codes "b", codes "3") ∷ []

set_sample :
    set_pair (codes "b") (codes "9") sample ≡ (codes "b", codes "9") ∷ (codes "a", codes "2") ∷ []
unfolding set_pair set_loop pair_at replace_at remove_at
set_sample = refl

sort_sample :
    sort_pairs sample
    ≡ (codes "a", codes "2") ∷ (codes "b", codes "1") ∷ (codes "b", codes "3") ∷ []
unfolding sort_pairs place
sort_sample = refl

get_all-set_pair_example :
    ((c : Cursor) × (set_from_start (codes "b") (codes "9") sample ≡ some c))
    × (get_all (codes "a") (set_pair (codes "b") (codes "9") sample)
        ≡ (if codes "b" == codes "a" then codes "9" ∷ [] else get_all (codes "a") sample))
get_all-set_pair_example = get_all-set_pair (codes "b") (codes "9") (codes "a") sample

sort_pairs_lem_example :
    IsSorted (sort_pairs sample) × ((j : Text) → get_all j (sort_pairs sample) ≡ get_all j sample)
sort_pairs_lem_example = sort_pairs_lem sample

abbrev shared : UrlSearchParams
shared = record { params = sample; shared_data = true }

run_lem_example :
    ((run crate (deleted (codes "a") ∷ sorted ∷ []) shared sample).0.params
      ≡ all_after (deleted (codes "a") ∷ sorted ∷ []) sample)
    × (crate.query_pairs (run crate (deleted (codes "a") ∷ sorted ∷ []) shared sample).1
        ≡ all_after (deleted (codes "a") ∷ sorted ∷ []) sample)
run_lem_example =
    run_lem crate reads_back (deleted (codes "a") ∷ sorted ∷ []) shared sample refl refl

-- `url.searchParams.append("x", "1"); url.searchParams.append("y", "2")`: the first pair is lost.
abbrev plain : Url Pairs
plain = record { inner = []; search_params = none }

edit-edit_example :
    crate.query_pairs
      (edit crate
        (appended (codes "y") (codes "2"))
        (edit crate (appended (codes "x") (codes "1")) plain)).inner
    ≡ append_pair (codes "y") (codes "2") (crate.query_pairs [])
edit-edit_example =
    edit-edit crate reads_back (appended (codes "x") (codes "1")) (appended (codes "y") (codes "2"))
      plain refl
