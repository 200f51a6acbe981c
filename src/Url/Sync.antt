-- ===== src/Url/Sync.antt =====
-- The parameters of a URL and its query.
use rong.Base.{◌≡◌, refl, ap, ◌∙◌, true, none, List, [], ◌∷◌}
use rong.Text.{Text}
use rong.Url.{
  Pairs, UrlCrate, UrlSearchParams, Url, append_pair, delete_name, set_pair, sort_pairs, query_of,
  to_string, changed, append, delete, set, sort, sync_shared, from_shared_data, search_params,
  params_or,
}

-- The calls that change parameters.
pub data Change : Type 0 where
  appended set_to : Text → Text → Change
  deleted : Text → Change
  sorted : Change

-- What a change does to the pairs alone.
abbrev pub pairs_after : Change → Pairs → Pairs
pairs_after (appended name value) pairs = append_pair name value pairs
pairs_after (set_to name value) pairs = set_pair name value pairs
pairs_after (deleted name) pairs = delete_name name pairs
pairs_after sorted pairs = sort_pairs pairs

abbrev pub all_after : List Change → Pairs → Pairs
all_after [] pairs = pairs
all_after (c ∷ cs) pairs = all_after cs (pairs_after c pairs)

module _ {U : Type 0} (crate : UrlCrate U) where
  pub apply : Change → UrlSearchParams → U → UrlSearchParams × U
  apply (appended name value) p url = append crate name value p url
  apply (set_to name value) p url = set crate name value p url
  apply (deleted name) p url = delete crate name p url
  apply sorted p url = sort crate p url

  pub run : List Change → UrlSearchParams → U → UrlSearchParams × U
  run [] p url = (p, url)
  run (c ∷ cs) p url = let (p', url') = apply c p url in run cs p' url'

  -- `url.searchParams.…`: the getter, and a change of what it answers.
  pub edit : Change → Url U → Url U
  unfolding apply search_params
  edit c url =
      let (p, url') = search_params crate url in
      let (p', inner) = apply c p url'.inner in record url' { inner = inner }

  apply-changed :
      (c : Change) (p : UrlSearchParams) (url : U)
      → apply c p url ≡ changed crate (pairs_after c) p url
  unfolding apply append set delete sort
  apply-changed (appended name value) p url = refl
  apply-changed (set_to name value) p url = refl
  apply-changed (deleted name) p url = refl
  apply-changed sorted p url = refl

-- The `url` crate reads back the pairs that it has written.
module _ {U : Type 0} (crate : UrlCrate U)
    (reads_back : (pairs : Pairs) (url : U)
      → crate.query_pairs (crate.set_query (query_of (to_string crate pairs)) url) ≡ pairs) where
  changed-query :
      (f : Pairs → Pairs) (p : UrlSearchParams) (url : U)
      → p.shared_data ≡ true
      → crate.query_pairs (changed crate f p url).1 ≡ f p.params
  changed-query f p url h =
      ap (λ b. crate.query_pairs (sync_shared crate b (f p.params) url)) h
      ∙ reads_back (f p.params) url

  -- If the `url` crate reads back the pairs that it has written, parameters that belong to a URL
  -- and agree with its query agree with it after every sequence of changes, and are what the same
  -- changes make of the pairs alone.
  pub run_lem :
      (cs : List Change) (p : UrlSearchParams) (url : U)
      → p.shared_data ≡ true
      → crate.query_pairs url ≡ p.params
      → ((run crate cs p url).0.params ≡ all_after cs p.params)
        × (crate.query_pairs (run crate cs p url).1 ≡ all_after cs p.params)
  unfolding run
  run_lem [] p url h e = (refl, e)
  run_lem (c ∷ cs) p url h e =
      rw (apply-changed crate c p url, run)
        (run_lem cs (changed crate (pairs_after c) p url).0 (changed crate (pairs_after c) p url).1
          h (changed-query (pairs_after c) p url h))

  edit-query :
      (c : Change) (url : Url U)
      → (params_or crate url.search_params url.inner).shared_data ≡ true
      → crate.query_pairs (edit crate c url).inner
        ≡ pairs_after c (params_or crate url.search_params url.inner).params
  unfolding edit search_params
  edit-query c url h =
      let p = params_or crate url.search_params url.inner in
      ap (λ r. crate.query_pairs r.1) (apply-changed crate c p url.inner)
      ∙ changed-query (pairs_after c) p url.inner h

  -- If the `url` crate reads back the pairs that it has written, a change made through a second
  -- call of the getter starts from the pairs that the first call found, no matter what the first
  -- changed: the query is then what the second change alone makes of them.
  pub edit-edit :
      (c d : Change) (url : Url U)
      → url.search_params ≡ none
      → crate.query_pairs (edit crate d (edit crate c url)).inner
        ≡ pairs_after d (crate.query_pairs url.inner)
  unfolding edit search_params from_shared_data
  edit-edit c d url h =
      edit-query d (edit crate c url) (ap (λ o. (params_or crate o url.inner).shared_data) h)
      ∙ ap (λ o. pairs_after d (params_or crate o url.inner).params) h
