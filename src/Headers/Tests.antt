-- ===== src/Headers/Tests.antt =====
-- A map by association lists, and a parser that takes every non-empty name in lower case.
use rong.Base.{
  ◌≡◌, ◌∙◌, refl, inl, inr, true, not, Option, none, some, List, [], ◌∷◌, ◌++◌, any, if◌then◌else◌,
  ◌==◌, nat_eq, list_eq, list_beq_iff, ltb, codes, Bool-cases,
}
use rong.Base.Assoc.{get, insert, remove, get-insert, get-remove}
use rong.Text.{Text, to_ascii_lowercase}
use rong.Headers.{
  is_nil, HeaderMap, Parsing, invalid_value, Returned, returns, throws, pair, has, new, texts,
  joined,
}
use rong.Headers
use rong.Headers.Calls.{HeaderCall, appends, sets, deletes, run, values_after, get-run}

abbrev Entries : Type 0
Entries = List (Text × List Text)

abbrev or_nil : Option (List Text) → List Text
or_nil none = []
or_nil (some l) = l

abbrev values_in : Text → Entries → List Text
values_in k m = or_nil (get k m)

values_in-insert :
    (k n : Text) (l : List Text) (m : Entries)
    → values_in k (insert n l m) ≡ (if n == k then l else values_in k m)
values_in-insert k n l m = elim (Bool-cases (n == k)) [
  | inl f ↦ rw (get-insert n k l m, f) refl
  | inr f ↦ rw (get-insert n k l m, f) refl
]

values_in-remove :
    (k n : Text) (m : Entries) → values_in k (remove n m) ≡ (if n == k then [] else values_in k m)
values_in-remove k n m = elim (Bool-cases (n == k)) [
  | inl f ↦ rw (get-remove n k m, f) refl
  | inr f ↦ rw (get-remove n k m, f) refl
]

values_in-append :
    (k n : Text) (v : Text) (m : Entries)
    → values_in k (insert n (values_in n m ++ v ∷ []) m)
      ≡ (if n == k then values_in k m ++ v ∷ [] else values_in k m)
values_in-append k n v m = elim (Bool-cases (n == k)) [
  | inl f ↦ values_in-insert k n (values_in n m ++ v ∷ []) m ∙ rw (f, (list_beq_iff n k).0 f) refl
  | inr f ↦ values_in-insert k n (values_in n m ++ v ∷ []) m ∙ rw f refl
]

assoc_map : HeaderMap Text Text Entries
unfolding get
assoc_map = record {
  new_map = [];
  append_to = λ n v m. insert n (values_in n m ++ v ∷ []) m;
  insert_to = λ n v m. insert n (v ∷ []) m;
  remove_from = remove;
  get_all = values_in;
  contains_key = λ n m. not (is_nil (values_in n m));
  get_all-new_map = λ k. refl;
  get_all-append_to = values_in-append;
  get_all-insert_to = λ k n v m. values_in-insert k n (v ∷ []) m;
  get_all-remove_from = values_in-remove;
  contains_key-get_all = λ k m. refl;
}

abbrev lower_name : Text → Option Text
lower_name [] = none
lower_name (c ∷ s) = some (to_ascii_lowercase (c ∷ s))

abbrev no_newline : Text → Option Text
no_newline s = if any (λ c. c == 10) s then none else some s

abbrev ascii : Text → Option Text
ascii s = if any (λ c. not (ltb c 127)) s then none else some s

lowercase : Parsing Text Text
lowercase = record { name_of = lower_name; value_of = no_newline; to_str = ascii }

abbrev calls : List HeaderCall
calls =
    appends (codes "Accept") (codes "a")
    ∷ appends (codes "accept") (codes "b")
    ∷ sets (codes "accept") (10 ∷ [])
    ∷ deletes (codes "Host")
    ∷ []

get-run_example :
    (has assoc_map lowercase (codes "ACCEPT") (run assoc_map lowercase calls assoc_map.new_map)
      ≡ returns true)
    × (Headers.get assoc_map lowercase
          (codes "ACCEPT")
          (run assoc_map lowercase calls assoc_map.new_map)
        ≡ returns (some (codes "a, b")))
unfolding lowercase to_ascii_lowercase values_after texts rong.Text.join
get-run_example = get-run assoc_map lowercase calls (codes "ACCEPT") (codes "accept") refl
