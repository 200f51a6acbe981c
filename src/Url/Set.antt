-- ===== src/Url/Set.antt =====
-- `URLSearchParams.set`: its loop, and what it leaves.
use rong.Base.{
  ℕ, zero, suc, ◌+◌, ◌≤◌, ◌≡◌, refl, ap, sym, ◌∙◌, inl, inr, Bool, true, false, not, none, some,
  List, [], ◌∷◌, ◌++◌, map, arith, if◌then◌else◌, ◌==◌, nat_eq, list_eq, list_beq_iff, length,
  length-append, retain, retain-append, append_assoc, append-nil, Bool-cases,
}
use mathlib.Core.List.{map-append}
use rong.Text.{Text}
use rong.Url.{
  Pairs, get_all, pair_at, replace_at, remove_at, Cursor, advance, set_loop, set_pair, named,
  set_from_start, set_rest,
}

pair_at-append :
    (before after : Pairs) (pair : Text × Text)
    → pair_at (length before) (before ++ pair ∷ after) ≡ some pair
unfolding pair_at
pair_at-append [] after pair = refl
pair_at-append (p ∷ before) after pair = pair_at-append before after pair

pair_at_end : (before : Pairs) → pair_at (length before) before ≡ none
unfolding pair_at
pair_at_end [] = refl
pair_at_end (p ∷ before) = pair_at_end before

replace_at-append :
    (before after : Pairs) (k v value : Text)
    → replace_at (length before) value (before ++ (k, v) ∷ after) ≡ before ++ (k, value) ∷ after
unfolding replace_at
replace_at-append [] after k v value = refl
replace_at-append (p ∷ before) after k v value =
    ap (◌∷◌ p) (replace_at-append before after k v value)

remove_at-append :
    (before after : Pairs) (pair : Text × Text)
    → remove_at (length before) (before ++ pair ∷ after) ≡ before ++ after
unfolding remove_at
remove_at-append [] after pair = refl
remove_at-append (p ∷ before) after pair = ap (◌∷◌ p) (remove_at-append before after pair)

-- The pairs behind the cursor when the loop has passed them.
kept : Text → Text → Bool → Pairs → Pairs
kept name value found [] = []
kept name value found ((k, v) ∷ pairs) =
    if k == name
    then (if found then kept name value true pairs else (k, value) ∷ kept name value true pairs)
    else (k, v) ∷ kept name value found pairs

present : Text → Bool → Pairs → Bool
present name found [] = found
present name found ((k, v) ∷ pairs) =
    if k == name then present name true pairs else present name found pairs

at : Pairs → Bool → Pairs → Cursor
at before found after = record { i = length before; found = found; params = before ++ after }

at_next :
    (before : Pairs) (p : Text × Text) (found : Bool) (after : Pairs)
    → at (before ++ p ∷ []) found after
      ≡ record { i = length before + 1; found = found; params = before ++ p ∷ after }
unfolding at
at_next before p found after =
    simp (length-append before (p ∷ []), append_assoc before (p ∷ []) after)

advance-at :
    (name value k v : Text) (before after : Pairs) (found : Bool)
    → advance name value k (at before found ((k, v) ∷ after)) ≡ (
        if k == name
        then (if found then at before true after else at (before ++ (k, value) ∷ []) true after)
        else at (before ++ (k, v) ∷ []) found after)
unfolding at
advance-at name value k v before after found = elim (Bool-cases (k == name)) [
  | inl e ↦ rw e (move found)
  | inr e ↦ rw e (sym (at_next before (k, v) found after))
]
  where
    move :
        (b : Bool)
        → (if not b
            then record {
              i = length before + 1;
              found = true;
              params = replace_at (length before) value (before ++ (k, v) ∷ after);
            }
            else record {
              i = length before;
              found = b;
              params = remove_at (length before) (before ++ (k, v) ∷ after);
            })
          ≡ (if b then at before true after else at (before ++ (k, value) ∷ []) true after)
    move true =
        ap (λ ps. record { i = length before; found = true; params = ps })
          (remove_at-append before after (k, v))
    move false =
        ap (λ ps. record { i = length before + 1; found = true; params = ps })
          (replace_at-append before after k v value)
        ∙ sym (at_next before (k, value) true after)

set_loop-none :
    (fuel : ℕ) (name value : Text) (c : Cursor)
    → pair_at c.i c.params ≡ none
    → set_loop (suc fuel) name value c ≡ some c
unfolding set_loop
set_loop-none fuel name value c e = rw (e, set_loop) refl

set_loop-some :
    (fuel : ℕ) (name value : Text) (c : Cursor) (pair : Text × Text)
    → pair_at c.i c.params ≡ some pair
    → set_loop (suc fuel) name value c ≡ set_loop fuel name value (advance name value pair.0 c)
unfolding set_loop
set_loop-some fuel name value c pair e = rw (e, set_loop) refl

at_end :
    (fuel : ℕ) (name value : Text) (before : Pairs) (found : Bool)
    → set_loop (suc fuel) name value (at before found []) ≡ some (at (before ++ []) found [])
unfolding at
at_end fuel name value before found =
    set_loop-none fuel name value (at before found [])
      (ap (pair_at (length before)) (append-nil before) ∙ pair_at_end before)
    ∙ ap (λ ps. some (at ps found [])) (sym (append-nil before))

at_some :
    (fuel : ℕ) (name value k v : Text) (before after : Pairs) (found : Bool)
    → set_loop (suc fuel) name value (at before found ((k, v) ∷ after))
      ≡ set_loop fuel name value (
          if k == name
          then (if found then at before true after else at (before ++ (k, value) ∷ []) true after)
          else at (before ++ (k, v) ∷ []) found after)
unfolding at
at_some fuel name value k v before after found =
    set_loop-some fuel name value (at before found ((k, v) ∷ after)) (k, v)
      (pair_at-append before after (k, v))
    ∙ ap (set_loop fuel name value) (advance-at name value k v before after found)

shifted :
    (before : Pairs) (p : Text × Text) (after : Pairs) (found : Bool)
    → some (at ((before ++ p ∷ []) ++ after) found []) ≡ some (at (before ++ p ∷ after) found [])
shifted before p after found = ap (λ ps. some (at ps found [])) (append_assoc before (p ∷ []) after)

-- With fuel for the pairs that are left, the loop passes them all.
set_loop-at :
    (fuel : ℕ) (name value : Text) (before after : Pairs) (found : Bool)
    → length after ≤ fuel
    → set_loop (suc fuel) name value (at before found after)
      ≡ some (at (before ++ kept name value found after) (present name found after) [])
unfolding kept present
set_loop-at fuel name value before [] found h = at_end fuel name value before found
set_loop-at zero name value before (p ∷ after) found h = absurd (omega arith)
set_loop-at (suc fuel) name value before ((k, v) ∷ after) true h =
    let fewer : length after ≤ fuel = omega arith in
    let passed = set_loop-at fuel name value (before ++ (k, v) ∷ []) after true fewer in
    let dropped = set_loop-at fuel name value before after true fewer in
    at_some (suc fuel) name value k v before after true ∙ elim (Bool-cases (k == name)) [
      | inl e ↦ rw e dropped
      | inr e ↦ rw e (passed ∙ shifted before (k, v) (kept name value true after) _)
    ]
set_loop-at (suc fuel) name value before ((k, v) ∷ after) false h =
    let fewer : length after ≤ fuel = omega arith in
    let passed = set_loop-at fuel name value (before ++ (k, v) ∷ []) after false fewer in
    let renewed = set_loop-at fuel name value (before ++ (k, value) ∷ []) after true fewer in
    at_some (suc fuel) name value k v before after false ∙ elim (Bool-cases (k == name)) [
      | inl e ↦ rw e (renewed ∙ shifted before (k, value) (kept name value true after) _)
      | inr e ↦ rw e (passed ∙ shifted before (k, v) (kept name value false after) _)
    ]

set_from_start_lem :
    (name value : Text) (pairs : Pairs)
    → set_from_start name value pairs
      ≡ some (at (kept name value false pairs) (present name false pairs) [])
unfolding at
set_from_start_lem name value pairs =
    ap (λ n. set_loop n name value (record { i = 0; found = false; params = pairs })) (omega arith)
    ∙ set_loop-at (length pairs) name value [] pairs false (omega arith)

-- `set` passes the pairs once, and appends one if none had the name.
set_pair-kept :
    (name value : Text) (pairs : Pairs)
    → set_pair name value pairs ≡ (
        if not (present name false pairs)
        then kept name value false pairs ++ (name, value) ∷ []
        else kept name value false pairs)
unfolding set_pair at
set_pair-kept name value pairs =
    ap (set_rest name value pairs) (set_from_start_lem name value pairs)
    ∙ ap (λ ps. if not (present name false pairs) then ps ++ (name, value) ∷ [] else ps)
        (append-nil (kept name value false pairs))

present-true : (name : Text) (pairs : Pairs) → present name true pairs ≡ true
unfolding present
present-true name [] = refl
present-true name ((k, v) ∷ pairs) = ground (arith, present-true name pairs)

appended :
    (b : Bool) (new old : List Text)
    → (if b then [] else old) ++ (if b then new else []) ≡ (if b then new else old)
appended true new old = refl
appended false new old = append-nil old

get_all-kept :
    (name value j : Text) (pairs : Pairs) (found : Bool)
    → get_all j (kept name value found pairs) ≡ (
        if name == j
        then (if found then [] else if present name false pairs then value ∷ [] else [])
        else get_all j pairs)
unfolding get_all kept present
get_all-kept name value j [] found = ground arith
get_all-kept name value j ((k, v) ∷ pairs) true = ground (
  arith,
  list_beq_iff k name,
  list_beq_iff name j,
  list_beq_iff k j,
  get_all-kept name value j pairs true,
)
get_all-kept name value j ((k, v) ∷ pairs) false = ground (
  arith,
  list_beq_iff k name,
  list_beq_iff name j,
  list_beq_iff k j,
  get_all-kept name value j pairs true,
  get_all-kept name value j pairs false,
  present-true name pairs,
)

get_all-append : (j : Text) (xs ys : Pairs) → get_all j (xs ++ ys) ≡ get_all j xs ++ get_all j ys
unfolding get_all
get_all-append j xs ys =
    ap (map (λ pair. pair.1)) (retain-append (named j) xs ys)
    ∙ map-append (λ pair. pair.1) (retain (named j) xs) (retain (named j) ys)

get_all_one :
    (name value j : Text) → get_all j ((name, value) ∷ []) ≡ (if name == j then value ∷ [] else [])
unfolding get_all
get_all_one name value j = ground arith

get_all-kept_pair :
    (name value j : Text) (pairs : Pairs)
    → get_all j (set_pair name value pairs) ≡ (if name == j then value ∷ [] else get_all j pairs)
get_all-kept_pair name value j pairs =
    ap (get_all j) (set_pair-kept name value pairs) ∙ elim (Bool-cases (present name false pairs)) [
      | inl e ↦ rw e (rw e at (get_all-kept name value j pairs false))
      | inr e ↦
          let old = rw e at (get_all-kept name value j pairs false) in
          rw e (
            get_all-append j (kept name value false pairs) ((name, value) ∷ [])
            ∙ rw (old, get_all_one name value j)
                (appended (name == j) (value ∷ []) (get_all j pairs)))
    ]

-- The loop of `set` ends, after at most one round for each pair and one more. After `set`, the name
-- has one value, the given one, and the values of every other name are what they were, in their
-- order.
pub get_all-set_pair :
    (name value j : Text) (pairs : Pairs)
    → ((c : Cursor) × (set_from_start name value pairs ≡ some c))
      × (get_all j (set_pair name value pairs)
          ≡ (if name == j then value ∷ [] else get_all j pairs))
get_all-set_pair name value j pairs =
    ((_, set_from_start_lem name value pairs), get_all-kept_pair name value j pairs)
