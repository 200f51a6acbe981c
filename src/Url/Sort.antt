-- ===== src/Url/Sort.antt =====
-- `URLSearchParams.sort`: sorted by name, and stable.
use rong.Base.{
  ◌≡◌, refl, ◌∙◌, inl, inr, true, false, [], ◌∷◌, arith, nat_eq, nat_beq_iff, list_eq, list_beq_iff,
  Bool-cases,
}
use rong.Text.{Text}
use rong.Url.{Pairs, get_all, lt_text, place, sort_pairs}

-- Each name is not greater than the next.
abbrev pub IsSorted : Pairs → Type 0
IsSorted [] = Unit
IsSorted (p ∷ []) = Unit
IsSorted (p ∷ q ∷ pairs) = (lt_text q.0 p.0 ≡ false) × IsSorted (q ∷ pairs)

lt_text_irrefl : (s : Text) → lt_text s s ≡ false
lt_text_irrefl [] = refl
lt_text_irrefl (c ∷ s) = ground (arith, lt_text_irrefl s)

lt_text_asym : (s t : Text) → lt_text s t ≡ true → lt_text t s ≡ false
lt_text_asym [] (d ∷ t) h = refl
lt_text_asym (c ∷ s) (d ∷ t) h = ground (arith, nat_beq_iff c d, nat_beq_iff d c, lt_text_asym s t)
lt_text_asym [] [] h = refl
lt_text_asym (c ∷ s) [] h = absurd (cc)

place-IsSorted : (p : Text × Text) (pairs : Pairs) → IsSorted pairs → IsSorted (place p pairs)
unfolding place
place-IsSorted p [] h = tt
place-IsSorted p (q ∷ []) h = elim (Bool-cases (lt_text q.0 p.0)) [
  | inl e ↦ rw e (lt_text_asym q.0 p.0 e, tt)
  | inr e ↦ rw e (e, tt)
]
place-IsSorted p (q ∷ r ∷ pairs) h =
    let rest = place-IsSorted p (r ∷ pairs) h.1 in
    elim (Bool-cases (lt_text q.0 p.0)) [
      | inl e ↦ elim (Bool-cases (lt_text r.0 p.0)) [
        | inl f ↦ rw (e, f) (h.0, rw f at rest)
        | inr f ↦ rw (e, f) (lt_text_asym q.0 p.0 e, rw f at rest)
      ]
      | inr e ↦ rw e (e, h)
    ]

sort_pairs-IsSorted : (pairs : Pairs) → IsSorted (sort_pairs pairs)
unfolding sort_pairs
sort_pairs-IsSorted [] = tt
sort_pairs-IsSorted (p ∷ pairs) = place-IsSorted p (sort_pairs pairs) (sort_pairs-IsSorted pairs)

get_all-place :
    (j : Text) (p : Text × Text) (pairs : Pairs) → get_all j (place p pairs) ≡ get_all j (p ∷ pairs)
unfolding get_all place
get_all-place j p [] = refl
get_all-place j p (q ∷ pairs) =
    ground
      (arith, list_beq_iff q.0 j, list_beq_iff p.0 j, lt_text_irrefl j, get_all-place j p pairs)

get_all-sort_pairs : (j : Text) (pairs : Pairs) → get_all j (sort_pairs pairs) ≡ get_all j pairs
unfolding sort_pairs get_all
get_all-sort_pairs j [] = refl
get_all-sort_pairs j (p ∷ pairs) =
    get_all-place j p (sort_pairs pairs)
    ∙ ground (arith, get_all-sort_pairs j pairs, list_beq_iff p.0 j)

-- Sorting puts the names in order, and keeps the values of each name in theirs.
pub sort_pairs_lem :
    (pairs : Pairs)
    → IsSorted (sort_pairs pairs) × ((j : Text) → get_all j (sort_pairs pairs) ≡ get_all j pairs)
sort_pairs_lem pairs = (sort_pairs-IsSorted pairs, λ j. get_all-sort_pairs j pairs)
