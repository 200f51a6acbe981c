-- ===== src/Stream/Slots.antt =====
-- Lists that are read and changed at an index, and what they add up to.
use rong.Base.{
  ℕ, zero, suc, ◌+◌, ◌≤◌, ◌≡◌, refl, subst, Option, none, some, List, [], ◌∷◌, ◌++◌, length, arith,
}

-- How many receivers a slot holds.
abbrev pub held {ℓ} : {A : Type ℓ} → Option A → ℕ
held none = 0
held (some a) = 1

module _ {ℓ} {A : Type ℓ} where
  abbrev pub nth : ℕ → List A → Option A
  nth n [] = none
  nth zero (x ∷ xs) = some x
  nth (suc n) (x ∷ xs) = nth n xs

  abbrev pub set_nth : ℕ → A → List A → List A
  set_nth n a [] = []
  set_nth zero a (x ∷ xs) = a ∷ xs
  set_nth (suc n) a (x ∷ xs) = x ∷ set_nth n a xs

  abbrev pub remove_nth : ℕ → List A → List A
  remove_nth n [] = []
  remove_nth zero (x ∷ xs) = xs
  remove_nth (suc n) (x ∷ xs) = x ∷ remove_nth n xs

  abbrev pub total : (A → ℕ) → List A → ℕ
  total w [] = 0
  total w (x ∷ xs) = w x + total w xs

  pub total-append : (w : A → ℕ) (xs ys : List A) → total w (xs ++ ys) ≡ total w xs + total w ys
  total-append w [] ys = omega arith
  total-append w (x ∷ xs) ys = omega (arith, total-append w xs ys)

  pub total-set_nth :
      (w : A → ℕ) (n : ℕ) (a b : A) (xs : List A)
      → nth n xs ≡ some b
      → total w (set_nth n a xs) + w b ≡ total w xs + w a
  total-set_nth w n a b [] e = absurd (cc)
  total-set_nth w zero a b (x ∷ xs) e = ground arith
  total-set_nth w (suc n) a b (x ∷ xs) e = omega (arith, total-set_nth w n a b xs e)

  pub length-remove_nth :
      (n : ℕ) (b : A) (xs : List A) → nth n xs ≡ some b → length (remove_nth n xs) + 1 ≡ length xs
  length-remove_nth n b [] e = absurd (cc)
  length-remove_nth zero b (x ∷ xs) e = omega arith
  length-remove_nth (suc n) b (x ∷ xs) e = omega (arith, length-remove_nth n b xs e)

  pub total-remove_nth :
      (w : A → ℕ) (n : ℕ) (b : A) (xs : List A)
      → nth n xs ≡ some b
      → total w (remove_nth n xs) + w b ≡ total w xs
  total-remove_nth w n b [] e = absurd (cc)
  total-remove_nth w zero b (x ∷ xs) e = ground arith
  total-remove_nth w (suc n) b (x ∷ xs) e = omega (arith, total-remove_nth w n b xs e)

  pub total-nth-le :
      (w : A → ℕ) (n : ℕ) (b : A) (xs : List A) → nth n xs ≡ some b → w b ≤ total w xs
  total-nth-le w n b [] e = absurd (cc)
  total-nth-le w zero b (x ∷ xs) e = ground arith
  total-nth-le w (suc n) b (x ∷ xs) e = omega (arith, total-nth-le w n b xs e)

  pub nth-set_nth :
      (n : ℕ) (a b : A) (xs : List A) → nth n xs ≡ some b → nth n (set_nth n a xs) ≡ some a
  nth-set_nth n a b [] e = absurd (cc)
  nth-set_nth zero a b (x ∷ xs) e = refl
  nth-set_nth (suc n) a b (x ∷ xs) e = nth-set_nth n a b xs e

  pub nth-append : (n : ℕ) (a : A) (xs ys : List A) → nth n xs ≡ some a → nth n (xs ++ ys) ≡ some a
  nth-append n a [] ys e = absurd (cc)
  nth-append zero a (x ∷ xs) ys e = e
  nth-append (suc n) a (x ∷ xs) ys e = nth-append n a xs ys e

  -- What holds of an element holds after another element is put at an index, if it holds of that one
  -- as soon as it held of the element that was there.
  pub set_nth-holds {κ} :
      (P : A → Type κ) (i j : ℕ) (a b : A) (xs : List A)
      → nth j xs ≡ some b
      → (P b → P a)
      → (x : A) × (nth i xs ≡ some x) × P x
      → (x : A) × (nth i (set_nth j a xs) ≡ some x) × P x
  set_nth-holds P i j a b [] e h g = absurd (cc)
  set_nth-holds P zero zero a b (x ∷ xs) e h (y, f, p) =
      let k : y ≡ b = cc in (a, refl, h (subst P k p))
  set_nth-holds P zero (suc j) a b (x ∷ xs) e h g = g
  set_nth-holds P (suc i) zero a b (x ∷ xs) e h g = g
  set_nth-holds P (suc i) (suc j) a b (x ∷ xs) e h g = set_nth-holds P i j a b xs e h g
