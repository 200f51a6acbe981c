-- ===== src/Stream/Tee/Stalled.antt =====
-- A consumer of one branch of `tee` that stops taking chunks holds up the other branch.
use rong.Base.{
  ℕ, zero, suc, ◌+◌, ◌≡◌, ◌∙◌, sym, refl, true, none, some, List, [], ◌∷◌, ◌++◌, append-nil,
  append_assoc,
}
use rong.Stream.{ok, err}
use rong.Stream.Readable.{StreamChunk}
use rong.Stream.Channel.{send, fresh, upto, upto-nil}
use rong.Stream.Tee.{
  Branch, stuck, offer, offer_last, tee, opened_branch, stalled_branch, capacity, until_error,
}

abbrev going : List StreamChunk → Branch
going sent = record { is_some = true; tx = record { room = none; sent = sent }; slots = none }

abbrev stalling : ℕ → List StreamChunk → Branch
stalling m sent = record {
  is_some = true;
  tx = record { room = none; sent = sent };
  slots = some m;
}

-- What two branches have got when one began with `s` and room for `m`, the other with `t` and `n`.
abbrev Got :
    ℕ → ℕ → List StreamChunk → List StreamChunk → List StreamChunk → Branch × Branch → Type 0
Got m n items s t r =
    (r.0.tx.sent ≡ s ++ upto (some m) (until_error items))
    × (r.1.tx.sent ≡ t ++ upto (some n) (until_error items))

one_more :
    (m : ℕ) (x : StreamChunk) (xs s y : List StreamChunk)
    → y ≡ (s ++ x ∷ []) ++ upto (some m) xs
    → y ≡ s ++ upto (some (suc m)) (x ∷ xs)
one_more m x xs s y h = h ∙ append_assoc s (x ∷ []) (upto (some m) xs)

last_one :
    (m : ℕ) (x : StreamChunk) (s : List StreamChunk)
    → s ++ x ∷ [] ≡ s ++ upto (some (suc m)) (x ∷ [])
last_one zero x s = refl
last_one (suc m) x s = refl

first_stalls :
    (items : List StreamChunk) (m : ℕ) (s t : List StreamChunk)
    → Got m m items s t (tee items (stalling m s) (going t))
unfolding tee offer offer_last stuck send until_error
first_stalls [] m s t = rw (upto-nil (some m)) (sym (append-nil s), sym (append-nil t))
first_stalls (ok bytes ∷ items) zero s t = (sym (append-nil s), sym (append-nil t))
first_stalls (err e ∷ items) zero s t = (sym (append-nil s), sym (append-nil t))
first_stalls (err e ∷ items) (suc m) s t = (last_one m (err e) s, last_one m (err e) t)
first_stalls (ok bytes ∷ items) (suc m) s t =
    let h = first_stalls items m (s ++ ok bytes ∷ []) (t ++ ok bytes ∷ []) in
    (
      one_more m (ok bytes) (until_error items) s _ h.0,
      one_more m (ok bytes) (until_error items) t _ h.1,
    )

second_stalls :
    (items : List StreamChunk) (m : ℕ) (s t : List StreamChunk)
    → Got (suc m) m items s t (tee items (going s) (stalling m t))
unfolding tee offer offer_last stuck send until_error
second_stalls [] m s t = rw (upto-nil (some m)) (sym (append-nil s), sym (append-nil t))
second_stalls (ok bytes ∷ items) zero s t = (refl, sym (append-nil t))
second_stalls (err e ∷ items) zero s t = (refl, sym (append-nil t))
second_stalls (err e ∷ items) (suc m) s t = (last_one (suc m) (err e) s, last_one m (err e) t)
second_stalls (ok bytes ∷ items) (suc m) s t =
    let h = second_stalls items m (s ++ ok bytes ∷ []) (t ++ ok bytes ∷ []) in
    (
      one_more (suc m) (ok bytes) (until_error items) s _ h.0,
      one_more m (ok bytes) (until_error items) t _ h.1,
    )

-- When the consumer of one branch takes `n` chunks and then neither takes one nor leaves, and the
-- other one goes on: the branch that stands still gets `n` items and the sixteen that fill its
-- channel, and the other one no more than these, however long the source goes on; it gets one
-- more if it is the first branch.
pub stalled_lem :
    (items : List StreamChunk) (n : ℕ)
    → ((tee items (stalled_branch n) (opened_branch none)).0.tx.sent
        ≡ upto (some (n + capacity)) (until_error items))
      × ((tee items (stalled_branch n) (opened_branch none)).1.tx.sent
          ≡ upto (some (n + capacity)) (until_error items))
      × ((tee items (opened_branch none) (stalled_branch n)).0.tx.sent
          ≡ upto (some (suc (n + capacity))) (until_error items))
      × ((tee items (opened_branch none) (stalled_branch n)).1.tx.sent
          ≡ upto (some (n + capacity)) (until_error items))
unfolding opened_branch stalled_branch fresh
stalled_lem items n =
    let h = first_stalls items (n + capacity) [] [] in
    let k = second_stalls items (n + capacity) [] [] in (h.0, h.1, k.0, k.1)
