-- ===== src/Stream/Tee.antt =====
-- modules/rong_stream/src/readable.rs, `tee`: one task hands each chunk to both branches.
pub mod Stalled
pub mod Tests
use rong.Base.{
  ℕ, zero, suc, ◌+◌, ◌≡◌, ◌∙◌, sym, ap, refl, inl, inr, Bool, true, false, not, ◌&&◌, Option, none,
  some, List, [], ◌∷◌, ◌++◌, append-nil, if◌then◌else◌, Bool-cases,
}
use rong.Text.{Text}
use rong.Stream.{Result, ok, err}
use rong.Stream.Readable.{StreamChunk}
use rong.Stream.Channel.{Sender, send_in, send, fresh, upto, upto-nil, upto-send, upto-last}

-- `tx1` and `tx2`: whether the task still has the sender, and the channel behind it. `slots` is for
-- a consumer that at some point takes no more chunks and does not leave either: how many more sends
-- find room in its channel, `none` for any other consumer.
pub record Branch : Type 0 where
  pub is_some : Bool
  pub tx : Sender StreamChunk
  pub slots : Option ℕ

abbrev lower : Option ℕ → Option ℕ
lower none = none
lower (some zero) = some zero
lower (some (suc n)) = some n

-- A full channel makes `send` wait, unless the receiver is dropped.
abbrev pub blocked : Option ℕ → Option ℕ → Bool
blocked none room = false
blocked (some (suc n)) room = false
blocked (some zero) none = true
blocked (some zero) (some zero) = false
blocked (some zero) (some (suc n)) = true

-- A send to this branch never returns.
unfoldable pub stuck : Branch → Bool
stuck b = blocked b.slots b.tx.room && b.is_some

abbrev after_send : Option ℕ → Bool × Sender StreamChunk → Branch
after_send slots (sent, t) = record { is_some = sent; tx = t; slots = slots }

-- A failed send drops the sender.
unfoldable pub offer : StreamChunk → Branch → Branch
unfolding send
offer item b = if b.is_some then after_send (lower b.slots) (send item b.tx) else b

-- The result of the last send is ignored.
unfoldable pub offer_last : StreamChunk → Branch → Branch
unfolding send
offer_last item b = if b.is_some then record b { tx = (send item b.tx).1 } else b

-- The branches when the task has ended, or waits for ever in a send. Each chunk goes to the first
-- branch and then to the second.
unfoldable pub tee : List StreamChunk → Branch → Branch → Branch × Branch
unfolding offer offer_last stuck
tee [] a b = (a, b)
tee (ok bytes ∷ items) a b =
    let a1 = offer (ok bytes) a in
    let b1 = offer (ok bytes) b in
    let rest = tee items a1 b1 in
    if stuck a
    then (a, b)
    else if stuck b
    then (a1, b)
    else if not a1.is_some && not b1.is_some
    then (a1, b1)
    else rest
tee (err e ∷ items) a b =
    if stuck a
    then (a, b)
    else if stuck b
    then (offer_last (err e) a, b)
    else (offer_last (err e) a, offer_last (err e) b)

unfoldable pub opened_branch : Option ℕ → Branch
unfolding fresh
opened_branch room = record { is_some = true; tx = fresh room; slots = none }

-- The channel holds sixteen chunks.
abbrev pub capacity : ℕ
capacity = 16

-- A branch whose consumer takes `taken` chunks, and then neither takes one nor leaves.
unfoldable pub stalled_branch : ℕ → Branch
unfolding fresh
stalled_branch taken = record { is_some = true; tx = fresh none; slots = some (taken + capacity) }

-- What a single consumer of the source would get.
alone : List StreamChunk → Branch → Branch
alone [] a = a
alone (ok bytes ∷ items) a = alone items (offer (ok bytes) a)
alone (err e ∷ items) a = offer_last (err e) a

-- The chunks of the source, the first error being the last.
unfoldable pub until_error : List StreamChunk → List StreamChunk
until_error [] = []
until_error (ok bytes ∷ items) = ok bytes ∷ until_error items
until_error (err e ∷ items) = err e ∷ []

dropped :
    (items : List StreamChunk) (c : Bool) (t : Sender StreamChunk) (n : Option ℕ)
    → c ≡ false
    → alone items (record { is_some = c; tx = t; slots = n })
      ≡ record { is_some = c; tx = t; slots = n }
unfolding alone offer offer_last
dropped items true t n h = absurd (cc)
dropped [] false t n h = refl
dropped (ok bytes ∷ items) false t n h = dropped items false t n h
dropped (err e ∷ items) false t n h = refl

alone-dropped : (items : List StreamChunk) (b : Branch) → b.is_some ≡ false → alone items b ≡ b
alone-dropped items b = dropped items b.is_some b.tx b.slots

-- The consumer of a branch without `slots` makes no send wait for ever.
free : (b : Branch) → b.slots ≡ none → stuck b ≡ false
unfolding stuck
free b h = rw h refl

offer-slots : (item : StreamChunk) (b : Branch) → b.slots ≡ none → (offer item b).slots ≡ none
unfolding offer send
offer-slots item b h = elim (Bool-cases b.is_some) [ inl e ↦ rw (e, h) refl | inr e ↦ rw e h ]

if-alone :
    (c : Bool) (x y z : Branch × Branch) → (c ≡ true → x ≡ z) → y ≡ z → (if c then x else y) ≡ z
if-alone true x y z h k = h refl
if-alone false x y z h k = k

both : (a b : Bool) → not a && not b ≡ true → (a ≡ false) × (b ≡ false)
both false false h = (refl, refl)
both false true h = absurd (cc)
both true b h = absurd (cc)

tee-alone :
    (items : List StreamChunk) (a b : Branch)
    → a.slots ≡ none
    → b.slots ≡ none
    → tee items a b ≡ (alone items a, alone items b)
unfolding tee alone
tee-alone [] a b h k = refl
tee-alone (ok bytes ∷ items) a b h k =
    let a1 = offer (ok bytes) a in
    let b1 = offer (ok bytes) b in
    rw (free a h, free b k)
      (if-alone (not a1.is_some && not b1.is_some) (a1, b1) (tee items a1 b1)
        (alone items a1, alone items b1)
        (λ h.
          rw
            (
              alone-dropped items a1 (both a1.is_some b1.is_some h).0,
              alone-dropped items b1 (both a1.is_some b1.is_some h).1,
            )
            refl)
        (tee-alone items a1 b1 (offer-slots (ok bytes) a h) (offer-slots (ok bytes) b k)))
tee-alone (err e ∷ items) a b h k = rw (free a h, free b k) refl

-- What a branch has got when it began with `sent`.
alone_sent :
    (items : List StreamChunk) (room : Option ℕ) (sent : List StreamChunk)
    → (alone items
        (record { is_some = true; tx = record { room = room; sent = sent }; slots = none })).tx.sent
      ≡ sent ++ upto room (until_error items)
unfolding alone offer offer_last send until_error
alone_sent [] room sent = rw (upto-nil room) (sym (append-nil sent))
alone_sent (err e ∷ items) room sent = upto-last room (err e) sent
alone_sent (ok bytes ∷ items) none sent =
    alone_sent items none (sent ++ ok bytes ∷ [])
    ∙ upto-send none (ok bytes) sent (until_error items)
alone_sent (ok bytes ∷ items) (some zero) sent =
    ap (λ b. b.tx.sent)
      (alone-dropped items
        (record { is_some = false; tx = record { room = some zero; sent = sent }; slots = none })
        refl)
    ∙ sym (append-nil sent)
alone_sent (ok bytes ∷ items) (some (suc n)) sent =
    alone_sent items (some n) (sent ++ ok bytes ∷ [])
    ∙ upto-send (some (suc n)) (ok bytes) sent (until_error items)

-- When each consumer goes on taking chunks until the end or leaves at some point: each branch of
-- `tee` gets the items of the source in order, up to its own consumer's leaving and up to and with
-- the first error, whatever the other branch's consumer does.
pub tee_lem :
    (items : List StreamChunk) (room1 room2 : Option ℕ)
    → ((tee items (opened_branch room1) (opened_branch room2)).0.tx.sent
        ≡ upto room1 (until_error items))
      × ((tee items (opened_branch room1) (opened_branch room2)).1.tx.sent
          ≡ upto room2 (until_error items))
unfolding opened_branch fresh
tee_lem items room1 room2 =
    rw (tee-alone items (opened_branch room1) (opened_branch room2) refl refl)
      (alone_sent items room1 [], alone_sent items room2 [])
