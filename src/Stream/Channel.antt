-- ===== src/Stream/Channel.antt =====
-- The sending half of a channel, as modules/rong_stream/src uses it: `send` fails from the moment
-- that the receiver is dropped. Waiting for room in a full channel is left to `tee`.
use rong.Base.{
  ℕ, zero, suc, ◌≡◌, sym, refl, Bool, true, false, Option, none, some, List, [], ◌∷◌, ◌++◌,
  append-nil, append_assoc,
}

pub record Sender {ℓ} (A : Type ℓ) : Type ℓ where
  -- How many sends succeed before the receiver is dropped; `none` when it never is.
  pub room : Option ℕ
  pub sent : List A

module _ {ℓ} {A : Type ℓ} where
  abbrev pub send_in : Option ℕ → A → List A → Bool × Sender A
  send_in none a sent = (true, record { room = none; sent = sent ++ a ∷ [] })
  send_in (some zero) a sent = (false, record { room = some zero; sent = sent })
  send_in (some (suc n)) a sent = (true, record { room = some n; sent = sent ++ a ∷ [] })

  unfoldable pub send : A → Sender A → Bool × Sender A
  send a t = send_in t.room a t.sent

  unfoldable pub fresh : Option ℕ → Sender A
  fresh room = record { room = room; sent = [] }

  -- What gets through of a sequence of sends.
  abbrev pub upto : Option ℕ → List A → List A
  upto none xs = xs
  upto (some zero) xs = []
  upto (some (suc n)) [] = []
  upto (some (suc n)) (x ∷ xs) = x ∷ upto (some n) xs

  pub upto-nil : (room : Option ℕ) → upto room [] ≡ []
  upto-nil none = refl
  upto-nil (some zero) = refl
  upto-nil (some (suc n)) = refl

  -- One more send, and the rest after it.
  pub upto-send :
      (room : Option ℕ) (x : A) (sent xs : List A)
      → (send_in room x sent).1.sent ++ upto (send_in room x sent).1.room xs
        ≡ sent ++ upto room (x ∷ xs)
  upto-send none x sent xs = append_assoc sent (x ∷ []) xs
  upto-send (some zero) x sent xs = refl
  upto-send (some (suc n)) x sent xs = append_assoc sent (x ∷ []) (upto (some n) xs)

  pub upto-last :
      (room : Option ℕ) (x : A) (sent : List A)
      → (send_in room x sent).1.sent ≡ sent ++ upto room (x ∷ [])
  upto-last none x sent = refl
  upto-last (some zero) x sent = sym (append-nil sent)
  upto-last (some (suc zero)) x sent = refl
  upto-last (some (suc (suc n))) x sent = refl
