-- ===== src/Abort/Receivers.antt =====
-- Receivers of a controller's signal, in every order of aborting, subscribing and dropping.
use rong.Base.{
  ℕ, zero, suc, ◌+◌, ◌≤◌, ◌≡◌, ◌∙◌, refl, ap, inl, inr, Bool, true, false, Option, none, some, List,
  [], ◌∷◌, ltb, arith, if◌then◌else◌, Bool-cases,
}
use rong.Abort.{
  JsValue, AbortSignal, new, subscribe, drop_receiver, notify_abort, recv, set_reason,
  throw_if_aborted, reason_or, get_reason_or_dom_exception, broadcast_abort, controller_abort,
  abort,
}

pub data Use : Type 0 where
  -- The AbortError that would be made, and the reason that is given.
  aborts : ℕ → JsValue → Use
  subscribes drops : Use

unfoldable pub use_of : Use → AbortSignal → AbortSignal
use_of (aborts exception value) s = controller_abort exception value s
use_of subscribes s = subscribe s
use_of drops s = drop_receiver s

unfoldable pub run : List Use → AbortSignal → AbortSignal
run [] s = s
run (u ∷ us) s = run us (use_of u s)

-- The reason of the first abort, if there is one.
unfoldable pub first_reason : List Use → Option ℕ
first_reason [] = none
first_reason (aborts exception value ∷ us) = some (reason_or value exception)
first_reason (subscribes ∷ us) = first_reason us
first_reason (drops ∷ us) = first_reason us

abbrev is_some : Option ℕ → Bool
is_some none = false
is_some (some a) = true

abbrev first_of : Option ℕ → Option ℕ → Option ℕ
first_of none r = r
first_of (some v) r = some v

first_of-none : (r : Option ℕ) → first_of r none ≡ r
first_of-none none = refl
first_of-none (some v) = refl

first_of_assoc :
    (r : Option ℕ) (v : ℕ) (q : Option ℕ) → first_of (first_of r (some v)) q ≡ first_of r (some v)
first_of_assoc none v q = refl
first_of_assoc (some w) v q = refl

-- A signal that has been aborted with `r`, or not.
record IsAt (r : Option ℕ) (s : AbortSignal) : Type 0 where
  aborted : s.aborted ≡ is_some r
  reason : s.reason ≡ r
  received : 1 ≤ s.receivers → s.sender ≡ r
  waiting : r ≡ none → s.sender ≡ none
  emitted : s.emitted ≡ (if is_some r then 1 else 0)

ltb_suc : (n : ℕ) → ltb 0 (n + 1) ≡ true
ltb_suc n = ground arith

subscribe-IsAt : (r : Option ℕ) (s : AbortSignal) → IsAt r s → IsAt r (subscribe s)
unfolding subscribe
subscribe-IsAt none s h = rw h.aborted (record {
  aborted = refl;
  reason = h.reason;
  received = λ k. h.waiting refl;
  waiting = h.waiting;
  emitted = h.emitted;
})
subscribe-IsAt (some v) s h =
    rw (h.aborted, ltb_suc s.receivers)
      (record {
        aborted = refl;
        reason = h.reason;
        received = λ k. h.reason;
        waiting = λ e. absurd (cc);
        emitted = h.emitted;
      })

drop-IsAt : (r : Option ℕ) (s : AbortSignal) → IsAt r s → IsAt r (drop_receiver s)
unfolding drop_receiver
drop-IsAt r s h = record {
  aborted = h.aborted;
  reason = h.reason;
  received = λ k. h.received (omega arith);
  waiting = h.waiting;
  emitted = h.emitted;
}

if-IsAt :
    (b : Bool) (r : Option ℕ) (s t : AbortSignal)
    → b ≡ true
    → IsAt r s
    → IsAt r (if b then s else t)
if-IsAt true r s t e h = h
if-IsAt false r s t e h = absurd (cc)

abort-IsAt :
    (exception : ℕ) (value : JsValue) (r : Option ℕ) (s : AbortSignal)
    → IsAt r s
    → IsAt (first_of r (some (reason_or value exception))) (controller_abort exception value s)
unfolding controller_abort broadcast_abort set_reason notify_abort get_reason_or_dom_exception
abort-IsAt exception value (some v) s h =
    if-IsAt s.aborted (some v) s (broadcast_abort exception (set_reason value s)) h.aborted h
abort-IsAt exception value none s h = elim (Bool-cases (ltb 0 s.receivers)) [
  | inl e ↦
      rw (h.aborted, e)
        (record {
          aborted = refl;
          reason = refl;
          received = λ k. refl;
          waiting = λ f. absurd (cc);
          emitted = rw h.emitted refl;
        })
  | inr e ↦
      rw (h.aborted, e)
        (record {
          aborted = refl;
          reason = refl;
          received = λ k. absurd (ground arith);
          waiting = λ f. absurd (cc);
          emitted = rw h.emitted refl;
        })
]

run-IsAt :
    (us : List Use) (r : Option ℕ) (s : AbortSignal)
    → IsAt r s
    → IsAt (first_of r (first_reason us)) (run us s)
unfolding run use_of first_reason
run-IsAt [] r s h = rw (first_of-none r) h
run-IsAt (aborts exception value ∷ us) r s h =
    rw⁻¹ (first_of_assoc r (reason_or value exception) (first_reason us))
      (run-IsAt us _ _ (abort-IsAt exception value r s h))
run-IsAt (subscribes ∷ us) r s h = run-IsAt us r (subscribe s) (subscribe-IsAt r s h)
run-IsAt (drops ∷ us) r s h = run-IsAt us r (drop_receiver s) (drop-IsAt r s h)

new-IsAt : IsAt none new
unfolding new
new-IsAt = record {
  aborted = refl;
  reason = refl;
  received = λ k. refl;
  waiting = λ e. refl;
  emitted = refl;
}

-- After any aborting by the controller, subscribing and dropping of receivers, in any order: the
-- signal is aborted when the controller has aborted it, its reason is the one of the first such
-- call or the exception made for it, and the event has been emitted exactly once then, and never
-- otherwise.
pub run_lem :
    (us : List Use)
    → ((run us new).aborted ≡ is_some (first_reason us))
      × ((run us new).reason ≡ first_reason us)
      × ((run us new).emitted ≡ (if is_some (first_reason us) then 1 else 0))
run_lem us =
    let h : IsAt (first_reason us) (run us new) = run-IsAt us none new new-IsAt in
    (h.aborted, h.reason, h.emitted)

-- After any aborting by the controller, subscribing and dropping of receivers, in any order, a
-- receiver that is left gets the reason of the first abort without waiting, whether it subscribed
-- before or after it, and has nothing to get when there was none.
pub recv_lem : (us : List Use) → 1 ≤ (run us new).receivers → recv (run us new) ≡ first_reason us
unfolding recv
recv_lem us k = (run-IsAt us none new new-IsAt).received k

abbrev pub subscribed : ℕ → List Use
subscribed zero = []
subscribed (suc n) = subscribes ∷ subscribed n

one_more :
    (k : ℕ) (value : JsValue) (old : JsValue)
    → subscribe
        (record { aborted = true; reason = value; sender = old; receivers = k; emitted = 0 })
      ≡ record { aborted = true; reason = value; sender = value; receivers = k + 1; emitted = 0 }
unfolding subscribe
one_more k value old = rw (ltb_suc k) refl

static_subscribed :
    (n k : ℕ) (value : JsValue) (old : JsValue) (s : AbortSignal)
    → s
      ≡ run
          (subscribed (suc n))
          (record { aborted = true; reason = value; sender = old; receivers = k; emitted = 0 })
    → (s.aborted ≡ true) × (throw_if_aborted s ≡ value) × (recv s ≡ value)
unfolding run use_of subscribe throw_if_aborted recv
static_subscribed zero k value old s e = rw (e, ltb_suc k) (refl, refl, refl)
static_subscribed (suc n) k value old s e =
    static_subscribed n (k + 1) value value s
      (e ∙ ap (run (subscribed (suc n))) (one_more k value old))

-- A signal that the static method `abort` makes throws its reason from `throwIfAborted` and hands
-- it to every receiver; so when the reason was left out, the signal is aborted, throws nothing, and
-- its receivers wait.
pub static_abort_lem :
    (value : JsValue) (n : ℕ)
    → ((run (subscribed (suc n)) (abort value)).aborted ≡ true)
      × (throw_if_aborted (run (subscribed (suc n)) (abort value)) ≡ value)
      × (recv (run (subscribed (suc n)) (abort value)) ≡ value)
unfolding abort set_reason new
static_abort_lem value n =
    static_subscribed n 0 value none (run (subscribed (suc n)) (abort value)) refl
