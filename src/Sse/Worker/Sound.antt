-- ===== src/Sse/Worker/Sound.antt =====
-- What holds of a worker while it runs, and when it has ended.
use rong.Base.{
  ℕ, ◌≤◌, ◌≡◌, ◌⊎◌, inl, inr, refl, sym, ◌∙◌, Bool, true, false, List, [], ◌∷◌, ◌++◌, map, arith,
  All, All-append, append-nil, if◌then◌else◌, nat_eq,
}
use rong.Text.{Text}
use rong.Sse.{SseReconnectOptions, SseEvent, Item, event, failure}
use rong.Sse.Parse.Delay.{IsPaced}
use rong.Sse.Worker.{Worker, Next, again, done, base_delay_ms, max_delay_ms, back_off, after_wait}

pub base_delay-range :
    (r : SseReconnectOptions) → (1 ≤ base_delay_ms r) × (base_delay_ms r ≤ max_delay_ms r)
unfolding base_delay_ms max_delay_ms
base_delay-range r = omega arith

pub Next-cases : (n : Next) → ((w : Worker) × (n ≡ again w)) ⊎ ((w : Worker) × (n ≡ done w))
Next-cases (again w) = inl (w, refl)
Next-cases (done w) = inr (w, refl)

-- Only events were sent.
abbrev pub OnlyEvents : List Item → Type 0
OnlyEvents sent = (es : List SseEvent) × (sent ≡ map event es)

-- Events were sent, and then perhaps one error.
abbrev pub ClosedBy : List Item → Type 0
ClosedBy sent =
    (es : List SseEvent) × (end : List Item) × (sent ≡ map event es ++ end)
    × ((end ≡ []) ⊎ ((e : Text) × (end ≡ failure e ∷ [])))

module _ (r : SseReconnectOptions) where
  abbrev pub WaitsInRange : List ℕ → Type 0
  WaitsInRange = All λ d. (1 ≤ d) × (d ≤ max_delay_ms r)

  pub record IsRunning (w : Worker) : Type 0 where
    pub paced : IsPaced (max_delay_ms r) w.session
    pub waits : WaitsInRange w.waited
    pub events : OnlyEvents w.session.sent

  pub record HasEnded (w : Worker) : Type 0 where
    pub waits : WaitsInRange w.waited
    pub sends : ClosedBy w.session.sent

  abbrev pub IsSound : Next → Type 0
  IsSound (again w) = IsRunning w
  IsSound (done w) = HasEnded w

  pub ended : (w : Worker) → IsRunning w → HasEnded w
  ended w v = record {
    waits = v.waits;
    sends = (v.events.0, [], v.events.1 ∙ sym (append-nil _), inl refl);
  }

  pub back_off-IsRunning : (w : Worker) → IsRunning w → IsRunning (back_off r w)
  unfolding back_off
  back_off-IsRunning w v =
      let range = base_delay-range r in
      record {
        paced = omega (arith, v.paced);
        waits =
            All-append (λ d. (1 ≤ d) × (d ≤ max_delay_ms r)) w.waited _ v.waits
              ((omega (arith, v.paced), omega (arith, v.paced)), tt);
        events = v.events;
      }

  pub if-IsSound : (b : Bool) (m n : Next) → IsSound m → IsSound n → IsSound (if b then m else n)
  if-IsSound true m n v u = v
  if-IsSound false m n v u = u

  pub after_wait-IsSound : (b : Bool) (w : Worker) → IsRunning w → IsSound (after_wait b w)
  after_wait-IsSound true w v = ended w v
  after_wait-IsSound false w v = v
