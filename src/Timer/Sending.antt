-- ===== src/Timer/Sending.antt =====
-- The flags are kept by the tasks: a tick is sent, a task begins, goes on or ends.
use rong.Base.{
  ℕ, ◌≡◌, ◌≢◌, inl, inr, refl, sym, ◌∙◌, Bool, true, false, [], ◌∷◌, ◌++◌, arith, if◌then◌else◌,
  ◌==◌, nat_eq, nat_beq_iff, Bool-cases,
}
use rong.Timer.{
  TimerTick, TimerEntry, Kind, one_shot, interval, sleep, Phase, absent, over, Task, TimerRegistry,
  spawn, cancel_timer, send_tick, wake_kind, notice_kind, update, set_phase, set_pending,
}
use rong.Timer.Paced.{
  IsPaced, still-IsPaced, IsStill-refl, update-IsStill, cancel_timer-IsStill, begun-IsStill,
  raise-IsPaced,
}

pub if-elim :
    {A : Type 0} (P : A → Type 0) (b : Bool) (x y : A)
    → (b ≡ true → P x)
    → (b ≡ false → P y)
    → P (if b then x else y)
if-elim P true x y p q = p refl
if-elim P false x y p q = q refl

pub send_tick-IsPaced :
    (k : ℕ) (s : TimerRegistry) → (s.tasks k).phase ≢ absent → IsPaced s → IsPaced (send_tick k s).0
unfolding send_tick
send_tick-IsPaced k s begun v =
    let tick : TimerTick = record { id = (s.tasks k).id; task = k } in
    if-elim (λ (r : TimerRegistry × Bool). IsPaced r.0) (s.tasks k).pending (s, false) _ (λ p. v)
      λ p.
        if-elim (λ (r : TimerRegistry × Bool). IsPaced r.0) s.receiving
          (set_pending k true (record s { queue = s.queue ++ tick ∷ [] }), true)
          (set_pending k false s, false) (λ r. raise-IsPaced k tick s refl p begun v)
          λ r. still-IsPaced s _ (update-IsStill k _ s (sym p) (λ e. absurd (begun e))) v

pub update_phase : (k : ℕ) (t : Task) (s : TimerRegistry) → ((update k t s).tasks k).phase ≡ t.phase
update_phase k t s = rw ((nat_beq_iff k k).1 refl) refl

pub send_tick-begun :
    (k : ℕ) (s : TimerRegistry)
    → (s.tasks k).phase ≢ absent
    → ((send_tick k s).0.tasks k).phase ≢ absent
unfolding send_tick
send_tick-begun k s begun =
    let tick : TimerTick = record { id = (s.tasks k).id; task = k } in
    if-elim (λ (r : TimerRegistry × Bool). (r.0.tasks k).phase ≢ absent) (s.tasks k).pending
      (s, false) _ (λ p. begun)
      λ p.
        if-elim (λ (r : TimerRegistry × Bool). (r.0.tasks k).phase ≢ absent) s.receiving
          (set_pending k true (record s { queue = s.queue ++ tick ∷ [] }), true)
          (set_pending k false s, false) (λ r e. begun (sym (update_phase k _ s) ∙ e))
          λ r e. begun (sym (update_phase k _ s) ∙ e)

pub begun-IsPaced :
    (k : ℕ) (p : Phase) (t : TimerRegistry)
    → (t.tasks k).phase ≢ absent
    → IsPaced t
    → IsPaced (set_phase k p t)
begun-IsPaced k p t h v = still-IsPaced t _ (begun-IsStill k p t t h (IsStill-refl t)) v

-- A task that has begun drops its registration and is over.
pub drop-IsPaced :
    (k id : ℕ) (s : TimerRegistry)
    → (s.tasks k).phase ≢ absent
    → IsPaced s
    → IsPaced (set_phase k over (cancel_timer id s))
drop-IsPaced k id s begun v =
    still-IsPaced s _ (begun-IsStill k over s _ begun (cancel_timer-IsStill id s)) v

pub wake_kind-IsPaced :
    (kind : Kind) (k : ℕ) (s : TimerRegistry)
    → (s.tasks k).phase ≢ absent
    → IsPaced s
    → IsPaced (wake_kind kind k s)
wake_kind-IsPaced one_shot k s begun v =
    begun-IsPaced k _ (send_tick k s).0 (send_tick-begun k s begun) (send_tick-IsPaced k s begun v)
wake_kind-IsPaced interval k s begun v =
    begun-IsPaced k _ (send_tick k s).0 (send_tick-begun k s begun) (send_tick-IsPaced k s begun v)
wake_kind-IsPaced sleep k s begun v = drop-IsPaced k (s.tasks k).id s begun v

pub notice_kind-IsPaced :
    (kind : Kind) (k : ℕ) (s : TimerRegistry)
    → (s.tasks k).phase ≢ absent
    → IsPaced s
    → IsPaced (notice_kind kind k s)
notice_kind-IsPaced one_shot k s begun v = begun-IsPaced k _ s begun v
notice_kind-IsPaced interval k s begun v = begun-IsPaced k _ s begun v
notice_kind-IsPaced sleep k s begun v = drop-IsPaced k (s.tasks k).id s begun v

pub spawn-IsPaced :
    (kind : Kind) (entry : TimerEntry) (delay : ℕ) (s : TimerRegistry)
    → IsPaced s
    → IsPaced (spawn kind entry delay s)
spawn-IsPaced kind entry delay s v = record {
  bound = λ k. elim (Bool-cases (s.made == k)) [
    | inl q ↦
        let same = (nat_beq_iff s.made k).0 q in
        let down = (v.unmade k (omega (arith, same))).1 in rw q (rw down at (v.bound k))
    | inr q ↦ rw q (v.bound k)
  ];
  unmade = λ k h.
      let apart : (s.made == k) ≡ false = ground (arith, nat_beq_iff s.made k) in
      rw apart (v.unmade k (omega arith));
}
