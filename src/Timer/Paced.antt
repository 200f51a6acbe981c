-- ===== src/Timer/Paced.antt =====
-- The `pending` flags and the ticks that they stand for.
use rong.Base.{
  ℕ, ◌+◌, ◌≤◌, ◌≡◌, ◌≢◌, inl, inr, refl, ap, sym, ◌∙◌, subst, Bool, true, false, Option, none, some,
  List, [], ◌∷◌, ◌++◌, arith, if◌then◌else◌, ◌==◌, nat_eq, nat_beq_iff, Bool-cases,
}
use rong.Base.Assoc.{get, remove}
use rong.Timer.{
  TimerTick, TimerEntry, Phase, absent, Task, Running, TimerRegistry, cancel, cancel_all,
  cancel_found, cancel_timer, update, set_phase, set_pending,
}

-- The ticks of a task that wait in the queue, and the one whose callback runs.
unfoldable pub queued : ℕ → List TimerTick → ℕ
queued k [] = 0
queued k (tick ∷ ticks) = (if tick.task == k then 1 else 0) + queued k ticks

abbrev pub in_callback : ℕ → Option Running → ℕ
in_callback k none = 0
in_callback k (some r) = if r.tick.task == k then 1 else 0

abbrev pub ticks : ℕ → TimerRegistry → ℕ
ticks k s = queued k s.queue + in_callback k s.running

abbrev pub allowed : Bool → ℕ
allowed true = 1
allowed false = 0

-- The flag bounds the ticks; a task that has not been made has no flag.
pub record IsPaced (s : TimerRegistry) : Type 0 where
  pub bound : (k : ℕ) → ticks k s ≤ allowed (s.tasks k).pending
  pub unmade : (k : ℕ) → s.made ≤ k → ((s.tasks k).phase ≡ absent) × ((s.tasks k).pending ≡ false)

-- Queue, running callback, flags and counter stay, and no unmade task begins.
pub record IsStill (s t : TimerRegistry) : Type 0 where
  pub queue : t.queue ≡ s.queue
  pub running : t.running ≡ s.running
  pub made : t.made ≡ s.made
  pub pending : (k : ℕ) → (t.tasks k).pending ≡ (s.tasks k).pending
  pub phase : (k : ℕ) → (s.tasks k).phase ≡ absent → (t.tasks k).phase ≡ absent

pub still-IsPaced : (s t : TimerRegistry) → IsStill s t → IsPaced s → IsPaced t
still-IsPaced s t p v = record {
  bound = λ k.
      subst (λ b. ticks k t ≤ allowed b) (sym (p.pending k)) (rw (p.queue, p.running) (v.bound k));
  unmade =
      λ k h. let old = v.unmade k (rw (sym p.made) h) in (p.phase k old.0, p.pending k ∙ old.1);
}

pub IsStill-refl : (s : TimerRegistry) → IsStill s s
IsStill-refl s = record {
  queue = refl;
  running = refl;
  made = refl;
  pending = λ k. refl;
  phase = λ k h. h;
}

pub IsStill-trans : (s t u : TimerRegistry) → IsStill s t → IsStill t u → IsStill s u
IsStill-trans s t u p q = record {
  queue = q.queue ∙ p.queue;
  running = q.running ∙ p.running;
  made = q.made ∙ p.made;
  pending = λ k. q.pending k ∙ p.pending k;
  phase = λ k h. q.phase k (p.phase k h);
}

pub update-IsStill :
    (k : ℕ) (t : Task) (s : TimerRegistry)
    → t.pending ≡ (s.tasks k).pending
    → ((s.tasks k).phase ≡ absent → t.phase ≡ absent)
    → IsStill s (update k t s)
update-IsStill k t s e h = record {
  queue = refl;
  running = refl;
  made = refl;
  pending = λ j. ground (arith, nat_beq_iff k j, e);
  phase = λ j f. elim (Bool-cases (k == j)) [
    | inl q ↦ rw q (h (ap (λ i. (s.tasks i).phase) ((nat_beq_iff k j).0 q) ∙ f))
    | inr q ↦ rw q f
  ];
}

cancel_found-IsStill :
    (id : ℕ) (s : TimerRegistry) (o : Option TimerEntry) → IsStill s (cancel_found id s o)
cancel_found-IsStill id s none = IsStill-refl s
cancel_found-IsStill id s (some e) =
    let t : TimerRegistry = record s { timers = remove id s.timers } in
    IsStill-trans s t _
      (record { queue = refl; running = refl; made = refl; pending = λ k. refl; phase = λ k h. h })
      (update-IsStill e.cancel _ t refl (λ h. h))

pub cancel_timer-IsStill : (id : ℕ) (s : TimerRegistry) → IsStill s (cancel_timer id s)
unfolding cancel_timer
cancel_timer-IsStill id s = cancel_found-IsStill id s (get id s.timers)

pub cancel_all-IsStill :
    (es : List (ℕ × TimerEntry)) (s : TimerRegistry) → IsStill s (cancel_all es s)
cancel_all-IsStill [] s = IsStill-refl s
cancel_all-IsStill ((id, e) ∷ es) s =
    IsStill-trans s (cancel e.cancel s) _ (update-IsStill e.cancel _ s refl (λ h. h))
      (cancel_all-IsStill es (cancel e.cancel s))

-- A task that had begun goes on to another phase.
pub begun-IsStill :
    (k : ℕ) (p : Phase) (s t : TimerRegistry)
    → (s.tasks k).phase ≢ absent
    → IsStill s t
    → IsStill s (set_phase k p t)
begun-IsStill k p s t h v = record {
  queue = v.queue;
  running = v.running;
  made = v.made;
  pending = λ j. ground (arith, nat_beq_iff k j, v.pending j);
  phase = λ j e. elim (Bool-cases (k == j)) [
    | inl q ↦ absurd (h (ap (λ i. (s.tasks i).phase) ((nat_beq_iff k j).0 q) ∙ e))
    | inr q ↦ rw q (v.phase j e)
  ];
}

-- An allowed flag has at most one tick.
pub allowed-le : (b : Bool) → allowed b ≤ 1
allowed-le true = omega arith
allowed-le false = omega arith

bit-le : (b : Bool) → (if b then 1 else 0) ≤ 1
bit-le true = omega arith
bit-le false = omega arith

-- The flag of `k` still stands for a tick that is gone.
pub record IsOwed (k : ℕ) (s : TimerRegistry) : Type 0 where
  pub bound : (j : ℕ) → ticks j s + (if k == j then 1 else 0) ≤ allowed (s.tasks j).pending
  pub unmade : (j : ℕ) → s.made ≤ j → ((s.tasks j).phase ≡ absent) × ((s.tasks j).pending ≡ false)

pub still-IsOwed : (k : ℕ) (s t : TimerRegistry) → IsStill s t → IsOwed k s → IsOwed k t
still-IsOwed k s t p v = record {
  bound = λ j.
      subst (λ b. ticks j t + (if k == j then 1 else 0) ≤ allowed b) (sym (p.pending j))
        (rw (p.queue, p.running) (v.bound j));
  unmade =
      λ j h. let old = v.unmade j (rw (sym p.made) h) in (p.phase j old.0, p.pending j ∙ old.1);
}

-- The flag is lowered.
pub lower-IsPaced : (k : ℕ) (s : TimerRegistry) → IsOwed k s → IsPaced (set_pending k false s)
lower-IsPaced k s v = record {
  bound = λ j. elim (Bool-cases (k == j)) [
    | inl q ↦
        let least = allowed-le (s.tasks j).pending in
        let one = rw q at (v.bound j) in rw q (omega (arith, least, one))
    | inr q ↦ let same = rw q at (v.bound j) in rw q (omega (arith, same))
  ];
  unmade = λ j h.
      let old = v.unmade j h in
      elim (Bool-cases (k == j)) [
        | inl q ↦ rw q (ap (λ i. (s.tasks i).phase) ((nat_beq_iff k j).0 q) ∙ old.0, refl)
        | inr q ↦ rw q old
      ];
}

queued-append : (j : ℕ) (ts us : List TimerTick) → queued j (ts ++ us) ≡ queued j ts + queued j us
unfolding queued
queued-append j [] us = omega arith
queued-append j (t ∷ ts) us = omega (arith, queued-append j ts us)

pub unmade_apart :
    (k j : ℕ) (s : TimerRegistry)
    → IsPaced s
    → (s.tasks k).phase ≢ absent
    → s.made ≤ j
    → (k == j) ≡ false
unmade_apart k j s v h le = elim (Bool-cases (k == j)) [
  | inl q ↦ let same = (nat_beq_iff k j).0 q in absurd (h (v.unmade k (rw same le)).0)
  | inr q ↦ q
]

-- The tick goes to the queue, and the flag that was down is raised.
pub raise-IsPaced :
    (k : ℕ) (tick : TimerTick) (s : TimerRegistry)
    → tick.task ≡ k
    → (s.tasks k).pending ≡ false
    → (s.tasks k).phase ≢ absent
    → IsPaced s
    → IsPaced (set_pending k true (record s { queue = s.queue ++ tick ∷ [] }))
unfolding queued
raise-IsPaced k tick s own down begun v = record {
  bound = λ j.
      let split = queued-append j s.queue (tick ∷ []) in
      elim (Bool-cases (k == j)) [
        | inl q ↦
            let none_yet = rw down at (v.bound k) in
            let same = (nat_beq_iff k j).0 q in
            let none_here = subst (λ i. ticks i s ≤ 0) same none_yet in
            let one = bit-le (tick.task == j) in rw q (omega (arith, split, none_here, one))
        | inr q ↦
            let other : (tick.task == j) ≡ false = ap (λ t. t == j) own ∙ q in
            rw q (omega (arith, rw other at split, v.bound j))
      ];
  unmade = λ j h. let old = v.unmade j h in rw (unmade_apart k j s v begun h) old;
}
