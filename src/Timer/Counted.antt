-- ===== src/Timer/Counted.antt =====
-- A timer that does not repeat has fired only if its entry is gone: kept by every operation.
use rong.Base.{
  ℕ, ◌+◌, ◌^◌, ◌≤◌, ◌≡◌, ◌≢◌, ◌⊎◌, inl, inr, refl, ap, sym, ◌∙◌, subst, true, false, Option, none,
  some, List, [], ◌∷◌, arith, if◌then◌else◌, ◌==◌, nat_eq, nat_beq_iff, Bool-cases,
}
use rong.Base.Assoc.{get, insert, get-insert, get-remove}
use rong.Timer.{
  TimerTick, TimerEntry, Kind, interval, TimerRegistry, spawned_task, spawn, receive_found,
  take_entry, call_entry, next_id,
}
use rong.Timer.Frame.{IsShrunk, update-IsShrunk, take_entry-IsShrunk}

-- How often the callback of an id was called.
unfoldable pub shots : ℕ → List ℕ → ℕ
shots j [] = 0
shots j (i ∷ fired) = (if i == j then 1 else 0) + shots j fired

-- A timer that does not repeat has fired only if its entry is gone.
abbrev pub IsSpent : Option TimerEntry → ℕ → Type 0
IsSpent none n = n ≤ 1
IsSpent (some e) n = (e.repeat ≡ false) × (n ≡ 0)

pub IsSpent-le : (o : Option TimerEntry) (n : ℕ) → IsSpent o n → n ≤ 1
IsSpent-le none n h = h
IsSpent-le (some e) n h = omega (arith, h.1)

IsSpent-shrunk :
    (o o' : Option TimerEntry) (n : ℕ) → (o' ≡ o) ⊎ (o' ≡ none) → IsSpent o n → IsSpent o' n
IsSpent-shrunk o o' n (inl e) h = subst (λ p. IsSpent p n) (sym e) h
IsSpent-shrunk o o' n (inr e) h = subst (λ p. IsSpent p n) (sym e) (IsSpent-le o n h)

pub record IsCounted (s : TimerRegistry) : Type 0 where
  pub early : (j : ℕ) → s.made ≤ j → (get j s.timers ≡ none) × (shots j s.fired ≡ 0)
  pub spent : (j : ℕ) → (s.tasks j).kind ≢ interval → IsSpent (get j s.timers) (shots j s.fired)

pub still_none : (o o' : Option TimerEntry) → (o' ≡ o) ⊎ (o' ≡ none) → o ≡ none → o' ≡ none
still_none o o' (inl e) h = e ∙ h
still_none o o' (inr e) h = e

pub shrunk-IsCounted : (s t : TimerRegistry) → IsShrunk s t → IsCounted s → IsCounted t
shrunk-IsCounted s t p v = record {
  early = λ j h.
      let old = v.early j (rw (sym p.made) h) in
      (still_none _ _ (p.entries j) old.0, ap (shots j) p.fired ∙ old.1);
  spent = λ j h.
      let old = v.spent j (λ e. h (p.kinds j ∙ e)) in
      subst (λ f. IsSpent (get j t.timers) (shots j f)) (sym p.fired)
        (IsSpent-shrunk _ _ _ (p.entries j) old);
}

get-spawn :
    (kind : Kind) (entry : TimerEntry) (delay : ℕ) (s : TimerRegistry) (j : ℕ)
    → s.made + 1 ≤ 2 ^ 32
    → get j (spawn kind entry delay s).timers ≡ (if s.made == j then some entry else get j s.timers)
get-spawn kind entry delay s j small =
    let id : next_id s ≡ s.made = omega arith in
    ap (λ i. get j (insert i entry s.timers)) id ∙ get-insert s.made j entry s.timers

pub get-spawn_other :
    (kind : Kind) (entry : TimerEntry) (delay : ℕ) (s : TimerRegistry) (j : ℕ)
    → s.made + 1 ≤ 2 ^ 32
    → (s.made == j) ≡ false
    → get j (spawn kind entry delay s).timers ≡ get j s.timers
get-spawn_other kind entry delay s j small e =
    get-spawn kind entry delay s j small ∙ ap (λ b. if b then some entry else get j s.timers) e

pub spawn-IsCounted :
    (kind : Kind) (entry : TimerEntry) (delay : ℕ) (s : TimerRegistry)
    → (kind ≢ interval → entry.repeat ≡ false)
    → s.made + 1 ≤ 2 ^ 32
    → IsCounted s
    → IsCounted (spawn kind entry delay s)
spawn-IsCounted kind entry delay s h small v = record {
  early = λ j k.
      let old = v.early j (omega arith) in
      let apart : (s.made == j) ≡ false = ground (arith, nat_beq_iff s.made j) in
      (get-spawn_other kind entry delay s j small apart ∙ old.0, old.1);
  spent = λ j k. elim (Bool-cases (s.made == j)) [
    | inl e ↦
        let same = (nat_beq_iff s.made j).0 e in
        let kind_j = ap (λ b. (if b then spawned_task kind delay s else s.tasks j).kind) e in
        let entry_j =
          get-spawn kind entry delay s j small
          ∙ ap (λ b. if b then some entry else get j s.timers) e in
        subst (λ o. IsSpent o (shots j s.fired)) (sym entry_j)
          (h (λ q. k (kind_j ∙ q)), (v.early j (omega arith)).1)
    | inr e ↦
        let kind_j = ap (λ b. (if b then spawned_task kind delay s else s.tasks j).kind) e in
        subst (λ o. IsSpent o (shots j s.fired))
          (sym (get-spawn_other kind entry delay s j small e)) (v.spent j (λ q. k (kind_j ∙ q)))
  ];
}

not_early :
    (id j : ℕ) (entry : TimerEntry) (s : TimerRegistry)
    → get id s.timers ≡ some entry
    → IsCounted s
    → s.made ≤ j
    → (id == j) ≡ false
not_early id j entry s e v h = elim (Bool-cases (id == j)) [
  | inl q ↦
      let same = (nat_beq_iff id j).0 q in
      let early = (v.early id (rw (sym same) at h)).0 in absurd (cc)
  | inr q ↦ q
]

pub shots_other :
    (id j : ℕ) (fired : List ℕ) → (id == j) ≡ false → shots j (id ∷ fired) ≡ shots j fired
unfolding shots
shots_other id j fired e = rw e (omega arith)

shots_own : (id : ℕ) (fired : List ℕ) → shots id (id ∷ fired) ≡ 1 + shots id fired
unfolding shots
shots_own id fired = rw ((nat_beq_iff id id).1 refl) refl

-- A callback is called: its entry repeats, or has been taken out.
fire-IsCounted :
    (id : ℕ) (entry : TimerEntry) (s u : TimerRegistry)
    → get id s.timers ≡ some entry
    → u.made ≡ s.made
    → u.fired ≡ id ∷ s.fired
    → u.tasks ≡ s.tasks
    → ((j : ℕ) → (id == j) ≡ false → get j u.timers ≡ get j s.timers)
    → (entry.repeat ≡ true) ⊎ (get id u.timers ≡ none)
    → IsCounted s
    → IsCounted u
fire-IsCounted id entry s u e made fired tasks others own v = record {
  early = λ j h.
      let h' = rw made at h in
      let apart = not_early id j entry s e v h' in
      let old = v.early j h' in
      (others j apart ∙ old.0, ap (shots j) fired ∙ shots_other id j s.fired apart ∙ old.1);
  spent = λ j k. elim (Bool-cases (id == j)) [
    | inl q ↦
        let same = (nat_beq_iff id j).0 q in
        let kept =
          v.spent id
            (λ r. k (ap (λ f. (f j).kind) tasks ∙ ap (λ i. (s.tasks i).kind) (sym same) ∙ r)) in
        let unfired = subst (λ o. IsSpent o (shots id s.fired)) e kept in
        let count = ap (shots id) fired ∙ shots_own id s.fired in
        elim own [
          | inl r ↦ absurd (cc)
          | inr n ↦
              subst (λ i. IsSpent (get i u.timers) (shots i u.fired)) same
                (subst (λ o. IsSpent o (shots id u.fired)) (sym n)
                  (omega (arith, unfired.1, count)))
        ]
    | inr q ↦
        subst (λ o. IsSpent o (shots j u.fired)) (sym (others j q))
          (subst (λ n. IsSpent (get j s.timers) n)
            (sym (ap (shots j) fired ∙ shots_other id j s.fired q))
            (v.spent j (λ r. k (ap (λ f. (f j).kind) tasks ∙ r))))
  ];
}

pub take_entry_others :
    (tick : TimerTick) (entry : TimerEntry) (s : TimerRegistry) (j : ℕ)
    → (tick.id == j) ≡ false
    → get j (take_entry tick entry s).timers ≡ get j s.timers
take_entry_others tick entry s j q = elim (Bool-cases entry.repeat) [
  | inl r ↦ rw r refl
  | inr r ↦ rw r (get-remove tick.id j s.timers ∙ ap (λ b. if b then none else get j s.timers) q)
]

take_entry_own :
    (tick : TimerTick) (entry : TimerEntry) (s : TimerRegistry)
    → (entry.repeat ≡ true) ⊎ (get tick.id (take_entry tick entry s).timers ≡ none)
take_entry_own tick entry s = elim (Bool-cases entry.repeat) [
  | inl r ↦ inl r
  | inr r ↦ inr (
      rw r (
        get-remove tick.id tick.id s.timers
        ∙ ap (λ b. if b then none else get tick.id s.timers)
            ((nat_beq_iff tick.id tick.id).1 refl)))
]

take_entry_tasks :
    (tick : TimerTick) (entry : TimerEntry) (s : TimerRegistry)
    → (take_entry tick entry s).tasks ≡ s.tasks
take_entry_tasks tick entry s = elim (Bool-cases entry.repeat) [
  | inl r ↦ rw r refl
  | inr r ↦ rw r refl
]

call_entry-IsCounted :
    (tick : TimerTick) (ticks : List TimerTick) (entry : TimerEntry) (s : TimerRegistry)
    (o : Option ℕ)
    → get tick.id s.timers ≡ some entry
    → IsCounted s
    → IsCounted
        (call_entry tick entry.repeat (take_entry tick entry (record s { queue = ticks })) o)
call_entry-IsCounted tick ticks entry s none e v =
    let t : TimerRegistry = record s { queue = ticks } in
    let taken = take_entry tick entry t in
    shrunk-IsCounted taken _ (update-IsShrunk tick.task _ taken refl) (
      shrunk-IsCounted t taken (take_entry-IsShrunk tick entry t)
        (record { early = v.early; spent = v.spent }))
call_entry-IsCounted tick ticks entry s (some f) e v =
    let t : TimerRegistry = record s { queue = ticks } in
    fire-IsCounted tick.id entry s _ e (take_entry-IsShrunk tick entry t).made
      (ap (◌∷◌ tick.id) (take_entry-IsShrunk tick entry t).fired) (take_entry_tasks tick entry t)
      (take_entry_others tick entry t) (take_entry_own tick entry t) v

pub receive_found-IsCounted :
    (tick : TimerTick) (ticks : List TimerTick) (s : TimerRegistry) (o : Option TimerEntry)
    → get tick.id s.timers ≡ o
    → IsCounted s
    → IsCounted (receive_found tick (record s { queue = ticks }) o)
receive_found-IsCounted tick ticks s none e v =
    shrunk-IsCounted s _
      (record {
        entries = λ j. inl refl;
        fired = refl;
        made = refl;
        kinds = (update-IsShrunk tick.task _ s refl).kinds;
      })
      v
receive_found-IsCounted tick ticks s (some entry) e v =
    call_entry-IsCounted tick ticks entry s entry.callback e v
