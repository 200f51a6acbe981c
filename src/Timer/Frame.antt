-- ===== src/Timer/Frame.antt =====
-- What the steps leave alone: but for a new timer and a tick that is taken, a step at most removes
-- entries.
use rong.Base.{
  ℕ, ◌≡◌, ◌⊎◌, inl, inr, refl, ap, ◌∙◌, Bool, true, false, ◌&&◌, Option, none, some, List, [], ◌∷◌,
  ◌++◌, arith, if◌then◌else◌, ◌==◌, nat_eq, nat_beq_iff, Bool-cases,
}
use rong.Base.Assoc.{get, remove, get-remove}
use rong.Timer.{
  Phase, TimerTick, TimerEntry, take_entry, Kind, one_shot, interval, sleep, Task, Running,
  TimerRegistry, update, set_phase, set_pending, cancel, cancel_found, cancel_timer, cancel_all,
  shutdown, send_tick, wake_kind, wake, rest, notice_kind, notice, reap, abort, return_from, close,
}

pub record IsShrunk (s t : TimerRegistry) : Type 0 where
  pub entries : (j : ℕ) → (get j t.timers ≡ get j s.timers) ⊎ (get j t.timers ≡ none)
  pub fired : t.fired ≡ s.fired
  pub made : t.made ≡ s.made
  pub kinds : (j : ℕ) → (t.tasks j).kind ≡ (s.tasks j).kind

IsShrunk-refl : (s : TimerRegistry) → IsShrunk s s
IsShrunk-refl s = record { entries = λ j. inl refl; fired = refl; made = refl; kinds = λ j. refl }

then_shrunk :
    (j : ℕ) (s t u : TimerRegistry)
    → (get j t.timers ≡ get j s.timers) ⊎ (get j t.timers ≡ none)
    → (get j u.timers ≡ get j t.timers) ⊎ (get j u.timers ≡ none)
    → (get j u.timers ≡ get j s.timers) ⊎ (get j u.timers ≡ none)
then_shrunk j s t u (inl e) (inl f) = inl (f ∙ e)
then_shrunk j s t u (inr e) (inl f) = inr (f ∙ e)
then_shrunk j s t u e (inr f) = inr f

IsShrunk-trans : (s t u : TimerRegistry) → IsShrunk s t → IsShrunk t u → IsShrunk s u
IsShrunk-trans s t u p q = record {
  entries = λ j. then_shrunk j s t u (p.entries j) (q.entries j);
  fired = q.fired ∙ p.fired;
  made = q.made ∙ p.made;
  kinds = λ j. q.kinds j ∙ p.kinds j;
}

pub update-IsShrunk :
    (k : ℕ) (t : Task) (s : TimerRegistry) → t.kind ≡ (s.tasks k).kind → IsShrunk s (update k t s)
update-IsShrunk k t s h = record {
  entries = λ j. inl refl;
  fired = refl;
  made = refl;
  kinds = λ j. ground (arith, nat_beq_iff k j, h);
}

removed :
    (id j : ℕ) (s : TimerRegistry)
    → (get j (remove id s.timers) ≡ get j s.timers) ⊎ (get j (remove id s.timers) ≡ none)
removed id j s = elim (Bool-cases (id == j)) [
  | inl e ↦ inr (get-remove id j s.timers ∙ ap (λ b. if b then none else get j s.timers) e)
  | inr e ↦ inl (get-remove id j s.timers ∙ ap (λ b. if b then none else get j s.timers) e)
]

pub take_entry-IsShrunk :
    (tick : TimerTick) (entry : TimerEntry) (s : TimerRegistry)
    → IsShrunk s (take_entry tick entry s)
take_entry-IsShrunk tick entry s = elim (Bool-cases entry.repeat) [
  | inl r ↦ rw r (IsShrunk-refl s)
  | inr r ↦
      rw r (record {
        entries = λ j. removed tick.id j s;
        fired = refl;
        made = refl;
        kinds = λ j. refl;
      })
]

cancel_found-IsShrunk :
    (id : ℕ) (s : TimerRegistry) (o : Option TimerEntry) → IsShrunk s (cancel_found id s o)
cancel_found-IsShrunk id s none = IsShrunk-refl s
cancel_found-IsShrunk id s (some e) =
    let t : TimerRegistry = record s { timers = remove id s.timers } in
    IsShrunk-trans s t _
      (record { entries = λ j. removed id j s; fired = refl; made = refl; kinds = λ j. refl })
      (update-IsShrunk e.cancel _ t refl)

pub cancel_timer-IsShrunk : (id : ℕ) (s : TimerRegistry) → IsShrunk s (cancel_timer id s)
unfolding cancel_timer
cancel_timer-IsShrunk id s = cancel_found-IsShrunk id s (get id s.timers)

cancel_all-IsShrunk :
    (es : List (ℕ × TimerEntry)) (s : TimerRegistry) → IsShrunk s (cancel_all es s)
cancel_all-IsShrunk [] s = IsShrunk-refl s
cancel_all-IsShrunk ((id, e) ∷ es) s =
    IsShrunk-trans s (cancel e.cancel s) _ (update-IsShrunk e.cancel _ s refl)
      (cancel_all-IsShrunk es (cancel e.cancel s))

pub shutdown-IsShrunk : (s : TimerRegistry) → IsShrunk s (shutdown s)
unfolding shutdown get
shutdown-IsShrunk s =
    IsShrunk-trans s (record s { timers = [] }) _
      (record { entries = λ j. inr refl; fired = refl; made = refl; kinds = λ j. refl })
      (cancel_all-IsShrunk s.timers (record s { timers = [] }))

if-IsShrunk :
    {A : Type 0} (b : Bool) (s : TimerRegistry) (x y : TimerRegistry × A)
    → IsShrunk s x.0
    → IsShrunk s y.0
    → IsShrunk s (if b then x else y).0
if-IsShrunk true s x y p q = p
if-IsShrunk false s x y p q = q

send_tick-IsShrunk : (k : ℕ) (s : TimerRegistry) → IsShrunk s (send_tick k s).0
unfolding send_tick
send_tick-IsShrunk k s = if-IsShrunk (s.tasks k).pending s _ _ (IsShrunk-refl s) (
    if-IsShrunk s.receiving s
      (
        set_pending k true
            (record s { queue = s.queue ++ record { id = (s.tasks k).id; task = k } ∷ [] }),
        true,
      )
      (set_pending k false s, false)
      (record {
        entries = λ j. inl refl;
        fired = refl;
        made = refl;
        kinds = (update-IsShrunk k (record (s.tasks k) { pending = true }) s refl).kinds;
      })
      (update-IsShrunk k (record (s.tasks k) { pending = false }) s refl))

then_phase : (k : ℕ) (s t : TimerRegistry) (p : Phase) → IsShrunk s t → IsShrunk s (set_phase k p t)
then_phase k s t p h = IsShrunk-trans s t _ h (update-IsShrunk k _ t refl)

wake_kind-IsShrunk : (kind : Kind) (k : ℕ) (s : TimerRegistry) → IsShrunk s (wake_kind kind k s)
wake_kind-IsShrunk one_shot k s = then_phase k s (send_tick k s).0 _ (send_tick-IsShrunk k s)
wake_kind-IsShrunk interval k s = then_phase k s (send_tick k s).0 _ (send_tick-IsShrunk k s)
wake_kind-IsShrunk sleep k s = then_phase k s _ _ (cancel_timer-IsShrunk (s.tasks k).id s)

notice_kind-IsShrunk : (kind : Kind) (k : ℕ) (s : TimerRegistry) → IsShrunk s (notice_kind kind k s)
notice_kind-IsShrunk one_shot k s = then_phase k s s _ (IsShrunk-refl s)
notice_kind-IsShrunk interval k s = then_phase k s s _ (IsShrunk-refl s)
notice_kind-IsShrunk sleep k s = then_phase k s _ _ (cancel_timer-IsShrunk (s.tasks k).id s)

pub wake-IsShrunk : (k : ℕ) (s : TimerRegistry) → IsShrunk s (wake k s)
unfolding wake
wake-IsShrunk k s = wake_kind-IsShrunk (s.tasks k).kind k s

pub notice-IsShrunk : (k : ℕ) (s : TimerRegistry) → IsShrunk s (notice k s)
unfolding notice
notice-IsShrunk k s = notice_kind-IsShrunk (s.tasks k).kind k s

pub rest-IsShrunk : (k : ℕ) (s : TimerRegistry) → IsShrunk s (rest k s)
unfolding rest
rest-IsShrunk k s = then_phase k s s _ (IsShrunk-refl s)

pub abort-IsShrunk : (k : ℕ) (s : TimerRegistry) → IsShrunk s (abort k s)
unfolding abort
abort-IsShrunk k s = then_phase k s _ _ (cancel_timer-IsShrunk (s.tasks k).id s)

pub reap-IsShrunk : (k : ℕ) (queued : Bool) (s : TimerRegistry) → IsShrunk s (reap k queued s)
unfolding reap
reap-IsShrunk k true s = then_phase k s s _ (IsShrunk-refl s)
reap-IsShrunk k false s = then_phase k s _ _ (cancel_timer-IsShrunk (s.tasks k).id s)

pub return_from-IsShrunk :
    (r : Running) (failed : Bool) (s : TimerRegistry) → IsShrunk s (return_from r failed s)
unfolding return_from
return_from-IsShrunk r failed s = elim (Bool-cases (failed && r.repeat)) [
  | inl e ↦
      let t : TimerRegistry = record s { running = none } in
      rw e (
        IsShrunk-trans s (cancel_timer r.tick.id t) _
          (IsShrunk-trans s t _
            (record { entries = λ j. inl refl; fired = refl; made = refl; kinds = λ j. refl })
            (cancel_timer-IsShrunk r.tick.id t))
          (update-IsShrunk r.tick.task _ _ refl))
  | inr e ↦ rw e (
      IsShrunk-trans s (record s { running = none }) _
        (record { entries = λ j. inl refl; fired = refl; made = refl; kinds = λ j. refl })
        (update-IsShrunk r.tick.task _ _ refl))
]

pub close-IsShrunk : (s : TimerRegistry) → IsShrunk s (close s)
unfolding close
close-IsShrunk s = record { entries = λ j. inl refl; fired = refl; made = refl; kinds = λ j. refl }

cancel_found-get :
    (id : ℕ) (s : TimerRegistry) (o : Option TimerEntry)
    → get id s.timers ≡ o
    → get id (cancel_found id s o).timers ≡ none
cancel_found-get id s none e = e
cancel_found-get id s (some entry) e =
    get-remove id id s.timers
    ∙ ap (λ b. if b then none else get id s.timers) ((nat_beq_iff id id).1 refl)

pub get-cancel_timer : (id : ℕ) (s : TimerRegistry) → get id (cancel_timer id s).timers ≡ none
unfolding cancel_timer
get-cancel_timer id s = cancel_found-get id s (get id s.timers) refl
