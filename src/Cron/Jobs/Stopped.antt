-- ===== src/Cron/Jobs/Stopped.antt =====
-- A job that is stopped does not call back.
use rong.Base.{
  ℕ, zero, suc, ◌≡◌, ◌∙◌, ap, refl, inl, inr, Bool, Bool-cases, true, false, not, Option, none,
  some, List, [], ◌∷◌, map, if◌then◌else◌, arith,
}
use rong.Stream.Slots.{nth, set_nth-holds, nth-set_nth, nth-append}
use rong.Cron.Jobs.{
  CronEntry, CronContextRegistry, create_cron_job, set_entry, deactivate, invoke, due, has_callback,
  receive_one, return_one, clear_at, drop_task, entry_of, stop_entry, stop_job, drained, shutdown,
  Step, creates, receives, returns, shuts_down, ends, fails, stops, clears, is_due, step, run,
}
use rong.Cron.Jobs.Overlap.{pick, tally}

abbrev IsAbsent : CronEntry → Type 0
IsAbsent e = e.is_entered ≡ false

abbrev IsGone : ℕ → CronContextRegistry → Type 0
IsGone i y = (e : CronEntry) × (nth i y.entries ≡ some e) × IsAbsent e

-- The job is gone and was called as often as before.
record Keeps (i : ℕ) (y z : CronContextRegistry) : Type 0 where
  gone : IsGone i z
  same : tally i z.called ≡ tally i y.called

Keeps-refl : (i : ℕ) (y : CronContextRegistry) → IsGone i y → Keeps i y y
Keeps-refl i y h = record { gone = h; same = refl }

set_entry-Keeps :
    (i j : ℕ) (a b : CronEntry) (y : CronContextRegistry)
    → nth j y.entries ≡ some b
    → (IsAbsent b → IsAbsent a)
    → IsGone i y
    → Keeps i y (set_entry j a y)
set_entry-Keeps i j a b y e f h = record {
  gone = set_nth-holds IsAbsent i j a b y.entries e f h;
  same = refl;
}

deactivate-Keeps :
    (i j : ℕ) (o : Option CronEntry) (y : CronContextRegistry)
    → nth j y.entries ≡ o
    → IsGone i y
    → Keeps i y (deactivate j o y)
deactivate-Keeps i j none y e h = Keeps-refl i y h
deactivate-Keeps i j (some b) y e h =
    set_entry-Keeps i j (record b { active = false }) b y e (λ k. k) h

chosen :
    (i : ℕ) (b : Bool) (x y z : CronContextRegistry)
    → Keeps i x y
    → Keeps i x z
    → Keeps i x (if b then y else z)
chosen i true x y z h k = h
chosen i false x y z h k = k

stop_entry-Keeps :
    (i j : ℕ) (o : Option CronEntry) (y : CronContextRegistry)
    → nth j y.entries ≡ o
    → IsGone i y
    → Keeps i y (stop_entry j o y)
stop_entry-Keeps i j none y e h = Keeps-refl i y h
stop_entry-Keeps i j (some b) y e h =
    let a : CronEntry = record b { active = false; is_entered = false } in
    chosen i b.is_entered y (set_entry j a y) y (set_entry-Keeps i j a b y e (λ _. refl) h)
      (Keeps-refl i y h)

invoke-Keeps :
    (i j : ℕ) (listening : Bool) (b : CronEntry) (y : CronContextRegistry)
    → nth j y.entries ≡ some b
    → IsGone i y
    → Keeps i y (invoke j listening b y)
invoke-Keeps i j true b y e h =
    let k = set_entry-Keeps i j (record b { running = true }) b y e (λ k. k) h in
    record { gone = k.gone; same = refl }
invoke-Keeps i j false b y e h = set_entry-Keeps i j (record b { running = false }) b y e (λ k. k) h

due-Keeps :
    (i j : ℕ) (listening : Bool) (o : Option CronEntry) (y : CronContextRegistry)
    → nth j y.entries ≡ o
    → IsGone i y
    → Keeps i y (due j listening o y)
due-Keeps i j listening none y e h = Keeps-refl i y h
due-Keeps i j listening (some b) y e h =
    chosen i (not b.active) y y (if b.running then y else invoke j listening b y) (Keeps-refl i y h)
      (chosen i b.running y y (invoke j listening b y) (Keeps-refl i y h)
        (invoke-Keeps i j listening b y e h))

absent-has_callback : (e : CronEntry) → IsAbsent e → has_callback (some e) ≡ false
absent-has_callback e h = rw h refl

another :
    (i j : ℕ) (e : CronEntry) (es : List CronEntry)
    → nth i es ≡ some e
    → IsAbsent e
    → has_callback (nth j es) ≡ true
    → pick i j 1 ≡ 0
another zero zero e es f g h =
    let k : has_callback (nth zero es) ≡ false = rw f (absent-has_callback e g) in absurd (cc)
another zero (suc j) e es f g h = refl
another (suc i) zero e es f g h = refl
another (suc i) (suc j) e [] f g h = absurd (cc)
another (suc i) (suc j) e (x ∷ es) f g h = another i j e es f g h

receive_one-Keeps :
    (i : ℕ) (c : Option ℕ) (q : List ℕ) (y : CronContextRegistry)
    → IsGone i y
    → Keeps i y (receive_one c q y)
receive_one-Keeps i (some j) q y h = Keeps-refl i y h
receive_one-Keeps i none [] y h = Keeps-refl i y h
receive_one-Keeps i none (j ∷ q) y h = elim (Bool-cases (has_callback (nth j y.entries))) [
  | inl g ↦
      let k = another i j h.0 y.entries h.1 h.2 g in
      rw g (record { gone = h; same = omega (arith, k) })
  | inr g ↦ rw g (record { gone = h; same = refl })
]

return_one-Keeps :
    (i : ℕ) (c : Option ℕ) (y : CronContextRegistry) → IsGone i y → Keeps i y (return_one c y)
return_one-Keeps i none y h = Keeps-refl i y h
return_one-Keeps i (some j) y h = record { gone = h; same = refl }

clear_at-Keeps :
    (i k : ℕ) (f : Option ℕ) (o : Option CronEntry) (y : CronContextRegistry)
    → entry_of f y.entries ≡ o
    → IsGone i y
    → Keeps i y (clear_at k f o y)
clear_at-Keeps i k none o y e h = Keeps-refl i y h
clear_at-Keeps i k (some j) none y e h = record { gone = h; same = refl }
clear_at-Keeps i k (some j) (some b) y e h =
    let c = set_entry-Keeps i j (record b { running = false }) b y e (λ k. k) h in
    record { gone = c.gone; same = refl }

drained-IsAbsent : (e : CronEntry) → IsAbsent (drained e)
drained-IsAbsent e = elim (Bool-cases e.is_entered) [ inl f ↦ rw f refl | inr f ↦ rw f refl ]

drained-gone :
    (i : ℕ) (e : CronEntry) (es : List CronEntry)
    → nth i es ≡ some e
    → (x : CronEntry) × (nth i (map drained es) ≡ some x) × IsAbsent x
drained-gone i e [] f = absurd (cc)
drained-gone zero e (x ∷ es) f = (drained x, refl, drained-IsAbsent x)
drained-gone (suc i) e (x ∷ es) f = drained-gone i e es f

step-Keeps : (i : ℕ) (s : Step) (y : CronContextRegistry) → IsGone i y → Keeps i y (step s y)
unfolding step create_cron_job stop_job shutdown drop_task
step-Keeps i creates y h = record {
  gone = (
    h.0,
    nth-append i h.0 y.entries (record { active = true; running = false; is_entered = true } ∷ [])
        h.1,
    h.2,
  );
  same = refl;
}
step-Keeps i receives y h = receive_one-Keeps i y.calling y.queue y h
step-Keeps i returns y h = return_one-Keeps i y.calling y h
step-Keeps i shuts_down y h = record { gone = drained-gone i h.0 y.entries h.1; same = refl }
step-Keeps i ends y h = record { gone = h; same = refl }
step-Keeps i (fails j) y h = deactivate-Keeps i j (nth j y.entries) y refl h
step-Keeps i (stops j) y h = stop_entry-Keeps i j (nth j y.entries) y refl h
step-Keeps i (clears k) y h =
    clear_at-Keeps i k (nth k y.finishing) (entry_of (nth k y.finishing) y.entries) y refl h
step-Keeps i (is_due j listening) y h = due-Keeps i j listening (nth j y.entries) y refl h

run-Keeps : (i : ℕ) (ss : List Step) (y : CronContextRegistry) → IsGone i y → Keeps i y (run ss y)
unfolding run
run-Keeps i [] y h = Keeps-refl i y h
run-Keeps i (s ∷ ss) y h =
    let k = step-Keeps i s y h in
    let r = run-Keeps i ss (step s y) k.gone in record { gone = r.gone; same = r.same ∙ k.same }

stop_entry-IsGone :
    (i : ℕ) (e : CronEntry) (y : CronContextRegistry)
    → nth i y.entries ≡ some e
    → IsGone i (stop_entry i (some e) y)
stop_entry-IsGone i e y f = elim (Bool-cases e.is_entered) [
  | inl g ↦
      let a : CronEntry = record e { active = false; is_entered = false } in
      rw g (a, nth-set_nth i a e y.entries f, refl)
  | inr g ↦ rw g (e, f, g)
]

stop_job-IsGone :
    (i : ℕ) (e : CronEntry) (y : CronContextRegistry)
    → nth i y.entries ≡ some e
    → IsGone i (stop_job i y)
unfolding stop_job
stop_job-IsGone i e y f = rw f (stop_entry-IsGone i e y f)

stop_entry-called :
    (i : ℕ) (o : Option CronEntry) (y : CronContextRegistry) → (stop_entry i o y).called ≡ y.called
stop_entry-called i none y = refl
stop_entry-called i (some e) y = elim (Bool-cases e.is_entered) [
  | inl g ↦ rw g refl
  | inr g ↦ rw g refl
]

stop_job-called : (i : ℕ) (y : CronContextRegistry) → (stop_job i y).called ≡ y.called
unfolding stop_job
stop_job-called i y = stop_entry-called i (nth i y.entries) y

shutdown-IsGone :
    (i : ℕ) (e : CronEntry) (y : CronContextRegistry)
    → nth i y.entries ≡ some e
    → IsGone i (shutdown y)
unfolding shutdown
shutdown-IsGone i e y f = drained-gone i e y.entries f

shutdown-called : (y : CronContextRegistry) → (shutdown y).called ≡ y.called
unfolding shutdown
shutdown-called y = refl

-- For a job that was created, in any state of the registry: whatever happens after `stop_job` of
-- it, and whatever happens after `shutdown`, its callback is called no more often than it was
-- before.
pub no_call_after_stop :
    (i : ℕ) (e : CronEntry) (y : CronContextRegistry) (ss : List Step)
    → nth i y.entries ≡ some e
    → (tally i (run ss (stop_job i y)).called ≡ tally i y.called)
      × (tally i (run ss (shutdown y)).called ≡ tally i y.called)
no_call_after_stop i e y ss f =
    let s = run-Keeps i ss (stop_job i y) (stop_job-IsGone i e y f) in
    let d = run-Keeps i ss (shutdown y) (shutdown-IsGone i e y f) in
    (s.same ∙ ap (tally i) (stop_job-called i y), d.same ∙ ap (tally i) (shutdown-called y))
