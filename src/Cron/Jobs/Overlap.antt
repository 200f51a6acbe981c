-- ===== src/Cron/Jobs/Overlap.antt =====
-- The invocations of a job that are under way are the ones its `running` flag stands for.
use rong.Base.{
  ℕ, zero, suc, ◌+◌, ◌≤◌, ◌≡◌, refl, sym, inl, inr, Bool, Bool-cases, true, false, not, Option,
  none, some, List, [], ◌∷◌, ◌++◌, map, if◌then◌else◌, arith,
}
use rong.Stream.Slots.{nth, set_nth, total, total-append, total-remove_nth, total-nth-le}
use rong.Cron.Jobs.{
  CronEntry, CronContextRegistry, empty, create_cron_job, set_entry, deactivate, invoke, due,
  has_callback, receive_one, return_one, clear_at, pending, drop_task, entry_of, stop_entry,
  stop_job, drained, shutdown, Step, creates, receives, returns, shuts_down, ends, fails, stops,
  clears, is_due, step, run,
}

-- `n` for the job `i`, and nothing for another.
abbrev pub pick : ℕ → ℕ → ℕ → ℕ
pick zero zero n = n
pick zero (suc j) n = 0
pick (suc i) zero n = 0
pick (suc i) (suc j) n = pick i j n

-- How often a job is in a list.
abbrev pub tally : ℕ → List ℕ → ℕ
tally i = total (λ j. pick i j 1)

abbrev pub called_now : ℕ → Option ℕ → ℕ
called_now i none = 0
called_now i (some j) = pick i j 1

-- The invocations of a job that wait, that run, and that have ended.
abbrev pub under_way : ℕ → CronContextRegistry → ℕ
under_way i y = tally i y.queue + called_now i y.calling + tally i y.finishing

abbrev bit : Bool → ℕ
bit true = 1
bit false = 0

abbrev pub flag : Option CronEntry → ℕ
flag none = 0
flag (some e) = bit e.running

bit-le : (b : Bool) → bit b ≤ 1
bit-le true = omega arith
bit-le false = omega arith

flag-le : (o : Option CronEntry) → flag o ≤ 1
flag-le none = omega arith
flag-le (some e) = bit-le e.running

pick_self : (i n : ℕ) → pick i i n ≡ n
pick_self zero n = refl
pick_self (suc i) n = pick_self i n

pick-zero : (i j : ℕ) → pick i j 0 ≡ 0
pick-zero zero zero = refl
pick-zero zero (suc j) = refl
pick-zero (suc i) zero = refl
pick-zero (suc i) (suc j) = pick-zero i j

abbrev IsCounted : CronContextRegistry → Type 0
IsCounted y = (i : ℕ) → under_way i y ≡ flag (nth i y.entries)

flag-set_nth :
    (i j : ℕ) (a b : CronEntry) (es : List CronEntry)
    → nth j es ≡ some b
    → flag (nth i (set_nth j a es)) + pick i j (bit b.running)
      ≡ flag (nth i es) + pick i j (bit a.running)
flag-set_nth i j a b [] e = absurd (cc)
flag-set_nth zero zero a b (x ∷ es) e = ground arith
flag-set_nth zero (suc j) a b (x ∷ es) e = omega arith
flag-set_nth (suc i) zero a b (x ∷ es) e = omega arith
flag-set_nth (suc i) (suc j) a b (x ∷ es) e = flag-set_nth i j a b es e

flag-append :
    (i : ℕ) (a : CronEntry) (es : List CronEntry)
    → a.running ≡ false
    → flag (nth i (es ++ a ∷ [])) ≡ flag (nth i es)
flag-append zero a [] e = rw e refl
flag-append (suc i) a [] e = refl
flag-append zero a (x ∷ es) e = refl
flag-append (suc i) a (x ∷ es) e = flag-append i a es e

flag-drained : (i : ℕ) (es : List CronEntry) → flag (nth i (map drained es)) ≡ flag (nth i es)
flag-drained i [] = refl
flag-drained zero (e ∷ es) = elim (Bool-cases e.is_entered) [
  | inl f ↦ rw f refl
  | inr f ↦ rw f refl
]
flag-drained (suc i) (e ∷ es) = flag-drained i es

-- An entry that is changed, but for `running`.
same_running :
    (j : ℕ) (a b : CronEntry) (y : CronContextRegistry)
    → nth j y.entries ≡ some b
    → a.running ≡ b.running
    → IsCounted y
    → IsCounted (set_entry j a y)
same_running j a b y e f h i =
    let g : pick i j (bit a.running) ≡ pick i j (bit b.running) = rw f refl in
    omega (arith, h i, flag-set_nth i j a b y.entries e, g)

deactivate-IsCounted :
    (j : ℕ) (o : Option CronEntry) (y : CronContextRegistry)
    → nth j y.entries ≡ o
    → IsCounted y
    → IsCounted (deactivate j o y)
deactivate-IsCounted j none y e h = h
deactivate-IsCounted j (some b) y e h = same_running j (record b { active = false }) b y e refl h

stop_entry-IsCounted :
    (j : ℕ) (o : Option CronEntry) (y : CronContextRegistry)
    → nth j y.entries ≡ o
    → IsCounted y
    → IsCounted (stop_entry j o y)
stop_entry-IsCounted j none y e h = h
stop_entry-IsCounted j (some b) y e h = elim (Bool-cases b.is_entered) [
  | inl f ↦ rw f (same_running j (record b { active = false; is_entered = false }) b y e refl h)
  | inr f ↦ rw f h
]

invoke-IsCounted :
    (j : ℕ) (listening : Bool) (b : CronEntry) (y : CronContextRegistry)
    → nth j y.entries ≡ some b
    → b.running ≡ false
    → IsCounted y
    → IsCounted (invoke j listening b y)
invoke-IsCounted j false b y e f h i =
    same_running j (record b { running = false }) b y e (sym f) h i
invoke-IsCounted j true b y e f h i =
    let g : pick i j (bit b.running) ≡ 0 = rw f (pick-zero i j) in
    omega (
      arith,
      h i,
      flag-set_nth i j (record b { running = true }) b y.entries e,
      g,
      total-append (λ k. pick i k 1) y.queue (j ∷ []),
    )

chosen :
    (b : Bool) (y z : CronContextRegistry)
    → (b ≡ true → IsCounted y)
    → (b ≡ false → IsCounted z)
    → IsCounted (if b then y else z)
chosen true y z h k i = h refl i
chosen false y z h k i = k refl i

due-IsCounted :
    (j : ℕ) (listening : Bool) (o : Option CronEntry) (y : CronContextRegistry)
    → nth j y.entries ≡ o
    → IsCounted y
    → IsCounted (due j listening o y)
due-IsCounted j listening none y e h = h
due-IsCounted j listening (some b) y e h =
    chosen (not b.active) y (if b.running then y else invoke j listening b y) (λ _. h)
      (λ _.
        chosen b.running y (invoke j listening b y) (λ _. h)
          (λ g. invoke-IsCounted j listening b y e g h))

-- The invocation that leaves the queue is called or ends.
leaves_queue :
    (i j : ℕ) (q : List ℕ) (y : CronContextRegistry)
    → y.calling ≡ none
    → y.queue ≡ j ∷ q
    → IsCounted y
    → tally i q + pick i j 1 + tally i y.finishing ≡ flag (nth i y.entries)
leaves_queue i j q y e f h =
    let g : called_now i y.calling ≡ 0 = rw e refl in
    let k : tally i y.queue ≡ pick i j 1 + tally i q = rw f refl in omega (arith, h i, g, k)

idle : (i : ℕ) (c : Option ℕ) → c ≡ none → called_now i c ≡ 0
idle i none e = refl
idle i (some j) e = absurd (cc)

receive_one-IsCounted :
    (c : Option ℕ) (q : List ℕ) (y : CronContextRegistry)
    → y.calling ≡ c
    → y.queue ≡ q
    → IsCounted y
    → IsCounted (receive_one c q y)
receive_one-IsCounted (some j) q y e f h = h
receive_one-IsCounted none [] y e f h = h
receive_one-IsCounted none (j ∷ q) y e f h = elim (Bool-cases (has_callback (nth j y.entries))) [
  | inl g ↦ rw g (λ i. omega (arith, leaves_queue i j q y e f h))
  | inr g ↦ rw g (λ i. omega (arith, leaves_queue i j q y e f h, idle i y.calling e))
]

return_one-IsCounted :
    (c : Option ℕ) (y : CronContextRegistry)
    → y.calling ≡ c
    → IsCounted y
    → IsCounted (return_one c y)
return_one-IsCounted none y e h i = h i
return_one-IsCounted (some j) y e h i =
    let g : called_now i y.calling ≡ pick i j 1 = rw e refl in omega (arith, h i, g)

clear_at-IsCounted :
    (k : ℕ) (f : Option ℕ) (o : Option CronEntry) (y : CronContextRegistry)
    → nth k y.finishing ≡ f
    → entry_of f y.entries ≡ o
    → IsCounted y
    → IsCounted (clear_at k f o y)
clear_at-IsCounted k none o y e g h i = h i
clear_at-IsCounted k (some j) none y e g h i =
    let m : flag (nth j y.entries) ≡ 0 = rw g refl in
    absurd (omega (arith, h j, m, pick_self j 1, total-nth-le (λ x. pick j x 1) k j y.finishing e))
clear_at-IsCounted k (some j) (some b) y e g h i =
    let m : flag (nth j y.entries) ≡ bit b.running = rw g refl in
    let raised : bit b.running ≡ 1 = omega (
      arith,
      h j,
      m,
      bit-le b.running,
      pick_self j 1,
      total-nth-le (λ x. pick j x 1) k j y.finishing e,
    ) in
    let p : pick i j (bit b.running) ≡ pick i j 1 = rw raised refl in
    omega (
      arith,
      h i,
      p,
      pick-zero i j,
      flag-set_nth i j (record b { running = false }) b y.entries g,
      total-remove_nth (λ x. pick i x 1) k j y.finishing e,
    )

tally-pending : (i : ℕ) (c : Option ℕ) → tally i (pending c) ≡ called_now i c
tally-pending i none = refl
tally-pending i (some j) = omega arith

dropped :
    (i : ℕ) (y : CronContextRegistry)
    → under_way i y ≡ flag (nth i y.entries)
    → tally i (y.queue ++ (pending y.calling ++ y.finishing)) ≡ flag (nth i y.entries)
dropped i y h = omega (
  arith,
  h,
  total-append (λ j. pick i j 1) y.queue (pending y.calling ++ y.finishing),
  total-append (λ j. pick i j 1) (pending y.calling) y.finishing,
  tally-pending i y.calling,
)

step-IsCounted : (s : Step) (y : CronContextRegistry) → IsCounted y → IsCounted (step s y)
unfolding step create_cron_job stop_job shutdown drop_task
step-IsCounted creates y h i = omega (
  arith,
  h i,
  flag-append i (record { active = true; running = false; is_entered = true }) y.entries refl,
)
step-IsCounted receives y h i = receive_one-IsCounted y.calling y.queue y refl refl h i
step-IsCounted returns y h i = return_one-IsCounted y.calling y refl h i
step-IsCounted shuts_down y h i = omega (arith, h i, flag-drained i y.entries)
step-IsCounted ends y h i = omega (arith, dropped i y (h i))
step-IsCounted (fails j) y h i = deactivate-IsCounted j (nth j y.entries) y refl h i
step-IsCounted (stops j) y h i = stop_entry-IsCounted j (nth j y.entries) y refl h i
step-IsCounted (clears k) y h i =
    clear_at-IsCounted k (nth k y.finishing) (entry_of (nth k y.finishing) y.entries) y refl refl h
      i
step-IsCounted (is_due j listening) y h i = due-IsCounted j listening (nth j y.entries) y refl h i

run-IsCounted : (ss : List Step) (y : CronContextRegistry) → IsCounted y → IsCounted (run ss y)
unfolding run
run-IsCounted [] y h = h
run-IsCounted (s ∷ ss) y h = run-IsCounted ss (step s y) (step-IsCounted s y h)

-- After any steps from an empty registry, the invocations of a job that wait in the channel, are in
-- the callback, or have ended without clearing their flag number one if the job's `running` is
-- set and none otherwise: two invocations of a job are never under way at once.
pub never_overlap :
    (ss : List Step) (i : ℕ)
    → (under_way i (run ss empty) ≡ flag (nth i (run ss empty).entries))
      × (under_way i (run ss empty) ≤ 1)
never_overlap ss i =
    let h = run-IsCounted ss empty (λ j. refl) i in
    (h, omega (arith, h, flag-le (nth i (run ss empty).entries)))
