-- ===== src/Cron/Fields.antt =====
-- The fields of the expressions that are scheduled.
use rong.Base.{
  ℕ, ◌≡◌, ◌≢◌, ◌⊎◌, inl, inr, refl, ap, sym, ◌∙◌, subst, false, List, [], ◌∷◌, ◌++◌, arith, codes,
  ◌==◌, nat_eq, nat_beq_iff, list_eq, list_beq_iff, length, All, All-append, append_assoc,
  append-nil, Bool-cases,
}
use rong.Text.{Text, is_empty, is_whitespace, join, trim}
use rong.Cron.{
  Result, ok, err, words, split_whitespace, flush, star, spaced, jobs_of, jobs_of_normalized,
  counted, shorten, names, nickname, shortened, to_ascii_uppercase, normalize_expression,
  scheduler_expressions,
}

abbrev IsPlain : Text → Type 0
IsPlain = All λ c. is_whitespace c ≡ false

-- A word: characters, and none of them white space.
abbrev pub IsWord : Text → Type 0
IsWord w = (is_empty w ≡ false) × IsPlain w

words-space :
    (cur w rest : Text)
    → IsPlain w
    → words cur (w ++ b' ' ∷ rest) ≡ flush (cur ++ w) ++ words [] rest
unfolding words is_whitespace
words-space cur [] rest h = ap (λ v. flush v ++ words [] rest) (sym (append-nil cur))
words-space cur (c ∷ w) rest h =
    rw (h.0, words)
      (words-space (cur ++ c ∷ []) w rest h.1
        ∙ ap (λ v. flush v ++ words [] rest) (append_assoc cur (c ∷ []) w))

words_end : (cur w : Text) → IsPlain w → words cur w ≡ flush (cur ++ w)
unfolding words
words_end cur [] h = ap flush (sym (append-nil cur))
words_end cur (c ∷ w) h =
    rw (h.0, words) (words_end (cur ++ c ∷ []) w h.1 ∙ ap flush (append_assoc cur (c ∷ []) w))

flush-IsWord : (w : Text) → IsWord w → flush w ≡ w ∷ []
flush-IsWord w h = rw h.0 refl

-- Words that are joined by spaces are split again.
split_whitespace-spaced : (ws : List Text) → All IsWord ws → split_whitespace (spaced ws) ≡ ws
unfolding split_whitespace join words is_empty
split_whitespace-spaced [] h = refl
split_whitespace-spaced (w ∷ []) h = words_end [] w h.0.1 ∙ flush-IsWord w h.0
split_whitespace-spaced (w ∷ v ∷ ws) h =
    ap (words []) (append_assoc w (b' ' ∷ []) (spaced (v ∷ ws)))
    ∙ words-space [] w (spaced (v ∷ ws)) h.0.1
    ∙ ap (λ l. l ++ words [] (spaced (v ∷ ws))) (flush-IsWord w h.0)
    ∙ ap (◌∷◌ w) (split_whitespace-spaced (v ∷ ws) h.1)

flush-words : (w : Text) → IsPlain w → All IsWord (flush w)
unfolding is_empty
flush-words [] h = tt
flush-words (c ∷ w) h = ((refl, h), tt)

-- What `split_whitespace` gives are words.
words-IsWord : (cur s : Text) → IsPlain cur → All IsWord (words cur s)
unfolding words
words-IsWord cur [] h = flush-words cur h
words-IsWord cur (c ∷ s) h = elim (Bool-cases (is_whitespace c)) [
  | inl e ↦
      rw (e, words)
        (All-append IsWord (flush cur) (words [] s) (flush-words cur h) (words-IsWord [] s tt))
  | inr e ↦
      rw (e, words)
        (words-IsWord (cur ++ c ∷ []) s
          (All-append (λ c. is_whitespace c ≡ false) cur (c ∷ []) h (e, tt)))
]

five :
    (ws : List Text)
    → length ws ≡ 5
    → (a : Text) × (b : Text) × (c : Text) × (d : Text) × (e : Text) × (ws ≡ a ∷ b ∷ c ∷ d ∷ e ∷ [])
five [] h = absurd (omega (arith, h))
five (a ∷ []) h = absurd (omega (arith, h))
five (a ∷ b ∷ []) h = absurd (omega (arith, h))
five (a ∷ b ∷ c ∷ []) h = absurd (omega (arith, h))
five (a ∷ b ∷ c ∷ d ∷ []) h = absurd (omega (arith, h))
five (a ∷ b ∷ c ∷ d ∷ e ∷ []) h = (a, b, c, d, e, refl)
five (a ∷ b ∷ c ∷ d ∷ e ∷ f ∷ ws) h = absurd (omega (arith, h))

counted-five : (s n : Text) → counted s ≡ ok n → (length (split_whitespace n) ≡ 5)
counted-five s n h = elim (Bool-cases (length (split_whitespace s) == 5)) [
  | inl e ↦
      let kept = rw e at h in
      let same : s ≡ n = cc in
      subst (λ t. length (split_whitespace t) ≡ 5) same ((nat_beq_iff _ 5).0 e)
  | inr e ↦ let refused = rw e at h in absurd (cc)
]

shortened-five : (r : Result Text) (n : Text) → shortened r ≡ ok n → length (split_whitespace n) ≡ 5
shortened-five (err e) n h = absurd (cc)
shortened-five (ok s) n h = counted-five (shorten names s) n h

normalize_expression-five :
    (expression n : Text) → normalize_expression expression ≡ ok n → length (split_whitespace n) ≡ 5
unfolding normalize_expression
normalize_expression-five expression n h =
    let s = to_ascii_uppercase (trim expression) in
    elim (Bool-cases (is_empty s)) [
      | inl e ↦ let refused = rw e at h in absurd (cc)
      | inr e ↦ shortened-five (nickname expression s) n (rw e at h)
    ]

-- The jobs for the five fields: one, or two when both the day of the month and the day of the week
-- are restricted, each restricted by one of them.
abbrev pub AreJobs : (minute hour dom month dow : Text) → List Text → Type 0
AreJobs minute hour dom month dow jobs =
    ((dom ≡ star) ⊎ (dow ≡ star))
      × ((job : Text) × (jobs ≡ job ∷ [])
          × (split_whitespace job ≡ codes "0" ∷ minute ∷ hour ∷ dom ∷ month ∷ dow ∷ []))
    ⊎ (((dom ≢ star) × (dow ≢ star))
        × ((by_month : Text) × (by_week : Text) × (jobs ≡ by_month ∷ by_week ∷ [])
            × (split_whitespace by_month ≡ codes "0" ∷ minute ∷ hour ∷ dom ∷ month ∷ star ∷ [])
            × (split_whitespace by_week ≡ codes "0" ∷ minute ∷ hour ∷ star ∷ month ∷ dow ∷ [])))

split_whitespace-seconds :
    (s : Text) → split_whitespace (codes "0 " ++ s) ≡ codes "0" ∷ split_whitespace s
unfolding split_whitespace is_empty is_whitespace
split_whitespace-seconds s = words-space [] (codes "0") s (refl, tt)

single-IsWord : (c : ℕ) → is_whitespace c ≡ false → IsWord (c ∷ [])
unfolding is_empty
single-IsWord c h = (refl, (h, tt))

fields-IsWord :
    (s a b c d e : Text)
    → split_whitespace s ≡ a ∷ b ∷ c ∷ d ∷ e ∷ []
    → All IsWord (a ∷ b ∷ c ∷ d ∷ e ∷ [])
unfolding split_whitespace
fields-IsWord s a b c d e h = subst (All IsWord) h (words-IsWord [] s tt)

split_jobs :
    (s a b c d e f g : Text)
    → split_whitespace s ≡ a ∷ b ∷ c ∷ d ∷ e ∷ []
    → IsWord f
    → IsWord g
    → split_whitespace (spaced (codes "0" ∷ a ∷ b ∷ f ∷ d ∷ g ∷ []))
      ≡ codes "0" ∷ a ∷ b ∷ f ∷ d ∷ g ∷ []
unfolding is_whitespace
split_jobs s a b c d e f g h vf vg =
    let (va, (vb, (vc, (vd, ve)))) = fields-IsWord s a b c d e h in
    split_whitespace-spaced _ (single-IsWord b'0' refl, (va, (vb, (vf, (vd, (vg, tt))))))

jobs_of-AreJobs :
    (s minute hour dom month dow : Text)
    → split_whitespace s ≡ minute ∷ hour ∷ dom ∷ month ∷ dow ∷ []
    → (jobs : List Text) × (jobs_of s (minute ∷ hour ∷ dom ∷ month ∷ dow ∷ []) ≡ ok jobs)
      × AreJobs minute hour dom month dow jobs
unfolding is_whitespace
jobs_of-AreJobs s minute hour dom month dow e =
    let (va, (vb, (vc, (vd, ve)))) = fields-IsWord s minute hour dom month dow e in
    let any_day = single-IsWord b'*' refl in
    let whole = split_whitespace-seconds s ∙ ap (◌∷◌ (codes "0")) e in
    elim (Bool-cases (dom == star)) [
      | inl p ↦ (
        (codes "0 " ++ s) ∷ [],
        rw p refl,
        inl (inl ((list_beq_iff dom star).0 p), (codes "0 " ++ s, refl, whole)),
      )
      | inr p ↦ elim (Bool-cases (dow == star)) [
        | inl q ↦ (
          (codes "0 " ++ s) ∷ [],
          rw (p, q) refl,
          inl (inr ((list_beq_iff dow star).0 q), (codes "0 " ++ s, refl, whole)),
        )
        | inr q ↦ (
          _,
          rw (p, q) refl,
          inr (
            (
              λ r. ground (arith, list_beq_iff dom star, p, r),
              λ r. ground (arith, list_beq_iff dow star, q, r),
            ),
            (
              _,
              _,
              refl,
              split_jobs s minute hour dom month dow dom star e vc any_day,
              split_jobs s minute hour dom month dow star dow e any_day (ve.0),
            ),
          ),
        )
      ]
    ]

-- For an expression that can be normalized, `scheduler_expressions` succeeds: its normal form has
-- five fields, and each expression made for the scheduler has these after a "0" for the seconds; if
-- neither the day of the month nor the day of the week is "*", there are two, and each has "*" for
-- one of the days.
pub scheduler_expressions_lem :
    (expression n : Text)
    → normalize_expression expression ≡ ok n
    → (minute : Text) × (hour : Text) × (dom : Text) × (month : Text) × (dow : Text)
      × (split_whitespace n ≡ minute ∷ hour ∷ dom ∷ month ∷ dow ∷ [])
      × ((jobs : List Text) × (scheduler_expressions expression ≡ ok jobs)
          × AreJobs minute hour dom month dow jobs)
unfolding scheduler_expressions
scheduler_expressions_lem expression n h =
    let (minute, hour, dom, month, dow, e) =
      five (split_whitespace n) (normalize_expression-five expression n h) in
    let (jobs, made, are) = jobs_of-AreJobs n minute hour dom month dow e in
    (
      minute,
      hour,
      dom,
      month,
      dow,
      e,
      (jobs, ap jobs_of_normalized h ∙ ap (jobs_of n) e ∙ made, are),
    )
