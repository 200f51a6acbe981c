-- ===== src/Abort/Any.antt =====
-- A signal composed of several, when some of these abort.
use rong.Base.{ℕ, ◌+◌, ◌≡◌, Bool, true, false, Option, none, some, List, [], ◌∷◌, map, All}
use rong.Stream.Slots.{nth, set_nth}
use rong.Abort.{
  JsValue, AbortSignal, reason_or, controller_abort, Composed, notifier, source_aborts,
}

-- The controller of a source aborts with a value, or with an exception when there is none.
pub record Abort : Type 0 where
  pub source : ℕ
  pub exception : ℕ
  pub value : JsValue

unfoldable pub run : List Abort → Composed → Composed
run [] c = c
run (a ∷ steps) c = run steps (source_aborts a.source a.exception a.value c)

-- What the sources alone make of it: which have aborted, the reason of the latest, and how many.
pub record Seen : Type 0 where
  pub aborted : List Bool
  pub latest : Option ℕ
  pub count : ℕ

abbrev pub note : Option Bool → Abort → Seen → Seen
note none a s = s
note (some true) a s = s
note (some false) a s = record {
  aborted = set_nth a.source true s.aborted;
  latest = some (reason_or a.value a.exception);
  count = s.count + 1;
}

unfoldable pub watch : List Abort → Seen → Seen
watch [] s = s
watch (a ∷ steps) s = watch steps (note (nth a.source s.aborted) a s)

abbrev pub unseen : List AbortSignal → Seen
unseen signals = record { aborted = map (λ s. s.aborted) signals; latest = none; count = 0 }

abbrev pub is_some : Option ℕ → Bool
is_some none = false
is_some (some r) = true

-- The composed signal is as the latest reason and the count say.
abbrev pub Follows : Seen → AbortSignal → Type 0
Follows s t = (t.aborted ≡ is_some s.latest) × (t.reason ≡ s.latest) × (t.emitted ≡ s.count)

abbrev flags_of : List (AbortSignal × Bool) → List Bool
flags_of = map λ p. p.0.aborted

abbrev IsWired : AbortSignal × Bool → Type 0
IsWired p = p.0.aborted ≡ false → p.1 ≡ true

record IsLinked (s : Seen) (c : Composed) : Type 0 where
  flags : s.aborted ≡ flags_of c.sources
  wired : All IsWired c.sources
  follows : Follows s c.signal

flag_of : Option (AbortSignal × Bool) → Option Bool
flag_of none = none
flag_of (some p) = some p.0.aborted

abbrev fired : Abort → AbortSignal → Composed → Composed
fired a q c = record {
  sources = set_nth a.source (controller_abort a.exception a.value q, false) c.sources;
  signal = notifier a.exception (some (reason_or a.value a.exception)) c.signal;
}

abbrev noted : Abort → Seen → Seen
noted a s = record {
  aborted = set_nth a.source true s.aborted;
  latest = some (reason_or a.value a.exception);
  count = s.count + 1;
}
