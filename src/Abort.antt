-- ===== src/Abort.antt =====
-- modules/rong_abort/src: a signal, its controller, and the receivers of native code. A value of
-- the engine stands by its identity, `none` for undefined. The watch channel is tokio's: it keeps
-- one value, and `send` fails and keeps the old one when there is no receiver.
pub mod Receivers
pub mod Any
pub mod Tests
use rong.Base.{
  ℕ, zero, suc, ◌+◌, ◌-◌, ◌&&◌, Bool, true, false, not, Option, none, some, List, [], ◌∷◌, ltb,
  if◌then◌else◌, map,
}
use rong.Stream.Slots.{nth, set_nth}

abbrev pub JsValue : Type 0
JsValue = Option ℕ

pub record AbortSignal : Type 0 where
  pub aborted : Bool
  pub reason : JsValue
  -- The watch channel: its value and how many receivers there are.
  pub sender : JsValue
  pub receivers : ℕ
  -- How often the event `abort` has been emitted.
  pub emitted : ℕ

unfoldable pub new : AbortSignal
new = record { aborted = false; reason = none; sender = none; receivers = 0; emitted = 0 }

abbrev send : JsValue → AbortSignal → AbortSignal
send value s = if ltb 0 s.receivers then record s { sender = value } else s

unfoldable pub subscribe : AbortSignal → AbortSignal
subscribe s =
    let t : AbortSignal = record s { receivers = s.receivers + 1 } in
    if s.aborted then send s.reason t else t

-- A receiver is dropped.
unfoldable pub drop_receiver : AbortSignal → AbortSignal
drop_receiver s = record s { receivers = s.receivers - 1 }

unfoldable pub notify_abort : JsValue → AbortSignal → AbortSignal
notify_abort value s = if ltb 0 s.receivers then send value s else s

-- What a receiver gets, when it need not wait.
unfoldable pub recv : AbortSignal → Option ℕ
recv s = s.sender

unfoldable pub set_reason : JsValue → AbortSignal → AbortSignal
set_reason value s = record s { reason = value }

-- The value that is thrown, if any.
unfoldable pub throw_if_aborted : AbortSignal → Option ℕ
throw_if_aborted s = if s.aborted then s.reason else none

abbrev reason_or : JsValue → ℕ → ℕ
reason_or none exception = exception
reason_or (some value) exception = value

unfoldable pub get_reason_or_dom_exception : JsValue → ℕ → ℕ
get_reason_or_dom_exception = reason_or

-- `exception` is the AbortError that is made when there is no reason.
unfoldable pub broadcast_abort : ℕ → AbortSignal → AbortSignal
unfolding notify_abort get_reason_or_dom_exception
broadcast_abort exception s =
    let value = some (get_reason_or_dom_exception s.reason exception) in
    let t = notify_abort value (record s { aborted = true; reason = value }) in
    record t { emitted = t.emitted + 1 }

-- `AbortController.abort`.
unfoldable pub controller_abort : ℕ → JsValue → AbortSignal → AbortSignal
unfolding broadcast_abort set_reason
controller_abort exception value s =
    if s.aborted then s else broadcast_abort exception (set_reason value s)

-- The static method `AbortSignal.abort`.
unfoldable pub abort : JsValue → AbortSignal
unfolding new set_reason
abort value = record (set_reason value new) { aborted = true }

-- The static method `timeout`, and what its task does when the time is over.
unfoldable pub timeout : ℕ → AbortSignal
unfolding new
timeout timeout_error = record new { reason = some timeout_error }

abbrev pub first_aborted : List AbortSignal → Option AbortSignal
first_aborted [] = none
first_aborted (s ∷ signals) = let rest = first_aborted signals in if s.aborted then some s else rest

-- The listener on a signal that was aborted with `value`.
unfoldable pub notifier : ℕ → JsValue → AbortSignal → AbortSignal
unfolding broadcast_abort
notifier exception value s = broadcast_abort exception (record s { aborted = true; reason = value })

-- A composed signal with its sources, which are distinct signals, and whether the notifier is a
-- listener of each. It is registered for one call.
pub record Composed : Type 0 where
  pub sources : List (AbortSignal × Bool)
  pub signal : AbortSignal

abbrev pub with_listener : Bool → AbortSignal → AbortSignal × Bool
with_listener listening s = (s, listening)

abbrev composed : Option AbortSignal → List AbortSignal → Composed
composed none signals = record { sources = map (with_listener true) signals; signal = new }
composed (some s) signals = record {
  sources = map (with_listener false) signals;
  signal = record new { aborted = true; reason = s.reason };
}

-- `AbortSignal.any`: aborted like the first signal that is so already, and otherwise listening to
-- all of them.
unfoldable pub any_of : List AbortSignal → Composed
unfolding new
any_of signals = composed (first_aborted signals) signals

-- The event of a source calls the notifier.
abbrev notify : ℕ → Bool → JsValue → AbortSignal → AbortSignal
notify exception listening value s = if listening then notifier exception value s else s

abbrev pub abort_source : Option (AbortSignal × Bool) → ℕ → ℕ → JsValue → Composed → Composed
abort_source none i exception value c = c
abort_source (some (s, listening)) i exception value c =
    let t = controller_abort exception value s in
    if s.aborted then c else record {
      sources = set_nth i (t, false) c.sources;
      signal = notify exception listening t.reason c.signal;
    }

-- The controller of the source `i` aborts.
unfoldable pub source_aborts : ℕ → ℕ → JsValue → Composed → Composed
unfolding controller_abort notifier
source_aborts i exception value c = abort_source (nth i c.sources) i exception value c
