-- ===== src/Abort/Tests.antt =====
-- A controller that aborts twice, and a composed signal of which both parts abort.
use rong.Base.{◌≡◌, false, none, some, List, [], ◌∷◌, arith}
use rong.Abort.{
  AbortSignal, new, subscribe, drop_receiver, recv, controller_abort, broadcast_abort, set_reason,
  notify_abort, get_reason_or_dom_exception,
}
use rong.Abort.Receivers.{Use, aborts, subscribes, drops, use_of, run, first_reason, recv_lem}
use rong.Abort.Any.{Abort}
use rong.Abort.Any

abbrev twice : List Use
twice = aborts 9 none ∷ subscribes ∷ aborts 8 (some 3) ∷ subscribes ∷ drops ∷ []

recv_lem_example : recv (run twice new) ≡ some 9
unfolding run use_of controller_abort broadcast_abort set_reason notify_abort
    get_reason_or_dom_exception subscribe drop_receiver new first_reason
recv_lem_example = recv_lem twice (omega arith)

abbrev parts : List AbortSignal
parts =
    record { aborted = false; reason = none; sender = none; receivers = 1; emitted = 0 }
    ∷ record { aborted = false; reason = none; sender = none; receivers = 0; emitted = 0 }
    ∷ []

-- The second part aborts, then the first, and then the second once more.
abbrev aborts_of_parts : List Abort
aborts_of_parts =
    record { source = 1; exception = 9; value = some 1 }
    ∷ record { source = 0; exception = 9; value = some 2 }
    ∷ record { source = 1; exception = 9; value = some 3 }
    ∷ []
