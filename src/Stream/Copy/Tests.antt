-- ===== src/Stream/Copy/Tests.antt =====
-- Two chunks into a file.
use rong.Base.{ℕ, false, ◌≡◌, refl, Option, none, List, [], ◌∷◌, ◌++◌}
use rong.Text.{Text}
use rong.Stream.{Bytes}
use rong.Stream.Writable.{flushed}
use rong.Stream.Writable.Task.{to_async_writer}
use rong.Stream.Pump.{PipeToOptions}
use rong.Stream.Pipe.{resolves}
use rong.Stream.Copy.{copied, copied_lem}

abbrev write_all : Bytes → Bytes → Option Text × Bytes
write_all bytes out = (none, out ++ bytes)

abbrev flush : Bytes → Option Text × Bytes
flush out = (none, out)

abbrev options : PipeToOptions
options = record {
  prevent_close = false;
  prevent_abort = false;
  prevent_cancel = false;
  signal = none;
}

-- A receiver.
abbrev handle : ℕ
handle = 7

abbrev chunks : List Bytes
chunks = (1 ∷ 2 ∷ []) ∷ (3 ∷ []) ∷ []

copied_lem_example :
    ((copied write_all flush options handle none chunks).0 ≡ resolves)
    × (to_async_writer write_all flush
          (copied write_all flush options handle none chunks).1.moved
          []
        ≡ record { writer = 1 ∷ 2 ∷ 3 ∷ []; done_tx = flushed; err_slot = none })
copied_lem_example =
    copied_lem write_all flush options handle none chunks [] refl (λ e. cc, (λ e. cc, tt))
      (refl, (refl, tt)) refl
