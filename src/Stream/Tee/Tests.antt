-- ===== src/Stream/Tee/Tests.antt =====
-- A source with an error, of which the second consumer leaves after one chunk or takes none.
use rong.Base.{◌≡◌, refl, none, some, replicate, List, [], ◌∷◌}
use rong.Stream.{ok, err}
use rong.Stream.Readable.{StreamChunk}
use rong.Stream.Channel.{send, fresh, upto}
use rong.Stream.Tee.{
  stuck, stalled_branch, offer, offer_last, tee, opened_branch, until_error, tee_lem,
}
use rong.Stream.Tee.Stalled.{stalled_lem}

abbrev source : List StreamChunk
source = ok (1 ∷ []) ∷ ok (2 ∷ []) ∷ err (101 ∷ []) ∷ ok (3 ∷ []) ∷ []

tee_run :
    (tee source (opened_branch none) (opened_branch (some 1))).0.tx.sent
    ≡ ok (1 ∷ []) ∷ ok (2 ∷ []) ∷ err (101 ∷ []) ∷ []
unfolding tee offer offer_last stuck opened_branch send fresh
tee_run = refl

tee_lem_example :
    ((tee source (opened_branch none) (opened_branch (some 1))).0.tx.sent
      ≡ upto none (until_error source))
    × ((tee source (opened_branch none) (opened_branch (some 1))).1.tx.sent
        ≡ upto (some 1) (until_error source))
tee_lem_example = tee_lem source none (some 1)

abbrev long_source : List StreamChunk
long_source = replicate 40 (ok (1 ∷ []))

stalled_lem_example :
    ((tee long_source (stalled_branch 2) (opened_branch none)).0.tx.sent
      ≡ upto (some 18) (until_error long_source))
    × ((tee long_source (stalled_branch 2) (opened_branch none)).1.tx.sent
        ≡ upto (some 18) (until_error long_source))
    × ((tee long_source (opened_branch none) (stalled_branch 2)).0.tx.sent
        ≡ upto (some 19) (until_error long_source))
    × ((tee long_source (opened_branch none) (stalled_branch 2)).1.tx.sent
        ≡ upto (some 18) (until_error long_source))
stalled_lem_example = stalled_lem long_source 2
