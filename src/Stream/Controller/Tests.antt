-- ===== src/Stream/Controller/Tests.antt =====
-- A source that enqueues two chunks and an invalid value, errs, and goes on.
use rong.Base.{◌≡◌, refl, none, some, List, [], ◌∷◌}
use rong.Stream.{ok, err}
use rong.Stream.Channel.{send, fresh, upto}
use rong.Stream.Controller.{
  typed_array, array_buffer, primitive, invalid_arg, closed, returned, threw, enqueue, close, error,
  Use, enqueues, errors, use_of, run, forward, promised, opened, forward-run, bytes_of,
}

abbrev source : List Use
source =
    enqueues (typed_array (1 ∷ []))
    ∷ enqueues primitive
    ∷ enqueues (array_buffer (2 ∷ []))
    ∷ errors (some (120 ∷ []))
    ∷ enqueues (typed_array (3 ∷ []))
    ∷ []

source_run :
    (run source opened).0 ≡ returned ∷ threw invalid_arg ∷ returned ∷ returned ∷ threw closed ∷ []
unfolding run use_of enqueue close error bytes_of opened
source_run = refl

source_delivered :
    (forward (run source opened).1.sent (fresh none)).sent
    ≡ ok (1 ∷ []) ∷ ok (2 ∷ []) ∷ err (120 ∷ []) ∷ []
unfolding run use_of enqueue close error bytes_of opened forward fresh send
source_delivered = refl

forward-run_example :
    (forward (run source opened).1.sent (fresh (some 2))).sent ≡ upto (some 2) (promised source)
forward-run_example = forward-run source (some 2)
