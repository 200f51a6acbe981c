-- ===== src/Cron/Tests.antt =====
-- Expressions of concrete schedules.
use rong.Base.{◌≡◌, refl, List, [], ◌∷◌, codes}
use rong.Text.{Text, is_empty, starts_with, has_prefix, is_whitespace, trim, join}
use rong.Cron.{
  ok, to_ascii_uppercase, replace_skip, replace, words, split_whitespace, nickname, shorten,
  normalize_expression, scheduler_expressions,
}
use rong.Cron.Fields.{AreJobs, scheduler_expressions_lem}

runs : Unit {0}
unfolding normalize_expression scheduler_expressions to_ascii_uppercase replace_skip replace words
    split_whitespace nickname shorten is_empty starts_with has_prefix is_whitespace trim join
runs = tt

normalizes : normalize_expression (codes " 0 9 13 january friday ") ≡ ok (codes "0 9 13 JAN FRI")
unfolding runs
normalizes = refl

schedules :
    scheduler_expressions (codes "0 9 13 * fri")
    ≡ ok (codes "0 0 9 13 * *" ∷ codes "0 0 9 * * FRI" ∷ [])
unfolding runs
schedules = refl

scheduler_expressions_lem_example :
    (minute : Text) × (hour : Text) × (dom : Text) × (month : Text) × (dow : Text)
    × (split_whitespace (codes "0 9 13 JAN FRI") ≡ minute ∷ hour ∷ dom ∷ month ∷ dow ∷ [])
    × ((jobs : List Text) × (scheduler_expressions (codes " 0 9 13 january friday ") ≡ ok jobs)
        × AreJobs minute hour dom month dow jobs)
scheduler_expressions_lem_example =
    scheduler_expressions_lem (codes " 0 9 13 january friday ") (codes "0 9 13 JAN FRI") normalizes
