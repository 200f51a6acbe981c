-- ===== src/Cron.antt =====
-- modules/rong_cron/src/lib.rs: what is made of a cron expression before it is parsed or scheduled.
-- The parser and the scheduler are libraries.
pub mod Fields
pub mod Jobs
mod Tests
use rong.Base.{
  ℕ, zero, suc, ◌-◌, Bool, true, false, not, ◌&&◌, ◌||◌, List, [], ◌∷◌, ◌++◌, map, codes, leb,
  if◌then◌else◌, ◌==◌, nat_eq, list_eq, length,
}
use rong.Text.{Text, is_empty, starts_with, has_prefix, is_whitespace, trim, join}

pub data Result {ℓ} (A : Type ℓ) : Type ℓ where
  ok : A → Result A
  err : Text → Result A

abbrev upper : ℕ → ℕ
upper c = if leb b'a' c && leb c b'z' then c - 32 else c

pub to_ascii_uppercase : Text → Text
to_ascii_uppercase s = map upper s

-- `str::replace`; `skip` characters belong to the last match.
unfoldable pub replace_skip : Text → Text → ℕ → Text → Text
replace_skip from to skip [] = []
replace_skip from to (suc skip) (c ∷ s) = replace_skip from to skip s
replace_skip from to zero (c ∷ s) = elim (has_prefix from (c ∷ s)) [
  | true ↦ to ++ replace_skip from to (length from - 1) s
  | false ↦ c ∷ replace_skip from to zero s
]

pub replace : Text → Text → Text → Text
replace from to s = replace_skip from to 0 s

abbrev pub flush : Text → List Text
flush word = if is_empty word then [] else word ∷ []

-- `str::split_whitespace`; `word` is what has been read of the word at hand.
unfoldable pub words : Text → Text → List Text
words word [] = flush word
words word (c ∷ s) = elim (is_whitespace c) [
  | true ↦ flush word ++ words [] s
  | false ↦ words (word ++ c ∷ []) s
]

unfoldable pub split_whitespace : Text → List Text
split_whitespace s = words [] s

pub nickname : Text → Text → Result Text
nickname expression s =
    if s == codes "@YEARLY" || (s == codes "@ANNUALLY")
    then ok (codes "0 0 1 1 *")
    else if s == codes "@MONTHLY"
    then ok (codes "0 0 1 * *")
    else if s == codes "@WEEKLY"
    then ok (codes "0 0 * * 0")
    else if s == codes "@DAILY" || (s == codes "@MIDNIGHT")
    then ok (codes "0 0 * * *")
    else if s == codes "@HOURLY"
    then ok (codes "0 * * * *")
    else if starts_with b'@' s
    then err (codes "Unsupported cron nickname: " ++ trim expression)
    else ok s

abbrev pub names : List (Text × Text)
names =
    (codes "SUNDAY", codes "SUN")
    ∷ (codes "MONDAY", codes "MON")
    ∷ (codes "TUESDAY", codes "TUE")
    ∷ (codes "WEDNESDAY", codes "WED")
    ∷ (codes "THURSDAY", codes "THU")
    ∷ (codes "FRIDAY", codes "FRI")
    ∷ (codes "SATURDAY", codes "SAT")
    ∷ (codes "JANUARY", codes "JAN")
    ∷ (codes "FEBRUARY", codes "FEB")
    ∷ (codes "MARCH", codes "MAR")
    ∷ (codes "APRIL", codes "APR")
    ∷ (codes "JUNE", codes "JUN")
    ∷ (codes "JULY", codes "JUL")
    ∷ (codes "AUGUST", codes "AUG")
    ∷ (codes "SEPTEMBER", codes "SEP")
    ∷ (codes "OCTOBER", codes "OCT")
    ∷ (codes "NOVEMBER", codes "NOV")
    ∷ (codes "DECEMBER", codes "DEC")
    ∷ []

pub shorten : List (Text × Text) → Text → Text
shorten [] s = s
shorten ((full, short) ∷ more) s = shorten more (replace full short s)

abbrev pub bad_count : Text
bad_count = codes "Cron expression must be a 5-field expression or a supported nickname"

abbrev pub counted : Text → Result Text
counted s = if not (length (split_whitespace s) == 5) then err bad_count else ok s

abbrev pub shortened : Result Text → Result Text
shortened (err e) = err e
shortened (ok s) = counted (shorten names s)

pub normalize_expression : Text → Result Text
unfolding nickname to_ascii_uppercase shorten replace
normalize_expression expression =
    let s = to_ascii_uppercase (trim expression) in
    if is_empty s
    then err (codes "Cron expression must not be empty")
    else shortened (nickname expression s)

abbrev pub star : Text
star = codes "*"

abbrev pub spaced : List Text → Text
spaced = join (b' ' ∷ [])

abbrev pub jobs_of : Text → List Text → Result (List Text)
jobs_of s (minute ∷ hour ∷ dom ∷ month ∷ dow ∷ []) =
    if not (dom == star) && not (dow == star)
    then ok (
        spaced (codes "0" ∷ minute ∷ hour ∷ dom ∷ month ∷ star ∷ [])
        ∷ spaced (codes "0" ∷ minute ∷ hour ∷ star ∷ month ∷ dow ∷ [])
        ∷ [])
    else ok ((codes "0 " ++ s) ∷ [])
jobs_of s _ = err bad_count

abbrev pub jobs_of_normalized : Result Text → Result (List Text)
jobs_of_normalized (err e) = err e
jobs_of_normalized (ok s) = jobs_of s (split_whitespace s)

-- The expressions of the jobs that the scheduler gets, with a field for the seconds.
pub scheduler_expressions : Text → Result (List Text)
unfolding normalize_expression
scheduler_expressions expression = jobs_of_normalized (normalize_expression expression)
