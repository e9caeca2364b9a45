-- ===== src/Status/Tests.antt =====
-- The status manager's theorems at concrete statuses.
use job_parser.Base.{
  ℕ, String, ◌≡◌, ◌≤◌, ◌-◌, ◌&&◌, ltb, List, is_some, refl, Bool, true, false, Option, none, some,
  [], ◌∷◌, arith, eq_iff,
}
use job_parser.Base.Dict.{lookup, insert, IsDistinct}
use job_parser.Base.Error.{Error}
use job_parser.Status.{ParserStatus, Stats, get_healthy_parsers, check_result, five_minutes}
use job_parser.Status.Laws.{elem}
use job_parser.Status.Checker.{
  Checker, new_checker, Event, begin, arrive, close_results, update, step, run,
}
use job_parser.Status.Checker.Rounds.{listed_after_round}

abbrev hh_status : ParserStatus
hh_status = record {
  name = "HH.ru";
  last_check = 10;
  last_success = 0;
  error_count = 0;
  success_count = 0;
  is_healthy = true;
  last_error = none;
  circuit_state = "closed";
  initialized = true;
  health_endpoint = "hh";
  response_time = 0;
}

abbrev sj_status : ParserStatus
sj_status = record hh_status { name = "SuperJob.ru"; is_healthy = false; health_endpoint = "sj" }

abbrev two : Stats
two = ("HH.ru", hh_status) ∷ ("SuperJob.ru", sj_status) ∷ []

two-IsDistinct : IsDistinct two
two-IsDistinct = ((ground (arith, eq_iff "SuperJob.ru" "HH.ru"), tt), (tt, tt))

abbrev client : String → ℕ × Bool × Option Error
client endpoint = (1, true, none)

-- A first round that fails for both, and a second one that finds both healthy, with an update of the
-- other parser between its results.
abbrev first : List Event
first =
    begin (λ e. (1, false, none))
    ∷ arrive 0 14
    ∷ arrive 0 15
    ∷ close_results
    ∷ update "SuperJob.ru" true none 18
    ∷ []

abbrev second : List Event
second = arrive 1 30 ∷ update "SuperJob.ru" false none 31 ∷ arrive 0 32 ∷ close_results ∷ []

abbrev or_new : Option Checker → Checker
or_new none = new_checker 15 two
or_new (some c) = c

or_new-some : (o : Option Checker) → is_some o ≡ true → o ≡ some (or_new o)
or_new-some none e = cc e
or_new-some (some c) e = refl

abbrev before : Checker
before = or_new (run first (new_checker 15 two))

abbrev asked : Checker
asked = or_new (step (begin client) before)

abbrev after : Checker
after = or_new (run second asked)

before_lem : run first (new_checker 15 two) ≡ some before
unfolding run new_checker
before_lem = or_new-some (run first (new_checker 15 two)) refl

asked_lem : step (begin client) before ≡ some asked
unfolding step run new_checker
asked_lem = or_new-some (step (begin client) before) refl

after_lem : run second asked ≡ some after
unfolding run new_checker insert lookup check_result
after_lem = or_new-some (run second asked) refl

abbrev known : ParserStatus
known = record hh_status { is_healthy = false; last_check = 14 }

known_lem : lookup "HH.ru" before.stats ≡ some known
unfolding lookup run new_checker check_result insert
known_lem = refl

listed_after_round_example :
    (t : ℕ) × (30 ≤ t)
    × (t ≤ 32)
    × (elem "HH.ru" (get_healthy_parsers 40 after.stats) ≡ (true && ltb (40 - t) five_minutes))
unfolding check_result run new_checker insert lookup
listed_after_round_example =
    listed_after_round 15 two first second before asked after client "HH.ru" known 30 32 40
      two-IsDistinct before_lem known_lem asked_lem
      (
        (omega arith, omega arith),
        (ground (arith, eq_iff "SuperJob.ru" "HH.ru"), ((omega arith, omega arith), (tt, tt))),
      )
      after_lem refl
