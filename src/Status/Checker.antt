-- ===== src/Status/Checker.antt =====
-- The goroutine of the status manager: startHealthChecker with the rounds that it makes by
-- performHealthCheck, and Stop. The mutex is held while a round begins and while one result is taken
-- down, so an UpdateStatus can come between the results of a round.
pub mod Distinct
pub mod Rounds
use job_parser.Base.{
  ℕ, zero, suc, String, Bool, true, false, not, ◌&&◌, ◌==◌, Option, none, some, List, [], ◌∷◌,
  is_some, get_elem?, if◌then◌else◌,
}
use job_parser.Base.Panic.{◌>>=◌}
use job_parser.Base.Error.{Error}
use job_parser.Status.{Stats, new_statuses, CheckResult, check_all, apply_result, update_status}

-- `pending` has the results that are still to be taken down, in a round. The goroutine is before its
-- first round or in its `select` otherwise.
pub record Checker : Type 0 where
  pub stats : Stats
  pub interval : ℕ
  pub init_complete : Bool
  pub pending : Option (List CheckResult)
  pub running : Bool

-- The goroutine as startHealthChecker starts it.
unfoldable pub new_checker : ℕ → Stats → Checker
new_checker interval stats = record {
  stats = stats;
  interval = interval;
  init_complete = false;
  pending = none;
  running = true;
}

-- NewParserStatusManager, for the parsers' names and health endpoints. What its HTTP client gets is in
-- the rounds.
unfoldable pub new_parser_status_manager : (interval now : ℕ) → List (String × String) → Checker
unfolding new_checker new_statuses
new_parser_status_manager interval now ps = new_checker interval (new_statuses now ps)

-- A round begins, the first one or one at a tick, with what the client gets from an endpoint; a result
-- arrives, in any order; the channel of the results is closed after the last one; the goroutine reads
-- the stop channel; a search calls UpdateStatus.
pub data Event : Type 0 where
  begin : (String → ℕ × Bool × Option Error) → Event
  arrive : ℕ → ℕ → Event
  close_results : Event
  stop : Event
  update : String → Bool → Option Error → ℕ → Event

pub without {ℓ} : {A : Type ℓ} → ℕ → List A → List A
without i [] = []
without zero (x ∷ xs) = xs
without (suc i) (x ∷ xs) = x ∷ without i xs

-- The loop over the endpoints, under the mutex.
unfoldable pub begin_round :
    (String → ℕ × Bool × Option Error) → Option (List CheckResult) → Checker → Option Checker
begin_round client none c =
    if c.running then some (record c { pending = some (check_all client c.stats) }) else none
begin_round client (some rs) c = none

unfoldable pub take_down : ℕ → ℕ → List CheckResult → Option CheckResult → Checker → Option Checker
unfolding without apply_result
take_down i now rs none c = none
take_down i now rs (some r) c =
    some (record c { stats = apply_result now r c.stats; pending = some (without i rs) })

unfoldable pub arrive_at : ℕ → ℕ → Option (List CheckResult) → Checker → Option Checker
unfolding take_down
arrive_at i now none c = none
arrive_at i now (some rs) c = take_down i now rs (get_elem? rs i) c

-- After the first round the ticker is made, which panics for an interval that is not positive.
unfoldable pub close_at : Option (List CheckResult) → Checker → Option Checker
close_at (some []) c =
    if not c.init_complete && (c.interval == 0)
    then none
    else some (record c { pending = none; init_complete = true })
close_at (some (r ∷ rs)) c = none
close_at none c = none

unfoldable pub stop_at : Option (List CheckResult) → Checker → Option Checker
stop_at none c = if c.running && c.init_complete then some (record c { running = false }) else none
stop_at (some rs) c = none

-- `none` where the event cannot come now, or panics.
unfoldable pub step : Event → Checker → Option Checker
unfolding begin_round arrive_at close_at stop_at update_status
step (begin client) c = begin_round client c.pending c
step (arrive i now) c = arrive_at i now c.pending c
step close_results c = close_at c.pending c
step stop c = stop_at c.pending c
step (update name success err now) c =
    some (record c { stats = update_status name success err now c.stats })

unfoldable pub run : List Event → Checker → Option Checker
unfolding step
run [] c = some c
run (e ∷ es) c = do c' ← step e c; run es c'
