-- ===== src/Status.antt =====
-- The status manager: parser/internal/parsers_status_manager and interfaces/parseres_status_manager.go.
-- UpdateStatus, GetHealthyParsers and GetParserStatus run under the mutex, so each is one step;
-- performHealthCheck takes it for each result, and its steps are in Status/Checker. Times are
-- nanoseconds and do not run backwards. The counters are left unbounded.
pub mod Laws
pub mod Health
pub mod Checker
pub mod Client
mod Tests
use Prim.Native.String
use job_parser.Base.{
  ℕ, ◌+◌, ◌-◌, ◌*◌, String, Bool, true, false, ◌&&◌, not, Option, none, some, List, [], ◌∷◌, ltb,
  leb, if◌then◌else◌, map, keep, is_some,
}
use job_parser.Base.Dict.{Dict, lookup, insert}
use job_parser.Base.Error.{Error, message, wrap, error_text}

pub record ParserStatus : Type 0 where
  pub name : String
  pub last_check : ℕ
  pub last_success : ℕ
  pub error_count : ℕ
  pub success_count : ℕ
  pub is_healthy : Bool
  pub last_error : Option Error
  pub circuit_state : String
  pub initialized : Bool
  pub health_endpoint : String
  pub response_time : ℕ

abbrev pub Stats : Type 0
Stats = Dict ParserStatus

-- `5 * time.Minute`
abbrev pub five_minutes : ℕ
five_minutes = 300_000_000_000

-- The entry that the constructor makes for a parser.
initial_status : String → String → ℕ → ParserStatus
initial_status name endpoint now = record {
  name = name;
  last_check = now;
  last_success = 0;
  error_count = 0;
  success_count = 0;
  is_healthy = false;
  last_error = none;
  circuit_state = "closed";
  initialized = false;
  health_endpoint = endpoint;
  response_time = 0;
}

-- The loop of NewParserStatusManager over the parsers' names and health endpoints.
unfoldable pub init_stats : ℕ → List (String × String) → Stats → Stats
unfolding initial_status
init_stats now [] stats = stats
init_stats now ((name, endpoint) ∷ ps) stats =
    init_stats now ps (insert name (initial_status name endpoint now) stats)

unfoldable pub new_statuses : ℕ → List (String × String) → Stats
unfolding init_stats
new_statuses now ps = init_stats now ps []

-- The entry that UpdateStatus makes for a name that it does not know.
unknown_status : String → ℕ → ParserStatus
unknown_status name now = record {
  name = name;
  last_check = now;
  last_success = 0;
  error_count = 0;
  success_count = 0;
  is_healthy = false;
  last_error = none;
  circuit_state = "";
  initialized = true;
  health_endpoint = "";
  response_time = 0;
}

or_unknown : Option ParserStatus → String → ℕ → ParserStatus
unfolding unknown_status
or_unknown none name now = unknown_status name now
or_unknown (some s) name now = s

marked : Bool → Option Error → ℕ → ParserStatus → ParserStatus
marked success err now s =
    if success
    then record s {
      last_check = now;
      success_count = s.success_count + 1;
      error_count = 0;
      is_healthy = true;
      last_error = none;
    }
    else record s {
      last_check = now;
      error_count = s.error_count + 1;
      success_count = 0;
      is_healthy = false;
      last_error = err;
    }

unfoldable pub update_status : String → Bool → Option Error → ℕ → Stats → Stats
unfolding or_unknown marked
update_status name success err now stats =
    insert name (marked success err now (or_unknown (lookup name stats) name now)) stats

-- The test of GetHealthyParsers.
abbrev pub is_fresh : ℕ → ParserStatus → Bool
is_fresh now s = s.is_healthy && ltb (now - s.last_check) five_minutes

-- In the order of the list; Go's order of a map is any.
unfoldable pub get_healthy_parsers : ℕ → Stats → List String
get_healthy_parsers now stats = map (λ e. e.0) (keep (λ (name, s). is_fresh now s) stats)

unfoldable pub get_parser_status : String → Stats → Option ParserStatus
get_parser_status name stats = lookup name stats

-- How the HTTP request of a health check ends: it could not be made, it failed, or a status came.
pub data Reply : Type 0 where
  no_request : Error → Reply
  failed : Error → Reply
  status : ℕ → Reply

-- CheckHealth, by the time limit of the client, the error of the caller's context if it is done when
-- the request ends, the reply, and how long it took. The digits of a status code are a parameter.
unfoldable pub check_health : (ℕ → String) → ℕ → Option Error → Reply → ℕ → ℕ × Bool × Option Error
check_health print timeout _ (no_request e) duration = (
  0,
  false,
  some (
      message
        (String.◌++◌ "Failed to create request with context for health check: " (error_text e))),
)
check_health print timeout (some e) (failed x) duration = (timeout, false, some e)
check_health print timeout none (failed x) duration =
    (duration, false, some (message (String.◌++◌ "Err during health request: " (error_text x))))
check_health print timeout (some e) (status code) duration = (timeout, false, some e)
check_health print timeout none (status code) duration =
    if leb 200 code && ltb code 300 then (duration, true, none) else (
      duration,
      false,
      some (message (String.◌++◌ "health check failed with status: " (print code))),
    )

pub record CheckResult : Type 0 where
  pub name : String
  pub healthy : Bool
  pub init_done : Bool
  pub err : Option Error

-- What the goroutine of one parser sends, from what CheckHealth returned.
unfoldable pub check_result : String → ℕ × Bool × Option Error → CheckResult
check_result name (duration, healthy, err) = record {
  name = name;
  healthy = healthy && not (is_some err);
  init_done = true;
  err = err;
}

apply_to : Option ParserStatus → CheckResult → ℕ → Stats → Stats
apply_to none r now stats = stats
apply_to (some s) r now stats =
    insert r.name (record s { is_healthy = r.healthy; last_check = now; initialized = r.init_done })
      stats

-- One round of the loop of performHealthCheck over the results, in the order in which they arrive.
unfoldable pub apply_result : ℕ → CheckResult → Stats → Stats
unfolding apply_to
apply_result now r stats = apply_to (lookup r.name stats) r now stats

-- The results that the goroutines send: one for each entry, given what the client's CheckHealth
-- returns for an endpoint.
abbrev pub check_all : (String → ℕ × Bool × Option Error) → Stats → List CheckResult
check_all client [] = []
check_all client ((name, s) ∷ stats) =
    check_result name (client s.health_endpoint) ∷ check_all client stats
