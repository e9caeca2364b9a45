-- ===== src/Manager/Threads/System.antt =====
-- The threads together with what else touches the manager: the late UpdateStatus of a search's inner
-- goroutine (parsers_conc_search.go), the health checker, and the cleaners of the three caches.
use job_parser.Base.{ℕ, String, Bool, Option, none, some, List, [], ◌∷◌, ◌++◌, get_elem?, set}
use job_parser.Base.Panic.{◌>>=◌}
use job_parser.Base.Error.{Error}
use job_parser.Cache.{clean_up_expired}
use job_parser.Models.{SearchParams}
use job_parser.Status.{CheckResult, apply_result, update_status}
use job_parser.Manager.State.{ParsersManager}
use job_parser.Manager.Search.{Env}
use job_parser.Manager.Threads.{Thread, search, details, brief, move}

pub record System : Type 0 where
  pub manager : ParsersManager
  pub threads : List Thread

-- A request comes, of one of three kinds; a thread moves; an UpdateStatus that a goroutine makes after
-- its search has given it up; one result of a health check taken down; and the three caches' cleaners.
pub data Event : Type 0 where
  begin_search : Env → SearchParams → Event
  begin_details : (vacancy_id source : String) → Event
  begin_brief : (source id : String) → Event
  act : (thread now : ℕ) → Event
  late_update : String → Bool → Option Error → ℕ → Event
  check : CheckResult → ℕ → Event
  clean_searches : ℕ → Event
  clean_index : ℕ → Event
  clean_details : ℕ → Event

abbrev pub begun : Thread → System → System
begun t s = record s { threads = s.threads ++ t ∷ [] }

unfoldable pub moved : ℕ → System → Option (ParsersManager × Thread) → Option System
moved i s none = none
moved i s (some (pm, t)) = some (record { manager = pm; threads = set s.threads i t })

-- An `act` of no thread does nothing.
unfoldable pub act_of : Option Thread → ℕ → ℕ → System → Option System
unfolding moved
act_of none i now s = some s
act_of (some t) i now s = moved i s (move now t s.manager)

abbrev pub with_manager : ParsersManager → System → System
with_manager pm s = record s { manager = pm }

unfoldable pub step : Event → System → Option System
unfolding act_of update_status apply_result clean_up_expired
step (begin_search env params) s = some (begun (search env params) s)
step (begin_details id source) s = some (begun (details id source) s)
step (begin_brief source id) s = some (begun (brief source id) s)
step (act i now) s = act_of (get_elem? s.threads i) i now s
step (late_update name success err now) s = some (
    with_manager
      (record s.manager {
        parsers_status_manager =
            update_status name success err now s.manager.parsers_status_manager;
      })
      s)
step (check r now) s = some (
    with_manager
      (record s.manager {
        parsers_status_manager = apply_result now r s.manager.parsers_status_manager;
      })
      s)
step (clean_searches now) s = some (
    with_manager (record s.manager { search_cache = clean_up_expired now s.manager.search_cache })
      s)
step (clean_index now) s = some (
    with_manager (record s.manager { vacancy_index = clean_up_expired now s.manager.vacancy_index })
      s)
step (clean_details now) s = some (
    with_manager
      (record s.manager { vacancy_details = clean_up_expired now s.manager.vacancy_details }) s)

unfoldable pub run : List Event → System → Option System
unfolding step
run [] s = some s
run (e ∷ es) s = do s' ← step e s; run es s'
