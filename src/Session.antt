-- ===== src/Session.antt =====
-- A session at the console: Run of parser/cmd/parser/app.go on the manager, with MultiSearch
-- (multi_search.go), GetVacancyDetails and GetFullVacancyDetails (search_vacancy_datails.go) whole.
-- What is read does not depend on what was answered, so the session performs the actions that the menu
-- gives (Console/Menu).
pub mod Laws
pub mod Program
mod Tests
use job_parser.Base.{ℕ, suc, String, Bool, Option, none, some, List, [], ◌∷◌, ◌⊎◌, inl, inr}
use job_parser.Base.Int.{ℤ}
use job_parser.Base.Panic.{◌>>=◌}
use job_parser.Base.Error.{Error}
use job_parser.Models.{SearchParams, SearchVacanciesResult}
use job_parser.Manager.State.{ParsersManager}
use job_parser.Manager.Search.{Env}
use job_parser.Manager.Worker.{search_vacancies}
use job_parser.Manager.Details
use job_parser.Manager.Details.{Brief, get_vacancy_details}
use job_parser.Manager.DetailsJob.{execute_search_vacancy_detailes}
use job_parser.Config.{System}
use job_parser.Status.Checker
use job_parser.Status.Checker.{Checker}
use job_parser.Start.{App, Answers, init_app}
use job_parser.Console.Menu.{
  Action, search, brief_details, full_details, wrong_input, wrong_choice, shut_down, run_app,
}
use job_parser.Console.Print.{
  Report, Card, check_results, print_multi_search_results, print_vacancy_details, show_full_details,
}

-- What the outside decides of one action: the ID of its job and the rounds that its worker makes after
-- the first send; whether a slot was free; the environment of a search; the two times; and what the
-- health checker does before the action.
pub record Outside : Type 0 where
  pub job_id : String
  pub rounds : ℕ
  pub slot : Bool
  pub env : Env
  pub start : ℕ
  pub finish : ℕ
  pub checks : List Checker.Event

pub data Output : Type 0 where
  report : List Report → ℕ → Output
  card : Card → Output
  failure : Error → Output
  bad_choice : Output
  goodbye : Output

reported : Error ⊎ List SearchVacanciesResult → ℤ → Option Output
reported (inl e) per_page = some (failure e)
reported (inr rs) per_page = do
  printed ← print_multi_search_results rs per_page 0
  some (report printed.0 printed.1)

-- MultiSearch after its input; `none` is a panic.
unfoldable pub multi_search :
    Outside → SearchParams → ParsersManager → Option (ParsersManager × Output)
unfolding reported search_vacancies check_results print_multi_search_results
multi_search out params pm = do
  r ← search_vacancies out.job_id out.rounds out.slot out.env out.start out.finish params pm
  shown ← reported (check_results (r.1, r.2)) params.per_page
  some (r.0, shown)

brief_output : Brief → Output
brief_output (Details.shown v) = card (print_vacancy_details v)
brief_output (Details.failed e) = failure e

-- GetVacancyDetails after its input.
unfoldable pub brief_look :
    Outside → (source id : String) → ParsersManager → Option (ParsersManager × Output)
unfolding brief_output get_vacancy_details
brief_look out source id pm = do
  r ← get_vacancy_details source id out.start pm
  some (r.0, brief_output r.1)

full_output : Error ⊎ Card → Output
full_output (inl e) = failure e
full_output (inr c) = card c

-- GetFullVacancyDetails after its input.
unfoldable pub full_look :
    Outside → (source id : String) → ParsersManager → Option (ParsersManager × Output)
unfolding full_output execute_search_vacancy_detailes show_full_details
full_look out source id pm = do
  r ←
      execute_search_vacancy_detailes out.job_id out.rounds out.slot id source out.start out.finish
        pm
  some (r.0, full_output (show_full_details (r.1, r.2)))

unfoldable pub perform : Outside → Action → ParsersManager → Option (ParsersManager × Output)
unfolding multi_search brief_look full_look
perform out (search params) pm = multi_search out params pm
perform out (brief_details source id) pm = brief_look out source id pm
perform out (full_details source id) pm = full_look out source id pm
perform out (wrong_input e) pm = some (pm, failure e)
perform out wrong_choice pm = some (pm, bad_choice)
perform out shut_down pm = some (pm, goodbye)

-- The health checker's goroutine between two actions, on the statuses that the manager shares with it.
unfoldable pub health_checked :
    List Checker.Event → Checker → ParsersManager → Option (Checker × ParsersManager)
unfolding Checker.run
health_checked es checker pm = do
  c ← Checker.run es (record checker { stats = pm.parsers_status_manager })
  some (c, record pm { parsers_status_manager = c.stats })

-- The actions in their order, the `i`-th with what the outside decides of it.
unfoldable pub perform_all :
    (ℕ → Outside)
    → ℕ
    → List Action
    → Checker
    → ParsersManager
    → Option (Checker × ParsersManager × List Output)
unfolding perform health_checked
perform_all outs i [] checker pm = some (checker, pm, [])
perform_all outs i (a ∷ as_) checker pm = do
  now ← health_checked (outs i).checks checker pm
  r ← perform (outs i) a now.1
  later ← perform_all outs (suc i) as_ now.0 r.0
  some (later.0, later.1, r.1 ∷ later.2)

-- Run; the fuel is that of the menu.
unfoldable pub run_session :
    ℕ
    → (ℕ → Outside)
    → List String
    → Checker
    → ParsersManager
    → Option (Checker × ParsersManager × List Output)
unfolding perform_all run_app
run_session fuel outs lines checker pm = do
  typed ← run_app fuel lines
  perform_all outs 0 typed.0 checker pm

after_start : ℕ → (ℕ → Outside) → List String → Error ⊎ App → Option (List Output)
unfolding run_session
after_start fuel outs lines (inl e) = none
after_start fuel outs lines (inr app) = do
  r ← run_session fuel outs lines app.checker app.manager
  some r.2

-- `main` of parser/cmd/parser/main.go: what is printed in a session after the start. It panics when the
-- start fails; Run returns no error.
unfoldable pub main :
    System → (cores now : ℕ) → Answers → ℕ → (ℕ → Outside) → List String → Option (List Output)
unfolding after_start init_app
main sys cores now answers fuel outs lines = do
  started ← init_app sys cores now answers
  after_start fuel outs lines started
