-- ===== src/Manager/State.antt =====
-- The manager's state and what it reads from it: parsers_manager.go, status_manager.go,
-- parsers_selector.go, and getAliveParsers of parsers_conc_search.go.
use text.Mathlib.Text.{◌==◌ as str_eq}
use job_parser.Base.{
  ℕ, String, Bool, Option, none, some, List, [], ◌∷◌, ◌++◌, map, keep, if◌then◌else◌,
}
use job_parser.Base.Error.{Error}
use job_parser.Breaker.{CircuitBreaker}
use job_parser.Cache.{InmemoryShardedCache}
use job_parser.Models.{SearchParams, Vacancy, SearchVacancyDetailesResult, Any}
use job_parser.Status
use job_parser.Status.{Stats}

-- The interface Parser: its name, its health endpoint, and what its two searches return.
pub record Parser : Type 0 where
  pub name : String
  pub health_end_point : String
  pub search_vacancies : SearchParams → List Vacancy × Option Error
  pub search_vacancies_detailes : String → SearchVacancyDetailesResult × Option Error

-- The load management fields (semaphore, queue, workers) are those of the pool, in Manager/Pool.
pub record ParsersManager : Type 0 where
  pub parsers : List Parser
  pub search_cache_ttl : ℕ
  pub vacancy_cache_ttl : ℕ
  pub search_cache : InmemoryShardedCache Any
  pub vacancy_index : InmemoryShardedCache Any
  pub vacancy_details : InmemoryShardedCache Any
  pub parsers_status_manager : Stats
  pub circuit_breaker : CircuitBreaker

unfoldable pub get_all_parsers_names : ParsersManager → List String
get_all_parsers_names pm = map (λ p. p.name) pm.parsers

-- GetParserNames, which nothing calls.
unfoldable pub get_parser_names : ParsersManager → List String
get_parser_names pm = map (λ p. p.name) pm.parsers

unfoldable pub get_healthy_parsers : ℕ → ParsersManager → List String
get_healthy_parsers now pm = Status.get_healthy_parsers now pm.parsers_status_manager

unfoldable pub update_parser_status :
    String → Bool → Option Error → ℕ → ParsersManager → ParsersManager
update_parser_status name success err now pm = record pm {
  parsers_status_manager = Status.update_status name success err now pm.parsers_status_manager;
}

update_each : List String → Bool → ℕ → ParsersManager → ParsersManager
unfolding update_parser_status
update_each [] success now pm = pm
update_each (n ∷ ns) success now pm =
    update_each ns success now (update_parser_status n success none now pm)

-- updateAllParsersStatus, which nothing calls.
unfoldable pub update_all_parsers_status : Bool → ℕ → ParsersManager → ParsersManager
unfolding update_each get_all_parsers_names
update_all_parsers_status success now pm = update_each (get_all_parsers_names pm) success now pm

find_in : String → List Parser → Option Parser
find_in name [] = none
find_in name (p ∷ ps) = if str_eq p.name name then some p else find_in name ps

unfoldable pub find_parser_by_name : String → ParsersManager → Option Parser
unfolding find_in
find_parser_by_name name pm = find_in name pm.parsers

unfoldable pub or_else : List String → List String → List String
or_else [] others = others
or_else (n ∷ ns) others = n ∷ ns

unfoldable pub select_parsers_for_search : ℕ → ParsersManager → List String
unfolding or_else get_healthy_parsers get_all_parsers_names
select_parsers_for_search now pm = or_else (get_healthy_parsers now pm) (get_all_parsers_names pm)

-- For each name, every parser of that name.
unfoldable pub alive_in : List String → List Parser → List Parser
alive_in [] ps = []
alive_in (n ∷ ns) ps = keep (λ p. str_eq p.name n) ps ++ alive_in ns ps

unfoldable pub get_alive_parsers : List String → ParsersManager → List Parser
unfolding alive_in
get_alive_parsers names pm = alive_in names pm.parsers
