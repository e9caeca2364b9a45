-- ===== src/Manager/Details.antt =====
-- One vacancy: search_vacancy_datails.go (searchVacancyDetailes, getCompositeIDFromInput and the
-- cache part of GetVacancyDetails).
pub mod Laws
pub mod Index
use Prim.Native.String
use text.Mathlib.Text.{◌==◌ as str_eq}
use job_parser.Base.{
  ℕ, String, Bool, true, false, ◌&&◌, Option, none, some, List, [], ◌∷◌, is_some, if◌then◌else◌,
}
use job_parser.Base.Panic.{◌>>=◌}
use job_parser.Base.Error.{Error, message}
use job_parser.Cache.{get_item, delete_item}
use job_parser.Jobs.{as_results, as_details}
use job_parser.Models.{
  Vacancy, SearchVacanciesResult, SearchVacancyDetailesResult, VacancyIndex, Any, zero_vacancy,
  zero_details,
}
use job_parser.Status.{get_parser_status}
use job_parser.Manager.State.{Parser, ParsersManager}
use job_parser.Manager.Caching.{Results, composite_id, cache_details_result}
use job_parser.Manager.Search.{or_nil}

-- The loop that selects the parser. That the status manager knows the source stands for its health.
unfoldable pub choose_parser : String → Bool → List Parser → Option Parser
choose_parser source known [] = none
choose_parser source known (p ∷ ps) =
    if str_eq p.name source && known then some p else choose_parser source known ps

fetched :
    String
    → ℕ
    → SearchVacancyDetailesResult × Option Error
    → ParsersManager
    → Option (ParsersManager × SearchVacancyDetailesResult × Option Error)
fetched vacancy_id now (d, some e) pm = some (pm, zero_details, some e)
fetched vacancy_id now (d, none) pm = do
  pm' ← cache_details_result vacancy_id d now pm
  some (pm', d, none)

-- A call through a nil interface panics.
fetch_from :
    Option Parser
    → String
    → ℕ
    → ParsersManager
    → Option (ParsersManager × SearchVacancyDetailesResult × Option Error)
unfolding fetched
fetch_from none vacancy_id now pm = none
fetch_from (some p) vacancy_id now pm =
    fetched vacancy_id now (p.search_vacancies_detailes vacancy_id) pm

-- The message leaves out the invisible variation selector after its first sign.
unfoldable pub cached_details : Any → SearchVacancyDetailesResult × Option Error
cached_details a = elim (as_details a) [
  | some d ↦ (d, none)
  | none ↦ (
    zero_details,
    some (message "⚠  Type assertion для кэшированных данных деталей вакансии -  не удался\n"),
  )
]

details_after :
    Option Any
    → String
    → String
    → ℕ
    → ParsersManager
    → Option (ParsersManager × SearchVacancyDetailesResult × Option Error)
unfolding fetch_from cached_details choose_parser
details_after (some a) vacancy_id source now pm =
    some (pm, (cached_details a).0, (cached_details a).1)
details_after none vacancy_id source now pm =
    let known = is_some (get_parser_status source pm.parsers_status_manager) in
    fetch_from (choose_parser source known pm.parsers) vacancy_id now pm

-- searchVacancyDetailes: the cache is read at `start`, and written at `finish`.
unfoldable pub search_vacancy_detailes :
    String
    → String
    → ℕ
    → ℕ
    → ParsersManager
    → Option (ParsersManager × SearchVacancyDetailesResult × Option Error)
unfolding details_after
search_vacancy_detailes vacancy_id source start finish pm = do
  cached ← get_item vacancy_id start pm.vacancy_details
  details_after cached vacancy_id source finish pm

-- The innermost test of GetVacancyDetails: the last vacancy with the ID wins.
unfoldable pub brief : Vacancy → Vacancy → Vacancy
brief v target = record target {
  id = v.id;
  job = v.job;
  salary = v.salary;
  company = v.company;
  area = v.area;
  url = v.url;
}

unfoldable pub pick_vacancy : String → List Vacancy → Vacancy → Vacancy
unfolding brief
pick_vacancy id [] target = target
pick_vacancy id (v ∷ vs) target =
    pick_vacancy id vs (if str_eq v.id id then brief v target else target)

unfoldable pub pick_result : String → String → List SearchVacanciesResult → Vacancy → Vacancy
unfolding pick_vacancy
pick_result source id [] target = target
pick_result source id (r ∷ rs) target =
    pick_result source id rs
      (if str_eq r.parser_name source then pick_vacancy id r.vacancies target else target)

-- What GetVacancyDetails prints, or the error that it returns.
pub data Brief : Type 0 where
  shown : Vacancy → Brief
  failed : Error → Brief

from_search : Option Any → String → String → ParsersManager → ParsersManager × Brief
from_search none source id pm = (
  record pm { vacancy_index = delete_item (composite_id source id) pm.vacancy_index },
  failed (message "Данные устарели, сделайте повторный запрос (пункт меню 1)\n"),
)
from_search (some a) source id pm = elim (as_results a) [
  | none ↦ (pm, failed (message "Type assertion after multi-search ---> failed!\n"))
  | some rs ↦ (pm, shown (pick_result source id (or_nil rs) zero_vacancy))
]

from_index : Option Any → String → String → ℕ → ParsersManager → Option (ParsersManager × Brief)
unfolding from_search
from_index none source id now pm = some (
  pm,
  failed (message (String.◌++◌ "No Vacancy with ID:" (String.◌++◌ id " was found in cache\n"))),
)
from_index (some (Any.index i)) source id now pm = do
  item ← get_item i.search_hash now pm.search_cache
  some (from_search item source id pm)
from_index (some (Any.results rs)) source id now pm =
    some (pm, failed (message "Type assertion after GetVacancyDetails ---> failed!\n"))
from_index (some (Any.details d)) source id now pm =
    some (pm, failed (message "Type assertion after GetVacancyDetails ---> failed!\n"))

-- GetVacancyDetails after the input: the source and the ID of the vacancy.
unfoldable pub get_vacancy_details :
    String → String → ℕ → ParsersManager → Option (ParsersManager × Brief)
unfolding from_index
get_vacancy_details source id now pm = do
  item ← get_item (composite_id source id) now pm.vacancy_index
  from_index item source id now pm
