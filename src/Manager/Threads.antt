-- ===== src/Manager/Threads.antt =====
-- Searches, details requests and brief looks that run at once on one manager: executeSearch
-- (search_vacansies.go, parsers_conc_search.go, cache.go, internal_func.go), and searchVacancyDetailes
-- and GetVacancyDetails (search_vacancy_datails.go), cut where they touch what they share. One move is
-- one call that takes a lock; between two moves of a thread the others may move, the cleaners and the
-- health checker included. The hash is the same at each of its three computations.
pub mod System
pub mod Typed
pub mod Searches
pub mod Moves
pub mod Kept
pub mod Reach
pub mod Own
mod Tests
use Prim.Native.String
use job_parser.Base.{
  ℕ, suc, String, Bool, Option, none, some, List, [], ◌∷◌, ◌++◌, is_some, if◌then◌else◌, get_elem?,
  set,
}
use job_parser.Base.Panic.{◌>>=◌}
use job_parser.Base.Error.{Error, message}
use job_parser.Cache.{get_item, add_item_with_ttl, delete_item, clean_up_expired}
use job_parser.Jobs.{as_results}
use job_parser.Models.{
  SearchParams, Vacancy, SearchVacanciesResult, SearchVacancyDetailesResult, VacancyIndex, Any,
  zero_details, zero_vacancy,
}
use job_parser.Status.{get_parser_status, update_status}
use job_parser.Manager.State.{Parser, ParsersManager, get_alive_parsers, select_parsers_for_search}
use job_parser.Manager.Caching.{Results, composite_id, try_get_from_cache, cache_details_result}
use job_parser.Manager.Search.{
  Env, Fate, search_one, as_slice, or_nil, is_empty, filter_successful_results,
}
use job_parser.Manager.Details.{Brief, shown, failed, cached_details, choose_parser, pick_result}

-- Where a thread is, with its local variables. A search: before the cache; after a miss; with the
-- parsers that have still to answer, and the results so far; before the write of the search cache;
-- with the index entries still to write; and with its outcome. The hash of the search is kept with it.
-- A details request: before the cache; after a miss; before the write; with its outcome. A brief look:
-- before the index; before the search cache; before the deletion; with its outcome.
pub data Thread : Type 0 where
  search : Env → SearchParams → Thread
  selecting : Env → SearchParams → Thread
  asking : SearchParams → String → List (Parser × Fate) → List SearchVacanciesResult → Thread
  storing : String → List SearchVacanciesResult → List SearchVacanciesResult → Thread
  indexing : String → List (String × VacancyIndex) → List SearchVacanciesResult → Thread
  searched : String → Results → Option Error → Thread
  details : (vacancy_id source : String) → Thread
  fetching : (vacancy_id source : String) → Thread
  keeping : String → SearchVacancyDetailesResult → Thread
  detailed : SearchVacancyDetailesResult → Option Error → Thread
  brief : (source id : String) → Thread
  looking : VacancyIndex → (source id : String) → Thread
  forgetting : (source id : String) → Thread
  briefed : Brief → Thread

abbrev pub hash_of : Env → SearchParams → String
hash_of env params = (env.gen_hash params).0

-- executeSearch after tryGetFromCache.
after_cache : Option Results → Env → SearchParams → Thread
after_cache (some rs) env params = searched (hash_of env params) rs none
after_cache none env params = selecting env params

-- What executeSearch makes of an error of searchWithParsers.
search_failed : Env → SearchParams → Thread
search_failed env params =
    searched (hash_of env params) none
      (some (message "❌ Конкурентный поиск по парсерам - не удался!"))

hashed : String × Option Error → Env → SearchParams → List (Parser × Fate) → Thread
unfolding search_failed
hashed (hash, some e) env params todo = search_failed env params
hashed (hash, none) env params todo = asking params hash todo []

-- searchWithParsers looks at the context before it starts the search.
in_context : Option Error → Env → SearchParams → List (Parser × Fate) → Thread
unfolding hashed search_failed
in_context none env params todo = hashed (env.gen_hash params) env params todo
in_context (some e) env params todo = search_failed env params

-- executeSearch after selectParsersForSearch, up to the start of the goroutines.
pub selected : Env → SearchParams → List String → ParsersManager → Thread
unfolding in_context
selected env params [] pm =
    searched (hash_of env params) none (some (message "❌ Нет доступных парсеров для поиска"))
selected env params (n ∷ ns) pm =
    in_context env.ctx_err env params (env.arrive (get_alive_parsers (n ∷ ns) pm))

-- executeSearch after searchWithParsers.
pub gathered : String → List SearchVacanciesResult → Thread
unfolding filter_successful_results as_slice
gathered hash rs =
    if is_empty (filter_successful_results (as_slice rs))
    then searched hash (as_slice rs) none
    else storing hash (filter_successful_results (as_slice rs)) rs

-- What buildReverseIndex writes, in its order.
vacancy_entries : String → String → ℕ → List Vacancy → List (String × VacancyIndex)
vacancy_entries hash parser i [] = []
vacancy_entries hash parser i (v ∷ vs) =
    (
      composite_id v.seeker v.id,
      record { search_hash = hash; parser_name = parser; index = i; created_at = 0 },
    )
    ∷ vacancy_entries hash parser (suc i) vs

unfoldable pub index_entries : String → List SearchVacanciesResult → List (String × VacancyIndex)
unfolding vacancy_entries
index_entries hash [] = []
index_entries hash (r ∷ rs) =
    vacancy_entries hash r.parser_name 0 r.vacancies ++ index_entries hash rs

after_details : Option Any → String → String → Thread
unfolding cached_details
after_details (some a) id source = detailed (cached_details a).0 (cached_details a).1
after_details none id source = fetching id source

fetched : String → SearchVacancyDetailesResult × Option Error → Thread
fetched id (d, some e) = detailed zero_details (some e)
fetched id (d, none) = keeping id d

-- A call through a nil interface panics.
call_parser : Option Parser → String → ParsersManager → Option (ParsersManager × Thread)
unfolding fetched
call_parser none id pm = none
call_parser (some p) id pm = some (pm, fetched id (p.search_vacancies_detailes id))

after_index : Option Any → String → String → Thread
after_index none source id =
    briefed (
      failed (message (String.◌++◌ "No Vacancy with ID:" (String.◌++◌ id " was found in cache\n"))))
after_index (some (Any.index i)) source id = looking i source id
after_index (some (Any.results rs)) source id =
    briefed (failed (message "Type assertion after GetVacancyDetails ---> failed!\n"))
after_index (some (Any.details d)) source id =
    briefed (failed (message "Type assertion after GetVacancyDetails ---> failed!\n"))

after_search : Option Any → String → String → Thread
unfolding pick_result
after_search none source id = forgetting source id
after_search (some a) source id = elim (as_results a) [
  | none ↦ briefed (failed (message "Type assertion after multi-search ---> failed!\n"))
  | some rs ↦ briefed (shown (pick_result source id (or_nil rs) zero_vacancy))
]

-- One move of a thread; `none` is a panic. A thread that has its outcome stays as it is.
unfoldable pub move : ℕ → Thread → ParsersManager → Option (ParsersManager × Thread)
unfolding after_cache selected gathered index_entries after_details call_parser after_index
    after_search
move now (search env params) pm = do
  cached ← try_get_from_cache env.gen_hash now params pm
  some (pm, after_cache cached env params)
move now (selecting env params) pm =
    some (pm, selected env params (select_parsers_for_search now pm) pm)
move now (asking params hash [] rs) pm = some (pm, gathered hash rs)
move now (asking params hash (a ∷ todo) rs) pm =
    let (stats, r) = search_one params hash now a pm.parsers_status_manager in
    some (record pm { parsers_status_manager = stats }, asking params hash todo (rs ++ r ∷ []))
move now (storing hash good rs) pm = do
  c ← add_item_with_ttl hash (Any.results (some good)) pm.search_cache_ttl now pm.search_cache
  some (record pm { search_cache = c }, indexing hash (index_entries hash good) rs)
move now (indexing hash [] rs) pm = some (pm, searched hash (as_slice rs) none)
move now (indexing hash ((key, i) ∷ es) rs) pm = do
  c ← add_item_with_ttl key (Any.index i) pm.vacancy_cache_ttl now pm.vacancy_index
  some (record pm { vacancy_index = c }, indexing hash es rs)
move now (details id source) pm = do
  cached ← get_item id now pm.vacancy_details
  some (pm, after_details cached id source)
move now (fetching id source) pm =
    call_parser
      (choose_parser source (is_some (get_parser_status source pm.parsers_status_manager))
        pm.parsers)
      id pm
move now (keeping id d) pm = do pm' ← cache_details_result id d now pm; some (pm', detailed d none)
move now (brief source id) pm = do
  item ← get_item (composite_id source id) now pm.vacancy_index
  some (pm, after_index item source id)
move now (looking i source id) pm = do
  item ← get_item i.search_hash now pm.search_cache
  some (pm, after_search item source id)
move now (forgetting source id) pm = some (
  record pm { vacancy_index = delete_item (composite_id source id) pm.vacancy_index },
  briefed (failed (message "Данные устарели, сделайте повторный запрос (пункт меню 1)\n")),
)
move now (searched hash rs err) pm = some (pm, searched hash rs err)
move now (detailed d err) pm = some (pm, detailed d err)
move now (briefed b) pm = some (pm, briefed b)
