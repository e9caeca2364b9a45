-- ===== src/Manager/Caching.antt =====
-- The search cache and the reverse index: cache.go, and buildReverseIndex of internal_func.go.
pub mod Laws
use Prim.Native.String
use job_parser.Base.{ℕ, suc, String, Option, none, some, List, [], ◌∷◌, ◌+◌}
use job_parser.Base.Panic.{◌>>=◌}
use job_parser.Base.Error.{Error}
use job_parser.Cache.{InmemoryShardedCache, get_item, add_item_with_ttl}
use job_parser.Jobs.{as_results}
use job_parser.Models.{
  SearchParams, Vacancy, SearchVacanciesResult, SearchVacancyDetailesResult, Any,
}
use job_parser.Manager.State.{ParsersManager}

-- The key of a search, a parameter here (Manager/Hash has the program's): the hash, and the error that
-- the encoding can return.
abbrev pub GenHash : Type 0
GenHash = SearchParams → String × Option Error

abbrev pub Results : Type 0
Results = Option (List SearchVacanciesResult)

unfoldable pub cached_results : Option Any → Option Results
cached_results none = none
cached_results (some a) = as_results a

unfoldable pub hit_for : ℕ → String × Option Error → ParsersManager → Option (Option Results)
unfolding cached_results
hit_for now (hash, some e) pm = some none
hit_for now (hash, none) pm = do
  item ← get_item hash now pm.search_cache
  some (cached_results item)

-- `none` is a panic, `some none` is "not found".
unfoldable pub try_get_from_cache :
    GenHash → ℕ → SearchParams → ParsersManager → Option (Option Results)
unfolding hit_for
try_get_from_cache gen now params pm = hit_for now (gen params) pm

-- `fmt.Sprintf("%s_%s", a, b)`
abbrev pub composite_id : String → String → String
composite_id source id = String.◌++◌ source (String.◌++◌ "_" id)

-- The inner loop of buildReverseIndex, from the position `i` on.
unfoldable pub index_vacancies :
    String
    → String
    → ℕ
    → ℕ
    → ℕ
    → List Vacancy
    → InmemoryShardedCache Any
    → Option (InmemoryShardedCache Any)
index_vacancies hash parser ttl now i [] c = some c
index_vacancies hash parser ttl now i (v ∷ vs) c = do
  c' ←
      add_item_with_ttl (composite_id v.seeker v.id)
        (Any.index (record { search_hash = hash; parser_name = parser; index = i; created_at = 0 }))
        ttl now c
  index_vacancies hash parser ttl now (suc i) vs c'

unfoldable pub index_results :
    String
    → ℕ
    → ℕ
    → List SearchVacanciesResult
    → InmemoryShardedCache Any
    → Option (InmemoryShardedCache Any)
unfolding index_vacancies
index_results hash ttl now [] c = some c
index_results hash ttl now (r ∷ rs) c = do
  c' ← index_vacancies hash r.parser_name ttl now 0 r.vacancies c
  index_results hash ttl now rs c'

unfoldable pub build_reverse_index :
    String → List SearchVacanciesResult → ℕ → ParsersManager → Option ParsersManager
unfolding index_results
build_reverse_index hash results now pm = do
  c ← index_results hash pm.vacancy_cache_ttl now results pm.vacancy_index
  some (record pm { vacancy_index = c })

unfoldable pub store_results :
    String × Option Error → ℕ → List SearchVacanciesResult → ParsersManager → Option ParsersManager
unfolding build_reverse_index
store_results (hash, some e) now results pm = some pm
store_results (hash, none) now results pm = do
  c ← add_item_with_ttl hash (Any.results (some results)) pm.search_cache_ttl now pm.search_cache
  build_reverse_index hash results now (record pm { search_cache = c })

unfoldable pub cache_search_results :
    GenHash → ℕ → SearchParams → List SearchVacanciesResult → ParsersManager → Option ParsersManager
unfolding store_results
cache_search_results gen now params results pm = store_results (gen params) now results pm

-- The details go into the search cache, under the bare ID, with the TTL of the index.
unfoldable pub cache_details_result :
    String → SearchVacancyDetailesResult → ℕ → ParsersManager → Option ParsersManager
cache_details_result vacancy_id d now pm = do
  c ← add_item_with_ttl vacancy_id (Any.details d) pm.vacancy_cache_ttl now pm.search_cache
  some (record pm { search_cache = c })
