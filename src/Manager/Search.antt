-- ===== src/Manager/Search.antt =====
-- The search of a list of vacancies: parsers_conc_search.go, searchWithParsers of
-- parsers_selector.go, executeSearch and filterSuccessfulResults of search_vacansies.go.
pub mod Laws
use Prim.Native.String
use job_parser.Base.{
  ℕ, String, Bool, true, false, not, ◌&&◌, Option, none, some, List, [], ◌∷◌, keep, is_some,
  if◌then◌else◌, map,
}
use job_parser.Base.Panic.{◌>>=◌}
use job_parser.Base.Error.{Error, message, error_text}
use job_parser.Models.{SearchParams, Vacancy, SearchVacanciesResult}
use job_parser.Status.{Stats, update_status}
use job_parser.Manager.State.{Parser, ParsersManager, get_alive_parsers, select_parsers_for_search}
use job_parser.Manager.Caching.{GenHash, Results, try_get_from_cache, cache_search_results}

-- How the `select` of a parser's goroutine ends: the result came, after so long; or the context was
-- done first, with the inner goroutine's UpdateStatus made by then, or not.
pub data Fate : Type 0 where
  answered : ℕ → Fate
  timed_out : Bool → Fate

-- What the environment decides of one search: the hash, whether the caller's context is done, and in
-- which order and how the goroutines of the parsers end.
pub record Env : Type 0 where
  pub gen_hash : GenHash
  pub ctx_err : Option Error
  pub arrive : List Parser → List (Parser × Fate)

abbrev reported : Parser → Option Error → ℕ → Stats → Stats
reported p err now stats = update_status p.name (not (is_some err)) err now stats

unfoldable pub search_one :
    SearchParams → String → ℕ → Parser × Fate → Stats → Stats × SearchVacanciesResult
search_one params hash now (p, answered duration) stats =
    let (vacancies, err) = p.search_vacancies params in
    (
      reported p err now stats,
      record {
        vacancies = vacancies;
        parser_name = p.name;
        search_hash = hash;
        error = err;
        duration = duration;
      },
    )
search_one params hash now (p, timed_out updated) stats = (
  if updated then reported p (p.search_vacancies params).1 now stats else stats,
  record {
    vacancies = [];
    parser_name = p.name;
    search_hash = "";
    error = some (message "timeout exceeded");
    duration = 0;
  },
)

-- The loop over the channel of results.
unfoldable pub collect :
    SearchParams → String → ℕ → List (Parser × Fate) → Stats → Stats × List SearchVacanciesResult
unfolding search_one
collect params hash now [] stats = (stats, [])
collect params hash now (a ∷ as_) stats =
    let (stats', r) = search_one params hash now a stats in
    let (stats'', rs) = collect params hash now as_ stats' in (stats'', r ∷ rs)

-- A slice that only `append` fills is nil while it is empty.
unfoldable pub as_slice {ℓ} : {A : Type ℓ} → List A → Option (List A)
as_slice [] = none
as_slice (a ∷ as_) = some (a ∷ as_)

unfoldable pub conc_search :
    String × Option Error
    → Env
    → ℕ
    → SearchParams
    → List String
    → ParsersManager
    → ParsersManager × Results × Option Error
unfolding as_slice
conc_search (hash, some e) env now params names pm = (
  pm,
  none,
  some (
      message
        (String.◌++◌ "❌ Ошибка при генерации поискового хэша: " (String.◌++◌ (error_text e) "\n"))),
)
conc_search (hash, none) env now params names pm =
    let (stats, rs) =
      collect params hash now (env.arrive (get_alive_parsers names pm)) pm.parsers_status_manager in
    (record pm { parsers_status_manager = stats }, as_slice rs, none)

unfoldable pub concurrent_search_with_timeout :
    Env → ℕ → SearchParams → List String → ParsersManager → ParsersManager × Results × Option Error
unfolding conc_search
concurrent_search_with_timeout env now params names pm =
    conc_search (env.gen_hash params) env now params names pm

unfoldable pub search_with_parsers :
    Env → ℕ → SearchParams → List String → ParsersManager → ParsersManager × Results × Option Error
unfolding concurrent_search_with_timeout
search_with_parsers env now params names pm = elim env.ctx_err [
  | some e ↦ (
    pm,
    none,
    some (
        message
          (String.◌++◌ "❌ Таймайут конкурентного поиска: " (String.◌++◌ (error_text e) "\n"))),
  )
  | none ↦ concurrent_search_with_timeout env now params names pm
]

abbrev pub is_empty {ℓ} : {A : Type ℓ} → List A → Bool
is_empty [] = true
is_empty (a ∷ as_) = false

abbrev pub is_successful : SearchVacanciesResult → Bool
is_successful r = not (is_some r.error) && not (is_empty r.vacancies)

abbrev pub or_nil {ℓ} : {A : Type ℓ} → Option (List A) → List A
or_nil none = []
or_nil (some xs) = xs

unfoldable pub filter_successful_results : Results → List SearchVacanciesResult
filter_successful_results rs = keep is_successful (or_nil rs)

-- What executeSearch does with what searchWithParsers returned.
unfoldable pub finish_search :
    Env
    → ℕ
    → SearchParams
    → ParsersManager × Results × Option Error
    → Option (ParsersManager × Results × Option Error)
unfolding filter_successful_results
finish_search env now params (pm, rs, some e) =
    some (pm, none, some (message "❌ Конкурентный поиск по парсерам - не удался!"))
finish_search env now params (pm, rs, none) =
    let good = filter_successful_results rs in
    if is_empty good
    then some (pm, rs, none)
    else do pm' ← cache_search_results env.gen_hash now params good pm; some (pm', rs, none)

unfoldable pub fresh_search :
    Env
    → ℕ
    → SearchParams
    → List String
    → ParsersManager
    → Option (ParsersManager × Results × Option Error)
unfolding finish_search
fresh_search env finish params [] pm =
    some (pm, none, some (message "❌ Нет доступных парсеров для поиска"))
fresh_search env finish params (n ∷ ns) pm =
    finish_search env finish params (search_with_parsers env finish params (n ∷ ns) pm)

unfoldable pub search_after :
    Option Results
    → Env
    → ℕ
    → ℕ
    → SearchParams
    → ParsersManager
    → Option (ParsersManager × Results × Option Error)
unfolding fresh_search
search_after (some rs) env start finish params pm = some (pm, rs, none)
search_after none env start finish params pm =
    fresh_search env finish params (select_parsers_for_search start pm) pm

-- executeSearch: the cache and the statuses are read at the time `start`; the parsers' statuses and
-- the caches are written at the time `finish`. `none` is a panic.
unfoldable pub execute_search :
    Env → ℕ → ℕ → SearchParams → ParsersManager → Option (ParsersManager × Results × Option Error)
unfolding search_after
execute_search env start finish params pm = do
  cached ← try_get_from_cache env.gen_hash start params pm
  search_after cached env start finish params pm
