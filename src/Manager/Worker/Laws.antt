-- ===== src/Manager/Worker/Laws.antt =====
-- What the caller of a search gets, and what the global breaker counts.
use job_parser.Base.{
  ℕ, ◌-◌, ◌<◌, String, ◌≡◌, refl, ◌∙◌, ◌⊎◌, inl, inr, true, Option, none, some, List, arith,
  is_some, Bool-cases, Option-cases,
}
use job_parser.Base.Panic.{◌>>=◌}
use job_parser.Base.Error.{Error, wrap, circuit_open}
use job_parser.Breaker.{CircuitBreaker, opened, admit, settle, execute}
use job_parser.Cache.{get_item}
use job_parser.Jobs.{new_base_job, as_results, wait_for_job_search_vacansies_result}
use job_parser.Jobs.Delivery.{delivery}
use job_parser.Models.{SearchParams, SearchVacanciesResult, Any}
use job_parser.Manager.State.{ParsersManager}
use job_parser.Manager.Caching.{GenHash, Results, try_get_from_cache}
use job_parser.Manager.Search.{Env, execute_search, as_slice, or_nil, is_empty}
use job_parser.Manager.Search.Laws.{IsFresh, gathered, fresh_search_succeeds, hit}
use job_parser.Manager.Worker.{
  fallback_with, try_fallback_strategies, handle_search_result, process_search_job, answer,
  search_vacancies,
}

-- What a caller is told: the results of a job without an error, and otherwise nothing but the error.
abbrev pub told : Results → Option Error → Results × Option Error
told rs none = (rs, none)
told rs (some e) = (none, some e)

pub answer_lem :
    (id : String) (now n : ℕ) (rs : Results) (err : Option Error)
    → answer (new_base_job id now) n rs err ≡ told rs err
unfolding answer new_base_job wait_for_job_search_vacansies_result
answer_lem id now n rs none = ground (
  arith,
  delivery as_results none n (Any.results rs) none (new_base_job id now)
      (record { not_notified = refl; empty_chan = refl; idle = refl }),
)
answer_lem id now n rs (some e) = ground (
  arith,
  delivery as_results none n (Any.results rs) (some e) (new_base_job id now)
      (record { not_notified = refl; empty_chan = refl; idle = refl }),
)

-- The results that a read of the cache found, if any.
abbrev pub in_cache : Option Results → Results
in_cache none = none
in_cache (some rs) = rs

fallback_with-cases :
    (cached : Option Results) (e : Error)
    → ((fallback_with cached e).0 ≡ in_cache cached) × (is_some (fallback_with cached e).1 ≡ true)
unfolding fallback_with
fallback_with-cases none e = (refl, refl)
fallback_with-cases (some rs) e = (refl, refl)

fallback_cases :
    (gen : GenHash) (now : ℕ) (params : SearchParams) (e : Error) (pm : ParsersManager)
    (out : Results × Option Error)
    → try_fallback_strategies gen now params e pm ≡ some out
    → (is_some out.1 ≡ true)
      × ((cached : Option Results) × (try_get_from_cache gen now params pm ≡ some cached)
          × (out.0 ≡ in_cache cached))
unfolding try_fallback_strategies
fallback_cases gen now params e pm out h =
    elim (Option-cases (try_get_from_cache gen now params pm)) [
      | inl n ↦ ground (arith, n, h)
      | inr (cached, y) ↦
          let same : fallback_with cached e ≡ out = ground (arith, y, h) in
          ground (arith, y, same, fallback_with-cases cached e)
    ]

-- handleSearchResult neither hides an error nor makes one up; and when it returns at all, the results
-- are those of the search, or, when the search failed and had none, those that the cache holds for the
-- parameters.
pub handle_keeps_error :
    (gen : GenHash) (now : ℕ) (params : SearchParams) (rs : Results) (err : Option Error)
    (pm : ParsersManager) (out : Results × Option Error)
    → handle_search_result gen now params rs err pm ≡ some out
    → (is_some out.1 ≡ is_some err)
      × ((out.0 ≡ rs)
          ⊎ ((is_some err ≡ true)
              × (is_empty (or_nil rs) ≡ true)
              × ((cached : Option Results) × (try_get_from_cache gen now params pm ≡ some cached)
                  × (out.0 ≡ in_cache cached))))
unfolding handle_search_result
handle_keeps_error gen now params rs none pm out h = ground arith
handle_keeps_error gen now params rs (some e) pm out h = elim (Bool-cases (is_empty (or_nil rs))) [
  | inl y ↦
      let (k, c) = fallback_cases gen now params e pm out (ground (arith, y, h)) in
      (k, inr (refl, y, c))
  | inr n ↦ ground (arith, n, h)
]

refused_job :
    (env : Env) (start finish : ℕ) (params : SearchParams) (pm : ParsersManager) {e : Error}
    → admit start pm.circuit_breaker ≡ (pm.circuit_breaker, some e)
    → process_search_job true env start finish params pm ≡ (
        handle_search_result env.gen_hash finish params none (some e) pm >>= λ out.
        some (pm, out.0, out.1))
unfolding process_search_job execute
refused_job env start finish params pm h = ground (arith, h)

fallback :
    (gen : GenHash) (now : ℕ) (params : SearchParams) (e : Error) (pm : ParsersManager)
    (rs : List SearchVacanciesResult)
    → try_get_from_cache gen now params pm ≡ some (some (some rs))
    → handle_search_result gen now params none (some e) pm
      ≡ some (some rs, some (wrap "данные из кэша: " e ""))
unfolding handle_search_result
fallback gen now params e pm rs h = ground (arith, h)

admit_early :
    (now : ℕ) (cb : CircuitBreaker)
    → cb.state ≡ opened
    → now - cb.last_failure_time < cb.reset_timeout
    → admit now cb ≡ (cb, some circuit_open)
unfolding admit
admit_early now cb o h = ground arith

pub delivered :
    (id : String) (n : ℕ) (env : Env) (start finish : ℕ) (params : SearchParams)
    (pm : ParsersManager) {pm' : ParsersManager} {rs : Results} {err : Option Error}
    → process_search_job true env start finish params pm ≡ some (pm', rs, err)
    → search_vacancies id n true env start finish params pm
      ≡ some (pm', (told rs err).0, (told rs err).1)
unfolding search_vacancies
delivered id n env start finish params pm {pm'} {rs} {err} h = rw (h, answer_lem id start n rs err)

-- The fallback of an open global breaker is lost on the way to the caller: the worker does find the
-- cached results for the parameters, but as they come with an error, searchVacancies returns no
-- results and that error alone. The breaker's timeout has not passed, the parameters have a hash, and
-- the cache holds the results.
pub fallback_lost :
    (id : String) (n : ℕ) (env : Env) (start finish : ℕ) (params : SearchParams)
    (pm : ParsersManager) (rs : List SearchVacanciesResult)
    → pm.circuit_breaker.state ≡ opened
    → start - pm.circuit_breaker.last_failure_time < pm.circuit_breaker.reset_timeout
    → (env.gen_hash params).1 ≡ none
    → get_item (env.gen_hash params).0 finish pm.search_cache ≡ some (some (Any.results (some rs)))
    → (process_search_job true env start finish params pm
        ≡ some (pm, some rs, some (wrap "данные из кэша: " circuit_open "")))
      × (search_vacancies id n true env start finish params pm
          ≡ some (pm, none, some (wrap "данные из кэша: " circuit_open "")))
fallback_lost id n env start finish params pm rs o early g c =
    let found =
      hit env.gen_hash finish params pm (env.gen_hash params).0 rs (ground (arith, g)) c in
    let done : process_search_job true env start finish params pm
        ≡ some (pm, some rs, some (wrap "данные из кэша: " circuit_open "")) =
      refused_job env start finish params pm (admit_early start pm.circuit_breaker o early)
      ∙ rw (fallback env.gen_hash finish params circuit_open pm rs found) in
    (done, delivered id n env start finish params pm done)

pub admitted_job :
    (env : Env) (start finish : ℕ) (params : SearchParams) (pm pm' : ParsersManager) (rs : Results)
    → (admit start pm.circuit_breaker).1 ≡ none
    → execute_search env start finish params pm ≡ some (pm', rs, none)
    → process_search_job true env start finish params pm
      ≡ some (
        record pm' { circuit_breaker = settle finish none (admit start pm.circuit_breaker).0 },
        rs,
        none,
      )
unfolding process_search_job execute handle_search_result
admitted_job env start finish params pm pm' rs a h = ground (arith, h)

-- The global breaker does not see the parsers fail: a search that it lets in counts as a success for
-- it, whatever the parsers answer, and the caller gets all their results without an error. The search
-- is fresh: the caches are ready, the parameters have a hash under which the cache holds nothing, the
-- context is not done, and there are parsers to ask. A worker takes the job and a slot in time.
pub parsers_never_trip :
    (id : String) (n : ℕ) (env : Env) (start finish : ℕ) (params : SearchParams)
    (pm : ParsersManager)
    → (admit start pm.circuit_breaker).1 ≡ none
    → IsFresh env start params pm
    → (pm' : ParsersManager) × (search_vacancies id n true env start finish params pm
        ≡ some (pm', as_slice (gathered env start finish params pm).1, none))
      × (pm'.circuit_breaker ≡ settle finish none (admit start pm.circuit_breaker).0)
parsers_never_trip id n env start finish params pm a f =
    let (pm', h) = fresh_search_succeeds env start finish params pm f in
    (
      record pm' { circuit_breaker = settle finish none (admit start pm.circuit_breaker).0 },
      delivered id n env start finish params pm (admitted_job env start finish params pm pm' _ a h),
      refl,
    )
