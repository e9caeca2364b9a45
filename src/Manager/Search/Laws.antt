-- ===== src/Manager/Search/Laws.antt =====
-- What a search returns, caches and reports.
use job_parser.Base.{
  ℕ, ◌+◌, ◌≤◌, String, ◌≡◌, refl, ◌∙◌, true, false, none, some, List, [], ◌∷◌, arith, keep, eq_refl,
  Bool-cases, inl, inr,
}
use job_parser.Cache.{get_item}
use job_parser.Cache.Reads.{get_item-add}
use job_parser.Models.{SearchParams, SearchVacanciesResult, Any}
use job_parser.Manager.State.{ParsersManager, select_parsers_for_search, get_alive_parsers}
use job_parser.Manager.Caching.{GenHash, try_get_from_cache, cache_search_results}
use job_parser.Manager.Caching.Laws.{IsReady, cache_search_results_lem}
use job_parser.Manager.Search.{
  Env, collect, as_slice, or_nil, is_empty, is_successful, search_with_parsers, execute_search,
  finish_search, fresh_search,
}
use job_parser.Status.{Stats}

or_nil-as_slice : (rs : List SearchVacanciesResult) → or_nil (as_slice rs) ≡ rs
unfolding as_slice
or_nil-as_slice [] = refl
or_nil-as_slice (r ∷ rs) = refl

miss :
    (gen : GenHash) (now : ℕ) (params : SearchParams) (pm : ParsersManager) (hash : String)
    → gen params ≡ (hash, none)
    → get_item hash now pm.search_cache ≡ some none
    → try_get_from_cache gen now params pm ≡ some none
unfolding try_get_from_cache
miss gen now params pm hash g h = ground (arith, g, h)

pub hit :
    (gen : GenHash) (now : ℕ) (params : SearchParams) (pm : ParsersManager) (hash : String)
    (rs : List SearchVacanciesResult)
    → gen params ≡ (hash, none)
    → get_item hash now pm.search_cache ≡ some (some (Any.results (some rs)))
    → try_get_from_cache gen now params pm ≡ some (some (some rs))
unfolding try_get_from_cache
hit gen now params pm hash rs g h = ground (arith, g, h)

-- The statuses and results that the parsers' goroutines leave.
abbrev pub gathered :
    Env → ℕ → ℕ → SearchParams → ParsersManager → Stats × List SearchVacanciesResult
gathered env start finish params pm =
    collect params (env.gen_hash params).0 finish
      (env.arrive (get_alive_parsers (select_parsers_for_search start pm) pm))
      pm.parsers_status_manager

-- The circumstances of a search that is not answered from the cache and has parsers to ask.
pub record IsFresh (env : Env) (start : ℕ) (params : SearchParams) (pm : ParsersManager)
    : Type 0 where
  pub ready : IsReady pm
  pub hashed : (env.gen_hash params).1 ≡ none
  pub in_time : env.ctx_err ≡ none
  pub missed : get_item (env.gen_hash params).0 start pm.search_cache ≡ some none
  pub selected : is_empty (select_parsers_for_search start pm) ≡ false

searching :
    (env : Env) (finish : ℕ) (params : SearchParams) (names : List String) (pm : ParsersManager)
    → (env.gen_hash params).1 ≡ none
    → env.ctx_err ≡ none
    → let (stats, rs) =
        collect params
          (env.gen_hash params).0
          finish
          (env.arrive (get_alive_parsers names pm))
          pm.parsers_status_manager in
      search_with_parsers env finish params names pm
      ≡ (record pm { parsers_status_manager = stats }, as_slice rs, none)
unfolding search_with_parsers
searching env finish params names pm g c = ground arith

fresh_search-eq :
    (env : Env) (finish : ℕ) (params : SearchParams) (names : List String) (pm : ParsersManager)
    → is_empty names ≡ false
    → fresh_search env finish params names pm
      ≡ finish_search env finish params (search_with_parsers env finish params names pm)
unfolding fresh_search
fresh_search-eq env finish params [] pm h = cc h
fresh_search-eq env finish params (n ∷ ns) pm h = refl

-- The manager once the statuses are updated.
abbrev pub with_stats : Stats → ParsersManager → ParsersManager
with_stats stats pm = record pm { parsers_status_manager = stats }

pub with_stats-IsReady :
    (stats : Stats) (pm : ParsersManager) → IsReady pm → IsReady (with_stats stats pm)
with_stats-IsReady stats pm v = record {
  search_valid = v.search_valid;
  index_valid = v.index_valid;
  details_valid = v.details_valid;
}

pub asked :
    (env : Env) (start finish : ℕ) (params : SearchParams) (pm : ParsersManager)
    → IsFresh env start params pm
    → let (stats, rs) = gathered env start finish params pm in
      execute_search env start finish params pm
      ≡ finish_search env finish params (with_stats stats pm, as_slice rs, none)
unfolding execute_search
asked env start finish params pm f =
    let missed =
      miss env.gen_hash start params pm (env.gen_hash params).0 (ground (arith, f.hashed))
        f.missed in
    let names = select_parsers_for_search start pm in
    rw (missed, fresh_search-eq env finish params names pm f.selected)
      (rw (searching env finish params names pm f.hashed f.in_time))

nothing_stored :
    (env : Env) (finish : ℕ) (params : SearchParams) (rs : List SearchVacanciesResult)
    (pm : ParsersManager)
    → is_empty (keep is_successful rs) ≡ true
    → finish_search env finish params (pm, as_slice rs, none) ≡ some (pm, as_slice rs, none)
unfolding finish_search
nothing_stored env finish params rs pm h = rw (or_nil-as_slice rs, h)

pub stored :
    (env : Env) (finish : ℕ) (params : SearchParams) (rs : List SearchVacanciesResult)
    (pm pm' : ParsersManager)
    → is_empty (keep is_successful rs) ≡ false
    → cache_search_results env.gen_hash finish params (keep is_successful rs) pm ≡ some pm'
    → finish_search env finish params (pm, as_slice rs, none) ≡ some (pm', as_slice rs, none)
unfolding finish_search
stored env finish params rs pm pm' h e = rw (or_nil-as_slice rs, h, e)

-- A search that no parser answers successfully stores nothing: it returns all the results, and only
-- the parsers' statuses change. The search is fresh: the caches are ready, the parameters have a
-- hash under which the cache holds nothing, the context is not done, and there are parsers to ask.
pub failures_not_cached :
    (env : Env) (start finish : ℕ) (params : SearchParams) (pm : ParsersManager)
    → IsFresh env start params pm
    → is_empty (keep is_successful (gathered env start finish params pm).1) ≡ true
    → let (stats, rs) = gathered env start finish params pm in
      execute_search env start finish params pm ≡ some (with_stats stats pm, as_slice rs, none)
failures_not_cached env start finish params pm f h =
    let (stats, rs) = gathered env start finish params pm in
    asked env start finish params pm f ∙ nothing_stored env finish params rs (with_stats stats pm) h

cached :
    (env : Env) (start finish : ℕ) (params : SearchParams) (pm : ParsersManager) (hash : String)
    (rs : List SearchVacanciesResult)
    → env.gen_hash params ≡ (hash, none)
    → get_item hash start pm.search_cache ≡ some (some (Any.results (some rs)))
    → execute_search env start finish params pm ≡ some (pm, some rs, none)
unfolding execute_search
cached env start finish params pm hash rs g h =
    ground (arith, hit env.gen_hash start params pm hash rs g h)

-- A search that at least one parser answers successfully returns every parser's result, and a second
-- search for the same parameters, started no later than the TTL after the first has ended, returns
-- exactly the successful results, asks nobody and changes nothing, whatever the environment of the
-- second search but for the hash. The first search is fresh: the caches are ready, the parameters have
-- a hash under which the cache holds nothing, the context is not done, and there are parsers to ask.
pub search_again :
    (env env' : Env) (start finish start' finish' : ℕ) (params : SearchParams) (pm : ParsersManager)
    → IsFresh env start params pm
    → env'.gen_hash ≡ env.gen_hash
    → start' ≤ finish + pm.search_cache_ttl
    → is_empty (keep is_successful (gathered env start finish params pm).1) ≡ false
    → let (stats, rs) = gathered env start finish params pm in
      (pm' : ParsersManager) × (execute_search env start finish params pm
        ≡ some (pm', as_slice rs, none))
      × (execute_search env' start' finish' params pm'
          ≡ some (pm', some (keep is_successful rs), none))
search_again env env' start finish start' finish' params pm f same late h =
    let (stats, rs) = gathered env start finish params pm in
    let hash = (env.gen_hash params).0 in
    let hashed : env.gen_hash params ≡ (hash, none) = ground (arith, f.hashed) in
    let (c, d, added, kept, ready) =
      cache_search_results_lem env.gen_hash finish params (keep is_successful rs)
        (with_stats stats pm) hash (with_stats-IsReady stats pm f.ready) hashed in
    let pm' = record pm { parsers_status_manager = stats; search_cache = c; vacancy_index = d } in
    (
      pm',
      asked env start finish params pm f
          ∙ stored env finish params rs (with_stats stats pm) pm' h kept,
      cached env' start' finish' params pm' hash (keep is_successful rs) (ground (arith, hashed)) (
          ground (
            arith,
            eq_refl hash,
            get_item-add pm.search_cache c hash hash (Any.results (some (keep is_successful rs)))
                pm.search_cache_ttl finish start' f.ready.search_valid added,
          )),
    )

-- Whatever the parsers answer, a search that has parsers to ask returns all their results and no
-- error, without a panic.
pub fresh_search_succeeds :
    (env : Env) (start finish : ℕ) (params : SearchParams) (pm : ParsersManager)
    → IsFresh env start params pm
    → (pm' : ParsersManager) × (execute_search env start finish params pm
        ≡ some (pm', as_slice (gathered env start finish params pm).1, none))
fresh_search_succeeds env start finish params pm f =
    elim (Bool-cases (is_empty (keep is_successful (gathered env start finish params pm).1))) [
      | inl h ↦ (_, failures_not_cached env start finish params pm f h)
      | inr h ↦
          let again =
            search_again env env start finish finish finish params pm f refl (omega arith) h in
          (again.0, again.1)
    ]
