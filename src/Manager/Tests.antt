-- ===== src/Manager/Tests.antt =====
-- The manager's theorems at a manager of two parsers.
use job_parser.Base.{◌≡◌, refl, true, none, some, List, [], ◌∷◌, arith, keep, inl, map}
use job_parser.Base.Int.{pos}
use job_parser.Base.Error.{message, wrap, circuit_open}
use job_parser.Breaker.{CircuitBreaker, closed, opened, admit, settle}
use job_parser.Cache.{InmemoryShardedCache, new_shards, get_item, sum32}
use job_parser.Cache.Laws.{new-IsValid}
use job_parser.Models.{
  SearchParams, Vacancy, zero_vacancy, SearchVacanciesResult, zero_details, Any,
}
use job_parser.Status
use job_parser.Base.Dict.{lookup, insert}
use job_parser.Status.{Stats, new_statuses, get_parser_status}
use job_parser.Manager.State.{Parser, ParsersManager, select_parsers_for_search, get_alive_parsers}
use job_parser.Manager.Caching.{cache_search_results}
use job_parser.Manager.Caching.Laws.{IsReady}
use job_parser.Manager.Search.{Env, collect, answered, as_slice, is_successful, execute_search}
use job_parser.Manager.Search.Laws.{IsFresh, gathered, search_again}
use job_parser.Manager.Worker.{process_search_job, search_vacancies}
use job_parser.Manager.Worker.Laws.{fallback_lost, parsers_never_trip}
use job_parser.Manager.Details.{shown, get_vacancy_details}
use job_parser.Manager.Details.Index.{vacancy_found_again}

abbrev pub cook : Vacancy
cook = record zero_vacancy { id = "7"; job = "cook"; seeker = "HH.ru" }

abbrev pub hh : Parser
hh = record {
  name = "HH.ru";
  health_end_point = "hh";
  search_vacancies = λ params. (cook ∷ [], none);
  search_vacancies_detailes = λ id. (record zero_details { id = id }, none);
}

abbrev pub broken : Parser
broken = record {
  name = "SuperJob.ru";
  health_end_point = "sj";
  search_vacancies = λ params. ([], some (message "down"));
  search_vacancies_detailes = λ id. (zero_details, some (message "down"));
}

abbrev pub breaker : CircuitBreaker
breaker = record {
  failure_threshold = 5;
  success_threshold = 3;
  half_open_max_requests = 2;
  reset_timeout = 10;
  window_duration = 10;
  state = closed;
  failures = 0;
  successes = 0;
  last_failure_time = 0;
  half_open_attempts = 0;
  total_requests = 0;
  total_successes = 0;
  total_failures = 0;
}

abbrev caches : InmemoryShardedCache Any
caches = new_shards 5

abbrev pub manager : List Parser → CircuitBreaker → ParsersManager
manager ps cb = record {
  parsers = ps;
  search_cache_ttl = 100;
  vacancy_cache_ttl = 50;
  search_cache = caches;
  vacancy_index = caches;
  vacancy_details = caches;
  parsers_status_manager = new_statuses 0 (map (λ p. (p.name, p.health_end_point)) ps);
  circuit_breaker = cb;
}

manager-IsReady : (ps : List Parser) (cb : CircuitBreaker) → IsReady (manager ps cb)
manager-IsReady ps cb = record {
  search_valid = new-IsValid Any 5 (omega arith);
  index_valid = new-IsValid Any 5 (omega arith);
  details_valid = new-IsValid Any 5 (omega arith);
}

abbrev pub params : SearchParams
params = record { text = "cook"; area = ""; per_page = pos 20; page = pos 0 }

abbrev pub env : Env
env = record { gen_hash = λ p. ("h", none); ctx_err = none; arrive = map (λ p. (p, answered 3)) }

abbrev both : ParsersManager
both = manager (hh ∷ broken ∷ []) breaker

abbrev down : ParsersManager
down = manager (broken ∷ []) breaker

both-IsFresh : IsFresh env 1 params both
unfolding get_item new_shards sum32 select_parsers_for_search new_statuses lookup insert
    Status.get_healthy_parsers
both-IsFresh = record {
  ready = manager-IsReady (hh ∷ broken ∷ []) breaker;
  hashed = refl;
  in_time = refl;
  missed = refl;
  selected = refl;
}

down-IsFresh : IsFresh env 1 params down
unfolding get_item new_shards sum32 select_parsers_for_search new_statuses lookup insert
    Status.get_healthy_parsers
down-IsFresh = record {
  ready = manager-IsReady (broken ∷ []) breaker;
  hashed = refl;
  in_time = refl;
  missed = refl;
  selected = refl;
}

search_again_example :
    let (stats, rs) = gathered env 1 5 params both in
    (pm' : ParsersManager) × (execute_search env 1 5 params both ≡ some (pm', as_slice rs, none))
    × (execute_search env 104 105 params pm' ≡ some (pm', some (keep is_successful rs), none))
unfolding select_parsers_for_search new_statuses insert Status.get_healthy_parsers get_alive_parsers
    collect
search_again_example =
    search_again env env 1 5 104 105 params both both-IsFresh refl (omega arith) refl

abbrev tripped : CircuitBreaker
tripped = record breaker { state = opened; failures = 5; last_failure_time = 0 }

abbrev pub stored : ParsersManager
stored = record (manager (hh ∷ []) tripped) {
  search_cache = record {
    shards =
        []
        ∷ (("h", record { value = Any.results (some []); exp_time = 100 }) ∷ [])
        ∷ []
        ∷ []
        ∷ []
        ∷ [];
    num_shards = 5;
  };
}

fallback_lost_example :
    (process_search_job true env 1 5 params stored
      ≡ some (stored, some [], some (wrap "данные из кэша: " circuit_open "")))
    × (search_vacancies "j" 2 true env 1 5 params stored
        ≡ some (stored, none, some (wrap "данные из кэша: " circuit_open "")))
unfolding get_item sum32 lookup
fallback_lost_example = fallback_lost "j" 2 env 1 5 params stored [] refl (omega arith) refl refl

parsers_never_trip_example :
    (pm' : ParsersManager) × (search_vacancies "j" 2 true env 1 5 params down
      ≡ some (pm', as_slice (gathered env 1 5 params down).1, none))
    × (pm'.circuit_breaker ≡ settle 5 none (admit 1 breaker).0)
unfolding admit
parsers_never_trip_example = parsers_never_trip "j" 2 env 1 5 params down refl down-IsFresh

abbrev found : List SearchVacanciesResult
found =
    record {
      vacancies = cook ∷ [];
      parser_name = "HH.ru";
      search_hash = "h";
      error = none;
      duration = 3;
    }
    ∷ []

vacancy_found_again_example :
    (pm' : ParsersManager) × (t : Vacancy) × (cache_search_results env.gen_hash 5 params found both
      ≡ some pm')
    × (get_vacancy_details "HH.ru" "7" 55 pm' ≡ some (pm', shown t))
    × (t.id ≡ "7")
vacancy_found_again_example =
    vacancy_found_again env.gen_hash 5 55 params found both "HH.ru" "7"
      (manager-IsReady (hh ∷ broken ∷ []) breaker) refl (omega arith) (omega arith)
      (inl (refl, inl (refl, refl)))
