-- ===== src/Start/Laws.antt =====
-- What the program has after its start.
use job_parser.Base.{
  ℕ, String, none, ◌<◌, ◌≡◌, refl, some, List, [], ◌∷◌, inl, inr, map, arith, true,
}
use job_parser.Base.Error.{Error, wrap}
use job_parser.Cache.Laws.{new-IsValid}
use job_parser.Config.{
  Config, System, load_config, CachesConfig, ParserInstanceConfig, ParserManagerConfig,
  HealthCheckConfig,
}
use job_parser.Factory.{create}
use job_parser.Manager.State.{
  Parser, get_all_parsers_names, get_healthy_parsers, select_parsers_for_search,
}
use job_parser.Manager.Caching.Laws.{IsReady}
use job_parser.Manager.Pool.{new_pool, new_pm_load}
use job_parser.Status
use job_parser.Models.{Any}
use job_parser.Status.{Stats, new_statuses, init_stats}
use job_parser.Base.Dict.{insert, lookup}
use job_parser.Breaker.{admit, new_circut_breaker}
use job_parser.Cache.History.{get_item-new}
use job_parser.Cache.{get_item, new_shards, new_inmemory_sharded_cache}
use job_parser.Limiter.{unused_limiter, new_channel_rate_limiter}
use job_parser.Sites.Settings.{BaseConfig, create_http_client}
use job_parser.Status.Checker.{Checker, new_checker, new_parser_status_manager}
use job_parser.Sites.{BaseParser, new_base_parser}
use job_parser.Sites.Make.{base_config}
use job_parser.Start.{App, Answers, as_parser, registered, init_parts, init_app}

-- A configuration without a nil pointer, with a shard at least, and with positive intervals for the
-- tickers.
pub record IsComplete (config : Config) : Type 0 where
  pub caches : CachesConfig
  pub caches_eq : config.cache ≡ some caches
  pub some_shard : 0 < caches.num_of_shards
  pub search_ticks : 0 < caches.search_cache_config.search_cache_clean_up
  pub index_ticks : 0 < caches.vacancy_cache_config.vacancy_cache_clean_up
  pub hh : ParserInstanceConfig
  pub super_job : ParserInstanceConfig
  pub hh_ticks : 0 < hh.rate_limit
  pub super_job_ticks : 0 < super_job.rate_limit
  pub parsers_eq : config.parsers ≡ some (record { hh = some hh; super_job = some super_job })
  pub manager : ParserManagerConfig
  pub manager_eq : config.manager ≡ some manager
  pub health : HealthCheckConfig
  pub checks : 0 < health.health_check_interval
  pub health_eq : config.health_chech ≡ some health

-- The state after the start.
pub record IsUp (cores : ℕ) (app : App) : Type 0 where
  pub ready : IsReady app.manager
  pub same_statuses : app.checker.stats ≡ app.manager.parsers_status_manager
  pub before_checks : (app.checker.pending ≡ none) × (app.checker.running ≡ true)
  pub checks : 0 < app.checker.interval
  pub pool_eq : app.pool ≡ new_pool (new_pm_load cores)
  pub names : get_all_parsers_names app.manager ≡ "HH.ru" ∷ "SuperJob.ru" ∷ []
  pub nobody_healthy : (now : ℕ) → get_healthy_parsers now app.manager ≡ []
  pub nothing_cached :
      (key : String) (now : ℕ) → get_item key now app.manager.search_cache ≡ some none
  pub let_in : (now : ℕ) → (admit now app.manager.circuit_breaker).1 ≡ none
  pub selected :
      (now : ℕ) → select_parsers_for_search now app.manager ≡ "HH.ru" ∷ "SuperJob.ru" ∷ []

-- What NewBaseParser makes for a positive rate.
abbrev pub made : BaseConfig → BaseParser
made config = record {
  name = config.name;
  base_url = config.base_url;
  health_end_point = config.health_end_point;
  api_key = config.api_key;
  http_client = create_http_client config;
  rate_limiter = unused_limiter;
  circuit_breaker = new_circut_breaker config.circuit_breaker_cfg;
  held = 0;
  max_concurrent = config.max_concurrent;
}

made_lem :
    (config : BaseConfig) → 0 < config.rate_limit → new_base_parser config ≡ some (made config)
unfolding new_base_parser new_channel_rate_limiter
made_lem config h = ground (arith, h)

cache_lem :
    (n interval : ℕ)
    → 0 < interval
    → new_inmemory_sharded_cache {V = Any} n interval ≡ some (new_shards n)
unfolding new_inmemory_sharded_cache
cache_lem n interval h = ground (arith, h)

-- The parsers, their statuses and the manager that the start makes.
abbrev pub sites : Answers → ParserInstanceConfig → ParserInstanceConfig → List Parser
sites answers hh sj =
    as_parser answers (made (base_config "HH.ru" "" hh))
    ∷ as_parser answers (made (base_config "SuperJob.ru" sj.api_key sj))
    ∷ []

abbrev pub checker_of : ℕ → ℕ → List Parser → Checker
checker_of interval now ps =
    new_parser_status_manager interval now (map (λ p. (p.name, p.health_end_point)) ps)

abbrev pub app_of : ℕ → ℕ → Answers → (config : Config) → IsComplete config → App
app_of cores now answers config c =
    let cache = new_shards c.caches.num_of_shards in
    let parsers = sites answers c.hh c.super_job in
    let checker = checker_of c.health.health_check_interval now parsers in
    record {
      config = config;
      parser_factory = registered (record { hh = some c.hh; super_job = some c.super_job });
      checker = checker;
      manager = record {
        parsers = parsers;
        search_cache_ttl = c.caches.search_cache_config.search_cache_ttl;
        vacancy_cache_ttl = c.caches.vacancy_cache_config.vacancy_cache_ttl;
        search_cache = cache;
        vacancy_index = cache;
        vacancy_details = cache;
        parsers_status_manager = checker.stats;
        circuit_breaker = new_circut_breaker c.manager.circuit_breaker_cfg;
      };
      pool = new_pool (new_pm_load cores);
    }

init_lem :
    (cores now : ℕ) (answers : Answers) (config : Config) (c : IsComplete config)
    → init_parts cores now answers config ≡ some (inr (app_of cores now answers config c))
unfolding init_parts create insert lookup base_config
init_lem cores now answers config c = rw (
  c.caches_eq,
  cache_lem c.caches.num_of_shards c.caches.search_cache_config.search_cache_clean_up
      c.search_ticks,
  cache_lem c.caches.num_of_shards c.caches.vacancy_cache_config.vacancy_cache_clean_up
      c.index_ticks,
  c.parsers_eq,
  c.health_eq,
  c.manager_eq,
  made_lem (base_config "HH.ru" "" c.hh) c.hh_ticks,
  made_lem (base_config "SuperJob.ru" c.super_job.api_key c.super_job) c.super_job_ticks,
)

init_parts-IsUp :
    (cores now : ℕ) (answers : Answers) (config : Config)
    → IsComplete config
    → (app : App) × (init_parts cores now answers config ≡ some (inr app)) × IsUp cores app
unfolding new_statuses new_parser_status_manager new_checker init_stats insert get_healthy_parsers
    select_parsers_for_search get_all_parsers_names new_base_parser base_config
    Status.get_healthy_parsers admit new_circut_breaker
init_parts-IsUp cores now answers config c = (
  app_of cores now answers config c,
  init_lem cores now answers config c,
  record {
    ready = record {
      search_valid = new-IsValid Any c.caches.num_of_shards c.some_shard;
      index_valid = new-IsValid Any c.caches.num_of_shards c.some_shard;
      details_valid = new-IsValid Any c.caches.num_of_shards c.some_shard;
    };
    same_statuses = refl;
    before_checks = (refl, refl);
    checks = c.checks;
    pool_eq = refl;
    names = refl;
    nobody_healthy = λ t. refl;
    nothing_cached = λ key t. get_item-new c.caches.num_of_shards key t c.some_shard;
    let_in = λ t. refl;
    selected = λ t. refl;
  },
)

pub init_app-IsUp :
    (sys : System) (cores now : ℕ) (answers : Answers) (config : Config)
    → load_config sys ≡ inr config
    → IsComplete config
    → (app : App) × (init_app sys cores now answers ≡ some (inr app)) × IsUp cores app
unfolding init_app
init_app-IsUp sys cores now answers config l c =
    let (app, e, up) = init_parts-IsUp cores now answers config c in (app, rw (l) e, up)

-- A configuration that does not load is an error of the start, with the loader's error inside.
pub init_app-error :
    (sys : System) (cores now : ℕ) (answers : Answers) (e : Error)
    → load_config sys ≡ inl e
    → init_app sys cores now answers ≡ some (inl (wrap "failed to load config: " e ""))
unfolding init_app
init_app-error sys cores now answers e l = rw (l)

-- The app that the start makes of a complete configuration.
pub init_app_lem :
    (sys : System) (cores now : ℕ) (answers : Answers) (config : Config) (c : IsComplete config)
    → load_config sys ≡ inr config
    → init_app sys cores now answers ≡ some (inr (app_of cores now answers config c))
unfolding init_app
init_app_lem sys cores now answers config c l = rw (l) (init_lem cores now answers config c)
