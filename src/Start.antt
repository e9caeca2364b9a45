-- ===== src/Start.antt =====
-- The start of the program: initApp of parser/cmd/parser/app.go, which puts the parts together. What a
-- site answers to a search is a parameter, as the manager sees a parser through its interface.
pub mod Laws
pub mod Tests
use Prim.Native.String
use job_parser.Base.{ℕ, String, Option, none, some, List, [], ◌∷◌, map, ◌⊎◌, inl, inr}
use job_parser.Base.Panic.{◌>>=◌}
use job_parser.Base.Error.{Error, wrap}
use job_parser.Cache.{new_inmemory_sharded_cache}
use job_parser.Config.{
  System, Config, CachesConfig, ParsersConfig, ParserInstanceConfig, HealthCheckConfig, load_config,
}
use job_parser.Factory.{
  ParserFactory, new_parser_factory, register, create_enabled, parser_type_hh, parser_type_sj,
}
use job_parser.Models.{SearchParams, Vacancy, SearchVacancyDetailesResult}
use job_parser.Sites.{BaseParser}
use job_parser.Sites.Make.{new_hh_parser, new_sj_parser}
use job_parser.Status.Checker.{Checker, new_parser_status_manager}
use job_parser.Manager.State.{Parser, ParsersManager}
use job_parser.Manager.Pool.{Pool}
use job_parser.Manager.New.{Made, new_parser_manager}

-- What the searches of a parser return.
pub record Answers : Type 0 where
  pub search_vacancies : BaseParser → SearchParams → List Vacancy × Option Error
  pub search_details : BaseParser → String → SearchVacancyDetailesResult × Option Error

abbrev pub as_parser : Answers → BaseParser → Parser
as_parser answers p = record {
  name = p.name;
  health_end_point = p.health_end_point;
  search_vacancies = answers.search_vacancies p;
  search_vacancies_detailes = answers.search_details p;
}

-- A factory whose constructors may panic.
abbrev pub Factory : Type 0
Factory = ParserFactory (Option ParserInstanceConfig) (Option BaseParser)

pub record App : Type 0 where
  pub config : Config
  pub parser_factory : Factory
  pub checker : Checker
  pub manager : ParsersManager
  pub pool : Pool

unfoldable pub registered : ParsersConfig → Factory
unfolding register new_hh_parser new_sj_parser
registered parsers =
    register "superjob" parsers.super_job new_sj_parser
      (register "hh" parsers.hh new_hh_parser new_parser_factory)

-- A parser that could not be made is a panic, in its constructor or by `panic(err)`.
all_made : List (Option BaseParser) → Option (List BaseParser)
all_made [] = some []
all_made (p ∷ ps) = do q ← p; qs ← all_made ps; some (q ∷ qs)

created : Error ⊎ List (Option BaseParser) → Option (List BaseParser)
unfolding all_made
created (inl e) = none
created (inr ps) = all_made ps

started : Config → Factory → Checker → Made → Error ⊎ App
started config factory checker (inl e) = inl (wrap "failed to create parser manager: " e "")
started config factory checker (inr (manager, pool)) = inr (record {
  config = config;
  parser_factory = factory;
  checker = checker;
  manager = manager;
  pool = pool;
})

-- initApp once the configuration is loaded; a nil pointer in it panics where it is read. The health
-- checker's goroutine starts here; its rounds come later (Status/Checker, Session).
unfoldable pub init_parts : ℕ → ℕ → Answers → Config → Option (Error ⊎ App)
unfolding registered created started create_enabled new_parser_status_manager
    new_inmemory_sharded_cache new_parser_manager
init_parts cores now answers config = do
  caches ← config.cache
  let shards = caches.num_of_shards
  let index_clean_up = caches.vacancy_cache_config.vacancy_cache_clean_up
  search_cache ← new_inmemory_sharded_cache shards caches.search_cache_config.search_cache_clean_up
  vacancy_index ← new_inmemory_sharded_cache shards index_clean_up
  vacancy_details ← new_inmemory_sharded_cache shards index_clean_up
  parsers_config ← config.parsers
  let factory = registered parsers_config
  made ← created (create_enabled ("hh" ∷ "superjob" ∷ []) factory)
  health ← config.health_chech
  let parsers = map (as_parser answers) made
  let checker =
      new_parser_status_manager health.health_check_interval now
        (map (λ p. (p.name, p.health_end_point)) parsers)
  result ←
      new_parser_manager caches config.manager cores (some search_cache) (some vacancy_index)
        (some vacancy_details) (some checker.stats) parsers
  some (started config factory checker result)

after_load : ℕ → ℕ → Answers → Error ⊎ Config → Option (Error ⊎ App)
unfolding init_parts
after_load cores now answers (inl e) = some (inl (wrap "failed to load config: " e ""))
after_load cores now answers (inr config) = init_parts cores now answers config

unfoldable pub init_app : System → ℕ → ℕ → Answers → Option (Error ⊎ App)
unfolding after_load load_config
init_app sys cores now answers = after_load cores now answers (load_config sys)
