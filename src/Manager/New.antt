-- ===== src/Manager/New.antt =====
-- NewParserManager of parsers_manager.go: its tests, the manager and the pool of workers that it makes.
use job_parser.Base.{ℕ, Option, none, some, List, [], ◌∷◌, ◌⊎◌, inl, inr}
use job_parser.Base.Error.{Error, message}
use job_parser.Breaker.{new_circut_breaker}
use job_parser.Cache.{InmemoryShardedCache}
use job_parser.Config.{CachesConfig, ParserManagerConfig}
use job_parser.Models.{Any}
use job_parser.Status.{Stats}
use job_parser.Manager.State.{Parser, ParsersManager}
use job_parser.Manager.Pool.{Pool, new_pool, new_pm_load}

abbrev pub Made : Type 0
Made = Error ⊎ ParsersManager × Pool

-- A nil `config.Manager` panics where its breaker's configuration is read.
built :
    CachesConfig
    → Option ParserManagerConfig
    → ℕ
    → InmemoryShardedCache Any
    → InmemoryShardedCache Any
    → InmemoryShardedCache Any
    → Stats
    → List Parser
    → Option Made
unfolding new_circut_breaker new_pool new_pm_load
built caches none cores search index details stats parsers = none
built caches (some manager) cores search index details stats parsers = some (
    inr (
      record {
        parsers = parsers;
        search_cache_ttl = caches.search_cache_config.search_cache_ttl;
        vacancy_cache_ttl = caches.vacancy_cache_config.vacancy_cache_ttl;
        search_cache = search;
        vacancy_index = index;
        vacancy_details = details;
        parsers_status_manager = stats;
        circuit_breaker = new_circut_breaker manager.circuit_breaker_cfg;
      },
      new_pool (new_pm_load cores),
    ))

no_caches : Option Made
no_caches = some (inl (message "кэши обязательны"))

-- The configuration by its two parts that the manager reads, the caches' and the manager's own; a nil
-- pointer is `none`, and a panic too.
unfoldable pub new_parser_manager :
    CachesConfig
    → Option ParserManagerConfig
    → ℕ
    → Option (InmemoryShardedCache Any)
    → Option (InmemoryShardedCache Any)
    → Option (InmemoryShardedCache Any)
    → Option Stats
    → List Parser
    → Option Made
unfolding built no_caches
new_parser_manager caches manager cores search index details none parsers =
    some (inl (message "ParsersStatusManager обязателен"))
new_parser_manager caches manager cores search index details (some stats) [] =
    some (inl (message "нужен хотя бы один парсер"))
new_parser_manager caches manager cores none index details (some stats) (p ∷ ps) = no_caches
new_parser_manager caches manager cores (some s) none details (some stats) (p ∷ ps) = no_caches
new_parser_manager caches manager cores (some s) (some i) none (some stats) (p ∷ ps) = no_caches
new_parser_manager caches manager cores (some s) (some i) (some d) (some stats) (p ∷ ps) =
    built caches manager cores s i d stats (p ∷ ps)
