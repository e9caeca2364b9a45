-- ===== src/Manager/Engine/Tests.antt =====
-- A worker and a search that the cache answers.
use job_parser.Base.{◌-◌, ◌≡◌, refl, true, false, Option, none, some, [], ◌∷◌, map}
use job_parser.Base.Error.{Error}
use job_parser.Breaker.{admit, settle, execute}
use job_parser.Cache.{get_item, sum32}
use job_parser.Base.Dict.{lookup}
use job_parser.Models.{Any}
use job_parser.Manager.State.{ParsersManager}
use job_parser.Manager.Caching.{Results, try_get_from_cache}
use job_parser.Manager.Search.{execute_search}
use job_parser.Manager.Worker.{process_search_job, handle_search_result, search_vacancies}
use job_parser.Manager.Pool.{Pool, Ticket, busy, waiting}
use job_parser.Manager.Engine.{Engine, search, other, run}
use job_parser.Manager.Engine.Laws.{Answered, rest, workers_answer}
use job_parser.Manager.Tests.{breaker, params, env, stored}

abbrev calm : ParsersManager
calm = record stored { circuit_breaker = breaker }

abbrev after : ParsersManager
after = record calm { circuit_breaker = settle 5 none (admit 1 breaker).0 }

process_lem : process_search_job true env 1 5 params calm ≡ some (after, some [], none)
unfolding process_search_job execute execute_search try_get_from_cache handle_search_result get_item
    sum32 lookup admit settle
process_lem = refl

abbrev ticket : Ticket
ticket = record {
  base = record { id = "j"; result_chan = none; created_at = 1; notified = false; sending = [] };
  empty = Any.results none;
  caller = waiting;
}

abbrev engine : Engine
engine = record {
  manager = calm;
  pool = record {
    tickets = ticket ∷ [];
    queue = record { items = []; capacity = 9; shut = false; closed = false };
    workers = busy 0 ∷ [];
    held = 1;
    size = 2;
    stop_workers = false;
    accepted = 0 ∷ [];
    taken = 0 ∷ [];
  };
  params_of = λ j. params;
}

workers_answer_example :
    (m : Pool) × (run (search 0 env 1 5 ∷ map other (rest 0 0 none)) engine
      ≡ some (record engine { manager = after; pool = m }))
    × ((answer : Results × Option Error) × Answered 0 0 m answer
        × (search_vacancies "j" 2 true env 1 5 params calm ≡ some (after, answer.0, answer.1)))
    × (m.held ≡ engine.pool.held - 1)
workers_answer_example =
    workers_answer "j" 2 engine 0 0 ticket env 1 5 after (some []) none refl refl (refl, refl, refl)
      refl process_lem
