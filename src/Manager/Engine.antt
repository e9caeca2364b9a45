-- ===== src/Manager/Engine.antt =====
-- The manager together with its workers: what a busy worker does to its search job is what
-- proccessSearchJob does to the manager (Manager/Worker), and all else is an event of the pool.
pub mod Laws
mod Tests
use job_parser.Base.{ℕ, true, Option, none, some, List, [], ◌∷◌, get_elem?, map}
use job_parser.Base.Error.{Error}
use job_parser.Models.{SearchParams, Any}
use job_parser.Manager.State.{ParsersManager}
use job_parser.Manager.Caching.{Results}
use job_parser.Manager.Search.{Env}
use job_parser.Manager.Worker.{process_search_job}
use job_parser.Manager.Pool
use job_parser.Manager.Pool.{
  Pool, Worker, idle, polling, at_semaphore, busy, completing, stopped, finish, work,
}

-- The jobs of the pool are search jobs, with these parameters.
pub record Engine : Type 0 where
  pub manager : ParsersManager
  pub pool : Pool
  pub params_of : ℕ → SearchParams

pub data Event : Type 0 where
  search : ℕ → Env → ℕ → ℕ → Event
  other : Pool.Event → Event

with_pool : Engine → Option Pool → Option Engine
with_pool e none = none
with_pool e (some p) = some (record e { pool = p })

-- The outcome of proccessSearchJob before it calls Complete; a panic ends the program.
completes : ℕ → Engine → Option (ParsersManager × Results × Option Error) → Option Engine
unfolding with_pool Pool.step
completes w e none = none
completes w e (some (pm, rs, err)) =
    with_pool (record e { manager = pm }) (Pool.step (work w (finish (Any.results rs) err)) e.pool)

search_at : Option Worker → ℕ → Env → ℕ → ℕ → Engine → Option Engine
unfolding completes process_search_job
search_at none w env start end e = none
search_at (some idle) w env start end e = none
search_at (some polling) w env start end e = none
search_at (some (at_semaphore j)) w env start end e = none
search_at (some (busy j)) w env start end e =
    completes w e (process_search_job true env start end (e.params_of j) e.manager)
search_at (some (completing j s)) w env start end e = none
search_at (some stopped) w env start end e = none

unfoldable pub step : Event → Engine → Option Engine
unfolding search_at with_pool Pool.step
step (search w env start end) e = search_at (get_elem? e.pool.workers w) w env start end e
step (other ev) e = with_pool e (Pool.step ev e.pool)

unfoldable pub run : List Event → Engine → Option Engine
unfolding step
run [] e = some e
run (ev ∷ evs) e = elim (step ev e) [ none ↦ none | some e' ↦ run evs e' ]
