-- ===== src/Manager/Shutdown.antt =====
-- Shutdown of parsers_workers.go, with the goroutine that it starts, the workers that it waits for,
-- and Stop of the status manager (parsers_status_manager.go), which waits for the health checker.
pub mod Stopped
pub mod Order
pub mod Laws
mod Tests
use job_parser.Base.{
  ℕ, String, Bool, true, false, ◌&&◌, not, Option, none, some, List, [], ◌∷◌, if◌then◌else◌,
}
use job_parser.Base.Error.{Error}
use job_parser.Models.{Any}
use job_parser.Status.Checker
use job_parser.Status.Checker.{Checker}
use job_parser.Manager.Pool
use job_parser.Manager.Pool.{
  Pool, Worker, idle, polling, at_semaphore, busy, completing, stopped, Act, submit, work, collect,
  go, shutdown,
}

-- Where the goroutine that Shutdown starts is: before it is started; in `pm.wg.Wait()`; in Stop of the
-- status manager, which has closed its channel and waits; past `close(done)`.
pub data Closer : Type 0 where
  unborn : Closer
  waiting : Closer
  stopping : Closer
  ended : Closer

-- Where Shutdown is: not called; in its `select`; past it, by the one case or by the other.
pub data Report : Type 0 where
  uncalled : Report
  selecting : Report
  graceful : Report
  timed_out : Report

pub record System : Type 0 where
  pub pool : Pool
  pub checker : Checker
  pub stop_chan : Bool  -- that the status manager's channel is closed
  pub closer : Closer
  pub report : Report

-- A caller or a worker acts; a round of health checks goes on, or a search updates a status; Shutdown is called;
-- the closer's `pm.wg.Wait()` returns, and it closes the status manager's channel; the checker takes
-- that; the wait in Stop returns, and the closer closes `done`; the two cases of Shutdown's `select`.
pub data Event : Type 0 where
  call_submit : String → ℕ → Any → Event
  worker_acts : ℕ → Act → Event
  call_collect : ℕ → Event
  call_go : ℕ → Event
  check : Checker.Event → Event
  call_shutdown : Event
  joined : Event
  checker_quits : Event
  stop_returns : Event
  take_done : Event
  take_timeout : Event

abbrev pub is_stopped : Worker → Bool
is_stopped idle = false
is_stopped polling = false
is_stopped (at_semaphore j) = false
is_stopped (busy j) = false
is_stopped (completing j s) = false
is_stopped stopped = true

abbrev pub all_stopped : List Worker → Bool
all_stopped [] = true
all_stopped (w ∷ ws) = is_stopped w && all_stopped ws

abbrev pub with_pool : System → Option Pool → Option System
with_pool s none = none
with_pool s (some p) = some (record s { pool = p })

-- `close(pm.stopWorkers)`, which panics the second time, and the start of the closer.
called : System → Option Pool → Option System
called s none = none
called s (some p) = some (record s { pool = p; closer = waiting; report = selecting })

joined_at : Closer → System → Option System
joined_at unborn s = none
joined_at waiting s =
    if all_stopped s.pool.workers
    then some (record s { stop_chan = true; closer = stopping })
    else none
joined_at stopping s = none
joined_at ended s = none

returns_at : Closer → System → Option System
returns_at unborn s = none
returns_at waiting s = none
returns_at stopping s = if s.checker.running then none else some (record s { closer = ended })
returns_at ended s = none

-- The channel `done` is closed.
abbrev pub is_done : Closer → Bool
is_done unborn = false
is_done waiting = false
is_done stopping = false
is_done ended = true

done_at : Report → System → Option System
done_at uncalled s = none
done_at selecting s = if is_done s.closer then some (record s { report = graceful }) else none
done_at graceful s = none
done_at timed_out s = none

timeout_at : Report → System → Option System
timeout_at uncalled s = none
timeout_at selecting s = some (record s { report = timed_out })
timeout_at graceful s = none
timeout_at timed_out s = none

abbrev pub with_checker : System → Option Checker → Option System
with_checker s none = none
with_checker s (some c) = some (record s { checker = c })

-- The checker reads the stop channel in `checker_quits` alone.
unfoldable pub check_at : Checker.Event → System → Option System
unfolding Checker.step
check_at (Checker.begin client) s = with_checker s (Checker.step (Checker.begin client) s.checker)
check_at (Checker.arrive i now) s = with_checker s (Checker.step (Checker.arrive i now) s.checker)
check_at Checker.close_results s = with_checker s (Checker.step Checker.close_results s.checker)
check_at Checker.stop s = none
check_at (Checker.update name success err now) s =
    with_checker s (Checker.step (Checker.update name success err now) s.checker)

-- `none` where the event cannot come now, or panics.
unfoldable pub step : Event → System → Option System
unfolding Pool.step Checker.step check_at called joined_at returns_at done_at timeout_at
step (call_submit id now empty) s = with_pool s (Pool.step (submit id now empty) s.pool)
step (worker_acts w a) s = with_pool s (Pool.step (work w a) s.pool)
step (call_collect j) s = with_pool s (Pool.step (collect j) s.pool)
step (call_go j) s = with_pool s (Pool.step (go j) s.pool)
step (check e) s = check_at e s
step call_shutdown s = called s (Pool.step shutdown s.pool)
step joined s = joined_at s.closer s
step checker_quits s =
    if s.stop_chan then with_checker s (Checker.step Checker.stop s.checker) else none
step stop_returns s = returns_at s.closer s
step take_done s = done_at s.report s
step take_timeout s = timeout_at s.report s

unfoldable pub run : List Event → System → Option System
unfolding step
run [] s = some s
run (e ∷ es) s = elim (step e s) [ none ↦ none | some s' ↦ run es s' ]

unfoldable pub start : Pool → Checker → System
start pool checker = record {
  pool = pool;
  checker = checker;
  stop_chan = false;
  closer = unborn;
  report = uncalled;
}
