-- ===== src/Manager/Shutdown/Tests.antt =====
-- Two shutdowns: one that ends well, and one with a lost slot.
use job_parser.Base.{
  ◌≡◌, ◌≢◌, ◌⊎◌, refl, is_some, Option, none, true, false, some, List, [], ◌∷◌, arith,
}
use job_parser.Status.Checker.{Checker}
use job_parser.Manager.Pool.{PmLoad, new_pool, look, take_job, finish, send, acquire}
use job_parser.Models.{Any}
use job_parser.Manager.Pool.Lost.{lost_in}
use job_parser.Manager.Shutdown.{
  System, Event, start, run, call_shutdown, worker_acts, joined, checker_quits, stop_returns,
  take_done, take_timeout, graceful, all_stopped, call_go, call_submit,
}
use job_parser.Manager.Shutdown.Laws.{shutdown_in_order, shutdown_never_done}

abbrev checker : Checker
checker = record { stats = []; interval = 15; init_complete = true; pending = none; running = true }

-- Two workers and two slots.
abbrev load : PmLoad
load = record {
  num_of_workers = 2;
  semaphore_size = 2;
  queue_size = 6;
  sem_slot_timeout = 200_000_000;
}

abbrev resting : System
resting = start (new_pool load) checker

abbrev final : Option System → System
final none = resting
final (some s) = s

final-some : (o : Option System) → is_some o ≡ true → o ≡ some (final o)
final-some none e = cc e
final-some (some s) e = refl

abbrev closing : List Event
closing =
    call_shutdown
    ∷ worker_acts 1 look
    ∷ worker_acts 0 look
    ∷ joined
    ∷ checker_quits
    ∷ stop_returns
    ∷ take_done
    ∷ []

abbrev closed_down : System
closed_down = final (run closing resting)

closed_down_lem : run closing resting ≡ some closed_down
unfolding run start new_pool
closed_down_lem = final-some (run closing resting) refl

closed_down_report : closed_down.report ≡ graceful
unfolding run start new_pool
closed_down_report = refl

shutdown_in_order_example :
    ((closed_down.report ≢ graceful)
      ⊎ ((all_stopped closed_down.pool.workers ≡ true) × (closed_down.checker.running ≡ false)))
    × ((closed_down.checker.running ≡ true) ⊎ (all_stopped closed_down.pool.workers ≡ true))
shutdown_in_order_example =
    shutdown_in_order (new_pool load) checker closing closed_down closed_down_lem

-- The caller of a job goes, and its search ends without an error; then comes a shutdown.
abbrev leaking : List Event
leaking =
    call_submit "a" 1 (Any.results none)
    ∷ worker_acts 0 look
    ∷ worker_acts 0 take_job
    ∷ worker_acts 0 acquire
    ∷ call_go 0
    ∷ worker_acts 0 (finish (Any.results none) none)
    ∷ worker_acts 0 send
    ∷ []

abbrev leaky : System
leaky = final (run leaking resting)

leaky_lem : run leaking resting ≡ some leaky
unfolding run start new_pool
leaky_lem = final-some (run leaking resting) refl

leaky_lost : lost_in leaky.pool ≡ 1
unfolding run start new_pool
leaky_lost = refl

abbrev shutting : List Event
shutting = call_shutdown ∷ worker_acts 1 look ∷ worker_acts 0 send ∷ take_timeout ∷ []

abbrev given_up : System
given_up = final (run shutting leaky)

given_up_lem : run shutting leaky ≡ some given_up
unfolding run start new_pool
given_up_lem = final-some (run shutting leaky) refl

shutdown_never_done_example :
    (given_up.report ≢ graceful) × (given_up.stop_chan ≡ false) × (given_up.checker.running ≡ true)
shutdown_never_done_example =
    shutdown_never_done (new_pool load) checker leaking shutting leaky given_up leaky_lem
      (omega (arith, leaky_lost)) given_up_lem
