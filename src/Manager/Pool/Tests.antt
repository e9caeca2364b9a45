-- ===== src/Manager/Pool/Tests.antt =====
-- The theorems of the workers at the pool of a machine with two cores: four workers, three slots.
use job_parser.Base.{
  ◌+◌, ℕ, String, ◌≤◌, ◌≡◌, refl, true, false, none, some, List, [], ◌∷◌, ◌++◌, arith, length,
}
use job_parser.Models.{Any}
use job_parser.Jobs.Delivery.{succeeded, failed}
use job_parser.Manager.Pool.{
  PmLoad, new_pm_load, Pool, Event, Ticket, submit, work, go, look, take_job, acquire, expire,
  finish, send, new_pool, run, step, waiting, gone, idle, polling, at_semaphore, busy, completing,
  put, on_ticket, expired,
}
use job_parser.Manager.Pool.Slots.{slots, reachable-IsBalanced}
use job_parser.Manager.Pool.Order.{Rises, reachable-IsOrdered}
use job_parser.Manager.Pool.Halt.{pollers, queued_at_shutdown_left}
use job_parser.Manager.Pool.Lost.{lost_in, no_job_worked_on}
use job_parser.Manager.Pool.Gone.{slot_lost_for_good}

abbrev nothing : Any
nothing = Any.results none

abbrev load : PmLoad
load = record {
  num_of_workers = 4;
  semaphore_size = 3;
  queue_size = 9;
  sem_slot_timeout = 200_000_000;
}

load_lem : new_pm_load 2 ≡ load
unfolding new_pm_load
load_lem = refl

abbrev ticket : String → ℕ → Ticket
ticket id now = record {
  base = record { id = id; result_chan = none; created_at = now; notified = false; sending = [] };
  empty = nothing;
  caller = waiting;
}

-- Four jobs; three workers start on one.
abbrev opening : List Event
opening =
    submit "a" 1 nothing
    ∷ submit "b" 2 nothing
    ∷ submit "c" 3 nothing
    ∷ submit "d" 4 nothing
    ∷ work 0 look
    ∷ work 0 take_job
    ∷ work 1 look
    ∷ work 1 take_job
    ∷ work 2 look
    ∷ work 2 take_job
    ∷ work 0 acquire
    ∷ work 1 acquire
    ∷ work 2 acquire
    ∷ []

abbrev opened : Pool
opened = record {
  tickets = ticket "a" 1 ∷ ticket "b" 2 ∷ ticket "c" 3 ∷ ticket "d" 4 ∷ [];
  queue = record { items = 3 ∷ []; capacity = 9; shut = false; closed = false };
  workers = busy 0 ∷ busy 1 ∷ busy 2 ∷ idle ∷ [];
  held = 3;
  size = 3;
  stop_workers = false;
  accepted = 0 ∷ 1 ∷ 2 ∷ 3 ∷ [];
  taken = 0 ∷ 1 ∷ 2 ∷ [];
}

opened_lem : run opening (new_pool (new_pm_load 2)) ≡ some opened
unfolding run new_pool new_pm_load
opened_lem = refl

reachable-IsBalanced_example :
    (opened.held ≡ slots opened.workers)
    × (opened.held ≤ opened.size)
    × (opened.size ≤ (new_pm_load 2).num_of_workers)
reachable-IsBalanced_example = reachable-IsBalanced 2 opening opened opened_lem

reachable-IsOrdered_example :
    (opened.accepted ≡ opened.taken ++ opened.queue.items)
    × Rises opened.accepted (length opened.tickets)
reachable-IsOrdered_example = reachable-IsOrdered (new_pm_load 2) opening opened opened_lem

-- The three callers go before their searches end without an error.
abbrev leaving : List Event
leaving =
    go 0
    ∷ go 1
    ∷ go 2
    ∷ work 0 (finish nothing none)
    ∷ work 1 (finish nothing none)
    ∷ work 2 (finish nothing none)
    ∷ work 0 send
    ∷ work 1 send
    ∷ work 2 send
    ∷ []

abbrev left : String → ℕ → Ticket
left id now = record {
  base = record {
    id = id;
    result_chan = some (succeeded nothing);
    created_at = now;
    notified = true;
    sending = failed nothing none ∷ [];
  };
  empty = nothing;
  caller = gone;
}

abbrev exhausted : Pool
exhausted = record opened {
  tickets = left "a" 1 ∷ left "b" 2 ∷ left "c" 3 ∷ ticket "d" 4 ∷ [];
  workers = completing 0 true ∷ completing 1 true ∷ completing 2 true ∷ idle ∷ [];
}

exhausted_lem : run leaving opened ≡ some exhausted
unfolding run
exhausted_lem = refl

-- The first caller has gone while its job is worked on; then a free worker takes another job.
abbrev left_early : Pool
left_early = record opened {
  tickets =
      record (ticket "a" 1) { caller = gone } ∷ ticket "b" 2 ∷ ticket "c" 3 ∷ ticket "d" 4 ∷ [];
}

abbrev one_lost : Pool
one_lost = record opened {
  tickets = left "a" 1 ∷ ticket "b" 2 ∷ ticket "c" 3 ∷ ticket "d" 4 ∷ [];
  workers = completing 0 true ∷ busy 1 ∷ busy 2 ∷ idle ∷ [];
}

abbrev one_lost_later : Pool
one_lost_later = record one_lost {
  queue = record { items = []; capacity = 9; shut = false; closed = false };
  workers = completing 0 true ∷ busy 1 ∷ busy 2 ∷ at_semaphore 3 ∷ [];
  taken = 0 ∷ 1 ∷ 2 ∷ 3 ∷ [];
}

one_lost_lem : run (work 0 (finish nothing none) ∷ work 0 send ∷ []) left_early ≡ some one_lost
unfolding run
one_lost_lem = refl

one_lost_later_lem : run (work 3 look ∷ work 3 take_job ∷ []) one_lost ≡ some one_lost_later
unfolding run
one_lost_later_lem = refl

slot_lost_for_good_example : lost_in left_early + 1 ≤ lost_in one_lost_later
slot_lost_for_good_example =
    slot_lost_for_good (work 3 look ∷ work 3 take_job ∷ []) left_early one_lost one_lost_later 0 0
      (record (ticket "a" 1) { caller = gone }) nothing refl refl (refl, refl, refl) refl
      one_lost_lem one_lost_later_lem

reached_lem : run (opening ++ leaving) (new_pool (new_pm_load 2)) ≡ some exhausted
unfolding run new_pool new_pm_load
reached_lem = refl

slots_lem : (new_pm_load 2).semaphore_size ≤ lost_in exhausted
unfolding new_pm_load
slots_lem = omega arith

abbrev hopeless : Pool
hopeless = record exhausted {
  queue = record { items = []; capacity = 9; shut = false; closed = false };
  workers = completing 0 true ∷ completing 1 true ∷ completing 2 true ∷ at_semaphore 3 ∷ [];
  taken = 0 ∷ 1 ∷ 2 ∷ 3 ∷ [];
}

hopeless_lem : run (work 3 look ∷ work 3 take_job ∷ []) exhausted ≡ some hopeless
unfolding run
hopeless_lem = refl

abbrev refused : Pool
refused = record (put 3 (completing 3 false) hopeless) {
  tickets = on_ticket expired 3 hopeless.tickets;
}

refused_lem : step (work 3 expire) hopeless ≡ some refused
unfolding step
refused_lem = refl

no_job_worked_on_example : refused ≡ record (put 3 (completing 3 false) hopeless) {
  tickets = on_ticket expired 3 hopeless.tickets;
}
no_job_worked_on_example =
    no_job_worked_on (new_pm_load 2) (opening ++ leaving) (work 3 look ∷ work 3 take_job ∷ [])
      exhausted hopeless refused expire 3 3 reached_lem slots_lem hopeless_lem refl refused_lem

-- Shutdown, while the last worker is before its Dequeue.
abbrev halting : Pool
halting = record opened { workers = busy 0 ∷ busy 1 ∷ busy 2 ∷ polling ∷ []; stop_workers = true }

abbrev halted : Pool
halted = record halting {
  queue = record { items = []; capacity = 9; shut = false; closed = false };
  workers = busy 0 ∷ busy 1 ∷ busy 2 ∷ at_semaphore 3 ∷ [];
  taken = 0 ∷ 1 ∷ 2 ∷ 3 ∷ [];
}

halted_lem : run (work 3 take_job ∷ []) halting ≡ some halted
unfolding run
halted_lem = refl

queued_at_shutdown_left_example :
    (got : List ℕ) × (later : List ℕ) × (halted.taken ≡ halting.taken ++ got)
    × (length got ≤ pollers halting.workers)
    × (halting.queue.items ++ later ≡ got ++ halted.queue.items)
queued_at_shutdown_left_example =
    queued_at_shutdown_left (work 3 take_job ∷ []) halting halted refl halted_lem
