-- ===== src/Manager/Pool/State.antt =====
-- The state of the workers: NewPMLoad and the load fields of NewParserManager (parsers_manager.go),
-- the jobs with their callers, and where each worker is.
use job_parser.Base.{ℕ, ◌+◌, ◌*◌, ◌/◌, Bool, false, List, [], replicate}
use job_parser.Models.{Any}
use job_parser.Queue.{FifoQueue, new_fifo_queue}
use job_parser.Jobs.{BaseJob, JobOutput}

pub record PmLoad : Type 0 where
  pub num_of_workers : ℕ
  pub semaphore_size : ℕ
  pub queue_size : ℕ
  pub sem_slot_timeout : ℕ

-- `math.Ceil(0.7 * float64(n))` is the ceiling of 7n / 10: the rounding of the product is smaller than
-- its distance to the next integer below, where it is not itself that integer.
unfoldable pub new_pm_load : ℕ → PmLoad
new_pm_load cores =
    let workers = cores * 2 in
    let slots = (7 * workers + 9) / 10 in
    record {
      num_of_workers = workers;
      semaphore_size = slots;
      queue_size = slots * 3;
      sem_slot_timeout = 200_000_000;
    }

-- A caller waits for its job's output, has got it, or has gone: its job was not added to the queue,
-- its timeout is over or its context done.
pub data Caller : Type 0 where
  waiting : Caller
  served : JobOutput → Caller
  gone : Caller

-- A job, by the part of it that worker and caller share, with what its worker sends along with the
-- error of the semaphore (a nil slice, or zero details), and its caller.
pub record Ticket : Type 0 where
  pub base : BaseJob
  pub empty : Any
  pub caller : Caller

-- Where a worker is: before its `select`; in the `default` of it, before Dequeue; with a job before the semaphore; with a job and a slot; in
-- Complete, with a slot to release after it or without; past its loop.
pub data Worker : Type 0 where
  idle : Worker
  polling : Worker
  at_semaphore : ℕ → Worker
  busy : ℕ → Worker
  completing : ℕ → Bool → Worker
  stopped : Worker

-- The queue holds the positions of the jobs among the tickets. `accepted` and `taken` are the jobs
-- that went into the queue and that workers took out of it, oldest first.
pub record Pool : Type 0 where
  pub tickets : List Ticket
  pub queue : FifoQueue ℕ
  pub workers : List Worker
  pub held : ℕ  -- what is in the channel `semaphore`
  pub size : ℕ
  pub stop_workers : Bool
  pub accepted : List ℕ
  pub taken : List ℕ

abbrev start_search_workers : ℕ → List Worker
start_search_workers n = replicate n idle

unfoldable pub new_pool : PmLoad → Pool
unfolding new_fifo_queue
new_pool load = record {
  tickets = [];
  queue = new_fifo_queue load.queue_size;
  workers = start_search_workers load.num_of_workers;
  held = 0;
  size = load.semaphore_size;
  stop_workers = false;
  accepted = [];
  taken = [];
}
