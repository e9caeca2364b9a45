-- ===== src/Manager/Pool.antt =====
-- The workers round the queue: startSearchWorkers, searchWorker, the semaphore and Shutdown of
-- parsers_workers.go, and the callers that wait on their jobs (searchVacancies,
-- executeSearchVacancyDetailes). One event is one action of one thread; what a job's search yields is an argument of `finish` (Manager/Worker and
-- Manager/DetailsJob have it).
pub mod State
pub mod Slots
pub mod Order
pub mod Halt
pub mod Stuck
pub mod Lost
pub mod Freed
pub mod Gone
mod Tests
unfoldable pub use State.*
use job_parser.Base.{
  ℕ, zero, suc, ◌+◌, ◌-◌, ◌*◌, ◌/◌, String, Bool, true, false, Option, none, some, List, [], ◌∷◌,
  ◌++◌, length, get_elem?, set, replicate, ltb, if◌then◌else◌,
}
use job_parser.Base.Error.{Error, message}
use job_parser.Models.{Any}
use job_parser.Queue.{FifoQueue, new_fifo_queue, enqueue, dequeue}
use job_parser.Jobs.{BaseJob, new_base_job, JobOutput, complete, advance, receive}

pub data Act : Type 0 where
  look : Act
  take_job : Act
  acquire : Act
  expire : Act
  finish : Any → Option Error → Act
  send : Act
  leave : Act

-- A caller submits a job; a worker acts; a caller receives; a caller goes; Shutdown closes its channel,
-- after which it only waits.
pub data Event : Type 0 where
  submit : String → ℕ → Any → Event
  work : ℕ → Act → Event
  collect : ℕ → Event
  go : ℕ → Event
  shutdown : Event

abbrev pub is_nil {ℓ} : {A : Type ℓ} → List A → Bool
is_nil [] = true
is_nil (x ∷ xs) = false

abbrev pub put : ℕ → Worker → Pool → Pool
put w s p = record p { workers = set p.workers w s }

abbrev pub on_ticket : (Ticket → Ticket) → ℕ → List Ticket → List Ticket
on_ticket f j [] = []
on_ticket f zero (t ∷ ts) = f t ∷ ts
on_ticket f (suc j) (t ∷ ts) = t ∷ on_ticket f j ts

-- `job.Complete(data, err)`, and the sends of its goroutine.
abbrev pub completed : Any → Option Error → Ticket → Ticket
completed d err t = record t { base = complete d err t.base }

abbrev pub sent : Ticket → Ticket
sent t = record t { base = advance t.base }

abbrev slot_error : Error
slot_error = message "❌ Таймаут ожидания свободного слота глобального семафора менеджера парсеров"

abbrev pub expired : Ticket → Ticket
expired t = completed t.empty (some slot_error) t

-- Nothing left to send: Complete returns.
abbrev pub is_sent : Option Ticket → Bool
is_sent none = false
is_sent (some t) = is_nil t.base.sending

-- `default: job, ok := pm.jobSearchQueue.Dequeue()`
took : ℕ → FifoQueue ℕ × Option ℕ → Pool → Pool
took w (q, none) p = record (put w idle p) { queue = q }
took w (q, some j) p = record p {
  queue = q;
  workers = set p.workers w (at_semaphore j);
  taken = p.taken ++ j ∷ [];
}

-- The `select` of searchWorker, whose `default` runs only while `stopWorkers` is open.
unfoldable pub look_idle : ℕ → Pool → Pool
look_idle w p = if p.stop_workers then put w stopped p else put w polling p

-- The Dequeue in that `default`, which comes after the `select`.
unfoldable pub take_polling : ℕ → Pool → Pool
unfolding took dequeue
take_polling w p = took w (dequeue p.queue) p

-- What each act does, by where the worker is; `none` where the worker cannot do it now.
look_at : Worker → ℕ → Pool → Option Pool
unfolding look_idle
look_at idle w p = some (look_idle w p)
look_at polling w p = none
look_at (at_semaphore j) w p = none
look_at (busy j) w p = none
look_at (completing j s) w p = none
look_at stopped w p = none

take_at : Worker → ℕ → Pool → Option Pool
unfolding take_polling
take_at idle w p = none
take_at polling w p = some (take_polling w p)
take_at (at_semaphore j) w p = none
take_at (busy j) w p = none
take_at (completing j s) w p = none
take_at stopped w p = none

acquire_at : Worker → ℕ → Pool → Option Pool
acquire_at idle w p = none
acquire_at polling w p = none
acquire_at (at_semaphore j) w p =
    if ltb p.held p.size then some (record (put w (busy j) p) { held = suc p.held }) else none
acquire_at (busy j) w p = none
acquire_at (completing j s) w p = none
acquire_at stopped w p = none

expire_at : Worker → ℕ → Pool → Option Pool
unfolding complete
expire_at idle w p = none
expire_at polling w p = none
expire_at (at_semaphore j) w p =
    some (record (put w (completing j false) p) { tickets = on_ticket expired j p.tickets })
expire_at (busy j) w p = none
expire_at (completing j s) w p = none
expire_at stopped w p = none

finish_at : Worker → Any → Option Error → ℕ → Pool → Option Pool
unfolding complete
finish_at idle d err w p = none
finish_at polling d err w p = none
finish_at (at_semaphore j) d err w p = none
finish_at (busy j) d err w p =
    some
      (record (put w (completing j true) p) { tickets = on_ticket (completed d err) j p.tickets })
finish_at (completing j s) d err w p = none
finish_at stopped d err w p = none

send_at : Worker → ℕ → Pool → Option Pool
unfolding advance
send_at idle w p = none
send_at polling w p = none
send_at (at_semaphore j) w p = none
send_at (busy j) w p = none
send_at (completing j s) w p = some (record p { tickets = on_ticket sent j p.tickets })
send_at stopped w p = none

-- The deferred release of the slot runs after Complete.
leave_at : Worker → ℕ → Pool → Option Pool
leave_at idle w p = none
leave_at polling w p = none
leave_at (at_semaphore j) w p = none
leave_at (busy j) w p = none
leave_at (completing j s) w p =
    if is_sent (get_elem? p.tickets j)
    then some (record (put w idle p) { held = if s then p.held - 1 else p.held })
    else none
leave_at stopped w p = none

unfoldable pub act_at : Act → Worker → ℕ → Pool → Option Pool
unfolding look_at take_at acquire_at expire_at finish_at send_at leave_at
act_at look s w p = look_at s w p
act_at take_job s w p = take_at s w p
act_at acquire s w p = acquire_at s w p
act_at expire s w p = expire_at s w p
act_at (finish d err) s w p = finish_at s d err w p
act_at send s w p = send_at s w p
act_at leave s w p = leave_at s w p

abbrev of_worker : Act → Option Worker → ℕ → Pool → Option Pool
of_worker a none w p = none
of_worker a (some s) w p = act_at a s w p

-- NewSearchJob or NewFetchVacancyJob, and an Enqueue: the last one of tryEnqueueJob.
unfoldable pub submitted : Ticket → Option (FifoQueue ℕ × Bool) → Pool → Option Pool
submitted t none p = none
submitted t (some (q, true)) p = some (record p {
  tickets = p.tickets ++ t ∷ [];
  queue = q;
  accepted = p.accepted ++ length p.tickets ∷ [];
})
submitted t (some (q, false)) p =
    some (record p { tickets = p.tickets ++ record t { caller = gone } ∷ []; queue = q })

-- The caller's `select` in waitJobResult, when the channel has an output.
abbrev pub receives : BaseJob × Option JobOutput → Ticket → Ticket
receives (b, none) t = t
receives (b, some o) t = record t { base = b; caller = served o }

abbrev pub collects : Caller → Ticket → Ticket
collects waiting t = receives (receive t.base) t
collects (served o) t = t
collects gone t = t

abbrev pub goes : Caller → Ticket → Ticket
goes waiting t = record t { caller = gone }
goes (served o) t = t
goes gone t = t

unfoldable pub step : Event → Pool → Option Pool
unfolding act_at submitted receive new_base_job enqueue
step (submit id now empty) p =
    submitted (record { base = new_base_job id now; empty = empty; caller = waiting })
      (enqueue (length p.tickets) p.queue) p
step (work w a) p = of_worker a (get_elem? p.workers w) w p
step (collect j) p = some (record p { tickets = on_ticket (λ t. collects t.caller t) j p.tickets })
step (go j) p = some (record p { tickets = on_ticket (λ t. goes t.caller t) j p.tickets })
step shutdown p = if p.stop_workers then none else some (record p { stop_workers = true })

unfoldable pub run : List Event → Pool → Option Pool
unfolding step
run [] p = some p
run (e ∷ es) p = elim (step e p) [ none ↦ none | some p' ↦ run es p' ]
