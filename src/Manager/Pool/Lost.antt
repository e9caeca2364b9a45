-- ===== src/Manager/Pool/Lost.antt =====
-- What becomes of a worker whose caller has gone before the job's output came.
use job_parser.Base.{
  ℕ, ◌≤◌, ◌≡◌, true, false, some, List, [], ◌∷◌, arith, refl, inl, inr, get_elem?, set,
  Option-cases,
}
use job_parser.Queue.{enqueue}
use job_parser.Jobs.{new_base_job}
use job_parser.Manager.Pool.{
  Worker, idle, polling, at_semaphore, busy, completing, stopped, Pool, PmLoad, new_pool, Act, look,
  take_job, acquire, expire, finish, send, leave, Event, submit, work, collect, go, shutdown,
  act_at, step, run, look_idle, take_polling, Ticket, waiting, gone, on_ticket, expired, completed,
  sent, collects, goes, put, submitted,
}
use job_parser.Manager.Pool.Slots.{IsBalanced-run, new_pool-IsBalanced}
use job_parser.Manager.Pool.Stuck.{
  lost_slots, completed-Keeps, expired-Keeps, sent-Keeps, collects-Keeps, goes-Keeps,
  on_ticket-Grows, append-Grows, lost_slots-Grows, lost_slots-set, lost-slots, not_sent,
}

-- The slots lost in a pool.
abbrev pub lost_in : Pool → ℕ
lost_in p = lost_slots p.tickets p.workers

lost_in-take :
    (w : ℕ) (items : List ℕ) (p : Pool)
    → p.queue.items ≡ items
    → get_elem? p.workers w ≡ some polling
    → lost_in p ≤ lost_in (take_polling w p)
unfolding take_polling
lost_in-take w [] p e g = ground (arith, e, lost_slots-set p.tickets p.workers w polling idle g)
lost_in-take w (j ∷ items) p e g =
    ground (arith, e, lost_slots-set p.tickets p.workers w polling (at_semaphore j) g)

lost_in-act :
    (a : Act) (s : Worker) (w : ℕ) (p m : Pool)
    → get_elem? p.workers w ≡ some s
    → act_at a s w p ≡ some m
    → lost_in p ≤ lost_in m
unfolding act_at look_idle
lost_in-act look idle w p m g h = ground (
  arith,
  lost_slots-set p.tickets p.workers w idle stopped g,
  lost_slots-set p.tickets p.workers w idle polling g,
)
lost_in-act take_job polling w p m g h = ground (arith, lost_in-take w p.queue.items p refl g)
lost_in-act acquire (at_semaphore j) w p m g h =
    ground (arith, lost_slots-set p.tickets p.workers w (at_semaphore j) (busy j) g)
lost_in-act expire (at_semaphore j) w p m g h =
    let r = completing j false in
    ground (
      arith,
      lost_slots-set p.tickets p.workers w (at_semaphore j) r g,
      lost_slots-Grows p.tickets _ (set p.workers w r)
          (on_ticket-Grows expired j p.tickets expired-Keeps),
    )
lost_in-act (finish d err) (busy j) w p m g h =
    let r = completing j true in
    ground (
      arith,
      lost_slots-set p.tickets p.workers w (busy j) r g,
      lost_slots-Grows p.tickets _ (set p.workers w r)
          (on_ticket-Grows (completed d err) j p.tickets (completed-Keeps d err)),
    )
lost_in-act send (completing j s) w p m g h =
    ground
      (arith, lost_slots-Grows p.tickets _ p.workers (on_ticket-Grows sent j p.tickets sent-Keeps))
lost_in-act leave (completing j true) w p m g h =
    ground
      (arith, not_sent p.tickets j, lost_slots-set p.tickets p.workers w (completing j true) idle g)
lost_in-act leave (completing j false) w p m g h =
    ground (arith, lost_slots-set p.tickets p.workers w (completing j false) idle g)
lost_in-act a s w p m g h = ground arith

pub lost_in-step : (e : Event) (p m : Pool) → step e p ≡ some m → lost_in p ≤ lost_in m
unfolding step submitted enqueue
lost_in-step (submit id now empty) p m h =
    let t : Ticket = record { base = new_base_job id now; empty = empty; caller = waiting } in
    ground (
      arith,
      h,
      lost_slots-Grows p.tickets _ p.workers (append-Grows p.tickets (t ∷ [])),
      lost_slots-Grows p.tickets _ p.workers
          (append-Grows p.tickets ((record t { caller = gone }) ∷ [])),
    )
lost_in-step (work w a) p m h = elim (Option-cases (get_elem? p.workers w)) [
  | inl n ↦ ground arith
  | inr (s, g) ↦ lost_in-act a s w p m g (ground (arith, g, h))
]
lost_in-step (collect j) p m h = ground (
  arith,
  lost_slots-Grows p.tickets _ p.workers
      (on_ticket-Grows (λ t. collects t.caller t) j p.tickets collects-Keeps),
)
lost_in-step (go j) p m h = ground (
  arith,
  lost_slots-Grows p.tickets _ p.workers
      (on_ticket-Grows (λ t. goes t.caller t) j p.tickets goes-Keeps),
)
lost_in-step shutdown p m h = ground arith

-- A lost slot is never given back: from any state, in any run, the slots of workers in a Complete that
-- has a send to make to a full channel, for a caller that has gone, do not get fewer.
pub lost_for_good : (es : List Event) (p m : Pool) → run es p ≡ some m → lost_in p ≤ lost_in m
unfolding run
lost_for_good [] p m h = ground arith
lost_for_good (e ∷ es) p m h = elim (Option-cases (step e p)) [
  | inl z ↦ ground arith
  | inr (u, z) ↦ ground (arith, lost_in-step e p u z, lost_for_good es u m (ground (arith, z, h)))
]

full :
    (load : PmLoad) (es fs : List Event) (p m : Pool)
    → run es (new_pool load) ≡ some p
    → run fs p ≡ some m
    → load.semaphore_size ≤ lost_in p
    → (m.size ≡ load.semaphore_size) × (m.held ≡ load.semaphore_size)
full load es fs p m h k l =
    let (held, room, size) =
      IsBalanced-run fs p m k (IsBalanced-run es (new_pool load) p h (new_pool-IsBalanced load)) in
    ground (arith, held, room, size, l, lost_for_good fs p m k, lost-slots m.tickets m.workers)

act_full :
    (a : Act) (w j : ℕ) (p m : Pool)
    → p.size ≤ p.held
    → act_at a (at_semaphore j) w p ≡ some m
    → m ≡ record (put w (completing j false) p) { tickets = on_ticket expired j p.tickets }
unfolding act_at
act_full a w j p m f h = ground arith

-- Enough lost slots, and no job is worked on any more: once workers in a Complete that has a send to
-- make to a full channel, for callers that have gone, hold as many slots as the semaphore has, a worker
-- with a job before the semaphore can do nothing, in any later state, but complete the job with the
-- error of the semaphore's timeout.
pub no_job_worked_on :
    (load : PmLoad) (es fs : List Event) (p m n : Pool) (a : Act) (w j : ℕ)
    → run es (new_pool load) ≡ some p
    → load.semaphore_size ≤ lost_in p
    → run fs p ≡ some m
    → get_elem? m.workers w ≡ some (at_semaphore j)
    → step (work w a) m ≡ some n
    → n ≡ record (put w (completing j false) m) { tickets = on_ticket expired j m.tickets }
unfolding step
no_job_worked_on load es fs p m n a w j h l k g e =
    let f = full load es fs p m h k l in
    act_full a w j m n (ground (arith, f)) (ground (arith, g, e))
