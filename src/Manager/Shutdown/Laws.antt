-- ===== src/Manager/Shutdown/Laws.antt =====
-- What Shutdown's report says, and what keeps it from coming.
use job_parser.Base.{
  ◌≤◌, ◌≡◌, ◌≢◌, refl, Bool, true, false, some, List, [], ◌∷◌, arith, Option-cases, Bool-cases, ◌⊎◌,
  inl, inr,
}
use job_parser.Status.Checker.{Checker}
use job_parser.Manager.Pool
use job_parser.Manager.Pool.{
  Pool, Worker, idle, polling, at_semaphore, busy, completing, stopped, Act, look, take_job,
  acquire, expire, finish, send, leave, submit, work, collect, go, shutdown, act_at, look_idle,
  take_polling, submitted, Ticket,
}
use job_parser.Manager.Pool.Lost.{lost_in, lost_in-step}
use job_parser.Manager.Shutdown.{
  System, Closer, Report, ended, graceful, Event, call_submit, worker_acts, call_collect, call_go,
  check, call_shutdown, joined, checker_quits, stop_returns, take_done, take_timeout, all_stopped,
  with_pool, called, joined_at, returns_at, done_at, timeout_at, step, run, start,
}
use job_parser.Manager.Shutdown.Stopped.{none_lost}
use job_parser.Manager.Shutdown.Order.{
  check_at-pool, quits-pool, IsOrderly, is_graceful, same, run-IsOrderly, start-IsOrderly,
}

with_pool-lost :
    (e : Pool.Event) (s t : System)
    → with_pool s (Pool.step e s.pool) ≡ some t
    → lost_in s.pool ≤ lost_in t.pool
with_pool-lost e s t h = elim (Option-cases (Pool.step e s.pool)) [
  | inl n ↦ ground (arith, n, h)
  | inr (m, g) ↦ ground (arith, g, h, lost_in-step e s.pool m g)
]

called-lost :
    (s t : System) → called s (Pool.step shutdown s.pool) ≡ some t → lost_in s.pool ≤ lost_in t.pool
unfolding called
called-lost s t h = elim (Option-cases (Pool.step shutdown s.pool)) [
  | inl n ↦ ground (arith, n, h)
  | inr (m, g) ↦ ground (arith, g, h, lost_in-step shutdown s.pool m g)
]

step-lost : (e : Event) (s t : System) → step e s ≡ some t → lost_in s.pool ≤ lost_in t.pool
unfolding step joined_at returns_at done_at timeout_at
step-lost (call_submit id now empty) s t h = with_pool-lost (submit id now empty) s t h
step-lost (worker_acts w a) s t h = with_pool-lost (work w a) s t h
step-lost (call_collect j) s t h = with_pool-lost (collect j) s t h
step-lost (call_go j) s t h = with_pool-lost (go j) s t h
step-lost (check e) s t h = ground (arith, check_at-pool e s t h)
step-lost call_shutdown s t h = called-lost s t h
step-lost joined s t h = ground (arith, h)
step-lost checker_quits s t h = ground (arith, quits-pool s t h)
step-lost stop_returns s t h = ground (arith, h)
step-lost take_done s t h = ground (arith, h)
step-lost take_timeout s t h = ground (arith, h)

run-lost : (es : List Event) (s t : System) → run es s ≡ some t → lost_in s.pool ≤ lost_in t.pool
unfolding run
run-lost [] s t h = ground (arith, h)
run-lost (e ∷ es) s t h = elim (Option-cases (step e s)) [
  | inl n ↦ ground (arith, n, h)
  | inr (u, g) ↦ ground (arith, g, h, step-lost e s u g, run-lost es u t)
]

not_all : (t : System) → 1 ≤ lost_in t.pool → all_stopped t.pool.workers ≡ false
not_all t l = elim (Bool-cases (all_stopped t.pool.workers)) [
  | inl y ↦ absurd (omega (arith, l, none_lost t.pool.tickets t.pool.workers y))
  | inr n ↦ n
]

not_graceful : (r : Report) → is_graceful r ≡ false → r ≢ graceful
not_graceful r n e = ground (arith, n, e)

same-eq : (a b : Bool) → same a b ≡ true → a ≡ b
same-eq true b h = ground (arith, h)
same-eq false b h = ground (arith, h)

told_stopped :
    (b : Bool) (at : Closer) (s : System)
    → s.closer ≡ at
    → is_graceful s.report ≡ true
    → IsOrderly b s
    → (all_stopped s.pool.workers ≡ true) × (s.checker.running ≡ false)
told_stopped b ended s e g o = (ground (arith, e, g, o), ground (arith, e, g, o))
told_stopped b at s e g o = (ground (arith, e, g, o), ground (arith, e, g, o))

reported :
    (b : Bool) (s : System)
    → IsOrderly b s
    → (s.report ≢ graceful) ⊎ ((all_stopped s.pool.workers ≡ true) × (s.checker.running ≡ false))
reported b s o = elim (Bool-cases (is_graceful s.report)) [
  | inl y ↦ inr (told_stopped b s.closer s refl y o)
  | inr n ↦ inl (not_graceful s.report n)
]

ticking :
    (b : Bool) (s : System)
    → IsOrderly b s
    → (s.checker.running ≡ b) ⊎ (all_stopped s.pool.workers ≡ true)
ticking b s o = elim (Bool-cases s.stop_chan) [
  | inl y ↦ inr (ground (arith, o, y))
  | inr n ↦ inl (same-eq s.checker.running b (ground (arith, o, n)))
]

in_order :
    (b : Bool) (s : System)
    → IsOrderly b s
    → ((s.report ≢ graceful) ⊎ ((all_stopped s.pool.workers ≡ true) × (s.checker.running ≡ false)))
      × ((s.checker.running ≡ b) ⊎ (all_stopped s.pool.workers ≡ true))
in_order b s o = (reported b s o, ticking b s o)

open_chan :
    (b : Bool) (t : System)
    → IsOrderly b t
    → all_stopped t.pool.workers ≡ false
    → t.stop_chan ≡ false
open_chan b t o n = ground (arith, o, n)

open-graceful :
    (b : Bool) (at : Closer) (t : System)
    → t.closer ≡ at
    → t.stop_chan ≡ false
    → IsOrderly b t
    → is_graceful t.report ≡ false
open-graceful b ended t e n o = ground (arith, e, n, o)
open-graceful b at t e n o = ground (arith, e, n, o)

never_done :
    (b : Bool) (t : System)
    → IsOrderly b t
    → all_stopped t.pool.workers ≡ false
    → (t.report ≢ graceful) × (t.stop_chan ≡ false) × (t.checker.running ≡ b)
never_done b t o n =
    let untold = open_chan b t o n in
    (
      not_graceful t.report (open-graceful b t.closer t refl untold o),
      untold,
      same-eq t.checker.running b (ground (arith, o, untold)),
    )

-- When Shutdown reports that all workers have stopped, they have: every worker is past its loop, and
-- the health checker has ended; and at any time the status manager is told to stop only after all
-- workers have stopped, and the checker runs until then as it did at the start.
pub shutdown_in_order :
    (p : Pool) (c : Checker) (es : List Event) (s : System)
    → run es (start p c) ≡ some s
    → ((s.report ≢ graceful) ⊎ ((all_stopped s.pool.workers ≡ true) × (s.checker.running ≡ false)))
      × ((s.checker.running ≡ c.running) ⊎ (all_stopped s.pool.workers ≡ true))
shutdown_in_order p c es s h =
    let o = run-IsOrderly c.running es (start p c) s h (start-IsOrderly p c) in
    in_order c.running s o

-- One lost slot, and Shutdown cannot end but by its timeout: once a worker with a slot is in a
-- Complete that has a send to make to a full channel, for a caller that has gone, then whatever happens
-- Shutdown does not report that the workers have stopped, the status manager is not told to stop, and
-- the health checker goes on as it did at the start.
pub shutdown_never_done :
    (p : Pool) (c : Checker) (es fs : List Event) (s t : System)
    → run es (start p c) ≡ some s
    → 1 ≤ lost_in s.pool
    → run fs s ≡ some t
    → (t.report ≢ graceful) × (t.stop_chan ≡ false) × (t.checker.running ≡ c.running)
shutdown_never_done p c es fs s t h l k =
    let o =
      run-IsOrderly c.running fs s t k
        (run-IsOrderly c.running es (start p c) s h (start-IsOrderly p c)) in
    never_done c.running t o (not_all t (omega (arith, l, run-lost fs s t k)))
