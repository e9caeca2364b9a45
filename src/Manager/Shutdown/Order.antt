-- ===== src/Manager/Shutdown/Order.antt =====
-- The order in which a shutdown goes, kept by every event.
use job_parser.Base.{
  ℕ, String, ◌≡◌, refl, Bool, true, false, not, ◌||◌, Option, none, some, Bool-cases, get_elem?,
  if◌then◌else◌, List, [], ◌∷◌, arith, Option-cases, inl, inr,
}
use job_parser.Status.{CheckResult}
use job_parser.Status.Checker
use job_parser.Status.Checker.{Checker}
use job_parser.Base.Error.{Error}
use job_parser.Manager.Pool
use job_parser.Manager.Pool.{
  Pool, Worker, idle, polling, at_semaphore, busy, completing, stopped, Act, look, take_job,
  acquire, expire, finish, send, leave, submit, work, collect, go, shutdown, act_at, look_idle,
  take_polling, submitted, Ticket,
}
use job_parser.Manager.Shutdown.{
  System, Closer, Report, unborn, waiting, stopping, ended, uncalled, selecting, graceful,
  timed_out, Event, call_submit, worker_acts, call_collect, call_go, check, call_shutdown, joined,
  checker_quits, stop_returns, take_done, take_timeout, all_stopped, is_done, with_pool,
  with_checker, check_at, called, joined_at, returns_at, done_at, timeout_at, step, run, start,
}
use job_parser.Manager.Shutdown.Stopped.{stopped_stay, stop_stays}

abbrev pub is_unborn : Closer → Bool
is_unborn unborn = true
is_unborn waiting = false
is_unborn stopping = false
is_unborn ended = false

abbrev pub has_stopped : Closer → Bool
has_stopped unborn = false
has_stopped waiting = false
has_stopped stopping = true
has_stopped ended = true

abbrev pub is_graceful : Report → Bool
is_graceful uncalled = false
is_graceful selecting = false
is_graceful graceful = true
is_graceful timed_out = false

abbrev pub same : Bool → Bool → Bool
same true b = b
same false b = not b

-- The order of the shutdown, for a checker that ran at the start, or not.
pub record IsOrderly (b : Bool) (s : System) : Type 0 where
  pub begun : (is_unborn s.closer || s.pool.stop_workers) ≡ true
  pub first : (not s.stop_chan || all_stopped s.pool.workers) ≡ true
  pub stage : has_stopped s.closer ≡ s.stop_chan
  pub kept : (s.stop_chan || same s.checker.running b) ≡ true
  pub quiet : (not (is_done s.closer) || not s.checker.running) ≡ true
  pub told : (not (is_graceful s.report) || is_done s.closer) ≡ true

pool-IsOrderly :
    (b : Bool) (e : Pool.Event) (s t : System)
    → with_pool s (Pool.step e s.pool) ≡ some t
    → IsOrderly b s
    → IsOrderly b t
pool-IsOrderly b e s t h o = elim (Option-cases (Pool.step e s.pool)) [
  | inl n ↦ ground (arith, n, h)
  | inr (m, g) ↦ ground (arith, g, h, o, stop_stays e s.pool m g, stopped_stay e s.pool m g)
]

with_checker-pool :
    (o : Option Checker) (s t : System) → with_checker s o ≡ some t → t.pool ≡ s.pool
with_checker-pool none s t h = ground (arith, h)
with_checker-pool (some c) s t h = ground (arith, h)

pub check_at-pool : (e : Checker.Event) (s t : System) → check_at e s ≡ some t → t.pool ≡ s.pool
unfolding check_at
check_at-pool (Checker.begin client) s t h =
    with_checker-pool (Checker.step (Checker.begin client) s.checker) s t h
check_at-pool (Checker.arrive i now) s t h =
    with_checker-pool (Checker.step (Checker.arrive i now) s.checker) s t h
check_at-pool Checker.close_results s t h =
    with_checker-pool (Checker.step Checker.close_results s.checker) s t h
check_at-pool Checker.stop s t h = ground (arith, h)
check_at-pool (Checker.update name success err now) s t h =
    with_checker-pool (Checker.step (Checker.update name success err now) s.checker) s t h

pub quits-pool :
    (s t : System)
    → (if s.stop_chan then with_checker s (Checker.step Checker.stop s.checker) else none) ≡ some t
    → t.pool ≡ s.pool
quits-pool s t h = elim (Bool-cases s.stop_chan) [
  | inl c ↦ with_checker-pool (Checker.step Checker.stop s.checker) s t (ground (arith, c, h))
  | inr c ↦ ground (arith, c, h)
]

-- The checker runs as before.
abbrev RunsAs : Checker → Option Checker → Type 0
RunsAs c none = Unit
RunsAs c (some d) = d.running ≡ c.running

begin-RunsAs :
    (client : String → ℕ × Bool × Option Error) (o : Option (List CheckResult)) (c : Checker)
    → RunsAs c (Checker.begin_round client o c)
unfolding Checker.begin_round
begin-RunsAs client none c = ground arith
begin-RunsAs client (some rs) c = tt

take-RunsAs :
    (i now : ℕ) (rs : List CheckResult) (o : Option CheckResult) (c : Checker)
    → RunsAs c (Checker.take_down i now rs o c)
unfolding Checker.take_down
take-RunsAs i now rs none c = tt
take-RunsAs i now rs (some r) c = refl

arrive-RunsAs :
    (i now : ℕ) (o : Option (List CheckResult)) (c : Checker)
    → RunsAs c (Checker.arrive_at i now o c)
unfolding Checker.arrive_at
arrive-RunsAs i now none c = tt
arrive-RunsAs i now (some rs) c = take-RunsAs i now rs (get_elem? rs i) c

close-RunsAs : (o : Option (List CheckResult)) (c : Checker) → RunsAs c (Checker.close_at o c)
unfolding Checker.close_at
close-RunsAs none c = tt
close-RunsAs (some []) c = ground arith
close-RunsAs (some (r ∷ rs)) c = tt

checked-IsOrderly :
    (b : Bool) (o : Option Checker) (s t : System)
    → RunsAs s.checker o
    → with_checker s o ≡ some t
    → IsOrderly b s
    → IsOrderly b t
checked-IsOrderly b none s t r h o = ground (arith, h)
checked-IsOrderly b (some c) s t r h o = ground (arith, r, h, o)

check-IsOrderly :
    (b : Bool) (e : Checker.Event) (s t : System)
    → check_at e s ≡ some t
    → IsOrderly b s
    → IsOrderly b t
unfolding check_at Checker.step
check-IsOrderly b (Checker.begin client) s t h o =
    checked-IsOrderly b _ s t (begin-RunsAs client s.checker.pending s.checker) h o
check-IsOrderly b (Checker.arrive i now) s t h o =
    checked-IsOrderly b _ s t (arrive-RunsAs i now s.checker.pending s.checker) h o
check-IsOrderly b Checker.close_results s t h o =
    checked-IsOrderly b _ s t (close-RunsAs s.checker.pending s.checker) h o
check-IsOrderly b Checker.stop s t h o = ground (arith, h)
check-IsOrderly b (Checker.update name success err now) s t h o =
    checked-IsOrderly b (Checker.step (Checker.update name success err now) s.checker) s t refl h o

quits-IsOrderly :
    (b : Bool) (o : Option (List CheckResult)) (s t : System)
    → s.stop_chan ≡ true
    → with_checker s (Checker.stop_at o s.checker) ≡ some t
    → IsOrderly b s
    → IsOrderly b t
unfolding Checker.stop_at
quits-IsOrderly b none s t c h o = ground (arith, c, h, o)
quits-IsOrderly b (some rs) s t c h o = ground (arith, h)

called-IsOrderly :
    (b : Bool) (s t : System)
    → called s (Pool.step shutdown s.pool) ≡ some t
    → IsOrderly b s
    → IsOrderly b t
unfolding called Pool.step
called-IsOrderly b s t h o = ground (arith, h, o)

joined-IsOrderly :
    (b : Bool) (at : Closer) (s t : System)
    → s.closer ≡ at
    → joined_at at s ≡ some t
    → IsOrderly b s
    → IsOrderly b t
unfolding joined_at
joined-IsOrderly b unborn s t e h o = ground (arith, e, h, o)
joined-IsOrderly b waiting s t e h o = ground (arith, e, h, o)
joined-IsOrderly b stopping s t e h o = ground (arith, e, h, o)
joined-IsOrderly b ended s t e h o = ground (arith, e, h, o)

returns-IsOrderly :
    (b : Bool) (at : Closer) (s t : System)
    → s.closer ≡ at
    → returns_at at s ≡ some t
    → IsOrderly b s
    → IsOrderly b t
unfolding returns_at
returns-IsOrderly b unborn s t e h o = ground (arith, e, h, o)
returns-IsOrderly b waiting s t e h o = ground (arith, e, h, o)
returns-IsOrderly b stopping s t e h o = ground (arith, e, h, o)
returns-IsOrderly b ended s t e h o = ground (arith, e, h, o)

done-IsOrderly :
    (b : Bool) (at : Report) (s t : System)
    → s.report ≡ at
    → done_at at s ≡ some t
    → IsOrderly b s
    → IsOrderly b t
unfolding done_at
done-IsOrderly b uncalled s t e h o = ground (arith, e, h, o)
done-IsOrderly b selecting s t e h o = ground (arith, e, h, o)
done-IsOrderly b graceful s t e h o = ground (arith, e, h, o)
done-IsOrderly b timed_out s t e h o = ground (arith, e, h, o)

timeout-IsOrderly :
    (b : Bool) (at : Report) (s t : System)
    → s.report ≡ at
    → timeout_at at s ≡ some t
    → IsOrderly b s
    → IsOrderly b t
unfolding timeout_at
timeout-IsOrderly b uncalled s t e h o = ground (arith, e, h, o)
timeout-IsOrderly b selecting s t e h o = ground (arith, e, h, o)
timeout-IsOrderly b graceful s t e h o = ground (arith, e, h, o)
timeout-IsOrderly b timed_out s t e h o = ground (arith, e, h, o)

step-IsOrderly :
    (b : Bool) (e : Event) (s t : System) → step e s ≡ some t → IsOrderly b s → IsOrderly b t
unfolding step Checker.step
step-IsOrderly b (call_submit id now empty) s t h o = pool-IsOrderly b (submit id now empty) s t h o
step-IsOrderly b (worker_acts w a) s t h o = pool-IsOrderly b (work w a) s t h o
step-IsOrderly b (call_collect j) s t h o = pool-IsOrderly b (collect j) s t h o
step-IsOrderly b (call_go j) s t h o = pool-IsOrderly b (go j) s t h o
step-IsOrderly b (check e) s t h o = check-IsOrderly b e s t h o
step-IsOrderly b call_shutdown s t h o = called-IsOrderly b s t h o
step-IsOrderly b joined s t h o = joined-IsOrderly b s.closer s t refl h o
step-IsOrderly b checker_quits s t h o = elim (Bool-cases s.stop_chan) [
  | inl c ↦ quits-IsOrderly b s.checker.pending s t c (ground (arith, c, h)) o
  | inr c ↦ ground (arith, c, h)
]
step-IsOrderly b stop_returns s t h o = returns-IsOrderly b s.closer s t refl h o
step-IsOrderly b take_done s t h o = done-IsOrderly b s.report s t refl h o
step-IsOrderly b take_timeout s t h o = timeout-IsOrderly b s.report s t refl h o

pub run-IsOrderly :
    (b : Bool) (es : List Event) (s t : System) → run es s ≡ some t → IsOrderly b s → IsOrderly b t
unfolding run
run-IsOrderly b [] s t h o = ground (arith, h, o)
run-IsOrderly b (e ∷ es) s t h o = elim (Option-cases (step e s)) [
  | inl n ↦ ground (arith, n, h)
  | inr (u, g) ↦ run-IsOrderly b es u t (ground (arith, g, h)) (step-IsOrderly b e s u g o)
]

pub start-IsOrderly : (p : Pool) (c : Checker) → IsOrderly c.running (start p c)
unfolding start
start-IsOrderly p c = ground arith
