-- ===== src/Manager/Engine/Laws.antt =====
-- The workers give their callers what the manager's search gives.
use job_parser.Base.{
  ℕ, ◌-◌, ◌≡◌, refl, String, true, Option, none, some, List, [], ◌∷◌, map, get_elem?, arith, inl,
  inr, Option-cases,
}
use job_parser.Base.Error.{Error}
use job_parser.Models.{Any}
use job_parser.Jobs.{JobOutput, output, wait_for_job_search_vacansies_result}
use job_parser.Jobs.Delivery.{succeeded, failed}
use job_parser.Manager.State.{ParsersManager}
use job_parser.Manager.Caching.{Results}
use job_parser.Manager.Search.{Env}
use job_parser.Manager.Worker.{process_search_job, search_vacancies}
use job_parser.Manager.Worker.Laws.{told, delivered}
use job_parser.Manager.Pool
use job_parser.Manager.Pool.{
  Pool, Worker, idle, busy, Ticket, Caller, waiting, served, work, finish, send, leave, collect,
}
use job_parser.Manager.Pool.Freed.{IsOpen, served_worker_freed, failed_caller_told}
use job_parser.Manager.Engine.{Engine, Event, search, other, step, run}

-- Pool events change the pool alone.
step-other :
    (ev : Pool.Event) (e : Engine) (q : Pool)
    → Pool.step ev e.pool ≡ some q
    → step (other ev) e ≡ some (record e { pool = q })
unfolding step
step-other ev e q z = rw (z)

run-next :
    (ev : Event) (es : List Event) (e q : Engine) {o : Option Engine}
    → step ev e ≡ some q
    → run es q ≡ o
    → run (ev ∷ es) e ≡ o
unfolding run
run-next ev es e q h k = rw (h, run) k

step-search :
    (e : Engine) (q : Pool) (w j : ℕ) (env : Env) (start end : ℕ) (pm : ParsersManager)
    (rs : Results) (err : Option Error)
    → get_elem? e.pool.workers w ≡ some (busy j)
    → process_search_job true env start end (e.params_of j) e.manager ≡ some (pm, rs, err)
    → Pool.step (work w (finish (Any.results rs) err)) e.pool ≡ some q
    → step (search w env start end) e ≡ some (record e { manager = pm; pool = q })
unfolding step
step-search e q w j env start end pm rs err g h z = rw (g, h, z)

run-other :
    (es : List Pool.Event) (e : Engine) (m : Pool)
    → Pool.run es e.pool ≡ some m
    → run (map other es) e ≡ some (record e { pool = m })
unfolding run Pool.run
run-other [] e m k = ground (arith, k)
run-other (ev ∷ es) e m k = elim (Option-cases (Pool.step ev e.pool)) [
  | inl z ↦ ground (arith, z, k)
  | inr (q, z) ↦
      run-next (other ev) (map other es) e (record e { pool = q }) (step-other ev e q z)
        (run-other es (record e { pool = q }) m (ground (arith, z, k)))
]

-- A search, and then pool events: the manager that the search leaves, and the pool of the same events
-- after the worker's call of Complete.
run-search :
    (es : List Pool.Event) (e : Engine) (m : Pool) (w j : ℕ) (env : Env) (start end : ℕ)
    (pm : ParsersManager) (rs : Results) (err : Option Error)
    → get_elem? e.pool.workers w ≡ some (busy j)
    → process_search_job true env start end (e.params_of j) e.manager ≡ some (pm, rs, err)
    → Pool.run (work w (finish (Any.results rs) err) ∷ es) e.pool ≡ some m
    → run (search w env start end ∷ map other es) e ≡ some (record e { manager = pm; pool = m })
unfolding run Pool.run step
run-search es e m w j env start end pm rs err g h k =
    elim (Option-cases (Pool.step (work w (finish (Any.results rs) err)) e.pool)) [
      | inl z ↦ ground (arith, z, k)
      | inr (q, z) ↦
          run-next (search w env start end) (map other es) e (record e { manager = pm; pool = q })
            (step-search e q w j env start end pm rs err g h z)
            (run-other es (record e { manager = pm; pool = q }) m (ground (arith, z, k)))
    ]

-- The events after the search of worker `w` for job `j`, the caller's receive among them.
abbrev pub rest : ℕ → ℕ → Option Error → List Pool.Event
rest w j none = work w send ∷ collect j ∷ work w send ∷ work w leave ∷ []
rest w j (some e) = work w send ∷ work w leave ∷ collect j ∷ []

-- The caller of job `j` has an answer, and worker `w` is free.
pub record Answered (w j : ℕ) (p : Pool) (answer : Results × Option Error) : Type 0 where
  pub ticket : Ticket
  pub ticket_eq : get_elem? p.tickets j ≡ some ticket
  pub received : JobOutput
  pub received_eq : ticket.caller ≡ served received
  pub answer_eq : wait_for_job_search_vacansies_result (output received) ≡ answer
  pub free : get_elem? p.workers w ≡ some idle

pool_answers :
    (p : Pool) (w j : ℕ) (t : Ticket) (rs : Results) (err : Option Error)
    → get_elem? p.workers w ≡ some (busy j)
    → get_elem? p.tickets j ≡ some t
    → IsOpen t
    → t.caller ≡ waiting
    → (m : Pool) × (Pool.run (work w (finish (Any.results rs) err) ∷ rest w j err) p ≡ some m)
      × Answered w j m (told rs err)
      × (m.held ≡ p.held - 1)
unfolding wait_for_job_search_vacansies_result
pool_answers p w j t rs none g k o c =
    let (m, r, f, (u, u_eq, s), l) = served_worker_freed p w j t (Any.results rs) g k o c in
    (
      m,
      r,
      record {
        ticket = u;
        ticket_eq = u_eq;
        received = succeeded (Any.results rs);
        received_eq = s;
        answer_eq = refl;
        free = f;
      },
      l,
    )
pool_answers p w j t rs (some e) g k o c =
    let (m, r, f, (u, u_eq, s), l) = failed_caller_told p w j t (Any.results rs) e g k o c in
    (
      m,
      r,
      record {
        ticket = u;
        ticket_eq = u_eq;
        received = failed (Any.results rs) (some e);
        received_eq = s;
        answer_eq = refl;
        free = f;
      },
      l,
    )

-- The workers answer as `search_vacancies` says: take a busy worker with a job that nobody has
-- completed and whose caller waits, and a search on the manager that does not panic. After the
-- worker's search and sends, its return, and the caller's receive, in one of the possible orders, the
-- manager is the one that `search_vacancies` gives for the job's parameters, the caller has its
-- answer, results or error, and the worker is free with one slot less taken.
pub workers_answer :
    (id : String) (n : ℕ) (e : Engine) (w j : ℕ) (t : Ticket) (env : Env) (start end : ℕ)
    (pm : ParsersManager) (rs : Results) (err : Option Error)
    → get_elem? e.pool.workers w ≡ some (busy j)
    → get_elem? e.pool.tickets j ≡ some t
    → IsOpen t
    → t.caller ≡ waiting
    → process_search_job true env start end (e.params_of j) e.manager ≡ some (pm, rs, err)
    → (m : Pool) × (run (search w env start end ∷ map other (rest w j err)) e
        ≡ some (record e { manager = pm; pool = m }))
      × ((answer : Results × Option Error) × Answered w j m answer
          × (search_vacancies id n true env start end (e.params_of j) e.manager
              ≡ some (pm, answer.0, answer.1)))
      × (m.held ≡ e.pool.held - 1)
workers_answer id n e w j t env start end pm rs err g k o c h =
    let (m, r, a, l) = pool_answers e.pool w j t rs err g k o c in
    (
      m,
      run-search (rest w j err) e m w j env start end pm rs err g h r,
      (told rs err, a, delivered id n env start end (e.params_of j) e.manager h),
      l,
    )
