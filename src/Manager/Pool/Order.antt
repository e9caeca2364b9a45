-- ===== src/Manager/Pool/Order.antt =====
-- Which jobs the workers take, and in which order.
use job_parser.Base.{
  ℕ, zero, suc, ◌+◌, ◌≤◌, ◌<◌, ◌≡◌, some, List, [], ◌∷◌, ◌++◌, arith, refl, ap, inl, inr, length,
  get_elem?, length-append, Option-cases, ◌⊎◌,
}
use mathlib.Core.Path.{subst}
use mathlib.Core.List.{append_assoc}
use job_parser.Queue.{enqueue}
use job_parser.Manager.Pool.{
  Worker, idle, polling, at_semaphore, busy, completing, Pool, PmLoad, new_pool, Act, look,
  take_job, acquire, expire, finish, send, leave, Event, submit, work, collect, go, shutdown,
  act_at, step, run, look_idle, take_polling, submitted, collects, goes, gone, Ticket, on_ticket,
  expired, completed, sent,
}

-- Numbers that grow, all of them below a bound.
abbrev pub Rises : List ℕ → ℕ → Type 0
Rises [] n = 0 ≤ n
Rises (j ∷ []) n = j < n
Rises (j ∷ k ∷ js) n = (j < k) × Rises (k ∷ js) n

Rises-more : (js : List ℕ) (n m : ℕ) → n ≤ m → Rises js n → Rises js m
Rises-more [] n m l r = omega arith
Rises-more (j ∷ []) n m l r = omega arith
Rises-more (j ∷ k ∷ js) n m l (a, r) = (a, Rises-more (k ∷ js) n m l r)

Rises-append : (js : List ℕ) (n : ℕ) → Rises js n → Rises (js ++ n ∷ []) (n + 1)
Rises-append [] n r = omega arith
Rises-append (j ∷ []) n r = (r, omega arith)
Rises-append (j ∷ k ∷ js) n (a, r) = (a, Rises-append (k ∷ js) n r)

-- What was accepted is what was taken, and then what is queued; and no job was accepted twice.
abbrev IsOrdered : Pool → Type 0
IsOrdered p = (p.accepted ≡ p.taken ++ p.queue.items) × Rises p.accepted (length p.tickets)

pub length-on_ticket :
    (f : Ticket → Ticket) (j : ℕ) (ts : List Ticket) → length (on_ticket f j ts) ≡ length ts
length-on_ticket f j [] = refl
length-on_ticket f zero (t ∷ ts) = refl
length-on_ticket f (suc j) (t ∷ ts) = ap suc (length-on_ticket f j ts)

-- The part of a pool that the order of the jobs depends on stays as it is.
abbrev pub Same : Pool → Pool → Type 0
Same p m =
    (m.accepted ≡ p.accepted)
    × (m.taken ≡ p.taken)
    × (m.queue ≡ p.queue)
    × (length m.tickets ≡ length p.tickets)
    × (m.stop_workers ≡ p.stop_workers)

-- A job goes from the queue to a worker.
pub record Taken (p m : Pool) : Type 0 where
  pub job : ℕ
  pub first : p.queue.items ≡ job ∷ m.queue.items
  pub noted : m.taken ≡ p.taken ++ job ∷ []
  pub others :
      (m.accepted ≡ p.accepted)
      × (length m.tickets ≡ length p.tickets)
      × (m.stop_workers ≡ p.stop_workers)

-- What a worker's act does to the jobs.
abbrev pub Effect : Pool → Pool → Type 0
Effect p m = Same p m ⊎ Taken p m

take-Effect :
    (w : ℕ) (items : List ℕ) (p : Pool) → p.queue.items ≡ items → Effect p (take_polling w p)
unfolding take_polling
take-Effect w [] p e = inl (ground (arith, e))
take-Effect w (j ∷ items) p e = inr (record {
  job = j;
  first = ground (arith, e);
  noted = ground (arith, e);
  others = ground (arith, e);
})

pub act-Effect : (a : Act) (s : Worker) (w : ℕ) (p m : Pool) → act_at a s w p ≡ some m → Effect p m
unfolding act_at look_idle
act-Effect look idle w p m h = inl (ground (arith, h))
act-Effect take_job polling w p m h =
    subst (λ n. Effect p n) (ground arith) (take-Effect w p.queue.items p refl)
act-Effect acquire (at_semaphore j) w p m h = inl (ground arith)
act-Effect expire (at_semaphore j) w p m h =
    inl (ground (arith, length-on_ticket expired j p.tickets))
act-Effect (finish d err) (busy j) w p m h =
    inl (ground (arith, length-on_ticket (completed d err) j p.tickets))
act-Effect send (completing j s) w p m h = inl (ground (arith, length-on_ticket sent j p.tickets))
act-Effect leave (completing j s) w p m h = inl (ground arith)
act-Effect a s w p m h = ground arith

IsOrdered-Effect : (p m : Pool) → Effect p m → IsOrdered p → IsOrdered m
IsOrdered-Effect p m (inl e) (o, r) = ground (arith, e, o, r)
IsOrdered-Effect p m (inr e) (o, r) =
    let split = append_assoc p.taken (e.job ∷ []) m.queue.items in
    (ground (arith, e.others, e.first, e.noted, o, split), ground (arith, e.others, r))

-- A submitted job goes to the end of the queue, or nowhere.
IsOrdered-submitted :
    (t : Ticket) (p m : Pool)
    → submitted t (enqueue (length p.tickets) p.queue) p ≡ some m
    → IsOrdered p
    → IsOrdered m
unfolding submitted enqueue
IsOrdered-submitted t p m h (o, r) =
    let n = length p.tickets in
    let more = Rises-append p.accepted n r in
    let wider = Rises-more p.accepted n (n + 1) (omega arith) r in
    let longer = length-append p.tickets (t ∷ []) in
    let longer_gone = length-append p.tickets (record t { caller = gone } ∷ []) in
    let split = append_assoc p.taken p.queue.items (n ∷ []) in
    (ground (arith, h, o, split), ground (arith, h, r, more, wider, longer, longer_gone))

IsOrdered-step : (e : Event) (p m : Pool) → step e p ≡ some m → IsOrdered p → IsOrdered m
unfolding step
IsOrdered-step (submit id now empty) p m h o = IsOrdered-submitted _ p m h o
IsOrdered-step (work w a) p m h o = elim (Option-cases (get_elem? p.workers w)) [
  | inl n ↦ ground arith
  | inr (s, g) ↦ IsOrdered-Effect p m (act-Effect a s w p m (ground (arith, g, h))) o
]
IsOrdered-step (collect j) p m h o =
    ground (arith, length-on_ticket (λ t. collects t.caller t) j p.tickets)
IsOrdered-step (go j) p m h o = ground (arith, length-on_ticket (λ t. goes t.caller t) j p.tickets)
IsOrdered-step shutdown p m h o = ground arith

IsOrdered-run : (es : List Event) (p m : Pool) → run es p ≡ some m → IsOrdered p → IsOrdered m
unfolding run
IsOrdered-run [] p m h o = ground arith
IsOrdered-run (e ∷ es) p m h o = elim (Option-cases (step e p)) [
  | inl z ↦ ground arith
  | inr (u, z) ↦ IsOrdered-run es u m (ground (arith, z, h)) (IsOrdered-step e p u z o)
]

-- The workers take the accepted jobs in the order of their acceptance, and each at most once: what
-- was taken is a prefix of what was accepted, the queue holds the rest, and the jobs accepted are
-- different ones, as their numbers rise.
pub reachable-IsOrdered :
    (load : PmLoad) (es : List Event) (m : Pool)
    → run es (new_pool load) ≡ some m
    → (m.accepted ≡ m.taken ++ m.queue.items) × Rises m.accepted (length m.tickets)
unfolding new_pool
reachable-IsOrdered load es m h = IsOrdered-run es (new_pool load) m h (refl, omega arith)
