-- ===== src/Manager/Pool/Slots.antt =====
-- The semaphore of the workers: who holds its slots.
use job_parser.Base.{
  ℕ, zero, suc, ◌+◌, ◌≤◌, ◌≡◌, true, false, some, List, [], ◌∷◌, arith, refl, sym, inl, inr,
  get_elem?, set, replicate, Option-cases,
}
use job_parser.Manager.Pool.{
  Worker, idle, polling, at_semaphore, busy, completing, stopped, Pool, PmLoad, new_pm_load,
  new_pool, Act, look, take_job, acquire, expire, finish, send, leave, Event, submit, work, collect,
  go, shutdown, act_at, step, run, look_idle, take_polling,
}

-- The slots that a worker holds.
abbrev pub slot : Worker → ℕ
slot idle = 0
slot polling = 0
slot (at_semaphore j) = 0
slot (busy j) = 1
slot (completing j true) = 1
slot (completing j false) = 0
slot stopped = 0

abbrev pub slots : List Worker → ℕ
slots [] = 0
slots (s ∷ ws) = slot s + slots ws

slots-set :
    (ws : List Worker) (w : ℕ) (s r : Worker)
    → get_elem? ws w ≡ some s
    → slots (set ws w r) + slot s ≡ slots ws + slot r
slots-set [] w s r h = ground arith
slots-set (x ∷ ws) zero s r h = ground arith
slots-set (x ∷ ws) (suc w) s r h = ground (arith, slots-set ws w s r h)

-- The channel of the semaphore holds as many items as there are slots out, within its capacity.
abbrev pub IsBalanced : ℕ → Pool → Type 0
IsBalanced n p = (p.held ≡ slots p.workers) × (p.held ≤ n) × (p.size ≡ n)

IsBalanced-take :
    {n : ℕ} (w : ℕ) (items : List ℕ) (p m : Pool)
    → get_elem? p.workers w ≡ some polling
    → p.queue.items ≡ items
    → some (take_polling w p) ≡ some m
    → IsBalanced n p
    → IsBalanced n m
unfolding take_polling
IsBalanced-take w [] p m g e h b = ground (arith, slots-set p.workers w polling idle g)
IsBalanced-take w (j ∷ items) p m g e h b =
    ground (arith, slots-set p.workers w polling (at_semaphore j) g)

IsBalanced-act :
    {n : ℕ} (a : Act) (s : Worker) (w : ℕ) (p m : Pool)
    → get_elem? p.workers w ≡ some s
    → act_at a s w p ≡ some m
    → IsBalanced n p
    → IsBalanced n m
unfolding act_at look_idle
IsBalanced-act look idle w p m g h b =
    ground (arith, slots-set p.workers w idle stopped g, slots-set p.workers w idle polling g)
IsBalanced-act take_job polling w p m g h b = IsBalanced-take w p.queue.items p m g refl h b
IsBalanced-act acquire (at_semaphore j) w p m g h b =
    ground (arith, slots-set p.workers w (at_semaphore j) (busy j) g)
IsBalanced-act expire (at_semaphore j) w p m g h b =
    ground (arith, slots-set p.workers w (at_semaphore j) (completing j false) g)
IsBalanced-act (finish d err) (busy j) w p m g h b =
    ground (arith, slots-set p.workers w (busy j) (completing j true) g)
IsBalanced-act send s w p m g h b = ground arith
IsBalanced-act leave (completing j true) w p m g h b =
    ground (arith, slots-set p.workers w (completing j true) idle g)
IsBalanced-act leave (completing j false) w p m g h b =
    ground (arith, slots-set p.workers w (completing j false) idle g)
IsBalanced-act a s w p m g h b = ground arith

pub IsBalanced-step :
    {n : ℕ} (e : Event) (p m : Pool) → step e p ≡ some m → IsBalanced n p → IsBalanced n m
unfolding step
IsBalanced-step (submit id now empty) p m h b = ground arith
IsBalanced-step (work w a) p m h b = elim (Option-cases (get_elem? p.workers w)) [
  | inl n ↦ ground arith
  | inr (s, g) ↦ IsBalanced-act a s w p m g (ground (arith, g, h)) b
]
IsBalanced-step (collect j) p m h b = ground arith
IsBalanced-step (go j) p m h b = ground arith
IsBalanced-step shutdown p m h b = ground arith

pub IsBalanced-run :
    {n : ℕ} (es : List Event) (p m : Pool) → run es p ≡ some m → IsBalanced n p → IsBalanced n m
unfolding run
IsBalanced-run [] p m h b = ground arith
IsBalanced-run (e ∷ es) p m h b = elim (Option-cases (step e p)) [
  | inl z ↦ ground arith
  | inr (u, z) ↦ IsBalanced-run es u m (ground (arith, z, h)) (IsBalanced-step e p u z b)
]

slots-replicate : (n : ℕ) → slots (replicate n idle) ≡ 0
slots-replicate zero = refl
slots-replicate (suc n) = omega (arith, slots-replicate n)

pub new_pool-IsBalanced : (load : PmLoad) → IsBalanced load.semaphore_size (new_pool load)
unfolding new_pool
new_pool-IsBalanced load = (sym (slots-replicate load.num_of_workers), omega arith, refl)

-- In every state that a manager's workers come to: the slots taken are those that the busy workers
-- and the ones on their way out of a search hold, they fit in the semaphore, and the semaphore is
-- smaller than or as large as the number of the workers that NewPMLoad sets.
pub reachable-IsBalanced :
    (cores : ℕ) (es : List Event) (m : Pool)
    → run es (new_pool (new_pm_load cores)) ≡ some m
    → (m.held ≡ slots m.workers) × (m.held ≤ m.size) × (m.size ≤ (new_pm_load cores).num_of_workers)
unfolding new_pm_load
reachable-IsBalanced cores es m h =
    let (s, l, z) = IsBalanced-run es _ m h (new_pool-IsBalanced (new_pm_load cores)) in
    (s, omega arith, omega arith)
