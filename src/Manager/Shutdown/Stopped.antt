-- ===== src/Manager/Shutdown/Stopped.antt =====
-- The workers once they have stopped: what the pool's events leave as it is.
use job_parser.Base.{
  ℕ, zero, suc, ◌≡◌, refl, true, none, some, List, [], ◌∷◌, arith, get_elem?, Option-cases, inl,
  inr,
}
use job_parser.Manager.Pool
use job_parser.Manager.Pool.{
  Pool, Worker, idle, polling, at_semaphore, busy, completing, stopped, Act, look, take_job,
  acquire, expire, finish, send, leave, submit, work, collect, go, shutdown, act_at, look_idle,
  take_polling, submitted, Ticket,
}
use job_parser.Manager.Pool.Stuck.{lost_slots}
use job_parser.Manager.Shutdown.{all_stopped, is_stopped}

stopped_at :
    (ws : List Worker) (w : ℕ) (s : Worker)
    → all_stopped ws ≡ true
    → get_elem? ws w ≡ some s
    → is_stopped s ≡ true
stopped_at [] w s a g = ground (arith, g)
stopped_at (x ∷ ws) zero s a g = ground (arith, a, g)
stopped_at (x ∷ ws) (suc w) s a g = stopped_at ws w s (ground (arith, a)) g

-- A worker past its loop does nothing.
act_stopped :
    (a : Act) (s : Worker) (w : ℕ) (p : Pool) → is_stopped s ≡ true → act_at a s w p ≡ none
unfolding act_at
act_stopped look stopped w p h = refl
act_stopped take_job stopped w p h = refl
act_stopped acquire stopped w p h = refl
act_stopped expire stopped w p h = refl
act_stopped (finish d err) stopped w p h = refl
act_stopped send stopped w p h = refl
act_stopped leave stopped w p h = refl
act_stopped a s w p h = ground (arith, h)

pub stopped_stay :
    (e : Pool.Event) (p m : Pool)
    → Pool.step e p ≡ some m
    → all_stopped p.workers ≡ true
    → all_stopped m.workers ≡ true
unfolding Pool.step submitted
stopped_stay (submit id now empty) p m h a = ground (arith, h, a)
stopped_stay (work w x) p m h a = elim (Option-cases (get_elem? p.workers w)) [
  | inl n ↦ ground (arith, n, h)
  | inr (s, g) ↦ ground (arith, g, h, act_stopped x s w p (stopped_at p.workers w s a g))
]
stopped_stay (collect j) p m h a = ground (arith, h, a)
stopped_stay (go j) p m h a = ground (arith, h, a)
stopped_stay shutdown p m h a = ground (arith, h, a)

pub none_lost : (ts : List Ticket) (ws : List Worker) → all_stopped ws ≡ true → lost_slots ts ws ≡ 0
none_lost ts [] a = refl
none_lost ts (stopped ∷ ws) a = ground (arith, none_lost ts ws a)
none_lost ts (s ∷ ws) a = ground (arith, a)

take_polling-stop_workers :
    (w : ℕ) (items : List ℕ) (p : Pool)
    → p.queue.items ≡ items
    → (take_polling w p).stop_workers ≡ p.stop_workers
unfolding take_polling
take_polling-stop_workers w [] p e = ground (arith, e)
take_polling-stop_workers w (j ∷ items) p e = ground (arith, e)

act-stop_workers :
    (a : Act) (s : Worker) (w : ℕ) (p m : Pool)
    → act_at a s w p ≡ some m
    → m.stop_workers ≡ p.stop_workers
unfolding act_at look_idle
act-stop_workers take_job polling w p m h =
    ground (arith, h, take_polling-stop_workers w p.queue.items p refl)
act-stop_workers a s w p m h = ground (arith, h)

pub stop_stays :
    (e : Pool.Event) (p m : Pool)
    → Pool.step e p ≡ some m
    → p.stop_workers ≡ true
    → m.stop_workers ≡ true
unfolding Pool.step submitted
stop_stays (submit id now empty) p m h a = ground (arith, h, a)
stop_stays (work w x) p m h a = elim (Option-cases (get_elem? p.workers w)) [
  | inl n ↦ ground (arith, n, h)
  | inr (s, g) ↦ ground (arith, g, h, act-stop_workers x s w p m)
]
stop_stays (collect j) p m h a = ground (arith, h, a)
stop_stays (go j) p m h a = ground (arith, h, a)
stop_stays shutdown p m h a = ground (arith, h, a)
