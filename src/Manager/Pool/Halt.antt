-- ===== src/Manager/Pool/Halt.antt =====
-- Which jobs the workers still take after Shutdown.
use job_parser.Base.{
  ℕ, zero, suc, ◌+◌, ◌≤◌, ◌≡◌, true, false, some, List, [], ◌∷◌, ◌++◌, arith, refl, sym, ◌∙◌, ap,
  inl, inr, length, get_elem?, set, length-append, Option-cases, ◌⊎◌,
}
use mathlib.Core.List.{append_assoc, append-nil}
use job_parser.Queue.{enqueue}
use job_parser.Manager.Pool.{
  Worker, idle, polling, at_semaphore, busy, completing, stopped, Pool, Act, look, take_job,
  acquire, expire, finish, send, leave, Event, submit, work, collect, go, shutdown, act_at, step,
  run, look_idle, take_polling, submitted,
}
use job_parser.Manager.Pool.Order.{Effect, act-Effect}

-- The workers in the `default` of their `select`, before Dequeue.
abbrev pub poll : Worker → ℕ
poll idle = 0
poll polling = 1
poll (at_semaphore j) = 0
poll (busy j) = 0
poll (completing j s) = 0
poll stopped = 0

abbrev pub pollers : List Worker → ℕ
pollers [] = 0
pollers (s ∷ ws) = poll s + pollers ws

pollers-set :
    (ws : List Worker) (w : ℕ) (s r : Worker)
    → get_elem? ws w ≡ some s
    → pollers (set ws w r) + poll s ≡ pollers ws + poll r
pollers-set [] w s r h = ground arith
pollers-set (x ∷ ws) zero s r h = ground arith
pollers-set (x ∷ ws) (suc w) s r h = ground (arith, pollers-set ws w s r h)

-- The jobs taken so far and those that the workers may still take.
abbrev budget : Pool → ℕ
budget p = pollers p.workers + length p.taken

budget-take :
    (w : ℕ) (items : List ℕ) (p : Pool)
    → p.queue.items ≡ items
    → get_elem? p.workers w ≡ some polling
    → budget (take_polling w p) ≤ budget p
unfolding take_polling
budget-take w [] p e g = ground (arith, e, pollers-set p.workers w polling idle g)
budget-take w (j ∷ items) p e g =
    ground
      (arith, e, pollers-set p.workers w polling (at_semaphore j) g, length-append p.taken (j ∷ []))

budget-act :
    (a : Act) (s : Worker) (w : ℕ) (p m : Pool)
    → get_elem? p.workers w ≡ some s
    → act_at a s w p ≡ some m
    → p.stop_workers ≡ true
    → budget m ≤ budget p
unfolding act_at look_idle
budget-act look idle w p m g h c = ground (arith, h, c, pollers-set p.workers w idle stopped g)
budget-act take_job polling w p m g h c = ground (arith, h, budget-take w p.queue.items p refl g)
budget-act acquire (at_semaphore j) w p m g h c =
    ground (arith, h, pollers-set p.workers w (at_semaphore j) (busy j) g)
budget-act expire (at_semaphore j) w p m g h c =
    ground (arith, h, pollers-set p.workers w (at_semaphore j) (completing j false) g)
budget-act (finish d err) (busy j) w p m g h c =
    ground (arith, h, pollers-set p.workers w (busy j) (completing j true) g)
budget-act send (completing j s) w p m g h c = ground (arith, h)
budget-act leave (completing j s) w p m g h c =
    ground (arith, h, pollers-set p.workers w (completing j s) idle g)
budget-act a s w p m g h c = ground arith

-- The jobs that are taken come from the front of the queue; others may come to its end.
record Left (p m : Pool) : Type 0 where
  halted : m.stop_workers ≡ true
  bound : budget m ≤ budget p
  got : List ℕ
  noted : m.taken ≡ p.taken ++ got
  later : List ℕ
  split : p.queue.items ++ later ≡ got ++ m.queue.items

Left-same :
    (p m : Pool)
    → p.stop_workers ≡ true
    → m.stop_workers ≡ p.stop_workers
    → budget m ≤ budget p
    → m.taken ≡ p.taken
    → (m.queue.items ≡ p.queue.items) ⊎ (m.queue.items ≡ p.queue.items ++ length p.tickets ∷ [])
    → Left p m
Left-same p m s c b k (inl q) = record {
  halted = c ∙ s;
  bound = b;
  got = [];
  noted = k ∙ sym (append-nil p.taken);
  later = [];
  split = append-nil p.queue.items ∙ sym q;
}
Left-same p m s c b k (inr q) = record {
  halted = c ∙ s;
  bound = b;
  got = [];
  noted = k ∙ sym (append-nil p.taken);
  later = length p.tickets ∷ [];
  split = sym q;
}

Left-Effect : (p m : Pool) → Effect p m → p.stop_workers ≡ true → budget m ≤ budget p → Left p m
Left-Effect p m (inl (a, k, q, l, c)) s b = Left-same p m s c b k (inl (ap (λ q. q.items) q))
Left-Effect p m (inr e) s b = record {
  halted = e.others.2 ∙ s;
  bound = b;
  got = e.job ∷ [];
  noted = e.noted;
  later = [];
  split = append-nil p.queue.items ∙ e.first;
}

Left-step : (e : Event) (p m : Pool) → step e p ≡ some m → p.stop_workers ≡ true → Left p m
unfolding step submitted enqueue
Left-step (submit id now empty) p m h s =
    Left-same p m s (ground (arith, h)) (ground (arith, h)) (ground (arith, h)) (ground (arith, h))
Left-step (work w a) p m h s = elim (Option-cases (get_elem? p.workers w)) [
  | inl n ↦ ground arith
  | inr (x, g) ↦
      let acted : act_at a x w p ≡ some m = ground (arith, g, h) in
      Left-Effect p m (act-Effect a x w p m acted) s (budget-act a x w p m g acted s)
]
Left-step (collect j) p m h s =
    Left-same p m s (ground (arith, h)) (ground (arith, h)) (ground (arith, h))
      (inl (ground (arith, h)))
Left-step (go j) p m h s =
    Left-same p m s (ground (arith, h)) (ground (arith, h)) (ground (arith, h))
      (inl (ground (arith, h)))
Left-step shutdown p m h s = ground arith

Left-then : (p q m : Pool) → Left p q → Left q m → Left p m
Left-then p q m a b = record {
  halted = b.halted;
  bound = omega (arith, a.bound, b.bound);
  got = a.got ++ b.got;
  noted = b.noted ∙ ap (λ xs. xs ++ b.got) a.noted ∙ append_assoc p.taken a.got b.got;
  later = a.later ++ b.later;
  split =
      sym (append_assoc p.queue.items a.later b.later)
      ∙ ap (λ xs. xs ++ b.later) a.split
      ∙ append_assoc a.got q.queue.items b.later
      ∙ ap (◌++◌ a.got) b.split
      ∙ sym (append_assoc a.got b.got m.queue.items);
}

Left-run : (es : List Event) (p m : Pool) → run es p ≡ some m → p.stop_workers ≡ true → Left p m
unfolding run
Left-run [] p m h s =
    Left-same p m s (ground (arith, h)) (ground (arith, h)) (ground (arith, h))
      (inl (ground (arith, h)))
Left-run (e ∷ es) p m h s = elim (Option-cases (step e p)) [
  | inl z ↦ ground arith
  | inr (u, z) ↦
      let l = Left-step e p u z s in
      Left-then p u m l (Left-run es u m (ground (arith, z, h)) l.halted)
]

-- After Shutdown no more jobs are taken than there were workers past the test of `stopWorkers` and
-- before Dequeue, whatever happens then: these jobs, `got`, are the first of the queue, the others in
-- it stay there, in their order, and only later ones come after them.
pub queued_at_shutdown_left :
    (es : List Event) (p m : Pool)
    → p.stop_workers ≡ true
    → run es p ≡ some m
    → (got : List ℕ) × (later : List ℕ) × (m.taken ≡ p.taken ++ got)
      × (length got ≤ pollers p.workers)
      × (p.queue.items ++ later ≡ got ++ m.queue.items)
queued_at_shutdown_left es p m s h =
    let l = Left-run es p m h s in
    let lengths = ap length l.noted ∙ length-append p.taken l.got in
    (l.got, l.later, l.noted, omega (arith, l.bound, lengths), l.split)
