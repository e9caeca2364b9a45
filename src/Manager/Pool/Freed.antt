-- ===== src/Manager/Pool/Freed.antt =====
-- How a worker gets free again.
use job_parser.Base.{
  ℕ, zero, suc, ◌-◌, ◌<◌, ◌≡◌, true, false, Option, none, some, List, [], ◌∷◌, arith, refl, length,
  get_elem?, get_elem?-set_self,
}
use job_parser.Models.{Any}
use job_parser.Base.Error.{Error}
use job_parser.Jobs.{complete, advance, receive}
use job_parser.Jobs.Delivery.{succeeded, failed}
use job_parser.Manager.Pool.{
  Worker, idle, busy, completing, Pool, finish, send, leave, Event, work, collect, act_at, step,
  run, Ticket, waiting, served, on_ticket, completed, sent, collects, put,
}

-- A ticket whose job nobody has completed yet.
abbrev pub IsOpen : Ticket → Type 0
IsOpen t = (t.base.notified ≡ false) × (t.base.result_chan ≡ none) × (t.base.sending ≡ [])

pub get_elem?-on_ticket :
    (f : Ticket → Ticket) (j : ℕ) (ts : List Ticket) (t : Ticket)
    → get_elem? ts j ≡ some t
    → get_elem? (on_ticket f j ts) j ≡ some (f t)
get_elem?-on_ticket f j [] t h = ground (arith, h)
get_elem?-on_ticket f zero (u ∷ ts) t h = ground (arith, h)
get_elem?-on_ticket f (suc j) (u ∷ ts) t h = get_elem?-on_ticket f j ts t h

pub get_elem?-below {ℓ} :
    {A : Type ℓ} (xs : List A) (i : ℕ) (a : A) → get_elem? xs i ≡ some a → i < length xs
get_elem?-below [] i a h = ground (arith, h)
get_elem?-below (x ∷ xs) zero a h = omega arith
get_elem?-below (x ∷ xs) (suc i) a h = omega (arith, get_elem?-below xs i a h)

-- Worker `w` is in state `s`, and the ticket of job `j` is `t`.
abbrev At : Pool → ℕ → Worker → ℕ → Ticket → Type 0
At p w s j t = (get_elem? p.workers w ≡ some s) × (get_elem? p.tickets j ≡ some t)

pub At-finish :
    (p : Pool) (w j : ℕ) (t : Ticket) (d : Any) (err : Option Error)
    → At p w (busy j) j t
    → (m : Pool) × (step (work w (finish d err)) p ≡ some m)
      × At m w (completing j true) j (completed d err t)
      × (m.held ≡ p.held)
unfolding step act_at
At-finish p w j t d err (g, k) = (
  record (put w (completing j true) p) { tickets = on_ticket (completed d err) j p.tickets },
  rw (g),
  (
    get_elem?-set_self p.workers w (completing j true) (get_elem?-below p.workers w (busy j) g),
    get_elem?-on_ticket (completed d err) j p.tickets t k,
  ),
  refl,
)

pub At-send :
    (p : Pool) (w j : ℕ) (t : Ticket)
    → At p w (completing j true) j t
    → (m : Pool) × (step (work w send) p ≡ some m)
      × At m w (completing j true) j (sent t)
      × (m.held ≡ p.held)
unfolding step act_at
At-send p w j t (g, k) = (
  record p { tickets = on_ticket sent j p.tickets },
  rw (g),
  (g, get_elem?-on_ticket sent j p.tickets t k),
  refl,
)

At-collect :
    (p : Pool) (w j : ℕ) (s : Worker) (t : Ticket)
    → At p w s j t
    → (m : Pool) × (step (collect j) p ≡ some m)
      × At m w s j (collects t.caller t)
      × (m.held ≡ p.held)
unfolding step
At-collect p w j s t (g, k) = (
  record p { tickets = on_ticket (λ u. collects u.caller u) j p.tickets },
  refl,
  (g, get_elem?-on_ticket (λ u. collects u.caller u) j p.tickets t k),
  refl,
)

At-leave :
    (p : Pool) (w j : ℕ) (t : Ticket)
    → At p w (completing j true) j t
    → t.base.sending ≡ []
    → (m : Pool) × (step (work w leave) p ≡ some m) × At m w idle j t × (m.held ≡ p.held - 1)
unfolding step act_at
At-leave p w j t (g, k) e = (
  record (put w idle p) { held = p.held - 1 },
  ground (arith, g, k, e),
  (get_elem?-set_self p.workers w idle (get_elem?-below p.workers w (completing j true) g), k),
  refl,
)

pub run-then :
    (e : Event) (es : List Event) (p q : Pool) {o : Option Pool}
    → step e p ≡ some q
    → run es q ≡ o
    → run (e ∷ es) p ≡ o
unfolding run
run-then e es p q h k = rw (h, run) k

pub run-nil : (p : Pool) → run [] p ≡ some p
unfolding run
run-nil p = refl

-- A search that ends without an error, for a caller that waits: the worker's first send, the caller's
-- receive and the worker's second send get the data to the caller, and the worker back to its loop
-- with its slot released.
pub served_worker_freed :
    (p : Pool) (w j : ℕ) (t : Ticket) (d : Any)
    → get_elem? p.workers w ≡ some (busy j)
    → get_elem? p.tickets j ≡ some t
    → IsOpen t
    → t.caller ≡ waiting
    → (m : Pool) × (run
          (work w (finish d none) ∷ work w send ∷ collect j ∷ work w send ∷ work w leave ∷ [])
          p
        ≡ some m)
      × (get_elem? m.workers w ≡ some idle)
      × ((u : Ticket) × (get_elem? m.tickets j ≡ some u) × (u.caller ≡ served (succeeded d)))
      × (m.held ≡ p.held - 1)
unfolding complete advance receive
served_worker_freed p w j t d g k o c =
    let (p1, e1, a1, h1) = At-finish p w j t d none (g, k) in
    let (p2, e2, a2, h2) = At-send p1 w j _ a1 in
    let (p3, e3, a3, h3) = At-collect p2 w j _ _ a2 in
    let (p4, e4, a4, h4) = At-send p3 w j _ a3 in
    let (p5, e5, a5, h5) = At-leave p4 w j _ a4 (ground (arith, o, c)) in
    (
      p5,
      run-then _ _ p p1 e1 (
          run-then _ _ p1 p2 e2
            (run-then _ _ p2 p3 e3 (run-then _ _ p3 p4 e4 (run-then _ _ p4 p5 e5 (run-nil p5))))),
      a5.0,
      (_, a5.1, ground (arith, o, c)),
      omega (arith, h1, h2, h3, h4, h5),
    )

-- A search that ends with an error frees its worker whether or not the caller is still there: after
-- the one send the slot is released, and the error is in the channel for a caller that comes.
pub failed_worker_freed :
    (p : Pool) (w j : ℕ) (t : Ticket) (d : Any) (e : Error)
    → get_elem? p.workers w ≡ some (busy j)
    → get_elem? p.tickets j ≡ some t
    → IsOpen t
    → (m : Pool) × (run (work w (finish d (some e)) ∷ work w send ∷ work w leave ∷ []) p ≡ some m)
      × (get_elem? m.workers w ≡ some idle)
      × ((u : Ticket) × (get_elem? m.tickets j ≡ some u)
          × (u.base.result_chan ≡ some (failed d (some e)))
          × (u.caller ≡ t.caller))
      × (m.held ≡ p.held - 1)
unfolding complete advance
failed_worker_freed p w j t d e g k o =
    let (p1, e1, a1, h1) = At-finish p w j t d (some e) (g, k) in
    let (p2, e2, a2, h2) = At-send p1 w j _ a1 in
    let (p3, e3, a3, h3) = At-leave p2 w j _ a2 (ground (arith, o)) in
    (
      p3,
      run-then _ _ p p1 e1 (run-then _ _ p1 p2 e2 (run-then _ _ p2 p3 e3 (run-nil p3))),
      a3.0,
      (_, a3.1, ground (arith, o), ground (arith, o)),
      omega (arith, h1, h2, h3),
    )

-- The same for a caller that waits: once the worker is free again, its receive gets the error.
pub failed_caller_told :
    (p : Pool) (w j : ℕ) (t : Ticket) (d : Any) (e : Error)
    → get_elem? p.workers w ≡ some (busy j)
    → get_elem? p.tickets j ≡ some t
    → IsOpen t
    → t.caller ≡ waiting
    → (m : Pool) × (run (work w (finish d (some e)) ∷ work w send ∷ work w leave ∷ collect j ∷ []) p
        ≡ some m)
      × (get_elem? m.workers w ≡ some idle)
      × ((u : Ticket) × (get_elem? m.tickets j ≡ some u) × (u.caller ≡ served (failed d (some e))))
      × (m.held ≡ p.held - 1)
unfolding complete advance receive
failed_caller_told p w j t d e g k o c =
    let (p1, e1, a1, h1) = At-finish p w j t d (some e) (g, k) in
    let (p2, e2, a2, h2) = At-send p1 w j _ a1 in
    let (p3, e3, a3, h3) = At-leave p2 w j _ a2 (ground (arith, o)) in
    let (p4, e4, a4, h4) = At-collect p3 w j _ _ a3 in
    (
      p4,
      run-then _ _ p p1 e1
          (run-then _ _ p1 p2 e2 (run-then _ _ p2 p3 e3 (run-then _ _ p3 p4 e4 (run-nil p4)))),
      a4.0,
      (_, a4.1, ground (arith, o, c)),
      omega (arith, h1, h2, h3, h4),
    )
