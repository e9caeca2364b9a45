-- ===== src/Manager/Pool/Gone.antt =====
-- A search that ends without an error after its caller has gone.
use job_parser.Base.{
  ℕ, zero, suc, ◌+◌, ◌≤◌, ◌≡◌, true, none, some, List, [], ◌∷◌, arith, get_elem?,
  get_elem?-set_self,
}
use job_parser.Models.{Any}
use job_parser.Jobs.{complete, advance}
use job_parser.Manager.Pool.{
  busy, completing, Pool, finish, send, Event, work, act_at, step, run, Ticket, gone, on_ticket,
  completed, sent, put,
}
use job_parser.Manager.Pool.Stuck.{
  stuck, stuck_at, completed-Keeps, sent-Keeps, on_ticket-Grows, lost_slots-Grows, lost_slots-set,
}
use job_parser.Manager.Pool.Lost.{lost_in, lost_for_good}
use job_parser.Manager.Pool.Freed.{IsOpen, get_elem?-on_ticket, get_elem?-below, run-then, run-nil}

stuck_at-found :
    (ts : List Ticket) (j : ℕ) (t : Ticket)
    → get_elem? ts j ≡ some t
    → stuck_at ts j ≡ stuck t.caller t.base
stuck_at-found [] j t h = ground (arith, h)
stuck_at-found (u ∷ ts) zero t h = ground (arith, h)
stuck_at-found (u ∷ ts) (suc j) t h = stuck_at-found ts j t h

sent-stuck :
    (d : Any) (t : Ticket)
    → IsOpen t
    → t.caller ≡ gone
    → stuck (sent (completed d none t)).caller (sent (completed d none t)).base ≡ true
unfolding complete advance
sent-stuck d t o c = ground (arith, o, c)

-- The pool after the search, and after the first send of Complete.
abbrev finished : ℕ → ℕ → Any → Pool → Pool
finished w j d p = record (put w (completing j true) p) {
  tickets = on_ticket (completed d none) j p.tickets;
}

abbrev sent_once : ℕ → ℕ → Any → Pool → Pool
sent_once w j d p = record (finished w j d p) {
  tickets = on_ticket sent j (finished w j d p).tickets;
}

finish_lem :
    (p : Pool) (w j : ℕ) (d : Any)
    → get_elem? p.workers w ≡ some (busy j)
    → step (work w (finish d none)) p ≡ some (finished w j d p)
unfolding step act_at
finish_lem p w j d g = rw (g)

send_lem :
    (p : Pool) (w j : ℕ)
    → get_elem? p.workers w ≡ some (completing j true)
    → step (work w send) p ≡ some (record p { tickets = on_ticket sent j p.tickets })
unfolding step act_at
send_lem p w j g = rw (g)

run_lem :
    (p : Pool) (w j : ℕ) (d : Any)
    → get_elem? p.workers w ≡ some (busy j)
    → run (work w (finish d none) ∷ work w send ∷ []) p ≡ some (sent_once w j d p)
run_lem p w j d g =
    let found =
      get_elem?-set_self p.workers w (completing j true) (get_elem?-below p.workers w (busy j) g) in
    run-then _ _ p (finished w j d p) (finish_lem p w j d g) (
      run-then _ _ (finished w j d p) (sent_once w j d p) (send_lem (finished w j d p) w j found)
        (run-nil (sent_once w j d p)))

slot_lost :
    (p : Pool) (w j : ℕ) (t : Ticket) (d : Any)
    → get_elem? p.workers w ≡ some (busy j)
    → get_elem? p.tickets j ≡ some t
    → IsOpen t
    → t.caller ≡ gone
    → lost_in p + 1 ≤ lost_in (sent_once w j d p)
slot_lost p w j t d g k o c =
    let ts = on_ticket (completed d none) j p.tickets in
    let us = on_ticket sent j ts in
    let is_stuck = stuck_at-found us j (sent (completed d none t)) (
      get_elem?-on_ticket sent j ts (completed d none t)
        (get_elem?-on_ticket (completed d none) j p.tickets t k)) in
    let grown =
      lost_slots-Grows p.tickets ts p.workers
        (on_ticket-Grows (completed d none) j p.tickets (completed-Keeps d none)) in
    let grown' = lost_slots-Grows ts us p.workers (on_ticket-Grows sent j ts sent-Keeps) in
    let moved = lost_slots-set us p.workers w (busy j) (completing j true) g in
    ground (arith, is_stuck, sent-stuck d t o c, grown, grown', moved)

-- A search that ends without an error for a caller that has gone costs the manager a slot for good:
-- after the worker has finished the job and made its first send, whatever happens then, the slots of
-- workers in a Complete that has a send to make to a full channel, for a caller that has gone, are
-- more than before. Nobody has completed the job before.
pub slot_lost_for_good :
    (es : List Event) (p m n : Pool) (w j : ℕ) (t : Ticket) (d : Any)
    → get_elem? p.workers w ≡ some (busy j)
    → get_elem? p.tickets j ≡ some t
    → IsOpen t
    → t.caller ≡ gone
    → run (work w (finish d none) ∷ work w send ∷ []) p ≡ some m
    → run es m ≡ some n
    → lost_in p + 1 ≤ lost_in n
slot_lost_for_good es p m n w j t d g k o c r q =
    ground (arith, run_lem p w j d g, r, slot_lost p w j t d g k o c, lost_for_good es m n q)
