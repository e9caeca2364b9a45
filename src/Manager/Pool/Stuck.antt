-- ===== src/Manager/Pool/Stuck.antt =====
-- A job whose caller has gone before its output came stays as it is, and so does the worker in its
-- Complete.
use job_parser.Base.{
  ℕ, zero, suc, ◌+◌, ◌≤◌, ◌≡◌, Bool, true, false, ◌&&◌, not, Option, some, List, [], ◌∷◌, ◌++◌,
  arith, refl, inl, inr, get_elem?, set, is_some, Bool-cases, if◌then◌else◌,
}
use job_parser.Models.{Any}
use job_parser.Base.Error.{Error}
use job_parser.Jobs.{BaseJob, complete, advance}
use job_parser.Manager.Pool.{
  Worker, idle, polling, at_semaphore, busy, completing, stopped, Ticket, Caller, waiting, served,
  gone, on_ticket, expired, completed, sent, collects, goes, is_nil, is_sent,
}
use job_parser.Manager.Pool.Slots.{slots}

-- The caller has gone, and the goroutine of Complete has a send to make to a full channel.
abbrev pub stuck : Caller → BaseJob → Bool
stuck waiting b = false
stuck (served o) b = false
stuck gone b = b.notified && is_some b.result_chan && not (is_nil b.sending)

abbrev pub stuck_at : List Ticket → ℕ → Bool
stuck_at [] j = false
stuck_at (t ∷ ts) zero = stuck t.caller t.base
stuck_at (t ∷ ts) (suc j) = stuck_at ts j

-- The slots that are held by a worker in the Complete of such a job.
abbrev pub lost : List Ticket → Worker → ℕ
lost ts idle = 0
lost ts polling = 0
lost ts (at_semaphore j) = 0
lost ts (busy j) = 0
lost ts (completing j true) = if stuck_at ts j then 1 else 0
lost ts (completing j false) = 0
lost ts stopped = 0

abbrev pub lost_slots : List Ticket → List Worker → ℕ
lost_slots ts [] = 0
lost_slots ts (s ∷ ws) = lost ts s + lost_slots ts ws

-- A ticket that stays stuck.
abbrev pub Keeps : (Ticket → Ticket) → Type 0
Keeps f = (t : Ticket) → stuck t.caller t.base ≡ true → stuck (f t).caller (f t).base ≡ true

pub completed-Keeps : (d : Any) (err : Option Error) → Keeps (completed d err)
unfolding complete
completed-Keeps d err t h = ground (arith, h)

pub expired-Keeps : Keeps expired
expired-Keeps t h = completed-Keeps t.empty _ t h

pub sent-Keeps : Keeps sent
unfolding advance
sent-Keeps t h = ground (arith, h)

pub collects-Keeps : Keeps (λ t. collects t.caller t)
collects-Keeps t h = ground (arith, h)

pub goes-Keeps : Keeps (λ t. goes t.caller t)
goes-Keeps t h = ground (arith, h)

abbrev pub Grows : List Ticket → List Ticket → Type 0
Grows ts us = (j : ℕ) → stuck_at ts j ≡ true → stuck_at us j ≡ true

pub on_ticket-Grows :
    (f : Ticket → Ticket) (k : ℕ) (ts : List Ticket) → Keeps f → Grows ts (on_ticket f k ts)
on_ticket-Grows f k [] s j h = h
on_ticket-Grows f zero (t ∷ ts) s zero h = s t h
on_ticket-Grows f zero (t ∷ ts) s (suc j) h = h
on_ticket-Grows f (suc k) (t ∷ ts) s zero h = h
on_ticket-Grows f (suc k) (t ∷ ts) s (suc j) h = on_ticket-Grows f k ts s j h

pub append-Grows : (ts us : List Ticket) → Grows ts (ts ++ us)
append-Grows [] us j h = ground (arith, h)
append-Grows (t ∷ ts) us zero h = h
append-Grows (t ∷ ts) us (suc j) h = append-Grows ts us j h

pub lost-Grows : (ts us : List Ticket) (s : Worker) → Grows ts us → lost ts s ≤ lost us s
lost-Grows ts us (completing j true) g = elim (Bool-cases (stuck_at ts j)) [
  | inl y ↦ ground (arith, y, g j y)
  | inr n ↦ ground (arith, n)
]
lost-Grows ts us s g = ground arith

pub lost_slots-Grows :
    (ts us : List Ticket) (ws : List Worker) → Grows ts us → lost_slots ts ws ≤ lost_slots us ws
lost_slots-Grows ts us [] g = omega arith
lost_slots-Grows ts us (s ∷ ws) g = omega (arith, lost-Grows ts us s g, lost_slots-Grows ts us ws g)

pub lost_slots-set :
    (ts : List Ticket) (ws : List Worker) (w : ℕ) (s r : Worker)
    → get_elem? ws w ≡ some s
    → lost_slots ts (set ws w r) + lost ts s ≡ lost_slots ts ws + lost ts r
lost_slots-set ts [] w s r h = ground arith
lost_slots-set ts (x ∷ ws) zero s r h = ground arith
lost_slots-set ts (x ∷ ws) (suc w) s r h = ground (arith, lost_slots-set ts ws w s r h)

pub lost-slots : (ts : List Ticket) (ws : List Worker) → lost_slots ts ws ≤ slots ws
lost-slots ts [] = omega arith
lost-slots ts (completing j true ∷ ws) = ground (arith, lost-slots ts ws)
lost-slots ts (s ∷ ws) = ground (arith, lost-slots ts ws)

pub not_sent : (ts : List Ticket) (j : ℕ) → is_sent (get_elem? ts j) ≡ true → stuck_at ts j ≡ false
not_sent [] j h = refl
not_sent (t ∷ ts) zero h = ground (arith, h)
not_sent (t ∷ ts) (suc j) h = not_sent ts j h
