-- ===== src/Breaker/HalfOpen.antt =====
-- The half-open state: how many trial calls it lets in.
use job_parser.Base.{ℕ, suc, ◌+◌, ◌≤◌, ◌<◌, ◌≡◌, Option, none, some, arith, word}
use job_parser.Base.Error.{Error}
use job_parser.Breaker.{CircuitBreaker, opened, half_open, admit, settle}
use job_parser.Breaker.Invariant.{System}

-- One spell of the half-open state: it begins with the call that finds the timeout of an open
-- breaker passed; then calls are let in while the breaker is half-open, and calls return. The number
-- counts the calls let in.
pub data Spell (s : System) : ℕ → System → Type 0 where
  first :
      (now : ℕ)
      → s.breaker.state ≡ opened
      → (admit now s.breaker).1 ≡ none
      → Spell s 1 (record { breaker = (admit now s.breaker).0; in_flight = s.in_flight + 1 })
  more :
      {n : ℕ} {t : System} (now : ℕ)
      → Spell s n t
      → t.breaker.state ≡ half_open
      → (admit now t.breaker).1 ≡ none
      → Spell s (suc n) (record { breaker = (admit now t.breaker).0; in_flight = t.in_flight + 1 })
  back :
      {n : ℕ} {cb : CircuitBreaker} {m : ℕ} (now : ℕ) (err : Option Error)
      → Spell s n (record { breaker = cb; in_flight = suc m })
      → Spell s n (record { breaker = settle now err cb; in_flight = m })

record Counted (limit n : ℕ) (cb : CircuitBreaker) : Type 0 where
  same : cb.half_open_max_requests ≡ limit
  bound : n ≤ limit + 1
  exact : cb.state ≡ half_open → n ≡ cb.half_open_attempts + 1

first-Counted :
    (cb : CircuitBreaker) (now : ℕ)
    → cb.state ≡ opened
    → (admit now cb).1 ≡ none
    → Counted cb.half_open_max_requests 1 (admit now cb).0
unfolding admit
first-Counted cb now o h = ground arith

more-Counted :
    (cb : CircuitBreaker) (limit n now : ℕ)
    → limit < word
    → cb.state ≡ half_open
    → (admit now cb).1 ≡ none
    → Counted limit n cb
    → Counted limit (suc n) (admit now cb).0
unfolding admit
more-Counted cb limit n now w s h c = ground arith

back-Counted :
    (cb : CircuitBreaker) (limit n now : ℕ) (err : Option Error)
    → Counted limit n cb
    → Counted limit n (settle now err cb)
unfolding settle
back-Counted cb limit n now none c = ground arith
back-Counted cb limit n now (some e) c = ground arith

Spell-Counted :
    {s t : System} {n : ℕ}
    → s.breaker.half_open_max_requests < word
    → Spell s n t
    → Counted s.breaker.half_open_max_requests n t.breaker
Spell-Counted {s} w (first now o h) = first-Counted s.breaker now o h
Spell-Counted {s} w (more {n} {t} now r o h) =
    more-Counted t.breaker _ n now w o h (Spell-Counted w r)
Spell-Counted {s} w (back {n} {cb} {m} now err r) = back-Counted cb _ n now err (Spell-Counted w r)

-- Whatever the interleaving, one spell of the half-open state lets in at most one call more than
-- halfOpenMaxRequests, the one that began it included. The limit is a word.
pub Spell-bound :
    {s t : System} {n : ℕ}
    → s.breaker.half_open_max_requests < word
    → Spell s n t
    → n ≤ s.breaker.half_open_max_requests + 1
Spell-bound w r = (Spell-Counted w r).bound
