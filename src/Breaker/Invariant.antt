-- ===== src/Breaker/Invariant.antt =====
-- What holds of a breaker under every interleaving of concurrent calls of `Execute`.
use job_parser.Base.{ℕ, suc, ◌+◌, ◌≤◌, ◌<◌, ◌≡◌, Option, none, some, arith, u64, word}
use job_parser.Base.Error.{Error}
use job_parser.Breaker.{
  CircuitBreaker, CircuitBreakerConfig, closed, half_open, new_circut_breaker, admit, settle,
}

-- A breaker and the number of calls that have been let in and have not returned.
pub record System : Type 0 where
  pub breaker : CircuitBreaker
  pub in_flight : ℕ

-- A call passes the first section, is refused by it, or a running call returns.
pub data Step : System → System → Type 0 where
  enter :
      (s : System) (now : ℕ)
      → (admit now s.breaker).1 ≡ none
      → Step s (record { breaker = (admit now s.breaker).0; in_flight = s.in_flight + 1 })
  refuse :
      (s : System) (now : ℕ) (e : Error)
      → (admit now s.breaker).1 ≡ some e
      → Step s (record s { breaker = (admit now s.breaker).0 })
  leave :
      (cb : CircuitBreaker) (n now : ℕ) (err : Option Error)
      → Step
          (record { breaker = cb; in_flight = suc n })
          (record { breaker = settle now err cb; in_flight = n })

pub data Reach (s : System) : System → Type 0 where
  here : Reach s s
  next : {t u : System} → Reach s t → Step t u → Reach s u

pub record IsValid (cb : CircuitBreaker) (n : ℕ) : Type 0 where
  pub failure_positive : 0 < cb.failure_threshold
  pub success_positive : 0 < cb.success_threshold
  pub failure_word : cb.failure_threshold < word
  pub success_word : cb.success_threshold < word
  pub half_open_word : cb.half_open_max_requests < word
  pub failures_below : cb.state ≡ closed → cb.failures < cb.failure_threshold
  pub successes_below : cb.state ≡ half_open → cb.successes < cb.success_threshold
  pub attempts_bounded : cb.state ≡ half_open → cb.half_open_attempts ≤ cb.half_open_max_requests
  pub conserved : cb.total_requests ≡ u64 (cb.total_successes + cb.total_failures + n)

pub admit-IsValid :
    (cb : CircuitBreaker) (n now : ℕ)
    → IsValid cb n
    → (admit now cb).1 ≡ none
    → IsValid (admit now cb).0 (n + 1)
unfolding admit
admit-IsValid cb n now v h = ground arith

pub admit_refused :
    (cb : CircuitBreaker) (now : ℕ) (e : Error) → (admit now cb).1 ≡ some e → (admit now cb).0 ≡ cb
unfolding admit
admit_refused cb now e h = ground arith

pub settle-IsValid :
    (cb : CircuitBreaker) (n now : ℕ) (err : Option Error)
    → IsValid cb (suc n)
    → IsValid (settle now err cb) n
unfolding settle
settle-IsValid cb n now none v = ground arith
settle-IsValid cb n now (some e) v = ground arith

Step-IsValid :
    {s t : System} → Step s t → IsValid s.breaker s.in_flight → IsValid t.breaker t.in_flight
Step-IsValid (enter s now h) v = admit-IsValid s.breaker s.in_flight now v h
Step-IsValid (refuse s now e h) v = rw (admit_refused s.breaker now e h) v
Step-IsValid (leave cb n now err) v = settle-IsValid cb n now err v

pub Reach-IsValid :
    {s t : System} → Reach s t → IsValid s.breaker s.in_flight → IsValid t.breaker t.in_flight
Reach-IsValid here v = v
Reach-IsValid (next r st) v = Step-IsValid st (Reach-IsValid r v)

-- The configured thresholds are `uint` values.
pub record IsWord (config : CircuitBreakerConfig) : Type 0 where
  pub failure_word : config.failure_threshold < word
  pub success_word : config.success_threshold < word
  pub half_open_word : config.half_open_max_requests < word

pub new_circut_breaker-IsValid :
    (config : CircuitBreakerConfig) → IsWord config → IsValid (new_circut_breaker config) 0
unfolding new_circut_breaker
new_circut_breaker-IsValid config v = ground arith

-- From a new breaker, in every state that concurrent calls of Execute can reach in any order: both
-- thresholds are positive words; a closed breaker has counted fewer failures than its threshold; a
-- half-open one has counted fewer successes than its threshold and no more attempts than its limit;
-- and the requests counted are the successes, the failures and the calls in flight, modulo 2 ^ 64.
-- The configured thresholds are words.
pub reachable-IsValid :
    (config : CircuitBreakerConfig) {t : System}
    → IsWord config
    → Reach (record { breaker = new_circut_breaker config; in_flight = 0 }) t
    → IsValid t.breaker t.in_flight
reachable-IsValid config w r = Reach-IsValid r (new_circut_breaker-IsValid config w)
