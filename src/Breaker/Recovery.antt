-- ===== src/Breaker/Recovery.antt =====
-- How the half-open state is left: recovery, starvation, and a trial call that fails.
use mathlib.Core.Path.{subst₂}
use job_parser.Base.{
  ℕ, zero, suc, ◌+◌, ◌-◌, ◌≤◌, ◌<◌, ◌≡◌, refl, sym, some, List, [], ◌∷◌, map, arith, length, All,
  word,
}
use job_parser.Base.Error.{Error, circuit_open, too_many_requests}
use job_parser.Breaker.{CircuitBreaker, closed, opened, half_open, Call, call, run}
use job_parser.Breaker.Trip.{Succeeds, open_refuses}

-- The timeout of an open breaker has passed when the call starts.
abbrev pub IsLate : CircuitBreaker → Call → Type 0
IsLate cb c = cb.reset_timeout ≤ c.start - cb.last_failure_time

-- What a trial call that succeeds leaves, while it is not the last one needed.
record Trying (cb cb' : CircuitBreaker) (attempts successes : ℕ) : Type 0 where
  state_eq : cb'.state ≡ half_open
  attempts_eq : cb'.half_open_attempts ≡ attempts
  successes_eq : cb'.successes ≡ successes
  limit_eq : cb'.half_open_max_requests ≡ cb.half_open_max_requests
  threshold_eq : cb'.success_threshold ≡ cb.success_threshold

pub record HasWords (cb : CircuitBreaker) : Type 0 where
  pub limit_word : cb.half_open_max_requests < word
  pub threshold_word : cb.success_threshold < word

first_success :
    (c : Call) (cb : CircuitBreaker) (ran : ℕ)
    → cb.state ≡ opened
    → IsLate cb c
    → Succeeds c
    → 1 < cb.success_threshold
    → Trying cb (call c cb ran).0 0 1 × ((call c cb ran).1 ≡ ran + 1)
unfolding call
first_success c cb ran o l s h = ground arith

next_success :
    (c : Call) (cb : CircuitBreaker) (ran : ℕ)
    → HasWords cb
    → cb.state ≡ half_open
    → Succeeds c
    → cb.half_open_attempts < cb.half_open_max_requests
    → cb.successes + 1 < cb.success_threshold
    → Trying cb (call c cb ran).0 (cb.half_open_attempts + 1) (cb.successes + 1)
      × ((call c cb ran).1 ≡ ran + 1)
unfolding call
next_success c cb ran w o s h k = ground arith

last_success :
    (c : Call) (cb : CircuitBreaker) (ran : ℕ)
    → HasWords cb
    → cb.state ≡ half_open
    → Succeeds c
    → cb.half_open_attempts < cb.half_open_max_requests
    → cb.successes + 1 ≡ cb.success_threshold
    → ((call c cb ran).0.state ≡ closed)
      × ((call c cb ran).0.failures ≡ 0)
      × ((call c cb ran).1 ≡ ran + 1)
unfolding call
last_success c cb ran w o s h k = ground arith

only_success :
    (c : Call) (cb : CircuitBreaker) (ran : ℕ)
    → cb.state ≡ opened
    → IsLate cb c
    → Succeeds c
    → cb.success_threshold ≡ 1
    → ((call c cb ran).0.state ≡ closed)
      × ((call c cb ran).0.failures ≡ 0)
      × ((call c cb ran).1 ≡ ran + 1)
unfolding call
only_success c cb ran o l s h = ground arith

stuck_after :
    (k : ℕ) (cs : List Call) (cb : CircuitBreaker) (ran : ℕ)
    → HasWords cb
    → cb.state ≡ half_open
    → length cs ≡ k
    → All Succeeds cs
    → cb.half_open_attempts + k ≤ cb.half_open_max_requests
    → cb.successes + k < cb.success_threshold
    → Trying cb (run cs cb ran).0 (cb.half_open_attempts + k) (cb.successes + k)
      × ((run cs cb ran).1 ≡ ran + k)
unfolding run
stuck_after zero [] cb ran w o l s h t = ground arith
stuck_after zero (c ∷ cs) cb ran w o l s h t = absurd (omega arith)
stuck_after (suc k) [] cb ran w o l s h t = absurd (omega arith)
stuck_after (suc k) (c ∷ cs) cb ran w o l (s, ss) h t =
    let (now, ran') = next_success c cb ran w o s (omega arith) (omega arith) in
    ground (
      arith,
      now,
      ran',
      stuck_after k cs (call c cb ran).0 (call c cb ran).1 (ground (arith, now)) now.state_eq
          (omega arith) ss (omega (arith, now)) (omega (arith, now)),
    )

closing :
    (k : ℕ) (c : Call) (cs : List Call) (cb : CircuitBreaker) (ran : ℕ)
    → HasWords cb
    → cb.state ≡ half_open
    → length cs ≡ k
    → All Succeeds (c ∷ cs)
    → cb.half_open_attempts + suc k ≤ cb.half_open_max_requests
    → cb.successes + suc k ≡ cb.success_threshold
    → ((run (c ∷ cs) cb ran).0.state ≡ closed)
      × ((run (c ∷ cs) cb ran).0.failures ≡ 0)
      × ((run (c ∷ cs) cb ran).1 ≡ ran + suc k)
unfolding run
closing zero c [] cb ran w o l (s, ss) h t =
    ground (arith, last_success c cb ran w o s (omega arith) (omega arith))
closing zero c (d ∷ cs) cb ran w o l s h t = absurd (omega arith)
closing (suc k) c [] cb ran w o l s h t = absurd (omega arith)
closing (suc k) c (d ∷ cs) cb ran w o l (s, ss) h t =
    let (now, ran') = next_success c cb ran w o s (omega arith) (omega arith) in
    let (e, f, r) =
      closing k d cs (call c cb ran).0 (call c cb ran).1 (ground (arith, now)) now.state_eq
        (omega arith) ss (omega (arith, now)) (omega (arith, now)) in
    (e, f, omega arith)

-- An open breaker recovers: if its success threshold is at most one more than the half-open limit,
-- then once the timeout has passed, as many successful calls in a row as the threshold says are all
-- run, and leave it closed with no failure counted. The limit and the threshold are words.
pub recovers :
    (c : Call) (cs : List Call) (cb : CircuitBreaker) (ran : ℕ)
    → HasWords cb
    → cb.state ≡ opened
    → IsLate cb c
    → All Succeeds (c ∷ cs)
    → length (c ∷ cs) ≡ cb.success_threshold
    → cb.success_threshold ≤ cb.half_open_max_requests + 1
    → let r = run (c ∷ cs) cb ran in
      (r.0.state ≡ closed) × (r.0.failures ≡ 0) × (r.1 ≡ ran + cb.success_threshold)
unfolding run
recovers c [] cb ran w o l (s, _) n h =
    let (e, f, r) = only_success c cb ran o l s (omega arith) in (e, f, omega arith)
recovers c (d ∷ cs) cb ran w o l (s, ss) n h =
    let (now, ran') = first_success c cb ran o l s (omega arith) in
    let (e, f, r) =
      closing (length cs) d cs (call c cb ran).0 (call c cb ran).1 (ground (arith, now))
        now.state_eq refl ss (omega (arith, now)) (omega (arith, now)) in
    (e, f, omega arith)

call_full :
    (c : Call) (cb : CircuitBreaker) (ran : ℕ)
    → cb.state ≡ half_open
    → cb.half_open_max_requests ≤ cb.half_open_attempts
    → call c cb ran ≡ (cb, ran, some too_many_requests)
unfolding call
call_full c cb ran o h = ground arith

full_refuses :
    (cs : List Call) (cb : CircuitBreaker) (ran : ℕ)
    → cb.state ≡ half_open
    → cb.half_open_max_requests ≤ cb.half_open_attempts
    → run cs cb ran ≡ (cb, ran, map (λ c. some too_many_requests) cs)
unfolding run
full_refuses [] cb ran o h = refl
full_refuses (c ∷ cs) cb ran o h =
    ground (arith, call_full c cb ran o h, full_refuses cs cb ran o h)

-- An open breaker whose success threshold exceeds the half-open limit by two or more never recovers:
-- after the timeout, if the first trial calls all succeed, as many of them as are let in one after
-- another, then every later call, at whatever time, is refused with ErrTooManyRequests without
-- running, and the breaker does not change. The limit and the threshold are words.
pub starves :
    (c : Call) (cs later : List Call) (cb : CircuitBreaker) (ran : ℕ)
    → HasWords cb
    → cb.state ≡ opened
    → IsLate cb c
    → All Succeeds (c ∷ cs)
    → length cs ≡ cb.half_open_max_requests
    → cb.half_open_max_requests + 1 < cb.success_threshold
    → let r = run (c ∷ cs) cb ran in
      run later r.0 r.1 ≡ (r.0, r.1, map (λ d. some too_many_requests) later)
unfolding run
starves c cs later cb ran w o l (s, ss) n h =
    let (now, ran') = first_success c cb ran o l s (omega arith) in
    let (stuck, ran'') =
      stuck_after (length cs) cs (call c cb ran).0 (call c cb ran).1 (ground (arith, now))
        now.state_eq refl ss (omega (arith, now)) (omega (arith, now)) in
    full_refuses later (run cs (call c cb ran).0 (call c cb ran).1).0
      (run cs (call c cb ran).0 (call c cb ran).1).1 stuck.state_eq (omega (arith, now, stuck))

reopened :
    (c : Call) (cb : CircuitBreaker) (ran : ℕ) {e : Error}
    → cb.state ≡ half_open
    → cb.half_open_attempts < cb.half_open_max_requests
    → c.result ≡ some e
    → let r = call c cb ran in
      (r.0.state ≡ opened)
      × (r.0.last_failure_time ≡ c.finish)
      × (r.0.reset_timeout ≡ cb.reset_timeout)
      × (r.1 ≡ ran + 1)
      × (r.2 ≡ some e)
unfolding call
reopened c cb ran o h f = ground arith

-- A trial call that fails opens a half-open breaker again, from the time at which the call returned;
-- so until the reset timeout has passed once more, no call runs and each returns ErrCircuitOpen. The
-- trial call is let in: the attempts are below the limit.
pub failed_trial :
    (c : Call) (cs : List Call) (cb : CircuitBreaker) (ran : ℕ) {e : Error}
    → cb.state ≡ half_open
    → cb.half_open_attempts < cb.half_open_max_requests
    → c.result ≡ some e
    → All (λ d. d.start - c.finish < cb.reset_timeout) cs
    → let r = run (c ∷ cs) cb ran in
      (r.0.state ≡ opened)
      × (r.0.last_failure_time ≡ c.finish)
      × (r.1 ≡ ran + 1)
      × (r.2 ≡ some e ∷ map (λ d. some circuit_open) cs)
unfolding run
failed_trial c cs cb ran {e} o h f early =
    let (o', t, w, ran', err) = reopened c cb ran o h f in
    let early' = subst₂ (λ t w. All (λ (d : Call). d.start - t < w) cs) (sym t) (sym w) early in
    ground (arith, open_refuses cs (call c cb ran).0 (call c cb ran).1 o' early')
