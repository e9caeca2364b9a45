-- ===== src/Breaker.antt =====
-- The circuit breaker: parser/internal/circuitbreaker (breaker.go, breaker_config.go,
-- breaker_methods.go). A method that changes the receiver returns the new record; the clock is an
-- argument; `uint` counters wrap at 2 ^ 64. `Execute` is the two critical sections `admit` and
-- `settle` round the call of its argument, so that several calls can be between the two at once.
pub mod Invariant
pub mod Trip
pub mod HalfOpen
pub mod Recovery
mod Tests
use job_parser.Base.{
  ℕ, ◌+◌, ◌-◌, ◌*◌, Option, none, some, ltb, leb, ◌==◌, if◌then◌else◌, u64, List, [], ◌∷◌,
}
use job_parser.Base.Error.{Error, circuit_open, too_many_requests}

pub data State : Type 0 where
  closed opened half_open : State

pub record CircuitBreakerConfig : Type 0 where
  pub failure_threshold : ℕ
  pub success_threshold : ℕ
  pub half_open_max_requests : ℕ
  pub reset_timeout : ℕ
  pub window_duration : ℕ

pub record CircuitBreaker : Type 0 where
  pub failure_threshold : ℕ
  pub success_threshold : ℕ
  pub half_open_max_requests : ℕ
  pub reset_timeout : ℕ
  pub window_duration : ℕ
  pub state : State
  pub failures : ℕ
  pub successes : ℕ
  pub last_failure_time : ℕ
  pub half_open_attempts : ℕ
  pub total_requests : ℕ
  pub total_successes : ℕ
  pub total_failures : ℕ

-- `time.Second`, in nanoseconds.
abbrev pub second : ℕ
second = 1_000_000_000

abbrev pub new_circuit_breaker_config : ℕ → ℕ → ℕ → ℕ → ℕ → CircuitBreakerConfig
new_circuit_breaker_config f s half reset window = record {
  failure_threshold = f;
  success_threshold = s;
  half_open_max_requests = half;
  reset_timeout = reset;
  window_duration = window;
}

abbrev or_default : ℕ → ℕ → ℕ
or_default n d = if n == 0 then d else n

unfoldable pub new_circut_breaker : CircuitBreakerConfig → CircuitBreaker
new_circut_breaker config = record {
  failure_threshold = or_default config.failure_threshold 5;
  success_threshold = or_default config.success_threshold 3;
  half_open_max_requests = or_default config.half_open_max_requests 2;
  reset_timeout = or_default config.reset_timeout (10 * second);
  window_duration = or_default config.window_duration (10 * second);
  state = closed;
  failures = 0;
  successes = 0;
  last_failure_time = 0;
  half_open_attempts = 0;
  total_requests = 0;
  total_successes = 0;
  total_failures = 0;
}

-- `cb.totalRequests++`
count_request : CircuitBreaker → CircuitBreaker
count_request cb = record cb { total_requests = u64 (cb.total_requests + 1) }

-- The `switch` before the call; a result `some e` is an early return, without the call.
admit_in : State → ℕ → CircuitBreaker → CircuitBreaker × Option Error
unfolding count_request
admit_in closed now cb = (count_request cb, none)
admit_in opened now cb =
    if ltb (now - cb.last_failure_time) cb.reset_timeout then (cb, some circuit_open) else (
      count_request (record cb { state = half_open; half_open_attempts = 0; successes = 0 }),
      none,
    )
admit_in half_open now cb =
    if leb cb.half_open_max_requests cb.half_open_attempts
    then (cb, some too_many_requests)
    else (count_request (record cb { half_open_attempts = u64 (cb.half_open_attempts + 1) }), none)

-- The first critical section of `Execute`, at the time `now`.
unfoldable pub admit : ℕ → CircuitBreaker → CircuitBreaker × Option Error
unfolding admit_in
admit now cb = admit_in cb.state now cb

on_failure_in : State → ℕ → CircuitBreaker → CircuitBreaker
on_failure_in closed now cb =
    let n = u64 (cb.failures + 1) in
    if leb cb.failure_threshold n
    then record cb { failures = n; state = opened; last_failure_time = now }
    else record cb { failures = n }
on_failure_in opened now cb = cb
on_failure_in half_open now cb = record cb {
  state = opened;
  last_failure_time = now;
  half_open_attempts = 0;
}

unfoldable pub on_failure : ℕ → CircuitBreaker → CircuitBreaker
unfolding on_failure_in
on_failure now cb = on_failure_in cb.state now cb

on_success_in : State → CircuitBreaker → CircuitBreaker
on_success_in closed cb = record cb { failures = 0 }
on_success_in opened cb = cb
on_success_in half_open cb =
    let n = u64 (cb.successes + 1) in
    if leb cb.success_threshold n
    then record cb { state = closed; failures = 0; successes = 0; half_open_attempts = 0 }
    else record cb { successes = n }

unfoldable pub on_success : CircuitBreaker → CircuitBreaker
unfolding on_success_in
on_success cb = on_success_in cb.state cb

-- The second critical section of `Execute`: the call returned `err` at the time `now`.
unfoldable pub settle : ℕ → Option Error → CircuitBreaker → CircuitBreaker
unfolding on_failure on_success
settle now (some e) cb = on_failure now (record cb { total_failures = u64 (cb.total_failures + 1) })
settle now none cb = on_success (record cb { total_successes = u64 (cb.total_successes + 1) })

-- `Execute(fn)` with nobody else between its two sections: `fn` acts on the world `S`, and the two
-- sections run at the times `start` and `finish`.
unfoldable pub execute {ℓ} :
    {S : Type ℓ}
    → ℕ
    → ℕ
    → (S → S × Option Error)
    → CircuitBreaker
    → S
    → CircuitBreaker × S × Option Error
unfolding admit settle
execute start finish fn cb s =
    let (cb', refused) = admit start cb in
    elim refused [
      | some e ↦ (cb', s, some e)
      | none ↦ let (s', err) = fn s in (settle finish err cb', s', err)
    ]

-- `getState`
abbrev pub get_state : CircuitBreaker → State
get_state cb = cb.state

-- `GetStats`
abbrev pub get_stats : CircuitBreaker → ℕ × ℕ × ℕ
get_stats cb = (cb.total_requests, cb.total_successes, cb.total_failures)

-- One call of `Execute` as its environment shapes it: the two times, and what `fn` returns.
pub record Call : Type 0 where
  pub start : ℕ
  pub finish : ℕ
  pub result : Option Error

-- A call whose world is the number of times that `fn` ran.
unfoldable pub call : Call → CircuitBreaker → ℕ → CircuitBreaker × ℕ × Option Error
unfolding execute
call c cb ran = execute c.start c.finish (λ n. (n + 1, c.result)) cb ran

-- Calls one after another: the breaker at the end, how often `fn` ran, and what was returned.
unfoldable pub run : List Call → CircuitBreaker → ℕ → CircuitBreaker × ℕ × List (Option Error)
unfolding call
run [] cb ran = (cb, ran, [])
run (c ∷ cs) cb ran =
    let (cb', ran', err) = call c cb ran in
    let (cb'', ran'', errs) = run cs cb' ran' in (cb'', ran'', err ∷ errs)
