-- ===== src/Breaker/Tests.antt =====
-- The breaker's theorems at concrete breakers, and runs of the code.
use job_parser.Base.{ℕ, ◌+◌, ◌≤◌, ◌≡◌, refl, none, some, [], ◌∷◌, arith}
use job_parser.Base.Error.{too_many_requests, message}
use job_parser.Breaker.{
  CircuitBreaker, CircuitBreakerConfig, closed, opened, half_open, new_circut_breaker,
  new_circuit_breaker_config, admit, settle, Call, run,
}
use job_parser.Breaker.Invariant.{Step, Reach, IsValid, reachable-IsValid}
use job_parser.Breaker.Trip.{trip}
use job_parser.Breaker.HalfOpen.{Spell, Spell-bound}
use job_parser.Breaker.Recovery.{recovers, starves}

abbrev defaults : CircuitBreakerConfig
defaults = new_circuit_breaker_config 0 0 0 0 0

-- Success threshold 4 over a half-open limit of 2.
abbrev greedy : CircuitBreakerConfig
greedy = new_circuit_breaker_config 1 4 2 10 10

abbrev good : ℕ → Call
good t = record { start = t; finish = t + 1; result = none }

abbrev bad : ℕ → Call
bad t = record { start = t; finish = t + 1; result = some (message "down") }

-- A breaker that opened at the time 100.
abbrev open_breaker : CircuitBreakerConfig → CircuitBreaker
open_breaker config = record {
  failure_threshold = config.failure_threshold;
  success_threshold = config.success_threshold;
  half_open_max_requests = config.half_open_max_requests;
  reset_timeout = config.reset_timeout;
  window_duration = config.window_duration;
  state = opened;
  failures = config.failure_threshold;
  successes = 0;
  last_failure_time = 100;
  half_open_attempts = 0;
  total_requests = config.failure_threshold;
  total_successes = 0;
  total_failures = config.failure_threshold;
}

abbrev tripped : CircuitBreaker
tripped = open_breaker (new_circuit_breaker_config 1 2 1 15 15)

abbrev trying : CircuitBreaker
trying = record tripped { state = half_open }

reachable-IsValid_example : IsValid (settle 5 none (admit 0 (new_circut_breaker defaults)).0) 0
unfolding new_circut_breaker admit
reachable-IsValid_example =
    reachable-IsValid defaults (omega arith)
      (Reach.next (Reach.next Reach.here (Step.enter _ 0 refl)) (Step.leave _ 0 5 none))

abbrev two_failures : CircuitBreaker
two_failures = record tripped { state = closed; failures = 3; failure_threshold = 5 }

trip_example :
    let r = run (bad 0 ∷ bad 10 ∷ []) two_failures 0 in
    (r.0.state ≡ opened)
    × (r.0.last_failure_time ≡ 11)
    × (r.1 ≡ 2)
    × (r.2 ≡ some (message "down") ∷ some (message "down") ∷ [])
trip_example =
    trip 1 (bad 0) (bad 10 ∷ []) two_failures 0 refl refl (omega arith) (omega arith)
      (refl, (refl, tt))

Spell-bound_example : 2 ≤ tripped.half_open_max_requests + 1
unfolding admit
Spell-bound_example =
    Spell-bound {s = record { breaker = tripped; in_flight = 0 }} (omega arith)
      (Spell.more 121 (Spell.first 120 refl refl) refl refl)

recovers_example :
    let r = run (good 120 ∷ good 130 ∷ []) tripped 0 in
    (r.0.state ≡ closed) × (r.0.failures ≡ 0) × (r.1 ≡ 2)
recovers_example =
    recovers (good 120) (good 130 ∷ []) tripped 0 (omega arith) refl (omega arith)
      (refl, (refl, tt)) refl (omega arith)

abbrev greedy_tripped : CircuitBreaker
greedy_tripped = open_breaker greedy

starves_example :
    let r = run (good 120 ∷ good 130 ∷ good 140 ∷ []) greedy_tripped 0 in
    run (good 1000 ∷ []) r.0 r.1 ≡ (r.0, r.1, some too_many_requests ∷ [])
starves_example =
    starves (good 120) (good 130 ∷ good 140 ∷ []) (good 1000 ∷ []) greedy_tripped 0 (omega arith)
      refl (omega arith) (refl, (refl, (refl, tt))) refl (omega arith)

-- With the limit 2 three calls at once pass an open breaker whose timeout has passed.
three_enter :
    let one = admit 200 greedy_tripped in
    let two = admit 201 one.0 in
    let three = admit 202 two.0 in
    (one.1 ≡ none)
    × (two.1 ≡ none)
    × (three.1 ≡ none)
    × ((admit 203 three.0).1 ≡ some too_many_requests)
unfolding admit
three_enter = (refl, refl, refl, refl)
