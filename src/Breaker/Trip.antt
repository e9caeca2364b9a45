-- ===== src/Breaker/Trip.antt =====
-- How a closed breaker opens, and what an open one does.
use job_parser.Base.{
  ℕ, zero, suc, ◌+◌, ◌-◌, ◌<◌, ◌≡◌, refl, true, Option, none, some, List, [], ◌∷◌, map, arith,
  length, All, is_some, word,
}
use mathlib.Core.Path.{ap₂}
use job_parser.Base.Error.{Error, circuit_open}
use job_parser.Breaker.{CircuitBreaker, closed, opened, Call, call, run}

abbrev pub Fails : Call → Type 0
Fails c = is_some c.result ≡ true

abbrev pub Succeeds : Call → Type 0
Succeeds c = c.result ≡ none

abbrev pub IsEarly : CircuitBreaker → Call → Type 0
IsEarly cb c = c.start - cb.last_failure_time < cb.reset_timeout

call_early :
    (c : Call) (cb : CircuitBreaker) (ran : ℕ)
    → cb.state ≡ opened
    → IsEarly cb c
    → call c cb ran ≡ (cb, ran, some circuit_open)
unfolding call
call_early c cb ran o h = ground arith

-- While an open breaker's reset timeout has not passed, no call of Execute runs its function, each
-- returns ErrCircuitOpen, and the breaker does not change.
pub open_refuses :
    (cs : List Call) (cb : CircuitBreaker) (ran : ℕ)
    → cb.state ≡ opened
    → All (IsEarly cb) cs
    → run cs cb ran ≡ (cb, ran, map (λ c. some circuit_open) cs)
unfolding run
open_refuses [] cb ran o h = refl
open_refuses (c ∷ cs) cb ran o (e, h) =
    ground (arith, call_early c cb ran o e, open_refuses cs cb ran o h)

call_below :
    (c : Call) (cb : CircuitBreaker) (ran : ℕ)
    → cb.state ≡ closed
    → Fails c
    → cb.failures + 1 < cb.failure_threshold
    → cb.failure_threshold < word
    → let r = call c cb ran in
      (r.0.state ≡ closed)
      × (r.0.failures ≡ cb.failures + 1)
      × (r.0.failure_threshold ≡ cb.failure_threshold)
      × (r.1 ≡ ran + 1)
      × (r.2 ≡ c.result)
unfolding call
call_below c cb ran s f h w = ground arith

call_at_limit :
    (c : Call) (cb : CircuitBreaker) (ran : ℕ)
    → cb.state ≡ closed
    → Fails c
    → cb.failures + 1 ≡ cb.failure_threshold
    → cb.failure_threshold < word
    → let r = call c cb ran in
      (r.0.state ≡ opened) × (r.0.last_failure_time ≡ c.finish) × (r.1 ≡ ran + 1) × (r.2 ≡ c.result)
unfolding call
call_at_limit c cb ran s f h w = ground arith

-- The finishing time of the last call.
abbrev pub last_finish : ℕ → List Call → ℕ
last_finish t [] = t
last_finish t (c ∷ cs) = last_finish c.finish cs

-- A closed breaker opens exactly at the failure that fills its threshold: with `k` failures still
-- missing, `k` failing calls in a row all run, return their own errors and leave it open from the
-- time at which the last of them returned. The threshold is a word.
pub trip :
    (k : ℕ) (c : Call) (cs : List Call) (cb : CircuitBreaker) (ran : ℕ)
    → cb.state ≡ closed
    → length cs ≡ k
    → cb.failures + suc k ≡ cb.failure_threshold
    → cb.failure_threshold < word
    → All Fails (c ∷ cs)
    → let r = run (c ∷ cs) cb ran in
      (r.0.state ≡ opened)
      × (r.0.last_failure_time ≡ last_finish c.finish cs)
      × (r.1 ≡ ran + length (c ∷ cs))
      × (r.2 ≡ map (λ d. d.result) (c ∷ cs))
unfolding run
trip zero c [] cb ran s l h w (f, _) = ground (arith, call_at_limit c cb ran s f (omega arith) w)
trip zero c (d ∷ cs) cb ran s l h w f = absurd (omega arith)
trip (suc k) c [] cb ran s l h w f = absurd (omega arith)
trip (suc k) c (d ∷ cs) cb ran s l h w (f, g) =
    let (s', n', t', r', e') = call_below c cb ran s f (omega arith) w in
    let (o, last, ran', errs) =
      trip k d cs (call c cb ran).0 (call c cb ran).1 s' (omega arith) (omega arith) (omega arith)
        g in
    (o, last, omega arith, ap₂ ◌∷◌ e' errs)

-- The longest row of failures, given the row at hand.
abbrev after_call : ℕ → Option Error → ℕ
after_call n none = 0
after_call n (some e) = suc n

-- No row of failures reaches `limit`, where `n` failures stand before the calls.
abbrev pub IsShort : ℕ → ℕ → List Call → Type 0
IsShort limit n [] = Unit
IsShort limit n (c ∷ cs) =
    (after_call n c.result < limit) × IsShort limit (after_call n c.result) cs

call_short :
    (c : Call) (cb : CircuitBreaker) (ran limit : ℕ) {n : ℕ}
    → cb.state ≡ closed
    → cb.failures ≡ n
    → cb.failure_threshold ≡ limit
    → limit < word
    → after_call n c.result < limit
    → let r = call c cb ran in
      (r.0.state ≡ closed)
      × (r.0.failures ≡ after_call n c.result)
      × (r.0.failure_threshold ≡ limit)
      × (r.1 ≡ ran + 1)
unfolding call
call_short c cb ran limit s f t w h = ground arith

-- A closed breaker stays closed, and runs every call, as long as no row of failures, counted from
-- those that it has already counted, reaches its threshold. The threshold is a word.
stays_closed :
    (cs : List Call) (cb : CircuitBreaker) (ran n limit : ℕ)
    → cb.state ≡ closed
    → cb.failures ≡ n
    → cb.failure_threshold ≡ limit
    → limit < word
    → IsShort limit n cs
    → let r = run cs cb ran in (r.0.state ≡ closed) × (r.1 ≡ ran + length cs)
unfolding run
stays_closed [] cb ran n limit s f t w h = (s, omega arith)
stays_closed (c ∷ cs) cb ran n limit s f t w (p, h) =
    let (s', f', t', r') = call_short c cb ran limit s f t w p in
    let (o, ran') = stays_closed cs (call c cb ran).0 (call c cb ran).1 _ limit s' f' t' w h in
    (o, omega arith)
