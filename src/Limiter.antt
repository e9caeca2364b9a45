-- ===== src/Limiter.antt =====
-- The rate limiter of a site: parser/internal/rate_limiter. Three kinds of threads meet: the goroutine
-- `run`, the calls of Wait, and a call of Stop; one event is one atomic action of one of them. The
-- sections under the mutex that only read `stopped` are one action; Stop's section is three, since
-- the two selects, which take no lock, can see its middle.
pub mod Laws
mod Tests
use job_parser.Base.{
  ℕ, zero, suc, Bool, true, false, ◌||◌, ◌&&◌, Option, none, some, List, [], ◌∷◌, ◌==◌,
  if◌then◌else◌,
}

-- The channel `limiter` has room for one token; `cancelled` is the context's.
pub record ChannelRateLimiter : Type 0 where
  pub token : Bool
  pub closed : Bool
  pub cancelled : Bool
  pub stopped : Bool

unfoldable pub unused_limiter : ChannelRateLimiter
unused_limiter = record { token = false; closed = false; cancelled = false; stopped = false }

-- NewChannelRateLimiter. Its goroutine `run` makes a ticker, which panics for a rate that is not
-- positive.
unfoldable pub new_channel_rate_limiter : (rate : ℕ) → Option ChannelRateLimiter
unfolding unused_limiter
new_channel_rate_limiter rate = if rate == 0 then none else some unused_limiter

-- Where the goroutine `run` is: before a tick, past its test of `stopped`, or at its end.
pub data Runner : Type 0 where
  ticking : Runner
  tested : Runner
  ended : Runner

-- Where Stop is: outside of its section, past `stopped = true`, past `cancel()`.
pub data Stopper : Type 0 where
  outside : Stopper
  flagged : Stopper
  cancelling : Stopper

-- The limiter with its threads: `waiting` calls of Wait are past their test of `stopped`, `granted`
-- have returned nil, and `refused` an error.
pub record Threads : Type 0 where
  pub limiter : ChannelRateLimiter
  pub runner : Runner
  pub stopper : Stopper
  pub waiting : ℕ
  pub granted : ℕ
  pub refused : ℕ

-- `tick`, the receive of a tick with the test of `stopped`, and `push` are the two actions of a round of
-- `run`, `ask` and `take` those of a Wait, `stop`
-- the next one of Stop. The flag is what a select picks that could take `ctx.Done()` and another case
-- as well: true for `ctx.Done()`.
pub data Event : Type 0 where
  tick : Event
  push : Bool → Event
  ask : Event
  take : Bool → Event
  stop : Event

unfoldable pub start : Threads
unfolding unused_limiter
start = record {
  limiter = unused_limiter;
  runner = ticking;
  stopper = outside;
  waiting = 0;
  granted = 0;
  refused = 0;
}

-- The mutex is taken while Stop is in its section: a reader waits.
tick_at : Runner → Stopper → Threads → Threads
tick_at ticking outside t = record t { runner = if t.limiter.stopped then ended else tested }
tick_at ticking flagged t = t
tick_at ticking cancelling t = t
tick_at tested s t = t
tick_at ended s t = t

-- The inner select of `run`: a send on a closed channel panics.
unfoldable pub push_token : Bool → Threads → Option Threads
push_token done_first t =
    if t.limiter.cancelled && done_first
    then some (record t { runner = ended })
    else if t.limiter.closed
    then none
    else if t.limiter.token
    then some (record t { runner = if t.limiter.cancelled then ended else ticking })
    else some (record t { limiter = record t.limiter { token = true }; runner = ticking })

push_at : Runner → Bool → Threads → Option Threads
unfolding push_token
push_at ticking d t = some t
push_at tested d t = push_token d t
push_at ended d t = some t

ask_at : Stopper → Threads → Threads
ask_at outside t =
    if t.limiter.stopped
    then record t { refused = suc t.refused }
    else record t { waiting = suc t.waiting }
ask_at flagged t = t
ask_at cancelling t = t

-- The select of Wait, for one of the calls in it; it waits while no case is ready. What is left in a
-- closed channel is still received.
take_at : ℕ → Bool → Threads → Threads
take_at zero done_first t = t
take_at (suc others) done_first t =
    if t.limiter.cancelled && done_first
    then record t { waiting = others; refused = suc t.refused }
    else if t.limiter.token
    then record t {
      limiter = record t.limiter { token = false };
      waiting = others;
      granted = suc t.granted;
    }
    else if t.limiter.cancelled || t.limiter.closed
    then record t { waiting = others; refused = suc t.refused }
    else t

-- A Stop that finds `stopped` set does nothing.
unfoldable pub stop_at : Stopper → Threads → Threads
stop_at outside t =
    if t.limiter.stopped
    then t
    else record t { limiter = record t.limiter { stopped = true }; stopper = flagged }
stop_at flagged t = record t {
  limiter = record t.limiter { cancelled = true };
  stopper = cancelling;
}
stop_at cancelling t = record t { limiter = record t.limiter { closed = true }; stopper = outside }

unfoldable pub step : Event → Threads → Option Threads
unfolding tick_at push_at ask_at take_at stop_at
step tick t = some (tick_at t.runner t.stopper t)
step (push d) t = push_at t.runner d t
step ask t = some (ask_at t.stopper t)
step (take d) t = some (take_at t.waiting d t)
step stop t = some (stop_at t.stopper t)

unfoldable pub run : List Event → Threads → Option Threads
unfolding step
run [] t = some t
run (e ∷ es) t = elim (step e t) [ none ↦ none | some t' ↦ run es t' ]
