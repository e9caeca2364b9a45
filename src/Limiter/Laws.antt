-- ===== src/Limiter/Laws.antt =====
-- What the rate limiter promises of its Waits, and what Stop does to them.
use job_parser.Base.{
  ℕ, suc, ◌+◌, ◌≤◌, ◌≡◌, Bool, true, false, none, some, List, [], ◌∷◌, arith, if◌then◌else◌,
  Option-cases, inl, inr, sym, refl, length,
}
use job_parser.Limiter.{
  ChannelRateLimiter, Threads, Event, Runner, ticking, tested, ended, Stopper, outside, flagged,
  cancelling, tick, push, ask, take, stop, step, run, start,
}

abbrev count : Bool → ℕ
count b = if b then 1 else 0

-- The ticks among the events.
abbrev pub ticks : List Event → ℕ
ticks [] = 0
ticks (tick ∷ es) = suc (ticks es)
ticks (push d ∷ es) = ticks es
ticks (ask ∷ es) = ticks es
ticks (take d ∷ es) = ticks es
ticks (stop ∷ es) = ticks es

abbrev promised : Runner → ℕ
promised ticking = 0
promised tested = 1
promised ended = 0

-- The Waits that have been granted, and those that the tokens already there can still grant.
abbrev credit : Threads → ℕ
credit t = t.granted + (count t.limiter.token + promised t.runner)

credit-step : (e : Event) (t m : Threads) → step e t ≡ some m → credit m ≤ credit t + ticks (e ∷ [])
unfolding step
credit-step tick t m h = ground arith
credit-step (push d) t m h = ground arith
credit-step ask t m h = ground arith
credit-step (take d) t m h = ground arith
credit-step stop t m h = ground arith

credit-run : (es : List Event) (t m : Threads) → run es t ≡ some m → credit m ≤ credit t + ticks es
unfolding run
credit-run [] t m h = ground arith
credit-run (e ∷ es) t m h = elim (Option-cases (step e t)) [
  | inl z ↦ ground arith
  | inr (u, z) ↦ ground (arith, credit-step e t u z, credit-run es u m)
]

-- The pace of a limiter from its start: no more Waits are granted than the ticks of its rate so far,
-- and in any stretch of events, from `t` to `m`, no more than its ticks and two, for the token saved
-- and the one that `run` is about to put.
pub grants_paced :
    (es fs : List Event) (t m : Threads)
    → run es start ≡ some t
    → run fs t ≡ some m
    → (m.granted ≤ ticks es + ticks fs) × (m.granted ≤ t.granted + (2 + ticks fs))
unfolding start
grants_paced es fs t m h k = ground (arith, credit-run es start t h, credit-run fs t m k)

-- What Stop has set so far, by where it is in its section.
abbrev Sets : Stopper → Bool → ChannelRateLimiter → Type 0
Sets outside b l = (l.stopped ≡ b) × (l.cancelled ≡ b) × (l.closed ≡ b)
Sets flagged b l = (l.stopped ≡ true) × (l.cancelled ≡ false) × (l.closed ≡ false)
Sets cancelling b l = (l.stopped ≡ true) × (l.cancelled ≡ true) × (l.closed ≡ false)

abbrev IsValid : Threads → Type 0
IsValid t = Sets t.stopper t.limiter.closed t.limiter

IsValid-step : (e : Event) (t m : Threads) → step e t ≡ some m → IsValid t → IsValid m
unfolding step
IsValid-step tick t m h v = ground arith
IsValid-step (push d) t m h v = ground arith
IsValid-step ask t m h v = ground arith
IsValid-step (take d) t m h v = ground arith
IsValid-step stop t m h v = ground arith

IsValid-run : (es : List Event) (t m : Threads) → run es t ≡ some m → IsValid t → IsValid m
unfolding run
IsValid-run [] t m h v = ground arith
IsValid-run (e ∷ es) t m h v = elim (Option-cases (step e t)) [
  | inl z ↦ ground arith
  | inr (u, z) ↦ ground (arith, IsValid-step e t u z v, IsValid-run es u m)
]

-- A limiter whose Stop has returned.
pub record IsStopped (t : Threads) : Type 0 where
  pub returned : t.stopper ≡ outside
  pub flag : t.limiter.stopped ≡ true

abbrev Spent : Threads → Threads → Type 0
Spent t m =
    (m.granted + count m.limiter.token ≤ t.granted + count t.limiter.token)
    × (m.waiting ≤ t.waiting)

abbrev IsQuiet : Threads → Type 0
IsQuiet t =
    (t.stopper ≡ outside)
    × (t.limiter.stopped ≡ true)
    × (t.limiter.cancelled ≡ true)
    × (t.limiter.closed ≡ true)

Spent-step : (e : Event) (t m : Threads) → step e t ≡ some m → IsQuiet t → IsQuiet m × Spent t m
unfolding step
Spent-step tick t m h v = ground arith
Spent-step (push d) t m h v = ground arith
Spent-step ask t m h v = ground arith
Spent-step (take d) t m h v = ground arith
Spent-step stop t m h v = ground arith

Spent-run :
    (es : List Event) (t m : Threads) → run es t ≡ some m → IsQuiet t → IsQuiet m × Spent t m
unfolding run
Spent-run [] t m h v = ground arith
Spent-run (e ∷ es) t m h v = elim (Option-cases (step e t)) [
  | inl z ↦ ground arith
  | inr (u, z) ↦
      let (w, s) = Spent-step e t u z v in
      let (x, r) = Spent-run es u m (ground (arith, z, h)) w in ground (arith, x, s, r)
]

IsQuiet-stopped : (es : List Event) (t : Threads) → run es start ≡ some t → IsStopped t → IsQuiet t
unfolding start
IsQuiet-stopped es t h s =
    let v = IsValid-run es start t h (refl, refl, refl) in ground (arith, v, s.returned, s.flag)

-- Once Stop has returned, whatever happens then: of all the Waits, the running ones included, at most
-- the one that gets the token left in the channel is granted, and no call of Wait begins to wait.
pub nothing_granted_after_stop :
    (es fs : List Event) (t m : Threads)
    → run es start ≡ some t
    → IsStopped t
    → run fs t ≡ some m
    → (m.granted ≤ t.granted + count t.limiter.token) × (m.waiting ≤ t.waiting)
nothing_granted_after_stop es fs t m h s k =
    let (x, r) = Spent-run fs t m k (IsQuiet-stopped es t h s) in ground (arith, r)

-- The selects of the waiting calls, one after another.
abbrev pub takes : List Bool → List Event
takes [] = []
takes (d ∷ ds) = take d ∷ takes ds

take-ends :
    (d : Bool) (t : Threads) (n : ℕ)
    → IsQuiet t
    → t.waiting ≡ suc n
    → (u : Threads) × (step (take d) t ≡ some u)
      × IsQuiet u
      × (u.waiting ≡ n)
      × (u.granted + u.refused ≡ suc (t.granted + t.refused))
unfolding step
take-ends d t n q w = elim (Option-cases (step (take d) t)) [
  | inl z ↦ ground arith
  | inr (u, z) ↦ (u, z, ground arith, ground arith, ground arith)
]

takes-run :
    (ds : List Bool) (t : Threads)
    → IsQuiet t
    → length ds ≡ t.waiting
    → (m : Threads) × (run (takes ds) t ≡ some m)
      × (m.waiting ≡ 0)
      × (m.granted + m.refused ≡ t.granted + t.refused + t.waiting)
unfolding run
takes-run [] t q l = (t, refl, sym l, ground arith)
takes-run (d ∷ ds) t q l =
    let (u, z, w, c, g) = take-ends d t (length ds) q (sym l) in
    let (m, r, x, y) = takes-run ds u w (sym c) in
    (m, ground (arith, z, r), x, ground (arith, y, g, c, l))

-- Nobody waits for ever on a stopped limiter: each of the calls of Wait that are in their select when
-- Stop returns can take its next step, and this step ends it, whatever its select picks.
pub all_woken_by_stop :
    (es : List Event) (ds : List Bool) (t : Threads)
    → run es start ≡ some t
    → IsStopped t
    → length ds ≡ t.waiting
    → (m : Threads) × (run (takes ds) t ≡ some m)
      × (m.waiting ≡ 0)
      × (m.granted + m.refused ≡ t.granted + t.refused + t.waiting)
all_woken_by_stop es ds t h s l = takes-run ds t (IsQuiet-stopped es t h s) l

-- The race: on a limiter in use, a Stop that falls between the test of `stopped` and the send, in any
-- round of `run`, makes the send on the closed channel panic, when the select does not pick
-- `ctx.Done()`.
pub stop_during_tick :
    (t : Threads)
    → t.runner ≡ ticking
    → t.stopper ≡ outside
    → t.limiter.stopped ≡ false
    → run (tick ∷ stop ∷ stop ∷ stop ∷ push false ∷ []) t ≡ none
unfolding run step
stop_during_tick t r o s = ground arith
