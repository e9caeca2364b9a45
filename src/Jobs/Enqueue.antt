-- ===== src/Jobs/Enqueue.antt =====
-- The loop that adds a job to the queue: tryEnqueueJob of
-- parser/internal/parsers_manager/parsers_jobs.go. Others use the queue between two rounds, so each
-- round has its own queue, its own time since the start, and its own answer of the context.
use job_parser.Base.{
  ℕ, zero, suc, ◌+◌, ◌*◌, ◌≤◌, ◌<◌, ◌≢◌, Bool, true, false, ◌||◌, Option, none, some, ltb, arith,
}
use job_parser.Queue.{FifoQueue, enqueue}

-- `50 * time.Millisecond`
abbrev pub pause : ℕ
pause = 50_000_000

pub record Rounds {ℓ} (A : Type ℓ) : Type ℓ where
  pub queue : ℕ → FifoQueue A
  pub elapsed : ℕ → ℕ
  pub is_done : ℕ → Bool

-- How the loop ends: with the job in the queue after a round, given up in a round, with a panic, or
-- not within the fuel.
pub data Tried {ℓ} (A : Type ℓ) : Type ℓ where
  added : ℕ → FifoQueue A → Tried A
  given_up : ℕ → Tried A
  panicked : Tried A
  unfinished : Tried A

module _ {ℓ} {A : Type ℓ} (rounds : Rounds A) (timeout : ℕ) where
  after_round : Option (FifoQueue A × Bool) → ℕ → Tried A → Tried A
  after_round none i rest = panicked
  after_round (some (q, true)) i rest = added i q
  after_round (some (q, false)) i rest = elim (ltb timeout (rounds.elapsed i) || rounds.is_done i) [
    | true ↦ given_up i
    | false ↦ rest
  ]

  -- The rounds from the `i`-th on.
  unfoldable pub try_enqueue_job : ℕ → ℕ → A → Tried A
  unfolding after_round enqueue
  try_enqueue_job zero i job = unfinished
  try_enqueue_job (suc n) i job =
      after_round (enqueue job (rounds.queue i)) i (try_enqueue_job n (suc i) job)

  -- Each round but the first comes after a pause.
  abbrev pub Pauses : Type 0
  Pauses = (i : ℕ) → i * pause ≤ rounds.elapsed i

  last_round :
      (o : Option (FifoQueue A × Bool)) (i : ℕ) (rest : Tried A)
      → timeout < rounds.elapsed i
      → after_round o i rest ≢ unfinished
  unfolding after_round
  last_round none i rest h = ground arith
  last_round (some (q, true)) i rest h = ground arith
  last_round (some (q, false)) i rest h = ground arith

  other_round :
      (o : Option (FifoQueue A × Bool)) (i : ℕ) (rest : Tried A)
      → rest ≢ unfinished
      → after_round o i rest ≢ unfinished
  unfolding after_round
  other_round none i rest h = ground arith
  other_round (some (q, true)) i rest h = ground arith
  other_round (some (q, false)) i rest h = ground arith

  try_from-ends :
      (n i : ℕ) (job : A)
      → Pauses
      → timeout < (i + n) * pause
      → try_enqueue_job (suc n) i job ≢ unfinished
  unfolding try_enqueue_job
  try_from-ends zero i job p h = last_round (enqueue job (rounds.queue i)) i _ (omega (arith, p i))
  try_from-ends (suc n) i job p h =
      other_round (enqueue job (rounds.queue i)) i _ (try_from-ends n (suc i) job p (omega arith))

  -- tryEnqueueJob comes to an end: it takes no more rounds than one and the pauses that fill the
  -- timeout. The times of the rounds grow by the pause between them.
  pub try_enqueue_job-ends :
      (n : ℕ) (job : A) → Pauses → timeout < n * pause → try_enqueue_job (suc n) 0 job ≢ unfinished
  try_enqueue_job-ends n job p h = try_from-ends n 0 job p (omega arith)
