-- ===== src/Queue/Race.antt =====
-- Enqueue and Close taken apart: one thread between the flag's test and the send, another between the
-- compare-and-swap and the close of the channel.
use job_parser.Base.{
  ◌≡◌, Bool, true, false, Option, none, some, List, [], ◌∷◌, arith, if◌then◌else◌,
}
use job_parser.Queue.{FifoQueue, try_send}

-- A queue, the producer's item if it has passed the test of the flag and not sent yet, and whether
-- the closer has won its compare-and-swap and not closed the channel yet.
pub record Threads {ℓ} (A : Type ℓ) : Type ℓ where
  pub queue : FifoQueue A
  pub sending : Option A
  pub closing : Bool

-- The atomic steps: Enqueue's load and its select; Close's compare-and-swap and its close.
pub data Action {ℓ} (A : Type ℓ) : Type ℓ where
  load : A → Action A
  send : Action A
  swap : Action A
  shut : Action A

module _ {ℓ} {A : Type ℓ} where
  after_send : Option (FifoQueue A × Bool) → Threads A → Option (Threads A)
  after_send none t = none
  after_send (some (q, done)) t = some (record t { queue = q; sending = none })

  send_pending : Option A → Threads A → Option (Threads A)
  unfolding after_send
  send_pending none t = some t
  send_pending (some item) t = after_send (try_send item t.queue) t

  pub act : Action A → Threads A → Option (Threads A)
  unfolding send_pending try_send
  act (load item) t = if t.queue.closed then some t else some (record t { sending = some item })
  act send t = send_pending t.sending t
  act swap t =
      if t.queue.closed
      then some t
      else some (record t { queue = record t.queue { closed = true }; closing = true })
  act shut t =
      if t.closing
      then some (record t { queue = record t.queue { shut = true }; closing = false })
      else some t

  pub play : List (Action A) → Threads A → Option (Threads A)
  unfolding act
  play [] t = some t
  play (a ∷ more) t = elim (act a t) [ none ↦ none | some t' ↦ play more t' ]

  -- The race: on any open queue, full or not, a Close that falls between the test of the flag and the
  -- send of an Enqueue makes the send panic.
  pub close_during_enqueue :
      (q : FifoQueue A) (item : A)
      → q.closed ≡ false
      → play
          (load item ∷ swap ∷ shut ∷ send ∷ [])
          (record { queue = q; sending = none; closing = false })
        ≡ none
  unfolding play
  close_during_enqueue q item o = ground arith
