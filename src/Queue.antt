-- ===== src/Queue.antt =====
-- The FIFO queue over a buffered channel: parser/internal/queue (queue_models.go, queue_methods.go).
-- The channel is the list of the items in it, oldest first, and a flag that it is closed. Each
-- operation here runs with nobody else in between; Queue/Race takes Enqueue and Close apart.
pub mod Laws
pub mod Race
mod Tests
use job_parser.Base.{
  ℕ, Bool, true, false, Option, none, some, List, [], ◌∷◌, ◌++◌, ltb, if◌then◌else◌, length,
}

pub record FifoQueue {ℓ} (A : Type ℓ) : Type ℓ where
  pub items : List A
  pub capacity : ℕ
  pub shut : Bool  -- the channel
  pub closed : Bool  -- the atomic flag

module _ {ℓ} {A : Type ℓ} where
  unfoldable pub new_fifo_queue : ℕ → FifoQueue A
  new_fifo_queue capacity = record { items = []; capacity = capacity; shut = false; closed = false }

  -- `select { case q.items <- item: … default: … }`: a send on a closed channel panics (`none`). A
  -- channel without a buffer takes nothing, as no reader ever waits.
  unfoldable pub try_send : A → FifoQueue A → Option (FifoQueue A × Bool)
  try_send item q =
      if q.shut
      then none
      else if ltb (length q.items) q.capacity
      then some (record q { items = q.items ++ item ∷ [] }, true)
      else some (q, false)

  unfoldable pub enqueue : A → FifoQueue A → Option (FifoQueue A × Bool)
  unfolding try_send
  enqueue item q = if q.closed then some (q, false) else try_send item q

  take_first : List A → FifoQueue A → FifoQueue A × Option A
  take_first [] q = (q, none)
  take_first (item ∷ rest) q = (record q { items = rest }, some item)

  -- An empty channel gives nothing, closed or not; a closed one still gives what is left in it.
  unfoldable pub dequeue : FifoQueue A → FifoQueue A × Option A
  unfolding take_first
  dequeue q = take_first q.items q

  abbrev pub size : FifoQueue A → ℕ
  size q = length q.items

  -- The compare-and-swap lets the first call alone close the channel.
  unfoldable pub close : FifoQueue A → FifoQueue A
  close q = if q.closed then q else record q { closed = true; shut = true }

  -- The loop of `Clear`, a receive a round.
  drain : List A → FifoQueue A → FifoQueue A
  drain [] q = q
  drain (item ∷ rest) q = drain rest (record q { items = rest })

  unfoldable pub clear : FifoQueue A → FifoQueue A
  unfolding drain
  clear q = if q.closed then q else drain q.items q

pub data Op {ℓ} (A : Type ℓ) : Type ℓ where
  put : A → Op A
  get : Op A
  wipe : Op A
  finish : Op A

-- A queue with what it has accepted and what it has given out, oldest first.
pub record Log {ℓ} (A : Type ℓ) : Type ℓ where
  pub queue : FifoQueue A
  pub accepted : List A
  pub given : List A

module _ {ℓ} {A : Type ℓ} where
  abbrev note_put : A → List A → FifoQueue A × Bool → Log A → Log A
  note_put item acc (q, true) l = record l { queue = q; accepted = acc ++ item ∷ [] }
  note_put item acc (q, false) l = record l { queue = q }

  abbrev note_get : FifoQueue A × Option A → Log A → Log A
  note_get (q, none) l = record l { queue = q }
  note_get (q, some item) l = record l { queue = q; given = l.given ++ item ∷ [] }

  unfoldable pub step : Op A → Log A → Option (Log A)
  unfolding enqueue dequeue close clear
  step (put item) l = elim (enqueue item l.queue) [
    | none ↦ none
    | some r ↦ some (note_put item l.accepted r l)
  ]
  step get l = some (note_get (dequeue l.queue) l)
  step wipe l = some (record l { queue = clear l.queue })
  step finish l = some (record l { queue = close l.queue })

  unfoldable pub run : List (Op A) → Log A → Option (Log A)
  unfolding step
  run [] l = some l
  run (o ∷ os) l = elim (step o l) [ none ↦ none | some l' ↦ run os l' ]
