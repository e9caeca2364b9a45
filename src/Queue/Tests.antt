-- ===== src/Queue/Tests.antt =====
-- The queue's theorems at concrete queues.
use job_parser.Base.{ℕ, ◌≡◌, false, some, List, [], ◌∷◌, arith}
use job_parser.Queue.{FifoQueue, new_fifo_queue, Op, put, get, finish, Log, run}
use job_parser.Queue.Laws.{IsFifo, run-new_IsFifo}

abbrev one : FifoQueue ℕ
one = record { items = 4 ∷ []; capacity = 2; shut = false; closed = false }

abbrev ops : List (Op ℕ)
ops = put 1 ∷ put 2 ∷ put 3 ∷ get ∷ finish ∷ put 4 ∷ []

run-new_IsFifo_example :
    (m : Log ℕ) × (run ops (record { queue = new_fifo_queue 2; accepted = []; given = [] })
      ≡ some m)
    × IsFifo m
run-new_IsFifo_example = run-new_IsFifo 2 ops (omega arith)
