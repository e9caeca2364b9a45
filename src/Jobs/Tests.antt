-- ===== src/Jobs/Tests.antt =====
-- The theorems on jobs at concrete jobs.
use job_parser.Base.{ℕ, ◌*◌, ◌≡◌, refl, ◌≢◌, false, none, some, [], ◌∷◌, arith}
use job_parser.Base.Error.{message}
use job_parser.Models.{Any, zero_details}
use job_parser.Jobs.{BaseJob, complete, receive, as_details}
use job_parser.Jobs.Enqueue.{Rounds, unfinished, given_up, try_enqueue_job, try_enqueue_job-ends}
use job_parser.Jobs.Delivery.{IsFresh, advances, delivery, wait_output}

abbrev fresh : BaseJob
fresh = record { id = "j"; result_chan = none; created_at = 0; notified = false; sending = [] }

fresh-IsFresh : IsFresh fresh
fresh-IsFresh = record { not_notified = refl; empty_chan = refl; idle = refl }

abbrev cached_details : Any
cached_details = Any.details (record zero_details { id = "7" })

-- Results that come with an error do not reach the reader.
delivery_example :
    wait_output as_details zero_details
      (receive (advances 1 (complete cached_details (some (message "cached")) fresh))).1
    ≡ some (zero_details, some (message "cached"))
delivery_example =
    delivery as_details zero_details 0 cached_details (some (message "cached")) fresh fresh-IsFresh

-- A full queue, looked at every 60 milliseconds.
abbrev full : Rounds ℕ
full = record {
  queue = λ i. record { items = 1 ∷ []; capacity = 1; shut = false; closed = false };
  elapsed = λ i. i * 60_000_000;
  is_done = λ i. false;
}

try_enqueue_job-ends_example : try_enqueue_job full 100_000_000 4 0 2 ≢ unfinished
try_enqueue_job-ends_example =
    try_enqueue_job-ends full 100_000_000 3 2 (λ i. omega arith) (omega arith)

second_round_after_the_timeout : try_enqueue_job full 100_000_000 4 0 2 ≡ given_up 2
unfolding try_enqueue_job
second_round_after_the_timeout = refl
