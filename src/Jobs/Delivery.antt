-- ===== src/Jobs/Delivery.antt =====
-- What the reader of a job's channel gets, and when the goroutine that completes the job can go on.
use job_parser.Base.{ℕ, zero, suc, ◌≡◌, ◌≢◌, true, false, Option, none, some, List, [], ◌∷◌, arith}
use job_parser.Base.Error.{Error, message}
use job_parser.Models.{Any}
use job_parser.Jobs.{JobOutput, BaseJob, complete, advance, receive, output, wait_job_result}

-- `n` rounds of the scheduler, in each of which the goroutine makes its next send if it can.
pub advances : ℕ → BaseJob → BaseJob
advances zero j = j
advances (suc n) j = advances n (advance j)

-- A job as its constructor leaves it.
pub record IsFresh (j : BaseJob) : Type 0 where
  pub not_notified : j.notified ≡ false
  pub empty_chan : j.result_chan ≡ none
  pub idle : j.sending ≡ []

-- The channel holds `o`, and the goroutine has the sends `os` left.
record Holds (o : JobOutput) (os : List JobOutput) (j : BaseJob) : Type 0 where
  held : j.result_chan ≡ some o
  left : j.sending ≡ os

Holds-advance :
    (o : JobOutput) (os : List JobOutput) (j : BaseJob) → Holds o os j → Holds o os (advance j)
unfolding advance
Holds-advance o [] j h = ground arith
Holds-advance o (p ∷ os) j h = ground arith

Holds-advances :
    (n : ℕ) (o : JobOutput) (os : List JobOutput) (j : BaseJob)
    → Holds o os j
    → Holds o os (advances n j)
unfolding advances
Holds-advances zero o os j h = h
Holds-advances (suc n) o os j h = Holds-advances n o os (advance j) (Holds-advance o os j h)

abbrev pub succeeded : Any → JobOutput
succeeded d = record { success = true; data_ = d; error = none }

abbrev pub failed : Any → Option Error → JobOutput
failed d err = record { success = false; data_ = d; error = err }

complete-ok :
    (d : Any) (j : BaseJob)
    → IsFresh j
    → Holds (succeeded d) (failed d none ∷ []) (advance (complete d none j))
unfolding complete advance
complete-ok d j f = ground arith

complete-err :
    (d : Any) (e : Error) (j : BaseJob)
    → IsFresh j
    → Holds (failed d (some e)) [] (advance (complete d (some e) j))
unfolding complete advance
complete-err d e j f = ground arith

-- A goroutine that completes a fresh job without an error never gets past Complete while nobody reads
-- the channel: after any number of rounds it still has a send to make.
pub complete_blocks :
    (n : ℕ) (d : Any) (j : BaseJob) → IsFresh j → (advances n (complete d none j)).sending ≢ []
unfolding advances complete
complete_blocks zero d j f = ground arith
complete_blocks (suc n) d j f =
    let h = Holds-advances n _ _ _ (complete-ok d j f) in ground (arith, h)

-- The specification of a delivery: data, or the zero value with an error.
abbrev pub expected {ℓ} : {T : Type ℓ} → T → Option T → Option Error → T × Option Error
expected z (some r) none = (r, none)
expected z none none = (z, some (message "неверный тип результата\n"))
expected z cast (some e) = (z, some e)

abbrev pub wait_output {ℓ} :
    {T : Type ℓ} → (Any → Option T) → T → Option JobOutput → Option (T × Option Error)
wait_output cast z none = none
wait_output cast z (some o) = some (wait_job_result cast z (output o))

-- What waitJobResult returns for a job that was completed with `d` and `err` from a fresh state, after
-- any positive number of rounds: the data, if there was no error and it is of the type asked for; the
-- zero value with an error in every other case. So data that was completed together with an error
-- never reaches the reader.
pub delivery {ℓ} :
    {T : Type ℓ} (cast : Any → Option T) (z : T) (n : ℕ) (d : Any) (err : Option Error)
    (j : BaseJob)
    → IsFresh j
    → wait_output cast z (receive (advances (suc n) (complete d err j))).1
      ≡ some (expected z (cast d) err)
unfolding advances receive wait_job_result
delivery cast z n d none j f =
    let h = Holds-advances n _ _ _ (complete-ok d j f) in ground (arith, h)
delivery cast z n d (some e) j f =
    let h = Holds-advances n _ _ _ (complete-err d e j f) in ground (arith, h)
