-- ===== src/Manager/DetailsJob.antt =====
-- A details job under the global breaker, and its way to the caller: proccessDetailsJob of
-- parsers_workers.go and executeSearchVacancyDetailes of search_vacancy_datails.go.
pub mod Laws
use job_parser.Base.{ℕ, suc, String, Bool, true, false, Option, none, some}
use job_parser.Base.Panic.{◌>>=◌}
use job_parser.Base.Error.{Error, message}
use job_parser.Breaker.{CircuitBreaker, execute}
use job_parser.Jobs.{
  JobOutput, BaseJob, Wake, output, new_base_job, complete, receive,
  wait_for_job_search_vacancy_details_result,
}
use job_parser.Jobs.Delivery.{advances}
use job_parser.Models.{SearchVacancyDetailesResult, Any, zero_details}
use job_parser.Manager.State.{ParsersManager}
use job_parser.Manager.Details.{search_vacancy_detailes}

-- The manager and the variable `result`; `none` once the function under the breaker has panicked.
abbrev Work : Type 0
Work = Option (ParsersManager × SearchVacancyDetailesResult)

searched :
    Option (ParsersManager × SearchVacancyDetailesResult × Option Error) → Work × Option Error
searched none = (none, none)
searched (some (pm, d, err)) = (some (pm, d), err)

details_under_breaker : String → String → ℕ → ℕ → Work → Work × Option Error
unfolding searched
details_under_breaker vacancy_id source start finish none = (none, none)
details_under_breaker vacancy_id source start finish (some (pm, d)) =
    searched (search_vacancy_detailes vacancy_id source start finish pm)

after_breaker :
    CircuitBreaker × Work × Option Error
    → Option (ParsersManager × SearchVacancyDetailesResult × Option Error)
after_breaker (cb, none, err) = none
after_breaker (cb, some (pm, d), err) = some (record pm { circuit_breaker = cb }, d, err)

-- proccessDetailsJob up to its call of Complete; the Boolean says that a slot of the semaphore was
-- free in time.
unfoldable pub process_details_job :
    Bool
    → String
    → String
    → ℕ
    → ℕ
    → ParsersManager
    → Option (ParsersManager × SearchVacancyDetailesResult × Option Error)
unfolding details_under_breaker after_breaker
process_details_job false vacancy_id source start finish pm = some (
  pm,
  zero_details,
  some (message "❌ Таймаут ожидания свободного слота глобального семафора менеджера парсеров"),
)
process_details_job true vacancy_id source start finish pm = after_breaker (
    execute start finish (details_under_breaker vacancy_id source start finish) pm.circuit_breaker
      (some (pm, zero_details)))

no_answer : Option JobOutput → SearchVacancyDetailesResult × Option Error
no_answer none = wait_for_job_search_vacancy_details_result Wake.timeout
no_answer (some o) = wait_for_job_search_vacancy_details_result (output o)

-- What the caller gets of a job with this outcome, when the worker has made its first send in time.
unfoldable pub answer_details :
    BaseJob
    → ℕ
    → SearchVacancyDetailesResult
    → Option Error
    → SearchVacancyDetailesResult × Option Error
unfolding no_answer
answer_details job n d err =
    no_answer (receive (advances (suc n) (complete (Any.details d) err job))).1

-- executeSearchVacancyDetailes, for a job that a worker takes and finishes in time.
unfoldable pub execute_search_vacancy_detailes :
    String
    → ℕ
    → Bool
    → String
    → String
    → ℕ
    → ℕ
    → ParsersManager
    → Option (ParsersManager × SearchVacancyDetailesResult × Option Error)
unfolding answer_details new_base_job
execute_search_vacancy_detailes id rounds slot vacancy_id source start finish pm = do
  done ← process_details_job slot vacancy_id source start finish pm
  let reply = answer_details (new_base_job id start) rounds done.1 done.2
  some (done.0, reply.0, reply.1)
