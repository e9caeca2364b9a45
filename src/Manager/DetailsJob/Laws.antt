-- ===== src/Manager/DetailsJob/Laws.antt =====
-- What the caller of a details request gets, and what the global breaker counts.
use job_parser.Base.{ℕ, String, ◌≡◌, refl, true, Option, none, some, arith}
use job_parser.Base.Error.{Error}
use job_parser.Breaker.{admit, settle, execute}
use job_parser.Jobs.{new_base_job, as_details, wait_for_job_search_vacancy_details_result}
use job_parser.Jobs.Delivery.{delivery}
use job_parser.Models.{SearchVacancyDetailesResult, Any, zero_details}
use job_parser.Manager.State.{ParsersManager}
use job_parser.Manager.Details.{search_vacancy_detailes}
use job_parser.Manager.DetailsJob.{
  process_details_job, answer_details, execute_search_vacancy_detailes,
}

-- What a caller is told: the details of a job without an error, and otherwise the error alone.
abbrev pub told :
    SearchVacancyDetailesResult → Option Error → SearchVacancyDetailesResult × Option Error
told d none = (d, none)
told d (some e) = (zero_details, some e)

answer_details_lem :
    (id : String) (now n : ℕ) (d : SearchVacancyDetailesResult) (err : Option Error)
    → answer_details (new_base_job id now) n d err ≡ told d err
unfolding answer_details new_base_job wait_for_job_search_vacancy_details_result
answer_details_lem id now n d none = ground (
  arith,
  delivery as_details zero_details n (Any.details d) none (new_base_job id now)
      (record { not_notified = refl; empty_chan = refl; idle = refl }),
)
answer_details_lem id now n d (some e) = ground (
  arith,
  delivery as_details zero_details n (Any.details d) (some e) (new_base_job id now)
      (record { not_notified = refl; empty_chan = refl; idle = refl }),
)

admitted :
    (vacancy_id source : String) (start finish : ℕ) (pm pm' : ParsersManager)
    (d : SearchVacancyDetailesResult) (err : Option Error)
    → (admit start pm.circuit_breaker).1 ≡ none
    → search_vacancy_detailes vacancy_id source start finish pm ≡ some (pm', d, err)
    → process_details_job true vacancy_id source start finish pm
      ≡ some (
        record pm' { circuit_breaker = settle finish err (admit start pm.circuit_breaker).0 },
        d,
        err,
      )
unfolding process_details_job execute
admitted vacancy_id source start finish pm pm' d err a h = ground (arith, a, h)

-- A details request that the global breaker lets in and that ends without a panic is told to the
-- caller as it ended: the details, or the error with no details; and the breaker counts it as a
-- success or a failure accordingly. A worker takes the job and a slot in time.
pub details_told :
    (id : String) (n : ℕ) (vacancy_id source : String) (start finish : ℕ) (pm pm' : ParsersManager)
    (d : SearchVacancyDetailesResult) (err : Option Error)
    → (admit start pm.circuit_breaker).1 ≡ none
    → search_vacancy_detailes vacancy_id source start finish pm ≡ some (pm', d, err)
    → execute_search_vacancy_detailes id n true vacancy_id source start finish pm
      ≡ some (
        record pm' { circuit_breaker = settle finish err (admit start pm.circuit_breaker).0 },
        (told d err).0,
        (told d err).1,
      )
unfolding execute_search_vacancy_detailes
details_told id n vacancy_id source start finish pm pm' d err a h =
    rw (
      admitted vacancy_id source start finish pm pm' d err a h,
      answer_details_lem id start n d err,
    )
