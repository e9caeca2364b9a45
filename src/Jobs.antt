-- ===== src/Jobs.antt =====
-- Jobs and their results: parser/internal/jobs (base_job.go, search_job.go, fetch_details_job.go) and
-- the reader's side, waitJobResult of parser/internal/parsers_manager/parsers_jobs.go.
-- `ResultChan` is a channel with room for one output; the goroutine that runs Complete is the list of
-- the sends that it has still to make, and waits while the channel is full.
pub mod Delivery
pub mod Enqueue
mod Tests
use job_parser.Base.{ℕ, String, Bool, true, false, Option, none, some, List, [], ◌∷◌, if◌then◌else◌}
use job_parser.Base.Error.{Error, message}
use job_parser.Models.{
  Any, SearchParams, SearchVacanciesResult, SearchVacancyDetailesResult, zero_details,
}

pub record JobOutput : Type 0 where
  pub success : Bool
  pub data_ : Any
  pub error : Option Error

pub record BaseJob : Type 0 where
  pub id : String
  pub result_chan : Option JobOutput
  pub created_at : ℕ
  pub notified : Bool
  pub sending : List JobOutput

pub record SearchJob : Type 0 where
  pub base : BaseJob
  pub params : SearchParams

pub record FetchDetailsJob : Type 0 where
  pub base : BaseJob
  pub source : String
  pub vacancy_id : String

-- The interface Job, by the type that the worker's switch finds.
pub data Job : Type 0 where
  search : SearchJob → Job
  fetch_details : FetchDetailsJob → Job

unfoldable pub new_base_job : String → ℕ → BaseJob
new_base_job id now = record {
  id = id;
  result_chan = none;
  created_at = now;
  notified = false;
  sending = [];
}

unfoldable pub new_search_job : String → ℕ → SearchParams → SearchJob
unfolding new_base_job
new_search_job id now params = record { base = new_base_job id now; params = params }

unfoldable pub new_fetch_vacancy_job : String → ℕ → String → String → FetchDetailsJob
unfolding new_base_job
new_fetch_vacancy_job id now source vacancy_id = record {
  base = new_base_job id now;
  source = source;
  vacancy_id = vacancy_id;
}

-- `GetID`
abbrev pub get_id : Job → String
get_id (search j) = j.base.id
get_id (fetch_details j) = j.base.id

-- The sends of `Complete`: with no error the success is sent, and then the failure all the same.
sends : Any → Option Error → List JobOutput
sends d none =
    record { success = true; data_ = d; error = none }
    ∷ record { success = false; data_ = d; error = none }
    ∷ []
sends d (some e) = record { success = false; data_ = d; error = some e } ∷ []

-- The call of `Complete`; `notified.Do` lets the first call alone through.
unfoldable pub complete : Any → Option Error → BaseJob → BaseJob
unfolding sends
complete d err j = if j.notified then j else record j { notified = true; sending = sends d err }

send_next : List JobOutput → Option JobOutput → BaseJob → BaseJob
send_next [] chan j = j
send_next (o ∷ os) none j = record j { result_chan = some o; sending = os }
send_next (o ∷ os) (some p) j = j

-- One send of the goroutine in `Complete`, if the channel has room.
unfoldable pub advance : BaseJob → BaseJob
unfolding send_next
advance j = send_next j.sending j.result_chan j

-- `<-resChan`, if something is there.
unfoldable pub receive : BaseJob → BaseJob × Option JobOutput
receive j = (record j { result_chan = none }, j.result_chan)

-- Which case of the `select` in waitJobResult fires.
pub data Wake : Type 0 where
  output : JobOutput → Wake
  closed_channel : Wake
  timeout : Wake
  cancelled : Error → Wake

-- `waitJobResult[T]`, for a type assertion `cast` to `T` and the zero value of `T`.
unfoldable pub wait_job_result {ℓ} : {T : Type ℓ} → (Any → Option T) → T → Wake → T × Option Error
wait_job_result cast zero_value closed_channel =
    (zero_value, some (message "канал результата закрыт\n"))
wait_job_result cast zero_value timeout = (zero_value, some (message "таймаут выполнения поиска\n"))
wait_job_result cast zero_value (cancelled e) = (zero_value, some e)
wait_job_result cast zero_value (output o) = elim o.error [
  | some e ↦ (zero_value, some e)
  | none ↦ elim (cast o.data_) [
    | some r ↦ (r, none)
    | none ↦ (zero_value, some (message "неверный тип результата\n"))
  ]
]

-- The type assertions of the two wrappers of waitJobResult, and of the readers of the caches.
abbrev pub as_results : Any → Option (Option (List SearchVacanciesResult))
as_results (Any.results rs) = some rs
as_results (Any.details d) = none
as_results (Any.index i) = none

abbrev pub as_details : Any → Option SearchVacancyDetailesResult
as_details (Any.results rs) = none
as_details (Any.details d) = some d
as_details (Any.index i) = none

-- waitForJobSearchVacansiesResult and waitForJobSearchVacancyDeyailsResult.
unfoldable pub wait_for_job_search_vacansies_result :
    Wake → Option (List SearchVacanciesResult) × Option Error
unfolding wait_job_result
wait_for_job_search_vacansies_result = wait_job_result as_results none

unfoldable pub wait_for_job_search_vacancy_details_result :
    Wake → SearchVacancyDetailesResult × Option Error
unfolding wait_job_result
wait_for_job_search_vacancy_details_result = wait_job_result as_details zero_details
