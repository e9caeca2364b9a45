-- ===== src/Manager/Worker.antt =====
-- A search job under the global breaker: result_handler.go, proccessSearchJob of parsers_workers.go,
-- and searchVacancies of search_vacansies.go from the enqueued job to the caller's answer.
pub mod Laws
use Prim.Native.String
use job_parser.Base.{
  ℕ, suc, String, Bool, true, false, ◌||◌, Option, none, some, List, [], ◌∷◌, if◌then◌else◌,
}
use job_parser.Base.Panic.{◌>>=◌}
use job_parser.Base.Error.{Error, message, wrap, error_text, is_circuit_open, is_too_many_requests}
use job_parser.Base.Text.{contains}
use job_parser.Breaker.{CircuitBreaker, execute}
use job_parser.Jobs.{
  JobOutput, BaseJob, Wake, output, new_base_job, complete, receive,
  wait_for_job_search_vacansies_result,
}
use job_parser.Jobs.Delivery.{advances}
use job_parser.Models.{SearchParams, SearchVacanciesResult, Any}
use job_parser.Manager.State.{ParsersManager}
use job_parser.Manager.Caching.{GenHash, Results, try_get_from_cache}
use job_parser.Manager.Search.{Env, execute_search, or_nil, is_empty}

-- isCircuitBreakerError
unfoldable pub is_circuit_breaker_error : Error → Bool
is_circuit_breaker_error e =
    is_circuit_open e || is_too_many_requests e || contains (error_text e) "circuit breaker"

unfoldable pub fallback_with : Option Results → Error → Results × Option Error
fallback_with (some rs) e = (rs, some (wrap "данные из кэша: " e ""))
fallback_with none e = (none, some (wrap "Не удалось найти данные в кэше, ошибка: : " e ""))

unfoldable pub try_fallback_strategies :
    GenHash → ℕ → SearchParams → Error → ParsersManager → Option (Results × Option Error)
unfolding fallback_with
try_fallback_strategies gen now params e pm = do
  cached ← try_get_from_cache gen now params pm
  some (fallback_with cached e)

unfoldable pub handle_search_result :
    GenHash
    → ℕ
    → SearchParams
    → Results
    → Option Error
    → ParsersManager
    → Option (Results × Option Error)
unfolding is_circuit_breaker_error try_fallback_strategies
handle_search_result gen now params rs none pm = some (rs, none)
handle_search_result gen now params rs (some e) pm =
    if is_empty (or_nil rs)
    then try_fallback_strategies gen now params e pm
    else if is_circuit_breaker_error e
    then some (rs, some (wrap "частичные результаты (Parser manager circuit breaker): " e ""))
    else some (rs, some e)

-- What the function under the breaker works on: the manager and the variable `results`; `none` once
-- it has panicked.
abbrev pub Work : Type 0
Work = Option (ParsersManager × Results)

searched : Option (ParsersManager × Results × Option Error) → Work × Option Error
searched none = (none, none)
searched (some (pm, rs, err)) = (some (pm, rs), err)

search_under_breaker : Env → ℕ → ℕ → SearchParams → Work → Work × Option Error
unfolding searched
search_under_breaker env start finish params none = (none, none)
search_under_breaker env start finish params (some (pm, rs)) =
    searched (execute_search env start finish params pm)

after_breaker :
    Env
    → ℕ
    → SearchParams
    → CircuitBreaker × Work × Option Error
    → Option (ParsersManager × Results × Option Error)
after_breaker env finish params (cb, none, err) = none
after_breaker env finish params (cb, some (pm, rs), err) = do
  let pm' = record pm { circuit_breaker = cb }
  handled ← handle_search_result env.gen_hash finish params rs err pm'
  some (pm', handled.0, handled.1)

-- proccessSearchJob up to its call of Complete; the Boolean says that a slot of the semaphore was
-- free in time.
unfoldable pub process_search_job :
    Bool
    → Env
    → ℕ
    → ℕ
    → SearchParams
    → ParsersManager
    → Option (ParsersManager × Results × Option Error)
unfolding search_under_breaker after_breaker
process_search_job false env start finish params pm = some (
  pm,
  none,
  some (message "❌ Таймаут ожидания свободного слота глобального семафора менеджера парсеров"),
)
process_search_job true env start finish params pm = after_breaker env finish params (
    execute start finish (search_under_breaker env start finish params) pm.circuit_breaker
      (some (pm, none)))

no_answer : Option JobOutput → Results × Option Error
no_answer none = wait_for_job_search_vacansies_result Wake.timeout
no_answer (some o) = wait_for_job_search_vacansies_result (output o)

-- What searchVacancies returns for a job with these results, when the worker has made its first send
-- before the caller's timeout and context end the wait.
unfoldable pub answer : BaseJob → ℕ → Results → Option Error → Results × Option Error
unfolding no_answer
answer job n rs err = no_answer (receive (advances (suc n) (complete (Any.results rs) err job))).1

-- searchVacancies, for a job that a worker takes and finishes in time.
unfoldable pub search_vacancies :
    String
    → ℕ
    → Bool
    → Env
    → ℕ
    → ℕ
    → SearchParams
    → ParsersManager
    → Option (ParsersManager × Results × Option Error)
unfolding answer new_base_job
search_vacancies id rounds slot env start finish params pm = do
  done ← process_search_job slot env start finish params pm
  let reply = answer (new_base_job id start) rounds done.1 done.2
  some (done.0, reply.0, reply.1)
