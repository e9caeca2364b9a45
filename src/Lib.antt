-- ===== src/Lib.antt =====
-- The verification library of the job parser, a Go program (parser/) that searches vacancies on
-- several job sites at once and shows them in a console.
--
-- Parts, and the files that model them (paths from the repository's root):
--
--   * Breaker: parser/internal/circuitbreaker. The struct CircuitBreaker is the record of that name;
--     Execute is `execute`, made of the critical section before the call (`admit`) and the one after it
--     (`settle`, with onFailure as `on_failure` and onSuccess as `on_success`). Breaker/Invariant has
--     the step relation of concurrent calls, one step per critical section, and the invariant;
--     Breaker/Trip, Breaker/HalfOpen and Breaker/Recovery the three states.
--   * Cache: parser/internal/inmemory_cache. GetItem, AddItemWithTTL, DeleteItem, cleanUpExpired and
--     the goroutine cleanUp, with the FNV-1a hash that picks the shard written out. Cache/Laws has the
--     invariant, Cache/Reads what a read gives after each operation, Cache/History any run of them,
--     Cache/Cleaner the cleaner.
--   * Queue: parser/internal/queue. Enqueue, Dequeue, Size, Close and Clear on a buffered channel;
--     Queue/Race splits Enqueue and Close at their atomic steps.
--   * Models: parser/internal/domain/models. `Any` is what the program stores behind interface{}.
--   * Jobs: parser/internal/jobs, and the constructors and waitJobResult of
--     parser/internal/parsers_manager/parsers_jobs.go. A job holds the sends that its Complete has
--     still to make, and `advance` makes one when the channel has room. Jobs/Enqueue has the loop of
--     tryEnqueueJob.
--   * Status: parser/internal/parsers_status_manager. UpdateStatus, GetHealthyParsers,
--     GetParserStatus, CheckHealth and performHealthCheck; Status/Checker has the goroutine that makes
--     the rounds, with a step for each result that is taken down, Status/Client the settings of its HTTP client.
--   * Manager: parser/internal/parsers_manager. Manager/State has the manager and the selection of
--     parsers (status_manager.go, parsers_selector.go, getAliveParsers); Manager/Caching the search
--     cache and the reverse index (cache.go, buildReverseIndex); Manager/Search executeSearch and the
--     concurrent search; Manager/Worker a search job under the global breaker and the way of its
--     results to the caller (parsers_workers.go, result_handler.go, searchVacancies); Manager/Pool the
--     workers, the semaphore, the queue and the callers as interleaved steps, with Shutdown and
--     NewPMLoad; Manager/Engine that pool with a manager on which its workers search; Manager/Details
--     one vacancy (searchVacancyDetailes, GetVacancyDetails), and Manager/DetailsJob a details job and
--     the way of its outcome to the caller; Manager/New NewParserManager; Manager/Hash
--     the key of a search (genHashFromSearchParam);
--     Manager/Threads searches, details requests and brief looks at once, cut at their atomic steps;
--     Manager/Shutdown Shutdown with the workers and the health checker that it waits for.
--   * Sites: parser/internal/parser and parser/pkg/url_builder.go. Sites has the request of
--     base_parser.go under the site's own breaker and semaphore; Sites/Convert the conversions of
--     hh_parser.go and sj_parser.go to the common vacancy, and Sites/Convert/Queries the parameters
--     that their buildURL sets. Sites/Convert/Laws ties them to the reverse index. Sites/Make has the
--     constructors and the searches of the two parsers, Sites/Settings what they are made of, and
--     Sites/ById executeRequest and GetVacancyByID.
--   * Factory: parser/internal/parser/factory.go.
--   * Salary: parser/pkg/format_salary.go and GetSalaryString of HHVacancy, where Sites/Convert has
--     the one of SJVacancy. formatNumber is recursion on the well-foundedness of < (Base/Order).
--   * Limiter: parser/internal/rate_limiter. `tick` and `push` are the two halves of a round of run,
--     `ask` and `take` those of Wait, and Stop is three steps.
--   * Console: the menu of parser/cmd/parser/app.go and the console's side of the manager
--     (multi_search.go, internal_func.go, search_vacancy_datails.go). Console/Input has what is read,
--     Console/Menu the loop of Run, Console/Print what is shown, Console/Html cleanHTML, and
--     Console/Text what these use of Go's strings and strconv.
--   * Config: parser/configs.
--   * Start: initApp of parser/cmd/parser/app.go.
--   * Session: Run and main of parser/cmd/parser, with MultiSearch, GetVacancyDetails and
--     GetFullVacancyDetails whole: what a session at the console prints. Console and Manager meet here.
--   * Ids: parser/pkg/id_generator.go.
--   * Base: what the others share. Base/Lists, Base/Dict (an association list for a Go map), Base/Int,
--     Base/Text, Base/Error (Go errors, `%w` wrapping as a constructor), Base/Panic (the do blocks).
--
-- A search goes through the parts in this order: a job is made and enqueued (Jobs, Queue), a worker
-- runs executeSearch under the breaker (Manager/Worker, Breaker), which reads the search cache (Cache),
-- asks the healthy parsers (Status), each under its site's own breaker (Sites), stores the successful
-- results and indexes their vacancies (Manager/Caching), and completes the job, on which the caller
-- waits (Jobs).
--
-- Conventions. A function that can panic returns an Option, `none` for the panic. A method that
-- changes its receiver returns the new record. The clock is an argument: a time or a duration is a
-- natural number of nanoseconds, and the clock does not run backwards. `uint` counters wrap at 2 ^ 64;
-- the counters of a parser's status are left unbounded. A Go map is an association list, whose order
-- stands for the order of an iteration. A method under a mutex is one step. What a goroutine's timing
-- decides is an argument: the order in which results arrive, which case of a `select` fires. A loop
-- is recursion on the list that it ranges over. Two loops take fuel: tryEnqueueJob's one round more than
-- the pauses that fill the timeout, as each round but the first comes after a pause; the menu's one
-- more than the lines of the input, as each round reads a line.
--
-- Not modelled: JSON, SHA-256, YAML, net/url and HTTP (the search hash, the decoders, and the answers
-- of parsers and of health checks are arguments); the wording of the printed text, which is kept as
-- the values put in it. Manager/Worker is about one job that a worker takes; in Manager/Pool the
-- outcome of a search is an argument, and Manager/Engine joins the two for search jobs, taking the
-- searches of two workers one after the other; Manager/Threads interleaves them, without the global
-- breaker, whose sections round concurrent calls are those of Breaker/Invariant. The races of a `select`
-- are free: a worker's timeout may come though a slot is free, and a caller may go at any time. In
-- Session one action ends before the next, and the health checker steps between them, not within one
-- (Manager/Threads has that). A ticker that a goroutine makes panics for an interval of zero: the
-- constructors and the checker have that panic where the goroutine is started or makes the ticker.
-- Of the sites, drainAndClose, which only frees a connection, is left out; of the manager, the texts of
-- the prompts and of the log, and formatDate, which nothing calls.
pub mod Base
pub mod Breaker
pub mod Cache
pub mod Queue
pub mod Models
pub mod Jobs
pub mod Status
pub mod Manager
pub mod Sites
pub mod Salary
pub mod Factory
pub mod Limiter
pub mod Console
pub mod Config
pub mod Start
pub mod Ids
pub mod Session
