-- ===== src/Sites.antt =====
-- The requests of a site's parser: parser/internal/parser/base_parser.go. A site gives its own
-- functions (ParserFuncs); JSON and HTTP are parameters: what they return for one request is an
-- argument. The semaphore is the number of the slots taken. The rate limiter's Wait only delays, as
-- its error is not read.
pub mod Laws
pub mod Convert
pub mod Make
pub mod Settings
pub mod ById
mod Tests
use Prim.Native.String
use job_parser.Base.{
  ℕ, String, ◌+◌, ◌-◌, Bool, ◌&&◌, Option, none, some, List, [], ◌∷◌, ◌⊎◌, inl, inr, ltb, leb, ◌==◌,
  if◌then◌else◌,
}
use job_parser.Base.Error.{Error, message, wrap, is_circuit_open}
use job_parser.Base.Http.{HttpClient}
use job_parser.Base.Panic.{◌>>=◌}
use job_parser.Limiter.{ChannelRateLimiter, new_channel_rate_limiter}
use job_parser.Sites.Settings.{BaseConfig, create_http_client}
use job_parser.Breaker.{CircuitBreaker, new_circut_breaker, execute}
use job_parser.Models.{SearchParams, Vacancy, SearchVacancyDetailesResult, zero_details}

-- ParserFuncs; `P` is the type behind the `interface{}` that Parse returns.
pub record ParserFuncs (P : Type 0) : Type 0 where
  pub build_url : SearchParams → String × Option Error
  pub parse : String → P × Option Error
  pub convert : P → List Vacancy × Option Error
  pub convert_details : P → SearchVacancyDetailesResult × Option Error

pub record BaseParser : Type 0 where
  pub name : String
  pub base_url : String
  pub health_end_point : String
  pub api_key : String
  pub http_client : HttpClient
  pub rate_limiter : ChannelRateLimiter
  pub circuit_breaker : CircuitBreaker
  pub held : ℕ  -- what is in the channel `semaphore`
  pub max_concurrent : ℕ

-- The rate limiter's ticker panics for a rate that is not positive.
unfoldable pub new_base_parser : BaseConfig → Option BaseParser
unfolding create_http_client new_channel_rate_limiter
new_base_parser config = do
  limiter ← new_channel_rate_limiter config.rate_limit
  some (record {
    name = config.name;
    base_url = config.base_url;
    health_end_point = config.health_end_point;
    api_key = config.api_key;
    http_client = create_http_client config;
    rate_limiter = limiter;
    circuit_breaker = new_circut_breaker config.circuit_breaker_cfg;
    held = 0;
    max_concurrent = config.max_concurrent;
  })

-- How the `select` of acquireSemaphore ends. A full semaphore takes nothing before the timeout.
pub data Slot : Type 0 where
  taken : Slot
  cancelled : Error → Slot
  busy : Slot

-- How executeRequest ends; a response has a status, what of the body can be read, and the error of
-- the reading.
pub data Reply : Type 0 where
  not_made : Error → Reply
  not_sent : Error → Reply
  response : ℕ → String → Option Error → Reply

-- What the environment decides of one request: the times of the breaker's two sections, the slot, the
-- reply; and `%d` for a status.
pub record Exchange : Type 0 where
  pub start : ℕ
  pub finish : ℕ
  pub slot : Slot
  pub reply : Reply
  pub print : ℕ → String

-- What the function under the breaker works on: the semaphore, the URLs asked for, and the variable
-- for the result.
pub record Session {ℓ} (T : Type ℓ) : Type ℓ where
  pub held : ℕ
  pub asked : List String
  pub found : T

no_slot : String → Error
no_slot name = message (String.◌++◌ "semaphore timeout: " (String.◌++◌ name " API is busy"))

unfoldable pub acquire_semaphore {ℓ} :
    {T : Type ℓ} → Slot → BaseParser → Session T → Session T × Option Error
unfolding no_slot
acquire_semaphore taken p s =
    if ltb s.held p.max_concurrent
    then (record s { held = s.held + 1 }, none)
    else (s, some (no_slot p.name))
acquire_semaphore (cancelled e) p s =
    (s, some (wrap "context canceled while waiting for semaphore: " e ""))
acquire_semaphore busy p s = (s, some (no_slot p.name))

unfoldable pub release_semaphore {ℓ} : {T : Type ℓ} → Session T → Session T
release_semaphore s = record s { held = s.held - 1 }

unfoldable pub check_response_status : (ℕ → String) → ℕ → String → Option Error
check_response_status print status body =
    if status == 200
    then none
    else if leb 500 status && ltb status 600
    then some (
        message
          (String.◌++◌ "API server error " (String.◌++◌ (print status) (String.◌++◌ ": " body))))
    else some (
        message
          (String.◌++◌ "API returned status " (String.◌++◌ (print status) (String.◌++◌ ": " body))))

module _ {ℓ} {T : Type ℓ} where
  converted : String → T × Option Error → Error ⊎ T
  converted label (t, none) = inr t
  converted label (t, some e) = inl (wrap label e "")

  store : Error ⊎ T → Session T → Session T × Option Error
  store (inl e) s = (s, some e)
  store (inr t) s = (record s { found = t }, none)

  -- The function that runs under the breaker, the deferred release of the slot included.
  in_slot : String → Error ⊎ T → Session T × Option Error → Session T × Option Error
  unfolding store release_semaphore
  in_slot url outcome (s, some e) = (s, some e)
  in_slot url outcome (s, none) =
      let (s', err) = store outcome (record s { asked = url ∷ s.asked }) in
      (release_semaphore s', err)

  unfoldable pub handle_circuit_breaker_error_universal : T → String → Error → T × Option Error
  handle_circuit_breaker_error_universal zero_value name e = (
    zero_value,
    some (
        if is_circuit_open e
        then message (String.◌++◌ name " is temporarily unavailable (circuit breaker open)")
        else wrap "operation failed: " e ""),
  )

  final : T → String → T → Option Error → T × Option Error
  unfolding handle_circuit_breaker_error_universal
  final zero_value name found none = (found, none)
  final zero_value name found (some e) = handle_circuit_breaker_error_universal zero_value name e

module _ {ℓ} {P : Type 0} {T : Type ℓ} where
  parsed : String → (P → T × Option Error) → P × Option Error → Error ⊎ T
  unfolding converted
  parsed label convert (x, some e) = inl (wrap "parse response failed: " e "")
  parsed label convert (x, none) = converted label (convert x)

  body_read :
      String
      → (String → P × Option Error)
      → (P → T × Option Error)
      → String
      → Option Error
      → Error ⊎ T
  unfolding parsed
  body_read label parse convert body (some e) = inl (wrap "read response failed: " e "")
  body_read label parse convert body none = parsed label convert (parse body)

  -- From the request to the converted data, or the error that ends it.
  unfoldable pub answered :
      (ℕ → String)
      → String
      → (String → P × Option Error)
      → (P → T × Option Error)
      → Reply
      → Error ⊎ T
  unfolding check_response_status body_read
  answered print label parse convert (not_made e) = inl (wrap "create request failed: " e "")
  answered print label parse convert (not_sent e) = inl (wrap "HTTP request failed: " e "")
  answered print label parse convert (response status body err) =
      elim (check_response_status print status body) [
        | some e ↦ inl e
        | none ↦ body_read label parse convert body err
      ]

  -- One request under the breaker: the parser after it, the URLs asked for, and what is returned.
  unfoldable pub request :
      Exchange
      → String
      → String
      → (String → P × Option Error)
      → (P → T × Option Error)
      → T
      → BaseParser
      → BaseParser × List String × T × Option Error
  unfolding answered in_slot acquire_semaphore final
  request ex url label parse convert zero_value p =
      let (cb, s, err) =
        execute ex.start ex.finish
          (λ s.
            in_slot url (answered ex.print label parse convert ex.reply)
              (acquire_semaphore ex.slot p s))
          p.circuit_breaker (record { held = p.held; asked = []; found = zero_value }) in
      (
        record p { circuit_breaker = cb; held = s.held },
        s.asked,
        (final zero_value p.name s.found err).0,
        (final zero_value p.name s.found err).1,
      )

-- `pkg.UrlBuilder`
abbrev pub url_builder : String → String → String
url_builder url id = String.◌++◌ url (String.◌++◌ "/" id)

module _ {P : Type 0} where
  with_url :
      Exchange
      → ParserFuncs P
      → String × Option Error
      → BaseParser
      → BaseParser × List String × List Vacancy × Option Error
  unfolding request
  with_url ex funcs (url, some e) p = (p, [], [], some (wrap "build URL failed: " e ""))
  with_url ex funcs (url, none) p =
      request ex url "convert to universal failed: " funcs.parse funcs.convert [] p

  -- SearchVacancies of BaseParser.
  unfoldable pub search_site :
      Exchange
      → ParserFuncs P
      → SearchParams
      → BaseParser
      → BaseParser × List String × List Vacancy × Option Error
  unfolding with_url
  search_site ex funcs params p = with_url ex funcs (funcs.build_url params) p

  -- SearchVacancyDetailes of BaseParser.
  unfoldable pub search_site_details :
      Exchange
      → ParserFuncs P
      → String
      → BaseParser
      → BaseParser × List String × SearchVacancyDetailesResult × Option Error
  unfolding request
  search_site_details ex funcs vacancy_id p =
      request ex (url_builder p.base_url vacancy_id) "convert of details - failed: " funcs.parse
        funcs.convert_details zero_details p
