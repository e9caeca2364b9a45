-- ===== src/Sites/Tests.antt =====
-- The requests' theorems at a site with one slot.
use job_parser.Base.{String, ◌≡◌, refl, Option, none, some, [], ◌∷◌, arith, inl, inr, true, dec_lt}
use job_parser.Base.Error.{Error, message}
use job_parser.Breaker.{CircuitBreaker, closed, admit, settle, execute}
use job_parser.Sites.{
  BaseParser, Exchange, Slot, taken, Reply, response, answered, request, acquire_semaphore, in_slot,
}
use job_parser.Sites.Laws.{IsGood, request-IsGood}
use job_parser.Limiter.{unused_limiter}
use job_parser.Base.Int.{pos}
use job_parser.Models.{SearchParams, Vacancy, SearchVacanciesResult, Any}
use job_parser.Cache.{InmemoryShardedCache, new_shards}
use job_parser.Cache.Laws.{new-IsValid}
use job_parser.Salary.{itoa}
use job_parser.Sites.Convert.{SjVacancy, Parsed, sj_search, sj_convert}
use job_parser.Sites.Convert.Laws.{sj, returned_vacancy_found}
use job_parser.Sites.Convert.{HhVacancy, SearchResponse}
use job_parser.Sites.Make.{Libraries}
use job_parser.Manager.State.{ParsersManager}
use job_parser.Manager.Caching.{cache_search_results}
use job_parser.Manager.Details.{shown, get_vacancy_details}

abbrev params : SearchParams
params = record { text = "cook"; area = ""; per_page = pos 20; page = pos 0 }

-- Too many vacancies a page.
abbrev wide : SearchParams
wide = record params { per_page = pos 500; page = pos 2 }

abbrev pub breaker : CircuitBreaker
breaker = record {
  failure_threshold = 5;
  success_threshold = 3;
  half_open_max_requests = 2;
  reset_timeout = 10;
  window_duration = 10;
  state = closed;
  failures = 4;
  successes = 0;
  last_failure_time = 0;
  half_open_attempts = 0;
  total_requests = 4;
  total_successes = 0;
  total_failures = 4;
}

abbrev pub site : CircuitBreaker → BaseParser
site cb = record {
  name = "HH.ru";
  base_url = "u";
  health_end_point = "";
  api_key = "";
  http_client = record {
    timeout = 5;
    max_conns_per_host = 1;
    max_idle_conns_per_host = 1;
    idle_conn_timeout = 5;
    tls_handshake_timeout = 5;
    response_header_timeout = 5;
    expect_continue_timeout = 5;
  };
  rate_limiter = unused_limiter;
  circuit_breaker = cb;
  held = 0;
  max_concurrent = 1;
}

abbrev pub exchange : Slot → Reply → Exchange
exchange slot reply = record { start = 1; finish = 5; slot = slot; reply = reply; print = λ n. "" }

-- A site whose data are the texts themselves.
abbrev parse : String → String × Option Error
parse s = (s, none)

abbrev convert : String → String × Option Error
convert s = (s, none)

abbrev good : Reply
good = response 200 "[]" none

request-IsGood_example :
    IsGood parse convert good
      (request (exchange taken good) "u" "l" parse convert "" (site breaker)).2
unfolding request execute admit settle answered in_slot acquire_semaphore
request-IsGood_example =
    request-IsGood (exchange taken good) "u" "l" parse convert "" (site breaker) refl

abbrev reply : SjVacancy
reply = record {
  id = pos 7;
  profession = "cook";
  firm_name = "f";
  payment_from = pos 0;
  payment_to = pos 0;
  currency = "";
  town = record { title = "" };
  link = "";
  vacancy_rich_text = "";
}

abbrev parsed_reply : Parsed
parsed_reply = sj_search (record { items = reply ∷ []; total = pos 1 })

abbrev result : SearchVacanciesResult
result = record {
  vacancies = (sj_convert "SuperJob.ru" parsed_reply).0;
  parser_name = "SuperJob.ru";
  search_hash = "h";
  error = none;
  duration = 3;
}

abbrev caches : InmemoryShardedCache Any
caches = new_shards 5

abbrev manager : ParsersManager
manager = record {
  parsers = [];
  search_cache_ttl = 100;
  vacancy_cache_ttl = 50;
  search_cache = caches;
  vacancy_index = caches;
  vacancy_details = caches;
  parsers_status_manager = [];
  circuit_breaker = breaker;
}

returned_vacancy_found_example :
    (pm' : ParsersManager) × (t : Vacancy) × (cache_search_results
        (λ p. ("h", none))
        5
        params
        (result ∷ [])
        manager
      ≡ some pm')
    × (get_vacancy_details "SuperJob.ru" "7" 55 pm' ≡ some (pm', shown t))
    × (t.id ≡ "7")
unfolding sj_convert itoa dec_lt
returned_vacancy_found_example =
    returned_vacancy_found sj "SuperJob.ru" "7" (λ p. ("h", none)) 5 55 params (result ∷ []) manager
      (record {
        search_valid = new-IsValid Any 5 (omega arith);
        index_valid = new-IsValid Any 5 (omega arith);
        details_valid = new-IsValid Any 5 (omega arith);
      })
      refl (omega arith) (omega arith) (inl (refl, (parsed_reply, refl), inl refl))

-- A site whose URLs are their own texts, and whose replies all read as one vacancy.
abbrev pub ad : HhVacancy
ad = record {
  id = "7";
  name = "cook";
  salary = record { from = pos 0; to = pos 0; currency = ""; gross = true };
  employer = record { id = ""; name = "f" };
  area = record { id = ""; name = "a" };
  url = "l";
  description = "";
}

abbrev ads : SearchResponse
ads = record { items = some (ad ∷ []); found = pos 1; pages = pos 1 }

abbrev pub libraries : Libraries String
libraries = record {
  read_response = λ body. inr ads;
  read_super_job = λ body. inl (message "no");
  read_details = λ body. inl (message "no");
  parse_url = λ url. inr url;
  query = λ url. [];
  with_query = λ query url. url;
}
