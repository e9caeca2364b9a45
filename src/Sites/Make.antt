-- ===== src/Sites/Make.antt =====
-- The two sites' parsers: the constructors, the searches and the parsing of hh_parser.go and
-- sj_parser.go. JSON and net/url are parameters.
use Prim.Native.String
use job_parser.Base.{String, Option, none, some, List, ◌⊎◌, inl, inr}
use job_parser.Base.Dict.{Dict}
use job_parser.Base.Error.{Error, wrap}
use job_parser.Config.{ParserInstanceConfig, default_parsers_config}
use job_parser.Models.{SearchParams, Vacancy, SearchVacancyDetailesResult}
use job_parser.Sites.Settings.{BaseConfig}
use job_parser.Sites.{BaseParser, Exchange, new_base_parser, search_site, search_site_details}
use job_parser.Sites.Convert.{
  Parsed, nothing, hh_search, sj_search, found_details, SearchResponse, SearchDetails,
  SuperJobResponse, hh_convert, hh_convert_details, sj_convert, sj_convert_details,
}
use job_parser.Sites.Convert.Queries.{hh_query, sj_query}

unfoldable pub base_config : String → String → ParserInstanceConfig → BaseConfig
base_config name api_key cfg = record {
  name = name;
  base_url = cfg.base_url;
  health_end_point = cfg.health_end_point;
  api_key = api_key;
  timeout = cfg.timeout;
  rate_limit = cfg.rate_limit;
  max_concurrent = cfg.max_concurrent;
  circuit_breaker_cfg = cfg.circuit_breaker;
  max_idle_conns = cfg.max_idle_conns;
  idle_conn_timeout = cfg.idle_conn_timeout;
  tls_handshake_timeout = cfg.tls_handshake_timeout;
  response_header_timeout = cfg.response_header_timeout;
  expect_continue_timeout = cfg.expect_continue_timeout;
}

-- NewHHParser and NewSJParser; the first leaves the API key out. Without a configuration, and without
-- one among the defaults, the reading of a field panics.
unfoldable pub new_hh_parser : Option ParserInstanceConfig → Option BaseParser
unfolding base_config new_base_parser default_parsers_config
new_hh_parser (some cfg) = new_base_parser (base_config "HH.ru" "" cfg)
new_hh_parser none = elim default_parsers_config.hh [
  | none ↦ none
  | some cfg ↦ new_base_parser (base_config "HH.ru" "" cfg)
]

unfoldable pub new_sj_parser : Option ParserInstanceConfig → Option BaseParser
unfolding base_config new_base_parser default_parsers_config
new_sj_parser (some cfg) = new_base_parser (base_config "SuperJob.ru" cfg.api_key cfg)
new_sj_parser none = elim default_parsers_config.super_job [
  | none ↦ none
  | some cfg ↦ new_base_parser (base_config "SuperJob.ru" cfg.api_key cfg)
]

-- `json.Unmarshal` into the three types; `url.Parse`, the query of a URL, and its text with another.
pub record Libraries (U : Type 0) : Type 0 where
  pub read_response : String → Error ⊎ SearchResponse
  pub read_super_job : String → Error ⊎ SuperJobResponse
  pub read_details : String → Error ⊎ SearchDetails
  pub parse_url : String → Error ⊎ U
  pub query : U → Dict String
  pub with_query : Dict String → U → String

parsed_as {ℓ} : {T : Type ℓ} → String → (T → Parsed) → Error ⊎ T → Parsed × Option Error
parsed_as name f (inl e) = (
  nothing,
  some (
      wrap (String.◌++◌ "[Parser name: " (String.◌++◌ name "] parse reaponse body - failed: ")) e
        ""),
)
parsed_as name f (inr x) = (f x, none)

module _ {U : Type 0} (lib : Libraries U) where
  built : (Dict String → Dict String) → Error ⊎ U → String × Option Error
  built set (inl e) = ("", some e)
  built set (inr u) = (lib.with_query (set (lib.query u)) u, none)

  -- The two buildURL.
  unfoldable pub hh_build_url : BaseParser → SearchParams → String × Option Error
  unfolding built hh_query
  hh_build_url p params = built (hh_query params) (lib.parse_url p.base_url)

  unfoldable pub sj_build_url : BaseParser → SearchParams → String × Option Error
  unfolding built sj_query
  sj_build_url p params = built (sj_query params) (lib.parse_url p.base_url)

  -- parseResponseSearchVacancies of each, and parseResponseSearchDetails.
  unfoldable pub hh_parse : BaseParser → String → Parsed × Option Error
  unfolding parsed_as
  hh_parse p body = parsed_as p.name hh_search (lib.read_response body)

  unfoldable pub sj_parse : BaseParser → String → Parsed × Option Error
  unfolding parsed_as
  sj_parse p body = parsed_as p.name sj_search (lib.read_super_job body)

  unfoldable pub hh_parse_details : BaseParser → String → Parsed × Option Error
  unfolding parsed_as
  hh_parse_details p body = parsed_as p.name found_details (lib.read_details body)

  unfoldable pub sj_parse_details : BaseParser → String → Parsed × Option Error
  unfolding parsed_as
  sj_parse_details p body = parsed_as p.name found_details (lib.read_details body)

  -- SearchVacancies of each parser; what a literal leaves out is nil and is not called. GetName of the
  -- HH parser is the constant "HH.ru", which its constructor also gives as the name.
  unfoldable pub hh_search_vacancies :
      Exchange → SearchParams → BaseParser → BaseParser × List String × List Vacancy × Option Error
  unfolding search_site hh_build_url hh_parse hh_convert hh_convert_details
  hh_search_vacancies ex params p =
      search_site ex
        (record {
          build_url = hh_build_url p;
          parse = hh_parse p;
          convert = hh_convert p.name;
          convert_details = hh_convert_details p.name;
        })
        params p

  unfoldable pub sj_search_vacancies :
      Exchange → SearchParams → BaseParser → BaseParser × List String × List Vacancy × Option Error
  unfolding search_site sj_build_url sj_parse sj_convert sj_convert_details
  sj_search_vacancies ex params p =
      search_site ex
        (record {
          build_url = sj_build_url p;
          parse = sj_parse p;
          convert = sj_convert p.name;
          convert_details = sj_convert_details p.name;
        })
        params p

  -- SearchVacanciesDetailes of each parser.
  unfoldable pub hh_search_details :
      Exchange
      → String
      → BaseParser
      → BaseParser × List String × SearchVacancyDetailesResult × Option Error
  unfolding search_site_details hh_build_url hh_parse_details hh_convert hh_convert_details
  hh_search_details ex vacancy_id p =
      search_site_details ex
        (record {
          build_url = hh_build_url p;
          parse = hh_parse_details p;
          convert = hh_convert p.name;
          convert_details = hh_convert_details p.name;
        })
        vacancy_id p

  unfoldable pub sj_search_details :
      Exchange
      → String
      → BaseParser
      → BaseParser × List String × SearchVacancyDetailesResult × Option Error
  unfolding search_site_details sj_build_url sj_parse_details sj_convert sj_convert_details
  sj_search_details ex vacancy_id p =
      search_site_details ex
        (record {
          build_url = sj_build_url p;
          parse = sj_parse_details p;
          convert = sj_convert p.name;
          convert_details = sj_convert_details p.name;
        })
        vacancy_id p
