-- ===== src/Start/Tests.antt =====
-- The start of the program without a file of its configuration.
use job_parser.Base.{refl, none, [], arith}
use job_parser.Config.{
  default_cache_config, default_parsers_config, default_parsers_manager_config,
  default_health_check_config, default_site,
}
use job_parser.Config.Tests.{usual}
use job_parser.Models.{zero_details}
use job_parser.Start.{Answers}
use job_parser.Start.Laws.{IsComplete}

abbrev silent : Answers
silent = record {
  search_vacancies = λ p params. ([], none);
  search_details = λ p id. (zero_details, none);
}

unfoldable pub complete : IsComplete usual
unfolding default_cache_config default_parsers_config default_health_check_config
complete = record {
  caches = default_cache_config;
  caches_eq = refl;
  some_shard = omega arith;
  search_ticks = omega arith;
  index_ticks = omega arith;
  hh_ticks = omega arith;
  super_job_ticks = omega arith;
  checks = omega arith;
  hh = default_site "https://api.hh.ru/vacancies";
  super_job = default_site "https://api.superjob.ru/2.0/vacancies/";
  parsers_eq = refl;
  manager = default_parsers_manager_config;
  manager_eq = refl;
  health = default_health_check_config;
  health_eq = refl;
}
