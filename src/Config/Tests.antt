-- ===== src/Config/Tests.antt =====
-- The configuration's theorems at a system without files.
use text.Mathlib.Text.{◌==◌ as str_eq}
use job_parser.Base.{◌≡◌, refl, none, some, inl, inr, if◌then◌else◌}
use job_parser.Base.Int.{pos}
use job_parser.Base.Error.{message}
use job_parser.Console.Text.{atoi}
use job_parser.Config.{
  Config, System, missing, load_config, seconds, default_cache_config, default_parsers_config,
  default_parsers_manager_config, default_health_check_config,
}
use job_parser.Config.Laws.{load_config_defaults}

-- A system with a timeout of five seconds, and the address of a file that is not there.
abbrev pub bare : System
bare = record {
  dotenv = none;
  getenv = λ name.
      if str_eq name "CONC_SEARCH_TIMEOUT"
      then "5"
      else if str_eq name "PARSERS_CONFIG_ADDRESS_STRING"
      then "p.yml"
      else "";
  file = λ path. missing;
  print = λ text. message text;
  decode_caches = λ text config. inr (some config);
  decode_parsers = λ text config. inr (some config);
  decode_manager = λ text config. inr (some config);
  decode_health = λ text config. inr (some config);
}

abbrev pub usual : Config
usual = record {
  conc_search_timeout = pos 5_000_000_000;
  cache = some default_cache_config;
  parsers = some default_parsers_config;
  manager = some default_parsers_manager_config;
  health_chech = some default_health_check_config;
}

five_lem : atoi (bare.getenv "CONC_SEARCH_TIMEOUT") ≡ some (pos 5)
unfolding atoi
five_lem = refl

pub bare_lem : load_config bare ≡ inr usual
unfolding seconds
bare_lem = load_config_defaults bare (pos 5) refl five_lem (inl refl) (inr refl) (inl refl)
