-- ===== src/Config/Laws.antt =====
-- When the configuration is the default one.
use text.Mathlib.Text.{◌==◌ as str_eq}
use job_parser.Base.{◌≡◌, String, none, some, ◌⊎◌, inl, inr, Bool-cases}
use job_parser.Base.Int.{ℤ}
use job_parser.Console.Text.{atoi}
use job_parser.Config.{
  System, missing, Decoder, load_yaml_config, load_config, seconds, default_cache_config,
  default_parsers_config, default_parsers_manager_config, default_health_check_config,
}

-- Nothing is to be read for a path: it is empty, or names no file.
abbrev pub IsAbsent : System → String → Type 0
IsAbsent sys path = (path ≡ "") ⊎ (sys.file path ≡ missing)

absent_lem :
    {T : Type 0} (sys : System) (decode : Decoder T) (path : String) (defaults : T)
    → IsAbsent sys path
    → load_yaml_config sys.file decode path defaults ≡ inr (some defaults)
unfolding load_yaml_config
absent_lem sys decode path defaults (inl e) = rw (e)
absent_lem sys decode path defaults (inr e) = elim (Bool-cases (str_eq path "")) [
  | inl y ↦ rw (y)
  | inr n ↦ rw (n, e)
]

-- Without a file for any of the three addresses, a readable .env with a number of seconds gives the
-- default configuration in every part: the manager's own file is never asked for.
pub load_config_defaults :
    (sys : System) (n : ℤ)
    → sys.dotenv ≡ none
    → atoi (sys.getenv "CONC_SEARCH_TIMEOUT") ≡ some n
    → IsAbsent sys (sys.getenv "CACHES_CONFIG_ADDRESS_STRING")
    → IsAbsent sys (sys.getenv "PARSERS_CONFIG_ADDRESS_STRING")
    → IsAbsent sys (sys.getenv "HEALTH_CHECK_CONFIG_ADDRESS_STRING")
    → load_config sys
      ≡ inr (record {
        conc_search_timeout = seconds n;
        cache = some default_cache_config;
        parsers = some default_parsers_config;
        manager = some default_parsers_manager_config;
        health_chech = some default_health_check_config;
      })
unfolding load_config
load_config_defaults sys n d a c p h = rw (
  d,
  a,
  absent_lem sys sys.decode_caches _ default_cache_config c,
  absent_lem sys sys.decode_parsers _ default_parsers_config p,
  absent_lem sys sys.decode_manager _ default_parsers_manager_config p,
  absent_lem sys sys.decode_health _ default_health_check_config h,
)
