-- ===== src/Config.antt =====
-- The configuration: parser/configs, the loading of config.go; the structs and their defaults are in
-- Config/Defaults. Files, the environment and the YAML decoder are parameters: a path's file is
-- missing, unreadable or has a text, and the decoder lays a text over a value, with nothing (a nil
-- pointer) for a document that is null.
pub mod Defaults
pub mod Laws
pub mod Tests
unfoldable pub use Defaults.*
use Prim.Native.String
use text.Mathlib.Text.{◌==◌ as str_eq}
use job_parser.Base.{
  ℕ, suc, ◌-◌, ◌*◌, ◌%◌, ◌^◌, String, Bool, true, false, Option, none, some, ◌⊎◌, inl, inr, ltb,
  leb, ◌==◌, if◌then◌else◌,
}
use job_parser.Base.Int.{ℤ, pos, negsuc}
use job_parser.Base.Error.{Error, message, error_text}
use job_parser.Breaker.{CircuitBreakerConfig}
use job_parser.Console.Text.{atoi}

-- What os.Stat and os.ReadFile find under a path.
pub data File : Type 0 where
  missing : File
  unreadable : Error → File
  readable : String → File

pub record Config : Type 0 where
  pub conc_search_timeout : ℤ
  pub cache : Option CachesConfig
  pub parsers : Option ParsersConfig
  pub manager : Option ParserManagerConfig
  pub health_chech : Option HealthCheckConfig

-- `yaml.Unmarshal(yamlFile, &config)` for the four types.
abbrev pub Decoder : Type 0 → Type 0
Decoder T = String → T → Error ⊎ Option T

pub record System : Type 0 where
  pub dotenv : Option Error  -- what godotenv.Load returns
  pub getenv : String → String  -- once .env is loaded
  pub file : String → File
  pub print : String → Error  -- the error of Atoi for a text that is no number
  pub decode_caches : Decoder CachesConfig
  pub decode_parsers : Decoder ParsersConfig
  pub decode_manager : Decoder ParserManagerConfig
  pub decode_health : Decoder HealthCheckConfig

decoded {ℓ} : {T : Type ℓ} → (String → T → Error ⊎ Option T) → T → File → Error ⊎ Option T
decoded decode defaults missing = inr (some defaults)
decoded decode defaults (unreadable e) = inl e
decoded decode defaults (readable text) = decode text defaults

unfoldable pub load_yaml_config {ℓ} :
    {T : Type ℓ} → (String → File) → (String → T → Error ⊎ Option T) → String → T → Error ⊎ Option T
unfolding decoded
load_yaml_config file decode path defaults =
    if str_eq path "" then inr (some defaults) else decoded decode defaults (file path)

-- `time.Duration(n) * time.Second`, in the 64 bits of a Duration.
unfoldable pub seconds : ℤ → ℤ
seconds (pos n) =
    let r = n * second % 2 ^ 64 in if ltb r (2 ^ 63) then pos r else negsuc (2 ^ 64 - 1 - r)
seconds (negsuc n) =
    let r = suc n * second % 2 ^ 64 in
    if r == 0 then pos 0 else if leb r (2 ^ 63) then negsuc (r - 1) else pos (2 ^ 64 - r)

failed : Error → Error
failed e = message (String.◌++◌ "Error during loading config: " (String.◌++◌ (error_text e) "\n"))

-- `if err != nil { return nil, fmt.Errorf(…, err.Error()) }` round a step of LoadConfig.
◌>>=◌ {ℓ κ} : {A : Type ℓ} {B : Type κ} → Error ⊎ A → (A → Error ⊎ B) → Error ⊎ B
unfolding failed
◌>>=◌ (inl e) next = inl (failed e)
◌>>=◌ (inr a) next = next a

loaded : Option Error → Error ⊎ Bool
loaded none = inr true
loaded (some e) = inl e

number : Error → Option ℤ → Error ⊎ ℤ
number e none = inl e
number e (some n) = inr n

-- LoadConfig; the manager's configuration is read from the file of the parsers'.
unfoldable pub load_config : System → Error ⊎ Config
unfolding ◌>>=◌ loaded number atoi seconds load_yaml_config
load_config sys = do
  _ ← loaded sys.dotenv
  let timeout = sys.getenv "CONC_SEARCH_TIMEOUT"
  n ← number (sys.print timeout) (atoi timeout)
  caches ←
      load_yaml_config sys.file sys.decode_caches (sys.getenv "CACHES_CONFIG_ADDRESS_STRING")
        default_cache_config
  parsers ←
      load_yaml_config sys.file sys.decode_parsers (sys.getenv "PARSERS_CONFIG_ADDRESS_STRING")
        default_parsers_config
  manager ←
      load_yaml_config sys.file sys.decode_manager (sys.getenv "PARSERS_CONFIG_ADDRESS_STRING")
        default_parsers_manager_config
  health ←
      load_yaml_config sys.file sys.decode_health (sys.getenv "HEALTH_CHECK_CONFIG_ADDRESS_STRING")
        default_health_check_config
  inr (record {
    conc_search_timeout = seconds n;
    cache = caches;
    parsers = parsers;
    manager = manager;
    health_chech = health;
  })
