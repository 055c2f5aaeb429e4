-- ===== src/Startup.antt =====
-- cmd/cas/main.go: the configuration from the environment, the server that main starts, and the two
-- middlewares. The environment is a function, "" for a variable that is not set (os.Getenv); the
-- text of a float is read by a parameter, strconv.ParseFloat.
use ns_cas.Base.{
  ℕ, ◌≡◌, ◌⊎◌, inl, inr, join, Bool, true, false, ◌&&◌, ◌||◌, not, String, str_eq, List, [], ◌∷◌,
  Option, none, some, if◌then◌else◌,
}
use ns_cas.Base.Int.{ℤ, pos}
use ns_cas.Policy.{codes, atoi}
use ns_cas.State.{Config, default_config, new}
use ns_cas.Queue
use ns_cas.Engine.{Engine, new_engine}
use ns_cas.Store.{Store, OpenErrors, Opened, not_opened, opened, open_store}
use ns_cas.Http.{Response, code_only}
pub mod Laws

abbrev pub Environment : Type 0
Environment = String → String

unfoldable pub env_str : Environment → String → String → String
env_str env key def = if str_eq (env key) "" then def else env key

abbrev pub or_default : {A : Type 0} → A → Option A → A
or_default def none = def
or_default def (some n) = n

unfoldable pub env_int : Environment → String → ℤ → ℤ
env_int env key def = if str_eq (env key) "" then def else or_default def (atoi (codes (env key)))

unfoldable pub env_float : {F : Type 0} → (String → Option F) → Environment → String → F → F
env_float parse env key def = if str_eq (env key) "" then def else or_default def (parse (env key))

pub record Settings (F : Type 0) : Type 0 where
  pub port : String
  pub db_path : String
  pub aging_weight : F
  pub max_queue : ℤ
  pub cert_file : String
  pub key_file : String
  pub config : Config

unfoldable pub config_from : Environment → Config
unfolding default_config
config_from env = record {
  bucket_limit = env_int env "CAS_BUCKET_LIMIT" default_config.bucket_limit;
  policy_window_sec = env_int env "CAS_POLICY_WINDOW_SEC" default_config.policy_window_sec;
  sustained_limit = env_int env "CAS_SUSTAINED_LIMIT" default_config.sustained_limit;
  sustained_window_sec = env_int env "CAS_SUSTAINED_WINDOW_SEC" default_config.sustained_window_sec;
  sustained_min_limit = env_int env "CAS_SUSTAINED_MIN_LIMIT" default_config.sustained_min_limit;
  sustained_max_limit = env_int env "CAS_SUSTAINED_MAX_LIMIT" default_config.sustained_max_limit;
}

-- `one` is the float 1.0.
unfoldable pub settings_from : {F : Type 0} → (String → Option F) → F → Environment → Settings F
settings_from parse one env = record {
  port = env_str env "CAS_PORT" "8080";
  db_path = env_str env "CAS_DB_PATH" "/data/cas.db";
  aging_weight = env_float parse env "CAS_AGING_WEIGHT" one;
  max_queue = env_int env "CAS_MAX_QUEUE" (pos 100);
  cert_file = env "CAS_CERT_FILE";
  key_file = env "CAS_KEY_FILE";
  config = config_from env;
}

-- The engine over a new state and a new queue, with the database that was opened.
unfoldable pub start : {F : Type 0} → Settings F → Engine F
start s = new_engine (new s.config) (Queue.new s.aging_weight) s.max_queue true

-- main: the server, or the message of log.Fatalf when the database does not open.
abbrev pub launch : {F : Type 0} → Settings F → Opened → String ⊎ (Engine F × Store)
launch s (not_opened err) = inl (join "[cas] database init failed: " err)
launch s (opened database) = inr (start s, database)

unfoldable pub main_start :
    {F : Type 0} → Settings F → OpenErrors → Store → String ⊎ (Engine F × Store)
main_start s errs file = launch s (open_store errs file)

-- Whether the server speaks TLS.
unfoldable pub uses_tls : {F : Type 0} → Settings F → Bool
uses_tls s = not (str_eq s.cert_file "") && not (str_eq s.key_file "")

-- The headers that corsMiddleware sets, and its answer: the handler runs unless the method is
-- OPTIONS.
abbrev pub cors_headers : List (String × String)
cors_headers =
    ("Access-Control-Allow-Origin", "*")
    ∷ ("Access-Control-Allow-Methods", "POST, GET, OPTIONS")
    ∷ ("Access-Control-Allow-Headers", "Content-Type, User-Agent")
    ∷ ("Access-Control-Max-Age", "86400")
    ∷ []

unfoldable pub cors_middleware :
    {S : Type 0}
    → (String → S → S × Response)
    → String
    → S
    → S × (List (String × String) × Response)
cors_middleware next method s =
    let (t, r) = next method s in
    if str_eq method "OPTIONS" then (s, (cors_headers, code_only 204)) else (t, (cors_headers, r))

-- loggingMiddleware writes a line for every path but these.
unfoldable pub is_logged : String → Bool
is_logged path =
    not (str_eq path "/dashboard" || str_eq path "/dashboard/" || str_eq path "/healthz")
