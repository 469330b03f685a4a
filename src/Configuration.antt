-- ===== src/Configuration.antt =====
-- src/config.ts: the overrides by environment variables, and the configuration on disk and in the
-- cache. A value that callers change in place is not part of this.
pub mod Reload
mod Tests
use Prim.Native.String
use inter_claude_connector.Base.{
  ℕ, String, Bool, true, false, Option, none, some, ◌==◌, or_null, truthy,
}
use inter_claude_connector.Dict.{Dict, get}
use inter_claude_connector.Address.{build_address}
use inter_claude_connector.Json.{Fields, deep_merge}

-- The fields of `ICCConfig` that the environment can override, and the others as they are. A port is
-- none where it is no number.
pub record Settings : Type 0 where
  pub identity : String
  pub instance_name : Option String
  pub host : String
  pub port : Option ℕ
  pub local_token : Option String
  pub readfile_enabled : Bool
  pub exec_enabled : Bool
  pub tls_enabled : Bool
  pub cert_path : Option String
  pub key_path : Option String
  pub ca_path : Option String
  pub enroll_port : Option ℕ
  pub localhost_http_port : Option ℕ
  pub others : Fields

-- `if (name in env && env[name]) field = env[name]`
abbrev pub given_text : Option String → String → String
given_text o old = elim (truthy o) [ none ↦ old | some text ↦ text ]

-- `if (name in env) field = env[name] || null`
abbrev pub given_or_null : Option String → Option String → Option String
given_or_null none old = old
given_or_null (some text) old = or_null text

-- `if (name in env) field = env[name] === 'true'`
abbrev pub given_flag : Option String → Bool → Bool
given_flag none old = old
given_flag (some text) old = text == "true"

module _ (parse_int : String → Option ℕ) where
  -- `if (name in env && env[name]) field = parseInt(env[name], 10)`
  abbrev pub given_port : Option String → Option ℕ → Option ℕ
  given_port o old = elim (truthy o) [ none ↦ old | some text ↦ parse_int text ]

  -- `applyEnvOverrides`; each assignment is to a field of its own.
  unfoldable pub apply_env_overrides : (env : Dict String) → Settings → Settings
  apply_env_overrides env config = record {
    identity = given_text (get "ICC_IDENTITY" env) config.identity;
    instance_name = given_or_null (get "ICC_INSTANCE" env) config.instance_name;
    host = given_text (get "ICC_HOST" env) config.host;
    port = given_port (get "ICC_PORT" env) config.port;
    local_token = given_or_null (get "ICC_LOCAL_TOKEN" env) config.local_token;
    readfile_enabled = given_flag (get "ICC_READFILE_ENABLED" env) config.readfile_enabled;
    exec_enabled = given_flag (get "ICC_EXEC_ENABLED" env) config.exec_enabled;
    tls_enabled = given_flag (get "ICC_TLS_ENABLED" env) config.tls_enabled;
    cert_path = given_or_null (get "ICC_TLS_CERT" env) config.cert_path;
    key_path = given_or_null (get "ICC_TLS_KEY" env) config.key_path;
    ca_path = given_or_null (get "ICC_TLS_CA" env) config.ca_path;
    enroll_port = given_port (get "ICC_ENROLL_PORT" env) config.enroll_port;
    localhost_http_port = given_port (get "ICC_LOCALHOST_HTTP_PORT" env) config.localhost_http_port;
    others = config.others;
  }

-- `getFullAddress`
unfoldable pub get_full_address : Settings → String
get_full_address config = build_address config.identity config.instance_name

-- `user_config` is the file of the user, or none where it is missing or no JSON; `cached` is
-- `_cachedConfig`.
pub record ConfigState : Type 0 where
  pub user_config : Option Fields
  pub cached : Option Settings

-- What the configuration depends on: the environment, the file of defaults, `parseInt`, the decimal
-- digits of an index, and how a JSON object is read and printed as a configuration.
pub record Setting : Type 0 where
  pub env : Dict String
  pub defaults : Fields
  pub parse_int : String → Option ℕ
  pub decimal : ℕ → String
  pub read : Fields → Settings
  pub print : Settings → Fields

abbrev pub merged : (decimal : ℕ → String) (defaults : Fields) → Option Fields → Fields
merged decimal defaults none = defaults
merged decimal defaults (some user_config) = deep_merge decimal defaults user_config

abbrev pub unless : Bool → Option Settings → Option Settings
unless true o = none
unless false o = o

module _ (setting : Setting) where
  abbrev pub fresh_config : Option Fields → Settings
  fresh_config user_config =
      apply_env_overrides setting.parse_int setting.env
        (setting.read (merged setting.decimal setting.defaults user_config))

  unfoldable pub load_config : (reload : Bool) → ConfigState → Settings × ConfigState
  unfolding apply_env_overrides
  load_config reload s = elim (unless reload s.cached) [
    | some config ↦ (config, s)
    | none ↦ let config = fresh_config s.user_config in (config, record s { cached = some config })
  ]

  unfoldable pub write_config : Settings → ConfigState → ConfigState
  write_config config s = record s {
    user_config = some (setting.print config);
    cached = some config;
  }

unfoldable pub clear_config_cache : ConfigState → ConfigState
clear_config_cache s = record s { cached = none }
