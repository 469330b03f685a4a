-- ===== src/Configuration/Tests.antt =====
-- A host that is named by its environment, with a file that names it otherwise.
use inter_claude_connector.Base.{String, ◌≡◌, refl, false, Option, none, some, [], ◌∷◌}
use inter_claude_connector.Dict.{get}
use inter_claude_connector.Json.{Json, str, end, field, get_field}
use inter_claude_connector.Configuration.{
  Settings, apply_env_overrides, ConfigState, Setting, load_config,
}

abbrev named : Option Json → String
named (some (str s)) = s
named _ = ""

abbrev sample_settings : (identity : String) → Settings
sample_settings identity = record {
  identity = identity;
  instance_name = none;
  host = "127.0.0.1";
  port = some 3179;
  local_token = none;
  readfile_enabled = false;
  exec_enabled = false;
  tls_enabled = false;
  cert_path = none;
  key_path = none;
  ca_path = none;
  enroll_port = none;
  localhost_http_port = none;
  others = end;
}

abbrev sample_setting : Setting
sample_setting = record {
  env = ("ICC_IDENTITY", "mars") ∷ [];
  defaults = field "identity" (str "unnamed") end;
  parse_int = λ _. none;
  decimal = λ _. "0";
  read = λ fs. sample_settings (named (get_field "identity" fs));
  print = λ c. field "identity" (str c.identity) end;
}

abbrev sample_state : ConfigState
sample_state = record { user_config = some (field "identity" (str "venus") end); cached = none }

load_config_check : (load_config sample_setting false sample_state).0.identity ≡ "mars"
unfolding load_config apply_env_overrides get
load_config_check = refl
