-- ===== src/Configuration/Reload.antt =====
-- Overriding a configuration twice by the same environment.
use inter_claude_connector.Base.{ℕ, String, ◌≡◌, refl, Bool, Option, none, some, arith}
use inter_claude_connector.Dict.{Dict, get}
use inter_claude_connector.Configuration.{
  Settings, given_text, given_or_null, given_flag, given_port, apply_env_overrides,
}

given_text_twice : (o : Option String) (x : String) → given_text o (given_text o x) ≡ given_text o x
given_text_twice o x = ground arith

given_or_null_twice :
    (o x : Option String) → given_or_null o (given_or_null o x) ≡ given_or_null o x
given_or_null_twice none x = refl
given_or_null_twice (some t) x = refl

given_flag_twice : (o : Option String) (x : Bool) → given_flag o (given_flag o x) ≡ given_flag o x
given_flag_twice none x = refl
given_flag_twice (some t) x = refl

module _ (parse_int : String → Option ℕ) where
  given_port_twice :
      (o : Option String) (x : Option ℕ)
      → given_port parse_int o (given_port parse_int o x) ≡ given_port parse_int o x
  given_port_twice o x = ground arith

  -- Overriding by the same environment a second time changes nothing.
  pub apply_env_overrides_twice :
      (env : Dict String) (config : Settings)
      → apply_env_overrides parse_int env (apply_env_overrides parse_int env config)
        ≡ apply_env_overrides parse_int env config
  unfolding apply_env_overrides
  apply_env_overrides_twice env config = λ i. record {
    identity = given_text_twice (get "ICC_IDENTITY" env) config.identity i;
    instance_name = given_or_null_twice (get "ICC_INSTANCE" env) config.instance_name i;
    host = given_text_twice (get "ICC_HOST" env) config.host i;
    port = given_port_twice (get "ICC_PORT" env) config.port i;
    local_token = given_or_null_twice (get "ICC_LOCAL_TOKEN" env) config.local_token i;
    readfile_enabled = given_flag_twice (get "ICC_READFILE_ENABLED" env) config.readfile_enabled i;
    exec_enabled = given_flag_twice (get "ICC_EXEC_ENABLED" env) config.exec_enabled i;
    tls_enabled = given_flag_twice (get "ICC_TLS_ENABLED" env) config.tls_enabled i;
    cert_path = given_or_null_twice (get "ICC_TLS_CERT" env) config.cert_path i;
    key_path = given_or_null_twice (get "ICC_TLS_KEY" env) config.key_path i;
    ca_path = given_or_null_twice (get "ICC_TLS_CA" env) config.ca_path i;
    enroll_port = given_port_twice (get "ICC_ENROLL_PORT" env) config.enroll_port i;
    localhost_http_port =
        given_port_twice (get "ICC_LOCALHOST_HTTP_PORT" env) config.localhost_http_port i;
    others = config.others;
  }
