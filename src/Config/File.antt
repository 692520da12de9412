-- ===== src/Config/File.antt =====
-- src/synology_mcp/config.py: `_parse_config`, from the tables that `tomllib` returns.
use synology_mcp.Base.{pos, String, ◌<>◌, Option, none, some, List, [], ◌∷◌, if◌then◌else◌}
use synology_mcp.Base.Dict.{Dict, insert}
use synology_mcp.Json.{
  Value, bool, int, float, text, dict, Float, finite, Fields, end, field, truthy, get, get_or,
  lookup_field,
}
use synology_mcp.Errors.{
  overflow_error, Exc, Result, ok, err, ◌>>=◌, plain, config_error, type_error, value_error,
}
use synology_mcp.Builtins.{to_int, to_text}
use synology_mcp.Platform.{Platform}
use synology_mcp.Config.{HostConfig, Config, Defaults, defaults}

module _ ⦃P : Platform⦄ where
  abbrev float_of_text : Option Float → Result Float
  float_of_text none = err value_error
  float_of_text (some x) = ok x

  abbrev float_of : Option Float → Result Float
  float_of none = err overflow_error
  float_of (some x) = ok x

  -- `float(v)`
  unfoldable pub to_float : Value → Result Float
  to_float (bool b) = ok (finite (pos (if b then 1 else 0)) 0)
  to_float (int n) = float_of (P.float_of_int n)
  to_float (float x) = ok x
  to_float (text s) = float_of_text (P.parse_float s)
  to_float _ = err type_error

  -- `if key in raw: field = convert(raw[key])`
  abbrev set_if : {A : Type 0} → (Value → Result A) → Option Value → A → Result A
  set_if convert none old = ok old
  set_if convert (some v) old = convert v

  unfoldable pub parse_defaults : Fields → Result Defaults
  parse_defaults raw = do
    port ← set_if to_int (lookup_field "port" raw) defaults.port
    use_https ← set_if (λ v. ok (truthy v)) (lookup_field "use_https" raw) defaults.use_https
    verify_tls ← set_if (λ v. ok (truthy v)) (lookup_field "verify_tls" raw) defaults.verify_tls
    ssh_port ← set_if to_int (lookup_field "ssh_port" raw) defaults.ssh_port
    connect ← set_if to_float (lookup_field "connect_timeout" raw) defaults.connect_timeout
    read ← set_if to_float (lookup_field "read_timeout" raw) defaults.read_timeout
    ok (record {
      port = port;
      use_https = use_https;
      verify_tls = verify_tls;
      ssh_port = ssh_port;
      connect_timeout = connect;
      read_timeout = read;
    })

  -- `_first_alias(raw, aliases) or ""`
  unfoldable pub first_alias : Fields → List String → String
  unfolding to_text
  first_alias raw [] = ""
  first_alias raw (key ∷ keys) = elim (lookup_field key raw) [
    | some v ↦ to_text v
    | none ↦ first_alias raw keys
  ]

  -- `_parse_host`
  unfoldable pub parse_host : String → Fields → Defaults → Result HostConfig
  parse_host name raw d = do
    port ← to_int (get_or raw "port" (int d.port))
    connect ← to_float (get_or raw "connect_timeout" (float d.connect_timeout))
    read ← to_float (get_or raw "read_timeout" (float d.read_timeout))
    ssh_port ← to_int (get_or raw "ssh_port" (int d.ssh_port))
    ok (record {
      name = name;
      ip = first_alias raw ("ip" ∷ "host" ∷ "address" ∷ []);
      account = first_alias raw ("account" ∷ "username" ∷ []);
      password = get raw "password";
      otp_code = get raw "otp_code";
      port = port;
      use_https = truthy (get_or raw "use_https" (bool d.use_https));
      verify_tls = truthy (get_or raw "verify_tls" (bool d.verify_tls));
      connect_timeout = connect;
      read_timeout = read;
      ssh_username = get raw "ssh_username";
      ssh_port = ssh_port;
      ssh_key_path = get raw "ssh_key_path";
      user_home_volume = get raw "user_home_volume";
    })

  not_a_table : String → Exc
  not_a_table where_ = plain config_error (where_ <> " must be a table") none end

  parse_host_value : String → Value → Defaults → Result HostConfig
  unfolding not_a_table
  parse_host_value name (dict raw) d = parse_host name raw d
  parse_host_value name _ d = err (not_a_table ("[hosts." <> (name <> "]")))

  -- the loop over `hosts_raw.items()`
  unfoldable pub parse_hosts : Fields → Defaults → Dict HostConfig → Result (Dict HostConfig)
  unfolding parse_host_value
  parse_hosts end d hosts = ok hosts
  parse_hosts (field name raw rest) d hosts = do
    host ← parse_host_value name raw d
    parse_hosts rest d (insert name host hosts)

  as_table : String → Value → Result Fields
  unfolding not_a_table
  as_table what (dict d) = ok d
  as_table what _ = err (not_a_table what)

  -- `_parse_config`
  unfoldable pub parse_config : Fields → Result Config
  unfolding as_table
  parse_config raw = do
    defaults_raw ← as_table "[defaults]" (get_or raw "defaults" (dict end))
    d ← parse_defaults defaults_raw
    hosts_raw ← as_table "[hosts]" (get_or raw "hosts" (dict end))
    hosts ← parse_hosts hosts_raw d []
    ok (record { defaults = d; hosts = hosts })
