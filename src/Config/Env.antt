-- ===== src/Config/Env.antt =====
-- src/synology_mcp/config.py: the environment's settings of a host, and how a host is resolved
-- from the environment, the file and the defaults.
pub mod Precedence
use synology_mcp.Base.{
  ℤ, String, ◌<>◌, ◌==◌, Bool, true, false, ◌&&◌, ◌||◌, Option, none, some, List, [], ◌∷◌,
  if◌then◌else◌,
}
use synology_mcp.Base.Text
use synology_mcp.Base.Dict.{lookup}
use synology_mcp.Json.{Value, null, text, Float, end}
use synology_mcp.Errors.{Exc, Result, ok, err, ◌>>=◌, plain, config_error}
use synology_mcp.Platform.{Platform}
use synology_mcp.Config.{HostConfig, Config, Defaults}

-- The keyword arguments of `HostConfig`: `none` for a key that is missing.
pub record Overlay : Type 0 where
  pub ip : Option String
  pub account : Option String
  pub password : Option Value
  pub otp_code : Option Value
  pub port : Option ℤ
  pub use_https : Option Bool
  pub verify_tls : Option Bool
  pub connect_timeout : Option Float
  pub read_timeout : Option Float
  pub ssh_username : Option Value
  pub ssh_port : Option ℤ
  pub ssh_key_path : Option Value
  pub user_home_volume : Option Value

abbrev pub empty_overlay : Overlay
empty_overlay = record {
  ip = none;
  account = none;
  password = none;
  otp_code = none;
  port = none;
  use_https = none;
  verify_tls = none;
  connect_timeout = none;
  read_timeout = none;
  ssh_username = none;
  ssh_port = none;
  ssh_key_path = none;
  user_home_volume = none;
}

abbrev missing {ℓ} : {A : Type ℓ} → Option A → Bool
missing none = true
missing (some a) = false

-- `not overlay`
unfoldable pub is_blank : Overlay → Bool
is_blank o =
    missing o.ip
    && missing o.account
    && missing o.password
    && missing o.otp_code
    && missing o.port
    && missing o.use_https
    && missing o.verify_tls
    && missing o.connect_timeout
    && missing o.read_timeout
    && missing o.ssh_username
    && missing o.ssh_port
    && missing o.ssh_key_path
    && missing o.user_home_volume

-- the keyword arguments of a host of the file
unfoldable pub overlay_of : Option HostConfig → Overlay
overlay_of none = empty_overlay
overlay_of (some c) = record {
  ip = some c.ip;
  account = some c.account;
  password = some c.password;
  otp_code = some c.otp_code;
  port = some c.port;
  use_https = some c.use_https;
  verify_tls = some c.verify_tls;
  connect_timeout = some c.connect_timeout;
  read_timeout = some c.read_timeout;
  ssh_username = some c.ssh_username;
  ssh_port = some c.ssh_port;
  ssh_key_path = some c.ssh_key_path;
  user_home_volume = some c.user_home_volume;
}

abbrev pub or_else {ℓ} : {A : Type ℓ} → Option A → Option A → Option A
or_else (some a) b = some a
or_else none b = b

abbrev pub or_default {ℓ} : {A : Type ℓ} → Option A → A → A
or_default (some a) b = a
or_default none b = b

-- `merged.update(overlay)`
unfoldable pub merge : Overlay → Overlay → Overlay
merge o m = record {
  ip = or_else o.ip m.ip;
  account = or_else o.account m.account;
  password = or_else o.password m.password;
  otp_code = or_else o.otp_code m.otp_code;
  port = or_else o.port m.port;
  use_https = or_else o.use_https m.use_https;
  verify_tls = or_else o.verify_tls m.verify_tls;
  connect_timeout = or_else o.connect_timeout m.connect_timeout;
  read_timeout = or_else o.read_timeout m.read_timeout;
  ssh_username = or_else o.ssh_username m.ssh_username;
  ssh_port = or_else o.ssh_port m.ssh_port;
  ssh_key_path = or_else o.ssh_key_path m.ssh_key_path;
  user_home_volume = or_else o.user_home_volume m.user_home_volume;
}

-- the calls of `setdefault`, and the dataclass' own defaults
unfoldable pub complete : Defaults → String → String → String → Overlay → HostConfig
complete d name ip account m = record {
  name = name;
  ip = ip;
  account = account;
  password = or_default m.password null;
  otp_code = or_default m.otp_code null;
  port = or_default m.port d.port;
  use_https = or_default m.use_https d.use_https;
  verify_tls = or_default m.verify_tls d.verify_tls;
  connect_timeout = or_default m.connect_timeout d.connect_timeout;
  read_timeout = or_default m.read_timeout d.read_timeout;
  ssh_username = or_default m.ssh_username null;
  ssh_port = or_default m.ssh_port d.ssh_port;
  ssh_key_path = or_default m.ssh_key_path null;
  user_home_volume = or_default m.user_home_volume null;
}

module _ ⦃P : Platform⦄ where
  sanitize : String → String
  sanitize String.[] = ""
  sanitize (String.◌∷◌ c s) = String.◌∷◌ (if P.is_alnum c then c else "_") (sanitize s)

  -- `_env_prefix`
  unfoldable pub env_prefix : String → String
  unfolding sanitize
  env_prefix host = "SYNOLOGY_MCP_" <> (P.upper (sanitize host) <> "_")

  abbrev nonempty : Option String → Option String
  nonempty none = none
  nonempty (some s) = if s == "" then none else some s

  -- the first of the variables that is set and not empty
  unfoldable pub env_text : String → List String → Option String
  env_text prefix [] = none
  env_text prefix (alias ∷ aliases) =
      or_else (nonempty (P.environ (prefix <> alias))) (env_text prefix aliases)

  -- `_coerce`, one function for each kind of field
  abbrev coerce_text : Option String → Option Value
  coerce_text none = none
  coerce_text (some s) = some (text s)

  is_yes : String → Bool
  is_yes s = let t = P.lower (Text.strip s) in t == "1" || t == "true" || t == "yes" || t == "on"

  abbrev coerce_bool : Option String → Option Bool
  coerce_bool none = none
  coerce_bool (some s) = some (is_yes s)

  unfoldable pub coerce_int : String → Option String → Result (Option ℤ)
  coerce_int field none = ok none
  coerce_int field (some s) = elim (P.parse_int s) [
    | some n ↦ ok (some n)
    | none ↦ err (
        plain config_error
          ("env var for " <> (P.repr_text field <> (" not an int: " <> P.repr_text s))) none end)
  ]

  unfoldable pub coerce_float : String → Option String → Result (Option Float)
  coerce_float field none = ok none
  coerce_float field (some s) = elim (P.parse_float s) [
    | some x ↦ ok (some x)
    | none ↦ err (
        plain config_error
          ("env var for " <> (P.repr_text field <> (" not a number: " <> P.repr_text s))) none end)
  ]

  -- `_collect_env_for_host`, with the rows of `_ENV_FIELD_ALIASES`
  unfoldable pub collect_env_for_host : String → Result Overlay
  unfolding is_yes
  collect_env_for_host host =
      let v = env_text (env_prefix host) in
      do
        port ← coerce_int "port" (v ("PORT" ∷ []))
        connect_timeout ← coerce_float "connect_timeout" (v ("CONNECT_TIMEOUT" ∷ []))
        read_timeout ← coerce_float "read_timeout" (v ("READ_TIMEOUT" ∷ []))
        ssh_port ← coerce_int "ssh_port" (v ("SSH_PORT" ∷ []))
        ok (record {
          ip = v ("IP" ∷ "HOST" ∷ "ADDRESS" ∷ []);
          account = v ("ACCOUNT" ∷ "USERNAME" ∷ []);
          password = coerce_text (v ("PASSWORD" ∷ "PASS" ∷ []));
          otp_code = coerce_text (v ("OTP_CODE" ∷ "OTP" ∷ []));
          port = port;
          use_https = coerce_bool (v ("USE_HTTPS" ∷ []));
          verify_tls = coerce_bool (v ("VERIFY_TLS" ∷ []));
          connect_timeout = connect_timeout;
          read_timeout = read_timeout;
          ssh_username = coerce_text (v ("SSH_USERNAME" ∷ "SSH_USER" ∷ []));
          ssh_port = ssh_port;
          ssh_key_path = coerce_text (v ("SSH_KEY_PATH" ∷ "SSH_KEY" ∷ []));
          user_home_volume = coerce_text (v ("USER_HOME_VOLUME" ∷ []));
        })

  missing_field : String → String → Exc
  missing_field name what =
      plain config_error ("host " <> (P.repr_text name <> (" missing required field " <> what)))
        (some name) end

  -- the last lines of `get_host`: the required fields
  validate : Defaults → String → Overlay → Result HostConfig
  unfolding missing_field
  validate d name m =
      let ip = or_default m.ip "" in
      let account = or_default m.account "" in
      if ip == ""
      then err (missing_field name "'ip' (alias: host, address)")
      else if account == ""
      then err (missing_field name "'account' (alias: username)")
      else ok (complete d name ip account m)

  -- `Config.get_host`
  unfoldable pub get_host : Config → String → Result HostConfig
  unfolding validate
  get_host config name = do
    overlay ← collect_env_for_host name
    let file_host = lookup name config.hosts
    if missing file_host && is_blank overlay
        then err (
            plain config_error
              ("unknown host " <> (P.repr_text name <> ": not in config file and no env vars set"))
              (some name) end)
        else validate config.defaults name (merge overlay (overlay_of file_host))
