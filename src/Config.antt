-- ===== src/Config.antt =====
-- src/synology_mcp/config.py: hosts, and what a host's settings are resolved to.
pub mod Env
pub mod File
use synology_mcp.Base.{ℤ, pos, String, Bool, true}
use synology_mcp.Base.Dict.{Dict}
use synology_mcp.Json.{Value, text, or_value, Float, finite}

-- What the configuration file may hold at any type stays a `Value`; `null` is `None`.
pub record HostConfig : Type 0 where
  pub name : String
  pub ip : String
  pub account : String
  pub password : Value
  pub otp_code : Value
  pub port : ℤ
  pub use_https : Bool
  pub verify_tls : Bool
  pub connect_timeout : Float
  pub read_timeout : Float
  pub ssh_username : Value
  pub ssh_port : ℤ
  pub ssh_key_path : Value
  pub user_home_volume : Value

-- `HostConfig.effective_ssh_username`
unfoldable pub effective_ssh_username : HostConfig → Value
effective_ssh_username c = or_value c.ssh_username (text c.account)

-- `_Defaults`
pub record Defaults : Type 0 where
  pub port : ℤ
  pub use_https : Bool
  pub verify_tls : Bool
  pub ssh_port : ℤ
  pub connect_timeout : Float
  pub read_timeout : Float

abbrev pub defaults : Defaults
defaults = record {
  port = pos 5001;
  use_https = true;
  verify_tls = true;
  ssh_port = pos 22;
  connect_timeout = finite (pos 10) 0;
  read_timeout = finite (pos 30) 0;
}

pub record Config : Type 0 where
  pub defaults : Defaults
  pub hosts : Dict HostConfig
