-- ===== src/Tests/World.antt =====
-- A host, a NAS and the texts of a small Python, on which the theorems are run.
use Prim.Native.Char.{code}
use synology_mcp.Base.{
  pos, leb, String, ◌==◌, true, false, ◌&&◌, none, some, [], ◌∷◌, if◌then◌else◌,
}
use synology_mcp.Json.{Value, null, bool, int, text, object, array, Fields, fields, finite}
use synology_mcp.Errors.{ok}
use synology_mcp.Platform.{Platform, response, output}
use synology_mcp.Config.{HostConfig, Config, defaults}
use synology_mcp.Session.{DsmSession}
use synology_mcp.Exec.{State}

abbrev pub nas : HostConfig
nas = record {
  name = "nas";
  ip = "10.0.0.2";
  account = "ana";
  password = text "secret";
  otp_code = null;
  port = pos 5001;
  use_https = true;
  verify_tls = true;
  connect_timeout = finite (pos 10) 0;
  read_timeout = finite (pos 30) 0;
  ssh_username = null;
  ssh_port = pos 22;
  ssh_key_path = null;
  user_home_volume = null;
}

abbrev pub config : Config
config = record { defaults = defaults; hosts = ("nas", nas) ∷ [] }

abbrev pub start : State
start = record { cache = []; trace = [] }

abbrev pub ana : DsmSession
ana = record {
  sid = "abc";
  syno_token = "tok";
  user = "ana";
  cookies = ("id", text "abc") ∷ [];
  dsm_major_minor = some (7, 3);
}

-- a process that has logged in
abbrev pub logged_in : State
logged_in = record {
  cache = ("nas", record { session = some ana; http_client = some nas; ssh_client = none }) ∷ [];
  trace = [];
}

abbrev pub share : Value
share = object (("name", text "docs") ∷ ("vol_path", text "/volume1") ∷ [])

-- every request is answered with this
abbrev pub answer : Fields
answer = fields (
    ("success", bool true)
    ∷ (
      "data",
      object (
          ("sid", text "abc")
          ∷ ("synotoken", text "tok")
          ∷ ("firmware_ver", text "DSM 7.3-1")
          ∷ ("ssh_port", int (pos 22))
          ∷ ("enable", bool true)
          ∷ ("shares", array (share ∷ []))
          ∷ []),
    )
    ∷ [])

abbrev pub refusal : Fields
refusal = fields (("success", bool false) ∷ ("error", object (("code", int (pos 105)) ∷ [])) ∷ [])

abbrev pub find_command : String
find_command = "sudo -n find /var/services/homes/*/.ssh/authorized_keys -size +0c -type f"

-- the command that points the symlink at the volume that does not work
abbrev pub bad_link : String
bad_link = "sudo -n sh -c rm -f /var/services/homes && ln -s /volume9/homes /var/services/homes"

abbrev pub world : Fields → Platform
world body = record {
  http_get = λ t r. response (pos 200) "{}" (some (Value.dict body));
  ssh_connect = λ t target. none;
  ssh_exec = λ t target command.
      output
        (if command == find_command then "/var/services/homes/ana/.ssh/authorized_keys" else "yes")
        "" (if command == bad_link then pos 1 else pos 0);
  ssh_handshake = λ t target. none;
  environ = λ name. none;
  show_value = λ v. "?";
  repr_text = λ s. s;
  show_builtin = λ e. "?";
  parse_int = λ s. some (pos 5);
  parse_float = λ s. none;
  float_of_int = λ n. some (finite n 0);
  lower = λ s. s;
  upper = λ s. s;
  is_alnum = λ c. leb 97 (code c) && leb (code c) 122;
  is_digit = λ c. leb 48 (code c) && leb (code c) 57;
  b64decode = λ s. some (1 ∷ 2 ∷ []);
  b64encode = λ b. "AQI=";
  b64_error = λ s. "?";
  encode = λ s. [];
  sha256 = λ b. b;
  shell_quote = λ s. s;
  json_dumps = λ v. "?";
  json_loads = λ s. some null;
  json_error = λ s. "?";
  iso_time = λ n. ok "1970-01-01T00:00:05+00:00";
}

instance abbrev pub friendly : Platform
friendly = world answer

abbrev pub refusing : Platform
refusing = world refusal
