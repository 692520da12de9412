-- ===== src/Platform.antt =====
-- What the program does not implement: the network, the NAS behind it, and the parts of Python's
-- library whose tables or algorithms are not in the repository. Everything remote may depend on
-- all that has happened before, so the NAS may keep any state.
use synology_mcp.Base.{ℕ, ℤ, Bool, String, Char, Option, List}
use synology_mcp.Base.Dict.{Dict}
use synology_mcp.Json.{Value, Float}
use synology_mcp.Errors.{Exc, Result}

pub record HttpRequest : Type 0 where
  pub base_url : String
  pub path : String
  pub params : Dict Value
  pub headers : Dict Value
  pub cookies : Dict Value

-- `httpx.TimeoutException`, another `httpx.TransportError`, or a response: its status, its text
-- and what `resp.json()` makes of it, `none` for a `ValueError`.
pub data HttpReply : Type 0 where
  timed_out : HttpReply
  transport_failed : String → HttpReply
  response : ℤ → String → Option Value → HttpReply

-- the arguments of `paramiko.SSHClient.connect`
pub record SshTarget : Type 0 where
  pub hostname : String
  pub port : ℤ
  pub username : Value
  pub key_filename : Value
  pub password : Value

pub record SshResult : Type 0 where
  pub command : String
  pub stdout : String
  pub stderr : String
  pub exit_status : ℤ

-- What `exec_command` and the reads after it end in: output, a `paramiko.SSHException` or an
-- `OSError`.
pub data ExecReply : Type 0 where
  output : String → String → ℤ → ExecReply
  channel_error : String → ExecReply
  socket_error : String → ExecReply

-- What the process does that another party can see, with the answer.
pub data Event : Type 0 where
  sent : HttpRequest → HttpReply → Event
  connected : SshTarget → Option String → Event
  executed : SshTarget → String → ExecReply → Event
  closed : SshTarget → Event
  -- a handshake on a connection of its own, which is closed at once
  probed : SshTarget → Option String → Event

-- The newest event stands first.
abbrev pub Trace : Type 0
Trace = List Event

pub record Platform : Type 0 where
  pub http_get : Trace → HttpRequest → HttpReply
  -- `none`, or the text of the error
  pub ssh_connect : Trace → SshTarget → Option String
  pub ssh_exec : Trace → SshTarget → String → ExecReply
  pub ssh_handshake : Trace → SshTarget → Option String
  -- `os.environ.get`
  pub environ : String → Option String
  -- `str(v)` and `repr(v)` of a value that is no text, and `repr` of a text
  pub show_value : Value → String
  pub repr_text : String → String
  -- `str(e)` of one of Python's own exceptions
  pub show_builtin : Exc → String
  -- `int(s)` and `float(s)` of a text, `none` for a `ValueError`
  pub parse_int : String → Option ℤ
  pub parse_float : String → Option Float
  -- `float(n)` of an integer, `none` for an `OverflowError`
  pub float_of_int : ℤ → Option Float
  -- Unicode's tables
  pub lower : String → String
  pub upper : String → String
  pub is_alnum : Char → Bool
  -- the decimal digits, which `\d` stands for
  pub is_digit : Char → Bool
  -- `base64.b64decode(s, validate=True)`, `none` for a `ValueError`; `base64.b64encode`
  pub b64decode : String → Option (List ℕ)
  pub b64encode : List ℕ → String
  -- the text of that error
  pub b64_error : String → String
  -- `s.encode("utf-8")`
  pub encode : String → List ℕ
  pub sha256 : List ℕ → List ℕ
  pub shell_quote : String → String
  pub json_dumps : Value → String
  -- `json.loads`, `none` for a `ValueError`, and the text of that error
  pub json_loads : String → Option Value
  pub json_error : String → String
  -- `datetime.fromtimestamp(n, tz=timezone.utc).isoformat()`
  pub iso_time : ℤ → Result String
