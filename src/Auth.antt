-- ===== src/Auth.antt =====
-- src/synology_mcp/auth.py, and the functions of _helpers.py that log in on demand.
pub mod Login
pub mod Stored
pub mod Reads
pub mod Kept
use synology_mcp.Base.{
  ℤ, pos, ℕ, String, ◌<>◌, Bool, true, false, Option, none, some, List, [], ◌∷◌, if◌then◌else◌,
}
use synology_mcp.Base.Dict.{Dict}
use synology_mcp.Json.{Value, null, bool, int, text, object, array, Fields, end, truthy}
use synology_mcp.Errors.{Exc, plain, config_error, raised}
use synology_mcp.Platform.{Platform}
use synology_mcp.Config.{HostConfig, Config}
use synology_mcp.Config.Env.{get_host}
use synology_mcp.Session.{DsmSession, HostState, SshClient}
use synology_mcp.Exec.{
  Exec, pure, throw, lift, host_state, modify, set_session, ◌>>=◌, ◌>>◌, try_with,
}
use synology_mcp.Transport.Envelope.{Call}
use synology_mcp.Transport.Http.{call}
use synology_mcp.Helpers.{Envelope, success_envelope}
use Login.{login_params, read_login, read_version}

abbrev pub client_or : HostConfig → Option HostConfig → Exec HostConfig
client_or c (some http) = pure http
client_or c none = do modify c.name (λ state. record state { http_client = some c }); pure c

-- `_get_http_client`
unfoldable pub get_http_client : HostConfig → Exec HostConfig
get_http_client c = do state ← host_state c.name; client_or c state.http_client

abbrev pub login_call : HostConfig → Value → Value → Call
login_call c password otp_code = record {
  api = "SYNO.API.Auth";
  method = "login";
  version = pos 6;
  params = login_params c password otp_code;
}

abbrev pub info_call : Call
info_call = record { api = "SYNO.Core.System"; method = "info"; version = pos 1; params = [] }

abbrev pub logout_call : Call
logout_call = record {
  api = "SYNO.API.Auth";
  method = "logout";
  version = pos 6;
  params = ("session", text "FileStation") ∷ [];
}

module _ ⦃P : Platform⦄ where
  -- `_fetch_dsm_major_minor`
  unfoldable pub fetch_dsm_major_minor : HostConfig → DsmSession → Exec (Option (ℕ × ℕ))
  fetch_dsm_major_minor http session =
      try_with (call http info_call (some session) false) (λ body. lift (read_version body))
        (λ _. pure none)

  -- `perform_login`: the session is stored before the version is asked for, and then the version
  -- is written into the stored object.
  unfoldable pub perform_login : HostConfig → Value → Value → Exec DsmSession
  perform_login c password otp_code = do
    http ← get_http_client c
    body ← call http (login_call c password otp_code) none false
    session ← lift (read_login c body)
    set_session c.name (some session)
    version ← fetch_dsm_major_minor http session
    set_session c.name (some (record session { dsm_major_minor = version }))
    pure (record session { dsm_major_minor = version })

  abbrev pub session_or_login : HostConfig → Option DsmSession → Exec DsmSession
  session_or_login c (some session) = pure session
  session_or_login c none = perform_login c c.password c.otp_code

  -- `ensure_session`, with the password and the code that every caller passes
  unfoldable pub ensure_session : HostConfig → Exec DsmSession
  ensure_session c = do state ← host_state c.name; session_or_login c state.session

  unfoldable pub logout_session : HostConfig → Option DsmSession → Exec Bool
  logout_session c none = pure false
  logout_session c (some session) = do
    http ← get_http_client c
    try_with (call http logout_call (some session) false) (λ _. pure (tt {0})) (λ _. pure tt)
    set_session c.name none
    pure true

  -- `perform_logout`
  unfoldable pub perform_logout : HostConfig → Exec Bool
  unfolding logout_session
  perform_logout c = do state ← host_state c.name; logout_session c state.session

  abbrev version_value : Option (ℕ × ℕ) → Value
  version_value none = null
  version_value (some (major, minor)) = array (int (pos major) ∷ int (pos minor) ∷ [])

  is_text : String → Value
  is_text s = bool (truthy (text s))

  -- `DSMSession.descriptor`, without `issued_at` and `age_seconds`
  unfoldable pub descriptor : DsmSession → Value
  unfolding is_text
  descriptor s = object (
      ("user", text s.user)
      ∷ ("sid_present", is_text s.sid)
      ∷ ("token_present", is_text s.syno_token)
      ∷ ("dsm_major_minor", version_value s.dsm_major_minor)
      ∷ [])

  unfoldable pub no_password : String → Exc
  no_password host =
      plain config_error
        ("no password configured for host " <> (P.repr_text host <> " (set in config or env)"))
        (some host) end

  -- `auth_login`
  unfoldable pub auth_login : Config → String → Exec Envelope
  auth_login config host = do
    c ← lift (get_host config host)
    if truthy c.password
        then (do
          host_state host
          set_session host none
          session ← perform_login c c.password c.otp_code
          pure (success_envelope host (descriptor session) []))
        else throw (no_password host)

  -- `auth_logout`, without `prior_age_seconds`
  unfoldable pub auth_logout : Config → String → Exec Envelope
  auth_logout config host = do
    c ← lift (get_host config host)
    had_session ← perform_logout c
    pure (success_envelope host (object (("had_session", bool had_session) ∷ [])) [])

  unfoldable pub whoami_of : HostConfig → String → Option DsmSession → Exec Envelope
  whoami_of c host (some session) = pure (success_envelope host (descriptor session) [])
  whoami_of c host none =
      if truthy c.password
      then (do
        session ← perform_login c c.password c.otp_code
        pure (success_envelope host (descriptor session) []))
      else throw (no_password host)

  -- `auth_whoami`
  unfoldable pub auth_whoami : Config → String → Exec Envelope
  unfolding whoami_of
  auth_whoami config host = do
    c ← lift (get_host config host)
    state ← host_state host
    whoami_of c host state.session

  -- `call_dsm` after the host is resolved
  unfoldable pub call_on : HostConfig → String → Call → Exec Fields
  call_on c host request =
      if truthy c.password
      then (do
        session ← ensure_session c
        http ← get_http_client c
        call http request (some session) true)
      else throw (
          plain config_error ("no password configured for host " <> P.repr_text host) (some host)
            end)

  -- `call_dsm` of _helpers.py
  unfoldable pub call_dsm : Config → String → Call → Exec Fields
  call_dsm config host request = do c ← lift (get_host config host); call_on c host request

  unfoldable pub ssh_client_or : HostConfig → Option SshClient → Exec SshClient
  ssh_client_or c (some ssh) = pure ssh
  ssh_client_or c none =
      let ssh : SshClient = record { host_cfg = c; password = c.password; is_open = false } in
      do modify c.name (λ state. record state { ssh_client = some ssh }); pure ssh

  -- `get_ssh_client` of _helpers.py
  unfoldable pub get_ssh_client : Config → String → Exec SshClient
  unfolding ssh_client_or
  get_ssh_client config host = do
    c ← lift (get_host config host)
    state ← host_state host
    ssh_client_or c state.ssh_client
