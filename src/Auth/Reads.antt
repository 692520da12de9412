-- ===== src/Auth/Reads.antt =====
-- src/synology_mcp/_helpers.py and auth.py: which requests can change the settings of the NAS.
use synology_mcp.Base.{
  ℕ, String, ◌==◌, Bool, false, ◌||◌, Option, none, some, [], ◌∷◌, ◌≡◌, refl, arith, Bool-cases,
  inl, inr, if◌then◌else◌,
}
use synology_mcp.Base.Dict.{lookup, update, insert}
use synology_mcp.Json.{Value, text, truthy}
use synology_mcp.Platform.{Platform, Event, sent}
use synology_mcp.Config.{HostConfig, Config}
use synology_mcp.Session.{DsmSession, SshClient}
use synology_mcp.Exec.Costs.{
  Costs-then, Costs, Costs-pure, Costs-throw, Costs-lift, Costs-if, Costs-ask, Costs-host_state,
  Costs-modify, Costs-try,
}
use synology_mcp.Transport.Envelope.{Call}
use synology_mcp.Transport.Http.{call, request_of}
use synology_mcp.Transport.Ssh.Billed.{IsTariff}
use synology_mcp.Auth.{
  get_http_client, client_or, login_call, info_call, fetch_dsm_major_minor, perform_login,
  session_or_login, ensure_session, call_on, call_dsm, get_ssh_client, ssh_client_or,
}
use synology_mcp.Auth.Login.{login_params}

abbrev is_write_method : Option Value → Bool
is_write_method (some (text m)) =
    m == "set" || m == "create" || m == "delete" || m == "install" || m == "uninstall" || m == "add"
is_write_method _ = false

-- 1 for a request whose method changes settings, shares or packages
unfoldable pub writes : Event → ℕ
writes (sent request reply) = if is_write_method (lookup "method" request.params) then 1 else 0
writes _ = 0

-- the request of a call is none of these
unfoldable pub IsRead : Call → Type 0
IsRead request =
    is_write_method (
      lookup "method" (
        update
          (("api", text request.api)
            ∷ ("method", text request.method)
            ∷ ("version", Value.int request.version)
            ∷ [])
          request.params))
    ≡ false

pub writes-IsTariff : IsTariff writes 0
unfolding writes
writes-IsTariff = record {
  command = λ target c r. omega arith;
  opening = λ target why. omega arith;
  closing = λ target. omega arith;
}

module _ ⦃P : Platform⦄ where
  call-reads :
      (c : HostConfig) (request : Call) (session : Option DsmSession) (check : Bool)
      → IsRead request
      → Costs writes 0 (call c request session check)
  unfolding call request_of writes IsRead
  call-reads c request session check h =
      Costs-then _ _ _ (Costs-ask _ 0 _ _ (λ reply. rw h (omega arith))) (λ reply. Costs-lift _ 0 _)

  client_or-reads : (c : HostConfig) (o : Option HostConfig) → Costs writes 0 (client_or c o)
  client_or-reads c none = Costs-then _ _ _ (Costs-modify _ _ _) (λ _. Costs-pure _ 0 _)
  client_or-reads c (some http) = Costs-pure _ 0 _

  get_http_client-reads : (c : HostConfig) → Costs writes 0 (get_http_client c)
  unfolding get_http_client
  get_http_client-reads c = Costs-then _ _ _ (Costs-host_state _ _) (λ state. client_or-reads c _)

  pub login_call-IsRead :
      (c : HostConfig) (password otp_code : Value) → IsRead (login_call c password otp_code)
  unfolding IsRead login_params update insert lookup
  login_call-IsRead c password otp_code = elim (Bool-cases (truthy otp_code)) [
    | inl e ↦ rw e refl
    | inr e ↦ rw e refl
  ]

  pub info_call-IsRead : IsRead info_call
  unfolding IsRead update insert lookup
  info_call-IsRead = refl

  perform_login-reads :
      (c : HostConfig) (password otp_code : Value)
      → Costs writes 0 (perform_login c password otp_code)
  unfolding perform_login fetch_dsm_major_minor
  perform_login-reads c password otp_code = Costs-then _ _ _ (get_http_client-reads c) (λ http.
      Costs-then _ _ _ (call-reads http _ _ _ (login_call-IsRead c password otp_code)) (λ body.
        Costs-then _ _ _ (Costs-lift _ 0 _) (λ session. Costs-then _ _ _ (Costs-modify _ _ _) (λ _.
          Costs-then _ _ _
            (Costs-try _ 0 0 0 _ _ _ (omega arith) (call-reads http _ _ _ info_call-IsRead)
              (λ b. Costs-lift _ 0 _) (λ e. Costs-pure _ 0 _))
            (λ version. Costs-then _ _ _ (Costs-modify _ _ _) (λ _. Costs-pure _ 0 _))))))

  session_or_login-reads :
      (c : HostConfig) (o : Option DsmSession) → Costs writes 0 (session_or_login c o)
  session_or_login-reads c none = perform_login-reads c _ _
  session_or_login-reads c (some session) = Costs-pure _ 0 _

  pub ensure_session-reads : (c : HostConfig) → Costs writes 0 (ensure_session c)
  unfolding ensure_session
  ensure_session-reads c =
      Costs-then _ _ _ (Costs-host_state _ _) (λ state. session_or_login-reads c _)

  call_on-reads :
      (c : HostConfig) (host : String) (request : Call)
      → IsRead request
      → Costs writes 0 (call_on c host request)
  unfolding call_on
  call_on-reads c host request h =
      Costs-if _ 0 (truthy c.password) _ _
        (Costs-then _ _ _ (ensure_session-reads c) (λ session.
          Costs-then _ _ _ (get_http_client-reads c) (λ http. call-reads http request _ _ h)))
        (Costs-throw _ 0 _)

  pub call_dsm-reads :
      (config : Config) (host : String) (request : Call)
      → IsRead request
      → Costs writes 0 (call_dsm config host request)
  unfolding call_dsm
  call_dsm-reads config host request h =
      Costs-then _ _ _ (Costs-lift _ 0 _) (λ c. call_on-reads c host request h)

  ssh_client_or-reads : (c : HostConfig) (o : Option SshClient) → Costs writes 0 (ssh_client_or c o)
  unfolding ssh_client_or
  ssh_client_or-reads c none = Costs-then _ _ _ (Costs-modify _ _ _) (λ _. Costs-pure _ 0 _)
  ssh_client_or-reads c (some ssh) = Costs-pure _ 0 _

  pub get_ssh_client-reads :
      (config : Config) (host : String) → Costs writes 0 (get_ssh_client config host)
  unfolding get_ssh_client
  get_ssh_client-reads config host =
      Costs-then _ _ _ (Costs-lift _ 0 _)
        (λ c. Costs-then _ _ _ (Costs-host_state _ _) (λ state. ssh_client_or-reads c _))
