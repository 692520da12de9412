-- ===== src/Frame/Sessions.antt =====
-- src/synology_mcp/auth.py: the tools, within a frame.
use synology_mcp.Base.{String, false, Option, none, some}
use synology_mcp.Platform.{Platform}
use synology_mcp.Config.{Config}
use synology_mcp.Exec.{State}
use synology_mcp.Exec.Moves.{
  Moves, IsPreorder, Moves-bind, Moves-pure, Moves-lift, Moves-if, Moves-throw, Moves-try,
  moves_rules,
}
use synology_mcp.Transport.Envelope.{Call}
use synology_mcp.Frame.{IsFrame}
use synology_mcp.Frame.Clients.{
  get_http_client-frame, call-frame, perform_login-frame, looked, dropped,
}
use synology_mcp.Config.{HostConfig}
use synology_mcp.Session.{DsmSession}
use synology_mcp.Json.{truthy}
use synology_mcp.Auth.{
  perform_logout, logout_session, auth_login, auth_logout, auth_whoami, whoami_of,
}

module _ ⦃P : Platform⦄ {R : State → State → Type 0} {Allowed : Call → Type 0} (q : IsPreorder R)
    (fr : IsFrame R Allowed) where
  logout_session-frame : (c : HostConfig) (o : Option DsmSession) → Moves R (logout_session c o)
  unfolding logout_session
  logout_session-frame c none = Moves-pure _ q
  logout_session-frame c (some session) = Moves-bind _ _ q (get_http_client-frame q fr c) (λ http.
      Moves-bind _ _ q
        (Moves-try _ _ _ q (call-frame q fr http _ (some session) false fr.logout)
          (λ _. Moves-pure _ q) (λ _. Moves-pure _ q))
        (λ _. Moves-bind _ _ q (dropped q fr c.name) (λ _. Moves-pure _ q)))

  perform_logout-frame : (c : HostConfig) → Moves R (perform_logout c)
  unfolding perform_logout
  perform_logout-frame c =
      Moves-bind _ _ q (looked q fr c.name) (λ state. logout_session-frame c state.session)

  pub auth_login-frame : (config : Config) (host : String) → Moves R (auth_login config host)
  unfolding auth_login
  auth_login-frame config host = Moves-bind _ _ q (Moves-lift _ q) (λ c.
      Moves-if (truthy c.password) _ _
        (Moves-bind _ _ q (looked q fr host) (λ _. Moves-bind _ _ q (dropped q fr host) (λ _.
          Moves-bind _ _ q (perform_login-frame q fr c c.password c.otp_code)
            (λ session. Moves-pure _ q))))
        (Moves-throw _ q))

  pub auth_logout-frame : (config : Config) (host : String) → Moves R (auth_logout config host)
  unfolding auth_logout
  auth_logout-frame config host = search (q, perform_logout-frame, moves_rules)

  whoami_of-frame :
      (c : HostConfig) (host : String) (o : Option DsmSession) → Moves R (whoami_of c host o)
  unfolding whoami_of
  whoami_of-frame c host (some session) = Moves-pure _ q
  whoami_of-frame c host none =
      Moves-if (truthy c.password) _ _
        (Moves-bind _ _ q (perform_login-frame q fr c c.password c.otp_code)
          (λ session. Moves-pure _ q))
        (Moves-throw _ q)

  pub auth_whoami-frame : (config : Config) (host : String) → Moves R (auth_whoami config host)
  unfolding auth_whoami
  auth_whoami-frame config host =
      Moves-bind _ _ q (Moves-lift _ q)
        (λ c. Moves-bind _ _ q (looked q fr host) (λ state. whoami_of-frame c host state.session))
