-- ===== src/Frame/Clients.antt =====
-- src/synology_mcp/transport and auth.py, within a frame.
use synology_mcp.Base.{
  ◌≡◌, ℕ, nat_eq, String, Bool, true, false, ◌≢◌, refl, Option, none, some, List, [], ◌∷◌,
}
use synology_mcp.Json.{Value, truthy}
use synology_mcp.Platform.{
  Platform, SshResult, ExecReply, output, channel_error, socket_error, Event, Trace,
}
use synology_mcp.Config.{HostConfig, Config}
use synology_mcp.Session.{HostState, DsmSession, SshClient}
use synology_mcp.Exec.{Exec, State, ask, host_state, modify, set_session}
use synology_mcp.Exec.Moves.{
  Moves, IsPreorder, Moves-bind, Moves-bind-lift, Moves-pure, Moves-lift, Moves-if, Moves-throw,
  moves_rules,
}
use synology_mcp.Transport.Envelope.{Call}
use synology_mcp.Transport.Http.{call}
use synology_mcp.Transport.Ssh.{
  run, attempts, after_reply, finish, ensure_client, after_connect, close, is_open, set_open,
}
use synology_mcp.Auth.{
  get_http_client, client_or, perform_login, fetch_dsm_major_minor, ensure_session,
  session_or_login, call_on, call_dsm, get_ssh_client, ssh_client_or,
}
use synology_mcp.Auth.Login.Accepted.{read_login-sid}
use synology_mcp.Frame.{IsFrame, is_local}

module _ ⦃P : Platform⦄ {R : State → State → Type 0} {Allowed : Call → Type 0} (q : IsPreorder R)
    (fr : IsFrame R Allowed) where
  pub asked :
      {A : Type 0} (answer : Trace → A) (event : A → Event)
      → ((a : A) → is_local (event a) ≡ true)
      → Moves R (ask answer event)
  unfolding ask
  asked answer event h = record {
    at = λ s. fr.local s (event (answer s.trace)) (h (answer s.trace));
  }

  pub looked : (host : String) → Moves R (host_state host)
  looked host = record { at = λ s. fr.looked s host }

  assigned :
      (host : String) (f : HostState → HostState)
      → ((state : HostState) → (f state).session ≡ state.session)
      → Moves R (modify host f)
  assigned host f h = record { at = λ s. fr.assigned s host f h }

  pub call-frame :
      (c : HostConfig) (request : Call) (session : Option DsmSession) (check : Bool)
      → Allowed request
      → Moves R (call c request session check)
  unfolding call ask
  call-frame c request session check h =
      Moves-bind _ _ q (record { at = λ s. fr.requested s c request session _ h })
        (λ reply. Moves-lift _ q)

  set_open-frame : (ssh : SshClient) (b : Bool) → Moves R (set_open ssh b)
  unfolding set_open
  set_open-frame ssh b = assigned _ _ (λ state. refl)

  is_open-frame : (ssh : SshClient) → Moves R (is_open ssh)
  unfolding is_open
  is_open-frame ssh = search (q, looked, moves_rules)

  close-frame : (ssh : SshClient) → Moves R (close ssh)
  unfolding close is_local
  close-frame ssh = Moves-bind _ _ q (is_open-frame ssh) (λ there.
      Moves-if there _ _ (Moves-bind _ _ q (asked _ _ (λ _. refl)) (λ _. set_open-frame ssh false))
        (Moves-pure _ q))

  ensure_client-frame : (ssh : SshClient) → Moves R (ensure_client ssh)
  unfolding ensure_client is_local after_connect
  ensure_client-frame ssh = Moves-bind _ _ q (is_open-frame ssh) (λ there.
      Moves-if there _ _ (Moves-pure _ q)
        (Moves-bind _ _ q (asked _ _ (λ _. refl)) (λ why. go why)))
    where
      go : (why : Option String) → Moves R (after_connect ssh why)
      go none = set_open-frame ssh true
      go (some why) = Moves-throw _ q

  finish-frame :
      (ssh : SshClient) (command : String) (check : Bool) (result : SshResult)
      → Moves R (finish ssh command check result)
  unfolding finish
  finish-frame ssh command check result = search (q, moves_rules)

  after_reply-frame :
      (ssh : SshClient) (command : String) (check : Bool) (attempt : ℕ) (retry : Exec SshResult)
      (reply : ExecReply)
      → Moves R retry
      → Moves R (after_reply ssh command check attempt retry reply)
  unfolding after_reply
  after_reply-frame ssh command check attempt retry (output out error status) h =
      finish-frame ssh command check _
  after_reply-frame ssh command check attempt retry (channel_error why) h =
      Moves-bind _ _ q (close-frame ssh) (λ _. Moves-if (nat_eq attempt 1) _ _ h (Moves-throw _ q))
  after_reply-frame ssh command check attempt retry (socket_error why) h =
      Moves-bind _ _ q (close-frame ssh) (λ _. Moves-if (nat_eq attempt 1) _ _ h (Moves-throw _ q))

  attempts-frame :
      (ssh : SshClient) (command : String) (check : Bool) (rest : List ℕ)
      → Moves R (attempts ssh command check rest)
  unfolding attempts is_local
  attempts-frame ssh command check [] = Moves-throw _ q
  attempts-frame ssh command check (attempt ∷ rest) =
      Moves-bind _ _ q (ensure_client-frame ssh) (λ _.
        Moves-bind _ _ q (asked _ _ (λ _. refl)) (λ reply.
          after_reply-frame ssh command check attempt _ reply
            (attempts-frame ssh command check rest)))

  pub run-frame :
      (ssh : SshClient) (command : String) (check : Bool) → Moves R (run ssh command check)
  unfolding run
  run-frame ssh command check = attempts-frame ssh command check (1 ∷ 2 ∷ [])

  client_or-frame : (c : HostConfig) (o : Option HostConfig) → Moves R (client_or c o)
  client_or-frame c none = Moves-bind _ _ q (assigned _ _ (λ state. refl)) (λ _. Moves-pure _ q)
  client_or-frame c (some http) = Moves-pure _ q

  pub get_http_client-frame : (c : HostConfig) → Moves R (get_http_client c)
  unfolding get_http_client
  get_http_client-frame c =
      Moves-bind _ _ q (looked c.name) (λ state. client_or-frame c state.http_client)

  fetch_dsm_major_minor-frame :
      (http : HostConfig) (session : DsmSession) → Moves R (fetch_dsm_major_minor http session)
  unfolding fetch_dsm_major_minor
  fetch_dsm_major_minor-frame http session =
      search (q, call-frame http _ (some session) false fr.info, moves_rules)

  stored :
      (host : String) (session : DsmSession)
      → session.sid ≢ ""
      → Moves R (set_session host (some session))
  stored host session h = record { at = λ s. fr.stored s host session h }

  pub dropped : (host : String) → Moves R (set_session host none)
  dropped host = record { at = λ s. fr.dropped s host }

  pub perform_login-frame :
      (c : HostConfig) (password otp_code : Value) → Moves R (perform_login c password otp_code)
  unfolding perform_login
  perform_login-frame c password otp_code = Moves-bind _ _ q (get_http_client-frame c) (λ http.
      Moves-bind _ _ q (call-frame http _ none false (fr.login c password otp_code)) (λ body.
        Moves-bind-lift _ _ q (λ session e.
          let sid = (read_login-sid c body session e).0 in
          Moves-bind _ _ q (stored c.name session sid) (λ _.
            Moves-bind _ _ q (fetch_dsm_major_minor-frame http session)
              (λ version. Moves-bind _ _ q (stored c.name _ sid) (λ _. Moves-pure _ q))))))

  session_or_login-frame : (c : HostConfig) (o : Option DsmSession) → Moves R (session_or_login c o)
  session_or_login-frame c none = perform_login-frame c _ _
  session_or_login-frame c (some session) = Moves-pure _ q

  pub ensure_session-frame : (c : HostConfig) → Moves R (ensure_session c)
  unfolding ensure_session
  ensure_session-frame c =
      Moves-bind _ _ q (looked c.name) (λ state. session_or_login-frame c state.session)

  call_on-frame :
      (c : HostConfig) (host : String) (request : Call)
      → Allowed request
      → Moves R (call_on c host request)
  unfolding call_on
  call_on-frame c host request h =
      Moves-if (truthy c.password) _ _
        (Moves-bind _ _ q (ensure_session-frame c) (λ session.
          Moves-bind _ _ q (get_http_client-frame c)
            (λ http. call-frame http request (some session) true h)))
        (Moves-throw _ q)

  pub call_dsm-frame :
      (config : Config) (host : String) (request : Call)
      → Allowed request
      → Moves R (call_dsm config host request)
  unfolding call_dsm
  call_dsm-frame config host request h =
      Moves-bind _ _ q (Moves-lift _ q) (λ c. call_on-frame c host request h)

  ssh_client_or-frame : (c : HostConfig) (o : Option SshClient) → Moves R (ssh_client_or c o)
  unfolding ssh_client_or
  ssh_client_or-frame c none = Moves-bind _ _ q (assigned _ _ (λ state. refl)) (λ _. Moves-pure _ q)
  ssh_client_or-frame c (some ssh) = Moves-pure _ q

  pub get_ssh_client-frame :
      (config : Config) (host : String) → Moves R (get_ssh_client config host)
  unfolding get_ssh_client
  get_ssh_client-frame config host =
      Moves-bind _ _ q (Moves-lift _ q)
        (λ c. Moves-bind _ _ q (looked host) (λ state. ssh_client_or-frame c state.ssh_client))
