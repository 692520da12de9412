-- ===== src/Auth/Stored.antt =====
-- src/synology_mcp/auth.py and _helpers.py: the session that the cache holds.
use synology_mcp.Base.{ap, String, ◌≡◌, ◌≢◌, refl, sym, ◌∙◌, Option, some}
use synology_mcp.Json.{Value}
use synology_mcp.Errors.{ok}
use synology_mcp.Platform.{Platform}
use synology_mcp.Config.{HostConfig}
use synology_mcp.Session.{DsmSession, state_of, get, state_of-put_same}
use synology_mcp.Exec.{State, pure, set_session, host_state}
use synology_mcp.Exec.Runs.{
  bind-ok, bind-returned, host_state_lem, modify_lem, lift-returned, pure-returned,
}
use synology_mcp.Auth.{ensure_session, perform_login}
use synology_mcp.Auth.Login.{read_login}
use synology_mcp.Auth.Login.Accepted.{read_login-sid}

abbrev pub session_at : State → String → Option DsmSession
session_at s host = (state_of s.cache host).session

set_session-session_at :
    (s : State) (host : String) (session : Option DsmSession)
    → session_at (set_session host session s).1 host ≡ session
set_session-session_at s host session =
    ap (λ r. session_at r.1 host) (modify_lem host (λ state. record state { session = session }) s)
    ∙ ap (λ state. state.session)
        (state_of-put_same s.cache host (record (state_of s.cache host) { session = session }))

module _ ⦃P : Platform⦄ (c : HostConfig) where
  -- With a session in the cache, no request is made and the session is the cached one.
  pub ensure_session-cached :
      (s : State) (session : DsmSession)
      → session_at s c.name ≡ some session
      → ensure_session c s ≡ (ok session, record s { cache = (get s.cache c.name).1 })
  unfolding ensure_session pure
  ensure_session-cached s session h =
      bind-ok (host_state c.name) s _ _ (state_of s.cache c.name) (host_state_lem c.name s)
      ∙ rw h refl

  -- A login that returns leaves its session in the cache; the session is the account's and its id
  -- is not empty.
  pub perform_login-stored :
      (password otp_code : Value) (s t : State) (session : DsmSession)
      → perform_login c password otp_code s ≡ (ok session, t)
      → (session_at t c.name ≡ some session) × (session.sid ≢ "") × (session.user ≡ c.account)
  unfolding perform_login
  perform_login-stored password otp_code s t session h =
      let (http, s1, _, h1) = bind-returned _ _ s t session h in
      let (body, s2, _, h2) = bind-returned _ _ s1 t session h1 in
      let (login, s3, e3, h3) = bind-returned _ _ s2 t session h2 in
      let (_, s4, _, h4) = bind-returned _ _ s3 t session h3 in
      let (version, s5, _, h5) = bind-returned _ _ s4 t session h4 in
      let (_, s6, e6, h6) = bind-returned _ _ s5 t session h5 in
      let (e7, e8) = pure-returned _ s6 t session h6 in
      let (e9, _) = lift-returned (read_login c body) s2 s3 login e3 in
      let (nonempty, account) = read_login-sid c body login e9 in
      (
        ap (λ u. session_at u c.name) (sym e8)
            ∙ ap (λ r. session_at r.1 c.name) (sym e6)
            ∙ set_session-session_at s5 c.name _
            ∙ ap some e7,
        λ empty. nonempty (ap (λ x. x.sid) e7 ∙ empty),
        sym (ap (λ x. x.user) e7) ∙ account,
      )
