-- ===== src/Auth/Kept.antt =====
-- src/synology_mcp/_helpers.py: what a call through `call_dsm` does to the session in the cache.
use synology_mcp.Base.{
  String, ap, eq_iff, ◌==◌, Bool, true, ◌≡◌, refl, ◌∙◌, Option, none, some, Bool-cases, inl, inr,
}
use synology_mcp.Json.{truthy}
use synology_mcp.Errors.{ok}
use synology_mcp.Platform.{Platform}
use synology_mcp.Config.{HostConfig, Config}
use synology_mcp.Config.Env.{get_host}
use synology_mcp.Session.{HostState, DsmSession, state_of, put, get, state_of-put, state_of-get}
use synology_mcp.Exec.{State, lift, modify, host_state}
use synology_mcp.Exec.Runs.{bind-ok, lift-ok, throw_lem, ask_lem, host_state_lem, modify_lem}
use synology_mcp.Exec.Moves.{Moves, IsPreorder, Moves-pure, Moves-bind, Moves-lift}
use synology_mcp.Transport.Http.{call}
use synology_mcp.Transport.Envelope.{Call}
use synology_mcp.Auth.{ensure_session, get_http_client, client_or, call_dsm, call_on}
use synology_mcp.Auth.Stored.{session_at, ensure_session-cached}

-- the session of a host is the same before and after
abbrev pub Keeps : String → State → State → Type 0
Keeps host s t = session_at t host ≡ session_at s host

module _ (host : String) where
  Keeps-IsPreorder : IsPreorder (Keeps host)
  Keeps-IsPreorder = record { stay = λ s. refl; join = λ s t u h k. k ∙ h }

  pub Keeps-host_state : (k : String) → Moves (Keeps host) (host_state k)
  Keeps-host_state k = record {
    at = λ s.
        ap (λ r. session_at r.1 host) (host_state_lem k s)
        ∙ ap (λ state. state.session) (state_of-get s.cache k host);
  }

  pub Keeps-modify :
      (k : String) (f : HostState → HostState)
      → ((state : HostState) → (f state).session ≡ state.session)
      → Moves (Keeps host) (modify k f)
  Keeps-modify k f h = record { at = λ s. ap (λ r. session_at r.1 host) (modify_lem k f s) ∙ go s }
    where
      go :
          (s : State)
          → (state_of (put s.cache k (f (state_of s.cache k))) host).session
            ≡ (state_of s.cache host).session
      go s = elim (Bool-cases (k == host)) [
        | inl e ↦
            ap (λ state. state.session) (state_of-put s.cache k host (f (state_of s.cache k)))
            ∙ rw e (h (state_of s.cache k))
            ∙ ap (λ x. (state_of s.cache x).session) ((eq_iff k host).0 e)
        | inr e ↦
            ap (λ state. state.session) (state_of-put s.cache k host (f (state_of s.cache k)))
            ∙ rw e refl
      ]

  client_or-Keeps : (c : HostConfig) (o : Option HostConfig) → Moves (Keeps host) (client_or c o)
  client_or-Keeps c none =
      Moves-bind _ _ Keeps-IsPreorder (Keeps-modify _ _ (λ state. refl))
        (λ _. Moves-pure _ Keeps-IsPreorder)
  client_or-Keeps c (some http) = Moves-pure _ Keeps-IsPreorder

  get_http_client-Keeps : (c : HostConfig) → Moves (Keeps host) (get_http_client c)
  unfolding get_http_client
  get_http_client-Keeps c =
      Moves-bind _ _ Keeps-IsPreorder (Keeps-host_state _) (λ state. client_or-Keeps c _)

module _ ⦃P : Platform⦄ where
  call-Keeps :
      (host : String) (c : HostConfig) (request : Call) (session : Option DsmSession) (check : Bool)
      → Moves (Keeps host) (call c request session check)
  unfolding call
  call-Keeps host c request session check =
      Moves-bind _ _ (Keeps-IsPreorder host)
        (record { at = λ s. ap (λ r. session_at r.1 host) (ask_lem _ _ s) })
        (λ reply. Moves-lift _ (Keeps-IsPreorder host))

  call_on-session_at :
      (c : HostConfig) (host : String) (request : Call) (s : State) (session : DsmSession)
      → session_at s c.name ≡ some session
      → session_at (call_on c host request s).1 c.name ≡ some session
  unfolding call_on
  call_on-session_at c host request s session h = elim (Bool-cases (truthy c.password)) [
    | inl e ↦ rw e (
        ap (λ r. session_at r.1 c.name)
          (bind-ok (ensure_session c) s _ _ session (ensure_session-cached c s session h))
        ∙ (Moves-bind (get_http_client c) (λ http. call http request (some session) true)
              (Keeps-IsPreorder c.name) (get_http_client-Keeps c.name c)
              (λ http. call-Keeps c.name http request (some session) true)).at
            (record s { cache = (get s.cache c.name).1 })
        ∙ ap (λ state. state.session) (state_of-get s.cache c.name c.name)
        ∙ h)
    | inr e ↦ rw e (ap (λ r. session_at r.1 c.name) (throw_lem _ s) ∙ h)
  ]

  -- With a session in the cache, a call leaves that session in the cache whatever the answer is, also
  -- an answer that says that the session is not valid any more.
  pub call_dsm-session_at :
      (config : Config) (host : String) (request : Call) (c : HostConfig) (s : State)
      (session : DsmSession)
      → get_host config host ≡ ok c
      → session_at s c.name ≡ some session
      → session_at (call_dsm config host request s).1 c.name ≡ some session
  unfolding call_dsm
  call_dsm-session_at config host request c s session hc h =
      ap (λ r. session_at r.1 c.name)
        (bind-ok (lift (get_host config host)) s s _ c (lift-ok _ s c hc))
      ∙ call_on-session_at c host request s session h
