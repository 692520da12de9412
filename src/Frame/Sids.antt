-- ===== src/Frame/Sids.antt =====
-- src/synology_mcp/server.py and session.py: the sessions that are in the cache.
use synology_mcp.Base.{
  String, ◌==◌, Bool, true, false, ◌≡◌, ◌≢◌, refl, sym, ap, ◌∙◌, arith, Option, none, some, [],
  if◌then◌else◌,
}
use synology_mcp.Base.Dict.{lookup}
use synology_mcp.Platform.{Platform}
use synology_mcp.Config.{Config}
use synology_mcp.Session.{DsmSession, state_of, state_of-put, get}
use synology_mcp.Exec.{State, set_session, host_state, modify}
use synology_mcp.Exec.Runs.{modify_lem}
use synology_mcp.Exec.Moves.{IsPreorder}
use synology_mcp.Auth.Stored.{session_at}
use synology_mcp.Auth.Kept.{Keeps-host_state, Keeps-modify}
use synology_mcp.Server.Tools.{Tool}
use synology_mcp.Frame.{IsFrame}
use synology_mcp.Frame.Reach.{Reaches, here, called}
use synology_mcp.Frame.Dispatch.{tool-frame}

-- every session in the cache has an id that is not empty
abbrev HasSids : State → Type 0
HasSids s =
    (host : String) (session : DsmSession) → session_at s host ≡ some session → session.sid ≢ ""

abbrev Keeping : State → State → Type 0
Keeping s t = HasSids s → HasSids t

Keeping-IsPreorder : IsPreorder Keeping
Keeping-IsPreorder = record { stay = λ s h. h; join = λ s t u h k x. k (h x) }

Keeping-same :
    (s t : State) → ((host : String) → session_at t host ≡ session_at s host) → Keeping s t
Keeping-same s t same h host session e = h host session (sym (same host) ∙ e)

-- the sessions after one is assigned
session_at-set :
    (s : State) (k host : String) (o : Option DsmSession)
    → session_at (set_session k o s).1 host ≡ (if k == host then o else session_at s host)
session_at-set s k host o =
    ap (λ r. session_at r.1 host) (modify_lem k (λ state. record state { session = o }) s)
    ∙ ap (λ state. state.session)
        (state_of-put s.cache k host (record (state_of s.cache k) { session = o }))
    ∙ go (k == host)
  where
    go :
        (b : Bool)
        → (if b then record (state_of s.cache k) { session = o } else state_of s.cache host).session
          ≡ (if b then o else session_at s host)
    go true = refl
    go false = refl

Keeping-set :
    (s : State) (k : String) (o : Option DsmSession)
    → ((session : DsmSession) → o ≡ some session → session.sid ≢ "")
    → Keeping s (set_session k o s).1
Keeping-set s k o good h host session e = go (k == host) (sym (session_at-set s k host o) ∙ e)
  where
    go : (b : Bool) → (if b then o else session_at s host) ≡ some session → session.sid ≢ ""
    go true e' = good session e'
    go false e' = h host session e'

no_session : (s : State) (k : String) → s.cache ≡ [] → session_at s k ≡ none
unfolding state_of get lookup
no_session s k e = ap (λ cache. (state_of cache k).session) e

module _ ⦃P : Platform⦄ where
  Keeping-IsFrame : IsFrame Keeping (λ request. Unit {0})
  Keeping-IsFrame = record {
    local = λ s e l h. h;
    requested = λ s c request session reply l h. h;
    looked = λ s k. Keeping-same s (host_state k s).1 (λ host. (Keeps-host_state host k).at s);
    assigned =
        λ s k f same. Keeping-same s (modify k f s).1 (λ host. (Keeps-modify host k f same).at s);
    stored = λ s k session sid.
        Keeping-set s k (some session)
          (λ other e x. sid (ap (λ o. elim o [ none ↦ "" | some y ↦ y.sid ]) e ∙ x));
    dropped = λ s k. Keeping-set s k none (λ session e. ground arith);
    login = λ c password otp_code. tt;
    info = tt;
    logout = tt;
  }

  Reaches-keeping :
      (config : Config) (admits : Tool → Bool) (s t : State)
      → Reaches config admits s t
      → HasSids s
      → HasSids t
  Reaches-keeping config admits _ _ (here s) h = h
  Reaches-keeping config admits _ _ (called s t host tool x next) h =
      Reaches-keeping config admits _ t next
        ((tool-frame Keeping-IsPreorder Keeping-IsFrame config host (λ request. tt) tool).at s h)

  -- Whatever tools are called for whatever hosts and in whatever order, from a process that has
  -- not logged in anywhere on, and whatever is answered: every session in the cache has an id that
  -- is not empty.
  pub Reaches-sids :
      (config : Config) (admits : Tool → Bool) (s t : State) (host : String) (session : DsmSession)
      → s.cache ≡ []
      → Reaches config admits s t
      → session_at t host ≡ some session
      → session.sid ≢ ""
  Reaches-sids config admits s t host session e r found =
      Reaches-keeping config admits s t r (λ k other x. ground (arith, no_session s k e, x)) host
        session found
