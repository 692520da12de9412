-- ===== src/Session.antt =====
-- src/synology_mcp/session.py: what the process keeps for each host. The clients' classes stand
-- here too: a `DSMHttpClient` is the settings that it was made with, a `DSMSshClient` (see
-- Transport.Ssh) holds a connection or none.
pub mod Closing
use synology_mcp.Base.{
  ℕ, String, ◌==◌, Bool, Option, none, some, List, [], ◌∷◌, map, ◌≡◌, ◌∙◌, refl, eq_refl, arith,
  eq_iff, if◌then◌else◌,
}
use synology_mcp.Base.Dict.{Dict, lookup, insert, lookup-insert}
use synology_mcp.Json.{Value}
use synology_mcp.Config.{HostConfig}

-- `issued_at` and the age computed from it are not modelled.
pub record DsmSession : Type 0 where
  pub sid : String
  pub syno_token : String
  pub user : String
  pub cookies : Dict Value
  pub dsm_major_minor : Option (ℕ × ℕ)

-- `DSMSshClient`: `is_open` says whether `_client` holds a connection.
pub record SshClient : Type 0 where
  pub host_cfg : HostConfig
  pub password : Value
  pub is_open : Bool

-- The HTTP client is `http_client`: the settings it was made with.
pub record HostState : Type 0 where
  pub session : Option DsmSession
  pub http_client : Option HostConfig
  pub ssh_client : Option SshClient

abbrev pub fresh : HostState
fresh = record { session = none; http_client = none; ssh_client = none }

-- `SessionCache._by_host`
abbrev pub SessionCache : Type 0
SessionCache = Dict HostState

-- `SessionCache.get`: the state of the host, and the cache that holds it from then on
unfoldable pub get : SessionCache → String → HostState × SessionCache
get cache host = elim (lookup host cache) [
  | some state ↦ (state, cache)
  | none ↦ (fresh, insert host fresh cache)
]

-- what `get` returns, and an assignment to fields of the object that it returned
unfoldable pub state_of : SessionCache → String → HostState
unfolding get
state_of cache host = (get cache host).0

unfoldable pub put : SessionCache → String → HostState → SessionCache
put cache host state = insert host state cache

-- `SessionCache.invalidate_session`
unfoldable pub invalidate_session : SessionCache → String → Option DsmSession × SessionCache
invalidate_session cache host = elim (lookup host cache) [
  | none ↦ (none, cache)
  | some state ↦ (state.session, insert host (record state { session = none }) cache)
]

-- `SessionCache.invalidate_http`
unfoldable pub invalidate_http : SessionCache → String → SessionCache
invalidate_http cache host = elim (lookup host cache) [
  | none ↦ cache
  | some state ↦ insert host (record state { http_client = none }) cache
]

-- `SessionCache.invalidate_ssh`
unfoldable pub invalidate_ssh : SessionCache → String → SessionCache
invalidate_ssh cache host = elim (lookup host cache) [
  | none ↦ cache
  | some state ↦ insert host (record state { ssh_client = none }) cache
]

-- `SessionCache.all_hosts`
unfoldable pub all_hosts : SessionCache → List String
all_hosts cache = map (λ (host, state). host) cache

-- The state of a host after a write to the state of a host.
pub state_of-put :
    (cache : SessionCache) (h k : String) (state : HostState)
    → state_of (put cache h state) k ≡ (if h == k then state else state_of cache k)
unfolding state_of put
state_of-put cache h k state = ground (arith, lookup-insert h k state cache)

-- A read leaves every host's state as it is, though it may add an entry.
pub state_of-get :
    (cache : SessionCache) (h k : String) → state_of (get cache h).1 k ≡ state_of cache k
unfolding state_of
state_of-get cache h k = ground (arith, lookup-insert h k fresh cache, eq_iff h k)

pub state_of-put_same :
    (cache : SessionCache) (h : String) (state : HostState) → state_of (put cache h state) h ≡ state
state_of-put_same cache h state = state_of-put cache h h state ∙ rw (eq_refl h) refl
