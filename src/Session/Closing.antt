-- ===== src/Session/Closing.antt =====
-- src/synology_mcp/session.py and transport/ssh.py: what the process closes when it ends. The
-- connections of an HTTP client are `httpx`'s own, so closing them has no event here.
use synology_mcp.Base.{String, Option, none, some, if◌then◌else◌, List, [], ◌∷◌, ◌++◌}
use synology_mcp.Platform.{Trace, SshTarget, closed}
use synology_mcp.Session.{SessionCache, HostState, SshClient, fresh}
use synology_mcp.Transport.Ssh.{target}

-- `state.http_client.aclose()` and the assignment after it
abbrev close_http : HostState → HostState
close_http state = elim state.http_client [
  | none ↦ state
  | some c ↦ record state { http_client = none }
]

-- `ssh.close()`: a client without a connection does nothing; errors are suppressed
abbrev close_client : SshClient → Trace → Trace
close_client ssh t = if ssh.is_open then closed (target ssh) ∷ t else t

abbrev close_ssh : HostState → Trace → HostState × Trace
close_ssh state t = elim state.ssh_client [
  | none ↦ (state, t)
  | some ssh ↦ (record state { ssh_client = none }, close_client ssh t)
]

-- one round of the loop
unfoldable pub close_state : HostState → Trace → HostState × Trace
close_state state t =
    let (state', t') = close_ssh (close_http state) t in (record state' { session = none }, t')

-- `SessionCache.aclose`
unfoldable pub aclose : SessionCache → Trace → SessionCache × Trace
aclose [] t = ([], t)
aclose ((host, state) ∷ cache) t =
    let (state', t1) = close_state state t in
    let (cache', t2) = aclose cache t1 in ((host, state') ∷ cache', t2)

-- the connections that a cache holds
abbrev pub connection_of : Option SshClient → List SshTarget
connection_of none = []
connection_of (some ssh) = if ssh.is_open then target ssh ∷ [] else []

unfoldable pub connections : SessionCache → List SshTarget
connections [] = []
connections ((host, state) ∷ cache) = connection_of state.ssh_client ++ connections cache

-- the record after connections are closed one after another
unfoldable pub after_closing : List SshTarget → Trace → Trace
after_closing [] t = t
after_closing (x ∷ xs) t = after_closing xs (closed x ∷ t)

-- the same hosts, without session and clients
unfoldable pub emptied : List String → SessionCache
emptied [] = []
emptied (host ∷ hosts) = (host, fresh) ∷ emptied hosts
