-- ===== src/Frame.antt =====
-- Frames: what holds between the state before a tool and the state after it, whatever the tool
-- does, if it holds of each event, of each look at the cache and of each write to it. The modules
-- below show it for the clients, the login and the tools, once for all such relations.
pub mod Clients
pub mod Network
pub mod Packages
pub mod Shares
pub mod Sessions
pub mod Writes
pub mod Reach
pub mod ReadOnly
pub mod Sids
pub mod Dispatch
pub mod Snapshot
use synology_mcp.Base.{String, Bool, true, false, ◌≡◌, ◌≢◌, Option, none, some, ◌∷◌}
use synology_mcp.Json.{Value}
use synology_mcp.Platform.{Platform, Event, sent, HttpReply}
use synology_mcp.Config.{HostConfig}
use synology_mcp.Session.{HostState, DsmSession}
use synology_mcp.Exec.{State, host_state, modify, set_session}
use synology_mcp.Exec.Moves.{IsPreorder}
use synology_mcp.Transport.Envelope.{Call}
use synology_mcp.Transport.Http.{request_of}
use synology_mcp.Auth.{login_call, info_call, logout_call}

-- an event that is no request to the web API
unfoldable pub is_local : Event → Bool
is_local (sent request reply) = false
is_local _ = true

module _ ⦃P : Platform⦄ where
  -- `R` holds of every step of a tool whose requests are allowed, the login's among them
  pub record IsFrame (R : State → State → Type 0) (Allowed : Call → Type 0) : Type 0 where
    pub local : (s : State) (e : Event) → is_local e ≡ true → R s (record s { trace = e ∷ s.trace })
    pub requested :
        (s : State) (c : HostConfig) (request : Call) (session : Option DsmSession)
        (reply : HttpReply)
        → Allowed request
        → R s (record s { trace = sent (request_of c request session) reply ∷ s.trace })
    pub looked : (s : State) (host : String) → R s (host_state host s).1
    pub assigned :
        (s : State) (host : String) (f : HostState → HostState)
        → ((state : HostState) → (f state).session ≡ state.session)
        → R s (modify host f s).1
    pub stored :
        (s : State) (host : String) (session : DsmSession)
        → session.sid ≢ ""
        → R s (set_session host (some session) s).1
    pub dropped : (s : State) (host : String) → R s (set_session host none s).1
    pub login :
        (c : HostConfig) (password otp_code : Value) → Allowed (login_call c password otp_code)
    pub info : Allowed info_call
    pub logout : Allowed logout_call
