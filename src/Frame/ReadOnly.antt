-- ===== src/Frame/ReadOnly.antt =====
-- src/synology_mcp/server.py: what the tools that read send.
use synology_mcp.Base.{true, ◌≡◌, refl, ◌∙◌, arith, Option}
use synology_mcp.Base.Dict.{lookup, update, insert}
use synology_mcp.Platform.{Platform, Event, sent, connected, executed, closed, probed, HttpReply}
use synology_mcp.Config.{Config, HostConfig}
use synology_mcp.Session.{DsmSession}
use synology_mcp.Exec.{State, host_state, modify}
use synology_mcp.Exec.Costs.{total}
use synology_mcp.Exec.Moves.{IsPreorder}
use synology_mcp.Transport.Envelope.{Call}
use synology_mcp.Transport.Http.{request_of}
use synology_mcp.Auth.{logout_call}
use synology_mcp.Auth.Reads.{writes, IsRead, login_call-IsRead, info_call-IsRead}
use synology_mcp.Frame.{IsFrame, is_local}
use synology_mcp.Frame.Reach.{Reaches, here, called}
use synology_mcp.Frame.Dispatch.{is_read_only, read_tool-frame}

-- as many requests that change something have been sent after as before
abbrev Silent : State → State → Type 0
Silent s t = total writes t.trace ≡ total writes s.trace

Silent-IsPreorder : IsPreorder Silent
Silent-IsPreorder = record { stay = λ s. refl; join = λ s t u h k. k ∙ h }

local_writes : (e : Event) → is_local e ≡ true → writes e ≡ 0
unfolding is_local writes
local_writes (sent request reply) h = ground arith
local_writes (connected target why) h = refl
local_writes (executed target command reply) h = refl
local_writes (closed target) h = refl
local_writes (probed target why) h = refl

logout_call-IsRead : IsRead logout_call
unfolding IsRead update insert lookup
logout_call-IsRead = refl

module _ ⦃P : Platform⦄ where
  request_writes :
      (c : HostConfig) (request : Call) (session : Option DsmSession) (reply : HttpReply)
      → IsRead request
      → writes (sent (request_of c request session) reply) ≡ 0
  unfolding writes request_of IsRead
  request_writes c request session reply h = rw h refl

  Silent-IsFrame : IsFrame Silent IsRead
  unfolding total host_state modify
  Silent-IsFrame = record {
    local = λ s e h. rw (local_writes e h) (omega arith);
    requested =
        λ s c request session reply h. rw (request_writes c request session reply h) (omega arith);
    looked = λ s host. refl;
    assigned = λ s host f h. refl;
    stored = λ s host session h. refl;
    dropped = λ s host. refl;
    login = login_call-IsRead;
    info = info_call-IsRead;
    logout = logout_call-IsRead;
  }

  -- Calls of the tools that read, in any order, for any hosts and whatever is answered, send no
  -- request whose method is set, create, delete, install, uninstall or add: there are as many of
  -- these in the record after the calls as before.
  pub Reaches-reads :
      (config : Config) (s t : State)
      → Reaches config is_read_only s t
      → total writes t.trace ≡ total writes s.trace
  Reaches-reads config _ _ (here s) = refl
  Reaches-reads config _ _ (called s t host tool h next) =
      Reaches-reads config _ t next
      ∙ (read_tool-frame Silent-IsPreorder Silent-IsFrame config host (λ request k. k) tool h).at s
