-- ===== src/Frame/Reach.antt =====
-- src/synology_mcp/server.py: calls of tools one after another.
use synology_mcp.Base.{String, Bool, true, ◌≡◌}
use synology_mcp.Platform.{Platform}
use synology_mcp.Config.{Config}
use synology_mcp.Exec.{State}
use synology_mcp.Server.Tools.{Tool, dispatch}

-- the states that calls of the tools which `admits` accepts lead from and to, whatever they answer
pub data Reaches ⦃P : Platform⦄ (config : Config) (admits : Tool → Bool)
    : State → State → Type 0 where
  here : (s : State) → Reaches config admits s s
  called :
      (s t : State) (host : String) (tool : Tool)
      → admits tool ≡ true
      → Reaches config admits (dispatch config host tool s).1 t
      → Reaches config admits s t
