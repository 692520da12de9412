-- ===== src/Server.antt =====
-- src/synology_mcp/server.py: the wrapper of every tool.
pub mod Caught
pub mod Tools
use synology_mcp.Base.{false, some, []}
use synology_mcp.Json.{null}
use synology_mcp.Errors.{Exc, raised, DsmError, to_dict}
use synology_mcp.Exec.{Exec, pure, throw, try_with}
use synology_mcp.Helpers.{Envelope}

-- the dict that stands for a `DSMError`
unfoldable pub failure_of : DsmError → Envelope
failure_of e = record {
  is_ok = false;
  host = e.host;
  content = null;
  warnings = [];
  error = some (to_dict e);
}

unfoldable pub catch_dsm : Exc → Exec Envelope
catch_dsm (raised e) = pure (failure_of e)
catch_dsm e = throw e

-- `_safe`: only a `DSMError` is caught
unfoldable pub safe : Exec Envelope → Exec Envelope
unfolding catch_dsm
safe tool = try_with tool pure catch_dsm
