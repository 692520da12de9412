-- ===== src/Server/Caught.antt =====
-- src/synology_mcp/server.py: which exceptions a tool lets escape.
use synology_mcp.Base.{false, some, [], ◌≡◌, ◌≢◌}
use synology_mcp.Json.{null}
use synology_mcp.Errors.{Exc, raised, DsmError, Result, ok, err, to_dict}
use synology_mcp.Exec.{Exec}
use synology_mcp.Helpers.{Envelope}

-- the answer that stands for an error: a failure of the error's host, with the error's dict
abbrev pub IsFailureOf : DsmError → Envelope → Type 0
IsFailureOf e env =
    (env.is_ok ≡ false)
    × (env.host ≡ e.host)
    × (env.content ≡ null)
    × (env.warnings ≡ [])
    × (env.error ≡ some (to_dict e))

-- what a tool ended in, and what its caller gets
abbrev pub IsCaught : Result Envelope → Result Envelope → Type 0
IsCaught r answer =
    ((env : Envelope) → r ≡ ok env → answer ≡ ok env)
    × ((e : DsmError)
        → r ≡ err (raised e)
        → (env : Envelope) × (answer ≡ ok env) × IsFailureOf e env)
    × ((e : Exc) → answer ≡ err e → (r ≡ err e) × ((x : DsmError) → e ≢ raised x))
