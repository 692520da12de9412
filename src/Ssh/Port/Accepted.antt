-- ===== src/Ssh/Port/Accepted.antt =====
-- src/synology_mcp/ssh.py: the ports that `_validate_port` accepts.
use synology_mcp.Base.{ℤ, pos, leb_ℤ, ==ℤ_iff, String, Bool, true, Option, ◌≡◌, ◌↔◌, ◌⊎◌, arith}
use synology_mcp.Json.{Value, int}
use synology_mcp.Errors.{ok}
use synology_mcp.Platform.{Platform}
use synology_mcp.Ssh.Port.{validate_port}

module _ ⦃P : Platform⦄ (host : Option String) (allow_default : Bool) where
  -- A port is accepted exactly if it is the integer that was asked for, and it is 22 with the
  -- explicit permission or lies from 1024 to 65535.
  pub validate_port_iff :
      (requested : Value) (port : ℤ)
      → (validate_port host allow_default requested ≡ ok port) ↔ (
          (requested ≡ int port)
          × (((port ≡ pos 22) × (allow_default ≡ true))
              ⊎ ((leb_ℤ (pos 1024) port ≡ true) × (leb_ℤ port (pos 65535) ≡ true))))
  unfolding validate_port
  validate_port_iff requested port = ground (arith, ==ℤ_iff port (pos 22))
