-- ===== src/Network/Ethtool.antt =====
-- src/synology_mcp/network.py: the driver and firmware of an interface, from `ethtool -i`.
use synology_mcp.Base.{false, ◌==ℤ◌, pos, String, ◌<>◌, [], ◌∷◌, if◌then◌else◌}
use synology_mcp.Base.Dict.{Dict}
use synology_mcp.Base.Patterns.{first_match}
use synology_mcp.Json.{Value, optional}
use synology_mcp.Platform.{Platform}
use synology_mcp.Session.{SshClient}
use synology_mcp.Exec.{Exec, pure, try_ssh}
use synology_mcp.Transport.Ssh.{run}

-- the metadata in what the command printed
unfoldable pub ethtool_info : String → Dict Value
ethtool_info blob =
    ("driver", optional (first_match "driver:" blob))
    ∷ ("driver_version", optional (first_match "version:" blob))
    ∷ ("firmware_version", optional (first_match "firmware-version:" blob))
    ∷ ("bus_info", optional (first_match "bus-info:" blob))
    ∷ []

-- `_ethtool_for_iface`
unfoldable pub ethtool_for_iface : ⦃P : Platform⦄ → SshClient → String → Exec (Dict Value)
ethtool_for_iface ssh name =
    try_ssh (run ssh ("ethtool -i " <> name) false)
      (λ res. pure (if res.exit_status ==ℤ pos 0 then ethtool_info res.stdout else []))
      (λ e. pure [])
