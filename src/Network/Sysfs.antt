-- ===== src/Network/Sysfs.antt =====
-- src/synology_mcp/network.py: the fields of an interface under /sys/class/net.
pub mod Last
use synology_mcp.Base.{false, String, ◌<>◌, ◌==◌, ◌||◌, not, List, [], ◌∷◌, map, if◌then◌else◌}
use synology_mcp.Base.Text
use synology_mcp.Base.Dict.{Dict, insert}
use synology_mcp.Platform.{Platform}
use synology_mcp.Session.{SshClient}
use synology_mcp.Exec.{Exec, pure, try_ssh}
use synology_mcp.Transport.Ssh.{run}

abbrev sysfs_fields : List String
sysfs_fields = "address" ∷ "speed" ∷ "operstate" ∷ "mtu" ∷ "duplex" ∷ "carrier" ∷ []

field_command : String → String → String
field_command name f =
    "echo "
    <> (f <> ("=$(cat /sys/class/net/" <> (name <> ("/" <> (f <> " 2>/dev/null || echo \\?)")))))

-- the command that prints `field=value` per line
unfoldable pub sysfs_command : String → String
unfolding field_command
sysfs_command name = Text.join " ; " (map (field_command name) sysfs_fields)

-- one round of the loop over the lines of the output
unfoldable pub read_line : Dict String → String → Dict String
read_line out line =
    let (k, found, after) = Text.cut 61 line in
    let v = Text.strip after in
    if not found || v == "" || v == "?" then out else insert (Text.strip k) v out

unfoldable pub read_lines : Dict String → List String → Dict String
unfolding read_line
read_lines out [] = out
read_lines out (line ∷ lines) = read_lines (read_line out line) lines

-- `_read_sysfs_for_iface`
unfoldable pub read_sysfs_for_iface : ⦃P : Platform⦄ → SshClient → String → Exec (Dict String)
unfolding read_lines sysfs_command
read_sysfs_for_iface ssh name =
    try_ssh (run ssh (sysfs_command name) false)
      (λ res. pure (read_lines [] (Text.splitlines res.stdout))) (λ e. pure [])
