-- ===== src/Frame/Network.antt =====
-- src/synology_mcp/network.py and raid.py, within a frame.
use synology_mcp.Base.{String, ◌==◌, List, [], ◌∷◌, refl}
use synology_mcp.Base.Dict.{lookup, update, insert}
use synology_mcp.Platform.{Platform}
use synology_mcp.Config.{Config}
use synology_mcp.Session.{SshClient}
use synology_mcp.Exec.{State}
use synology_mcp.Exec.Moves.{
  Moves, IsPreorder, Moves-bind, Moves-pure, Moves-lift, Moves-if, Moves-throw, Moves-elim,
  moves_rules,
}
use synology_mcp.Transport.Envelope.{Call}
use synology_mcp.Auth.Reads.{IsRead}
use synology_mcp.Frame.{IsFrame}
use synology_mcp.Frame.Clients.{run-frame, call_dsm-frame, get_ssh_client-frame}
use synology_mcp.Network.{WebIface}
use synology_mcp.Network.Sysfs.{read_sysfs_for_iface}
use synology_mcp.Network.Ethtool.{ethtool_for_iface}
use synology_mcp.Network.Interfaces.{
  find_iface, interface_call, merge_all, full_records, list_interfaces, network_list_interfaces,
  network_get_interface,
}
use synology_mcp.Raid.{storage_call, raid_list_volumes}
use synology_mcp.Raid.Disks.{raid_list_disks}
use synology_mcp.Raid.Mdstat.{raid_state}
use synology_mcp.Raid.Hardware.{system_call, nics_or_none, raid_hardware_info}

interface_call-IsRead : IsRead interface_call
unfolding IsRead update insert lookup
interface_call-IsRead = refl

storage_call-IsRead : IsRead storage_call
unfolding IsRead update insert lookup
storage_call-IsRead = refl

system_call-IsRead : IsRead system_call
unfolding IsRead update insert lookup
system_call-IsRead = refl

module _ ⦃P : Platform⦄ {R : State → State → Type 0} {Allowed : Call → Type 0} (q : IsPreorder R)
    (fr : IsFrame R Allowed) (allow : (request : Call) → IsRead request → Allowed request) where
  read_sysfs_for_iface-frame :
      (ssh : SshClient) (name : String) → Moves R (read_sysfs_for_iface ssh name)
  unfolding read_sysfs_for_iface
  read_sysfs_for_iface-frame ssh name = search (q, run-frame q fr, moves_rules)

  ethtool_for_iface-frame : (ssh : SshClient) (name : String) → Moves R (ethtool_for_iface ssh name)
  unfolding ethtool_for_iface
  ethtool_for_iface-frame ssh name = search (q, run-frame q fr, moves_rules)

  merge_all-frame : (ssh : SshClient) (webs : List WebIface) → Moves R (merge_all ssh webs)
  unfolding merge_all
  merge_all-frame ssh [] = Moves-pure _ q
  merge_all-frame ssh (web ∷ rest) = Moves-if (web.name == "") _ _ (merge_all-frame ssh rest) (
      Moves-bind _ _ q (read_sysfs_for_iface-frame ssh web.name) (λ sysfs.
        Moves-bind _ _ q (Moves-lift _ q)
          (λ full. Moves-bind _ _ q (merge_all-frame ssh rest) (λ found. Moves-pure _ q))))

  full_records-frame : (config : Config) (host : String) → Moves R (full_records config host)
  unfolding full_records
  full_records-frame config host =
      Moves-bind _ _ q (call_dsm-frame q fr config host _ (allow _ interface_call-IsRead))
        (λ body. search (q, get_ssh_client-frame q fr, merge_all-frame, moves_rules))

  list_interfaces-frame : (config : Config) (host : String) → Moves R (list_interfaces config host)
  unfolding list_interfaces
  list_interfaces-frame config host = search (q, full_records-frame, moves_rules)

  pub network_list_interfaces-frame :
      (config : Config) (host : String) → Moves R (network_list_interfaces config host)
  unfolding network_list_interfaces
  network_list_interfaces-frame config host = search (q, list_interfaces-frame, moves_rules)

  pub network_get_interface-frame :
      (config : Config) (host name : String) → Moves R (network_get_interface config host name)
  unfolding network_get_interface
  network_get_interface-frame config host name =
      Moves-bind _ _ q (full_records-frame config host) (λ (found, body, ssh).
        Moves-elim (find_iface name found) _ _ (Moves-throw _ q)
          (λ iface. search (q, ethtool_for_iface-frame, moves_rules)))

  pub raid_list_volumes-frame :
      (config : Config) (host : String) → Moves R (raid_list_volumes config host)
  unfolding raid_list_volumes
  raid_list_volumes-frame config host =
      Moves-bind _ _ q (call_dsm-frame q fr config host _ (allow _ storage_call-IsRead))
        (λ body. search (q, moves_rules))

  pub raid_list_disks-frame :
      (config : Config) (host : String) → Moves R (raid_list_disks config host)
  unfolding raid_list_disks
  raid_list_disks-frame config host =
      Moves-bind _ _ q (call_dsm-frame q fr config host _ (allow _ storage_call-IsRead))
        (λ body. search (q, moves_rules))

  pub raid_state-frame : (config : Config) (host : String) → Moves R (raid_state config host)
  unfolding raid_state
  raid_state-frame config host = search (q, get_ssh_client-frame q fr, run-frame q fr, moves_rules)

  nics_or_none-frame : (config : Config) (host : String) → Moves R (nics_or_none config host)
  unfolding nics_or_none
  nics_or_none-frame config host = search (q, list_interfaces-frame, moves_rules)

  pub raid_hardware_info-frame :
      (config : Config) (host : String) → Moves R (raid_hardware_info config host)
  unfolding raid_hardware_info
  raid_hardware_info-frame config host =
      Moves-bind _ _ q (call_dsm-frame q fr config host _ (allow _ system_call-IsRead)) (λ body.
        Moves-bind _ _ q (Moves-lift _ q) (λ info.
          Moves-bind _ _ q (nics_or_none-frame config host)
            (λ found. Moves-bind _ _ q (Moves-lift _ q) (λ nics. Moves-pure _ q))))
