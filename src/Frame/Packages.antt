-- ===== src/Frame/Packages.antt =====
-- src/synology_mcp/packages.py: the tools that read, within a frame.
use synology_mcp.Base.{◌==◌, String, List, [], ◌∷◌, refl}
use synology_mcp.Base.Dict.{lookup, update, insert}
use synology_mcp.Platform.{Platform}
use synology_mcp.Config.{Config}
use synology_mcp.Session.{SshClient}
use synology_mcp.Exec.{State}
use synology_mcp.Exec.Moves.{
  Moves, IsPreorder, Moves-bind, Moves-pure, Moves-lift, Moves-if, Moves-throw, moves_rules,
}
use synology_mcp.Transport.Envelope.{Call}
use synology_mcp.Auth.Reads.{IsRead}
use synology_mcp.Frame.{IsFrame}
use synology_mcp.Frame.Clients.{run-frame, call_dsm-frame, get_ssh_client-frame}
use synology_mcp.Packages.{package_get}
use synology_mcp.Packages.Probes.{
  probe_synopkg_status, probe_container_manager_docker, probe_install_path, probe_last_started_at,
}
use synology_mcp.Packages.Status.{
  package_list_call, PackageRow, overlay_docker, decorate, decorate_all, packages_list, status_row,
  packages_status,
}

package_list_call-IsRead : IsRead package_list_call
unfolding IsRead update insert lookup
package_list_call-IsRead = refl

pub package_get-IsRead : (id : String) → IsRead (package_get id)
unfolding IsRead update insert lookup
package_get-IsRead id = refl

module _ ⦃P : Platform⦄ {R : State → State → Type 0} {Allowed : Call → Type 0} (q : IsPreorder R)
    (fr : IsFrame R Allowed) (allow : (request : Call) → IsRead request → Allowed request) where
  probe_synopkg_status-frame :
      (ssh : SshClient) (id : String) → Moves R (probe_synopkg_status ssh id)
  unfolding probe_synopkg_status
  probe_synopkg_status-frame ssh id = search (q, run-frame q fr, moves_rules)

  probe_container_manager_docker-frame :
      (ssh : SshClient) → Moves R (probe_container_manager_docker ssh)
  unfolding probe_container_manager_docker
  probe_container_manager_docker-frame ssh = search (q, run-frame q fr, moves_rules)

  probe_install_path-frame : (ssh : SshClient) (id : String) → Moves R (probe_install_path ssh id)
  unfolding probe_install_path
  probe_install_path-frame ssh id = search (q, run-frame q fr, moves_rules)

  probe_last_started_at-frame :
      (ssh : SshClient) (id : String) → Moves R (probe_last_started_at ssh id)
  unfolding probe_last_started_at
  probe_last_started_at-frame ssh id = search (q, run-frame q fr, moves_rules)

  overlay_docker-frame :
      (ssh : SshClient) (status : String) (row : PackageRow)
      → Moves R (overlay_docker ssh status row)
  unfolding overlay_docker
  overlay_docker-frame ssh status row =
      search (q, probe_container_manager_docker-frame, moves_rules)

  decorate-frame : (ssh : SshClient) (row : PackageRow) → Moves R (decorate ssh row)
  unfolding decorate
  decorate-frame ssh row =
      Moves-bind _ _ q (probe_synopkg_status-frame ssh _)
        (λ found. Moves-bind _ _ q (Moves-lift _ q) (λ row'. overlay_docker-frame ssh _ row'))

  decorate_all-frame :
      (ssh : SshClient) (found : List PackageRow) → Moves R (decorate_all ssh found)
  unfolding decorate_all
  decorate_all-frame ssh [] = Moves-pure _ q
  decorate_all-frame ssh (row ∷ rest) =
      Moves-bind _ _ q (decorate-frame ssh row)
        (λ first. Moves-bind _ _ q (decorate_all-frame ssh rest) (λ others. Moves-pure _ q))

  pub packages_list-frame : (config : Config) (host : String) → Moves R (packages_list config host)
  unfolding packages_list
  packages_list-frame config host =
      Moves-bind _ _ q (call_dsm-frame q fr config host _ (allow _ package_list_call-IsRead))
        (λ body. search (q, get_ssh_client-frame q fr, decorate_all-frame, moves_rules))

  status_row-frame :
      (ssh : SshClient) (id : String) (row : PackageRow) → Moves R (status_row ssh id row)
  unfolding status_row
  status_row-frame ssh id row = Moves-bind _ _ q (probe_synopkg_status-frame ssh id) (λ found.
      Moves-bind _ _ q (Moves-lift _ q) (λ row'.
        Moves-bind _ _ q (probe_install_path-frame ssh id) (λ path.
          Moves-bind _ _ q (probe_last_started_at-frame ssh id)
            (λ started. overlay_docker-frame ssh _ _))))

  pub packages_status-frame :
      (config : Config) (host id : String) → Moves R (packages_status config host id)
  unfolding packages_status
  packages_status-frame config host id = Moves-if (id == "") _ _ (Moves-throw _ q) (
      Moves-bind _ _ q (call_dsm-frame q fr config host _ (allow _ (package_get-IsRead id)))
        (λ body. search (q, get_ssh_client-frame q fr, status_row-frame, moves_rules)))
