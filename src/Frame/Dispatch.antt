-- ===== src/Frame/Dispatch.antt =====
-- src/synology_mcp/server.py: every tool, within a frame.
use synology_mcp.Base.{String, Bool, true, false, ◌≡◌, refl, arith}
use synology_mcp.Errors.{raised}
use synology_mcp.Platform.{Platform}
use synology_mcp.Config.{Config}
use synology_mcp.Exec.{State, Exec}
use synology_mcp.Exec.Moves.{Moves, IsPreorder, Moves-try, Moves-pure, Moves-throw}
use synology_mcp.Transport.Envelope.{Call}
use synology_mcp.Auth.Reads.{IsRead}
use synology_mcp.Helpers.{Envelope}
use synology_mcp.Server.{safe, catch_dsm}
use synology_mcp.Errors.{Exc, attribute_error, type_error, value_error, overflow_error, index_error}
use synology_mcp.Server.Tools.{
  Tool, AuthTool, RaidTool, NetworkTool, PackagesTool, HomeTool, SharesTool, SnapshotTool, SshTool,
  tool_body, dispatch, auth_tool, raid_tool, network_tool, packages_tool, home_tool, shares_tool,
  snapshot_tool, ssh_tool,
}
use synology_mcp.Frame.{IsFrame}
use synology_mcp.Frame.Network.{
  network_list_interfaces-frame, network_get_interface-frame, raid_list_volumes-frame,
  raid_list_disks-frame, raid_state-frame, raid_hardware_info-frame,
}
use synology_mcp.Frame.Packages.{packages_list-frame, packages_status-frame}
use synology_mcp.Frame.Shares.{
  shares_list-frame, shares_get_acl-frame, shares_get_snapshot_config-frame,
  user_home_is_enabled-frame,
}
use synology_mcp.Frame.Sessions.{auth_login-frame, auth_logout-frame, auth_whoami-frame}
use synology_mcp.Frame.Snapshot.{
  snapshot_replication_list_plans-frame, snapshot_replication_plan_status-frame,
  snapshot_replication_recent_activity-frame,
}
use synology_mcp.Frame.Writes.Home.{user_home_enable-frame, user_home_disable-frame}
use synology_mcp.Frame.Writes.Shares.{shares_create-frame, shares_delete-frame}
use synology_mcp.Frame.Writes.Packages.{packages_install-frame, packages_uninstall-frame}
use synology_mcp.Frame.Writes.Ssh.{
  ssh_add_authorized_key-frame, ssh_remove_authorized_key-frame, ssh_enable_user_ssh-frame,
  ssh_set_port-frame,
}

-- the tools that the program documents as reading only, and those that log in and out
unfoldable pub is_read_only : Tool → Bool
is_read_only (Tool.auth t) = true
is_read_only (Tool.raid t) = true
is_read_only (Tool.network t) = true
is_read_only (Tool.packages PackagesTool.list_packages) = true
is_read_only (Tool.packages (PackagesTool.status id)) = true
is_read_only (Tool.packages (PackagesTool.install id version accept)) = false
is_read_only (Tool.packages (PackagesTool.uninstall id force)) = false
is_read_only (Tool.user_home HomeTool.is_enabled) = true
is_read_only (Tool.user_home (HomeTool.enable user)) = false
is_read_only (Tool.user_home (HomeTool.disable confirm)) = false
is_read_only (Tool.shares SharesTool.list_shares) = true
is_read_only (Tool.shares (SharesTool.get_acl name)) = true
is_read_only (Tool.shares (SharesTool.get_snapshot_config name)) = true
is_read_only (Tool.shares (SharesTool.create args)) = false
is_read_only (Tool.shares (SharesTool.delete name force)) = false
is_read_only (Tool.snapshot_replication t) = true
is_read_only (Tool.ssh t) = false

module _ ⦃P : Platform⦄ {R : State → State → Type 0} {Allowed : Call → Type 0} (q : IsPreorder R)
    (fr : IsFrame R Allowed) where
  catch_dsm-frame : (e : Exc) → Moves R (catch_dsm e)
  unfolding catch_dsm
  catch_dsm-frame (raised e) = Moves-pure _ q
  catch_dsm-frame attribute_error = Moves-throw _ q
  catch_dsm-frame type_error = Moves-throw _ q
  catch_dsm-frame value_error = Moves-throw _ q
  catch_dsm-frame overflow_error = Moves-throw _ q
  catch_dsm-frame index_error = Moves-throw _ q

  safe-frame : (m : Exec Envelope) → Moves R m → Moves R (safe m)
  unfolding safe
  safe-frame m h = Moves-try m _ _ q h (λ env. Moves-pure env q) catch_dsm-frame

  module _ (config : Config) (host : String) where
    auth-frame : (t : AuthTool) → Moves R (auth_tool config host t)
    unfolding auth_tool
    auth-frame AuthTool.login = auth_login-frame q fr config host
    auth-frame AuthTool.logout = auth_logout-frame q fr config host
    auth-frame AuthTool.whoami = auth_whoami-frame q fr config host

    module _ (allow : (request : Call) → IsRead request → Allowed request) where
      raid-frame : (t : RaidTool) → Moves R (raid_tool config host t)
      unfolding raid_tool
      raid-frame RaidTool.list_volumes = raid_list_volumes-frame q fr allow config host
      raid-frame RaidTool.list_disks = raid_list_disks-frame q fr allow config host
      raid-frame RaidTool.state = raid_state-frame q fr allow config host
      raid-frame RaidTool.hardware_info = raid_hardware_info-frame q fr allow config host

      network-frame : (t : NetworkTool) → Moves R (network_tool config host t)
      unfolding network_tool
      network-frame NetworkTool.list_interfaces =
          network_list_interfaces-frame q fr allow config host
      network-frame (NetworkTool.get_interface name) =
          network_get_interface-frame q fr allow config host name

      snapshot-frame : (t : SnapshotTool) → Moves R (snapshot_tool config host t)
      unfolding snapshot_tool
      snapshot-frame SnapshotTool.list_plans =
          snapshot_replication_list_plans-frame q fr allow config host
      snapshot-frame (SnapshotTool.plan_status id) =
          snapshot_replication_plan_status-frame q fr allow config host id
      snapshot-frame (SnapshotTool.recent_activity limit) =
          snapshot_replication_recent_activity-frame q fr allow config host limit

      pub read_tool-frame :
          (tool : Tool) → is_read_only tool ≡ true → Moves R (dispatch config host tool)
      unfolding dispatch tool_body packages_tool home_tool shares_tool is_read_only
      read_tool-frame (Tool.auth t) h = safe-frame _ (auth-frame t)
      read_tool-frame (Tool.raid t) h = safe-frame _ (raid-frame t)
      read_tool-frame (Tool.network t) h = safe-frame _ (network-frame t)
      read_tool-frame (Tool.packages PackagesTool.list_packages) h =
          safe-frame _ (packages_list-frame q fr allow config host)
      read_tool-frame (Tool.packages (PackagesTool.status id)) h =
          safe-frame _ (packages_status-frame q fr allow config host id)
      read_tool-frame (Tool.packages (PackagesTool.install id v a)) h = ground arith
      read_tool-frame (Tool.packages (PackagesTool.uninstall id f)) h = ground arith
      read_tool-frame (Tool.user_home HomeTool.is_enabled) h =
          safe-frame _ (user_home_is_enabled-frame q fr allow config host)
      read_tool-frame (Tool.user_home (HomeTool.enable user)) h = ground arith
      read_tool-frame (Tool.user_home (HomeTool.disable confirm)) h = ground arith
      read_tool-frame (Tool.shares SharesTool.list_shares) h =
          safe-frame _ (shares_list-frame q fr allow config host)
      read_tool-frame (Tool.shares (SharesTool.get_acl name)) h =
          safe-frame _ (shares_get_acl-frame q fr allow config host name)
      read_tool-frame (Tool.shares (SharesTool.get_snapshot_config name)) h =
          safe-frame _ (shares_get_snapshot_config-frame q fr allow config host name)
      read_tool-frame (Tool.shares (SharesTool.create args)) h = ground arith
      read_tool-frame (Tool.shares (SharesTool.delete name force)) h = ground arith
      read_tool-frame (Tool.snapshot_replication t) h = safe-frame _ (snapshot-frame t)
      read_tool-frame (Tool.ssh t) h = ground arith

    module _ (every : (request : Call) → Allowed request) where
      allow_read : (request : Call) → IsRead request → Allowed request
      allow_read request h = every request

      ssh-frame : (t : SshTool) → Moves R (ssh_tool config host t)
      unfolding ssh_tool
      ssh-frame (SshTool.add_authorized_key user pubkey comment) =
          ssh_add_authorized_key-frame q fr every config host user pubkey comment
      ssh-frame (SshTool.remove_authorized_key user fingerprint) =
          ssh_remove_authorized_key-frame q fr every config host user fingerprint
      ssh-frame (SshTool.enable_user_ssh user) =
          ssh_enable_user_ssh-frame q fr every config host user
      ssh-frame (SshTool.set_port port allow_default) =
          ssh_set_port-frame q fr every config host _ allow_default

      pub tool-frame : (tool : Tool) → Moves R (dispatch config host tool)
      unfolding dispatch tool_body packages_tool home_tool shares_tool is_read_only
      tool-frame (Tool.auth t) = safe-frame _ (auth-frame t)
      tool-frame (Tool.raid t) = read_tool-frame allow_read (Tool.raid t) refl
      tool-frame (Tool.network t) = read_tool-frame allow_read (Tool.network t) refl
      tool-frame (Tool.packages PackagesTool.list_packages) =
          read_tool-frame allow_read (Tool.packages PackagesTool.list_packages) refl
      tool-frame (Tool.packages (PackagesTool.status id)) =
          read_tool-frame allow_read (Tool.packages (PackagesTool.status id)) refl
      tool-frame (Tool.packages (PackagesTool.install id version accept)) =
          safe-frame _ (packages_install-frame q fr every config host id version accept)
      tool-frame (Tool.packages (PackagesTool.uninstall id force)) =
          safe-frame _ (packages_uninstall-frame q fr every config host id force)
      tool-frame (Tool.user_home HomeTool.is_enabled) =
          read_tool-frame allow_read (Tool.user_home HomeTool.is_enabled) refl
      tool-frame (Tool.user_home (HomeTool.enable user)) =
          safe-frame _ (user_home_enable-frame q fr every config host user)
      tool-frame (Tool.user_home (HomeTool.disable confirm)) =
          safe-frame _ (user_home_disable-frame q fr every config host confirm)
      tool-frame (Tool.shares SharesTool.list_shares) =
          read_tool-frame allow_read (Tool.shares SharesTool.list_shares) refl
      tool-frame (Tool.shares (SharesTool.get_acl name)) =
          read_tool-frame allow_read (Tool.shares (SharesTool.get_acl name)) refl
      tool-frame (Tool.shares (SharesTool.get_snapshot_config name)) =
          read_tool-frame allow_read (Tool.shares (SharesTool.get_snapshot_config name)) refl
      tool-frame (Tool.shares (SharesTool.create args)) =
          safe-frame _ (shares_create-frame q fr every config host args)
      tool-frame (Tool.shares (SharesTool.delete name force)) =
          safe-frame _ (shares_delete-frame q fr every config host name force)
      tool-frame (Tool.snapshot_replication t) =
          read_tool-frame allow_read (Tool.snapshot_replication t) refl
      tool-frame (Tool.ssh t) = safe-frame _ (ssh-frame t)
