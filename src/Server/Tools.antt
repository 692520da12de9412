-- ===== src/Server/Tools.antt =====
-- src/synology_mcp/server.py: the tools that `build_app` registers.
use synology_mcp.Base.{ℤ, String, Bool, Option}
use synology_mcp.Json.{int}
use synology_mcp.Platform.{Platform}
use synology_mcp.Config.{Config}
use synology_mcp.Exec.{Exec}
use synology_mcp.Helpers.{Envelope}
use synology_mcp.Auth.{auth_login, auth_logout, auth_whoami}
use synology_mcp.Raid.{raid_list_volumes}
use synology_mcp.Raid.Disks.{raid_list_disks}
use synology_mcp.Raid.Mdstat.{raid_state}
use synology_mcp.Raid.Hardware.{raid_hardware_info}
use synology_mcp.Network.Interfaces.{network_list_interfaces, network_get_interface}
use synology_mcp.Packages.Status.{packages_list, packages_status}
use synology_mcp.Packages.Install.{packages_install}
use synology_mcp.Packages.Uninstall.{packages_uninstall}
use synology_mcp.UserHome.{user_home_is_enabled}
use synology_mcp.UserHome.Enable.{user_home_enable}
use synology_mcp.UserHome.Disable.{user_home_disable}
use synology_mcp.Shares.Read.{shares_list, shares_get_acl, shares_get_snapshot_config}
use synology_mcp.Shares.Create.{CreateArgs, shares_create}
use synology_mcp.Shares.Delete.{shares_delete}
use synology_mcp.Snapshot.Plans.{snapshot_replication_list_plans, snapshot_replication_plan_status}
use synology_mcp.Snapshot.Activity.{snapshot_replication_recent_activity}
use synology_mcp.Ssh.Keys.{ssh_add_authorized_key, ssh_remove_authorized_key}
use synology_mcp.Ssh.Enable.{ssh_enable_user_ssh}
use synology_mcp.Ssh.Port.{ssh_set_port}
use synology_mcp.Server.{safe}

-- the tools that log in and out
pub data AuthTool : Type 0 where
  login logout whoami : AuthTool

-- the tools of raid.py
pub data RaidTool : Type 0 where
  list_volumes list_disks state hardware_info : RaidTool

-- the tools of network.py
pub data NetworkTool : Type 0 where
  list_interfaces : NetworkTool
  get_interface : String → NetworkTool

-- the tools of packages.py, with their arguments beside the host
pub data PackagesTool : Type 0 where
  list_packages : PackagesTool
  status : String → PackagesTool
  install : String → Option String → Bool → PackagesTool
  uninstall : String → Bool → PackagesTool

-- the tools of user_home.py
pub data HomeTool : Type 0 where
  is_enabled : HomeTool
  enable : Option String → HomeTool
  disable : Bool → HomeTool

-- the tools of shares.py
pub data SharesTool : Type 0 where
  list_shares : SharesTool
  get_acl get_snapshot_config : String → SharesTool
  create : CreateArgs → SharesTool
  delete : String → Bool → SharesTool

-- the tools of snapshot_replication.py
pub data SnapshotTool : Type 0 where
  list_plans : SnapshotTool
  plan_status : String → SnapshotTool
  recent_activity : ℤ → SnapshotTool

-- the tools of ssh.py
pub data SshTool : Type 0 where
  add_authorized_key : String → String → String → SshTool
  remove_authorized_key : String → String → SshTool
  enable_user_ssh : String → SshTool
  set_port : ℤ → Bool → SshTool

pub data Tool : Type 0 where
  auth : AuthTool → Tool
  raid : RaidTool → Tool
  network : NetworkTool → Tool
  packages : PackagesTool → Tool
  user_home : HomeTool → Tool
  shares : SharesTool → Tool
  snapshot_replication : SnapshotTool → Tool
  ssh : SshTool → Tool

module _ ⦃P : Platform⦄ (config : Config) (host : String) where
  unfoldable pub auth_tool : AuthTool → Exec Envelope
  auth_tool login = auth_login config host
  auth_tool logout = auth_logout config host
  auth_tool whoami = auth_whoami config host

  unfoldable pub raid_tool : RaidTool → Exec Envelope
  raid_tool list_volumes = raid_list_volumes config host
  raid_tool list_disks = raid_list_disks config host
  raid_tool state = raid_state config host
  raid_tool hardware_info = raid_hardware_info config host

  unfoldable pub network_tool : NetworkTool → Exec Envelope
  network_tool list_interfaces = network_list_interfaces config host
  network_tool (get_interface name) = network_get_interface config host name

  unfoldable pub packages_tool : PackagesTool → Exec Envelope
  packages_tool list_packages = packages_list config host
  packages_tool (status id) = packages_status config host id
  packages_tool (install id version accept_eula) =
      packages_install config host id version accept_eula
  packages_tool (uninstall id force) = packages_uninstall config host id force

  unfoldable pub home_tool : HomeTool → Exec Envelope
  home_tool is_enabled = user_home_is_enabled config host
  home_tool (enable user) = user_home_enable config host user
  home_tool (disable confirm) = user_home_disable config host confirm

  unfoldable pub shares_tool : SharesTool → Exec Envelope
  shares_tool list_shares = shares_list config host
  shares_tool (get_acl name) = shares_get_acl config host name
  shares_tool (get_snapshot_config name) = shares_get_snapshot_config config host name
  shares_tool (create args) = shares_create config host args
  shares_tool (delete name force) = shares_delete config host name force

  unfoldable pub snapshot_tool : SnapshotTool → Exec Envelope
  snapshot_tool list_plans = snapshot_replication_list_plans config host
  snapshot_tool (plan_status id) = snapshot_replication_plan_status config host id
  snapshot_tool (recent_activity limit) = snapshot_replication_recent_activity config host limit

  unfoldable pub ssh_tool : SshTool → Exec Envelope
  ssh_tool (add_authorized_key user pubkey comment) =
      ssh_add_authorized_key config host user pubkey comment
  ssh_tool (remove_authorized_key user fingerprint) =
      ssh_remove_authorized_key config host user fingerprint
  ssh_tool (enable_user_ssh user) = ssh_enable_user_ssh config host user
  ssh_tool (set_port port allow_default) = ssh_set_port config host (int port) allow_default

  -- the body of each tool, before `_safe`
  unfoldable pub tool_body : Tool → Exec Envelope
  tool_body (auth t) = auth_tool t
  tool_body (raid t) = raid_tool t
  tool_body (network t) = network_tool t
  tool_body (packages t) = packages_tool t
  tool_body (user_home t) = home_tool t
  tool_body (shares t) = shares_tool t
  tool_body (snapshot_replication t) = snapshot_tool t
  tool_body (ssh t) = ssh_tool t

  -- a call of a tool
  unfoldable pub dispatch : Tool → Exec Envelope
  dispatch tool = safe (tool_body tool)
