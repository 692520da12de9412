-- ===== src/UserHome/Reads.antt =====
-- src/synology_mcp/user_home.py: the checks send no request that changes anything.
use synology_mcp.Base.{false, String, ◌==◌, ◌==ℤ◌, pos, not, ◌&&◌, refl, arith}
use synology_mcp.Base.Text
use synology_mcp.Base.Dict.{lookup, update, insert}
use synology_mcp.Platform.{Platform}
use synology_mcp.Config.{Config}
use synology_mcp.Session.{SshClient}
use synology_mcp.Exec.Costs.{Costs, Costs-pure, Costs-lift, Costs-if, Costs-then, Costs-try_ssh}
use synology_mcp.Transport.Ssh.{run}
use synology_mcp.Transport.Ssh.Billed.{run-Costs}
use synology_mcp.Auth.Reads.{writes, IsRead, writes-IsTariff, call_dsm-reads, get_ssh_client-reads}
use synology_mcp.UserHome.{
  home_get, grep_synoinfo, read_synoinfo_user_home, read_homes_symlink, user_home_is_enabled,
}

home_get-IsRead : IsRead home_get
unfolding IsRead update insert lookup
home_get-IsRead = refl

module _ ⦃P : Platform⦄ where
  pub run-reads : (ssh : SshClient) (command : String) → Costs writes 0 (run ssh command false)
  run-reads ssh command = run-Costs writes 0 writes-IsTariff ssh command _

  grep_synoinfo-reads : (ssh : SshClient) → Costs writes 0 (grep_synoinfo ssh)
  unfolding grep_synoinfo
  grep_synoinfo-reads ssh =
      Costs-try_ssh _ 0 0 0 _ _ _ (omega arith) (run-reads ssh _) (λ res. Costs-pure _ 0 _)
        (λ e. Costs-pure _ 0 _)

  read_synoinfo_user_home-reads : (ssh : SshClient) → Costs writes 0 (read_synoinfo_user_home ssh)
  unfolding read_synoinfo_user_home
  read_synoinfo_user_home-reads ssh =
      Costs-try_ssh _ 0 0 0 _ _ _ (omega arith) (run-reads ssh _)
        (λ res.
          Costs-if _ 0 (res.exit_status ==ℤ pos 0 && not (P.lower (Text.strip res.stdout) == "")) _
            _ (Costs-pure _ 0 _) (grep_synoinfo-reads ssh))
        (λ e. grep_synoinfo-reads ssh)

  read_homes_symlink-reads : (ssh : SshClient) → Costs writes 0 (read_homes_symlink ssh)
  unfolding read_homes_symlink
  read_homes_symlink-reads ssh =
      Costs-try_ssh _ 0 0 0 _ _ _ (omega arith) (run-reads ssh _) (λ res. Costs-pure _ 0 _)
        (λ e. Costs-pure _ 0 _)

  pub user_home_is_enabled-reads :
      (config : Config) (host : String) → Costs writes 0 (user_home_is_enabled config host)
  unfolding user_home_is_enabled
  user_home_is_enabled-reads config host =
      Costs-then _ _ _ (call_dsm-reads config host home_get home_get-IsRead) (λ body.
        Costs-then _ _ _ (Costs-lift _ 0 _) (λ data_.
          Costs-then _ _ _ (get_ssh_client-reads config host) (λ ssh.
            Costs-then _ _ _ (read_synoinfo_user_home-reads ssh) (λ synoinfo.
              Costs-then _ _ _ (read_homes_symlink-reads ssh) (λ symlink. Costs-pure _ 0 _)))))
