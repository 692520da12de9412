-- ===== src/Frame/Shares.antt =====
-- src/synology_mcp/shares.py and user_home.py: the tools that read, within a frame.
use synology_mcp.Base.{◌==◌, ◌==ℤ◌, not, ◌&&◌, pos, String, false, List, [], ◌∷◌, refl}
use synology_mcp.Base.Dict.{lookup, update, insert}
use synology_mcp.Platform.{Platform}
use synology_mcp.Config.{Config}
use synology_mcp.Session.{SshClient}
use synology_mcp.Exec.{State}
use synology_mcp.Exec.Moves.{
  Moves, IsPreorder, Moves-bind, Moves-pure, Moves-lift, Moves-if, Moves-throw, Moves-try,
  Moves-try_ssh, moves_rules,
}
use synology_mcp.Transport.Envelope.{Call}
use synology_mcp.Auth.Reads.{IsRead}
use synology_mcp.Frame.{IsFrame}
use synology_mcp.Frame.Clients.{run-frame, call_dsm-frame, get_ssh_client-frame}
use synology_mcp.Base.Text
use synology_mcp.Shares.Read.{
  share_list_call, permission_call, snapshot_call, list_shares, shares_list, acl_round, acl_rounds,
  shares_get_acl, shares_get_snapshot_config, AclView, is_denial,
}
use synology_mcp.UserHome.{
  home_get, grep_synoinfo, read_synoinfo_user_home, read_homes_symlink, user_home_is_enabled,
}

share_list_call-IsRead : IsRead share_list_call
unfolding IsRead update insert lookup
share_list_call-IsRead = refl

permission_call-IsRead : (name kind : String) → IsRead (permission_call name kind)
unfolding IsRead update insert lookup
permission_call-IsRead name kind = refl

snapshot_call-IsRead : (name : String) → IsRead (snapshot_call name)
unfolding IsRead update insert lookup
snapshot_call-IsRead name = refl

home_get-IsRead : IsRead home_get
unfolding IsRead update insert lookup
home_get-IsRead = refl

module _ ⦃P : Platform⦄ {R : State → State → Type 0} {Allowed : Call → Type 0} (q : IsPreorder R)
    (fr : IsFrame R Allowed) (allow : (request : Call) → IsRead request → Allowed request) where
  pub list_shares-frame : (config : Config) (host : String) → Moves R (list_shares config host)
  unfolding list_shares
  list_shares-frame config host =
      Moves-bind _ _ q (call_dsm-frame q fr config host _ (allow _ share_list_call-IsRead))
        (λ body. search (q, moves_rules))

  pub shares_list-frame : (config : Config) (host : String) → Moves R (shares_list config host)
  unfolding shares_list
  shares_list-frame config host = search (q, list_shares-frame, moves_rules)

  acl_round-frame :
      (config : Config) (host name kind : String) (view : AclView)
      → Moves R (acl_round config host name kind view)
  unfolding acl_round
  acl_round-frame config host name kind view =
      Moves-try _ _ _ q
        (call_dsm-frame q fr config host _ (allow _ (permission_call-IsRead name kind)))
        (λ body. search (q, moves_rules))
        (λ e. Moves-if (is_denial e) _ _ (Moves-pure _ q) (Moves-throw e q))

  acl_rounds-frame :
      (config : Config) (host name : String) (kinds : List String) (view : AclView)
      → Moves R (acl_rounds config host name kinds view)
  unfolding acl_rounds
  acl_rounds-frame config host name [] view = Moves-pure _ q
  acl_rounds-frame config host name (kind ∷ kinds) view =
      Moves-bind _ _ q (acl_round-frame config host name kind view)
        (λ view'. acl_rounds-frame config host name kinds view')

  pub shares_get_acl-frame :
      (config : Config) (host name : String) → Moves R (shares_get_acl config host name)
  unfolding shares_get_acl
  shares_get_acl-frame config host name = Moves-if (name == "") _ _ (Moves-throw _ q) (
      Moves-bind _ _ q (acl_rounds-frame config host name _ _)
        (λ view. Moves-if view.denied_for_all _ _ (Moves-throw _ q) (Moves-pure _ q)))

  pub shares_get_snapshot_config-frame :
      (config : Config) (host name : String) → Moves R (shares_get_snapshot_config config host name)
  unfolding shares_get_snapshot_config
  shares_get_snapshot_config-frame config host name = Moves-if (name == "") _ _ (Moves-throw _ q) (
      Moves-bind _ _ q (call_dsm-frame q fr config host _ (allow _ (snapshot_call-IsRead name)))
        (λ body. search (q, moves_rules)))

  grep_synoinfo-frame : (ssh : SshClient) → Moves R (grep_synoinfo ssh)
  unfolding grep_synoinfo
  grep_synoinfo-frame ssh = search (q, run-frame q fr, moves_rules)

  read_synoinfo_user_home-frame : (ssh : SshClient) → Moves R (read_synoinfo_user_home ssh)
  unfolding read_synoinfo_user_home
  read_synoinfo_user_home-frame ssh =
      Moves-try_ssh _ _ _ q (run-frame q fr ssh _ false)
        (λ res.
          Moves-if (res.exit_status ==ℤ pos 0 && not (P.lower (Text.strip res.stdout) == "")) _ _
            (Moves-pure _ q) (grep_synoinfo-frame ssh))
        (λ e. grep_synoinfo-frame ssh)

  read_homes_symlink-frame : (ssh : SshClient) → Moves R (read_homes_symlink ssh)
  unfolding read_homes_symlink
  read_homes_symlink-frame ssh = search (q, run-frame q fr, moves_rules)

  pub user_home_is_enabled-frame :
      (config : Config) (host : String) → Moves R (user_home_is_enabled config host)
  unfolding user_home_is_enabled
  user_home_is_enabled-frame config host =
      Moves-bind _ _ q (call_dsm-frame q fr config host _ (allow _ home_get-IsRead)) (λ body.
        Moves-bind _ _ q (Moves-lift _ q) (λ data_.
          Moves-bind _ _ q (get_ssh_client-frame q fr config host) (λ ssh.
            Moves-bind _ _ q (read_synoinfo_user_home-frame ssh) (λ synoinfo.
              Moves-bind _ _ q (read_homes_symlink-frame ssh) (λ symlink. Moves-pure _ q)))))
