-- ===== src/Frame/Writes/Shares.antt =====
-- src/synology_mcp/shares.py: `shares_create` and `shares_delete`, within a frame.
use synology_mcp.Base.{◌==◌, ℤ, pos, ltb_ℤ, String, Bool, true, false, Option, none, some}
use synology_mcp.Platform.{Platform}
use synology_mcp.Config.{Config}
use synology_mcp.Session.{SshClient}
use synology_mcp.Exec.{State}
use synology_mcp.Exec.Moves.{
  Moves, IsPreorder, Moves-bind, Moves-pure, Moves-lift, Moves-if, Moves-throw, moves_rules,
}
use synology_mcp.Transport.Envelope.{Call}
use synology_mcp.Frame.{IsFrame}
use synology_mcp.Frame.Clients.{run-frame, call_dsm-frame, get_ssh_client-frame}
use synology_mcp.Shares.{ShareRow}
use synology_mcp.Shares.Names.{is_reserved_share_name}
use synology_mcp.Shares.Create.{CreateArgs, create_new, create_unless, shares_create}
use synology_mcp.Shares.Delete.{
  share_directory_size_bytes, delete_now, after_size, delete_found, shares_delete,
}
use synology_mcp.Frame.Shares.{list_shares-frame}

module _ ⦃P : Platform⦄ {R : State → State → Type 0} {Allowed : Call → Type 0} (q : IsPreorder R)
    (fr : IsFrame R Allowed) (every : (request : Call) → Allowed request) where
  create_unless-frame :
      (config : Config) (host : String) (a : CreateArgs) (o : Option ShareRow)
      → Moves R (create_unless config host a o)
  unfolding create_unless create_new
  create_unless-frame config host a none =
      Moves-bind _ _ q (call_dsm-frame q fr config host _ (every _)) (λ body. Moves-pure _ q)
  create_unless-frame config host a (some row) = Moves-pure _ q

  pub shares_create-frame :
      (config : Config) (host : String) (a : CreateArgs) → Moves R (shares_create config host a)
  unfolding shares_create
  shares_create-frame config host a = Moves-bind _ _ q (Moves-lift _ q) (λ _.
      Moves-if (is_reserved_share_name a.name) _ _ (Moves-pure _ q) (
        Moves-bind _ _ q (list_shares-frame q fr (λ r _. every r) config host)
          (λ found. create_unless-frame config host a _)))

  share_directory_size_bytes-frame :
      (ssh : SshClient) (volume name : String)
      → Moves R (share_directory_size_bytes ssh volume name)
  unfolding share_directory_size_bytes
  share_directory_size_bytes-frame ssh volume name = search (q, run-frame q fr, moves_rules)

  delete_now-frame :
      (config : Config) (host name : String) (force : Bool) (row : ShareRow)
      → Moves R (delete_now config host name force row)
  unfolding delete_now
  delete_now-frame config host name force row =
      Moves-bind _ _ q (call_dsm-frame q fr config host _ (every _)) (λ body. Moves-pure _ q)

  after_size-frame :
      (config : Config) (host name : String) (row : ShareRow) (o : Option ℤ)
      → Moves R (after_size config host name row o)
  unfolding after_size
  after_size-frame config host name row none = delete_now-frame config host name false row
  after_size-frame config host name row (some size) =
      Moves-if (ltb_ℤ (pos 0) size) _ _ (Moves-pure _ q)
        (delete_now-frame config host name false row)

  delete_found-frame :
      (config : Config) (host name : String) (force : Bool) (o : Option ShareRow)
      → Moves R (delete_found config host name force o)
  unfolding delete_found
  delete_found-frame config host name force none = Moves-pure _ q
  delete_found-frame config host name force (some row) =
      Moves-if force _ _ (delete_now-frame config host name true row) (
        Moves-bind _ _ q (get_ssh_client-frame q fr config host) (λ ssh.
          Moves-bind _ _ q (share_directory_size_bytes-frame ssh row.volume name)
            (λ size. after_size-frame config host name row size)))

  pub shares_delete-frame :
      (config : Config) (host name : String) (force : Bool)
      → Moves R (shares_delete config host name force)
  unfolding shares_delete
  shares_delete-frame config host name force = Moves-if (name == "") _ _ (Moves-throw _ q) (
      Moves-bind _ _ q (list_shares-frame q fr (λ r _. every r) config host)
        (λ found. delete_found-frame config host name force _))
