-- ===== src/Frame/Writes/Ssh.antt =====
-- src/synology_mcp/ssh.py, within a frame.
use synology_mcp.Base.{
  ◌==ℤ◌, ℕ, suc, zero, ℤ, pos, String, Bool, false, any, List, refl, Option, none, some,
}
use synology_mcp.Platform.{Platform}
use synology_mcp.Config.{Config}
use synology_mcp.Session.{SshClient}
use synology_mcp.Exec.{State}
use synology_mcp.Exec.Moves.{
  Moves, IsPreorder, Moves-bind, Moves-pure, Moves-lift, Moves-if, Moves-throw, Moves-try_ssh,
}
use synology_mcp.Transport.Envelope.{Call}
use synology_mcp.Frame.{IsFrame}
use synology_mcp.Frame.Clients.{run-frame, call_dsm-frame, get_ssh_client-frame}
use synology_mcp.Config.{HostConfig}
use synology_mcp.Json.{Value, truthy, Fields}
use synology_mcp.Helpers.{Envelope}
use synology_mcp.Frame.{is_local}
use synology_mcp.Frame.Clients.{asked, ensure_session-frame}
use synology_mcp.Frame.Shares.{user_home_is_enabled-frame}
use synology_mcp.UserHome.{home_enabled}
use synology_mcp.Ssh.Pubkey.{Pubkey, fingerprint_sha256}
use synology_mcp.Ssh.KeysFile.{ensure_ssh_dir, read_authorized_keys, write_authorized_keys}
use synology_mcp.Ssh.Keys.{
  gate, check_calling_user, append_key, add_checked, after_home, add_gated, ssh_add_authorized_key,
  write_kept, remove_checked, remove_gated, ssh_remove_authorized_key, has_fingerprint,
}
use synology_mcp.Ssh.Enable.{grant, enable_gated, ssh_enable_user_ssh}
use synology_mcp.Ssh.Port.{
  detect_port_in_use, verify_ssh_on_port, change_port, set_port_from, ssh_set_port, same_port,
}

module _ ⦃P : Platform⦄ {R : State → State → Type 0} {Allowed : Call → Type 0} (q : IsPreorder R)
    (fr : IsFrame R Allowed) (every : (request : Call) → Allowed request) where
  check_calling_user-frame :
      (config : Config) (host target : String) → Moves R (check_calling_user config host target)
  unfolding check_calling_user gate
  check_calling_user-frame config host target = Moves-bind _ _ q (Moves-lift _ q) (λ c.
      Moves-if (truthy c.password) _ _
        (Moves-bind _ _ q (ensure_session-frame q fr c) (λ session. Moves-pure _ q))
        (Moves-pure _ q))

  ensure_ssh_dir-frame : (ssh : SshClient) (user : String) → Moves R (ensure_ssh_dir ssh user)
  unfolding ensure_ssh_dir
  ensure_ssh_dir-frame ssh user =
      Moves-bind _ _ q (run-frame q fr ssh _ false)
        (λ res. Moves-if (res.exit_status ==ℤ pos 0) _ _ (Moves-pure _ q) (Moves-throw _ q))

  read_authorized_keys-frame :
      (ssh : SshClient) (user : String) → Moves R (read_authorized_keys ssh user)
  unfolding read_authorized_keys
  read_authorized_keys-frame ssh user =
      Moves-bind _ _ q (run-frame q fr ssh _ false)
        (λ res. Moves-if (res.exit_status ==ℤ pos 0) _ _ (Moves-pure _ q) (Moves-throw _ q))

  write_authorized_keys-frame :
      (ssh : SshClient) (user contents : String) → Moves R (write_authorized_keys ssh user contents)
  unfolding write_authorized_keys
  write_authorized_keys-frame ssh user contents =
      Moves-bind _ _ q (run-frame q fr ssh _ false) (λ res.
        Moves-if (res.exit_status ==ℤ pos 0) _ _ (Moves-pure _ q) (
          Moves-bind _ _ q
            (Moves-try_ssh _ _ _ q (run-frame q fr ssh _ false) (λ _. Moves-pure _ q)
              (λ _. Moves-pure _ q))
            (λ _. Moves-throw _ q)))

  append_key-frame :
      (ssh : SshClient) (host user : String) (key : Pubkey) (line : String) (entries : List String)
      → Moves R (append_key ssh host user key line entries)
  unfolding append_key
  append_key-frame ssh host user key line entries =
      Moves-if (any (has_fingerprint (fingerprint_sha256 key.key_bytes)) entries) _ _
        (Moves-pure _ q)
        (Moves-bind _ _ q (write_authorized_keys-frame ssh user _) (λ _. Moves-pure _ q))

  add_checked-frame :
      (config : Config) (host user : String) (key : Pubkey) (comment : String)
      → Moves R (add_checked config host user key comment)
  unfolding add_checked
  add_checked-frame config host user key comment = Moves-bind _ _ q (Moves-lift _ q) (λ chosen.
      Moves-bind _ _ q (get_ssh_client-frame q fr config host) (λ ssh.
        Moves-bind _ _ q (ensure_ssh_dir-frame ssh user) (λ _.
          Moves-bind _ _ q (read_authorized_keys-frame ssh user)
            (λ blob. append_key-frame ssh host user key _ _))))

  add_gated-frame :
      (config : Config) (host user : String) (key : Pubkey) (comment : String) (o : Option Envelope)
      → Moves R (add_gated config host user key comment o)
  unfolding add_gated after_home
  add_gated-frame config host user key comment (some refusal) = Moves-pure _ q
  add_gated-frame config host user key comment none =
      Moves-bind _ _ q (user_home_is_enabled-frame q fr (λ r _. every r) config host) (λ home.
        Moves-if (home_enabled home) _ _ (add_checked-frame config host user key comment)
          (Moves-pure _ q))

  pub ssh_add_authorized_key-frame :
      (config : Config) (host user pubkey comment : String)
      → Moves R (ssh_add_authorized_key config host user pubkey comment)
  unfolding ssh_add_authorized_key
  ssh_add_authorized_key-frame config host user pubkey comment =
      Moves-bind _ _ q (Moves-lift _ q) (λ _. Moves-bind _ _ q (Moves-lift _ q) (λ key.
        Moves-bind _ _ q (check_calling_user-frame config host user)
          (λ o. add_gated-frame config host user key comment o)))

  write_kept-frame :
      (ssh : SshClient) (host user fp : String) (kept : List String) (n : ℕ)
      → Moves R (write_kept ssh host user fp (kept, n))
  write_kept-frame ssh host user fp kept zero = Moves-pure _ q
  write_kept-frame ssh host user fp kept (suc n) =
      Moves-bind _ _ q (write_authorized_keys-frame ssh user _) (λ _. Moves-pure _ q)

  remove_gated-frame :
      (config : Config) (host user fp : String) (o : Option Envelope)
      → Moves R (remove_gated config host user fp o)
  unfolding remove_gated remove_checked
  remove_gated-frame config host user fp (some refusal) = Moves-pure _ q
  remove_gated-frame config host user fp none =
      Moves-bind _ _ q (get_ssh_client-frame q fr config host) (λ ssh.
        Moves-bind _ _ q (read_authorized_keys-frame ssh user)
          (λ blob. write_kept-frame ssh host user fp _ _))

  pub ssh_remove_authorized_key-frame :
      (config : Config) (host user fingerprint : String)
      → Moves R (ssh_remove_authorized_key config host user fingerprint)
  unfolding ssh_remove_authorized_key
  ssh_remove_authorized_key-frame config host user fingerprint =
      Moves-bind _ _ q (Moves-lift _ q) (λ _. Moves-bind _ _ q (Moves-lift _ q) (λ fp.
        Moves-bind _ _ q (check_calling_user-frame config host user)
          (λ o. remove_gated-frame config host user fp o)))

  grant-frame :
      (config : Config) (host user : String) (is_admin : Bool) (warnings : List String)
      → Moves R (grant config host user is_admin warnings)
  unfolding grant
  grant-frame config host user is_admin warnings =
      Moves-if is_admin _ _ (Moves-pure _ q)
        (Moves-bind _ _ q (call_dsm-frame q fr config host _ (every _)) (λ body. Moves-pure _ q))

  enable_gated-frame :
      (config : Config) (host user : String) (o : Option Envelope)
      → Moves R (enable_gated config host user o)
  unfolding enable_gated
  enable_gated-frame config host user (some refusal) = Moves-pure _ q
  enable_gated-frame config host user none =
      Moves-bind _ _ q (call_dsm-frame q fr config host _ (every _)) (λ body.
        Moves-bind _ _ q (Moves-lift _ q) (λ is_admin. grant-frame config host user is_admin _))

  pub ssh_enable_user_ssh-frame :
      (config : Config) (host user : String) → Moves R (ssh_enable_user_ssh config host user)
  unfolding ssh_enable_user_ssh
  ssh_enable_user_ssh-frame config host user = Moves-bind _ _ q (Moves-lift _ q) (λ _.
      Moves-bind _ _ q (check_calling_user-frame config host user)
        (λ o. enable_gated-frame config host user o))

  detect_port_in_use-frame : (ssh : SshClient) (port : ℤ) → Moves R (detect_port_in_use ssh port)
  unfolding detect_port_in_use
  detect_port_in_use-frame ssh port =
      Moves-try_ssh _ _ _ q (run-frame q fr ssh _ false) (λ res. Moves-pure _ q)
        (λ _.
          Moves-try_ssh _ _ _ q (run-frame q fr ssh _ false) (λ res. Moves-pure _ q)
            (λ _. Moves-pure _ q))

  verify_ssh_on_port-frame : (c : HostConfig) (port : ℤ) → Moves R (verify_ssh_on_port c port)
  unfolding verify_ssh_on_port is_local
  verify_ssh_on_port-frame c port = asked q fr _ _ (λ _. refl)

  change_port-frame :
      (config : Config) (host : String) (current : Fields) (old : Option ℤ) (port : ℤ)
      (warnings : List String)
      → Moves R (change_port config host current old port warnings)
  unfolding change_port
  change_port-frame config host current old port warnings =
      Moves-bind _ _ q (call_dsm-frame q fr config host _ (every _)) (λ body.
        Moves-bind _ _ q (Moves-lift _ q)
          (λ c. Moves-bind _ _ q (verify_ssh_on_port-frame c port) (λ why. Moves-pure _ q)))

  set_port_from-frame :
      (config : Config) (host : String) (current : Fields) (old : Option ℤ) (port : ℤ)
      (warnings : List String)
      → Moves R (set_port_from config host current old port warnings)
  unfolding set_port_from
  set_port_from-frame config host current old port warnings =
      Moves-if (same_port old port) _ _ (Moves-pure _ q) (
        Moves-bind _ _ q (get_ssh_client-frame q fr config host) (λ ssh.
          Moves-bind _ _ q (detect_port_in_use-frame ssh port) (λ in_use.
            Moves-if in_use _ _ (Moves-pure _ q)
              (change_port-frame config host current old port warnings))))

  pub ssh_set_port-frame :
      (config : Config) (host : String) (requested : Value) (allow_default : Bool)
      → Moves R (ssh_set_port config host requested allow_default)
  unfolding ssh_set_port
  ssh_set_port-frame config host requested allow_default =
      Moves-bind _ _ q (Moves-lift _ q) (λ port.
        Moves-bind _ _ q (call_dsm-frame q fr config host _ (every _)) (λ body.
          Moves-bind _ _ q (Moves-lift _ q) (λ current.
            Moves-bind _ _ q (Moves-lift _ q)
              (λ old. set_port_from-frame config host current old port _))))
