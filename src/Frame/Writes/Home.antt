-- ===== src/Frame/Writes/Home.antt =====
-- src/synology_mcp/user_home.py: `user_home_enable` and `user_home_disable`, within a frame.
use synology_mcp.Base.{◌==◌, ◌==ℤ◌, ℤ, pos, String, Bool, false, List, [], ◌∷◌, Option, none, some}
use synology_mcp.Platform.{Platform}
use synology_mcp.Config.{Config}
use synology_mcp.Session.{SshClient}
use synology_mcp.Exec.{State}
use synology_mcp.Exec.Moves.{
  Moves, IsPreorder, Moves-bind, Moves-pure, Moves-lift, Moves-if, Moves-try, Moves-try_ssh,
  moves_rules,
}
use synology_mcp.Transport.Envelope.{Call}
use synology_mcp.Frame.{IsFrame}
use synology_mcp.Frame.Clients.{run-frame, call_dsm-frame, get_ssh_client-frame}
use synology_mcp.Json.{Value, truthy}
use synology_mcp.Exec.{Exec}
use synology_mcp.Helpers.{Envelope}
use synology_mcp.Frame.Shares.{user_home_is_enabled-frame}
use synology_mcp.UserHome.{home_enabled}
use synology_mcp.UserHome.Enable.{
  Step, readlink_raw, pick_volume_for_homes, restore_symlink, run_step, prepare_folder, roll_back,
  web_api_step, symlink_step, all_steps, user_home_enable, exit_text,
}
use synology_mcp.UserHome.Disable.{
  Probe, users, sudo_unavailable, list_users_with_authorized_keys, switch_off, after_probe,
  user_home_disable,
}

module _ ⦃P : Platform⦄ {R : State → State → Type 0} {Allowed : Call → Type 0} (q : IsPreorder R)
    (fr : IsFrame R Allowed) (every : (request : Call) → Allowed request) where
  readlink_raw-frame : (ssh : SshClient) → Moves R (readlink_raw ssh)
  unfolding readlink_raw
  readlink_raw-frame ssh = search (q, run-frame q fr, moves_rules)

  pick_volume_for_homes-frame :
      (ssh : SshClient) (v : Value) → Moves R (pick_volume_for_homes ssh v)
  unfolding pick_volume_for_homes
  pick_volume_for_homes-frame ssh v = Moves-if (truthy v) _ _ (Moves-pure _ q) (
      Moves-try_ssh _ _ _ q (run-frame q fr ssh _ false) (λ res. Moves-pure _ q)
        (λ e. Moves-pure _ q))

  restore_symlink-frame :
      (ssh : SshClient) (previous : Option String) (warnings : List String)
      → Moves R (restore_symlink ssh previous warnings)
  unfolding restore_symlink
  restore_symlink-frame ssh none warnings = Moves-pure _ q
  restore_symlink-frame ssh (some previous) warnings =
      Moves-if (previous == "") _ _ (Moves-pure _ q) (
        Moves-try_ssh _ _ _ q (run-frame q fr ssh _ false) (λ res. Moves-pure _ q)
          (λ e. Moves-pure _ q))

  run_step-frame :
      (ssh : SshClient) (command : String) (next : Exec Envelope) (fail : String → Exec Envelope)
      → Moves R next
      → ((why : String) → Moves R (fail why))
      → Moves R (run_step ssh command next fail)
  unfolding run_step
  run_step-frame ssh command next fail h k =
      Moves-try_ssh _ _ _ q (run-frame q fr ssh command false)
        (λ res. Moves-if (res.exit_status ==ℤ pos 0) _ _ h (k (exit_text res))) (λ e. k _)

  prepare_folder-frame :
      (ssh : SshClient) (host : String) (user : Option String) (volume : Value) (steps : List Step)
      (skipped : List ℤ) (warnings : List String)
      → Moves R (prepare_folder ssh host user volume steps skipped warnings)
  unfolding prepare_folder
  prepare_folder-frame ssh host none volume steps skipped warnings = Moves-pure _ q
  prepare_folder-frame ssh host (some name) volume steps skipped warnings =
      Moves-if (name == "") _ _ (Moves-pure _ q)
        (run_step-frame ssh _ _ _ (Moves-pure _ q) (λ why. Moves-pure _ q))

  roll_back-frame :
      (ssh : SshClient) (host : String) (previous : Option String) (steps : List Step)
      (warnings : List String) (message : String)
      → Moves R (roll_back ssh host previous steps warnings message)
  unfolding roll_back
  roll_back-frame ssh host previous steps warnings message =
      Moves-bind _ _ q (restore_symlink-frame ssh previous warnings) (λ w. Moves-pure _ q)

  module _ (config : Config) (ssh : SshClient) (host : String) (user previous : Option String)
      (volume : Value) (warnings : List String) where
    web_api_step-frame : Moves R (web_api_step config ssh host user previous volume warnings)
    unfolding web_api_step
    web_api_step-frame =
        Moves-try _ _ _ q (call_dsm-frame q fr config host _ (every _))
          (λ body. prepare_folder-frame ssh host user volume _ _ _)
          (λ e. roll_back-frame ssh host previous _ _ _)

    symlink_step-frame : Moves R (symlink_step config ssh host user previous volume warnings)
    unfolding symlink_step
    symlink_step-frame =
        run_step-frame ssh _ _ _ web_api_step-frame (λ why. roll_back-frame ssh host previous _ _ _)

    all_steps-frame : Moves R (all_steps config ssh host user previous volume warnings)
    unfolding all_steps
    all_steps-frame = run_step-frame ssh _ _ _ symlink_step-frame (λ why. Moves-pure _ q)

  pub user_home_enable-frame :
      (config : Config) (host : String) (user : Option String)
      → Moves R (user_home_enable config host user)
  unfolding user_home_enable
  user_home_enable-frame config host user =
      Moves-bind _ _ q (get_ssh_client-frame q fr config host) (λ ssh.
        Moves-bind _ _ q (Moves-lift _ q) (λ c.
          Moves-bind _ _ q (user_home_is_enabled-frame q fr (λ r _. every r) config host) (λ pre.
            Moves-bind _ _ q (readlink_raw-frame ssh) (λ previous.
              Moves-bind _ _ q (pick_volume_for_homes-frame ssh _) (λ volume.
                Moves-if (home_enabled pre) _ _ (prepare_folder-frame ssh host user volume _ _ _)
                  (all_steps-frame config ssh host user previous volume pre.warnings))))))

  switch_off-frame :
      (config : Config) (host : String) (affected skipped : List String)
      → Moves R (switch_off config host affected skipped)
  unfolding switch_off
  switch_off-frame config host affected skipped =
      Moves-bind _ _ q (call_dsm-frame q fr config host _ (every _)) (λ body. Moves-pure _ q)

  after_probe-frame :
      (config : Config) (host : String) (confirm : Bool) (probe : Probe)
      → Moves R (after_probe config host confirm probe)
  unfolding after_probe
  after_probe-frame config host confirm (sudo_unavailable stderr) =
      Moves-if confirm _ _ (switch_off-frame config host [] _) (Moves-pure _ q)
  after_probe-frame config host confirm (users []) = switch_off-frame config host [] []
  after_probe-frame config host confirm (users (u ∷ us)) =
      Moves-if confirm _ _ (switch_off-frame config host (u ∷ us) []) (Moves-pure _ q)

  pub user_home_disable-frame :
      (config : Config) (host : String) (confirm : Bool)
      → Moves R (user_home_disable config host confirm)
  unfolding user_home_disable list_users_with_authorized_keys
  user_home_disable-frame config host confirm =
      Moves-bind _ _ q (get_ssh_client-frame q fr config host) (λ ssh.
        Moves-bind _ _ q (user_home_is_enabled-frame q fr (λ r _. every r) config host) (λ pre.
          Moves-if (home_enabled pre) _ _
            (Moves-bind _ _ q
              (Moves-bind _ _ q (run-frame q fr ssh _ false) (λ res. Moves-pure _ q))
              (λ probe. after_probe-frame config host confirm probe))
            (Moves-pure _ q)))
