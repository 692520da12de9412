-- ===== src/Frame/Writes/Packages.antt =====
-- src/synology_mcp/packages.py: `packages_install` and `packages_uninstall`, within a frame.
use synology_mcp.Base.{◌==◌, ℕ, suc, zero, String, Bool, List, Option, none, some}
use synology_mcp.Base.Dict.{lookup}
use synology_mcp.Platform.{Platform}
use synology_mcp.Config.{Config}
use synology_mcp.Exec.{State}
use synology_mcp.Exec.Moves.{
  Moves, IsPreorder, Moves-bind, Moves-pure, Moves-lift, Moves-if, Moves-throw, Moves-try,
  Moves-elim,
}
use synology_mcp.Transport.Envelope.{Call}
use synology_mcp.Frame.{IsFrame}
use synology_mcp.Frame.Clients.{call_dsm-frame}
use synology_mcp.Json.{Fields, truthy}
use synology_mcp.Errors.{Exc}
use synology_mcp.Packages.{
  get_installed_package, poll_rounds, poll_install_task, is_not_installed_error, task_of,
  uninstall_denylist, version_of, extract_dsm_error_code, extract_eula_text,
}
use synology_mcp.Packages.Install.{
  confirm_install, finish_install, after_install, online_failure, online_error, install_online,
  install_row, install_unless, packages_install, is_mismatch,
}
use synology_mcp.Packages.Uninstall.{
  uninstall_now, uninstall_found, uninstall_allowed, uninstall_checked, packages_uninstall,
}

module _ ⦃P : Platform⦄ {R : State → State → Type 0} {Allowed : Call → Type 0} (q : IsPreorder R)
    (fr : IsFrame R Allowed) (every : (request : Call) → Allowed request) where
  get_installed_package-frame :
      (config : Config) (host id : String) → Moves R (get_installed_package config host id)
  unfolding get_installed_package
  get_installed_package-frame config host id =
      Moves-try _ _ _ q (call_dsm-frame q fr config host _ (every _))
        (λ body. Moves-bind _ _ q (Moves-lift _ q) (λ d. Moves-pure _ q))
        (λ e. Moves-if (is_not_installed_error e) _ _ (Moves-pure _ q) (Moves-throw e q))

  poll_rounds-frame :
      (config : Config) (host task : String) (rounds : ℕ) (last : Fields)
      → Moves R (poll_rounds config host task rounds last)
  unfolding poll_rounds
  poll_rounds-frame config host task zero last = Moves-pure _ q
  poll_rounds-frame config host task (suc rounds) last =
      Moves-try _ _ _ q (call_dsm-frame q fr config host _ (every _))
        (λ body. Moves-bind _ _ q (Moves-lift _ q) (λ d. Moves-bind _ _ q (Moves-lift _ q) (λ over.
          Moves-if over _ _ (Moves-pure _ q) (poll_rounds-frame config host task rounds body))))
        (λ _. Moves-pure _ q)

  poll_install_task-frame :
      (config : Config) (host task : String) → Moves R (poll_install_task config host task)
  unfolding poll_install_task
  poll_install_task-frame config host task = poll_rounds-frame config host task 150 _

  confirm_install-frame :
      (config : Config) (host id : String) (warnings : List String)
      → Moves R (confirm_install config host id warnings)
  unfolding confirm_install
  confirm_install-frame config host id warnings =
      Moves-bind _ _ q (get_installed_package-frame config host id) (λ o. Moves-pure _ q)

  finish_install-frame :
      (config : Config) (host id : String) (warnings : List String) (body : Fields)
      → Moves R (finish_install config host id warnings body)
  unfolding finish_install
  finish_install-frame config host id warnings body = Moves-bind _ _ q (Moves-lift _ q) (λ d.
      Moves-if (truthy (task_of d)) _ _
        (Moves-bind _ _ q (poll_install_task-frame config host _)
          (λ last. confirm_install-frame config host id _))
        (confirm_install-frame config host id warnings))

  after_install-frame :
      (config : Config) (host id : String) (accept : Bool) (warnings : List String) (body : Fields)
      → Moves R (after_install config host id accept warnings body)
  unfolding after_install
  after_install-frame config host id accept warnings body =
      Moves-elim (extract_eula_text body) _ _ (finish_install-frame config host id _ body)
        (λ eula. Moves-if accept _ _ (finish_install-frame config host id _ body) (Moves-pure _ q))

  online_failure-frame :
      (host id : String) (warnings : List String) (e : Exc)
      → Moves R (online_failure host id warnings e)
  unfolding online_failure
  online_failure-frame host id warnings e =
      Moves-elim (online_error (extract_dsm_error_code e)) _ _ (Moves-throw e q)
        (λ code. Moves-pure _ q)

  install_row-frame :
      (config : Config) (host id : String) (version : Option String) (accept : Bool)
      (warnings : List String) (o : Option Fields)
      → Moves R (install_row config host id version accept warnings o)
  unfolding install_row install_online
  install_row-frame config host id version accept warnings none = Moves-pure _ q
  install_row-frame config host id version accept warnings (some row) =
      Moves-if (is_mismatch version (version_of row)) _ _ (Moves-pure _ q) (
        Moves-try _ _ _ q (call_dsm-frame q fr config host _ (every _))
          (λ body. after_install-frame config host id accept warnings body)
          (λ e. online_failure-frame host id warnings e))

  install_unless-frame :
      (config : Config) (host id : String) (version : Option String) (accept : Bool)
      (o : Option Fields)
      → Moves R (install_unless config host id version accept o)
  unfolding install_unless
  install_unless-frame config host id version accept (some d) = Moves-pure _ q
  install_unless-frame config host id version accept none =
      Moves-bind _ _ q (call_dsm-frame q fr config host _ (every _)) (λ body.
        Moves-bind _ _ q (Moves-lift _ q)
          (λ d. install_row-frame config host id version accept _ _))

  pub packages_install-frame :
      (config : Config) (host id : String) (version : Option String) (accept : Bool)
      → Moves R (packages_install config host id version accept)
  unfolding packages_install
  packages_install-frame config host id version accept = Moves-if (id == "") _ _ (Moves-throw _ q) (
      Moves-bind _ _ q (get_installed_package-frame config host id)
        (λ o. install_unless-frame config host id version accept o))

  uninstall_found-frame :
      (config : Config) (host id : String) (reason : Option String) (o : Option Fields)
      → Moves R (uninstall_found config host id reason o)
  unfolding uninstall_now
  uninstall_found-frame config host id reason none = Moves-pure _ q
  uninstall_found-frame config host id reason (some existing) =
      Moves-bind _ _ q (call_dsm-frame q fr config host _ (every _)) (λ body.
        Moves-bind _ _ q (Moves-lift _ q) (λ d.
          Moves-if (truthy (task_of d)) _ _
            (Moves-bind _ _ q (poll_install_task-frame config host _) (λ last. Moves-pure _ q))
            (Moves-pure _ q)))

  uninstall_allowed-frame :
      (config : Config) (host id : String) (reason : Option String)
      → Moves R (uninstall_allowed config host id reason)
  unfolding uninstall_allowed
  uninstall_allowed-frame config host id reason =
      Moves-bind _ _ q (get_installed_package-frame config host id)
        (λ o. uninstall_found-frame config host id reason o)

  uninstall_checked-frame :
      (config : Config) (host id : String) (force : Bool) (reason : Option String)
      → Moves R (uninstall_checked config host id force reason)
  unfolding uninstall_checked
  uninstall_checked-frame config host id force none = uninstall_allowed-frame config host id none
  uninstall_checked-frame config host id force (some reason) =
      Moves-if force _ _ (uninstall_allowed-frame config host id (some reason)) (Moves-pure _ q)

  pub packages_uninstall-frame :
      (config : Config) (host id : String) (force : Bool)
      → Moves R (packages_uninstall config host id force)
  unfolding packages_uninstall
  packages_uninstall-frame config host id force =
      Moves-if (id == "") _ _ (Moves-throw _ q)
        (uninstall_checked-frame config host id force (lookup id uninstall_denylist))
