-- ===== src/UserHome/Enable/RolledBack.antt =====
-- src/synology_mcp/user_home.py: the rollback of `user_home_enable`.
use synology_mcp.Base.{
  pos, ◌==ℤ◌, String, ◌<>◌, ◌==◌, true, false, Option, some, List, [], ◌∷◌, ◌++◌, ◌≡◌, ap, refl,
  ◌∙◌,
}
use synology_mcp.Json.{Value}
use synology_mcp.Errors.{Exc, Result, ok, err}
use synology_mcp.Builtins.{exc_text, to_text}
use synology_mcp.Platform.{Platform, SshResult}
use synology_mcp.Config.{Config}
use synology_mcp.Session.{SshClient}
use synology_mcp.Exec.{Exec, State, pure, is_ssh_error}
use synology_mcp.Exec.Runs.{bind-ok, try-err, try_ssh-ok, try_ssh-err}
use synology_mcp.Transport.Ssh.{run}
use synology_mcp.Helpers.{Envelope}
use synology_mcp.Auth.{call_dsm}
use synology_mcp.UserHome.Enable.{
  Step, done, failed, failure_envelope, restore_symlink, roll_back, run_step, link_command,
  home_set, exit_text, web_api_step, symlink_step, all_steps,
}

module _ ⦃P : Platform⦄ (config : Config) (ssh : SshClient) (host : String) where
  -- a command of a step that fails, and the reason
  abbrev pub IsStepFailure : Result SshResult → String → Type 0
  IsStepFailure (ok res) why = ((res.exit_status ==ℤ pos 0) ≡ false) × (exit_text res ≡ why)
  IsStepFailure (err e) why = (is_ssh_error e ≡ true) × (exc_text e ≡ why)

  run_step-failed :
      (command : String) (next : Exec Envelope) (fail : String → Exec Envelope) (s t : State)
      (r : Result SshResult) (why : String)
      → run ssh command false s ≡ (r, t)
      → IsStepFailure r why
      → run_step ssh command next fail s ≡ fail why t
  unfolding run_step
  run_step-failed command next fail s t (ok res) why h (bad, e) =
      try_ssh-ok _ s t _ _ res h ∙ rw bad (ap (λ w. fail w t) e)
  run_step-failed command next fail s t (err x) why h (k, e) =
      try_ssh-err _ s t _ _ x k h ∙ ap (λ w. fail w t) e

  -- the old target is linked again
  roll_back-relinked :
      (previous message : String) (steps : List Step) (warnings : List String) (s t : State)
      (res : SshResult)
      → (previous == "") ≡ false
      → run ssh (link_command previous) false s ≡ (ok res, t)
      → (res.exit_status ==ℤ pos 0) ≡ true
      → roll_back ssh host (some previous) steps warnings message s ≡ (
        ok (
            failure_envelope host steps
              (warnings ++ (("rollback ok: /var/services/homes -> " <> previous) ∷ []))
              message),
        t,
      )
  unfolding roll_back restore_symlink pure
  roll_back-relinked previous message steps warnings s t res there linked zero_exit =
      bind-ok (restore_symlink ssh (some previous) warnings) s t _ _ (
        rw there (
          try_ssh-ok (run ssh (link_command previous) false) s t _ _ res linked
          ∙ rw zero_exit refl))

  module _ (user : Option String) (previous : String) (volume : Value) (warnings : List String)
      (s s1 : State) (res1 : SshResult) (there : (previous == "") ≡ false)
      (set_key : run ssh
          ("sudo -n "
            <> (P.shell_quote "/usr/syno/bin/synosetkeyvalue"
                <> " /etc/synoinfo.conf userHomeEnable yes"))
          false
          s
        ≡ (ok res1, s1))
      (key_was_set : (res1.exit_status ==ℤ pos 0) ≡ true) where
    -- After step 1 has succeeded and with an old target that is not empty, if the command for the
    -- new symlink exits with another status than 0 or raises an SSH error, the old target is linked
    -- again by the next command; if that exits with 0, the answer is a failure that lists step 1 as
    -- done and step 2 as failed, with the reason.
    pub all_steps-symlink_failed :
        (s2 s3 : State) (r : Result SshResult) (why : String) (res3 : SshResult)
        → run ssh (link_command (to_text volume <> "/homes")) false s1 ≡ (r, s2)
        → IsStepFailure r why
        → run ssh (link_command previous) false s2 ≡ (ok res3, s3)
        → (res3.exit_status ==ℤ pos 0) ≡ true
        → all_steps config ssh host user (some previous) volume warnings s ≡ (
          ok (
              failure_envelope host
                (done (pos 1) "synoinfo" ∷ failed (pos 2) "symlink" why ∷ [])
                (warnings ++ (("rollback ok: /var/services/homes -> " <> previous) ∷ []))
                "step 2 (symlink) failed; symlink restored"),
          s3,
        )
    unfolding all_steps symlink_step run_step
    all_steps-symlink_failed s2 s3 r why res3 linked bad relinked zero_exit =
        try_ssh-ok _ s s1 _ _ res1 set_key
        ∙ rw key_was_set (
            run_step-failed _ _
              (λ w.
                roll_back ssh host (some previous)
                  (done (pos 1) "synoinfo" ∷ failed (pos 2) "symlink" w ∷ []) warnings
                  "step 2 (symlink) failed; symlink restored")
              s1 s2 r why linked bad
            ∙ roll_back-relinked previous _ _ warnings s2 s3 res3 there relinked zero_exit)

    -- If the web API refuses after the new symlink was made, the old target is linked again by the next
    -- command, and the answer is a failure that lists steps 1 and 2 as done and step 3 as failed.
    pub all_steps-web_api_failed :
        (s2 s3 s4 : State) (res2 res4 : SshResult) (e : Exc)
        → run ssh (link_command (to_text volume <> "/homes")) false s1 ≡ (ok res2, s2)
        → (res2.exit_status ==ℤ pos 0) ≡ true
        → call_dsm config host (home_set volume) s2 ≡ (err e, s3)
        → run ssh (link_command previous) false s3 ≡ (ok res4, s4)
        → (res4.exit_status ==ℤ pos 0) ≡ true
        → all_steps config ssh host user (some previous) volume warnings s ≡ (
          ok (
              failure_envelope host
                (done (pos 1) "synoinfo"
                  ∷ done (pos 2) "symlink"
                  ∷ failed (pos 3) "web_api" (exc_text e)
                  ∷ [])
                (warnings ++ (("rollback ok: /var/services/homes -> " <> previous) ∷ []))
                "step 3 (web API set) failed; symlink restored"),
          s4,
        )
    unfolding all_steps symlink_step run_step web_api_step
    all_steps-web_api_failed s2 s3 s4 res2 res4 e linked good refused relinked zero_exit =
        try_ssh-ok _ s s1 _ _ res1 set_key
        ∙ rw key_was_set (
            try_ssh-ok _ s1 s2 _ _ res2 linked
            ∙ rw good (
                try-err _ s2 s3 _ _ e refused
                ∙ roll_back-relinked previous _ _ warnings s3 s4 res4 there relinked zero_exit))
