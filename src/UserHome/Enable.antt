-- ===== src/UserHome/Enable.antt =====
-- src/synology_mcp/user_home.py: `user_home_enable`, its steps and its rollback.
pub mod RolledBack
use synology_mcp.Base.{
  ℤ, pos, ◌==ℤ◌, String, ◌<>◌, ◌==◌, Bool, true, false, Option, none, some, List, [], ◌∷◌, ◌++◌,
  if◌then◌else◌,
}
use synology_mcp.Base.Text
use synology_mcp.Json.{Value, bool, int, text, truthy, object, array, optional}
use synology_mcp.Builtins.{exc_text, show_int, to_text}
use synology_mcp.Platform.{Platform, SshResult}
use synology_mcp.Config.{Config}
use synology_mcp.Config.Env.{get_host}
use synology_mcp.Session.{SshClient}
use synology_mcp.Exec.{Exec, pure, lift, ◌>>=◌, try_with, try_ssh}
use synology_mcp.Transport.Envelope.{Call, extract_warnings}
use synology_mcp.Transport.Ssh.{run}
use synology_mcp.Helpers.{Envelope, success_envelope, refusal_envelope}
use synology_mcp.Auth.{call_dsm, get_ssh_client}
use synology_mcp.UserHome.{home_enabled, some_text, user_home_is_enabled}

-- one entry of `data.steps`
pub record Step : Type 0 where
  pub n : ℤ
  pub name : String
  pub is_ok : Bool
  pub skipped : Bool
  pub error : Option String

abbrev pub done : ℤ → String → Step
done n name = record { n = n; name = name; is_ok = true; skipped = false; error = none }

abbrev pub skip : ℤ → String → Step
skip n name = record { n = n; name = name; is_ok = true; skipped = true; error = none }

abbrev pub failed : ℤ → String → String → Step
failed n name why = record { n = n; name = name; is_ok = false; skipped = false; error = some why }

abbrev step_value : Step → Value
step_value s = object (
    ("n", int s.n)
    ∷ ("name", text s.name)
    ∷ ("ok", bool s.is_ok)
    ∷ ("skipped", bool s.skipped)
    ∷ ("error", optional s.error)
    ∷ [])

abbrev pub step_values : List Step → List Value
step_values [] = []
step_values (s ∷ r) = step_value s ∷ step_values r

abbrev int_values : List ℤ → List Value
int_values [] = []
int_values (n ∷ r) = int n ∷ int_values r

-- `_failure_envelope`
unfoldable pub failure_envelope : String → List Step → List String → String → Envelope
failure_envelope host steps warnings message =
    refusal_envelope host
      (("category", text "step_failed")
        ∷ ("error", text message)
        ∷ ("steps", array (step_values steps))
        ∷ [])
      warnings

-- the answer after step 4
unfoldable pub enable_envelope :
    String → Option String → Value → List Step → List ℤ → Bool → List String → Envelope
enable_envelope host user volume steps steps_skipped partial warnings =
    success_envelope host
      (object (
        ("user", optional user)
        ∷ ("volume", volume)
        ∷ ("steps", array (step_values steps))
        ∷ ("steps_skipped", array (int_values steps_skipped))
        ∷ ("partial", bool partial)
        ∷ []))
      warnings

module _ ⦃P : Platform⦄ where
  -- `_readlink_raw`
  unfoldable pub readlink_raw : SshClient → Exec (Option String)
  readlink_raw ssh =
      try_ssh
        (run ssh ("readlink " <> (P.shell_quote "/var/services/homes" <> " 2>/dev/null")) false)
        (λ res. pure (some_text (Text.strip res.stdout))) (λ _. pure none)

  abbrev before_homes : Option String → String
  before_homes none = "/volume1"
  before_homes (some volume) = volume

  found_volume : String → String
  found_volume found =
      if found == "" then "/volume1" else before_homes (Text.remove_suffix found "/homes")

  -- `_pick_volume_for_homes`
  unfoldable pub pick_volume_for_homes : SshClient → Value → Exec Value
  unfolding found_volume
  pick_volume_for_homes ssh override =
      if truthy override
      then pure override
      else try_ssh
          (run ssh "for d in /volume*/homes; do [ -d \"$d\" ] && echo \"$d\" && break; done" false)
          (λ res. pure (text (found_volume (Text.strip res.stdout)))) (λ _. pure (text "/volume1"))

  -- the shell command that points the symlink at a target
  unfoldable pub link_command : String → String
  link_command target =
      "sudo -n sh -c "
      <> P.shell_quote ("rm -f /var/services/homes && ln -s " <> (target <> " /var/services/homes"))

  unfoldable pub exit_text : SshResult → String
  exit_text res = "exit " <> (show_int res.exit_status <> (": " <> Text.strip res.stderr))

  -- `_restore_symlink`: the warnings with the outcome of the rollback
  unfoldable pub restore_symlink : SshClient → Option String → List String → Exec (List String)
  restore_symlink ssh none warnings =
      pure (warnings ++ ("rollback: no prior /var/services/homes symlink to restore" ∷ []))
  restore_symlink ssh (some previous) warnings =
      if previous == ""
      then pure (warnings ++ ("rollback: no prior /var/services/homes symlink to restore" ∷ []))
      else try_ssh (run ssh (link_command previous) false)
          (λ res. pure (
            warnings
            ++ ((if res.exit_status ==ℤ pos 0
                  then "rollback ok: /var/services/homes -> " <> previous
                  else "rollback failed: " <> exit_text res)
                ∷ [])))
          (λ e. pure (warnings ++ (("rollback failed: " <> exc_text e) ∷ [])))

  -- a command that succeeded goes on, and one that raised or exited with an error does not
  unfoldable pub run_step :
      SshClient → String → Exec Envelope → (String → Exec Envelope) → Exec Envelope
  run_step ssh command next fail =
      try_ssh (run ssh command false)
        (λ res. if res.exit_status ==ℤ pos 0 then next else fail (exit_text res))
        (λ e. fail (exc_text e))

  -- step 4
  unfoldable pub prepare_folder :
      SshClient → String → Option String → Value → List Step → List ℤ → List String → Exec Envelope
  prepare_folder ssh host user volume steps steps_skipped warnings = elim user [
    | none ↦ pure (
        enable_envelope host none volume (steps ++ (skip (pos 4) "prepare_folder" ∷ []))
          (steps_skipped ++ (pos 4 ∷ [])) false warnings)
    | some name ↦
        if name == ""
        then pure (
            enable_envelope host (some name) volume (steps ++ (skip (pos 4) "prepare_folder" ∷ []))
              (steps_skipped ++ (pos 4 ∷ [])) false warnings)
        else run_step ssh
            ("sudo -n "
              <> (P.shell_quote "/usr/syno/sbin/synouserhome"
                  <> (" --prepare-folder " <> P.shell_quote name)))
            (pure (
              enable_envelope host (some name) volume
                (steps ++ (done (pos 4) "prepare_folder" ∷ [])) steps_skipped false warnings))
            (λ why. pure (
              enable_envelope host (some name) volume
                (steps ++ (failed (pos 4) "prepare_folder" why ∷ [])) steps_skipped true
                (warnings
                  ++ (("step 4 (synouserhome --prepare-folder "
                        <> (P.repr_text name <> (") failed: " <> why)))
                      ∷ []))))
  ]

  abbrev pub home_set : Value → Call
  home_set volume = record {
    api = "SYNO.Core.User.Home";
    method = "set";
    version = pos 1;
    params = ("enable", text "true") ∷ ("location", volume) ∷ [];
  }

  -- a failed step 2 or 3
  unfoldable pub roll_back :
      SshClient → String → Option String → List Step → List String → String → Exec Envelope
  roll_back ssh host previous steps warnings message = do
    warnings' ← restore_symlink ssh previous warnings
    pure (failure_envelope host steps warnings' message)

  abbrev done_1 : List Step
  done_1 = done (pos 1) "synoinfo" ∷ []

  abbrev done_2 : List Step
  done_2 = done (pos 1) "synoinfo" ∷ done (pos 2) "symlink" ∷ []

  -- step 3 and what follows it
  unfoldable pub web_api_step :
      Config
      → SshClient
      → String
      → Option String
      → Option String
      → Value
      → List String
      → Exec Envelope
  web_api_step config ssh host user previous volume warnings =
      try_with (call_dsm config host (home_set volume))
        (λ body.
          prepare_folder ssh host user volume (done_2 ++ (done (pos 3) "web_api" ∷ [])) []
            (warnings ++ extract_warnings body))
        (λ e.
          roll_back ssh host previous (done_2 ++ (failed (pos 3) "web_api" (exc_text e) ∷ []))
            warnings "step 3 (web API set) failed; symlink restored")

  -- step 2 and what follows it
  unfoldable pub symlink_step :
      Config
      → SshClient
      → String
      → Option String
      → Option String
      → Value
      → List String
      → Exec Envelope
  symlink_step config ssh host user previous volume warnings =
      run_step ssh (link_command (to_text volume <> "/homes"))
        (web_api_step config ssh host user previous volume warnings)
        (λ why.
          roll_back ssh host previous (done_1 ++ (failed (pos 2) "symlink" why ∷ [])) warnings
            "step 2 (symlink) failed; symlink restored")

  -- steps 1 to 4
  unfoldable pub all_steps :
      Config
      → SshClient
      → String
      → Option String
      → Option String
      → Value
      → List String
      → Exec Envelope
  all_steps config ssh host user previous volume warnings =
      run_step ssh
        ("sudo -n "
          <> (P.shell_quote "/usr/syno/bin/synosetkeyvalue"
              <> " /etc/synoinfo.conf userHomeEnable yes"))
        (symlink_step config ssh host user previous volume warnings)
        (λ why. pure (
          failure_envelope host (failed (pos 1) "synoinfo" why ∷ []) warnings
            "step 1 (synoinfo write) failed"))

  -- `user_home_enable`
  unfoldable pub user_home_enable : Config → String → Option String → Exec Envelope
  user_home_enable config host user = do
    ssh ← get_ssh_client config host
    c ← lift (get_host config host)
    pre ← user_home_is_enabled config host
    previous ← readlink_raw ssh
    volume ← pick_volume_for_homes ssh c.user_home_volume
    if home_enabled pre
        then prepare_folder ssh host user volume
            (skip (pos 1) "synoinfo" ∷ skip (pos 2) "symlink" ∷ skip (pos 3) "web_api" ∷ [])
            (pos 1 ∷ pos 2 ∷ pos 3 ∷ []) (pre.warnings ++ ("already enabled" ∷ []))
        else all_steps config ssh host user previous volume pre.warnings
