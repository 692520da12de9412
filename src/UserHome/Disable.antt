-- ===== src/UserHome/Disable.antt =====
-- src/synology_mcp/user_home.py: `user_home_disable` and its two safety rails.
pub mod Guarded
use synology_mcp.Base.{
  pos, ◌==ℤ◌, String, ◌<>◌, ◌==◌, Bool, true, false, not, ◌&&◌, ◌||◌, List, [], ◌∷◌, ◌++◌, any,
  if◌then◌else◌,
}
use synology_mcp.Base.Text
use synology_mcp.Json.{bool, text, object, texts}
use synology_mcp.Platform.{Platform, SshResult}
use synology_mcp.Config.{Config}
use synology_mcp.Session.{SshClient}
use synology_mcp.Exec.{Exec, pure, ◌>>=◌}
use synology_mcp.Transport.Envelope.{Call, extract_warnings}
use synology_mcp.Transport.Ssh.{run}
use synology_mcp.Helpers.{Envelope, success_envelope, refusal_envelope}
use synology_mcp.Auth.{call_dsm, get_ssh_client}
use synology_mcp.UserHome.{home_enabled, user_home_is_enabled}

-- what `_list_users_with_authorized_keys` returns, or the `_SudoUnavailable` that it raises
pub data Probe : Type 0 where
  users : List String → Probe
  sudo_unavailable : String → Probe

-- `name not in seen`
unfoldable pub contains : String → List String → Bool
contains name [] = false
contains name (x ∷ xs) = x == name || contains name xs

-- the loop that removes duplicates; `seen` holds what it kept, the newest first
unfoldable pub dedupe : List String → List String → List String
unfolding contains
dedupe seen [] = []
dedupe seen (name ∷ names) =
    let known = dedupe seen names in
    let fresh = name ∷ dedupe (name ∷ seen) names in if contains name seen then known else fresh

-- the user of a path `/var/services/homes/<user>/…`
abbrev user_of_parts : List String → List String
user_of_parts (_ ∷ _ ∷ _ ∷ homes ∷ user ∷ _) = if homes == "homes" then user ∷ [] else []
user_of_parts _ = []

unfoldable pub users_of_lines : List String → List String
users_of_lines [] = []
users_of_lines (raw ∷ lines) =
    let line = Text.strip raw in
    (if line == "" then [] else user_of_parts (Text.split_on b'/' line)) ++ users_of_lines lines

abbrev pub sudo_failure_markers : List String
sudo_failure_markers =
    "password is required" ∷ "a terminal is required" ∷ "a password is required" ∷ "sudo:" ∷ []

abbrev pub home_unset : Call
home_unset = record {
  api = "SYNO.Core.User.Home";
  method = "set";
  version = pos 1;
  params = ("enable", text "false") ∷ [];
}

module _ ⦃P : Platform⦄ where
  unfoldable pub sudo_failed : SshResult → Bool
  sudo_failed res =
      not (res.exit_status ==ℤ pos 0)
      && any (λ marker. Text.has_text (P.lower res.stderr) marker) sudo_failure_markers

  unfoldable pub read_probe : SshResult → Probe
  unfolding sudo_failed
  read_probe res =
      if sudo_failed res
      then sudo_unavailable res.stderr
      else users (dedupe [] (users_of_lines (Text.splitlines res.stdout)))

  -- `_list_users_with_authorized_keys`
  unfoldable pub list_users_with_authorized_keys : SshClient → Exec Probe
  list_users_with_authorized_keys ssh = do
    res ← run ssh "sudo -n find /var/services/homes/*/.ssh/authorized_keys -size +0c -type f" false
    pure (read_probe res)

  unfoldable pub sudo_required : String → String → Envelope
  sudo_required host stderr =
      refusal_envelope host
        (("category", text "sudo_required")
          ∷ (
            "next_step",
            text
                "the would_orphan_keys safety check needs sudo to enumerate all users' authorized_keys; the calling account does not have NOPASSWD sudo configured. Either grant NOPASSWD sudo to the account for this specific check, or call user_home_disable with confirm_destroy_keys=True to bypass the safety rail (WARNING: orphans every user's SSH keys).",
          )
          ∷ ("sudo_stderr", text (Text.take 200 (Text.strip stderr)))
          ∷ [])
        []

  unfoldable pub would_orphan_keys : String → List String → Envelope
  would_orphan_keys host affected =
      refusal_envelope host
        (("category", text "would_orphan_keys")
          ∷ ("affected_users", texts affected)
          ∷ ("next_step", text "call again with confirm_destroy_keys=True")
          ∷ [])
        []

  abbrev orphan_warning : List String → List String
  orphan_warning [] = []
  orphan_warning (u ∷ us) =
      ("SSH key auth is now broken for the following users (authorized_keys files preserved but unreachable): "
        <> Text.join ", " (u ∷ us))
      ∷ []

  -- the web call and the answer; `skipped` is the warning that sudo was not available
  unfoldable pub switch_off : Config → String → List String → List String → Exec Envelope
  switch_off config host affected skipped = do
    body ← call_dsm config host home_unset
    pure (
        success_envelope host
          (object (("disabled", bool true) ∷ ("affected_users", texts affected) ∷ []))
          (extract_warnings body ++ (skipped ++ orphan_warning affected)))

  -- what follows the enumeration
  unfoldable pub after_probe : Config → String → Bool → Probe → Exec Envelope
  after_probe config host confirm (sudo_unavailable stderr) =
      if confirm
      then switch_off config host [] (
          "sudo -n unavailable: would_orphan_keys check skipped; every user's SSH keys are at risk of being orphaned"
          ∷ [])
      else pure (sudo_required host stderr)
  after_probe config host confirm (users []) = switch_off config host [] []
  after_probe config host confirm (users (u ∷ us)) =
      if confirm then switch_off config host (u ∷ us) [] else pure (would_orphan_keys host (u ∷ us))

  -- `user_home_disable`
  unfoldable pub user_home_disable : Config → String → Bool → Exec Envelope
  user_home_disable config host confirm = do
    ssh ← get_ssh_client config host
    pre ← user_home_is_enabled config host
    if home_enabled pre
        then (do probe ← list_users_with_authorized_keys ssh; after_probe config host confirm probe)
        else pure (
            success_envelope host
              (object (("disabled", bool false) ∷ ("user_home", pre.content) ∷ []))
              ("already disabled" ∷ pre.warnings))
