-- ===== src/Packages/Uninstall.antt =====
-- src/synology_mcp/packages.py: `packages_uninstall`.
pub mod Guarded
use synology_mcp.Base.{
  pos, String, ◌<>◌, ◌==◌, Bool, true, false, Option, none, some, List, [], ◌∷◌, ◌++◌,
  if◌then◌else◌,
}
use synology_mcp.Base.Dict.{lookup}
use synology_mcp.Json.{bool, text, Fields, get, truthy, object}
use synology_mcp.Builtins.{as_dict, or_empty, to_text}
use synology_mcp.Platform.{Platform}
use synology_mcp.Config.{Config}
use synology_mcp.Exec.{Exec, pure, throw, lift, ◌>>=◌}
use synology_mcp.Transport.Envelope.{Call, extract_warnings}
use synology_mcp.Helpers.{Envelope, success_envelope, refusal_envelope}
use synology_mcp.Auth.{call_dsm}
use synology_mcp.Packages.{
  empty_id, uninstall_denylist, task_of, get_installed_package, poll_install_task, version_of,
}

abbrev pub uninstall_call : String → Call
uninstall_call id = record {
  api = "SYNO.Core.Package.Uninstallation";
  method = "uninstall";
  version = pos 1;
  params = ("id", text id) ∷ [];
}

unfoldable pub denylist_refusal : String → String → String → Envelope
denylist_refusal host id reason =
    refusal_envelope host
      (("category", text "denylist")
        ∷ ("package_id", text id)
        ∷ ("denylist_reason", text reason)
        ∷ ("next_step", text "pass force=True to override")
        ∷ [])
      []

unfoldable pub absent_envelope : String → String → Envelope
absent_envelope host id =
    success_envelope host (object (("uninstalled", bool false) ∷ ("package_id", text id) ∷ []))
      ("package not installed" ∷ [])

abbrev override_warning : String → Option String → List String
override_warning id none = []
override_warning id (some reason) =
    ("force=True override: removing " <> (id <> (" despite denylist (" <> (reason <> ")")))) ∷ []

module _ ⦃P : Platform⦄ where
  uninstalled_envelope : String → String → Fields → List String → Envelope
  uninstalled_envelope host id existing warnings =
      success_envelope host
        (object (
          ("uninstalled", bool true)
          ∷ ("package_id", text id)
          ∷ ("previous_version", text (version_of existing))
          ∷ []))
        warnings

  -- the call, the polling and the answer
  unfoldable pub uninstall_now : Config → String → String → Fields → List String → Exec Envelope
  unfolding uninstalled_envelope
  uninstall_now config host id existing warnings = do
    body ← call_dsm config host (uninstall_call id)
    d ← lift (as_dict (or_empty (get body "data")))
    if truthy (task_of d)
        then (do
          last ← poll_install_task config host (to_text (task_of d))
          pure (
              uninstalled_envelope host id existing
                (warnings ++ (extract_warnings body ++ extract_warnings last))))
        else pure (uninstalled_envelope host id existing (warnings ++ extract_warnings body))

  abbrev pub uninstall_found :
      Config → String → String → Option String → Option Fields → Exec Envelope
  uninstall_found config host id reason none = pure (absent_envelope host id)
  uninstall_found config host id reason (some existing) =
      uninstall_now config host id existing (override_warning id reason)

  -- what follows the look at the denylist
  unfoldable pub uninstall_allowed : Config → String → String → Option String → Exec Envelope
  uninstall_allowed config host id reason = do
    existing ← get_installed_package config host id
    uninstall_found config host id reason existing

  unfoldable pub uninstall_checked : Config → String → String → Bool → Option String → Exec Envelope
  uninstall_checked config host id force none = uninstall_allowed config host id none
  uninstall_checked config host id force (some reason) =
      if force
      then uninstall_allowed config host id (some reason)
      else pure (denylist_refusal host id reason)

  -- `packages_uninstall`
  unfoldable pub packages_uninstall : Config → String → String → Bool → Exec Envelope
  unfolding uninstall_checked
  packages_uninstall config host id force =
      if id == ""
      then throw (empty_id host)
      else uninstall_checked config host id force (lookup id uninstall_denylist)
