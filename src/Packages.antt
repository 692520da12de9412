-- ===== src/Packages.antt =====
-- src/synology_mcp/packages.py: the rows, and what the tools that write have in common.
pub mod Probes
pub mod Status
pub mod Install
pub mod Uninstall
use synology_mcp.Base.{
  ℤ, pos, ◌==ℤ◌, ℕ, zero, suc, String, ◌<>◌, ◌==◌, Bool, true, false, not, ◌&&◌, ◌||◌, Option, none,
  some, List, [], ◌∷◌, ◌++◌, if◌then◌else◌,
}
use synology_mcp.Base.Text
use synology_mcp.Base.Dict.{Dict, lookup}
use synology_mcp.Json.{
  Value, null, bool, int, text, list, dict, Items, nil, cons, Fields, fields, end, field, get,
  get_or, truthy, or_value, first_of,
}
use synology_mcp.Errors.{
  Exc, raised, Result, ok, err, type_error, DsmError, Kind, unsupported_dsm_version, invalid_param,
  plain,
}
use synology_mcp.Builtins.{as_dict, or_empty, to_text}
use synology_mcp.Platform.{Platform}
use synology_mcp.Config.{Config}
use synology_mcp.Exec.{Exec, pure, throw, lift, ◌>>=◌, try_with}
use synology_mcp.Transport.Envelope.{Call}
use synology_mcp.Auth.{call_dsm}

abbrev pub package_get : String → Call
package_get id = record {
  api = "SYNO.Core.Package";
  method = "get";
  version = pos 1;
  params = ("id", text id) ∷ [];
}

abbrev pub install_status : String → Call
install_status task = record {
  api = "SYNO.Core.Package.Installation";
  method = "status";
  version = pos 1;
  params = ("task_id", text task) ∷ [];
}

abbrev pub server_list : Call
server_list = record {
  api = "SYNO.Core.Package.Server";
  method = "list";
  version = pos 2;
  params = [];
}

unfoldable pub empty_id : String → Exc
empty_id host =
    plain invalid_param "package_id must be a non-empty string" (some host)
      (fields (("param", text "package_id") ∷ []))

-- `_UNINSTALL_DENYLIST`
abbrev pub uninstall_denylist : Dict String
uninstall_denylist =
    ("ContainerManager", "Plex, Immich, Calibre-Web depend on the docker daemon")
    ∷ ("Docker", "Plex, Immich, Calibre-Web depend on the docker daemon")
    ∷ ("SnapshotReplication", "sysop SR backups depend on this package")
    ∷ ("ReplicationService", "sysop SR backups depend on this package")
    ∷ ("HyperBackup", "off-box backup chain depends on this package")
    ∷ ("HyperBackupVault", "off-box backup chain depends on this package")
    ∷ ("StorageManager", "removing StorageManager leaves the Storage UI broken")
    ∷ ("WebStation", "hosts Caddy/HA admin UIs on some boxes")
    ∷ ("Apache22", "WebStation backend")
    ∷ ("Apache24", "WebStation backend")
    ∷ ("MariaDB10", "WebStation database backend")
    ∷ ("MariaDB11", "WebStation database backend")
    ∷ ("PHP7.4", "WebStation runtime")
    ∷ ("PHP8.0", "WebStation runtime")
    ∷ ("PHP8.1", "WebStation runtime")
    ∷ ("PHP8.2", "WebStation runtime")
    ∷ ("SecureSignIn", "auth dependency; uninstalling can lock accounts out")
    ∷ ("LDAPServer", "auth dependency; uninstalling can lock accounts out")
    ∷ ("DirectoryServer", "auth dependency; uninstalling can lock accounts out")
    ∷ []

abbrev is_code : Option ℤ → ℤ → Bool
is_code none n = false
is_code (some m) n = m ==ℤ n

abbrev is_unsupported : Kind → Bool
is_unsupported unsupported_dsm_version = true
is_unsupported _ = false

-- `_is_not_installed_error`
unfoldable pub is_not_installed_error : Exc → Bool
is_not_installed_error (raised e) = is_unsupported e.kind || is_code e.dsm_error_code (pos 4545)
is_not_installed_error _ = false

-- `_extract_dsm_error_code`
unfoldable pub extract_dsm_error_code : Exc → Option ℤ
extract_dsm_error_code (raised e) = e.dsm_error_code
extract_dsm_error_code _ = none

-- the first of the texts that is not blank
first_text : Fields → List String → Option String
first_text d [] = none
first_text d (k ∷ ks) = elim (get d k) [
  | text s ↦ if Text.strip s == "" then first_text d ks else some s
  | _ ↦ first_text d ks
]

eula_of : Value → Option String
unfolding first_text
eula_of (dict d) = first_text d ("eula" ∷ "license" ∷ "eula_text" ∷ [])
eula_of _ = none

-- `_extract_eula_text`
unfoldable pub extract_eula_text : Fields → Option String
unfolding eula_of
extract_eula_text body = eula_of (or_empty (get body "data"))

-- the row of the installed package in the answer of `Package.get`
installed_row : Fields → Option Fields
installed_row d =
    if not (truthy (dict d)) || (not (truthy (get d "id")) && not (truthy (get d "package")))
    then none
    else some d

is_value_text : Value → String → Bool
is_value_text (text s) t = s == t
is_value_text _ t = false

-- a row of the catalog, by `raw.get("package") or raw.get("id")`
unfoldable pub find_row : Items → String → Option Fields
unfolding is_value_text
find_row nil id = none
find_row (cons (dict raw) rest) id =
    if is_value_text (or_value (get raw "package") (get raw "id")) id
    then some raw
    else find_row rest id
find_row (cons _ rest) id = find_row rest id

abbrev find_in : Value → String → Option Fields
find_in (list l) id = find_row l id
find_in _ id = none

abbrev or_row : Option Fields → Option Fields → Option Fields
or_row (some r) other = some r
or_row none other = other

-- `_fetch_server_catalog_row`, on the answer
unfoldable pub find_catalog_row : Fields → String → Option Fields
find_catalog_row d id = or_row (find_in (get d "packages") id) (find_in (get d "beta_packages") id)

abbrev is_true : Value → Bool
is_true (bool b) = b
is_true _ = false

-- `status in {"done", …}`: a list or a dict has no hash
abbrev final_status : Value → Result Bool
final_status (text s) = ok (s == "done" || s == "complete" || s == "completed" || s == "error")
final_status (list l) = err type_error
final_status (dict d) = err type_error
final_status _ = ok false

-- whether the state of a task ends the polling
unfoldable pub is_finished : Fields → Result Bool
is_finished d = if is_true (get d "finished") then ok true else final_status (get d "status")

-- `data.get("task_id") or data.get("taskid")`
unfoldable pub task_of : Fields → Value
task_of d = first_of d ("task_id" ∷ []) (get d "taskid")

module _ ⦃P : Platform⦄ where
  -- `_get_installed_package`
  unfoldable pub get_installed_package : Config → String → String → Exec (Option Fields)
  unfolding installed_row
  get_installed_package config host id =
      try_with (call_dsm config host (package_get id))
        (λ body. do d ← lift (as_dict (or_empty (get body "data"))); pure (installed_row d))
        (λ e. if is_not_installed_error e then pure none else throw e)

  -- `_poll_install_task`: 300 seconds at 2 seconds a round leave 150 rounds. `last` is the last
  -- answer, which is returned if a call raises.
  unfoldable pub poll_rounds : Config → String → String → ℕ → Fields → Exec Fields
  poll_rounds config host task zero last = pure last
  poll_rounds config host task (suc rounds) last =
      try_with (call_dsm config host (install_status task))
        (λ body. do
          d ← lift (as_dict (or_empty (get body "data")))
          over ← lift (is_finished d)
          if over then pure body else poll_rounds config host task rounds body)
        (λ _. pure last)

  unfoldable pub poll_install_task : Config → String → String → Exec Fields
  poll_install_task config host task = poll_rounds config host task 150 end

  -- `str(row.get("version") or "")`
  unfoldable pub version_of : Fields → String
  version_of d = to_text (or_value (get d "version") (text ""))
