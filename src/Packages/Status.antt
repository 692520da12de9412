-- ===== src/Packages/Status.antt =====
-- src/synology_mcp/packages.py: `packages_list` and `packages_status`. The probes that
-- `packages_list` runs side by side are run one after another here.
use synology_mcp.Base.{
  ℤ, pos, String, ◌==◌, Bool, true, false, ◌&&◌, Option, none, some, List, [], ◌∷◌, ◌++◌, map,
  if◌then◌else◌,
}
use synology_mcp.Base.Dict.{Dict, insert}
use synology_mcp.Json.{
  Value, null, bool, text, dict, Fields, end, get, or_value, first_of, object, array, rows,
}
use synology_mcp.Errors.{Result, ok}
use synology_mcp.Errors as Errors
use synology_mcp.Builtins.{as_dict, or_empty, int_or_none, to_text}
use synology_mcp.Platform.{Platform}
use synology_mcp.Config.{Config}
use synology_mcp.Session.{SshClient}
use synology_mcp.Exec.{Exec, pure, throw, lift, ◌>>=◌}
use synology_mcp.Transport.Envelope.{Call, extract_warnings}
use synology_mcp.Helpers.{Envelope, success_envelope}
use synology_mcp.Auth.{call_dsm, get_ssh_client}
use synology_mcp.Shares.{optional_int}
use synology_mcp.Packages.{package_get, empty_id}
use synology_mcp.Packages.Probes.{
  Docker, summary_value, status_from_synopkg, probe_synopkg_status, probe_container_manager_docker,
  probe_install_path, probe_last_started_at,
}

abbrev pub package_list_call : Call
package_list_call = record {
  api = "SYNO.Core.Package";
  method = "list";
  version = pos 2;
  params = [];
}

-- a row: `row["id"]`, which does not change, beside the dict
pub record PackageRow : Type 0 where
  pub id : String
  pub keys : Dict Value

abbrev set_key : String → Value → PackageRow → PackageRow
set_key k v row = record row { keys = insert k v row.keys }

set_optional : String → Option String → PackageRow → PackageRow
set_optional k none row = row
set_optional k (some s) row = set_key k (text s) row

unfoldable pub fields_of : Value → Fields
fields_of (dict d) = d
fields_of _ = end

-- `blob["aspect"]["active"]`, if both are dicts
unfoldable pub active_of : Fields → Option Fields
active_of blob = elim (get blob "aspect") [
  | dict aspect ↦ elim (get aspect "active") [ dict active ↦ some active | _ ↦ none ]
  | _ ↦ none
]

-- the warning on a package that synopkg reports as stopped
unfoldable pub docker_warnings : String → Docker → List String
docker_warnings status docker =
    if status == "stop" && docker.health
    then "ContainerManager: synopkg reports stop but docker daemon is healthy — docker_health=True is authoritative"
      ∷ []
    else if status == "stop" && docker.permission_denied
    then "ContainerManager: synopkg reports stop and docker socket is permission-denied for this user — daemon state cannot be verified from this account; check via root SSH"
      ∷ []
    else []

module _ ⦃P : Platform⦄ where
  -- `_normalize_pkg_row`
  unfoldable pub normalize_pkg_row : Fields → Result PackageRow
  normalize_pkg_row raw = Errors.◌>>=◌ (int_or_none (get raw "timestamp")) (λ timestamp.
      let id = to_text (first_of raw ("id" ∷ "package" ∷ []) (text "")) in
      ok (record {
        id = id;
        keys =
            ("id", text id)
            ∷ ("name", text (to_text (first_of raw ("name" ∷ "dname" ∷ "id" ∷ []) (text ""))))
            ∷ ("version", text (to_text (or_value (get raw "version") (text ""))))
            ∷ (
              "install_type",
              text (
                  to_text
                    (or_value (get (fields_of (get raw "additional")) "install_type") (text ""))),
            )
            ∷ ("status", text "unknown")
            ∷ ("auto_start", null)
            ∷ ("timestamp_ms", optional_int timestamp)
            ∷ [];
      }))

  unfoldable pub normalize_pkg_rows : List Fields → Result (List PackageRow)
  normalize_pkg_rows [] = ok []
  normalize_pkg_rows (raw ∷ rest) =
      Errors.◌>>=◌ (normalize_pkg_row raw)
        (λ row. Errors.◌>>=◌ (normalize_pkg_rows rest) (λ others. ok (row ∷ others)))

  with_code : Bool → Option Fields → PackageRow → Result PackageRow
  with_code described none row = ok row
  with_code described (some active) row =
      Errors.◌>>=◌ (int_or_none (get active "status_code")) (λ code.
        let coded = set_key "status_code" (optional_int code) row in
        let description = to_text (or_value (get active "status_description") (text "")) in
        ok (
          if described
          then set_key "status_description" (if description == "" then null else text description)
              coded
          else coded))

  -- the status, and its code, which `packages_status` describes too
  unfoldable pub overlay : Bool → Fields → Option ℤ → PackageRow → Result PackageRow
  unfolding with_code
  overlay described blob exit row =
      with_code described (active_of blob)
        (set_key "status" (text (status_from_synopkg blob exit)) row)

  -- the keys of docker, for the one package that has them, and its warnings
  unfoldable pub overlay_docker : SshClient → String → PackageRow → Exec (PackageRow × List String)
  overlay_docker ssh status row =
      if row.id == "ContainerManager"
      then (do
        docker ← probe_container_manager_docker ssh
        pure (
          set_key "docker_info_summary" (summary_value docker.summary)
              (set_key "docker_health" (bool docker.health) row),
          docker_warnings status docker,
        ))
      else pure (row, [])

  -- `_decorate`
  unfoldable pub decorate : SshClient → PackageRow → Exec (PackageRow × List String)
  decorate ssh row = do
    (blob, exit) ← probe_synopkg_status ssh row.id
    row' ← lift (overlay false blob exit row)
    overlay_docker ssh (status_from_synopkg blob exit) row'

  unfoldable pub decorate_all : SshClient → List PackageRow → Exec (List PackageRow × List String)
  decorate_all ssh [] = pure ([], [])
  decorate_all ssh (row ∷ rest) = do
    (row', warnings) ← decorate ssh row
    (others, more) ← decorate_all ssh rest
    pure (row' ∷ others, warnings ++ more)

  -- `packages_list`
  unfoldable pub packages_list : Config → String → Exec Envelope
  packages_list config host = do
    body ← call_dsm config host package_list_call
    data_ ← lift (as_dict (or_empty (get body "data")))
    found ← lift (normalize_pkg_rows (rows (get data_ "packages")))
    ssh ← get_ssh_client config host
    (decorated, warnings) ← decorate_all ssh found
    pure (
        success_envelope host
          (object (("packages", array (map (λ row. object row.keys) decorated)) ∷ []))
          (extract_warnings body ++ warnings))

  -- the row that `packages_status` shows of a package: `overlay_docker` looks at the id it is given
  unfoldable pub status_row : SshClient → String → PackageRow → Exec (PackageRow × List String)
  unfolding set_optional
  status_row ssh package_id row = do
    (blob, exit) ← probe_synopkg_status ssh package_id
    row' ← lift (overlay true blob exit row)
    path ← probe_install_path ssh package_id
    started ← probe_last_started_at ssh package_id
    overlay_docker ssh (status_from_synopkg blob exit)
        (record (set_optional "last_started_at" started (set_optional "install_path" path row')) {
          id = package_id;
        })

  -- `packages_status`
  unfoldable pub packages_status : Config → String → String → Exec Envelope
  packages_status config host package_id = if package_id == "" then throw (empty_id host) else (do
    body ← call_dsm config host (package_get package_id)
    data_ ← lift (as_dict (or_empty (get body "data")))
    row ← lift (normalize_pkg_row data_)
    ssh ← get_ssh_client config host
    (row', warnings) ← status_row ssh package_id row
    pure (success_envelope host (object row'.keys) (extract_warnings body ++ warnings)))
