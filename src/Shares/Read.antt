-- ===== src/Shares/Read.antt =====
-- src/synology_mcp/shares.py: `shares_list`, `shares_get_acl` and `shares_get_snapshot_config`.
use synology_mcp.Base.{
  ℤ, pos, negsuc, String, ◌<>◌, ◌==◌, Bool, true, false, Option, none, some, List, [], ◌∷◌, ◌++◌,
  length, if◌then◌else◌,
}
use synology_mcp.Json.{
  Value, null, int, text, fields, get, or_value, object, array, rows, list, nil,
}
use synology_mcp.Errors.{Exc, raised, Kind, permission_denied, otp_required, invalid_param, plain}
use synology_mcp.Builtins.{as_dict, or_empty, show_int}
use synology_mcp.Platform.{Platform}
use synology_mcp.Config.{Config}
use synology_mcp.Exec.{Exec, pure, throw, lift, ◌>>=◌, try_with}
use synology_mcp.Transport.Envelope.{Call, extract_warnings}
use synology_mcp.Helpers.{Envelope, success_envelope}
use synology_mcp.Auth.{call_dsm}
use synology_mcp.Shares.{ShareRow, share_rows, row_values, perm_entries, snapshot_rows}

abbrev pub share_list_call : Call
share_list_call = record {
  api = "SYNO.Core.Share";
  method = "list";
  version = pos 1;
  params =
      (
        "additional",
        text
            "[\"encryption\",\"share_quota\",\"hidden\",\"enable_share_cow\",\"enable_recycle_bin\",\"is_aclmode\",\"unite_permission\",\"is_support_acl\"]",
      )
      ∷ [];
}

abbrev pub permission_call : String → String → Call
permission_call name kind = record {
  api = "SYNO.Core.Share.Permission";
  method = "list";
  version = pos 1;
  params =
      ("name", text name)
      ∷ ("user_group_type", text kind)
      ∷ ("offset", int (pos 0))
      ∷ ("limit", int (negsuc 0))
      ∷ [];
}

abbrev pub snapshot_call : String → Call
snapshot_call name = record {
  api = "SYNO.Core.Share.Snapshot";
  method = "list";
  version = pos 1;
  params = ("name", text name) ∷ ("offset", int (pos 0)) ∷ ("limit", int (negsuc 0)) ∷ [];
}

unfoldable pub empty_name : String → Exc
empty_name host =
    plain invalid_param "share name must be a non-empty string" (some host)
      (fields (("param", text "name") ∷ []))

-- the entries and warnings gathered so far, and whether every type was denied
pub record AclView : Type 0 where
  pub entries : List Value
  pub warnings : List String
  pub denied_for_all : Bool

abbrev is_denied_kind : Kind → Bool
is_denied_kind permission_denied = true
is_denied_kind otp_required = true
is_denied_kind _ = false

-- `except (PermissionDenied, OtpRequired)`
abbrev pub is_denial : Exc → Bool
is_denial (raised e) = is_denied_kind e.kind
is_denial _ = false

module _ ⦃P : Platform⦄ where
  -- `shares_list` before its envelope is built
  unfoldable pub list_shares : Config → String → Exec (List ShareRow × List String)
  list_shares config host = do
    body ← call_dsm config host share_list_call
    found ← lift (share_rows body)
    pure (found, extract_warnings body)

  -- `shares_list`
  unfoldable pub shares_list : Config → String → Exec Envelope
  shares_list config host = do
    found ← list_shares config host
    pure (success_envelope host (object (("shares", array (row_values found.0)) ∷ [])) found.1)

  shown_code : Option ℤ → String
  shown_code none = "None"
  shown_code (some n) = show_int n

  denial_code : Exc → String
  unfolding shown_code
  denial_code (raised e) = shown_code e.dsm_error_code
  denial_code _ = "None"

  denial_warning : String → String → Exc → String
  unfolding denial_code
  denial_warning name kind e =
      "permission denied listing "
      <> (kind <> (" ACL for share " <> (P.repr_text name <> (" (DSM " <> (denial_code e <> ")")))))

  -- one round of the loop over `_PERMISSION_TYPES`
  unfoldable pub acl_round : Config → String → String → String → AclView → Exec AclView
  unfolding denial_warning
  acl_round config host name kind view =
      try_with (call_dsm config host (permission_call name kind))
        (λ body. do
          d ← lift (as_dict (or_empty (get body "data")))
          pure (record {
            entries =
                view.entries ++ perm_entries (rows (or_value (get d "items") (list nil))) kind;
            warnings = view.warnings ++ extract_warnings body;
            denied_for_all = false;
          }))
        (λ e.
          if is_denial e
          then pure (record view { warnings = view.warnings ++ (denial_warning name kind e ∷ []) })
          else throw e)

  unfoldable pub acl_rounds : Config → String → String → List String → AclView → Exec AclView
  acl_rounds config host name [] view = pure view
  acl_rounds config host name (kind ∷ kinds) view = do
    view' ← acl_round config host name kind view
    acl_rounds config host name kinds view'

  acl_denied : String → String → Exc
  acl_denied host name = raised (record {
    kind = permission_denied;
    message = "DSM denied ACL access for every user_group_type on share " <> P.repr_text name;
    host = some host;
    dsm_error_code = some (pos 403);
    details = fields (("share", text name) ∷ []);
  })

  -- `shares_get_acl`
  unfoldable pub shares_get_acl : Config → String → String → Exec Envelope
  unfolding acl_denied
  shares_get_acl config host name = if name == "" then throw (empty_name host) else (do
    view ←
        acl_rounds config host name ("local_user" ∷ "local_group" ∷ "system" ∷ [])
          (record { entries = []; warnings = []; denied_for_all = true })
    if view.denied_for_all
        then throw (acl_denied host name)
        else pure (
            success_envelope host
              (object (("share", text name) ∷ ("entries", array view.entries) ∷ [])) view.warnings))

  -- `shares_get_snapshot_config`
  unfoldable pub shares_get_snapshot_config : Config → String → String → Exec Envelope
  shares_get_snapshot_config config host name = if name == "" then throw (empty_name host) else (do
    body ← call_dsm config host (snapshot_call name)
    d ← lift (as_dict (or_empty (get body "data")))
    found ← lift (snapshot_rows (rows (get d "snapshots")))
    pure (
        success_envelope host
          (object (
            ("share", text name)
            ∷ ("snapshots", array found)
            ∷ ("snapshot_count", int (pos (length found)))
            ∷ ("schedule", null)
            ∷ ("retention", null)
            ∷ []))
          (extract_warnings body
            ++ ("DSM 7.3 web API does not expose snapshot schedule/retention config — only the historical snapshot list. Schedule details live in the Btrfs replica subsystem (see snapshot_replication_*)."
                ∷ []))))
