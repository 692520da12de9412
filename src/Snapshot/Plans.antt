-- ===== src/Snapshot/Plans.antt =====
-- src/synology_mcp/snapshot_replication.py: `snapshot_replication_list_plans` and
-- `snapshot_replication_plan_status`.
use synology_mcp.Base.{
  ℤ, pos, String, ◌<>◌, ◌==◌, Bool, true, false, ◌||◌, Option, none, some, List, [], ◌∷◌, ◌++◌, map,
  if◌then◌else◌,
}
use synology_mcp.Base.Dict.{Dict, insert}
use synology_mcp.Json.{
  Value, null, bool, text, dict, field, Fields, fields, get, truthy, or_value, object, array, rows,
}
use synology_mcp.Errors.{
  Exc, raised, Kind, unsupported_dsm_version, dsm_error, invalid_param, plain, Result, ok, err,
}
use synology_mcp.Errors as Errors
use synology_mcp.Builtins.{as_dict, or_empty, int_or_none, to_text, show_int}
use synology_mcp.Platform.{Platform}
use synology_mcp.Config.{Config}
use synology_mcp.Session.{SshClient}
use synology_mcp.Exec.{Exec, pure, throw, lift, ◌>>=◌, try_with}
use synology_mcp.Transport.Envelope.{Call, extract_warnings}
use synology_mcp.Helpers.{Envelope, success_envelope}
use synology_mcp.Auth.{call_dsm, get_ssh_client}
use synology_mcp.Shares.{optional_int}
use synology_mcp.Snapshot.{normalize_plan_row_web, normalize_plan_row_db, plan_values}
use synology_mcp.Snapshot.Sqlite.{sqlite_query}

abbrev pub plan_list_call : Call
plan_list_call = record { api = "SYNO.DR.Plan"; method = "list"; version = pos 1; params = [] }

abbrev pub plan_get_call : String → Call
plan_get_call plan_id = record {
  api = "SYNO.DR.Plan";
  method = "get";
  version = pos 1;
  params = ("plan_id", text plan_id) ∷ [];
}

abbrev replica_db : String
replica_db = "/var/packages/SnapshotReplication/etc/replica.db"

abbrev list_plans_sql : String
list_plans_sql =
    "SELECT plan_id, solution_type, main_site, dr_site, sync_mode, target_id, target_type, status FROM plan ORDER BY plan_id"

abbrev list_share_repl_sql : String
list_share_repl_sql = "SELECT plan_id, replication_id FROM share_replication"

abbrev get_plan_sql : String
get_plan_sql =
    "SELECT p.plan_id, p.solution_type, p.main_site, p.dr_site, p.sync_mode, p.target_id, p.target_type, p.status, s.sched_id, s.is_send_encrypted, s.is_sync_local_snapshots, s.notify_time_in_min, s.sync_window_enable, s.sync_window, s.worm_lock_enable, s.worm_lock_day, s.worm_lock_notify_time FROM plan p LEFT JOIN sync_info s USING(plan_id) WHERE p.plan_id = :pid"

abbrev is_unsupported_kind : Kind → Bool
is_unsupported_kind unsupported_dsm_version = true
is_unsupported_kind _ = false

-- `isinstance(e, UnsupportedDSMVersion)`
abbrev pub is_unsupported : Exc → Bool
is_unsupported (raised e) = is_unsupported_kind e.kind
is_unsupported _ = false

module _ ⦃P : Platform⦄ where
  abbrev shown : Option ℤ → String
  shown none = "None"
  shown (some n) = show_int n

  -- `exc.dsm_error_code` in a text
  abbrev pub code_text : Exc → String
  code_text (raised e) = shown e.dsm_error_code
  code_text _ = ""

  -- the lookup of shares, from the rows that have both ids
  unfoldable pub share_lookup : Dict String → List Fields → Dict String
  share_lookup index [] = index
  share_lookup index (row ∷ rest) =
      let plan_id = to_text (or_value (get row "plan_id") (text "")) in
      let rep_id = to_text (or_value (get row "replication_id") (text "")) in
      share_lookup (if plan_id == "" || rep_id == "" then index else insert plan_id rep_id index)
        rest

  share_warning : Option String → List String
  share_warning none = []
  share_warning (some why) = ("replica.db share_replication query: " <> why) ∷ []

  -- the plans of the rows, or the warning on the query that failed
  unfoldable pub list_plans_from_rows :
      SshClient → List Fields → Option String → Exec (List (Dict Value) × List String)
  unfolding share_warning
  list_plans_from_rows ssh plan_rows (some why) = pure ([], ("replica.db plan query: " <> why) ∷ [])
  list_plans_from_rows ssh plan_rows none = do
    (share_rows, failure) ← sqlite_query ssh replica_db list_share_repl_sql []
    plans ← lift (plan_values (normalize_plan_row_db (share_lookup [] share_rows)) plan_rows)
    pure (plans, share_warning failure)

  -- `_list_plans_from_db`
  unfoldable pub list_plans_from_db : SshClient → Exec (List (Dict Value) × List String)
  list_plans_from_db ssh = do
    (plan_rows, failure) ← sqlite_query ssh replica_db list_plans_sql []
    list_plans_from_rows ssh plan_rows failure

  plans_envelope : String → List (Dict Value) → List String → Envelope
  plans_envelope host plans warnings =
      success_envelope host (object (("plans", array (map object plans)) ∷ [])) warnings

  unfoldable pub plans_or_db : Config → String → List String → List (Dict Value) → Exec Envelope
  unfolding plans_envelope
  plans_or_db config host warnings [] = do
    ssh ← get_ssh_client config host
    (plans, db_warnings) ← list_plans_from_db ssh
    pure (plans_envelope host plans (warnings ++ db_warnings))
  plans_or_db config host warnings (p ∷ ps) = pure (plans_envelope host (p ∷ ps) warnings)

  -- `snapshot_replication_list_plans`
  unfoldable pub snapshot_replication_list_plans : Config → String → Exec Envelope
  unfolding plans_or_db
  snapshot_replication_list_plans config host = do
    body ← call_dsm config host plan_list_call
    data_ ← lift (as_dict (or_empty (get body "data")))
    plans ← lift (plan_values normalize_plan_row_web (rows (get data_ "plans")))
    plans_or_db config host (extract_warnings body) plans

  -- the keys that the row of `sync_info` adds
  unfoldable pub sync_fields : Fields → Result (Dict Value)
  sync_fields row = Errors.◌>>=◌ (int_or_none (get row "sched_id")) (λ sched_id.
      Errors.◌>>=◌ (int_or_none (get row "notify_time_in_min")) (λ notify_time.
        Errors.◌>>=◌ (int_or_none (get row "worm_lock_day")) (λ lock_day.
          Errors.◌>>=◌ (int_or_none (get row "worm_lock_notify_time")) (λ lock_notify_time. ok (
            (
              "schedule",
              object (
                  ("sched_id", optional_int sched_id)
                  ∷ ("sync_window_enable", bool (truthy (get row "sync_window_enable")))
                  ∷ ("sync_window", or_value (get row "sync_window") null)
                  ∷ ("notify_time_in_min", optional_int notify_time)
                  ∷ []),
            )
            ∷ (
              "retention",
              object (
                  ("worm_lock_enable", bool (truthy (get row "worm_lock_enable")))
                  ∷ ("worm_lock_day", optional_int lock_day)
                  ∷ ("worm_lock_notify_time", optional_int lock_notify_time)
                  ∷ []),
            )
            ∷ ("is_send_encrypted", bool (truthy (get row "is_send_encrypted")))
            ∷ ("is_sync_local_snapshots", bool (truthy (get row "is_sync_local_snapshots")))
            ∷ [])))))

  unfoldable pub row_detail : List Fields → Exec (Option (Dict Value) × List String)
  row_detail [] = pure (none, [])
  row_detail (row ∷ rest) = do
    plan ← lift (normalize_plan_row_db [] row)
    more ← lift (sync_fields row)
    pure (some (plan ++ more), [])

  unfoldable pub detail_of_rows :
      List Fields → Option String → Exec (Option (Dict Value) × List String)
  detail_of_rows found (some why) = pure (none, ("replica.db plan query: " <> why) ∷ [])
  detail_of_rows found none = row_detail found

  -- `_plan_status_from_db`
  unfoldable pub plan_status_from_db : SshClient → String → Exec (Option (Dict Value) × List String)
  plan_status_from_db ssh plan_id = do
    (found, failure) ← sqlite_query ssh replica_db get_plan_sql (("pid", text plan_id) ∷ [])
    detail_of_rows found failure

  unfoldable pub web_detail : Value → Exec (Option (Dict Value))
  web_detail (dict (field k v r)) = do
    plan ← lift (normalize_plan_row_web (field k v r))
    pure (some plan)
  web_detail _ = pure none

  -- the answer of the web API, `none` if it is empty or not registered, and the warnings
  unfoldable pub plan_from_web : Config → String → String → Exec (Option (Dict Value) × List String)
  unfolding web_detail
  plan_from_web config host plan_id =
      try_with
        (do
          body ← call_dsm config host (plan_get_call plan_id)
          plan ← web_detail (or_empty (get body "data"))
          pure (plan, extract_warnings body))
        pure
        (λ e.
          if is_unsupported e
          then pure (
            none,
            ("SYNO.DR.Plan.get not registered on this DSM build (error "
                  <> (code_text e <> "); using replica.db fallback"))
                ∷ [],
          )
          else throw e)

  no_plan : String → String → Exc
  no_plan host plan_id =
      plain dsm_error
        ("plan_id " <> (P.repr_text plan_id <> (" not found on host " <> P.repr_text host)))
        (some host) (fields (("plan_id", text plan_id) ∷ []))

  unfoldable pub plan_or_db :
      Config → String → String → List String → Option (Dict Value) → Exec Envelope
  unfolding no_plan
  plan_or_db config host plan_id warnings (some plan) =
      pure (success_envelope host (object plan) warnings)
  plan_or_db config host plan_id warnings none = do
    ssh ← get_ssh_client config host
    (plan, db_warnings) ← plan_status_from_db ssh plan_id
    elim plan [
      | none ↦ throw (no_plan host plan_id)
      | some d ↦ pure (success_envelope host (object d) (warnings ++ db_warnings))
    ]

  -- `snapshot_replication_plan_status`
  unfoldable pub snapshot_replication_plan_status : Config → String → String → Exec Envelope
  unfolding plan_or_db
  snapshot_replication_plan_status config host plan_id =
      if plan_id == ""
      then throw (
          plain invalid_param "plan_id must be a non-empty string" (some host)
            (fields (("param", text "plan_id") ∷ [])))
      else (do
        (plan, warnings) ← plan_from_web config host plan_id
        plan_or_db config host plan_id warnings plan)
