-- ===== src/Snapshot/Activity.antt =====
-- src/synology_mcp/snapshot_replication.py: `snapshot_replication_recent_activity`.
use synology_mcp.Base.{
  ℕ, zero, suc, ℤ, pos, negsuc, ltb_ℤ, String, ◌<>◌, ◌==◌, ◌||◌, Option, none, some, List, [], ◌∷◌,
  ◌++◌, map, if◌then◌else◌,
}
use synology_mcp.Base.Dict.{Dict}
use synology_mcp.Json.{
  Value, null, int, text, list, nil, Fields, fields, get, or_value, first_of, object, array, rows,
}
use synology_mcp.Errors.{Exc, invalid_param, plain, Result, ok}
use synology_mcp.Errors as Errors
use synology_mcp.Builtins.{as_dict, or_empty, int_or_none, to_text}
use synology_mcp.Platform.{Platform}
use synology_mcp.Config.{Config}
use synology_mcp.Session.{SshClient}
use synology_mcp.Exec.{Exec, pure, throw, lift, ◌>>=◌, try_with}
use synology_mcp.Transport.Envelope.{Call, extract_warnings}
use synology_mcp.Helpers.{Envelope, success_envelope}
use synology_mcp.Auth.{call_dsm, get_ssh_client}
use synology_mcp.Shares.{optional_int}
use synology_mcp.Snapshot.{plan_values}
use synology_mcp.Snapshot.Sqlite.{sqlite_query}
use synology_mcp.Snapshot.Plans.{is_unsupported, code_text}

abbrev pub activity_call : ℤ → Call
activity_call limit = record {
  api = "SYNO.DR.Plan";
  method = "list_activity";
  version = pos 1;
  params = ("limit", int limit) ∷ ("offset", int (pos 0)) ∷ [];
}

abbrev snap_replica_db : String
snap_replica_db = "/var/packages/SnapshotReplication/etc/snap_replica.db"

abbrev list_replicas_sql : String
list_replicas_sql =
    "SELECT replica_id, plan_status, direction, src_path, dst_path FROM snap_replica_conf ORDER BY replica_id"

abbrev list_size_calc_sql : String
list_size_calc_sql =
    "SELECT id, total_size, is_process, pid, time, errcode FROM size_calculate ORDER BY time DESC LIMIT :lim"

-- `l[:n]` for the numbers that the tool allows
unfoldable pub first_events : ℕ → List (Dict Value) → List (Dict Value)
first_events zero l = []
first_events (suc n) [] = []
first_events (suc n) (x ∷ l) = x ∷ first_events n l

abbrev count_of : ℤ → ℕ
count_of (pos n) = n
count_of (negsuc n) = 0

-- the event of a row of `snap_replica_conf`
unfoldable pub replica_event : Fields → Dict Value
replica_event row =
    ("replica_id", get row "replica_id")
    ∷ ("event_type", text "plan_status")
    ∷ ("state", get row "plan_status")
    ∷ ("direction", get row "direction")
    ∷ ("src_path", get row "src_path")
    ∷ ("dst_path", get row "dst_path")
    ∷ ("timestamp_epoch", null)
    ∷ ("_source", text "snap_replica_conf")
    ∷ []

module _ ⦃P : Platform⦄ where
  -- the rows of one query as events, with its error as a warning
  unfoldable pub events_of :
      (Fields → Result (Dict Value))
      → String
      → List Fields × Option String
      → Result (List (Dict Value) × List String)
  events_of event name (found, some why) = ok ([], (name <> why) ∷ [])
  events_of event name (found, none) =
      Errors.◌>>=◌ (plan_values event found) (λ events. ok (events, []))

  -- `_normalize_activity_web`
  unfoldable pub normalize_activity_web : Fields → Result (Dict Value)
  normalize_activity_web raw =
      Errors.◌>>=◌ (int_or_none (or_value (get raw "time") (get raw "timestamp"))) (λ time. ok (
        ("plan_id", text (to_text (or_value (get raw "plan_id") (text ""))))
        ∷ (
          "event_type",
          text (to_text (first_of raw ("event_type" ∷ "action" ∷ []) (text "unknown"))),
        )
        ∷ ("state", text (to_text (first_of raw ("state" ∷ "status" ∷ []) (text "unknown"))))
        ∷ ("timestamp_epoch", optional_int time)
        ∷ ("message", text (to_text (first_of raw ("message" ∷ "description" ∷ []) (text ""))))
        ∷ ("_source", text "web_api")
        ∷ []))

  -- the event of a row of `size_calculate`
  unfoldable pub size_event : Fields → Result (Dict Value)
  size_event row = Errors.◌>>=◌ (int_or_none (get row "time")) (λ time.
      Errors.◌>>=◌ (int_or_none (get row "errcode")) (λ errcode. ok (
        ("replica_id", get row "id")
        ∷ ("event_type", text "size_calculate")
        ∷ (
          "state",
          text (
              if to_text (or_value (get row "is_process") (text "0")) == "1"
              then "running"
              else "complete"),
        )
        ∷ ("total_size", get row "total_size")
        ∷ ("timestamp_epoch", optional_int time)
        ∷ ("errcode", optional_int errcode)
        ∷ ("_source", text "size_calculate")
        ∷ [])))

  -- `_activity_from_db`
  unfoldable pub activity_from_db : SshClient → ℤ → Exec (List (Dict Value) × List String)
  activity_from_db ssh limit = do
    replicas ← sqlite_query ssh snap_replica_db list_replicas_sql []
    (first, warnings) ←
        lift (events_of (λ row. ok (replica_event row)) "snap_replica.db replica query: " replicas)
    sizes ← sqlite_query ssh snap_replica_db list_size_calc_sql (("lim", int limit) ∷ [])
    (second, more) ← lift (events_of size_event "snap_replica.db size_calculate query: " sizes)
    pure (first ++ second, warnings ++ more)

  -- the events of the web API, none if it is not registered, and the warnings
  unfoldable pub activity_from_web : Config → String → ℤ → Exec (List (Dict Value) × List String)
  activity_from_web config host limit =
      try_with
        (do
          body ← call_dsm config host (activity_call limit)
          data_ ← lift (as_dict (or_empty (get body "data")))
          events ← lift (
              plan_values normalize_activity_web
                (rows (first_of data_ ("activities" ∷ "events" ∷ []) (list nil))))
          pure (events, extract_warnings body))
        pure
        (λ e.
          if is_unsupported e
          then pure (
            [],
            ("SYNO.DR.Plan.list_activity not registered (error "
                  <> (code_text e <> "); using snap_replica.db fallback"))
                ∷ [],
          )
          else throw e)

  -- the events of the database if there are none yet
  unfoldable pub events_or_db :
      Config → String → ℤ → List String → List (Dict Value) → Exec (List (Dict Value) × List String)
  events_or_db config host limit warnings [] = do
    ssh ← get_ssh_client config host
    (events, db_warnings) ← activity_from_db ssh limit
    pure (events, warnings ++ db_warnings)
  events_or_db config host limit warnings (x ∷ l) = pure (x ∷ l, warnings)

  -- `snapshot_replication_recent_activity`
  unfoldable pub snapshot_replication_recent_activity : Config → String → ℤ → Exec Envelope
  snapshot_replication_recent_activity config host limit =
      if ltb_ℤ limit (pos 1) || ltb_ℤ (pos 1000) limit
      then throw (
          plain invalid_param "limit must be between 1 and 1000" (some host)
            (fields (("param", text "limit") ∷ ("value", int limit) ∷ [])))
      else (do
        (found, warnings) ← activity_from_web config host limit
        (events, all_warnings) ← events_or_db config host limit warnings found
        pure (
            success_envelope host
              (object (
                ("events", array (map object (first_events (count_of limit) events)))
                ∷ ("limit", int limit)
                ∷ []))
              all_warnings))
