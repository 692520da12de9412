-- ===== src/Frame/Snapshot.antt =====
-- src/synology_mcp/snapshot_replication.py, within a frame.
use synology_mcp.Base.{◌==◌, ℤ, pos, ◌||◌, ltb_ℤ, String, List, [], ◌∷◌, refl, Option, none, some}
use synology_mcp.Base.Dict.{Dict, lookup, update, insert}
use synology_mcp.Platform.{Platform}
use synology_mcp.Config.{Config}
use synology_mcp.Session.{SshClient}
use synology_mcp.Exec.{State}
use synology_mcp.Exec.Moves.{
  Moves, IsPreorder, Moves-bind, Moves-pure, Moves-lift, Moves-if, Moves-throw, Moves-try,
  Moves-elim, moves_rules,
}
use synology_mcp.Transport.Envelope.{Call}
use synology_mcp.Auth.Reads.{IsRead}
use synology_mcp.Frame.{IsFrame}
use synology_mcp.Frame.Clients.{run-frame, call_dsm-frame, get_ssh_client-frame}
use synology_mcp.Json.{Value, dict, field, Fields}
use synology_mcp.Snapshot.Sqlite.{sqlite_query}
use synology_mcp.Snapshot.Plans.{
  plan_list_call, plan_get_call, list_plans_from_db, list_plans_from_rows, detail_of_rows,
  plans_or_db, snapshot_replication_list_plans, row_detail, plan_status_from_db, web_detail,
  plan_from_web, plan_or_db, snapshot_replication_plan_status, is_unsupported,
}
use synology_mcp.Snapshot.Activity.{
  activity_call, activity_from_db, activity_from_web, events_or_db,
  snapshot_replication_recent_activity,
}

plan_list_call-IsRead : IsRead plan_list_call
unfolding IsRead update insert lookup
plan_list_call-IsRead = refl

plan_get_call-IsRead : (id : String) → IsRead (plan_get_call id)
unfolding IsRead update insert lookup
plan_get_call-IsRead id = refl

activity_call-IsRead : (limit : ℤ) → IsRead (activity_call limit)
unfolding IsRead update insert lookup
activity_call-IsRead limit = refl

module _ ⦃P : Platform⦄ {R : State → State → Type 0} {Allowed : Call → Type 0} (q : IsPreorder R)
    (fr : IsFrame R Allowed) (allow : (request : Call) → IsRead request → Allowed request) where
  sqlite_query-frame :
      (ssh : SshClient) (db sql : String) (params : Dict Value)
      → Moves R (sqlite_query ssh db sql params)
  unfolding sqlite_query
  sqlite_query-frame ssh db sql params = search (q, run-frame q fr, moves_rules)

  list_plans_from_db-frame : (ssh : SshClient) → Moves R (list_plans_from_db ssh)
  unfolding list_plans_from_db list_plans_from_rows
  list_plans_from_db-frame ssh =
      Moves-bind _ _ q (sqlite_query-frame ssh _ _ _) (λ (found, failure). go found failure)
    where
      go :
          (found : List Fields) (failure : Option String)
          → Moves R (list_plans_from_rows ssh found failure)
      go found (some why) = Moves-pure _ q
      go found none =
          Moves-bind _ _ q (sqlite_query-frame ssh _ _ _) (λ more. search (q, moves_rules))

  plans_or_db-frame :
      (config : Config) (host : String) (warnings : List String) (plans : List (Dict Value))
      → Moves R (plans_or_db config host warnings plans)
  unfolding plans_or_db
  plans_or_db-frame config host warnings [] =
      Moves-bind _ _ q (get_ssh_client-frame q fr config host)
        (λ ssh. Moves-bind _ _ q (list_plans_from_db-frame ssh) (λ found. Moves-pure _ q))
  plans_or_db-frame config host warnings (p ∷ ps) = Moves-pure _ q

  pub snapshot_replication_list_plans-frame :
      (config : Config) (host : String) → Moves R (snapshot_replication_list_plans config host)
  unfolding snapshot_replication_list_plans
  snapshot_replication_list_plans-frame config host =
      Moves-bind _ _ q (call_dsm-frame q fr config host _ (allow _ plan_list_call-IsRead))
        (λ body. search (q, plans_or_db-frame, moves_rules))

  row_detail-frame : (found : List Fields) → Moves R (row_detail found)
  unfolding row_detail
  row_detail-frame [] = Moves-pure _ q
  row_detail-frame (row ∷ rest) =
      Moves-bind _ _ q (Moves-lift _ q)
        (λ plan. Moves-bind _ _ q (Moves-lift _ q) (λ more. Moves-pure _ q))

  plan_status_from_db-frame :
      (ssh : SshClient) (plan_id : String) → Moves R (plan_status_from_db ssh plan_id)
  unfolding plan_status_from_db detail_of_rows
  plan_status_from_db-frame ssh plan_id =
      Moves-bind _ _ q (sqlite_query-frame ssh _ _ _) (λ (found, failure). go found failure)
    where
      go : (found : List Fields) (failure : Option String) → Moves R (detail_of_rows found failure)
      go found (some why) = Moves-pure _ q
      go found none = row_detail-frame found

  web_detail-frame : (v : Value) → Moves R (web_detail v)
  unfolding web_detail
  web_detail-frame (dict (field k v r)) = Moves-bind _ _ q (Moves-lift _ q) (λ plan. Moves-pure _ q)
  web_detail-frame _ = Moves-pure _ q

  plan_from_web-frame :
      (config : Config) (host plan_id : String) → Moves R (plan_from_web config host plan_id)
  unfolding plan_from_web
  plan_from_web-frame config host plan_id =
      Moves-try _ _ _ q
        (Moves-bind _ _ q
          (call_dsm-frame q fr config host _ (allow _ (plan_get_call-IsRead plan_id)))
          (λ body. Moves-bind _ _ q (web_detail-frame _) (λ plan. Moves-pure _ q)))
        (λ found. Moves-pure _ q)
        (λ e. Moves-if (is_unsupported e) _ _ (Moves-pure _ q) (Moves-throw e q))

  plan_or_db-frame :
      (config : Config) (host plan_id : String) (warnings : List String) (o : Option (Dict Value))
      → Moves R (plan_or_db config host plan_id warnings o)
  unfolding plan_or_db
  plan_or_db-frame config host plan_id warnings (some plan) = Moves-pure _ q
  plan_or_db-frame config host plan_id warnings none =
      Moves-bind _ _ q (get_ssh_client-frame q fr config host) (λ ssh.
        Moves-bind _ _ q (plan_status_from_db-frame ssh plan_id)
          (λ (plan, more). Moves-elim plan _ _ (Moves-throw _ q) (λ d. Moves-pure _ q)))

  pub snapshot_replication_plan_status-frame :
      (config : Config) (host plan_id : String)
      → Moves R (snapshot_replication_plan_status config host plan_id)
  unfolding snapshot_replication_plan_status
  snapshot_replication_plan_status-frame config host plan_id =
      Moves-if (plan_id == "") _ _ (Moves-throw _ q) (
        Moves-bind _ _ q (plan_from_web-frame config host plan_id)
          (λ (plan, warnings). plan_or_db-frame config host plan_id warnings plan))

  activity_from_db-frame : (ssh : SshClient) (limit : ℤ) → Moves R (activity_from_db ssh limit)
  unfolding activity_from_db
  activity_from_db-frame ssh limit = Moves-bind _ _ q (sqlite_query-frame ssh _ _ _) (λ replicas.
      Moves-bind _ _ q (Moves-lift _ q) (λ first.
        Moves-bind _ _ q (sqlite_query-frame ssh _ _ _)
          (λ sizes. Moves-bind _ _ q (Moves-lift _ q) (λ second. Moves-pure _ q))))

  activity_from_web-frame :
      (config : Config) (host : String) (limit : ℤ) → Moves R (activity_from_web config host limit)
  unfolding activity_from_web
  activity_from_web-frame config host limit =
      Moves-try _ _ _ q
        (Moves-bind _ _ q (call_dsm-frame q fr config host _ (allow _ (activity_call-IsRead limit)))
          (λ body. search (q, moves_rules)))
        (λ found. Moves-pure _ q)
        (λ e. Moves-if (is_unsupported e) _ _ (Moves-pure _ q) (Moves-throw e q))

  events_or_db-frame :
      (config : Config) (host : String) (limit : ℤ) (warnings : List String)
      (found : List (Dict Value))
      → Moves R (events_or_db config host limit warnings found)
  unfolding events_or_db
  events_or_db-frame config host limit warnings [] =
      Moves-bind _ _ q (get_ssh_client-frame q fr config host)
        (λ ssh. Moves-bind _ _ q (activity_from_db-frame ssh limit) (λ found. Moves-pure _ q))
  events_or_db-frame config host limit warnings (x ∷ l) = Moves-pure _ q

  pub snapshot_replication_recent_activity-frame :
      (config : Config) (host : String) (limit : ℤ)
      → Moves R (snapshot_replication_recent_activity config host limit)
  unfolding snapshot_replication_recent_activity
  snapshot_replication_recent_activity-frame config host limit =
      Moves-if (ltb_ℤ limit (pos 1) || ltb_ℤ (pos 1000) limit) _ _ (Moves-throw _ q) (
        Moves-bind _ _ q (activity_from_web-frame config host limit) (λ (found, warnings).
          Moves-bind _ _ q (events_or_db-frame config host limit warnings found)
            (λ r. Moves-pure _ q)))
