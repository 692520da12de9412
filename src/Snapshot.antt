-- ===== src/Snapshot.antt =====
-- src/synology_mcp/snapshot_replication.py: the rows of plans and events.
pub mod Sqlite
pub mod Plans
pub mod Activity
use synology_mcp.Base.{
  ℤ, pos, ◌==ℤ◌, String, ◌<>◌, ◌==◌, Bool, true, false, Option, none, some, List, [], ◌∷◌,
  if◌then◌else◌,
}
use synology_mcp.Base.Dict.{Dict, lookup}
use synology_mcp.Json.{
  Value, null, bool, int, text, dict, Fields, get, get_or, truthy, or_value, first_of, optional,
}
use synology_mcp.Errors.{Result, ok, ◌>>=◌}
use synology_mcp.Builtins.{int_or_none, to_text, show_int}
use synology_mcp.Platform.{Platform}
use synology_mcp.Shares.{optional_int}

abbrev Names : Type 0
Names = List (ℤ × String)

abbrev solution_type_names : Names
solution_type_names =
    (pos 1, "share") ∷ (pos 2, "lun") ∷ (pos 3, "volume") ∷ (pos 4, "namespace") ∷ []

abbrev sync_mode_names : Names
sync_mode_names = (pos 1, "scheduled") ∷ (pos 2, "continuous") ∷ []

abbrev target_type_names : Names
target_type_names = (pos 0, "primary") ∷ (pos 1, "secondary") ∷ []

abbrev plan_status_names : Names
plan_status_names = (pos 0, "idle") ∷ (pos 1, "syncing") ∷ (pos 2, "error") ∷ (pos 3, "paused") ∷ []

-- `table.get(code, w)`
name_or : Names → ℤ → String → String
name_or [] code w = w
name_or ((n, s) ∷ rest) code w = if n ==ℤ code then s else name_or rest code w

module _ ⦃P : Platform⦄ where
  -- `_plan_status_name`, and `_enum_name` of a value that is read already
  unfoldable pub code_name : Names → Option ℤ → String
  unfolding name_or
  code_name table none = "unknown"
  code_name table (some code) = name_or table code ("raw_" <> show_int code)

  -- `_enum_name`
  unfoldable pub enum_name : Names → Value → Result String
  unfolding code_name
  enum_name table v = do code ← int_or_none v; ok (code_name table code)

  -- the first truthy value of the keys as a text
  first_text : Fields → List String → Option String
  first_text d [] = none
  first_text d (k ∷ ks) = if truthy (get d k) then some (to_text (get d k)) else first_text d ks

  -- `_extract_host`
  unfoldable pub extract_host : Fields → String → Option String
  unfolding first_text
  extract_host raw key = elim (get raw key) [
    | text s ↦ if s == "" then none else some s
    | dict d ↦ first_text d ("hostname" ∷ "host" ∷ "name" ∷ "ip" ∷ [])
    | _ ↦ none
  ]

  nested_share : Value → Option String
  unfolding first_text
  nested_share (dict d) = first_text d ("share" ∷ "share_name" ∷ "path" ∷ [])
  nested_share _ = none

  -- `_extract_share` of a side, whose keys are given
  unfoldable pub extract_share : Fields → String → String → Option String
  unfolding nested_share
  extract_share raw key container_key = elim (get raw key) [
    | text s ↦ if s == "" then nested_share (get raw container_key) else some s
    | _ ↦ nested_share (get raw container_key)
  ]

  -- `_normalize_plan_row_web`
  unfoldable pub normalize_plan_row_web : Fields → Result (Dict Value)
  normalize_plan_row_web raw = do
    let plan_id = to_text (first_of raw ("plan_id" ∷ "id" ∷ []) (text ""))
    solution ← enum_name solution_type_names (get raw "solution_type")
    solution_raw ← int_or_none (get raw "solution_type")
    mode ← enum_name sync_mode_names (get raw "sync_mode")
    mode_raw ← int_or_none (get raw "sync_mode")
    ok (
        ("plan_id", text plan_id)
        ∷ ("name", text (to_text (first_of raw ("plan_name" ∷ "name" ∷ []) (text plan_id))))
        ∷ ("solution_type", text solution)
        ∷ ("solution_type_raw", optional_int solution_raw)
        ∷ ("role", text (to_text (or_value (get raw "role") (text "unknown"))))
        ∷ ("source_host", optional (extract_host raw "main_site"))
        ∷ ("dest_host", optional (extract_host raw "dr_site"))
        ∷ ("source_share", optional (extract_share raw "source_share" "main_site"))
        ∷ ("dest_share", optional (extract_share raw "dest_share" "dr_site"))
        ∷ ("sync_mode", text mode)
        ∷ ("sync_mode_raw", optional_int mode_raw)
        ∷ ("enabled", bool (truthy (get_or raw "enabled" (bool true))))
        ∷ ("paused", bool (truthy (get_or raw "paused" (bool false))))
        ∷ ("status", text (to_text (or_value (get raw "status") (text "unknown"))))
        ∷ ("_source", text "web_api")
        ∷ [])

  -- `_normalize_plan_row_db`
  unfoldable pub normalize_plan_row_db : Dict String → Fields → Result (Dict Value)
  normalize_plan_row_db shares_lookup row = do
    let plan_id = to_text (or_value (get row "plan_id") (text ""))
    solution ← int_or_none (get row "solution_type")
    mode ← int_or_none (get row "sync_mode")
    status ← int_or_none (get row "status")
    target ← int_or_none (get row "target_type")
    ok (
        ("plan_id", text plan_id)
        ∷ ("name", text plan_id)
        ∷ ("solution_type", text (code_name solution_type_names solution))
        ∷ ("solution_type_raw", optional_int solution)
        ∷ ("role", text "unknown")
        ∷ ("source_host", or_value (get row "main_site") null)
        ∷ ("dest_host", or_value (get row "dr_site") null)
        ∷ ("source_share", optional (lookup plan_id shares_lookup))
        ∷ ("dest_share", null)
        ∷ ("sync_mode", text (code_name sync_mode_names mode))
        ∷ ("sync_mode_raw", optional_int mode)
        ∷ ("enabled", bool true)
        ∷ ("paused", bool false)
        ∷ ("status", text (code_name plan_status_names status))
        ∷ ("target_id", get row "target_id")
        ∷ ("target_type", text (code_name target_type_names target))
        ∷ ("_source", text "replica_db")
        ∷ [])

  -- `[_normalize_plan_row(r) for r in rows]`
  unfoldable pub plan_values :
      (Fields → Result (Dict Value)) → List Fields → Result (List (Dict Value))
  plan_values normalize [] = ok []
  plan_values normalize (raw ∷ rest) = do
    plan ← normalize raw
    others ← plan_values normalize rest
    ok (plan ∷ others)
