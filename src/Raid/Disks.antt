-- ===== src/Raid/Disks.antt =====
-- src/synology_mcp/raid.py: the disks.
use synology_mcp.Base.{ℤ, String, ◌==◌, ◌||◌, Option, List, [], ◌∷◌, if◌then◌else◌}
use synology_mcp.Base.Text
use synology_mcp.Json.{
  Value, null, text, list, dict, nil, Fields, get, or_value, first_of, rows, object, array,
}
use synology_mcp.Errors.{Result, ok, ◌>>=◌}
use synology_mcp.Builtins.{as_dict, or_empty, int_or_none, to_text}
use synology_mcp.Platform.{Platform}
use synology_mcp.Config.{Config}
use synology_mcp.Exec.{Exec, pure, lift}
use synology_mcp.Exec as Exec
use synology_mcp.Transport.Envelope.{extract_warnings}
use synology_mcp.Helpers.{Envelope, success_envelope}
use synology_mcp.Auth.{call_dsm}
use synology_mcp.Shares.{optional_int}
use synology_mcp.Raid.{storage_call}

-- a row of `raid_list_disks`
pub record Disk : Type 0 where
  pub slot : String
  pub model : String
  pub serial : String
  pub capacity_bytes : Option ℤ
  pub smart_state : String
  pub temperature_c : Option ℤ
  pub role : String

unfoldable pub disk_value : Disk → Value
disk_value d = object (
    ("slot", text d.slot)
    ∷ ("model", text d.model)
    ∷ ("serial", text d.serial)
    ∷ ("capacity_bytes", optional_int d.capacity_bytes)
    ∷ ("smart_state", text d.smart_state)
    ∷ ("temperature_c", optional_int d.temperature_c)
    ∷ ("role", text d.role)
    ∷ [])

-- the class of a state in lower case
unfoldable pub smart_class : String → String
smart_class s =
    if s == "normal" || s == "healthy" || s == "good" || s == "0" || s == "ok"
    then "healthy"
    else if s == "warning" || s == "attention" || s == "1" || s == "warn"
    then "warning"
    else if s == "failing" || s == "critical" || s == "fail" || s == "2" || s == "crashed"
    then "failing"
    else if s == ""
    then "unknown"
    else s

role_of : Fields → Value
role_of raw = elim (get raw "container") [
  | dict d ↦ or_value (get d "type") (text "unknown")
  | _ ↦ first_of raw ("container_type" ∷ "disk_type" ∷ "role" ∷ []) (text "unknown")
]

module _ ⦃P : Platform⦄ where
  -- `_normalize_smart`
  unfoldable pub normalize_smart : Value → String
  unfolding smart_class
  normalize_smart null = "unknown"
  normalize_smart raw = smart_class (P.lower (Text.strip (to_text raw)))

  -- `_normalize_disk`
  unfoldable pub normalize_disk : Fields → Result Disk
  unfolding role_of
  normalize_disk raw = do
    capacity ← int_or_none (or_value (get raw "size_total") (get raw "capacity"))
    temperature ← int_or_none (or_value (get raw "temp") (get raw "temperature"))
    ok (record {
      slot =
          to_text (
            first_of raw ("id" ∷ "disk_id" ∷ "slot_id" ∷ "slot" ∷ "name" ∷ "device" ∷ [])
              (text ""));
      model = Text.strip (to_text (first_of raw ("model" ∷ "model_name" ∷ []) (text "unknown")));
      serial =
          Text.strip
            (to_text (first_of raw ("serial" ∷ "ui_serial" ∷ "serial_num" ∷ []) (text "")));
      capacity_bytes = capacity;
      smart_state = normalize_smart (or_value (get raw "smart_status") (get raw "status"));
      temperature_c = temperature;
      role = to_text (role_of raw);
    })

  unfoldable pub disk_values : List Fields → Result (List Value)
  disk_values [] = ok []
  disk_values (raw ∷ rest) = do
    d ← normalize_disk raw
    others ← disk_values rest
    ok (disk_value d ∷ others)

  -- the rows of the first key that holds something
  unfoldable pub disk_rows : Fields → List Fields
  disk_rows data_ = rows (first_of data_ ("disks" ∷ "hdd_info" ∷ "items" ∷ []) (list nil))

  -- `raid_list_disks`
  unfoldable pub raid_list_disks : Config → String → Exec Envelope
  raid_list_disks config host = Exec.◌>>=◌ (call_dsm config host storage_call) (λ body.
      Exec.◌>>=◌
        (lift (do data_ ← as_dict (or_empty (get body "data")); disk_values (disk_rows data_)))
        (λ found.
          pure
            (success_envelope host (object (("disks", array found) ∷ [])) (extract_warnings body))))
