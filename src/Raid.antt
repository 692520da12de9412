-- ===== src/Raid.antt =====
-- src/synology_mcp/raid.py: the volumes.
pub mod Disks
pub mod Mdstat
pub mod Sizes
pub mod Mac
pub mod Hardware
use synology_mcp.Base.{
  ℤ, pos, ltb_ℤ, sub_ℤ, String, ◌==◌, Bool, true, false, ◌||◌, ◌&&◌, Option, none, some, List, [],
  ◌∷◌, if◌then◌else◌,
}
use synology_mcp.Base.Text
use synology_mcp.Base.Dict.{Dict, lookup, insert}
use synology_mcp.Json.{
  Value, null, bool, int, float, text, list, dict, nil, Fields, get, truthy, or_value, first_of,
  rows, object, array,
}
use synology_mcp.Errors.{Result, ok, err, ◌>>=◌, type_error}
use synology_mcp.Builtins.{as_dict, or_empty, int_or_none, to_text}
use synology_mcp.Platform.{Platform}
use synology_mcp.Config.{Config}
use synology_mcp.Exec.{Exec, pure, lift}
use synology_mcp.Exec as Exec
use synology_mcp.Transport.Envelope.{Call, extract_warnings}
use synology_mcp.Helpers.{Envelope, success_envelope}
use synology_mcp.Auth.{call_dsm}
use synology_mcp.Shares.{optional_int}

abbrev pub storage_call : Call
storage_call = record {
  api = "SYNO.Storage.CGI.Storage";
  method = "load_info";
  version = pos 1;
  params = [];
}

-- a row of `raid_list_volumes`
pub record Volume : Type 0 where
  pub name : String
  pub fs : String
  pub size_total : Option ℤ
  pub size_used : Option ℤ
  pub size_free : Option ℤ
  pub raid_level : String
  pub encrypted : Bool
  pub status : String

-- `max(total - used, 0)` when both sizes are known
unfoldable pub free_size : Option ℤ → Option ℤ → Option ℤ
free_size (some total) (some used) =
    let free = sub_ℤ total used in some (if ltb_ℤ free (pos 0) then pos 0 else free)
free_size _ _ = none

-- `raid_level in {"multiple", "unknown", ""}`: a list or a dict has no hash
unfoldable pub is_generic_level : Value → Result Bool
is_generic_level (text s) = ok (s == "multiple" || s == "unknown" || s == "")
is_generic_level (list l) = err type_error
is_generic_level (dict d) = err type_error
is_generic_level _ = ok false

-- the level that is kept, given the `device_type` of the pool
unfoldable pub pool_level : Value → Value → Result Value
unfolding is_generic_level
pool_level level device_type =
    if truthy device_type
    then (do generic ← is_generic_level level; ok (if generic then device_type else level))
    else ok level

-- the condition of `status` covers both of its first two sources
unfoldable pub volume_status : Fields → Value
volume_status raw = elim (get raw "space_status") [
  | dict d ↦ or_value (or_value (get raw "status") (get d "status")) (text "unknown")
  | _ ↦ or_value (get raw "status") (text "unknown")
]

unfoldable pub volume_value : Volume → Value
volume_value v = object (
    ("name", text v.name)
    ∷ ("fs", text v.fs)
    ∷ ("size_total_bytes", optional_int v.size_total)
    ∷ ("size_used_bytes", optional_int v.size_used)
    ∷ ("size_free_bytes", optional_int v.size_free)
    ∷ ("raid_level", text v.raid_level)
    ∷ ("encrypted", bool v.encrypted)
    ∷ ("status", text v.status)
    ∷ [])

module _ ⦃P : Platform⦄ where
  pool_key : Fields → String
  pool_key p = to_text (first_of p ("id" ∷ "num_id" ∷ []) (text ""))

  -- `_pool_index`: the last pool of a key is kept
  unfoldable pub pool_index : Dict Fields → List Fields → Dict Fields
  unfolding pool_key
  pool_index index [] = index
  pool_index index (p ∷ rest) = pool_index (insert (pool_key p) p index) rest

  -- the level of a volume, with that of its pool
  unfoldable pub level_of : Fields → Dict Fields → Result Value
  unfolding pool_level
  level_of raw pools =
      let level =
        first_of raw ("device_type" ∷ "raid_type" ∷ "raidType" ∷ "raid_level" ∷ [])
          (text "unknown") in
      let pool_path = get raw "pool_path" in
      if truthy pool_path
      then elim (lookup (to_text pool_path) pools) [
        | none ↦ ok level
        | some p ↦ pool_level level (get p "device_type")
      ]
      else ok level

  -- the total and the used size, from `size` if it is a dict
  unfoldable pub sizes_of : Fields → Result (Option ℤ × Option ℤ)
  sizes_of raw = elim (get raw "size") [
    | dict size ↦ (do
      total ← int_or_none (get size "total")
      used ← int_or_none (get size "used")
      ok (total, used))
    | _ ↦ (do
      total ← int_or_none (or_value (get raw "size_total") (get raw "total_size"))
      used ← int_or_none (or_value (get raw "size_used") (get raw "used_size"))
      ok (total, used))
  ]

  -- `_normalize_volume`
  unfoldable pub normalize_volume : Dict Fields → Fields → Result Volume
  normalize_volume pools raw = do
    (total, used) ← sizes_of raw
    level ← level_of raw pools
    ok (record {
      name = to_text (
          first_of raw ("vol_path" ∷ "display_name" ∷ "volume_path" ∷ "name" ∷ "id" ∷ [])
            (text ""));
      fs = to_text (first_of raw ("fs_type" ∷ "filesystem" ∷ "fs" ∷ []) (text "unknown"));
      size_total = total;
      size_used = used;
      size_free = free_size total used;
      raid_level = to_text level;
      encrypted = truthy (
          or_value (get raw "is_encrypted")
            (or_value (get raw "encrypted") (get raw "is_encrypt")));
      status = to_text (volume_status raw);
    })

  unfoldable pub volume_values : Dict Fields → List Fields → Result (List Value)
  volume_values pools [] = ok []
  volume_values pools (raw ∷ rest) = do
    v ← normalize_volume pools raw
    others ← volume_values pools rest
    ok (volume_value v ∷ others)

  -- `raid_list_volumes`
  unfoldable pub raid_list_volumes : Config → String → Exec Envelope
  raid_list_volumes config host = Exec.◌>>=◌ (call_dsm config host storage_call) (λ body.
      Exec.◌>>=◌
        (lift (do
          data_ ← as_dict (or_empty (get body "data"))
          volume_values (pool_index [] (rows (or_value (get data_ "storagePools") (list nil))))
              (rows (or_value (get data_ "volumes") (list nil)))))
        (λ found.
          pure (
            success_envelope host (object (("volumes", array found) ∷ []))
              (extract_warnings body))))
