-- ===== src/Shares.antt =====
-- src/synology_mcp/shares.py: the rows of shares, permissions and snapshots, and the read tools.
pub mod Names
pub mod Read
pub mod Create
pub mod Delete
use synology_mcp.Base.{
  ℤ, pos, negsuc, ◌==ℤ◌, ℕ, ◌+◌, ◌*◌, ◌/◌, ◌%◌, ◌^◌, nat_eq, ltb, String, ◌<>◌, ◌==◌, Bool, true,
  false, not, ◌||◌, ◌&&◌, Option, none, some, List, [], ◌∷◌, ◌++◌, length, if◌then◌else◌,
}
use synology_mcp.Json.{
  Value, null, bool, int, float, text, list, dict, Float, finite, infinite, nan, Fields, fields,
  get, truthy, or_value, object, array, rows,
}
use synology_mcp.Errors.{
  Exc, raised, DsmError, Kind, permission_denied, otp_required, invalid_param, plain, Result, ok,
  err, ◌>>=◌,
}
use synology_mcp.Builtins.{as_dict, or_empty, int_or_none, to_text}
use synology_mcp.Platform.{Platform}

abbrev pub optional_int : Option ℤ → Value
optional_int none = null
optional_int (some n) = int n

-- a row of `shares_list`; `browsable` is the negation of `hidden`
pub record ShareRow : Type 0 where
  pub name : String
  pub uuid : String
  pub volume : String
  pub desc : String
  pub encrypted : Bool
  pub hidden : Bool
  pub is_usb_share : Bool
  pub share_cow_enabled : Bool
  pub recycle_bin_enabled : Bool
  pub acl_enabled : Bool
  pub acl_supported : Bool
  pub unite_permission : Bool
  pub used_bytes : Option ℤ
  pub quota_bytes : Option ℤ

-- `str(raw.get(key) or "")`
module _ ⦃P : Platform⦄ where
  abbrev pub text_of : Fields → String → String
  text_of raw key = to_text (or_value (get raw key) (text ""))

abbrev flag : Fields → String → Bool
flag raw key = truthy (get raw key)

-- m / 2 ^ e, rounded to the nearest integer, a tie to the even one
unfoldable pub round_half_even : ℕ → ℕ → ℕ
round_half_even m e =
    let q = m / 2 ^ e in
    let r = (m % 2 ^ e) * 2 in
    if ltb r (2 ^ e)
    then q
    else if ltb (2 ^ e) r
    then q + 1
    else if nat_eq (q % 2) 0
    then q
    else q + 1

abbrev negate : ℕ → ℤ
negate ℕ.zero = pos 0
negate (ℕ.suc n) = negsuc n

-- `round(mb * 1024 * 1024)`. The product is exact, but from 2 ^ 1024 on it is infinite.
unfoldable magnitude : ℕ → ℕ → Result ℕ
unfolding round_half_even
magnitude m e =
    if ltb (m * 2 ^ 20) (2 ^ (1024 + e))
    then ok (round_half_even (m * 2 ^ 20) e)
    else err Exc.overflow_error

round_float : Float → Result (Option ℤ)
unfolding magnitude
round_float (finite (pos m) e) = do n ← magnitude m e; ok (some (pos n))
round_float (finite (negsuc m) e) = do n ← magnitude (m + 1) e; ok (some (negate n))
round_float (infinite b) = err Exc.overflow_error
round_float nan = err Exc.value_error

module _ ⦃P : Platform⦄ where
  abbrev round_optional : Option Float → Result (Option ℤ)
  round_optional none = ok none
  round_optional (some x) = round_float x

  abbrev round_int : Option Float → Result (Option ℤ)
  round_int none = err Exc.overflow_error
  round_int (some x) = round_float x

  -- `_mb_float_to_bytes`; the `OverflowError` of a huge integer or product escapes
  unfoldable pub mb_float_to_bytes : Value → Result (Option ℤ)
  unfolding round_float
  mb_float_to_bytes null = ok none
  mb_float_to_bytes (bool b) = ok (some (pos (if b then 1048576 else 0)))
  mb_float_to_bytes (int n) = round_int (P.float_of_int n)
  mb_float_to_bytes (float x) = round_float x
  mb_float_to_bytes (text s) = if s == "" then ok none else round_optional (P.parse_float s)
  mb_float_to_bytes (list l) = ok none
  mb_float_to_bytes (dict d) = ok none

  abbrev unless_zero : Option ℤ → Option ℤ
  unless_zero none = none
  unless_zero (some n) = if n ==ℤ pos 0 then none else some n

  -- `_normalize_share_row`
  unfoldable pub normalize_share_row : Fields → Result ShareRow
  normalize_share_row raw = do
    used ← mb_float_to_bytes (get raw "share_quota_used")
    quota ← int_or_none (get raw "quota_value")
    ok (record {
      name = text_of raw "name";
      uuid = text_of raw "uuid";
      volume = text_of raw "vol_path";
      desc = text_of raw "desc";
      encrypted = flag raw "encryption";
      hidden = flag raw "hidden";
      is_usb_share = flag raw "is_usb_share";
      share_cow_enabled = flag raw "enable_share_cow";
      recycle_bin_enabled = flag raw "enable_recycle_bin";
      acl_enabled = flag raw "is_aclmode";
      acl_supported = flag raw "is_support_acl";
      unite_permission = flag raw "unite_permission";
      used_bytes = used;
      quota_bytes = unless_zero quota;
    })

  unfoldable pub normalize_share_rows : List Fields → Result (List ShareRow)
  normalize_share_rows [] = ok []
  normalize_share_rows (raw ∷ rest) = do
    row ← normalize_share_row raw
    more ← normalize_share_rows rest
    ok (row ∷ more)

  -- `_extract_share_rows`, and the rows of `shares_list`
  unfoldable pub share_rows : Fields → Result (List ShareRow)
  share_rows body = do
    d ← as_dict (or_empty (get body "data"))
    normalize_share_rows (rows (get d "shares"))

-- the dict of a row
abbrev pub row_value : ShareRow → Value
row_value r = object (
    ("name", text r.name)
    ∷ ("uuid", text r.uuid)
    ∷ ("volume", text r.volume)
    ∷ ("desc", text r.desc)
    ∷ ("encrypted", bool r.encrypted)
    ∷ ("hidden", bool r.hidden)
    ∷ ("browsable", bool (not r.hidden))
    ∷ ("is_usb_share", bool r.is_usb_share)
    ∷ ("share_cow_enabled", bool r.share_cow_enabled)
    ∷ ("recycle_bin_enabled", bool r.recycle_bin_enabled)
    ∷ ("acl_enabled", bool r.acl_enabled)
    ∷ ("acl_supported", bool r.acl_supported)
    ∷ ("unite_permission", bool r.unite_permission)
    ∷ ("used_bytes", optional_int r.used_bytes)
    ∷ ("quota_bytes", optional_int r.quota_bytes)
    ∷ [])

abbrev pub row_values : List ShareRow → List Value
row_values [] = []
row_values (r ∷ rest) = row_value r ∷ row_values rest

-- the flags of `_normalize_perm_entry` and the token that they are collapsed to
pub record PermFlags : Type 0 where
  pub is_admin : Bool
  pub is_custom : Bool
  pub is_writable : Bool
  pub is_readonly : Bool
  pub is_deny : Bool

unfoldable pub permission_token : PermFlags → String
permission_token f =
    if f.is_deny
    then "NO"
    else if f.is_admin
    then "ADMIN"
    else if f.is_custom
    then "CUSTOM"
    else if f.is_writable
    then "RW"
    else if f.is_readonly
    then "RO"
    else "NO"

unfoldable pub perm_flags : Fields → PermFlags
perm_flags raw = record {
  is_admin = flag raw "is_admin";
  is_custom = flag raw "is_custom";
  is_writable = flag raw "is_writable";
  is_readonly = flag raw "is_readonly";
  is_deny = flag raw "is_deny";
}

module _ ⦃P : Platform⦄ where
  -- `_normalize_perm_entry`
  unfoldable pub normalize_perm_entry : Fields → String → Value
  unfolding permission_token perm_flags
  normalize_perm_entry raw user_group_type =
      let f = perm_flags raw in
      object (
        ("name", text (text_of raw "name"))
        ∷ ("type", text user_group_type)
        ∷ ("permission", text (permission_token f))
        ∷ ("is_admin", bool f.is_admin)
        ∷ ("is_custom", bool f.is_custom)
        ∷ ("is_writable", bool f.is_writable)
        ∷ ("is_readonly", bool f.is_readonly)
        ∷ ("is_deny", bool f.is_deny)
        ∷ [])

  unfoldable pub perm_entries : List Fields → String → List Value
  perm_entries [] kind = []
  perm_entries (raw ∷ rest) kind = normalize_perm_entry raw kind ∷ perm_entries rest kind

  -- `_normalize_snapshot_row`
  unfoldable pub normalize_snapshot_row : Fields → Result Value
  normalize_snapshot_row raw = do
    time ← int_or_none (get raw "time")
    ok (
        object (
          ("name", text (text_of raw "name"))
          ∷ ("time_epoch", optional_int time)
          ∷ ("desc", text (text_of raw "desc"))
          ∷ ("locked", bool (flag raw "lock"))
          ∷ ("scheduled", bool (flag raw "schedule_snapshot"))
          ∷ ("manual", bool (flag raw "manual"))
          ∷ []))

  unfoldable pub snapshot_rows : List Fields → Result (List Value)
  snapshot_rows [] = ok []
  snapshot_rows (raw ∷ rest) = do
    row ← normalize_snapshot_row raw
    more ← snapshot_rows rest
    ok (row ∷ more)
