-- ===== src/Shares/Names.antt =====
-- src/synology_mcp/shares.py: reserved names, and the comparison with an existing share.
pub mod Matches
use synology_mcp.Base.{
  String, ◌<>◌, ◌==◌, Bool, true, false, not, ◌||◌, Option, none, some, List, [], ◌∷◌, ◌++◌, any,
  if◌then◌else◌,
}
use synology_mcp.Base.Text
use synology_mcp.Builtins.{show_bool}
use synology_mcp.Platform.{Platform}
use synology_mcp.Shares.{ShareRow}

-- `_RESERVED_SHARE_NAMES`
abbrev pub reserved_share_names : List String
reserved_share_names =
    "home" ∷ "homes" ∷ "music" ∷ "photo" ∷ "video" ∷ "surveillance" ∷ "download" ∷ "NetBackup"
    ∷ "@appstore" ∷ "@autoupdate" ∷ "@database" ∷ "@docker" ∷ "@home" ∷ "@maillog" ∷ "@mailscanner"
    ∷ "@MailScanner" ∷ "@spool" ∷ "@tmp" ∷ []

-- `_RESERVED_SHARE_PREFIXES`
abbrev pub reserved_share_prefixes : List String
reserved_share_prefixes = "usbshare" ∷ "sdshare" ∷ "esata" ∷ "web" ∷ []

-- `_find_existing_share`
unfoldable pub find_existing_share : List ShareRow → String → Option ShareRow
find_existing_share [] name = none
find_existing_share (row ∷ rest) name =
    if row.name == name then some row else find_existing_share rest name

abbrev same_bool : Bool → Bool → Bool
same_bool true b = b
same_bool false b = not b

-- the flags of a request to create a share
pub record Request : Type 0 where
  pub volume : String
  pub encrypted : Bool
  pub recycle_bin_enabled : Bool

module _ ⦃P : Platform⦄ where
  -- `_is_reserved_share_name`
  unfoldable pub is_reserved_share_name : String → Bool
  is_reserved_share_name name =
      any (λ n. n == name) reserved_share_names
      || (any (λ n. P.lower n == P.lower name) reserved_share_names
          || any (λ p. Text.starts_with (P.lower name) p) reserved_share_prefixes)

  -- the mismatches of `_share_config_compatible`
  unfoldable pub mismatches : ShareRow → Request → List String
  mismatches row r =
      (if row.volume == r.volume
        then []
        else ("volume: existing="
            <> (P.repr_text row.volume <> (", requested=" <> P.repr_text r.volume)))
          ∷ [])
      ++ ((if same_bool row.encrypted r.encrypted
            then []
            else ("encryption: existing="
                <> (show_bool row.encrypted <> (", requested=" <> show_bool r.encrypted)))
              ∷ [])
          ++ (if same_bool row.recycle_bin_enabled r.recycle_bin_enabled
              then []
              else ("recycle_bin: existing="
                  <> (show_bool row.recycle_bin_enabled
                      <> (", requested=" <> show_bool r.recycle_bin_enabled)))
                ∷ []))
