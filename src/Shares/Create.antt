-- ===== src/Shares/Create.antt =====
-- src/synology_mcp/shares.py: `shares_create`.
pub mod Guarded
use synology_mcp.Base.{
  pos, String, ◌==◌, Bool, true, false, not, ◌&&◌, Option, none, some, List, [], ◌∷◌, is_empty,
  if◌then◌else◌,
}
use synology_mcp.Base.Text
use synology_mcp.Base.Dict.{Dict}
use synology_mcp.Json.{Value, bool, int, text, fields, object, texts, optional}
use synology_mcp.Errors.{Result, ok, err, plain, invalid_param}
use synology_mcp.Platform.{Platform}
use synology_mcp.Config.{Config}
use synology_mcp.Exec.{Exec, pure, lift, ◌>>=◌, ◌>>◌}
use synology_mcp.Transport.Envelope.{Call, extract_warnings}
use synology_mcp.Helpers.{Envelope, success_envelope, refusal_envelope}
use synology_mcp.Auth.{call_dsm}
use synology_mcp.Shares.{ShareRow, row_value}
use synology_mcp.Shares.Names.{Request, is_reserved_share_name, find_existing_share, mismatches}
use synology_mcp.Shares.Read.{list_shares, empty_name}

-- the arguments of `shares_create` beside the host
pub record CreateArgs : Type 0 where
  pub name : String
  pub volume : String
  pub desc : String
  pub hidden : Bool
  pub enable_recycle_bin : Bool
  pub encryption : Bool
  pub encryption_passphrase : Option String
  pub enable_share_cow : Bool

abbrev no_passphrase : Option String → Bool
no_passphrase none = true
no_passphrase (some s) = s == ""

-- the checks of the arguments
unfoldable pub check_args : String → CreateArgs → Result (Unit {0})
check_args host a =
    if a.name == ""
    then err (empty_name host)
    else if not (Text.starts_with a.volume "/volume")
    then err (
        plain invalid_param "volume must be a /volumeN path (e.g. '/volume1')" (some host)
          (fields (("param", text "volume") ∷ [])))
    else if a.encryption && no_passphrase a.encryption_passphrase
    then err (
        plain invalid_param "encryption_passphrase is required when encryption=True" (some host)
          (fields (("param", text "encryption_passphrase") ∷ [])))
    else ok tt

abbrev pub request_of : CreateArgs → Request
request_of a = record {
  volume = a.volume;
  encrypted = a.encryption;
  recycle_bin_enabled = a.enable_recycle_bin;
}

unfoldable pub reserved_refusal : String → String → Envelope
reserved_refusal host name =
    refusal_envelope host
      (("category", text "reserved_share_name")
        ∷ ("name", text name)
        ∷ (
          "next_step",
          text "pick a different name; the dir can still exist as a plain path for rsync targets",
        )
        ∷ [])
      []

unfoldable pub exists_envelope : String → ShareRow → Envelope
exists_envelope host row =
    success_envelope host (object (("created", bool false) ∷ ("share", row_value row) ∷ []))
      ("share already exists" ∷ [])

unfoldable pub conflict_refusal : String → String → List String → ShareRow → Envelope
conflict_refusal host name differences row =
    refusal_envelope host
      (("category", text "share_exists_with_different_config")
        ∷ ("name", text name)
        ∷ ("mismatches", texts differences)
        ∷ ("existing", row_value row)
        ∷ (
          "next_step",
          text
              "delete the existing share first or pick a different name; this tool refuses to mutate live share configs",
        )
        ∷ [])
      []

abbrev passphrase_entry : CreateArgs → Dict Value
passphrase_entry a =
    if a.encryption && not (no_passphrase a.encryption_passphrase)
    then ("enc_passwd", optional a.encryption_passphrase) ∷ []
    else []

-- the object `shareinfo`
unfoldable pub shareinfo : CreateArgs → Dict Value
shareinfo a =
    ("name", text a.name)
    ∷ ("vol_path", text a.volume)
    ∷ ("desc", text a.desc)
    ∷ ("hidden", bool a.hidden)
    ∷ ("enable_recycle_bin", bool a.enable_recycle_bin)
    ∷ ("enable_share_cow", bool a.enable_share_cow)
    ∷ ("encryption", int (pos (if a.encryption then 1 else 0)))
    ∷ passphrase_entry a

unfoldable pub created_envelope : String → CreateArgs → List String → Envelope
created_envelope host a warnings =
    success_envelope host
      (object (
        ("created", bool true)
        ∷ (
          "share",
          object (
              ("name", text a.name)
              ∷ ("volume", text a.volume)
              ∷ ("encrypted", bool a.encryption)
              ∷ ("hidden", bool a.hidden)
              ∷ ("recycle_bin_enabled", bool a.enable_recycle_bin)
              ∷ ("share_cow_enabled", bool a.enable_share_cow)
              ∷ []),
        )
        ∷ []))
      warnings

module _ ⦃P : Platform⦄ where
  abbrev pub create_call : CreateArgs → Call
  create_call a = record {
    api = "SYNO.Core.Share";
    method = "create";
    version = pos 1;
    params = ("name", text a.name) ∷ ("shareinfo", text (P.json_dumps (object (shareinfo a)))) ∷ [];
  }

  unfoldable pub create_new : Config → String → CreateArgs → Exec Envelope
  create_new config host a = do
    body ← call_dsm config host (create_call a)
    pure (created_envelope host a (extract_warnings body))

  -- what is done with the row of that name, if there is one
  unfoldable pub create_unless : Config → String → CreateArgs → Option ShareRow → Exec Envelope
  create_unless config host a none = create_new config host a
  create_unless config host a (some row) = pure (
      if is_empty (mismatches row (request_of a))
      then exists_envelope host row
      else conflict_refusal host a.name (mismatches row (request_of a)) row)

  -- `shares_create`
  unfoldable pub shares_create : Config → String → CreateArgs → Exec Envelope
  shares_create config host a = do
    lift (check_args host a)
    if is_reserved_share_name a.name then pure (reserved_refusal host a.name) else (do
      found ← list_shares config host
      create_unless config host a (find_existing_share found.0 a.name))
