-- ===== src/Shares/Delete.antt =====
-- src/synology_mcp/shares.py: `shares_delete` and its probe of the share's size.
pub mod Guarded
use synology_mcp.Base.{
  ℤ, pos, ltb_ℤ, String, ◌<>◌, ◌==◌, Bool, true, false, Option, none, some, List, [], ◌∷◌, ◌++◌,
  if◌then◌else◌,
}
use synology_mcp.Base.Text
use synology_mcp.Json.{bool, int, text, object, texts}
use synology_mcp.Platform.{Platform, SshResult}
use synology_mcp.Config.{Config}
use synology_mcp.Session.{SshClient}
use synology_mcp.Exec.{Exec, pure, throw, ◌>>=◌, try_ssh}
use synology_mcp.Transport.Envelope.{Call, extract_warnings}
use synology_mcp.Transport.Ssh.{run}
use synology_mcp.Helpers.{Envelope, success_envelope, refusal_envelope}
use synology_mcp.Auth.{call_dsm, get_ssh_client}
use synology_mcp.Shares.{ShareRow}
use synology_mcp.Shares.Names.{find_existing_share}
use synology_mcp.Shares.Read.{list_shares, empty_name}

unfoldable pub not_found_envelope : String → String → Envelope
not_found_envelope host name =
    success_envelope host (object (("deleted", bool false) ∷ ("name", text name) ∷ []))
      ("share not found" ∷ [])

unfoldable pub not_empty_refusal : String → String → ℤ → String → Envelope
not_empty_refusal host name size volume =
    refusal_envelope host
      (("category", text "share_not_empty")
        ∷ ("name", text name)
        ∷ ("size_bytes", int size)
        ∷ ("volume", text volume)
        ∷ ("next_step", text "call again with force=True to delete anyway")
        ∷ [])
      []

abbrev force_warning : Bool → String → String → List String
force_warning false volume name = []
force_warning true volume name =
    ("DSM does not remove the underlying directory on share delete; follow up with `sudo rm -rf "
      <> (volume <> ("/" <> (name <> "` if you want full cleanup"))))
    ∷ []

unfoldable pub deleted_envelope : String → String → ShareRow → List String → Envelope
deleted_envelope host name row warnings =
    success_envelope host
      (object (("deleted", bool true) ∷ ("name", text name) ∷ ("volume", text row.volume) ∷ []))
      warnings

module _ ⦃P : Platform⦄ where
  -- `int(out.splitlines()[0])`, for a text that is stripped and not empty
  abbrev first_int : List String → Option ℤ
  first_int [] = none
  first_int (line ∷ _) = P.parse_int line

  unfoldable pub read_size : SshResult → Option ℤ
  read_size res =
      let out = Text.strip res.stdout in if out == "" then none else first_int (Text.splitlines out)

  unfoldable pub size_command : String → String → String
  size_command volume name =
      "sudo -n du -sb --exclude=@eaDir "
      <> (P.shell_quote (volume <> ("/" <> name)) <> " 2>/dev/null | awk '{print $1}'")

  -- `_share_directory_size_bytes`
  unfoldable pub share_directory_size_bytes : SshClient → String → String → Exec (Option ℤ)
  share_directory_size_bytes ssh volume name =
      try_ssh (run ssh (size_command volume name) false) (λ res. pure (read_size res))
        (λ _. pure none)

  abbrev pub delete_call : String → Call
  delete_call name = record {
    api = "SYNO.Core.Share";
    method = "delete";
    version = pos 1;
    params = ("name", text (P.json_dumps (texts (name ∷ [])))) ∷ [];
  }

  -- the call and the answer
  unfoldable pub delete_now : Config → String → String → Bool → ShareRow → Exec Envelope
  delete_now config host name force row = do
    body ← call_dsm config host (delete_call name)
    pure (
        deleted_envelope host name row
          (extract_warnings body ++ force_warning force row.volume name))

  -- what follows the probe
  unfoldable pub after_size : Config → String → String → ShareRow → Option ℤ → Exec Envelope
  after_size config host name row none = delete_now config host name false row
  after_size config host name row (some size) =
      if ltb_ℤ (pos 0) size
      then pure (not_empty_refusal host name size row.volume)
      else delete_now config host name false row

  unfoldable pub delete_found : Config → String → String → Bool → Option ShareRow → Exec Envelope
  delete_found config host name force none = pure (not_found_envelope host name)
  delete_found config host name force (some row) =
      if force then delete_now config host name true row else (do
        ssh ← get_ssh_client config host
        size ← share_directory_size_bytes ssh row.volume name
        after_size config host name row size)

  -- `shares_delete`
  unfoldable pub shares_delete : Config → String → String → Bool → Exec Envelope
  unfolding delete_found
  shares_delete config host name force = if name == "" then throw (empty_name host) else (do
    found ← list_shares config host
    delete_found config host name force (find_existing_share found.0 name))
