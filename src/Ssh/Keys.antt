-- ===== src/Ssh/Keys.antt =====
-- src/synology_mcp/ssh.py: `ssh_add_authorized_key` and `ssh_remove_authorized_key`.
pub mod Removal
pub mod Added
use synology_mcp.Base.{
  pos, ℕ, suc, String, ◌<>◌, ◌==◌, Bool, true, false, not, ◌&&◌, Option, none, some, List, [], ◌∷◌,
  ◌++◌, any, if◌then◌else◌,
}
use synology_mcp.Base.Text
use synology_mcp.Json.{bool, int, text, truthy, object}
use synology_mcp.Errors.{Result, ok, err}
use synology_mcp.Platform.{Platform}
use synology_mcp.Config.{Config, HostConfig}
use synology_mcp.Config.Env.{get_host}
use synology_mcp.Session.{SshClient}
use synology_mcp.Exec.{Exec, pure, lift, ◌>>=◌, ◌>>◌}
use synology_mcp.Helpers.{Envelope, success_envelope, refusal_envelope}
use synology_mcp.Auth.{ensure_session, get_ssh_client}
use synology_mcp.UserHome.{home_enabled, user_home_is_enabled}
use synology_mcp.Ssh.Pubkey.{
  Pubkey, parse_pubkey, fingerprint_sha256, normalize_fingerprint, validate_username, has_newline,
  invalid,
}
use synology_mcp.Ssh.KeysFile.{
  split_authorized_keys, join_authorized_keys, ensure_ssh_dir, read_authorized_keys,
  write_authorized_keys,
}

unfoldable pub cross_user_refusal : String → String → String → Envelope
cross_user_refusal host target calling =
    refusal_envelope host
      (("category", text "cross_user_not_supported")
        ∷ ("target_user", text target)
        ∷ ("calling_user", text calling)
        ∷ (
          "next_step",
          text
              "this MCP currently supports SSH-key writes only for the calling DSM account (NOPASSWD sudo would be needed to write to other users' .ssh/ directories, and that is not yet configurable). If you need cross-user writes, do it via DSM Control Panel or arrange sudo manually for now.",
        )
        ∷ [])
      []

unfoldable pub home_refusal : String → Envelope → Envelope
home_refusal host home =
    refusal_envelope host
      (("category", text "precondition")
        ∷ ("next_step", text "user_home_enable")
        ∷ ("user_home", home.content)
        ∷ [])
      (home.warnings
        ++ ("ssh_add_authorized_key refused: User Home is not enabled (or its three signals disagree). Run user_home_enable first."
            ∷ []))

module _ ⦃P : Platform⦄ where
  unfoldable pub gate : HostConfig → String → String → Exec (Option Envelope)
  gate c host target =
      if truthy c.password
      then (do
        session ← ensure_session c
        pure (
            if session.user == target
            then none
            else some (cross_user_refusal host target session.user)))
      else pure none

  -- `_check_calling_user`
  unfoldable pub check_calling_user : Config → String → String → Exec (Option Envelope)
  unfolding gate
  check_calling_user config host target = do c ← lift (get_host config host); gate c host target

  abbrev fingerprint_of : Result Pubkey → Option String
  fingerprint_of (ok k) = some (fingerprint_sha256 k.key_bytes)
  fingerprint_of (err e) = none

  -- the fingerprint of a line of the file, or `none` for a line that `_parse_pubkey` refuses
  unfoldable pub entry_fingerprint : String → Option String
  entry_fingerprint entry = fingerprint_of (parse_pubkey none entry)

  abbrev is_some_text : Option String → String → Bool
  is_some_text none fp = false
  is_some_text (some s) fp = s == fp

  unfoldable pub has_fingerprint : String → String → Bool
  unfolding entry_fingerprint
  has_fingerprint fp entry = is_some_text (entry_fingerprint entry) fp

  -- `comment.strip() if comment else embedded_comment`
  unfoldable pub chosen_comment : String → String → String → Result String
  chosen_comment host comment embedded =
      let chosen = if comment == "" then embedded else Text.strip comment in
      if not (chosen == "") && has_newline chosen
      then err (
          invalid (some host) "comment must not contain newline characters"
            (("param", text "comment") ∷ []))
      else ok chosen

  -- the line that is added
  unfoldable pub key_line : Pubkey → String → String
  key_line key comment =
      let bare = key.key_type <> (" " <> P.b64encode key.key_bytes) in
      if comment == "" then bare else bare <> (" " <> comment)

  unfoldable pub added_envelope : String → String → Pubkey → Bool → List String → Envelope
  added_envelope host user key added warnings =
      success_envelope host
        (object (
          ("added", bool added)
          ∷ ("fingerprint", text (fingerprint_sha256 key.key_bytes))
          ∷ ("key_type", text key.key_type)
          ∷ ("user", text user)
          ∷ []))
        warnings

  -- what is done with the entries that the file has
  unfoldable pub append_key :
      SshClient → String → String → Pubkey → String → List String → Exec Envelope
  append_key ssh host user key line entries =
      if any (has_fingerprint (fingerprint_sha256 key.key_bytes)) entries
      then pure (added_envelope host user key false ("key already present" ∷ []))
      else (do
        write_authorized_keys ssh user (join_authorized_keys (entries ++ (line ∷ [])))
        pure (added_envelope host user key true []))

  -- the part after the two gates
  unfoldable pub add_checked : Config → String → String → Pubkey → String → Exec Envelope
  add_checked config host user key comment = do
    chosen ← lift (chosen_comment host comment key.comment)
    ssh ← get_ssh_client config host
    ensure_ssh_dir ssh user
    blob ← read_authorized_keys ssh user
    append_key ssh host user key (key_line key chosen) (split_authorized_keys blob)

  unfoldable pub after_home : Config → String → String → Pubkey → String → Envelope → Exec Envelope
  after_home config host user key comment home =
      if home_enabled home
      then add_checked config host user key comment
      else pure (home_refusal host home)

  unfoldable pub add_gated :
      Config → String → String → Pubkey → String → Option Envelope → Exec Envelope
  unfolding after_home
  add_gated config host user key comment (some refusal) = pure refusal
  add_gated config host user key comment none = do
    home ← user_home_is_enabled config host
    after_home config host user key comment home

  -- `ssh_add_authorized_key`
  unfoldable pub ssh_add_authorized_key : Config → String → String → String → String → Exec Envelope
  unfolding add_gated
  ssh_add_authorized_key config host user pubkey comment = do
    lift (validate_username (some host) user)
    key ← lift (parse_pubkey (some host) pubkey)
    refusal ← check_calling_user config host user
    add_gated config host user key comment refusal

  unfoldable pub removed_envelope : String → String → String → ℕ → Envelope
  removed_envelope host user fp count =
      success_envelope host
        (object (
          ("removed_count", int (pos count)) ∷ ("fingerprint", text fp) ∷ ("user", text user) ∷ []))
        []

  -- the loop of `ssh_remove_authorized_key`: the entries that stay, and how many do not
  unfoldable pub remove_entries : String → List String → List String × ℕ
  remove_entries fp [] = ([], 0)
  remove_entries fp (entry ∷ entries) =
      let (kept, removed) = remove_entries fp entries in
      if has_fingerprint fp entry then (kept, suc removed) else (entry ∷ kept, removed)

  abbrev pub write_kept : SshClient → String → String → String → List String × ℕ → Exec Envelope
  write_kept ssh host user fp (kept, ℕ.zero) = pure (removed_envelope host user fp 0)
  write_kept ssh host user fp (kept, suc n) = do
    write_authorized_keys ssh user (join_authorized_keys kept)
    pure (removed_envelope host user fp (suc n))

  -- the part after the gate
  unfoldable pub remove_checked : Config → String → String → String → Exec Envelope
  remove_checked config host user fp = do
    ssh ← get_ssh_client config host
    blob ← read_authorized_keys ssh user
    write_kept ssh host user fp (remove_entries fp (split_authorized_keys blob))

  unfoldable pub remove_gated : Config → String → String → String → Option Envelope → Exec Envelope
  remove_gated config host user fp (some refusal) = pure refusal
  remove_gated config host user fp none = remove_checked config host user fp

  -- `ssh_remove_authorized_key`
  unfoldable pub ssh_remove_authorized_key : Config → String → String → String → Exec Envelope
  unfolding remove_gated
  ssh_remove_authorized_key config host user fingerprint = do
    lift (validate_username (some host) user)
    fp ← lift (normalize_fingerprint fingerprint)
    refusal ← check_calling_user config host user
    remove_gated config host user fp refusal
