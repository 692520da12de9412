-- ===== src/Ssh/Pubkey.antt =====
-- src/synology_mcp/ssh.py: public keys, fingerprints and user names.
pub mod Accepted
use synology_mcp.Base.{
  pos, ℕ, nat_eq, ltb, String, ◌<>◌, ◌==◌, Char, Bool, not, ◌||◌, Option, none, some, List, [], ◌∷◌,
  any, if◌then◌else◌,
}
use synology_mcp.Base.Text
use synology_mcp.Base.Dict.{Dict}
use synology_mcp.Json.{Value, text, fields, texts}
use synology_mcp.Errors.{Exc, Result, ok, err, plain, invalid_param}
use synology_mcp.Builtins.{show_int}
use synology_mcp.Platform.{Platform}

abbrev pub invalid : Option String → String → Dict Value → Exc
invalid host message details = plain invalid_param message host (fields details)

-- `_VALID_KEY_TYPES`
abbrev pub valid_key_types : List String
valid_key_types =
    "ssh-rsa" ∷ "ssh-dss" ∷ "ssh-ed25519" ∷ "ecdsa-sha2-nistp256" ∷ "ecdsa-sha2-nistp384"
    ∷ "ecdsa-sha2-nistp521" ∷ "sk-ecdsa-sha2-nistp256@openssh.com" ∷ "sk-ssh-ed25519@openssh.com"
    ∷ "ssh-rsa-cert-v01@openssh.com" ∷ "ssh-ed25519-cert-v01@openssh.com"
    ∷ "ecdsa-sha2-nistp256-cert-v01@openssh.com" ∷ "ecdsa-sha2-nistp384-cert-v01@openssh.com"
    ∷ "ecdsa-sha2-nistp521-cert-v01@openssh.com" ∷ []

unfoldable pub is_key_type : String → Bool
unfolding any
is_key_type t = any (λ k. k == t) valid_key_types

unfoldable pub has_newline : String → Bool
unfolding Text.text_any
has_newline s = Text.text_any (λ c. Text.char_is c 10) s || Text.text_any (λ c. Text.char_is c 13) s

pub record Pubkey : Type 0 where
  pub key_type : String
  pub key_bytes : List ℕ
  pub comment : String

abbrev pubkey_details : Dict Value
pubkey_details = ("param", text "pubkey") ∷ []

module _ ⦃P : Platform⦄ where
  -- the checks from the base64 part on
  decode_blob : Option String → String → String → String → Option (List ℕ) → Result Pubkey
  decode_blob host key_type blob comment none =
      err (invalid host ("pubkey base64 blob is malformed: " <> P.b64_error blob) pubkey_details)
  decode_blob host key_type blob comment (some []) =
      err (invalid host "pubkey base64 blob decoded to zero bytes" pubkey_details)
  decode_blob host key_type blob comment (some (b ∷ bytes)) =
      ok (record { key_type = key_type; key_bytes = b ∷ bytes; comment = comment })

  check_key_type : Option String → String → String → String → Result Pubkey
  unfolding decode_blob
  check_key_type host key_type blob comment =
      if is_key_type key_type
      then decode_blob host key_type blob comment (P.b64decode blob)
      else err (
          invalid host ("unrecognized key type " <> P.repr_text key_type)
            (("param", text "pubkey") ∷ ("key_type", text key_type) ∷ []))

  -- the parts of `pubkey.strip().split(None, 2)`
  read_parts : Option String → List String → Result Pubkey
  unfolding check_key_type
  read_parts host (key_type ∷ blob ∷ []) = check_key_type host key_type blob ""
  read_parts host (key_type ∷ blob ∷ comment ∷ _) = check_key_type host key_type blob comment
  read_parts host _ =
      err (invalid host "pubkey must contain at least <type> <base64-blob>" pubkey_details)

  -- `_parse_pubkey`
  unfoldable pub parse_pubkey : Option String → String → Result Pubkey
  unfolding read_parts
  parse_pubkey host pubkey =
      if Text.strip pubkey == ""
      then err (invalid host "pubkey must be a non-empty string" pubkey_details)
      else if has_newline pubkey
      then err (invalid host "pubkey must not contain newline characters" pubkey_details)
      else read_parts host (Text.split_space 2 (Text.strip pubkey))

  -- `_fingerprint_sha256`
  unfoldable pub fingerprint_sha256 : List ℕ → String
  fingerprint_sha256 bytes =
      "SHA256:" <> Text.rstrip_by (λ c. Text.char_is c b'=') (P.b64encode (P.sha256 bytes))

  fingerprint_details : Dict Value
  fingerprint_details = ("param", text "fingerprint") ∷ []

  -- `fp.split(":", 1)[1]`, if there is a colon
  fingerprint_body : String → String
  fingerprint_body fp =
      let (_, _, after) = Text.cut b':' fp in
      if Text.starts_with (P.upper fp) "SHA256:" then after else fp

  check_body : String → Result String
  unfolding fingerprint_details
  check_body body =
      if nat_eq (Text.text_length body) 43
      then elim (P.b64decode (body <> "=")) [
        | none ↦ err (
            invalid none ("fingerprint base64 is malformed: " <> P.b64_error (body <> "="))
              fingerprint_details)
        | some _ ↦ ok ("SHA256:" <> body)
      ]
      else err (
          invalid none
            ("fingerprint does not look like a SHA256 base64 digest (expected 43 base64 chars, got "
              <> (show_int (pos (Text.text_length body)) <> ")"))
            fingerprint_details)

  -- `_normalize_fingerprint`
  unfoldable pub normalize_fingerprint : String → Result String
  unfolding fingerprint_body check_body
  normalize_fingerprint fingerprint =
      let fp = Text.strip fingerprint in
      if fp == ""
      then err (invalid none "fingerprint must be a non-empty string" fingerprint_details)
      else if Text.starts_with (P.lower fp) "md5:"
      then err (
          invalid none "MD5 fingerprints are not supported -- pass the SHA256 form"
            fingerprint_details)
      else check_body (Text.rstrip_by (λ c. Text.char_is c b'=') (fingerprint_body fp))

  unfoldable pub is_bad_char : Char → Bool
  is_bad_char c =
      not (P.is_alnum c || Text.char_is c b'.' || Text.char_is c b'_' || Text.char_is c b'-')

  abbrev check_bad : Option String → List String → Result (Unit {0})
  check_bad host [] = ok tt
  check_bad host (c ∷ cs) = err (
      invalid host ("user contains disallowed characters: " <> P.show_value (texts (c ∷ cs)))
        (("param", text "user") ∷ ("bad_chars", texts (c ∷ cs)) ∷ []))

  -- `_validate_username`
  unfoldable pub validate_username : Option String → String → Result (Unit {0})
  validate_username host user =
      if user == ""
      then err (invalid host "user must be a non-empty string" (("param", text "user") ∷ []))
      else if ltb 32 (Text.text_length user)
      then err (invalid host "user must be at most 32 characters" (("param", text "user") ∷ []))
      else check_bad host (Text.chars_where is_bad_char user)
