-- ===== src/Ssh/Pubkey/Accepted.antt =====
-- src/synology_mcp/ssh.py: which user names, keys and fingerprints are accepted.
use synology_mcp.Base.{
  ℕ, nat_eq, String, ◌<>◌, ◌==◌, Char, Bool, true, false, Option, none, some, List, [], ◌∷◌, ◌≡◌,
  ◌≢◌, ◌↔◌, ◌⊎◌, refl, arith, eq_iff, Bool-cases, Option-cases, inl, inr, ◌≤◌,
}
use synology_mcp.Base.Text
use synology_mcp.Errors.{ok}
use synology_mcp.Platform.{Platform}
use synology_mcp.Ssh.Pubkey.{
  Pubkey, is_key_type, has_newline, parse_pubkey, read_parts, decode_blob, is_bad_char,
  validate_username, normalize_fingerprint, check_body, fingerprint_body,
}

chars_where_iff :
    (p : Char → Bool) (s : String) → (Text.chars_where p s ≡ []) ↔ (Text.text_any p s ≡ false)
unfolding Text.chars_where Text.text_any
chars_where_iff p String.[] = ground arith
chars_where_iff p (String.◌∷◌ c s) = ground (arith, chars_where_iff p s)

module _ ⦃P : Platform⦄ where
  abbrev IsNameChar : Char → Type 0
  IsNameChar c =
      (P.is_alnum c ≡ true)
      ⊎ ((Prim.Native.Char.code c ≡ 46)
          ⊎ ((Prim.Native.Char.code c ≡ 95) ⊎ (Prim.Native.Char.code c ≡ 45)))

  unfoldable pub AllNameChars : String → Type 0
  AllNameChars String.[] = Unit
  AllNameChars (String.◌∷◌ c s) = IsNameChar c × AllNameChars s

  bad_chars_iff : (s : String) → (Text.text_any is_bad_char s ≡ false) ↔ AllNameChars s
  unfolding Text.text_any is_bad_char AllNameChars
  bad_chars_iff String.[] = (λ h. tt, λ h. refl)
  bad_chars_iff (String.◌∷◌ c s) = ground (arith, bad_chars_iff s)

  -- A user name is accepted exactly if it is not empty, has at most 32 characters, and each of
  -- them is alphanumeric in Unicode, a dot (46), an underscore (95) or a dash (45).
  pub validate_username_iff :
      (host : Option String) (user : String)
      → (validate_username host user ≡ ok tt)
        ↔ ((user ≢ "") × (Text.text_length user ≤ 32) × AllNameChars user)
  unfolding validate_username
  validate_username_iff host user =
      ground (arith, eq_iff user "", chars_where_iff is_bad_char user, bad_chars_iff user)

  -- what stands after the blob is the comment
  abbrev pub IsComment : List String → String → Type 0
  IsComment [] comment = comment ≡ ""
  IsComment (c ∷ rest) comment = comment ≡ c

  -- the words of a line are the type, the blob and the comment of a key
  abbrev pub IsKeyOf : List String → Pubkey → Type 0
  IsKeyOf words key =
      (is_key_type key.key_type ≡ true)
      × (key.key_bytes ≢ [])
      × ((blob : String) × (rest : List String) × (words ≡ key.key_type ∷ (blob ∷ rest))
          × (P.b64decode blob ≡ some key.key_bytes)
          × IsComment rest key.comment)

  decode_blob_lem :
      (host : Option String) (key_type blob comment : String) (key : Pubkey)
      → decode_blob host key_type blob comment (P.b64decode blob) ≡ ok key
      → (key.key_type ≡ key_type)
        × (key.comment ≡ comment)
        × (key.key_bytes ≢ [])
        × (P.b64decode blob ≡ some key.key_bytes)
  unfolding decode_blob
  decode_blob_lem host key_type blob comment key h = go (P.b64decode blob) refl h
    where
      go :
          (o : Option (List ℕ))
          → P.b64decode blob ≡ o
          → decode_blob host key_type blob comment o ≡ ok key
          → (key.key_type ≡ key_type)
            × (key.comment ≡ comment)
            × (key.key_bytes ≢ [])
            × (P.b64decode blob ≡ some key.key_bytes)
      go none e h = ground arith
      go (some []) e h = ground arith
      go (some (b ∷ bytes)) e h = (ground arith, ground arith, ground arith, ground arith)

  accepted-IsKeyOf :
      (host : Option String) (t blob comment : String) (rest : List String) (key : Pubkey)
      → is_key_type t ≡ true
      → IsComment rest comment
      → decode_blob host t blob comment (P.b64decode blob) ≡ ok key
      → IsKeyOf (t ∷ (blob ∷ rest)) key
  accepted-IsKeyOf host t blob comment rest key k c h =
      let (same_type, same_comment, bytes, decoded) = decode_blob_lem host t blob comment key h in
      (rw same_type k, bytes, (blob, rest, rw same_type refl, decoded, rw same_comment c))

  read_parts-IsKeyOf :
      (host : Option String) (parts : List String) (key : Pubkey)
      → read_parts host parts ≡ ok key
      → IsKeyOf parts key
  unfolding read_parts
  read_parts-IsKeyOf host [] key h = ground arith
  read_parts-IsKeyOf host (t ∷ []) key h = ground arith
  read_parts-IsKeyOf host (t ∷ blob ∷ []) key h = elim (Bool-cases (is_key_type t)) [
    | inl e ↦ accepted-IsKeyOf host t blob "" [] key e refl (ground arith)
    | inr e ↦ ground arith
  ]
  read_parts-IsKeyOf host (t ∷ blob ∷ comment ∷ rest) key h = elim (Bool-cases (is_key_type t)) [
    | inl e ↦ accepted-IsKeyOf host t blob comment (comment ∷ rest) key e refl (ground arith)
    | inr e ↦ ground arith
  ]

  -- The first words of a line that is accepted are the key's type, which is a known one, and a
  -- base64 text that decodes to the key's bytes, of which there is at least one; what follows them is
  -- the key's comment, empty if nothing does; and the line had no newline in it.
  pub parse_pubkey_lem :
      (host : Option String) (pubkey : String) (key : Pubkey)
      → parse_pubkey host pubkey ≡ ok key
      → (has_newline pubkey ≡ false) × IsKeyOf (Text.split_space 2 (Text.strip pubkey)) key
  unfolding parse_pubkey
  parse_pubkey_lem host pubkey key h = elim (Bool-cases (Text.strip pubkey == "")) [
    | inl e ↦ ground arith
    | inr e ↦ elim (Bool-cases (has_newline pubkey)) [
      | inl n ↦ ground arith
      | inr n ↦
          (n, read_parts-IsKeyOf host (Text.split_space 2 (Text.strip pubkey)) key (ground arith))
    ]
  ]

  check_body_lem :
      (body fp : String)
      → check_body body ≡ ok fp
      → (b : String) × (fp ≡ "SHA256:" <> b)
        × (Text.text_length b ≡ 43)
        × (P.b64decode (b <> "=") ≢ none)
  unfolding check_body
  check_body_lem body fp h = elim (Bool-cases (nat_eq (Text.text_length body) 43)) [
    | inl e ↦ elim (Option-cases (P.b64decode (body <> "="))) [
      | inl n ↦ ground arith
      | inr (bytes, n) ↦ (body, ground arith, ground arith, ground arith)
    ]
    | inr e ↦ ground arith
  ]

  -- A fingerprint that is accepted is "SHA256:" and 43 characters that decode as base64 once the
  -- padding is put back.
  pub normalize_fingerprint_lem :
      (fingerprint fp : String)
      → normalize_fingerprint fingerprint ≡ ok fp
      → (body : String) × (fp ≡ "SHA256:" <> body)
        × (Text.text_length body ≡ 43)
        × (P.b64decode (body <> "=") ≢ none)
  unfolding normalize_fingerprint check_body
  normalize_fingerprint_lem fingerprint fp h =
      let s = Text.strip fingerprint in
      elim (Bool-cases (s == "")) [
        | inl e ↦ ground arith
        | inr e ↦ elim (Bool-cases (Text.starts_with (P.lower s) "md5:")) [
          | inl m ↦ ground arith
          | inr m ↦
              check_body_lem (Text.rstrip_by (λ c. Text.char_is c b'=') (fingerprint_body s)) fp
                (ground arith)
        ]
      ]
