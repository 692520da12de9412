-- ===== src/Tests/Keys.antt =====
-- Commands, keys and ports, on one host.
use synology_mcp.Base.{
  ◌<>◌, ◌+◌, ◌≤◌, String, pos, none, some, true, false, not, [], ◌∷◌, any, keep, length, ◌≡◌, ◌≢◌,
  ◌↔◌, ◌⊎◌, refl, leb_ℤ,
}
use synology_mcp.Base.Text
use synology_mcp.Base.Dict.{lookup, insert}
use synology_mcp.Json.{array, bool, int, text, fields, get_or, lookup_field, truthy}
use synology_mcp.Errors.{ok}
use synology_mcp.Config.Env.{
  collect_env_for_host, env_text, coerce_int, coerce_float, get_host, complete, merge, overlay_of,
  is_blank,
}
use synology_mcp.Session as Session
use synology_mcp.Builtins.{as_dict, or_empty, int_or_none}
use synology_mcp.Session.{state_of, put, SshClient}
use synology_mcp.Exec.{State, ◌>>=◌}
use synology_mcp.Exec.Costs.{total}
use synology_mcp.Transport.Envelope.{read_reply, extract_warnings}
use synology_mcp.Transport.Http.{call, request_of}
use synology_mcp.Transport.Ssh.{run, ensure_client, is_open, set_open}
use synology_mcp.Transport.Ssh.Retries.{execution, run-executions}
use synology_mcp.Transport.Ssh.Outcome.{IsOutcome, run-IsOutcome}
use synology_mcp.Auth.{ensure_session, call_on, call_dsm, get_http_client}
use synology_mcp.Ssh.Pubkey.{
  Pubkey, is_key_type, has_newline, is_bad_char, validate_username, parse_pubkey,
  normalize_fingerprint, fingerprint_sha256,
}
use synology_mcp.Ssh.Pubkey.Accepted.{
  AllNameChars, IsKeyOf, validate_username_iff, parse_pubkey_lem, normalize_fingerprint_lem,
}
use synology_mcp.Ssh.KeysFile.{split_authorized_keys, join_authorized_keys, write_authorized_keys}
use synology_mcp.Ssh.KeysFile.RoundTrip.{IsEntry, split-join}
use synology_mcp.Ssh.Keys.{
  ssh_remove_authorized_key, cross_user_refusal, has_fingerprint, added_envelope, append_key,
  remove_entries, ssh_add_authorized_key,
}
use synology_mcp.Ssh.Keys.Removal.{remove_entries_lem}
use synology_mcp.Ssh.Keys.Added.{cross_user_lem, append_key-again}
use synology_mcp.Ssh.Port.{validate_port, terminal_get, port_envelope, ssh_set_port}
use synology_mcp.Ssh.Port.Accepted.{validate_port_iff}
use synology_mcp.Ssh.Port.Guarded.{ssh_set_port-guarded}
use synology_mcp.Tests.World.{share, nas, config, start, ana, logged_in, answer, friendly}

abbrev client : SshClient
client = record { host_cfg = nas; password = text "secret"; is_open = false }

abbrev line : String
line = "ssh-rsa AQI= me"

abbrev key : Pubkey
key = record { key_type = "ssh-rsa"; key_bytes = 1 ∷ 2 ∷ []; comment = "me" }

run-executions_example :
    total execution (run client "ls" false start).1.trace ≤ total execution [] + 2
run-executions_example = run-executions client "ls" false start

run-IsOutcome_example : IsOutcome "ls" true (run client "ls" true start).0
run-IsOutcome_example = run-IsOutcome client "ls" true start

abbrev user : String
user = "ana"

validate_username_iff_example :
    (validate_username none user ≡ ok tt)
    ↔ ((user ≢ "") × (Text.text_length user ≤ 32) × AllNameChars user)
validate_username_iff_example = validate_username_iff none user

parse_pubkey_lem_example : (has_newline line ≡ false) × IsKeyOf ("ssh-rsa" ∷ "AQI=" ∷ "me" ∷ []) key
unfolding parse_pubkey Text.strip has_newline Text.split_space is_key_type
parse_pubkey_lem_example = parse_pubkey_lem none line key refl

abbrev body43 : String
body43 = "AAAAAAAAAAAAAAAAAAAAAAAAAAAAAAAAAAAAAAAAAAA"

abbrev fingerprint43 : String
fingerprint43 = "SHA256:AAAAAAAAAAAAAAAAAAAAAAAAAAAAAAAAAAAAAAAAAAA"

normalize_fingerprint_lem_example :
    (body : String) × (fingerprint43 ≡ "SHA256:" <> body)
    × (Text.text_length body ≡ 43)
    × (friendly.b64decode (body <> "=") ≢ none)
unfolding normalize_fingerprint Text.strip Text.starts_with Text.text_length
normalize_fingerprint_lem_example = normalize_fingerprint_lem body43 fingerprint43 refl

validate_port_iff_example : (validate_port none false (int (pos 2222)) ≡ ok (pos 2222)) ↔ (
    (int (pos 2222) ≡ int (pos 2222))
    × (((pos 2222 ≡ pos 22) × (false ≡ true))
        ⊎ ((leb_ℤ (pos 1024) (pos 2222) ≡ true) × (leb_ℤ (pos 2222) (pos 65535) ≡ true))))
validate_port_iff_example = validate_port_iff none false (int (pos 2222)) (pos 2222)

line-IsEntry : IsEntry line
unfolding Text.strip Text.starts_with Text.text_any Text.is_line_break
line-IsEntry = (λ e. cc e, refl, refl, refl)

other-IsEntry : IsEntry "other"
unfolding Text.strip Text.starts_with Text.text_any Text.is_line_break
other-IsEntry = (λ e. cc e, refl, refl, refl)

split-join_example :
    split_authorized_keys (join_authorized_keys (line ∷ "other" ∷ [])) ≡ line ∷ "other" ∷ []
unfolding Text.strip
split-join_example = split-join (line ∷ "other" ∷ []) (line-IsEntry, (other-IsEntry, tt))

remove_entries_lem_example :
    ((remove_entries "SHA256:AQI" (line ∷ "other" ∷ [])).0
      ≡ keep (λ e. not (has_fingerprint "SHA256:AQI" e)) (line ∷ "other" ∷ []))
    × (any (has_fingerprint "SHA256:AQI") (remove_entries "SHA256:AQI" (line ∷ "other" ∷ [])).0
        ≡ false)
    × (length (remove_entries "SHA256:AQI" (line ∷ "other" ∷ [])).0
          + (remove_entries "SHA256:AQI" (line ∷ "other" ∷ [])).1
        ≡ 2)
remove_entries_lem_example = remove_entries_lem "SHA256:AQI" (line ∷ "other" ∷ [])

cross_user_lem_example :
    (ssh_add_authorized_key config "nas" "bob" line "" logged_in
      ≡ (ok (cross_user_refusal "nas" "bob" "ana"), logged_in))
    × (ssh_remove_authorized_key config "nas" "bob" fingerprint43 logged_in
        ≡ (ok (cross_user_refusal "nas" "bob" "ana"), logged_in))
unfolding validate_username parse_pubkey normalize_fingerprint get_host truthy state_of lookup
    Text.text_length Text.chars_where is_bad_char Text.strip has_newline Text.split_space
    is_key_type ◌>>=◌ collect_env_for_host coerce_int env_text coerce_float merge overlay_of
    is_blank complete Text.starts_with Session.get Text.cut
cross_user_lem_example =
    cross_user_lem config "nas" "bob" line "" fingerprint43 fingerprint43 key nas ana logged_in refl
      refl refl refl refl refl refl

append_key-again_example : append_key client "nas" "ana" key line ("other" ∷ []) start ≡ (
  ok (added_envelope "nas" "ana" key true []),
  (write_authorized_keys client "ana" (join_authorized_keys ("other" ∷ line ∷ [])) start).1,
)
unfolding has_fingerprint write_authorized_keys fingerprint_sha256 any parse_pubkey Text.strip
    has_newline Text.split_space is_key_type ◌>>=◌ run ensure_client is_open set_open insert put
    lookup state_of Session.get synology_mcp.Ssh.KeysFile.write_command
    synology_mcp.Ssh.KeysFile.authorized_keys_path
append_key-again_example =
    (append_key-again client "nas" "ana" key line ("other" ∷ []) start
      (write_authorized_keys client "ana" (join_authorized_keys ("other" ∷ line ∷ [])) start).1 refl
      (other-IsEntry, tt) line-IsEntry refl refl).0

abbrev asked : State
asked = (call_dsm config "nas" terminal_get logged_in).1

ssh_set_port-guarded_example : ssh_set_port config "nas" (int (pos 22)) true logged_in ≡ (
  ok (
      port_envelope "nas" false true
        (some (pos 22))
        (pos 22)
        ("already on this port" ∷ extract_warnings answer)),
  asked,
)
unfolding validate_port as_dict or_empty int_or_none ◌>>=◌ get_host collect_env_for_host coerce_int
    env_text coerce_float lookup merge overlay_of is_blank Session.get insert put complete call_dsm
    call_on truthy ensure_session get_http_client call read_reply get_or lookup_field request_of
    state_of
ssh_set_port-guarded_example =
    ((ssh_set_port-guarded config "nas" (int (pos 22)) true (pos 22) logged_in asked answer
        (fields (
          ("sid", text "abc")
          ∷ ("synotoken", text "tok")
          ∷ ("firmware_ver", text "DSM 7.3-1")
          ∷ ("ssh_port", int (pos 22))
          ∷ ("enable", bool true)
          ∷ ("shares", array (share ∷ []))
          ∷ []))
        (some (pos 22)) refl refl refl refl).0
      refl).0
