-- ===== src/Tests/Storage.antt =====
-- Shares and packages, on one host.
use mathlib.Core.List.Memᴰ.{head, tail}
use synology_mcp.Platform.{SshResult}
use synology_mcp.Shares.Delete.{size_command}
use synology_mcp.Base.{
  arith, List, String, ◌==◌, pos, none, some, true, false, [], ◌∷◌, any, is_empty, ◌≡◌, ◌↔◌, refl,
}
use synology_mcp.Base.Text
use synology_mcp.Base.Dict.{lookup, insert}
use synology_mcp.Json.{text, get_or, lookup_field, truthy, or_value, rows, dicts}
use synology_mcp.Errors.{ok}
use synology_mcp.Builtins.{int_or_none, as_dict, or_empty, to_text}
use synology_mcp.Config.Env.{
  collect_env_for_host, env_text, coerce_int, coerce_float, get_host, complete, merge, overlay_of,
  is_blank,
}
use synology_mcp.Session.{state_of, put, get, SshClient}
use synology_mcp.Exec.{State, ◌>>=◌, try_ssh}
use synology_mcp.Transport.Envelope.{read_reply, extract_warnings}
use synology_mcp.Transport.Http.{call, request_of}
use synology_mcp.Transport.Ssh.{run, ensure_client, is_open, set_open}
use synology_mcp.Auth.{ensure_session, call_on, call_dsm, get_ssh_client, get_http_client}
use synology_mcp.Shares.{normalize_share_rows, normalize_share_row, ShareRow, share_rows}
use synology_mcp.Shares.Names.{is_reserved_share_name, find_existing_share, mismatches}
use synology_mcp.Shares.Names.Matches.{mismatches_iff, find_existing_share_lem}
use synology_mcp.Shares.Read.{list_shares}
use synology_mcp.Shares.Create.{
  CreateArgs, check_args, conflict_refusal, request_of as request_of_args, shares_create,
}
use synology_mcp.Shares.Create.Guarded.{shares_create-guarded}
use synology_mcp.Shares.Delete.{
  share_directory_size_bytes, read_size, not_empty_refusal, not_found_envelope, shares_delete,
}
use synology_mcp.Shares.Delete.Guarded.{shares_delete-absent, shares_delete-unforced}
use synology_mcp.Packages.Uninstall.{denylist_refusal, packages_uninstall}
use synology_mcp.Packages.Uninstall.Guarded.{packages_uninstall-guarded}
use synology_mcp.Tests.World.{nas, config, start, logged_in, friendly}

abbrev docs : ShareRow
docs = record {
  name = "docs";
  uuid = "";
  volume = "/volume1";
  desc = "";
  encrypted = false;
  hidden = false;
  is_usb_share = false;
  share_cow_enabled = false;
  recycle_bin_enabled = false;
  acl_enabled = false;
  acl_supported = false;
  unite_permission = false;
  used_bytes = none;
  quota_bytes = none;
}

abbrev args : String → CreateArgs
args name = record {
  name = name;
  volume = "/volume1";
  desc = "";
  hidden = false;
  enable_recycle_bin = true;
  encryption = false;
  encryption_passphrase = none;
  enable_share_cow = false;
}

mismatches_iff_example : (is_empty (mismatches docs (request_of_args (args "docs"))) ≡ true) ↔ (
    (docs.volume ≡ (args "docs").volume)
    × (docs.encrypted ≡ false)
    × (docs.recycle_bin_enabled ≡ true))
mismatches_iff_example = mismatches_iff docs (request_of_args (args "docs"))

find_existing_share_lem_example :
    ((row : ShareRow) → find_existing_share (docs ∷ []) "docs" ≡ some row → row.name ≡ "docs")
    × ((find_existing_share (docs ∷ []) "docs" ≡ none)
        ↔ (any (λ r. r.name == "docs") (docs ∷ []) ≡ false))
find_existing_share_lem_example = find_existing_share_lem (docs ∷ []) "docs"

abbrev listed : State
listed = (list_shares config "nas" logged_in).1

shares_create-guarded_example :
    (reasons : List String) × (is_empty reasons ≡ false)
    × (shares_create config "nas" (args "docs") logged_in
        ≡ (ok (conflict_refusal "nas" "docs" reasons docs), listed))
unfolding check_args is_reserved_share_name any Text.starts_with mismatches is_empty list_shares
    share_rows normalize_share_rows normalize_share_row rows dicts int_or_none find_existing_share
    ◌>>=◌ get_host collect_env_for_host coerce_int env_text coerce_float lookup merge overlay_of
    is_blank get insert put complete call_dsm call_on truthy ensure_session get_http_client call
    read_reply get_or lookup_field request_of state_of as_dict or_empty or_value to_text
    extract_warnings synology_mcp.Shares.mb_float_to_bytes
shares_create-guarded_example =
    ((shares_create-guarded config "nas" (args "docs") logged_in refl).1 listed (docs ∷ [], []) docs
        refl refl refl).1
      (λ same. let (volume, encrypted, recycle) = same in ground arith)

shares_delete-absent_example :
    shares_delete config "nas" "other" false logged_in
    ≡ (ok (not_found_envelope "nas" "other"), listed)
unfolding list_shares share_rows normalize_share_rows normalize_share_row rows dicts int_or_none
    find_existing_share ◌>>=◌ get_host collect_env_for_host coerce_int env_text coerce_float lookup
    merge overlay_of is_blank get insert put complete call_dsm call_on truthy ensure_session
    get_http_client call read_reply get_or lookup_field request_of state_of as_dict or_empty
    or_value to_text extract_warnings synology_mcp.Shares.mb_float_to_bytes
shares_delete-absent_example =
    (shares_delete-absent config "nas" "other" logged_in listed (docs ∷ [], []) refl refl false
      refl).0

abbrev client : SshClient
client = record { host_cfg = nas; password = text "secret"; is_open = false }

abbrev reached : State
reached = (get_ssh_client config "nas" listed).1

abbrev measured : State
measured = (share_directory_size_bytes client "/volume1" "docs" reached).1

abbrev du_answer : SshResult
du_answer = record {
  command = size_command "/volume1" "docs";
  stdout = "yes";
  stderr = "";
  exit_status = pos 0;
}

shares_delete-unforced_example :
    shares_delete config "nas" "docs" false logged_in
    ≡ (ok (not_empty_refusal "nas" "docs" (pos 5) "/volume1"), measured)
unfolding list_shares share_rows normalize_share_rows normalize_share_row rows dicts int_or_none
    find_existing_share ◌>>=◌ get_host collect_env_for_host coerce_int env_text coerce_float lookup
    merge overlay_of is_blank get insert put complete call_dsm call_on truthy ensure_session
    get_http_client call read_reply get_or lookup_field request_of state_of as_dict or_empty
    or_value to_text extract_warnings run ensure_client is_open set_open try_ssh get_ssh_client
    share_directory_size_bytes read_size Text.strip Text.splitlines
    synology_mcp.Shares.mb_float_to_bytes synology_mcp.Shares.Delete.size_command
shares_delete-unforced_example =
    ((shares_delete-unforced config "nas" "docs" logged_in listed (docs ∷ [], []) refl refl docs
        client (some (pos 5)) (ok du_answer) reached measured refl refl refl
        (refl, ("yes", [], refl, refl))).0
      (pos 5) refl refl).0

packages_uninstall-guarded_example :
    (reason : String) × (packages_uninstall config "nas" "Docker" false start
      ≡ (ok (denylist_refusal "nas" "Docker" reason), start))
packages_uninstall-guarded_example =
    (packages_uninstall-guarded config "nas" "Docker" start refl).0 (tail (head refl))
