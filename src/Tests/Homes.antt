-- ===== src/Tests/Homes.antt =====
-- User Home, on one host.
use mathlib.Core.List.Memᴰ.{head}
use synology_mcp.Base.{List, ℕ, String, pos, none, some, true, false, [], ◌∷◌, ◌≡◌, refl}
use synology_mcp.Base.Text
use synology_mcp.Base.Dict.{lookup, insert}
use synology_mcp.Json.{fields, object, Value, int, text, get_or, lookup_field, truthy, or_value}
use synology_mcp.Errors.{raise_for_dsm_error, kind_of_code, Exc, ok, raised, permission_denied}
use synology_mcp.Platform.{SshResult}
use synology_mcp.Config.Env.{
  collect_env_for_host, env_text, coerce_int, coerce_float, get_host, complete, merge, overlay_of,
  is_blank,
}
use synology_mcp.Builtins.{to_int, exc_text, to_text, show_int, as_dict, or_empty}
use synology_mcp.Session.{state_of, put, get, SshClient}
use synology_mcp.Exec.{State, ◌>>=◌, try_ssh}
use synology_mcp.Transport.Envelope.{raise_for_envelope, read_reply, extract_warnings}
use synology_mcp.Transport.Http.{call, request_of}
use synology_mcp.Transport.Ssh.{run, ensure_client, is_open, set_open}
use synology_mcp.Helpers.{Envelope}
use synology_mcp.Auth.{ensure_session, call_on, call_dsm, get_ssh_client, get_http_client}
use synology_mcp.UserHome.{
  Signals, user_home_is_enabled, tri_envelope, read_synoinfo_user_home, read_homes_symlink,
}
use synology_mcp.UserHome.Affected.{is_distinct, dedupe_lem}
use synology_mcp.UserHome.Disable.{
  contains, dedupe, would_orphan_keys, list_users_with_authorized_keys, user_home_disable,
  read_probe, users_of_lines,
}
use synology_mcp.UserHome.Disable.Guarded.{user_home_disable-guarded}
use synology_mcp.UserHome.Enable.{
  done, failed, failure_envelope, link_command, exit_text, home_set, all_steps,
}
use synology_mcp.UserHome.Enable.RolledBack.{all_steps-symlink_failed, all_steps-web_api_failed}
use synology_mcp.Tests.World.{nas, config, start, logged_in, answer, friendly, refusing}

abbrev two_of_three : Signals
two_of_three = record {
  web_api_says = true;
  synoinfo_says = true;
  symlink_target = none;
  location = none;
}

dedupe_lem_example :
    ((x : String)
      → contains x (dedupe [] ("ana" ∷ "bob" ∷ "ana" ∷ []))
        ≡ contains x ("ana" ∷ "bob" ∷ "ana" ∷ []))
    × (is_distinct (dedupe [] ("ana" ∷ "bob" ∷ "ana" ∷ [])) ≡ true)
dedupe_lem_example = dedupe_lem ("ana" ∷ "bob" ∷ "ana" ∷ [])

abbrev client : SshClient
client = record { host_cfg = nas; password = text "secret"; is_open = false }

abbrev connected : State
connected = (get_ssh_client config "nas" logged_in).1

abbrev checked : State
checked = (user_home_is_enabled config "nas" connected).1

abbrev probed : State
probed = (list_users_with_authorized_keys client checked).1

abbrev ana_home : Envelope
ana_home = tri_envelope "nas" answer (record {
  web_api_says = true;
  synoinfo_says = true;
  symlink_target = some "yes";
  location = none;
})

abbrev listing : SshResult
listing = record {
  command = "sudo -n find /var/services/homes/*/.ssh/authorized_keys -size +0c -type f";
  stdout = "/var/services/homes/ana/.ssh/authorized_keys";
  stderr = "";
  exit_status = pos 0;
}

user_home_disable-guarded_example :
    (affected : List String) × (user_home_disable config "nas" false logged_in
      ≡ (ok (would_orphan_keys "nas" affected), probed))
    × (contains "ana" affected ≡ true)
unfolding get_ssh_client user_home_is_enabled list_users_with_authorized_keys
    read_synoinfo_user_home read_homes_symlink tri_envelope read_probe users_of_lines dedupe
    Text.strip Text.splitlines Text.split_on as_dict or_empty run ensure_client is_open set_open
    extract_warnings try_ssh ◌>>=◌ get_host collect_env_for_host coerce_int env_text coerce_float
    lookup merge overlay_of is_blank get insert put complete call_dsm call_on truthy ensure_session
    get_http_client call read_reply get_or lookup_field request_of state_of
    synology_mcp.Helpers.success_envelope
user_home_disable-guarded_example =
    (user_home_disable-guarded config "nas" logged_in connected checked probed client ana_home
        listing refl refl refl refl).1
      "ana" "/var/services/homes/ana/.ssh/authorized_keys" refl (head refl)
      (refl, ("", "var", "services", ".ssh" ∷ "authorized_keys" ∷ [], refl))

abbrev outcome : String → String → ℕ → SshResult
outcome command stdout status = record {
  command = command;
  stdout = stdout;
  stderr = "";
  exit_status = pos status;
}

abbrev set_key : String
set_key = "sudo -n /usr/syno/bin/synosetkeyvalue /etc/synoinfo.conf userHomeEnable yes"

abbrev keyed : State
keyed = (run client set_key false start).1

abbrev bad_volume : Value
bad_volume = text "/volume9"

abbrev unlinked : State
unlinked = (run client (link_command "/volume9/homes") false keyed).1

abbrev relinked : State
relinked = (run client (link_command "/volume1/homes") false unlinked).1

all_steps-symlink_failed_example :
    all_steps config client "nas" none (some "/volume1/homes") bad_volume [] start ≡ (
      ok (
          failure_envelope "nas"
            (done (pos 1) "synoinfo"
              ∷ failed
                  (pos 2)
                  "symlink"
                  (exit_text (outcome (link_command "/volume9/homes") "yes" 1))
              ∷ [])
            ("rollback ok: /var/services/homes -> /volume1/homes" ∷ [])
            "step 2 (symlink) failed; symlink restored"),
      relinked,
    )
unfolding run link_command ◌>>=◌ ensure_client is_open get lookup set_open put insert state_of
    synology_mcp.Builtins.to_text
all_steps-symlink_failed_example =
    all_steps-symlink_failed config client "nas" none "/volume1/homes" bad_volume [] start keyed
      (outcome set_key "yes" 0) refl refl refl unlinked relinked
      (ok (outcome (link_command "/volume9/homes") "yes" 1))
      (exit_text (outcome (link_command "/volume9/homes") "yes" 1))
      (outcome (link_command "/volume1/homes") "yes" 0) refl (refl, refl) refl refl

abbrev keyed_in : State
keyed_in = (run ⦃P = refusing⦄ client set_key false logged_in).1

abbrev linked_in : State
linked_in =
    (run ⦃P = refusing⦄ client (link_command ⦃P = refusing⦄ "/volume2/homes") false keyed_in).1

abbrev refused : State
refused = (call_dsm ⦃P = refusing⦄ config "nas" (home_set (text "/volume2")) linked_in).1

abbrev restored : State
restored =
    (run ⦃P = refusing⦄ client (link_command ⦃P = refusing⦄ "/volume1/homes") false refused).1

abbrev denied : Exc
denied = raised (record {
  kind = permission_denied;
  message = "DSM error code ?";
  host = some "nas";
  dsm_error_code = some (pos 105);
  details = fields (
      ("api", text "SYNO.Core.User.Home")
      ∷ ("method", text "set")
      ∷ ("error", object (("code", int (pos 105)) ∷ []))
      ∷ []);
})

all_steps-web_api_failed_example :
    all_steps ⦃P = refusing⦄ config client "nas" none
      (some "/volume1/homes")
      (text "/volume2")
      []
      logged_in
    ≡ (
      ok (
          failure_envelope "nas"
            (done (pos 1) "synoinfo"
              ∷ done (pos 2) "symlink"
              ∷ failed (pos 3) "web_api" "DSM error code ?"
              ∷ [])
            ("rollback ok: /var/services/homes -> /volume1/homes" ∷ [])
            "step 3 (web API set) failed; symlink restored"),
      restored,
    )
unfolding run link_command ensure_client is_open set_open as_dict or_empty or_value to_int exc_text
    to_text raise_for_envelope raise_for_dsm_error kind_of_code show_int ◌>>=◌ get_host
    collect_env_for_host coerce_int env_text coerce_float lookup merge overlay_of is_blank get
    insert put complete call_dsm call_on truthy ensure_session get_http_client call read_reply
    get_or lookup_field request_of state_of
all_steps-web_api_failed_example =
    all_steps-web_api_failed ⦃P = refusing⦄ config client "nas" none "/volume1/homes"
      (text "/volume2") [] logged_in keyed_in (outcome set_key "yes" 0) refl refl refl linked_in
      refused restored (outcome (link_command ⦃P = refusing⦄ "/volume2/homes") "yes" 0)
      (outcome (link_command ⦃P = refusing⦄ "/volume1/homes") "yes" 0) denied refl refl refl refl
      refl
