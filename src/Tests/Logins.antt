-- ===== src/Tests/Logins.antt =====
-- Sessions, calls and errors, on one host.
use synology_mcp.Base.{pos, none, some, true, false, [], ◌∷◌, ◌≡◌, ◌≢◌, ◌⊎◌, refl}
use synology_mcp.Base.Text
use synology_mcp.Base.Dict.{lookup, insert}
use synology_mcp.Json.{
  null, bool, text, dict, end, get_or, lookup_field, truthy, or_value, first_of,
}
use synology_mcp.Errors.{ok, raise_for_dsm_error, plain, config_error}
use synology_mcp.Errors.Codes.{HasCode, raise_for_dsm_error_lem}
use synology_mcp.Builtins.{as_dict, or_empty, to_text, show_int}
use synology_mcp.Platform.{response}
use synology_mcp.Config.Env.{
  collect_env_for_host, env_text, empty_overlay, coerce_int, coerce_float, get_host, complete,
  merge, overlay_of, is_blank,
}
use synology_mcp.Config.Env.Precedence.{IsResolved, get_host-IsResolved}
use synology_mcp.Session.{state_of, get, put, SessionCache, SshClient}
use synology_mcp.Exec.{Exec}
use synology_mcp.Helpers.{Envelope}
use synology_mcp.Exec.{throw, ◌>>=◌, try_with}
use synology_mcp.Transport.Envelope.{read_reply}
use synology_mcp.Transport.Envelope.Checked.{read_reply-success}
use synology_mcp.Transport.Http.{call, request_of}
use synology_mcp.Auth.{get_http_client, info_call, fetch_dsm_major_minor, perform_login, call_dsm}
use synology_mcp.Auth.Login.{read_login, read_session, read_version, search_version}
use synology_mcp.Auth.Stored.{session_at, perform_login-stored}
use synology_mcp.Auth.Kept.{call_dsm-session_at}
use synology_mcp.Tests.World.{nas, config, start, ana, logged_in, answer, friendly, refusing}

perform_login-stored_example :
    (session_at (perform_login nas (text "secret") null start).1 "nas" ≡ some ana)
    × (ana.sid ≢ "")
    × (ana.user ≡ "ana")
unfolding perform_login ◌>>=◌ try_with get_http_client call request_of read_reply get_or truthy
    fetch_dsm_major_minor read_login read_session as_dict or_empty to_text or_value lookup_field
    read_version search_version first_of put get state_of lookup insert Text.starts_with
    Text.lstrip_by Text.drop Text.is_space
perform_login-stored_example =
    perform_login-stored nas (text "secret") null start
      (perform_login nas (text "secret") null start).1 ana refl

call_dsm-session_at_example :
    session_at (call_dsm ⦃P = refusing⦄ config "nas" info_call logged_in).1 "nas" ≡ some ana
unfolding get_host collect_env_for_host env_text coerce_int coerce_float merge complete overlay_of
    is_blank lookup state_of get
call_dsm-session_at_example =
    call_dsm-session_at ⦃P = refusing⦄ config "nas" info_call nas logged_in ana refl refl

read_reply-success_example : truthy (get_or answer "success" (bool false)) ≡ true
unfolding read_reply get_or truthy
read_reply-success_example =
    (read_reply-success nas info_call (response (pos 200) "{}" (some (dict answer))) answer refl).0

get_host-IsResolved_example : IsResolved config "nas" empty_overlay (overlay_of (some nas)) nas
unfolding get_host collect_env_for_host env_text coerce_int coerce_float lookup merge overlay_of
    complete
get_host-IsResolved_example = get_host-IsResolved config "nas" empty_overlay nas refl refl

raise_for_dsm_error_lem_example :
    ((pos 107 ≡ pos 0) × (raise_for_dsm_error show_int (pos 107) (some "nas") end ≡ ok tt))
    ⊎ ((pos 107 ≢ pos 0)
        × HasCode
            (raise_for_dsm_error show_int (pos 107) (some "nas") end)
            (pos 107)
            (some "nas")
            end)
raise_for_dsm_error_lem_example = raise_for_dsm_error_lem show_int (pos 107) (some "nas") end

abbrev failing : Exec Envelope
failing = throw (plain config_error "no" none end)

abbrev open_client : SshClient
open_client = record { host_cfg = nas; password = text "secret"; is_open = true }

abbrev at_end : SessionCache
at_end =
    ("nas", record { session = some ana; http_client = some nas; ssh_client = some open_client })
    ∷ []
