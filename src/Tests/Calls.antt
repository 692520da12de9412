-- ===== src/Tests/Calls.antt =====
-- Calls of tools one after another, on one host.
use synology_mcp.Base.{◌≡◌, ◌≢◌, refl}
use synology_mcp.Base.Text
use synology_mcp.Base.Dict.{lookup, insert}
use synology_mcp.Json.{get_or, truthy, or_value, lookup_field, first_of}
use synology_mcp.Builtins.{as_dict, or_empty, to_text}
use synology_mcp.Config.Env.{
  collect_env_for_host, env_text, coerce_int, coerce_float, get_host, complete, merge, overlay_of,
  is_blank,
}
use synology_mcp.Session.{state_of, get, put}
use synology_mcp.Exec.{State, ◌>>=◌, try_with, host_state, modify}
use synology_mcp.Transport.Envelope.{read_reply}
use synology_mcp.Transport.Http.{call, request_of}
use synology_mcp.Auth.{
  perform_login, get_http_client, fetch_dsm_major_minor, auth_login, descriptor,
}
use synology_mcp.Auth.Login.{read_login, read_session, read_version, search_version}
use synology_mcp.Helpers.{success_envelope}
use synology_mcp.Server.{safe}
use synology_mcp.Exec.Costs.{total}
use synology_mcp.Auth.Reads.{writes}
use synology_mcp.Server.Tools.{Tool, dispatch, AuthTool, RaidTool, tool_body, auth_tool}
use synology_mcp.Frame.Reach.{Reaches, here, called}
use synology_mcp.Frame.Dispatch.{is_read_only}
use synology_mcp.Frame.ReadOnly.{Reaches-reads}
use synology_mcp.Frame.Sids.{Reaches-sids}
use synology_mcp.Tests.World.{config, start, ana, friendly}

abbrev after_login : State
after_login = (dispatch config "nas" (Tool.auth AuthTool.login) start).1

abbrev after_state : State
after_state = (dispatch config "nas" (Tool.raid RaidTool.state) after_login).1

calls : Reaches config is_read_only start after_state
unfolding is_read_only
calls =
    called start after_state "nas" (Tool.auth AuthTool.login) refl
      (called after_login after_state "nas" (Tool.raid RaidTool.state) refl (here after_state))

Reaches-reads_example : total writes after_state.trace ≡ total writes start.trace
Reaches-reads_example = Reaches-reads config start after_state calls

login_only : Reaches config is_read_only start after_login
unfolding is_read_only
login_only = called start after_login "nas" (Tool.auth AuthTool.login) refl (here after_login)

Reaches-sids_example : ana.sid ≢ ""
unfolding dispatch safe tool_body auth_tool auth_login host_state modify get_host
    collect_env_for_host env_text coerce_int coerce_float merge complete overlay_of is_blank
    perform_login ◌>>=◌ try_with get_http_client call request_of read_reply get_or truthy
    fetch_dsm_major_minor read_login read_session as_dict or_empty to_text or_value lookup_field
    read_version search_version first_of put get state_of lookup insert Text.starts_with
    Text.lstrip_by Text.drop Text.is_space descriptor success_envelope
Reaches-sids_example =
    Reaches-sids config is_read_only start after_login "nas" ana refl login_only refl
