-- ===== src/Transport/Http.antt =====
-- src/synology_mcp/transport/http.py
use synology_mcp.Base.{String, ◌<>◌, Bool, ◌==◌, Option, none, some, [], ◌∷◌, if◌then◌else◌}
use synology_mcp.Base.Dict.{Dict, update}
use synology_mcp.Json.{Value, int, text, Fields}
use synology_mcp.Builtins.{show_int}
use synology_mcp.Config.{HostConfig}
use synology_mcp.Transport.Envelope.{Call, read_reply}
use synology_mcp.Platform.{Platform, HttpRequest, sent}
use synology_mcp.Session.{DsmSession}
use synology_mcp.Exec.{Exec, lift, ask, ◌>>=◌}

-- the headers and the cookies of a call; `X-SYNO-TOKEN` and `id` are added only if there is a value
unfoldable pub headers_of : Option DsmSession → Dict Value
headers_of none = []
headers_of (some s) = if s.syno_token == "" then [] else ("X-SYNO-TOKEN", text s.syno_token) ∷ []

abbrev sid_cookie : String → Dict Value
sid_cookie sid = if sid == "" then [] else ("id", text sid) ∷ []

unfoldable pub cookies_of : Option DsmSession → Dict Value
cookies_of none = []
cookies_of (some s) = elim s.cookies [ [] ↦ sid_cookie s.sid | c ∷ r ↦ c ∷ r ]

module _ ⦃P : Platform⦄ where
  -- `HostConfig.base_url`
  unfoldable pub base_url : HostConfig → String
  base_url c =
      (if c.use_https then "https" else "http") <> ("://" <> (c.ip <> (":" <> show_int c.port)))

  unfoldable pub request_of : HostConfig → Call → Option DsmSession → HttpRequest
  unfolding headers_of cookies_of base_url
  request_of c call session = record {
    base_url = base_url c;
    path = "/webapi/entry.cgi";
    params =
        update
          (("api", text call.api)
            ∷ ("method", text call.method)
            ∷ ("version", int call.version)
            ∷ [])
          call.params;
    headers = headers_of session;
    cookies = cookies_of session;
  }

  -- `DSMHttpClient.call`; `check` is `raise_on_dsm_error`
  unfoldable pub call : HostConfig → Call → Option DsmSession → Bool → Exec Fields
  call c request session check = do
    let sent_request = request_of c request session
    reply ← ask (λ t. P.http_get t sent_request) (sent sent_request)
    lift (read_reply c request check reply)
