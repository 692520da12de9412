-- ===== src/Transport/Envelope.antt =====
-- src/synology_mcp/transport/http.py: what a reply is read as, and the warnings in it.
pub mod Checked
use synology_mcp.Base.{
  ℤ, pos, String, ◌<>◌, Bool, false, not, ◌&&◌, ◌==◌, none, some, List, [], ◌∷◌, ◌++◌,
  if◌then◌else◌,
}
use synology_mcp.Base.Dict.{Dict}
use synology_mcp.Base.Text
use synology_mcp.Json.{
  Value, bool, int, text, list, dict, Fields, fields, get, get_or, truthy, or_value,
}
use synology_mcp.Errors.{
  Exc, Result, ok, err, ◌>>=◌, ◌>>◌, plain, dsm_transport_error, raise_for_dsm_error,
}
use synology_mcp.Builtins.{as_dict, or_empty, show_int, to_int, truthy_texts}
use synology_mcp.Config.{HostConfig}
use synology_mcp.Platform.{Platform, HttpReply, timed_out, transport_failed, response}

pub record Call : Type 0 where
  pub api : String
  pub method : String
  pub version : ℤ
  pub params : Dict Value

module _ ⦃P : Platform⦄ where
  abbrev transport_error : HostConfig → String → Dict Value → Exc
  transport_error c message details =
      plain dsm_transport_error message (some c.name) (fields details)

  -- the exceptions of a call whose envelope says that it failed
  unfoldable pub raise_for_envelope : HostConfig → Call → Fields → Result Fields
  raise_for_envelope c call body = do
    e ← as_dict (or_empty (get body "error"))
    code ← to_int (or_value (get_or e "code" (int (pos 0))) (int (pos 0)))
    raise_for_dsm_error show_int code (some c.name)
        (fields (("api", text call.api) ∷ ("method", text call.method) ∷ ("error", dict e) ∷ []))
    err (
        transport_error c
          ("DSM reported success=false with no error code on "
            <> (call.api <> ("." <> call.method)))
          (("body", dict body) ∷ []))

  -- what a reply is read as
  unfoldable pub read_reply : HostConfig → Call → Bool → HttpReply → Result Fields
  read_reply c call check timed_out = err (
      transport_error c ("DSM call timed out: " <> (call.api <> ("." <> call.method))) (
        ("api", text call.api) ∷ ("method", text call.method) ∷ ("version", int call.version) ∷ []))
  read_reply c call check (transport_failed why) = err (
      transport_error c
        ("DSM transport error on " <> (call.api <> ("." <> (call.method <> (": " <> why)))))
        (("api", text call.api)
          ∷ ("method", text call.method)
          ∷ ("version", int call.version)
          ∷ []))
  read_reply c call check (response status body none) = err (
      transport_error c ("DSM returned non-JSON body (status=" <> (show_int status <> ")"))
        (("status_code", int status) ∷ ("body_snippet", text (Text.take 200 body)) ∷ []))
  read_reply c call check (response status _ (some (dict body))) =
      if check && not (truthy (get_or body "success" (bool false)))
      then raise_for_envelope c call body
      else ok body
  read_reply c call check (response status _ (some body)) =
      err (transport_error c "DSM JSON body is not an object" (("body", body) ∷ []))

  warnings_of : Value → List String
  warnings_of (text s) = if s == "" then [] else s ∷ []
  warnings_of (list l) = truthy_texts l
  warnings_of _ = []

  nested_warnings : Value → List String
  nested_warnings (dict d) = warnings_of (get d "warning")
  nested_warnings _ = []

  errors_of : Value → List String
  errors_of (list l) = truthy_texts l
  errors_of (text s) = s ∷ []
  errors_of _ = []

  error_warnings : Value → List String
  error_warnings (dict d) = errors_of (get d "errors")
  error_warnings _ = []

  -- `extract_warnings`
  unfoldable pub extract_warnings : Fields → List String
  unfolding warnings_of nested_warnings errors_of error_warnings
  extract_warnings envelope =
      warnings_of (get envelope "warning")
      ++ (nested_warnings (get envelope "data") ++ error_warnings (get envelope "error"))
