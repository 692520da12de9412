-- ===== src/Transport/Envelope/Checked.antt =====
-- src/synology_mcp/transport/http.py: what a checked call lets through.
use synology_mcp.Base.{ℤ, String, true, false, none, some, ◌≡◌, ◌≢◌, arith, Bool-cases, inl, inr}
use synology_mcp.Json.{bool, dict, Fields, get_or, truthy}
use synology_mcp.Errors.{ok, raise_for_dsm_error}
use synology_mcp.Config.{HostConfig}
use synology_mcp.Platform.{Platform, HttpReply, timed_out, transport_failed, response}
use synology_mcp.Transport.Envelope.{Call, read_reply, raise_for_envelope}

module _ ⦃P : Platform⦄ (c : HostConfig) (call : Call) where
  raise_for_envelope-raises : (body result : Fields) → raise_for_envelope c call body ≢ ok result
  unfolding raise_for_envelope raise_for_dsm_error
  raise_for_envelope-raises body result h = ground arith

  -- A checked call that returns has read a JSON object whose `success` is truthy, and returns it
  -- as it is.
  pub read_reply-success :
      (reply : HttpReply) (body : Fields)
      → read_reply c call true reply ≡ ok body
      → (truthy (get_or body "success" (bool false)) ≡ true)
        × ((status : ℤ) × (snippet : String) × (reply ≡ response status snippet (some (dict body))))
  unfolding read_reply
  read_reply-success timed_out body h = ground arith
  read_reply-success (transport_failed why) body h = ground arith
  read_reply-success (response status snippet none) body h = ground arith
  read_reply-success (response status snippet (some (dict d))) body h =
      elim (Bool-cases (truthy (get_or d "success" (bool false)))) [
        | inl e ↦ (ground arith, (status, snippet, ground arith))
        | inr e ↦ elim (raise_for_envelope-raises d body (ground arith)) [ ]
      ]
  read_reply-success (response status snippet (some v)) body h = ground arith
