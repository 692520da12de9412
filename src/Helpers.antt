-- ===== src/Helpers.antt =====
-- src/synology_mcp/_helpers.py: the envelope of a tool's answer.
use synology_mcp.Base.{String, Bool, true, false, Option, none, some, List}
use synology_mcp.Base.Dict.{Dict}
use synology_mcp.Json.{Value, object}

-- `error` is there only in what `_safe` returns.
pub record Envelope : Type 0 where
  pub is_ok : Bool
  pub host : Option String
  pub content : Value
  pub warnings : List String
  pub error : Option Value

-- `success_envelope`, and `_envelope` of auth.py
unfoldable pub success_envelope : String → Value → List String → Envelope
success_envelope host content warnings = record {
  is_ok = true;
  host = some host;
  content = content;
  warnings = warnings;
  error = none;
}

-- the dict that a tool returns when it refuses
unfoldable pub refusal_envelope : String → Dict Value → List String → Envelope
refusal_envelope host content warnings = record {
  is_ok = false;
  host = some host;
  content = object content;
  warnings = warnings;
  error = none;
}
