-- ===== src/Errors.antt =====
-- src/synology_mcp/errors.py: the exceptions, and results of code that may raise.
pub mod Codes
use synology_mcp.Base.{
  ℤ, pos, ◌==ℤ◌, String, ◌<>◌, Bool, Option, none, some, [], ◌∷◌, if◌then◌else◌,
}
use synology_mcp.Json.{Value, null, int, text, object, optional, dict, Fields, fields}

-- the class of a `DSMError`
pub data Kind : Type 0 where
  dsm_error config_error auth_failed otp_required permission_denied session_failed : Kind
  unsupported_dsm_version invalid_param dsm_transport_error dsm_ssh_error : Kind

pub record DsmError : Type 0 where
  pub kind : Kind
  pub message : String
  pub host : Option String
  pub dsm_error_code : Option ℤ
  pub details : Fields

-- What a statement can raise: an exception of the program, or one of Python's own.
pub data Exc : Type 0 where
  raised : DsmError → Exc
  attribute_error type_error value_error overflow_error index_error : Exc

pub data Result {ℓ} (A : Type ℓ) : Type ℓ where
  ok : A → Result A
  err : Exc → Result A

infixl 10 ◌>>=◌
abbrev pub ◌>>=◌ : {A B : Type 0} → Result A → (A → Result B) → Result B
ok value >>= rest = rest value
err e >>= rest = err e

infixl 10 ◌>>◌
abbrev pub ◌>>◌ : {B : Type 0} → Result (Unit {0}) → Result B → Result B
first >> second = first >>= λ _. second

-- the class attribute `category`
unfoldable pub category : Kind → String
category dsm_error = "internal"
category config_error = "validation"
category auth_failed = "auth"
category otp_required = "auth"
category permission_denied = "permission"
category session_failed = "auth"
category unsupported_dsm_version = "unsupported"
category invalid_param = "validation"
category dsm_transport_error = "network"
category dsm_ssh_error = "internal"

abbrev optional_int : Option ℤ → Value
optional_int none = null
optional_int (some n) = int n

-- `DSMError.to_dict`
unfoldable pub to_dict : DsmError → Value
unfolding category
to_dict e = object (
    ("category", text (category e.kind))
    ∷ ("message", text e.message)
    ∷ ("host", optional e.host)
    ∷ ("dsm_error_code", optional_int e.dsm_error_code)
    ∷ ("details", dict e.details)
    ∷ [])

-- `DSMSshError.__init__`
unfoldable pub ssh_error : String → Option String → Option ℤ → Option String → Option String → Exc
ssh_error message host exit_status stderr command = raised (record {
  kind = dsm_ssh_error;
  message = message;
  host = host;
  dsm_error_code = none;
  details = fields (
      ("exit_status", optional_int exit_status)
      ∷ ("stderr", optional stderr)
      ∷ ("command", optional command)
      ∷ []);
})

-- the constructor of the other classes, with no code
unfoldable pub plain : Kind → String → Option String → Fields → Exc
plain kind message host details = raised (record {
  kind = kind;
  message = message;
  host = host;
  dsm_error_code = none;
  details = details;
})

-- `DSM_CODE_TO_EXC.get(code, DSMError)`
unfoldable pub kind_of_code : ℤ → Kind
kind_of_code code =
    if code ==ℤ pos 101
    then invalid_param
    else if code ==ℤ pos 102
    then unsupported_dsm_version
    else if code ==ℤ pos 103
    then unsupported_dsm_version
    else if code ==ℤ pos 104
    then unsupported_dsm_version
    else if code ==ℤ pos 105
    then permission_denied
    else if code ==ℤ pos 107
    then session_failed
    else if code ==ℤ pos 119
    then session_failed
    else if code ==ℤ pos 400
    then auth_failed
    else if code ==ℤ pos 403
    then otp_required
    else dsm_error

-- `show` is Python's `str` of an int
unfoldable pub raise_for_dsm_error : (ℤ → String) → ℤ → Option String → Fields → Result (Unit {0})
raise_for_dsm_error show code host details =
    if code ==ℤ pos 0
    then ok tt
    else err (
        raised (record {
          kind = kind_of_code code;
          message = "DSM error code " <> show code;
          host = host;
          dsm_error_code = some code;
          details = details;
        }))
