-- ===== src/Auth/Login.antt =====
-- src/synology_mcp/auth.py: what is sent to log in, and what the answers are read as.
pub mod Accepted
use Prim.Native.Char.{code}
use synology_mcp.Base.{
  ℤ, pos, ◌==ℤ◌, ℕ, ◌+◌, ◌*◌, ◌-◌, leb, String, ◌==◌, Char, Bool, false, not, ◌&&◌, ◌||◌, Option,
  none, some, [], ◌∷◌, if◌then◌else◌,
}
use synology_mcp.Base.Text
use synology_mcp.Base.Dict.{Dict}
use synology_mcp.Json.{
  Value, bool, int, text, dict, Fields, fields, get, get_or, truthy, or_value, first_of,
}
use synology_mcp.Errors.{
  Exc, Result, ok, err, ◌>>=◌, ◌>>◌, raised, Kind, otp_required, auth_failed, raise_for_dsm_error,
}
use synology_mcp.Builtins.{as_dict, or_empty, show_int, to_int, to_text}
use synology_mcp.Platform.{Platform}
use synology_mcp.Config.{HostConfig}
use synology_mcp.Session.{DsmSession}

unfoldable pub login_params : HostConfig → Value → Value → Dict Value
login_params c password otp_code =
    ("account", text c.account)
    ∷ ("passwd", password)
    ∷ ("session", text "FileStation")
    ∷ ("format", text "cookie")
    ∷ ("enable_syno_token", text "yes")
    ∷ (if truthy otp_code then ("otp_code", otp_code) ∷ [] else [])

abbrev is_digit : Char → Bool
is_digit c = leb 48 (code c) && leb (code c) 57

-- the digits at the front, as a number, and how many there are
digits : ℕ → String → ℕ → ℕ × ℕ × String
digits n String.[] k = (n, k, "")
digits n (String.◌∷◌ c s) k =
    let rest = digits (n * 10 + (code c - 48)) s (k + 1) in
    if is_digit c then rest else (n, k, String.◌∷◌ c s)

match_minor : ℕ → String → Option (ℕ × ℕ)
unfolding digits
match_minor major String.[] = none
match_minor major (String.◌∷◌ c s) =
    let (minor, k, _) = digits 0 s 0 in
    if Text.char_is c 46 && leb 1 k then some (major, minor) else none

-- `DSM\s+(\d+)\.(\d+)` at the front of a text; its digits are taken to be ASCII
match_version : String → Option (ℕ × ℕ)
unfolding digits match_minor
match_version s =
    let after = Text.drop 3 s in
    let (major, k, rest) = digits 0 (Text.lstrip after) 0 in
    if Text.starts_with s "DSM" && not (Text.lstrip after == after) && leb 1 k
    then match_minor major rest
    else none

abbrev or_version : Option (ℕ × ℕ) → Option (ℕ × ℕ) → Option (ℕ × ℕ)
or_version (some v) w = some v
or_version none w = w

-- `_DSM_VERSION_RE.search`
unfoldable pub search_version : String → Option (ℕ × ℕ)
unfolding match_version
search_version String.[] = none
search_version (String.◌∷◌ c s) = or_version (match_version (String.◌∷◌ c s)) (search_version s)

version_of : Value → Option (ℕ × ℕ)
version_of (text fw) = search_version fw
version_of _ = none

module _ ⦃P : Platform⦄ where
  login_refused : Kind → HostConfig → String → ℤ → Value → Exc
  login_refused kind c message code e = raised (record {
    kind = kind;
    message = message;
    host = some c.name;
    dsm_error_code = some code;
    details = fields (("error", e) ∷ []);
  })

  -- the branch `if not body.get("success", False)`: it raises, unless the code is 0
  unfoldable pub check_login : HostConfig → Fields → Result (Unit {0})
  unfolding login_refused
  check_login c body = do
    e ← as_dict (or_empty (get body "error"))
    code ← to_int (or_value (get_or e "code" (int (pos 0))) (int (pos 0)))
    if code ==ℤ pos 403
        then err
            (login_refused otp_required c "DSM requires a one-time password (2FA)" code (dict e))
        else if code ==ℤ pos 400 || code ==ℤ pos 401
        then err (login_refused auth_failed c "DSM rejected credentials" code (dict e))
        else raise_for_dsm_error show_int code (some c.name) (fields (("error", dict e) ∷ []))

  no_sid : HostConfig → Fields → Exc
  no_sid c body = raised (record {
    kind = auth_failed;
    message = "DSM login succeeded but no sid in response";
    host = some c.name;
    dsm_error_code = none;
    details = fields (("body", dict body) ∷ []);
  })

  session_of : HostConfig → String → String → DsmSession
  session_of c sid syno_token = record {
    sid = sid;
    syno_token = syno_token;
    user = c.account;
    cookies = ("id", text sid) ∷ [];
    dsm_major_minor = none;
  }

  -- the session that a login's envelope is read as
  unfoldable pub read_session : HostConfig → Fields → Result DsmSession
  unfolding no_sid session_of
  read_session c body = do
    d ← as_dict (or_empty (get body "data"))
    let sid = to_text (get_or d "sid" (text ""))
    let token =
        to_text (or_value (get_or d "synotoken" (text "")) (get_or d "syno_token" (text "")))
    if sid == "" then err (no_sid c body) else ok (session_of c sid token)

  unfoldable pub read_login : HostConfig → Fields → Result DsmSession
  read_login c body =
      if truthy (get_or body "success" (bool false))
      then read_session c body
      else (check_login c body >> read_session c body)

  -- `_fetch_dsm_major_minor` after the call
  unfoldable pub read_version : Fields → Result (Option (ℕ × ℕ))
  unfolding version_of
  read_version body =
      if truthy (get_or body "success" (bool false))
      then (do
        d ← as_dict (or_empty (get body "data"))
        ok (version_of (first_of d ("firmware_ver" ∷ "version" ∷ []) (text ""))))
      else ok none
