-- ===== src/Ssh/Admin.antt =====
-- src/synology_mcp/ssh.py: `ssh_enable_user_ssh`.
use synology_mcp.Base.{
  String, ◌==◌, Bool, true, false, Option, none, some, List, [], ◌∷◌, if◌then◌else◌,
}
use synology_mcp.Json.{
  Value, null, bool, text, list, dict, Items, nil, cons, Fields, get, truthy, object,
}
use synology_mcp.Errors.{Result, ok, ◌>>=◌}
use synology_mcp.Builtins.{as_dict, or_empty}
use synology_mcp.Helpers.{Envelope, success_envelope}

abbrev names_user : Value → String → Bool
names_user null user = true
names_user (text name) user = name == user
names_user _ user = false

-- `users[].is_admin` of the first row that is the user's or has no name
unfoldable pub admin_row : Items → String → Option Bool
admin_row nil user = none
admin_row (cons (dict entry) rest) user =
    let later = admin_row rest user in
    if names_user (get entry "name") user then some (truthy (get entry "is_admin")) else later
admin_row (cons _ rest) user = admin_row rest user

abbrev flat_admin : Value → Bool
flat_admin (bool b) = b
flat_admin _ = false

abbrev listed_admin : Value → String → Option Bool
listed_admin (list users) user = admin_row users user
listed_admin _ user = none

abbrev admin_or : Option Bool → Bool → Bool
admin_or (some b) flat = b
admin_or none flat = flat

-- `_extract_is_admin`
unfoldable pub extract_is_admin : Fields → String → Result Bool
extract_is_admin body user = do
  d ← as_dict (or_empty (get body "data"))
  ok (admin_or (listed_admin (get d "users") user) (flat_admin (get d "is_admin")))

unfoldable pub admin_envelope : String → String → Bool → List String → Envelope
admin_envelope host user added warnings =
    success_envelope host
      (object (
        ("added", bool added)
        ∷ ("user", text user)
        ∷ ("group", text "administrators")
        ∷ ("mechanism", text "administrators_group_membership")
        ∷ []))
      warnings
