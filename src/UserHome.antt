-- ===== src/UserHome.antt =====
-- src/synology_mcp/user_home.py: the check of the three signals.
pub mod Enable
pub mod Disable
pub mod Agreement
pub mod Affected
pub mod Reads
use synology_mcp.Base.{
  ℤ, pos, ◌==ℤ◌, ℕ, ◌+◌, nat_eq, ltb, String, ◌<>◌, ◌==◌, Char, Bool, true, false, not, ◌&&◌,
  Option, none, some, List, [], ◌∷◌, ◌++◌, if◌then◌else◌,
}
use synology_mcp.Base.Text
use synology_mcp.Json.{Value, null, bool, text, dict, Fields, end, get, truthy, object, optional}
use synology_mcp.Errors.{Exc}
use synology_mcp.Builtins.{as_dict, or_empty, repr_optional, show_bool}
use synology_mcp.Platform.{Platform, SshResult}
use synology_mcp.Config.{Config}
use synology_mcp.Session.{SshClient}
use synology_mcp.Exec.{Exec, pure, lift, ◌>>=◌, try_ssh}
use synology_mcp.Transport.Envelope.{Call, extract_warnings}
use synology_mcp.Transport.Ssh.{run}
use synology_mcp.Helpers.{Envelope, success_envelope}
use synology_mcp.Auth.{call_dsm, get_ssh_client}

-- `env.get("data") or {}` of an envelope of this module, and one of its keys
abbrev pub content_fields : Value → Fields
content_fields (dict d) = d
content_fields _ = end

abbrev pub home_enabled : Envelope → Bool
home_enabled env = truthy (get (content_fields env.content) "enabled")

abbrev pub home_get : Call
home_get = record { api = "SYNO.Core.User.Home"; method = "get"; version = pos 1; params = [] }

-- `s or None` of a text
abbrev pub some_text : String → Option String
some_text s = if s == "" then none else some s

-- the location is kept if it is a text that is not empty
abbrev location_of : Value → Option String
location_of (text s) = some_text s
location_of _ = none

pub record Signals : Type 0 where
  pub web_api_says : Bool
  pub synoinfo_says : Bool
  pub symlink_target : Option String
  pub location : Option String

abbrev bit : Bool → ℕ
bit true = 1
bit false = 0

abbrev pub present : Option String → Bool
present none = false
present (some s) = not (s == "")

-- how many of the three signals hold
unfoldable pub truthy_count : Signals → ℕ
truthy_count s = bit s.web_api_says + bit s.synoinfo_says + bit (present s.symlink_target)

unfoldable pub enabled : Signals → Bool
unfolding truthy_count
enabled s = nat_eq (truthy_count s) 3

unfoldable pub tri_value : Signals → Value
unfolding enabled
tri_value s = object (
    ("enabled", bool (enabled s))
    ∷ ("web_api_says", bool s.web_api_says)
    ∷ ("synoinfo_says", bool s.synoinfo_says)
    ∷ ("symlink_target", optional s.symlink_target)
    ∷ ("location", optional s.location)
    ∷ [])

module _ ⦃P : Platform⦄ where
  disagreement : Signals → String
  disagreement s =
      "user_home signals disagree: web_api="
      <> (show_bool s.web_api_says
          <> (", synoinfo="
              <> (show_bool s.synoinfo_says
                  <> (", symlink_target=" <> repr_optional s.symlink_target))))

  -- the two lines that are added when the signals disagree
  unfoldable pub tri_warnings : Signals → List String
  unfolding disagreement truthy_count
  tri_warnings s =
      if ltb 0 (truthy_count s) && ltb (truthy_count s) 3
      then disagreement s
        ∷ "this is the DSM 7.3 silent-no-op pattern — call user_home_enable to reconcile (Phase 3)"
        ∷ []
      else []

  abbrev is_quote : ℕ → Char → Bool
  is_quote n c = Text.char_is c n

  -- the line `userHomeEnable="yes"`
  line_says_yes : String → Bool
  line_says_yes line =
      let (_, _, raw) = Text.cut b'=' line in
      P.lower (Text.strip_by (is_quote 39) (Text.strip_by (is_quote 34) (Text.strip raw))) == "yes"

  unfoldable pub grep_synoinfo : SshClient → Exec Bool
  unfolding line_says_yes
  grep_synoinfo ssh =
      try_ssh (run ssh "grep -E '^userHomeEnable=' /etc/synoinfo.conf 2>/dev/null || true" false)
        (λ res.
          pure
            (let line = Text.strip res.stdout in if line == "" then false else line_says_yes line))
        (λ _. pure false)

  -- `_read_synoinfo_user_home`
  unfoldable pub read_synoinfo_user_home : SshClient → Exec Bool
  unfolding grep_synoinfo
  read_synoinfo_user_home ssh =
      try_ssh (run ssh "/usr/syno/bin/synogetkeyvalue /etc/synoinfo.conf userHomeEnable" false)
        (λ res.
          let val = P.lower (Text.strip res.stdout) in
          if res.exit_status ==ℤ pos 0 && not (val == "")
          then pure (val == "yes")
          else grep_synoinfo ssh)
        (λ _. grep_synoinfo ssh)

  -- `_read_homes_symlink`
  unfoldable pub read_homes_symlink : SshClient → Exec (Option String)
  read_homes_symlink ssh =
      try_ssh (run ssh "readlink /var/services/homes 2>/dev/null" false)
        (λ res. pure (some_text (Text.strip res.stdout))) (λ _. pure none)

  -- the envelope of `user_home_is_enabled`, from the answer of the web API and the signals
  unfoldable pub tri_envelope : String → Fields → Signals → Envelope
  unfolding tri_value tri_warnings
  tri_envelope host body s =
      success_envelope host (tri_value s) (extract_warnings body ++ tri_warnings s)

  -- `user_home_is_enabled`
  unfoldable pub user_home_is_enabled : Config → String → Exec Envelope
  user_home_is_enabled config host = do
    body ← call_dsm config host home_get
    data_ ← lift (as_dict (or_empty (get body "data")))
    ssh ← get_ssh_client config host
    synoinfo ← read_synoinfo_user_home ssh
    symlink ← read_homes_symlink ssh
    pure (
        tri_envelope host body (record {
          web_api_says = truthy (get data_ "enable");
          synoinfo_says = synoinfo;
          symlink_target = symlink;
          location = location_of (get data_ "location");
        }))
