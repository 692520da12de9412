-- ===== src/Ssh/Enable.antt =====
-- src/synology_mcp/ssh.py: `ssh_enable_user_ssh`.
use synology_mcp.Base.{
  pos, String, Bool, true, false, Option, none, some, List, [], ◌∷◌, ◌++◌, if◌then◌else◌,
}
use synology_mcp.Json.{text, texts}
use synology_mcp.Platform.{Platform}
use synology_mcp.Config.{Config}
use synology_mcp.Exec.{Exec, pure, lift, ◌>>=◌, ◌>>◌}
use synology_mcp.Transport.Envelope.{Call, extract_warnings}
use synology_mcp.Helpers.{Envelope}
use synology_mcp.Auth.{call_dsm}
use synology_mcp.Ssh.Admin.{extract_is_admin, admin_envelope}
use synology_mcp.Ssh.Pubkey.{validate_username}
use synology_mcp.Ssh.Keys.{check_calling_user}

module _ ⦃P : Platform⦄ where
  abbrev pub admin_check : String → Call
  admin_check user = record {
    api = "SYNO.Core.Group.Member";
    method = "admin_check";
    version = pos 1;
    params = ("name", text (P.json_dumps (texts (user ∷ [])))) ∷ [];
  }

  abbrev pub admin_add : String → Call
  admin_add user = record {
    api = "SYNO.Core.Group.Member";
    method = "add";
    version = pos 1;
    params =
        ("group", text "administrators") ∷ ("name", text (P.json_dumps (texts (user ∷ [])))) ∷ [];
  }

  -- what follows the check
  unfoldable pub grant : Config → String → String → Bool → List String → Exec Envelope
  grant config host user is_admin warnings =
      if is_admin then pure (admin_envelope host user false ("already enabled" ∷ warnings)) else (do
        body ← call_dsm config host (admin_add user)
        pure (admin_envelope host user true (warnings ++ extract_warnings body)))

  unfoldable pub enable_gated : Config → String → String → Option Envelope → Exec Envelope
  enable_gated config host user (some refusal) = pure refusal
  enable_gated config host user none = do
    body ← call_dsm config host (admin_check user)
    is_admin ← lift (extract_is_admin body user)
    grant config host user is_admin (extract_warnings body)

  -- `ssh_enable_user_ssh`
  unfoldable pub ssh_enable_user_ssh : Config → String → String → Exec Envelope
  unfolding enable_gated
  ssh_enable_user_ssh config host user = do
    lift (validate_username (some host) user)
    refusal ← check_calling_user config host user
    enable_gated config host user refusal
