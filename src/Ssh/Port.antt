-- ===== src/Ssh/Port.antt =====
-- src/synology_mcp/ssh.py: `ssh_set_port`.
pub mod Accepted
pub mod Guarded
use synology_mcp.Base.{
  ℤ, pos, ◌==ℤ◌, ltb_ℤ, String, ◌<>◌, ◌==◌, Bool, true, false, not, ◌||◌, Option, none, some, List,
  [], ◌∷◌, ◌++◌, if◌then◌else◌,
}
use synology_mcp.Base.Text
use synology_mcp.Base.Dict.{Dict}
use synology_mcp.Json.{
  Value, null, bool, int, text, list, Fields, get, truthy, lookup_field, object,
}
use synology_mcp.Errors.{Result, ok, err}
use synology_mcp.Builtins.{as_dict, or_empty, int_or_none, show_int}
use synology_mcp.Platform.{Platform, probed}
use synology_mcp.Config.{Config, HostConfig}
use synology_mcp.Config.Env.{get_host}
use synology_mcp.Session.{SshClient}
use synology_mcp.Exec.{Exec, pure, lift, ask, ◌>>=◌, try_ssh}
use synology_mcp.Transport.Envelope.{Call, extract_warnings}
use synology_mcp.Transport.Ssh.{run, target_of}
use synology_mcp.Helpers.{Envelope, success_envelope, refusal_envelope}
use synology_mcp.Auth.{call_dsm, get_ssh_client}
use synology_mcp.Ssh.Pubkey.{invalid}

abbrev pub terminal_get : Call
terminal_get = record { api = "SYNO.Core.Terminal"; method = "get"; version = pos 3; params = [] }

abbrev pub terminal_set : Dict Value → Call
terminal_set params = record {
  api = "SYNO.Core.Terminal";
  method = "set";
  version = pos 3;
  params = params;
}

abbrev optional_int : Option ℤ → Value
optional_int none = null
optional_int (some n) = int n

abbrev pub same_port : Option ℤ → ℤ → Bool
same_port none port = false
same_port (some n) port = n ==ℤ port

unfoldable pub port_envelope : String → Bool → Bool → Option ℤ → ℤ → List String → Envelope
port_envelope host changed verified old new warnings =
    success_envelope host
      (object (
        ("changed", bool changed)
        ∷ ("verified", bool verified)
        ∷ ("old_port", optional_int old)
        ∷ ("new_port", int new)
        ∷ []))
      warnings

unfoldable pub in_use_refusal : String → ℤ → List String → Envelope
in_use_refusal host port warnings =
    refusal_envelope host
      (("category", text "port_already_in_use")
        ∷ ("port", int port)
        ∷ (
          "next_step",
          text "pick a different port; the host already has a LISTEN socket on this one",
        )
        ∷ [])
      warnings

abbrev flag_text : Value → Value
flag_text v = text (if truthy v then "true" else "false")

-- `if key in current: payload[key] = …`
abbrev carry_flag : String → Fields → Dict Value
carry_flag key current = elim (lookup_field key current) [
  | none ↦ []
  | some v ↦ (key, flag_text v) ∷ []
]

module _ ⦃P : Platform⦄ where
  -- `_validate_port`, for an argument of any type: the port, if it is accepted
  unfoldable pub validate_port : Option String → Bool → Value → Result ℤ
  validate_port host allow_default (int port) =
      if port ==ℤ pos 22
      then (if allow_default
          then ok port
          else err (
              invalid host
                "port 22 is the well-known SSH default and is refused unless allow_default=True is passed explicitly"
                (("param", text "port") ∷ ("value", int port) ∷ [])))
      else if ltb_ℤ port (pos 1024) || ltb_ℤ (pos 65535) port
      then err (
          invalid host
            ("port must be in [1024, 65535] (or 22 with allow_default=True); got " <> show_int port)
            (("param", text "port") ∷ ("value", int port) ∷ []))
      else ok port
  validate_port host allow_default _ =
      err (invalid host "port must be an integer" (("param", text "port") ∷ []))

  -- `_detect_port_in_use`
  unfoldable pub detect_port_in_use : SshClient → ℤ → Exec Bool
  detect_port_in_use ssh port =
      try_ssh
        (run ssh
          ("ss -lnt 'sport = :"
            <> (show_int port <> "' 2>/dev/null | awk 'NR>1 && /LISTEN/ {print $0}' | head -1"))
          false)
        (λ res. pure (not (Text.strip res.stdout == "")))
        (λ _.
          try_ssh
            (run ssh
              ("netstat -lnt 2>/dev/null | awk '/LISTEN/ && $4 ~ /:"
                <> (show_int port <> "$/ {print $0}' | head -1"))
              false)
            (λ res. pure (not (Text.strip res.stdout == ""))) (λ _. pure false))

  abbrev carry_list : String → Fields → Dict Value
  carry_list key current = elim (get current key) [
    | list l ↦ (key, text (P.json_dumps (list l))) ∷ []
    | _ ↦ []
  ]

  -- `_terminal_set_payload`
  unfoldable pub terminal_set_payload : Fields → ℤ → Dict Value
  terminal_set_payload current port =
      ("enable_ssh", flag_text (get current "enable_ssh"))
      ∷ ("ssh_port", text (show_int port))
      ∷ (carry_flag "enable_telnet" current
          ++ (carry_flag "forbid_console" current
              ++ (carry_list "ssh_cipher" current
                  ++ (carry_list "ssh_kex" current ++ carry_list "ssh_mac" current))))

  -- `_verify_ssh_on_port`: `none` if the fresh handshake succeeded, or the text of its error
  unfoldable pub verify_ssh_on_port : HostConfig → ℤ → Exec (Option String)
  verify_ssh_on_port c port =
      let goal = target_of c port c.password in ask (λ t. P.ssh_handshake t goal) (probed goal)

  abbrev unverified_warning : ℤ → Option String → List String
  unverified_warning port none = []
  unverified_warning port (some why) =
      ("new port "
        <> (show_int port
            <> (" did not respond within 10s — verify firewall and connectivity in a SEPARATE session before closing your existing one (error: "
                <> (why <> ")"))))
      ∷ []

  abbrev verified : Option String → Bool
  verified none = true
  verified (some why) = false

  -- the mutation and the check after it
  unfoldable pub change_port : Config → String → Fields → Option ℤ → ℤ → List String → Exec Envelope
  change_port config host current old port warnings = do
    body ← call_dsm config host (terminal_set (terminal_set_payload current port))
    c ← lift (get_host config host)
    why ← verify_ssh_on_port c port
    pure (
        port_envelope host true (verified why) old port
          (warnings ++ (extract_warnings body ++ unverified_warning port why)))

  -- the part after the current settings are read
  unfoldable pub set_port_from :
      Config → String → Fields → Option ℤ → ℤ → List String → Exec Envelope
  set_port_from config host current old port warnings =
      if same_port old port
      then pure (port_envelope host false true old port ("already on this port" ∷ warnings))
      else (do
        ssh ← get_ssh_client config host
        in_use ← detect_port_in_use ssh port
        if in_use
            then pure (in_use_refusal host port warnings)
            else change_port config host current old port warnings)

  -- `ssh_set_port`
  unfoldable pub ssh_set_port : Config → String → Value → Bool → Exec Envelope
  ssh_set_port config host requested allow_default = do
    port ← lift (validate_port (some host) allow_default requested)
    body ← call_dsm config host terminal_get
    current ← lift (as_dict (or_empty (get body "data")))
    old ← lift (int_or_none (get current "ssh_port"))
    set_port_from config host current old port (extract_warnings body)
