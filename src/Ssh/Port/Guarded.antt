-- ===== src/Ssh/Port/Guarded.antt =====
-- src/synology_mcp/ssh.py: when `ssh_set_port` does not change the port.
use synology_mcp.Base.{
  ℤ, ==ℤ_iff, ◌≤◌, String, ◌<>◌, ◌==◌, Bool, true, false, not, Option, none, some, ◌∷◌, ◌≡◌, ◌≢◌,
  ◌⊎◌, inl, inr, ap, refl, ◌∙◌, eq_iff, arith,
}
use synology_mcp.Base.Text
use synology_mcp.Base.Dict.{lookup, update, insert}
use synology_mcp.Json.{Value, Fields, get}
use synology_mcp.Errors.{Exc, ok, err}
use synology_mcp.Builtins.{as_dict, or_empty, int_or_none, show_int}
use synology_mcp.Platform.{Platform, SshResult}
use synology_mcp.Config.{Config}
use synology_mcp.Session.{SshClient}
use synology_mcp.Exec.{State, pure, lift, is_ssh_error}
use synology_mcp.Exec.Runs.{bind-ok, lift-ok, try_ssh-ok, try_ssh-err}
use synology_mcp.Exec.Costs.{Costs, Costs-pure, Costs-try_ssh, Costs-outcome, total}
use synology_mcp.Transport.Envelope.{extract_warnings}
use synology_mcp.Transport.Ssh.{run}
use synology_mcp.Auth.{call_dsm, get_ssh_client}
use synology_mcp.Auth.Reads.{writes, IsRead, call_dsm-reads, get_ssh_client-reads}
use synology_mcp.UserHome.Reads.{run-reads}
use synology_mcp.Ssh.Port.{
  terminal_get, same_port, port_envelope, in_use_refusal, validate_port, detect_port_in_use,
  set_port_from, ssh_set_port,
}

terminal_get-IsRead : IsRead terminal_get
unfolding IsRead update insert lookup
terminal_get-IsRead = refl

same_port-same : (old : Option ℤ) (port : ℤ) → old ≡ some port → same_port old port ≡ true
same_port-same none port h = ground arith
same_port-same (some n) port h = ground (arith, ==ℤ_iff n port)

same_port-other : (old : Option ℤ) (port : ℤ) → old ≢ some port → same_port old port ≡ false
same_port-other none port h = refl
same_port-other (some n) port h = ground (arith, ==ℤ_iff n port)

module _ ⦃P : Platform⦄ where
  detect-reads : (ssh : SshClient) (port : ℤ) → Costs writes 0 (detect_port_in_use ssh port)
  unfolding detect_port_in_use
  detect-reads ssh port =
      Costs-try_ssh _ 0 0 0 _ _ _ (omega arith) (run-reads ssh _) (λ res. Costs-pure _ 0 _)
        (λ e.
          Costs-try_ssh _ 0 0 0 _ _ _ (omega arith) (run-reads ssh _) (λ res. Costs-pure _ 0 _)
            (λ x. Costs-pure _ 0 _))

  -- the two commands, written out
  abbrev pub ss_command : ℤ → String
  ss_command port =
      "ss -lnt 'sport = :"
      <> (show_int port <> "' 2>/dev/null | awk 'NR>1 && /LISTEN/ {print $0}' | head -1")

  abbrev pub netstat_command : ℤ → String
  netstat_command port =
      "netstat -lnt 2>/dev/null | awk '/LISTEN/ && $4 ~ /:"
      <> (show_int port <> "$/ {print $0}' | head -1")

  -- `ss` prints something, or raises an SSH error and `netstat` prints something
  abbrev pub IsListed : SshClient → ℤ → State → State → Type 0
  IsListed ssh port s t =
      ((res : SshResult) × (run ssh (ss_command port) false s ≡ (ok res, t))
        × (Text.strip res.stdout ≢ ""))
      ⊎ ((e : Exc) × (u : State) × (res : SshResult) × (run ssh (ss_command port) false s
            ≡ (err e, u))
          × (is_ssh_error e ≡ true)
          × (run ssh (netstat_command port) false u ≡ (ok res, t))
          × (Text.strip res.stdout ≢ ""))

  not_blank : (out : String) → out ≢ "" → not (out == "") ≡ true
  not_blank out h = ground (arith, eq_iff out "")

  detect-IsListed :
      (ssh : SshClient) (port : ℤ) (s t : State)
      → IsListed ssh port s t
      → detect_port_in_use ssh port s ≡ (ok true, t)
  unfolding detect_port_in_use pure
  detect-IsListed ssh port s t (inl (res, h, there)) =
      try_ssh-ok _ s t _ _ res h ∙ ap (λ b. (ok b, t)) (not_blank (Text.strip res.stdout) there)
  detect-IsListed ssh port s t (inr (e, u, res, h, k, g, there)) =
      try_ssh-err _ s u _ _ e k h
      ∙ try_ssh-ok _ u t _ _ res g
      ∙ ap (λ b. (ok b, t)) (not_blank (Text.strip res.stdout) there)

  module _ (config : Config) (host : String) (requested : Value) (allow_default : Bool) (port : ℤ)
      (s s1 : State) (body current : Fields) (old : Option ℤ)
      (valid : validate_port (Option.some host) allow_default requested ≡ ok port)
      (answered : call_dsm config host terminal_get s ≡ (ok body, s1))
      (read : as_dict (or_empty (get body "data")) ≡ ok current)
      (numbered : int_or_none (get current "ssh_port") ≡ ok old) where
    set_port-after_read :
        ssh_set_port config host requested allow_default s
        ≡ set_port_from config host current old port (extract_warnings body) s1
    unfolding ssh_set_port
    set_port-after_read =
        bind-ok (lift (validate_port (Option.some host) allow_default requested)) s s _ port
          (lift-ok _ s port valid)
        ∙ bind-ok (call_dsm config host terminal_get) s s1 _ body answered
        ∙ bind-ok (lift (as_dict (or_empty (get body "data")))) s1 s1 _ current
            (lift-ok _ s1 current read)
        ∙ bind-ok (lift (int_or_none (get current "ssh_port"))) s1 s1 _ old
            (lift-ok _ s1 old numbered)

    -- For a port that is accepted and settings that are read, the port that is already set is left
    -- as it is. Another port is refused, with an SSH client, if `ss` prints a line for it, or if
    -- `ss` raises an SSH error and `netstat` prints one. In all these cases no request that changes
    -- anything is sent.
    pub ssh_set_port-guarded :
        (old ≡ some port
          → (ssh_set_port config host requested allow_default s ≡ (
            ok (
                port_envelope host false true old port
                  ("already on this port" ∷ extract_warnings body)),
            s1,
          ))
            × (total writes s1.trace ≤ total writes s.trace))
        × ((ssh : SshClient) (s2 s3 : State)
            → old ≢ some port
            → get_ssh_client config host s1 ≡ (ok ssh, s2)
            → IsListed ssh port s2 s3
            → (ssh_set_port config host requested allow_default s
                ≡ (ok (in_use_refusal host port (extract_warnings body)), s3))
              × (total writes s3.trace ≤ total writes s.trace))
    unfolding set_port_from pure
    ssh_set_port-guarded =
        let asked =
          Costs-outcome writes 0 _ s s1 _
            (call_dsm-reads config host terminal_get terminal_get-IsRead) answered in
        (
          λ same.
              (set_port-after_read ∙ rw (same_port-same old port same) refl, omega (arith, asked)),
          λ ssh s2 s3 other connected listed.
              let listening = detect-IsListed ssh port s2 s3 listed in
              (
                set_port-after_read
                    ∙ rw (same_port-other old port other) (
                        bind-ok (get_ssh_client config host) s1 s2 _ ssh connected
                        ∙ bind-ok (detect_port_in_use ssh port) s2 s3 _ true listening),
                omega (
                  arith,
                  asked,
                  Costs-outcome writes 0 _ s1 s2 _ (get_ssh_client-reads config host) connected,
                  Costs-outcome writes 0 _ s2 s3 _ (detect-reads ssh port) listening,
                ),
              ),
        )
