-- ===== src/Transport/Ssh/Outcome.antt =====
-- src/synology_mcp/transport/ssh.py: what `DSMSshClient.run` returns and raises.
use synology_mcp.Base.{
  false, ◌==ℤ◌, pos, ==ℤ_iff, ◌&&◌, not, if◌then◌else◌, ℕ, ◌≡◌, refl, true, String, Bool, List, [],
  ◌∷◌, arith, nat_eq, Option, none, some,
}
use synology_mcp.Errors.{Result, ok, err, ssh_error, Exc}
use synology_mcp.Platform.{
  closed, Platform, ExecReply, output, channel_error, socket_error, SshResult,
}
use synology_mcp.Session.{SshClient}
use synology_mcp.Exec.{ask, ◌>>◌, State, Exec, throw, ◌>>=◌, is_ssh_error}
use synology_mcp.Exec.Ends.{
  Ends, Ends-ask, Ends-host_state, Ends-modify, Ends-pure, Ends-throw, Ends-if, Ends-bind,
}
use synology_mcp.Transport.Ssh.{
  target, is_open, close, set_open, ensure_client, after_connect, after_reply, finish, attempts,
  run,
}

-- the result is the command's, and an exit status other than 0 is not returned by a checked call;
-- an exception is a `DSMSshError`
unfoldable pub IsOutcome : String → Bool → Result SshResult → Type 0
IsOutcome command check (ok res) =
    (res.command ≡ command) × (check ≡ true → res.exit_status ≡ pos 0)
IsOutcome command check (err e) = is_ssh_error e ≡ true

-- nothing is raised but a `DSMSshError`
abbrev RaisesSsh : {A : Type 0} → Result A → Type 0
RaisesSsh (ok a) = Unit
RaisesSsh (err e) = is_ssh_error e ≡ true

is_open-RaisesSsh : (ssh : SshClient) → Ends RaisesSsh (is_open ssh)
unfolding is_open
is_open-RaisesSsh ssh =
    Ends-bind RaisesSsh RaisesSsh _ _ (Ends-host_state _ _ (λ a. tt)) (λ e h. h)
      (λ a _. Ends-pure _ _ tt)

set_open-RaisesSsh : (ssh : SshClient) (b : Bool) → Ends RaisesSsh (set_open ssh b)
unfolding set_open
set_open-RaisesSsh ssh b = Ends-modify _ _ _ tt

close-RaisesSsh : (ssh : SshClient) → Ends RaisesSsh (close ssh)
unfolding close
close-RaisesSsh ssh =
    Ends-bind RaisesSsh RaisesSsh _ _ (is_open-RaisesSsh ssh) (λ e h. h)
      (λ there _.
        Ends-if _ there (ask (λ _. tt {0}) (λ _. closed (target ssh)) >> set_open ssh false) _
          (λ _.
            Ends-bind RaisesSsh RaisesSsh _ _ (Ends-ask _ _ _ (λ a. tt)) (λ e h. h)
              (λ _ _. set_open-RaisesSsh ssh _))
          (λ _. Ends-pure _ _ tt))

module _ ⦃P : Platform⦄ (ssh : SshClient) where
  after_connect-RaisesSsh : (why : Option String) → Ends RaisesSsh (after_connect ssh why)
  unfolding after_connect ssh_error
  after_connect-RaisesSsh none = set_open-RaisesSsh ssh _
  after_connect-RaisesSsh (some why) = Ends-throw _ _ refl

  ensure_client-RaisesSsh : Ends RaisesSsh (ensure_client ssh)
  unfolding ensure_client
  ensure_client-RaisesSsh =
      Ends-bind RaisesSsh RaisesSsh _ _ (is_open-RaisesSsh ssh) (λ e h. h)
        (λ there _.
          Ends-if _ there _ _ (λ _. Ends-pure _ _ tt)
            (λ _.
              Ends-bind RaisesSsh RaisesSsh _ _ (Ends-ask _ _ _ (λ a. tt)) (λ e h. h)
                (λ why _. after_connect-RaisesSsh why)))

  module _ (command : String) (check : Bool) where
    after_close :
        (attempt : ℕ) (retry : Exec SshResult) (e : Exc)
        → is_ssh_error e ≡ true
        → Ends (IsOutcome command check) retry
        → Ends
            (IsOutcome command check)
            (close ssh >>= λ _. if nat_eq attempt 1 then retry else throw e)
    unfolding IsOutcome
    after_close attempt retry e he h =
        Ends-bind RaisesSsh _ _ _ (close-RaisesSsh ssh) (λ x hx. hx)
          (λ _ _. Ends-if _ (nat_eq attempt 1) retry _ (λ _. h) (λ _. Ends-throw _ e he))

    finish-IsOutcome :
        (res : SshResult)
        → res.command ≡ command
        → Ends (IsOutcome command check) (finish ssh command check res)
    unfolding finish IsOutcome ssh_error
    finish-IsOutcome res h =
        Ends-if _ (check && not (res.exit_status ==ℤ pos 0)) _ _ (λ _. Ends-throw _ _ refl)
          (λ e. Ends-pure _ res (h, λ k. ground (arith, ==ℤ_iff res.exit_status (pos 0))))

    after_reply-IsOutcome :
        (attempt : ℕ) (retry : Exec SshResult) (reply : ExecReply)
        → Ends (IsOutcome command check) retry
        → Ends (IsOutcome command check) (after_reply ssh command check attempt retry reply)
    unfolding after_reply ssh_error
    after_reply-IsOutcome attempt retry (output stdout stderr exit_status) h =
        finish-IsOutcome _ refl
    after_reply-IsOutcome attempt retry (channel_error why) h = after_close attempt retry _ refl h
    after_reply-IsOutcome attempt retry (socket_error why) h = after_close attempt retry _ refl h

    attempts-IsOutcome :
        (l : List ℕ) → Ends (IsOutcome command check) (attempts ssh command check l)
    unfolding attempts ssh_error IsOutcome
    attempts-IsOutcome [] = Ends-throw _ _ refl
    attempts-IsOutcome (attempt ∷ rest) =
        Ends-bind RaisesSsh _ _ _ ensure_client-RaisesSsh (λ e h. h)
          (λ _ _.
            Ends-bind RaisesSsh _ _ _ (Ends-ask _ _ _ (λ a. tt)) (λ e h. h)
              (λ reply _. after_reply-IsOutcome attempt _ reply (attempts-IsOutcome rest)))

    -- A call that returns gives the result of its own command, with exit status 0 if the call is
    -- checked; and a call raises nothing but a `DSMSshError`.
    pub run-IsOutcome : (s : State) → IsOutcome command check (run ssh command check s).0
    unfolding run
    run-IsOutcome s = (attempts-IsOutcome (1 ∷ 2 ∷ [])).at s
