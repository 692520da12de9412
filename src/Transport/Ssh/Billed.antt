-- ===== src/Transport/Ssh/Billed.antt =====
-- src/synology_mcp/transport/ssh.py: what a run adds to a weight that counts nothing on a
-- connection but the commands.
use synology_mcp.Base.{ℕ, ◌+◌, ◌≤◌, String, Bool, List, [], ◌∷◌, arith, Option, none, some}
use synology_mcp.Platform.{
  connected, closed, executed, SshTarget, Platform, Event, ExecReply, output, channel_error,
  socket_error, SshResult,
}
use synology_mcp.Session.{SshClient}
use synology_mcp.Exec.{Exec}
use synology_mcp.Exec.Costs.{
  Costs-then, Costs, Costs-pure, Costs-throw, Costs-if, Costs-ask, Costs-host_state, Costs-modify,
  Costs-bind,
}
use synology_mcp.Transport.Ssh.{
  is_open, close, set_open, ensure_client, after_connect, after_reply, finish, attempts, run,
}

-- no event of a connection weighs anything but a command that is executed, which weighs at most `x`
pub record IsTariff (w : Event → ℕ) (x : ℕ) : Type 0 where
  pub command : (target : SshTarget) (c : String) (r : ExecReply) → w (executed target c r) ≤ x
  pub opening : (target : SshTarget) (why : Option String) → w (connected target why) ≤ 0
  pub closing : (target : SshTarget) → w (closed target) ≤ 0

-- what a list of attempts may add
abbrev pub bill : ℕ → List ℕ → ℕ
bill x [] = 0
bill x (n ∷ l) = x + bill x l

module _ (w : Event → ℕ) (x : ℕ) (tariff : IsTariff w x) where
  is_open-Costs : (ssh : SshClient) → Costs w 0 (is_open ssh)
  unfolding is_open
  is_open-Costs ssh = Costs-then _ _ _ (Costs-host_state _ _) (λ state. Costs-pure _ 0 _)

  set_open-Costs : (ssh : SshClient) (b : Bool) → Costs w 0 (set_open ssh b)
  unfolding set_open
  set_open-Costs ssh b = Costs-modify _ _ _

  close-Costs : (ssh : SshClient) → Costs w 0 (close ssh)
  unfolding close
  close-Costs ssh = Costs-then _ _ _ (is_open-Costs ssh) (λ there.
      Costs-if _ 0 _ _ _
        (Costs-then _ _ _ (Costs-ask _ 0 _ _ (λ a. tariff.closing _)) (λ _. set_open-Costs ssh _))
        (Costs-pure _ 0 _))

  module _ ⦃P : Platform⦄ (ssh : SshClient) where
    after_connect-Costs : (why : Option String) → Costs w 0 (after_connect ssh why)
    unfolding after_connect
    after_connect-Costs none = set_open-Costs ssh _
    after_connect-Costs (some why) = Costs-throw _ 0 _

    ensure_client-Costs : Costs w 0 (ensure_client ssh)
    unfolding ensure_client
    ensure_client-Costs = Costs-then _ _ _ (is_open-Costs ssh) (λ there.
        Costs-if _ 0 _ _ _ (Costs-pure _ 0 _)
          (Costs-then _ _ _ (Costs-ask _ 0 _ _ (λ a. tariff.opening _ _)) after_connect-Costs))

    module _ (command : String) (check : Bool) where
      after_reply-Costs :
          (n attempt : ℕ) (retry : Exec SshResult) (reply : ExecReply)
          → Costs w n retry
          → Costs w n (after_reply ssh command check attempt retry reply)
      unfolding after_reply finish
      after_reply-Costs n attempt retry (output stdout stderr exit_status) h =
          Costs-if _ n _ _ _ (Costs-throw _ n _) (Costs-pure _ n _)
      after_reply-Costs n attempt retry (channel_error why) h =
          Costs-bind _ 0 n n _ _ (omega arith) (close-Costs ssh)
            (λ _. Costs-if _ n _ _ _ h (Costs-throw _ n _))
      after_reply-Costs n attempt retry (socket_error why) h =
          Costs-bind _ 0 n n _ _ (omega arith) (close-Costs ssh)
            (λ _. Costs-if _ n _ _ _ h (Costs-throw _ n _))

      attempts-Costs : (l : List ℕ) → Costs w (bill x l) (attempts ssh command check l)
      unfolding attempts
      attempts-Costs [] = Costs-throw _ 0 _
      attempts-Costs (attempt ∷ rest) =
          Costs-bind _ 0 (bill x (attempt ∷ rest)) _ _ _ (omega arith) ensure_client-Costs (λ _.
            Costs-bind _ x (bill x rest) (bill x (attempt ∷ rest)) _ _ (omega arith)
              (Costs-ask _ x _ _ (λ a. tariff.command _ _ _))
              (λ reply. after_reply-Costs (bill x rest) attempt _ reply (attempts-Costs rest)))

      -- A call adds at most two commands' weight.
      pub run-Costs : Costs w (x + (x + 0)) (run ssh command check)
      unfolding run
      run-Costs = attempts-Costs (1 ∷ 2 ∷ [])
