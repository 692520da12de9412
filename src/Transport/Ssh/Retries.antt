-- ===== src/Transport/Ssh/Retries.antt =====
-- src/synology_mcp/transport/ssh.py: the retry of `DSMSshClient.run`.
use synology_mcp.Base.{ℕ, ◌+◌, ◌≤◌, String, Bool, arith}
use synology_mcp.Platform.{Platform, Event, executed}
use synology_mcp.Session.{SshClient}
use synology_mcp.Exec.{State}
use synology_mcp.Exec.Costs.{total}
use synology_mcp.Transport.Ssh.{run}
use synology_mcp.Transport.Ssh.Billed.{IsTariff, run-Costs}

-- 1 for a command that is executed
unfoldable pub execution : Event → ℕ
execution (executed target command reply) = 1
execution _ = 0

execution-IsTariff : IsTariff execution 1
unfolding execution
execution-IsTariff = record {
  command = λ target c r. omega arith;
  opening = λ target why. omega arith;
  closing = λ target. omega arith;
}

-- A call executes the command at most twice, whatever the connection does.
pub run-executions :
    ⦃P : Platform⦄ (ssh : SshClient) (command : String) (check : Bool) (s : State)
    → total execution (run ssh command check s).1.trace ≤ total execution s.trace + 2
run-executions ssh command check s =
    omega (arith, (run-Costs execution 1 execution-IsTariff ssh command check).at s)
