-- ===== src/Transport/Ssh.antt =====
-- src/synology_mcp/transport/ssh.py. A client object is named by the host whose cache entry holds
-- it: `SshClient` carries its fixed fields, and whether `_client` is set is read from the cache.
-- Timeouts are not passed on: the replies may be a timeout's error at any call.
pub mod Billed
pub mod Retries
pub mod Outcome
use synology_mcp.Base.{
  ℤ, pos, ◌==ℤ◌, ℕ, nat_eq, String, ◌<>◌, Bool, true, false, not, ◌&&◌, Option, none, some, List,
  [], ◌∷◌, if◌then◌else◌,
}
use synology_mcp.Json.{Value, null, truthy}
use synology_mcp.Errors.{ssh_error}
use synology_mcp.Builtins.{show_int}
use synology_mcp.Config.{HostConfig, effective_ssh_username}
use synology_mcp.Platform.{
  Platform, SshTarget, SshResult, ExecReply, output, channel_error, socket_error, connected,
  executed, closed,
}
use synology_mcp.Session.{HostState, SshClient}
use synology_mcp.Exec.{Exec, pure, throw, ask, host_state, modify, ◌>>=◌, ◌>>◌}

abbrev if_truthy : Value → Value
if_truthy v = if truthy v then v else null

-- `connect_kwargs`, for a port
unfoldable pub target_of : HostConfig → ℤ → Value → SshTarget
unfolding effective_ssh_username
target_of c port password = record {
  hostname = c.ip;
  port = port;
  username = effective_ssh_username c;
  key_filename = if_truthy c.ssh_key_path;
  password = if_truthy password;
}

unfoldable pub target : SshClient → SshTarget
unfolding target_of
target ssh = target_of ssh.host_cfg ssh.host_cfg.ssh_port ssh.password

abbrev with_open : Bool → HostState → HostState
with_open b state = record state {
  ssh_client = elim state.ssh_client [ none ↦ none | some c ↦ some (record c { is_open = b }) ];
}

unfoldable pub set_open : SshClient → Bool → Exec (Unit {0})
set_open ssh b = modify ssh.host_cfg.name (with_open b)

abbrev client_is_open : Option SshClient → Bool
client_is_open none = false
client_is_open (some c) = c.is_open

unfoldable pub is_open : SshClient → Exec Bool
is_open ssh = do state ← host_state ssh.host_cfg.name; pure (client_is_open state.ssh_client)

-- `DSMSshClient.close`; errors of closing are suppressed
unfoldable pub close : SshClient → Exec (Unit {0})
close ssh = do
  there ← is_open ssh
  if there then (do ask (λ _. tt {0}) (λ _. closed (target ssh)); set_open ssh false) else pure tt

module _ ⦃P : Platform⦄ where
  unfoldable pub after_connect : SshClient → Option String → Exec (Unit {0})
  after_connect ssh none = set_open ssh true
  after_connect ssh (some why) = throw (
      ssh_error
        ("SSH connect failed for "
          <> (ssh.host_cfg.ip <> (":" <> (show_int ssh.host_cfg.ssh_port <> (": " <> why)))))
        (some ssh.host_cfg.name) none none none)

  -- `_ensure_client` and `_connect_sync`
  unfoldable pub ensure_client : SshClient → Exec (Unit {0})
  unfolding after_connect
  ensure_client ssh = do
    there ← is_open ssh
    if there then pure tt else (do
      why ← ask (λ t. P.ssh_connect t (target ssh)) (connected (target ssh))
      after_connect ssh why)

  unfoldable pub finish : SshClient → String → Bool → SshResult → Exec SshResult
  finish ssh command check result =
      if check && not (result.exit_status ==ℤ pos 0)
      then throw (
          ssh_error ("command exited " <> (show_int result.exit_status <> (": " <> command)))
            (some ssh.host_cfg.name) (some result.exit_status) (some result.stderr) (some command))
      else pure result

  -- `retry` is the rest of the loop
  unfoldable pub after_reply :
      SshClient → String → Bool → ℕ → Exec SshResult → ExecReply → Exec SshResult
  after_reply ssh command check attempt retry (output stdout stderr exit_status) =
      finish ssh command check
        (record { command = command; stdout = stdout; stderr = stderr; exit_status = exit_status })
  after_reply ssh command check attempt retry (channel_error why) = do
    close ssh
    if nat_eq attempt 1
        then retry
        else throw (
            ssh_error ("SSH channel error after reconnect: " <> why) (some ssh.host_cfg.name) none
              none (some command))
  after_reply ssh command check attempt retry (socket_error why) = do
    close ssh
    if nat_eq attempt 1
        then retry
        else throw (
            ssh_error ("SSH socket error after reconnect: " <> why) (some ssh.host_cfg.name) none
              none (some command))

  -- the body of `for attempt in (1, 2)`
  unfoldable pub attempts : SshClient → String → Bool → List ℕ → Exec SshResult
  unfolding after_reply finish
  attempts ssh command check [] =
      throw
        (ssh_error "SSH run exhausted retries" (some ssh.host_cfg.name) none none (some command))
  attempts ssh command check (attempt ∷ rest) =
      let retry = attempts ssh command check rest in
      do
        ensure_client ssh
        reply ← ask (λ t. P.ssh_exec t (target ssh) command) (executed (target ssh) command)
        after_reply ssh command check attempt retry reply

  -- `DSMSshClient.run`
  unfoldable pub run : SshClient → String → Bool → Exec SshResult
  unfolding attempts
  run ssh command check = attempts ssh command check (1 ∷ 2 ∷ [])
