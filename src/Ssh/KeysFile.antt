-- ===== src/Ssh/KeysFile.antt =====
-- src/synology_mcp/ssh.py: the file `authorized_keys`, as text and over SSH.
pub mod RoundTrip
use synology_mcp.Base.{
  pos, ◌==ℤ◌, String, ◌<>◌, ◌==◌, false, ◌||◌, none, some, List, [], ◌∷◌, if◌then◌else◌,
}
use synology_mcp.Base.Text
use synology_mcp.Errors.{Exc, ssh_error}
use synology_mcp.Platform.{Platform, SshResult}
use synology_mcp.Session.{SshClient}
use synology_mcp.Exec.{Exec, pure, throw, ◌>>=◌, ◌>>◌, try_ssh}
use synology_mcp.Transport.Ssh.{run}

unfoldable pub entry_of : String → List String
entry_of raw =
    let line = Text.strip raw in if line == "" || Text.starts_with line "#" then [] else line ∷ []

unfoldable pub clean_lines : List String → List String
unfolding entry_of
clean_lines [] = []
clean_lines (raw ∷ lines) = elim (entry_of raw) [
  | [] ↦ clean_lines lines
  | line ∷ _ ↦ line ∷ clean_lines lines
]

-- `_split_authorized_keys`
unfoldable pub split_authorized_keys : String → List String
unfolding clean_lines
split_authorized_keys contents = clean_lines (Text.splitlines contents)

-- `_join_authorized_keys`
unfoldable pub join_authorized_keys : List String → String
join_authorized_keys [] = ""
join_authorized_keys (e ∷ entries) = Text.join "\n" (e ∷ entries) <> "\n"

-- `_home_ssh_dir`, `_authorized_keys_path`
unfoldable pub home_ssh_dir : String → String
home_ssh_dir user = "/var/services/homes/" <> (user <> "/.ssh")

unfoldable pub authorized_keys_path : String → String
unfolding home_ssh_dir
authorized_keys_path user = home_ssh_dir user <> "/authorized_keys"

failed_with : String → String → SshResult → Exc
failed_with message command res =
    ssh_error message none (some res.exit_status) (some res.stderr) (some command)

module _ ⦃P : Platform⦄ where
  unfoldable pub ensure_command : String → String
  ensure_command user =
      let dir = P.shell_quote (home_ssh_dir user) in
      let ak = P.shell_quote (authorized_keys_path user) in
      "set -e; mkdir -p "
      <> (dir <> (" && chmod 700 " <> (dir <> (" && touch " <> (ak <> (" && chmod 600 " <> ak))))))

  -- `_ensure_ssh_dir`
  unfoldable pub ensure_ssh_dir : SshClient → String → Exec (Unit {0})
  unfolding failed_with
  ensure_ssh_dir ssh user = do
    res ← run ssh (ensure_command user) false
    if res.exit_status ==ℤ pos 0
        then pure tt
        else throw (
            failed_with
              ("failed to ensure "
                <> (home_ssh_dir user <> " / authorized_keys exist with correct perms"))
              (ensure_command user) res)

  unfoldable pub read_command : String → String
  read_command user =
      "cat " <> (P.shell_quote (authorized_keys_path user) <> " 2>/dev/null || true")

  -- `_read_authorized_keys`
  unfoldable pub read_authorized_keys : SshClient → String → Exec String
  unfolding failed_with
  read_authorized_keys ssh user = do
    res ← run ssh (read_command user) false
    if res.exit_status ==ℤ pos 0
        then pure res.stdout
        else throw
            (failed_with ("failed to read " <> authorized_keys_path user) (read_command user) res)

  tmp_path : String → String
  tmp_path user = authorized_keys_path user <> ".synology-mcp.tmp"

  -- the command that puts `contents` in place: base64 to a temporary file, then one rename
  unfoldable pub write_command : String → String → String
  unfolding tmp_path
  write_command user contents =
      let tmp = P.shell_quote (tmp_path user) in
      "set -e; printf %s "
      <> (P.shell_quote (P.b64encode (P.encode contents))
          <> (" | base64 -d > "
              <> (tmp
                  <> (" && chmod 600 "
                      <> (tmp
                          <> (" && mv "
                              <> (tmp <> (" " <> P.shell_quote (authorized_keys_path user)))))))))

  unfoldable pub cleanup_command : String → String
  unfolding tmp_path
  cleanup_command user = "rm -f " <> P.shell_quote (tmp_path user)

  -- `_write_authorized_keys`
  unfoldable pub write_authorized_keys : SshClient → String → String → Exec (Unit {0})
  unfolding failed_with
  write_authorized_keys ssh user contents = do
    res ← run ssh (write_command user contents) false
    if res.exit_status ==ℤ pos 0 then pure tt else (do
      try_ssh (run ssh (cleanup_command user) false) (λ _. pure (tt {0})) (λ _. pure tt)
      throw (
          failed_with ("failed to write " <> authorized_keys_path user)
            (write_command user contents) res))
