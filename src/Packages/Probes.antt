-- ===== src/Packages/Probes.antt =====
-- src/synology_mcp/packages.py: what is asked over SSH about a package.
use synology_mcp.Base.{
  ℤ, pos, ◌==ℤ◌, String, ◌<>◌, ◌==◌, Bool, true, false, not, ◌||◌, Option, none, some, List, [],
  ◌∷◌, if◌then◌else◌,
}
use synology_mcp.Base.Text
use synology_mcp.Json.{Value, null, text, dict, Fields, end, get, object}
use synology_mcp.Errors.{Result, ok, ◌>>=◌}
use synology_mcp.Builtins.{int_or_none, exc_text}
use synology_mcp.Platform.{Platform, SshResult}
use synology_mcp.Session.{SshClient}
use synology_mcp.Exec.{Exec, pure, lift, try_ssh}
use synology_mcp.Exec as Exec
use synology_mcp.Transport.Ssh.{run}
use synology_mcp.Shares.{optional_int}

-- the summary of `docker info` before it is a dict
pub record DockerSummary : Type 0 where
  pub server_version : String
  pub containers : Option ℤ
  pub containers_running : Option ℤ

pub record Docker : Type 0 where
  pub health : Bool
  pub permission_denied : Bool
  pub summary : Option DockerSummary
  pub error : Option String

unfoldable pub summary_value : Option DockerSummary → Value
summary_value none = null
summary_value (some d) = object (
    ("server_version", text d.server_version)
    ∷ ("containers", optional_int d.containers)
    ∷ ("containers_running", optional_int d.containers_running)
    ∷ [])

is_healthy : Option DockerSummary → Bool
is_healthy none = false
is_healthy (some d) = not (d.server_version == "")

dict_or_empty : Option Value → Fields
dict_or_empty (some (dict d)) = d
dict_or_empty _ = end

module _ ⦃P : Platform⦄ where
  -- `_parse_synopkg_status_blob`
  unfoldable pub parse_synopkg_status_blob : String → Fields
  unfolding dict_or_empty
  parse_synopkg_status_blob stdout =
      let stripped = Text.strip stdout in
      if stripped == "" then end else dict_or_empty (P.json_loads stripped)

  canonical : String → String
  canonical s =
      if s == "start" || s == "running" || s == "started" || s == "on"
      then "start"
      else if s == "stop" || s == "stopped" || s == "off"
      then "stop"
      else if s == "error" || s == "failed" || s == "fail"
      then "error"
      else s

  status_of_exit : Option ℤ → String
  status_of_exit none = "unknown"
  status_of_exit (some n) = if n ==ℤ pos 0 then "start" else "stop"

  -- `_status_from_synopkg`
  unfoldable pub status_from_synopkg : Fields → Option ℤ → String
  unfolding canonical status_of_exit
  status_from_synopkg blob exit = elim (get blob "status") [
    | text s ↦ if s == "" then status_of_exit exit else canonical (P.lower s)
    | _ ↦ status_of_exit exit
  ]

  -- `_probe_synopkg_status`: an error of SSH leaves either part empty
  unfoldable pub probe_synopkg_status : SshClient → String → Exec (Fields × Option ℤ)
  probe_synopkg_status ssh id =
      Exec.◌>>=◌
        (try_ssh (run ssh ("/usr/syno/bin/synopkg status " <> P.shell_quote id) false)
          (λ res. pure (parse_synopkg_status_blob res.stdout)) (λ e. pure end))
        (λ blob.
          Exec.◌>>=◌
            (try_ssh (run ssh ("/usr/syno/bin/synopkg is_onoff " <> P.shell_quote id) false)
              (λ res. pure (some res.exit_status)) (λ e. pure none))
            (λ exit. pure (blob, exit)))

  -- `_extract_int`
  extract_int : String → Result (Option ℤ)
  extract_int token =
      let (key, found, val) = Text.cut 61 token in int_or_none (text (Text.strip val))

  docker_summary : String → Result (Option DockerSummary)
  unfolding extract_int
  docker_summary stdout =
      let (version, found, rest) = Text.cut 124 stdout in
      let (second, more, third) = Text.cut 124 rest in
      if found
      then (do
        containers ← extract_int second
        running ← extract_int third
        ok (
            some (record {
              server_version = version;
              containers = containers;
              containers_running = running;
            })))
      else ok none

  docker_of : Option DockerSummary → String → Docker
  unfolding is_healthy
  docker_of summary stderr =
      if is_healthy summary
      then record { health = true; permission_denied = false; summary = summary; error = none }
      else if Text.has_text (P.lower stderr) "permission denied"
      then record {
        health = false;
        permission_denied = true;
        summary = summary;
        error = some stderr;
      }
      else record {
        health = false;
        permission_denied = false;
        summary = summary;
        error = some (if stderr == "" then "docker info returned no parseable output" else stderr);
      }

  -- what the output of `docker info` tells
  unfoldable pub read_docker : SshResult → Result Docker
  unfolding docker_summary docker_of
  read_docker res = do
    summary ← docker_summary (Text.strip res.stdout)
    ok (docker_of summary (Text.strip res.stderr))

  -- `_probe_container_manager_docker`
  unfoldable pub probe_container_manager_docker : SshClient → Exec Docker
  probe_container_manager_docker ssh =
      try_ssh
        (run ssh
          "/var/packages/ContainerManager/target/usr/bin/docker info --format '{{.ServerVersion}}|containers={{.Containers}}|running={{.ContainersRunning}}'"
          false)
        (λ res. lift (read_docker res))
        (λ e. pure (record {
          health = false;
          permission_denied = false;
          summary = none;
          error = some (exc_text e);
        }))

  -- `_probe_install_path`
  unfoldable pub probe_install_path : SshClient → String → Exec (Option String)
  probe_install_path ssh id =
      try_ssh
        (run ssh ("readlink -f /var/packages/" <> (P.shell_quote id <> "/target 2>/dev/null"))
          false)
        (λ res. let out = Text.strip res.stdout in pure (if out == "" then none else some out))
        (λ e. pure none)

  time_of_text : Option ℤ → Result (Option String)
  time_of_text none = ok none
  time_of_text (some epoch) = do iso ← P.iso_time epoch; ok (some iso)

  time_of_lines : List String → Result (Option String)
  unfolding time_of_text
  time_of_lines [] = ok none
  time_of_lines (line ∷ lines) = time_of_text (P.parse_int line)

  -- `_probe_last_started_at`: errors of `datetime` are not caught
  unfoldable pub probe_last_started_at : SshClient → String → Exec (Option String)
  unfolding time_of_lines
  probe_last_started_at ssh id =
      let arg = P.shell_quote id in
      try_ssh
        (run ssh
          ("stat -c '%Y' /var/packages/"
            <> (arg
                <> ("/enabled 2>/dev/null || stat -c '%Y' /var/packages/"
                    <> (arg <> "/installed_info 2>/dev/null"))))
          false)
        (λ res. lift (time_of_lines (Text.splitlines (Text.strip res.stdout)))) (λ e. pure none)
