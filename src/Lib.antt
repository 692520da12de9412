-- ===== src/Lib.antt =====
-- A verification library for the MCP server that manages Synology NAS hosts. A tool call resolves a
-- host from the configuration, logs in to DSM over HTTP on demand, and sends API calls or runs
-- commands over SSH. The tools that change something first check, and refuse with an answer that
-- says what to do next.
--
-- How the program is modelled:
--   * Base, Json and Builtins hold Python's lists, dicts, texts, integers, JSON values and conversions.
--     A text is a list of characters, an `int` is `ℤ`, a float is a dyadic number, infinite or nan.
--   * Platform lists what the program does not implement: the network and the NAS behind it, which may
--     answer in any way that depends on everything that has happened, and parts of Python's library
--     (Unicode's tables, base64, SHA-256, quoting, parsing of numbers, JSON). They are parameters.
--   * Exec is a tool's run: a state (the session cache and the record of the events, newest first), and
--     an answer or an exception. The state stays changed when an exception is raised.
--   * Errors: src/synology_mcp/errors.py. An exception is a `DSMError` with its class, or one of
--     Python's own.
--   * Config: src/synology_mcp/config.py. Config.Env is `get_host` and the environment, Config.File the
--     tables of the file.
--   * Session: src/synology_mcp/session.py. A client object is the settings it was made with.
--     Session.Closing is `aclose`, which closes the clients when the process ends; what httpx does to close
--     its connections has no event.
--   * Transport: src/synology_mcp/transport/http.py (`call`, `extract_warnings`) and
--     src/synology_mcp/transport/ssh.py (`run`, `close` and the connection).
--   * Helpers and Auth: src/synology_mcp/_helpers.py and src/synology_mcp/auth.py.
--   * UserHome: src/synology_mcp/user_home.py, with Enable and Disable for the two tools that change it.
--   * Ssh: src/synology_mcp/ssh.py, with Pubkey and KeysFile for keys and the file, Keys for adding and
--     removing, Port, Admin and Enable.
--   * Shares: src/synology_mcp/shares.py. Packages: src/synology_mcp/packages.py, with Probes and Status
--     for the reads, Install and Uninstall.
--   * Network: src/synology_mcp/network.py, with Sysfs and Ethtool for what is read over SSH and
--     Interfaces for the tools. Raid: src/synology_mcp/raid.py, with Disks, Mdstat and Hardware.
--     Raid's hardware readout takes its interfaces from Network, as the program does.
--   * Snapshot: src/synology_mcp/snapshot_replication.py, with Sqlite for the queries over SSH, Plans and
--     Activity.
--   * Server: the wrapper `_safe` of src/synology_mcp/server.py; Server.Tools is the table of the tools that
--     `build_app` registers, and `dispatch` a call of one.
--   * Frame: relations between the states before and after a call that hold whatever the tool does, for all
--     relations that hold of each event and of each look at and write to the cache. Frame.Dispatch has one
--     proof for each tool, which Frame.ReadOnly and Frame.Sids use for sequences of calls.
--   * Tests runs the theorems on one host.
-- A handler is one function; a part of a handler after an answer has come is a function of its own, so
-- that theorems can speak of it. Exec.Runs, Exec.Costs, Exec.Ends and Exec.Moves carry the proofs: what
-- an action does from what its parts do, what it adds to a weight of the record, what it ends in, and
-- relations between the state before and after.
--
-- Bounds: the retry of `run` is a list of two attempts. The polling of an installation is 150 rounds: the
-- program adds up its pauses of 2 seconds, and stops at 300.
-- Loops over lists and texts are structural.
--
-- The outer loop of `parse_mdstat` runs on as many rounds as there are lines.
--
-- Not modelled: times (ages of sessions, timeouts, which are among the answers of the platform), logging,
-- concurrency of two tools, reading the file of the configuration, and the start of the process. The
-- probes that `packages_list` runs side by side are modelled one after another, in the order of the rows;
-- an error that one of them raises is thus raised before the later ones have run. The digits of DSM's
-- version are taken to be ASCII.
pub mod Base
pub mod Json
pub mod Errors
pub mod Config
pub mod Platform
pub mod Session
pub mod Exec
pub mod Builtins
pub mod Transport
pub mod Helpers
pub mod Auth
pub mod UserHome
pub mod Ssh
pub mod Shares
pub mod Network
pub mod Raid
pub mod Snapshot
pub mod Packages
pub mod Server
pub mod Frame
pub mod Tests
