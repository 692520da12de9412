-- ===== src/Snapshot/Sqlite.antt =====
-- src/synology_mcp/snapshot_replication.py: the queries that are sent to sqlite3 over SSH.
pub mod Payload
use Prim.Native.Char.{Char, code}
use Prim.Native.String.{String, [], ◌∷◌}
use mathlib.Core.List as L
use synology_mcp.Base.{
  ℕ, pos, ◌==ℤ◌, leb, ◌<>◌, ◌==◌, Bool, true, false, ◌||◌, ◌&&◌, not, Option, none, some, List,
  ◌++◌, if◌then◌else◌,
}
use synology_mcp.Base.Dict.{Dict}
use synology_mcp.Base.Text.{char_is, strip, take, join, rstrip_by, is_space}
use synology_mcp.Json.{Value, bool, int, float, text, list, Fields, dicts}
use synology_mcp.Errors.{Exc}
use synology_mcp.Builtins.{exc_text, show_int, to_text}
use synology_mcp.Platform.{Platform, SshResult}
use synology_mcp.Session.{SshClient}
use synology_mcp.Exec.{Exec, pure, try_ssh}
use synology_mcp.Transport.Ssh.{run}

-- the rows, and the error if there was one
abbrev pub Rows : Type 0
Rows = List Fields × Option String

-- `s.replace(c, t)`
unfoldable pub replace_char : ℕ → String → String → String
replace_char n t [] = []
replace_char n t (c ∷ s) =
    let rest = replace_char n t s in if char_is c n then t <> rest else c ∷ rest

-- `_escape_printf`: backslashes, and then single quotes
unfoldable pub escape_printf : String → String
unfolding replace_char
escape_printf line = replace_char 39 "'\\''" (replace_char 92 "\\\\" line)

is_safe_char : Char → Bool
is_safe_char c =
    let n = code c in
    leb 65 n && leb n 90
    || leb 97 n && leb n 122
    || leb 48 n && leb n 57
    || char_is c 95
    || char_is c 46
    || char_is c 47
    || char_is c 58
    || char_is c 45

-- what may follow characters that are safe: `$` lets one newline stand at the end
safe_rest : String → Bool
unfolding is_safe_char
safe_rest [] = true
safe_rest (c ∷ s) = is_safe_char c && safe_rest s || char_is c 10 && s == ""

-- `_SAFE_TOKEN_RE` matches
unfoldable pub is_safe_token : String → Bool
unfolding safe_rest
is_safe_token [] = false
is_safe_token (c ∷ s) = is_safe_char c && safe_rest s

unfoldable pub quote_text : String → String
unfolding is_safe_token replace_char
quote_text s = if is_safe_token s then "'" <> (s <> "'") else "'" <> (replace_char 39 "''" s <> "'")

module _ ⦃P : Platform⦄ where
  -- `_sqlite_quote`
  unfoldable pub sqlite_quote : Value → String
  unfolding quote_text
  sqlite_quote (bool b) = if b then "1" else "0"
  sqlite_quote (int n) = show_int n
  sqlite_quote (float x) = P.show_value (float x)
  sqlite_quote v = quote_text (to_text v)

  parameter_lines : Dict Value → List String
  parameter_lines L.[] = L.[]
  parameter_lines (L.◌∷◌ (key, v) rest) =
      L.◌∷◌ (".parameter set :" <> (key <> (" " <> sqlite_quote v))) (parameter_lines rest)

  -- `sql.rstrip().rstrip(";") + ";"`
  sql_statement : String → String
  sql_statement sql = rstrip_by (λ c. char_is c 59) (rstrip_by is_space sql) <> ";"

  unfoldable pub script_lines : String → Dict Value → List String
  unfolding parameter_lines sql_statement
  script_lines sql params =
      L.◌∷◌ ".mode json" (L.◌∷◌ ".headers on" (parameter_lines params))
      ++ (L.◌∷◌ (sql_statement sql) L.[])

  unfoldable pub sqlite_command : String → String → Dict Value → String
  unfolding script_lines escape_printf
  sqlite_command db_path sql params =
      "printf '"
      <> (join "\\n" (L.map escape_printf (script_lines sql params))
          <> ("\\n' | /usr/bin/sqlite3 " <> P.shell_quote db_path))

  failed : SshResult → String
  failed res =
      "sqlite3 exit="
      <> (show_int res.exit_status
          <> (": " <> take 200 (strip (if res.stderr == "" then res.stdout else res.stderr))))

  parsed_rows : Value → Rows
  parsed_rows (list l) = (dicts l, none)
  parsed_rows _ = (L.[], some "sqlite3 JSON output is not a list")

  read_output : String → Rows
  unfolding parsed_rows
  read_output out = if out == "" then (L.[], none) else elim (P.json_loads out) [
    | none ↦ (L.[], some ("failed to parse sqlite3 JSON output: " <> P.json_error out))
    | some v ↦ parsed_rows v
  ]

  -- `_sqlite_query`
  unfoldable pub sqlite_query : SshClient → String → String → Dict Value → Exec Rows
  unfolding sqlite_command failed read_output
  sqlite_query ssh db_path sql params =
      try_ssh (run ssh (sqlite_command db_path sql params) false)
        (λ res. pure (
          if not (res.exit_status ==ℤ pos 0)
          then (L.[], some (failed res))
          else read_output (strip res.stdout)))
        (λ e. pure (L.[], some ("ssh error querying " <> (db_path <> (": " <> exc_text e)))))
