-- ===== src/Network/Sysfs/Last.antt =====
-- src/synology_mcp/network.py: which lines the fields of an interface are taken from.
use synology_mcp.Base.{
  String, ◌==◌, Bool, true, false, not, ◌||◌, ◌≡◌, refl, ap, ◌∙◌, Option, none, some, List, [], ◌∷◌,
  Bool-cases, inl, inr, if◌then◌else◌,
}
use synology_mcp.Base.Text
use synology_mcp.Base.Dict.{Dict, lookup, insert, lookup-insert}
use synology_mcp.Base.Patterns.{or_else}
use synology_mcp.Network.Sysfs.{read_line, read_lines}

-- what a line tells of a key: the text after its first equals sign, unless it is blank or `?`
unfoldable pub value_in : String → String → Option String
value_in key line =
    let (k, found, after) = Text.cut 61 line in
    let v = Text.strip after in
    if not found || v == "" || v == "?" then none else if Text.strip k == key then some v else none

-- what the last line that tells of the key tells of it
unfoldable pub last_value : String → List String → Option String
last_value key [] = none
last_value key (line ∷ lines) = or_else (last_value key lines) (value_in key line)

or_else_assoc : (o p q : Option String) → or_else o (or_else p q) ≡ or_else (or_else o p) q
or_else_assoc none p q = refl
or_else_assoc (some s) p q = refl

lookup-read_line :
    (key : String) (out : Dict String) (line : String)
    → lookup key (read_line out line) ≡ or_else (value_in key line) (lookup key out)
unfolding read_line value_in
lookup-read_line key out line =
    go (Text.strip (Text.cut 61 line).0) (Text.strip (Text.cut 61 line).2) (
      not (Text.cut 61 line).1
      || Text.strip (Text.cut 61 line).2 == ""
      || Text.strip (Text.cut 61 line).2 == "?")
  where
    go :
        (k v : String) (skipped : Bool)
        → lookup key (if skipped then out else insert k v out)
          ≡ or_else (if skipped then none else if k == key then some v else none) (lookup key out)
    go k v true = refl
    go k v false = elim (Bool-cases (k == key)) [
      | inl e ↦ lookup-insert k key v out ∙ rw e refl
      | inr e ↦ lookup-insert k key v out ∙ rw e refl
    ]

lookup-read_lines :
    (key : String) (lines : List String) (out : Dict String)
    → lookup key (read_lines out lines) ≡ or_else (last_value key lines) (lookup key out)
unfolding read_lines last_value
lookup-read_lines key [] out = refl
lookup-read_lines key (line ∷ lines) out =
    lookup-read_lines key lines (read_line out line)
    ∙ ap (or_else (last_value key lines)) (lookup-read_line key out line)
    ∙ or_else_assoc (last_value key lines) (value_in key line) (lookup key out)

or_else-none : (o : Option String) → or_else o none ≡ o
or_else-none none = refl
or_else-none (some s) = refl

-- The dict that is read from the output is the map that gives each key what the last line that
-- tells of it tells, and no other key: blank values, question marks and lines without an equals
-- sign tell nothing.
pub read_lines-last :
    (key : String) (lines : List String) → lookup key (read_lines [] lines) ≡ last_value key lines
unfolding lookup
read_lines-last key lines = lookup-read_lines key lines [] ∙ or_else-none (last_value key lines)
