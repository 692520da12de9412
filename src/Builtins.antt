-- ===== src/Builtins.antt =====
-- Python's conversions of a value whose type is not known, and `_int_or_none`, which raid.py,
-- network.py, shares.py, ssh.py, packages.py and snapshot_replication.py each declare alike.
use synology_mcp.Base.{
  Bool, ℤ, pos, String, true, false, Option, none, some, List, [], ◌∷◌, if◌then◌else◌, ◌==◌,
}
use synology_mcp.Json.{
  Value, null, bool, int, float, text, list, dict, finite, infinite, nan, Float, Items, nil, cons,
  Fields, end, truthy, truncate,
}
use synology_mcp.Errors.{
  Exc, raised, Result, ok, err, attribute_error, type_error, value_error, overflow_error,
}
use synology_mcp.Platform.{Platform}

-- the dict of `body.get("data") or {}`, on which the code then calls `.get`
unfoldable pub as_dict : Value → Result Fields
as_dict (dict d) = ok d
as_dict _ = err attribute_error

-- `v or {}`
unfoldable pub or_empty : Value → Value
unfolding truthy
or_empty v = if truthy v then v else dict end

module _ ⦃P : Platform⦄ where
  -- `str(v)`
  unfoldable pub to_text : Value → String
  to_text (text s) = s
  to_text v = P.show_value v

  unfoldable pub show_int : ℤ → String
  show_int n = P.show_value (int n)

  abbrev int_of_text : Option ℤ → Result ℤ
  int_of_text none = err value_error
  int_of_text (some n) = ok n

  -- `int(v)`
  unfoldable pub to_int : Value → Result ℤ
  to_int null = err type_error
  to_int (bool true) = ok (pos 1)
  to_int (bool false) = ok (pos 0)
  to_int (int n) = ok n
  to_int (float (finite m e)) = ok (truncate m e)
  to_int (float (infinite b)) = err overflow_error
  to_int (float nan) = err value_error
  to_int (text s) = int_of_text (P.parse_int s)
  to_int (list l) = err type_error
  to_int (dict d) = err type_error

  abbrev int_of_float : Option Float → Result (Option ℤ)
  int_of_float none = ok none
  int_of_float (some (finite m e)) = ok (some (truncate m e))
  int_of_float (some (infinite b)) = err overflow_error
  int_of_float (some nan) = ok none

  abbrev int_or_float : String → Option ℤ → Result (Option ℤ)
  int_or_float s (some n) = ok (some n)
  int_or_float s none = int_of_float (P.parse_float s)

  -- `_int_or_none(val)`: an `OverflowError` is not caught.
  unfoldable pub int_or_none : Value → Result (Option ℤ)
  int_or_none null = ok none
  int_or_none (bool true) = ok (some (pos 1))
  int_or_none (bool false) = ok (some (pos 0))
  int_or_none (int n) = ok (some n)
  int_or_none (float x) = int_of_float (some x)
  int_or_none (text s) = if s == "" then ok none else int_or_float s (P.parse_int s)
  int_or_none (list l) = ok none
  int_or_none (dict d) = ok none

  -- `[str(x) for x in l if x]`
  unfoldable pub truthy_texts : Items → List String
  unfolding to_text truthy
  truthy_texts nil = []
  truthy_texts (cons v r) = let rest = truthy_texts r in if truthy v then to_text v ∷ rest else rest

  -- `str(e)`
  unfoldable pub exc_text : Exc → String
  exc_text (raised e) = e.message
  exc_text e = P.show_builtin e

  -- `repr(v)` of a text or `None`, and `str(b)` of a bool
  abbrev pub repr_optional : Option String → String
  repr_optional none = "None"
  repr_optional (some s) = P.repr_text s

abbrev pub show_bool : Bool → String
show_bool true = "True"
show_bool false = "False"
