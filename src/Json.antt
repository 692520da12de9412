-- ===== src/Json.antt =====
-- The values of a dynamic language, as JSON and TOML hand them to the program, with the built-in
-- operations that the program applies to values whose type it does not know.
use synology_mcp.Base.{
  ℕ, ◌/◌, ◌^◌, ℤ, pos, negsuc, zero, suc, String, Bool, true, false, not, List, [], ◌∷◌, Option,
  none, some, if◌then◌else◌, nat_eq, ◌==◌,
}
use synology_mcp.Base.Dict.{Dict}

-- `finite m e` is m / 2 ^ e; every finite float of Python is one of these.
pub data Float : Type 0 where
  finite : ℤ → ℕ → Float
  infinite : Bool → Float
  nan : Float

mutual
  pub data Value : Type 0 where
    null : Value
    bool : Bool → Value
    int : ℤ → Value
    float : Float → Value
    text : String → Value
    list : Items → Value
    dict : Fields → Value

  pub data Items : Type 0 where
    nil : Items
    cons : Value → Items → Items

  pub data Fields : Type 0 where
    end : Fields
    field : String → Value → Fields → Fields

abbrev pub elements : Items → List Value
elements nil = []
elements (cons v r) = v ∷ elements r

abbrev pub items : List Value → Items
items [] = nil
items (v ∷ r) = cons v (items r)

abbrev pub entries : Fields → Dict Value
entries end = []
entries (field k v r) = (k, v) ∷ entries r

abbrev pub fields : Dict Value → Fields
fields [] = end
fields ((k, v) ∷ r) = field k v (fields r)

-- a dict and a list written out
abbrev pub object : Dict Value → Value
object d = dict (fields d)

abbrev pub array : List Value → Value
array l = list (items l)

abbrev pub texts : List String → Value
texts l = list (go l)
  where
    go : List String → Items
    go [] = nil
    go (s ∷ r) = cons (text s) (go r)

abbrev pub optional : Option String → Value
optional none = null
optional (some s) = text s

is_zero : ℤ → Bool
is_zero (pos n) = nat_eq n 0
is_zero (negsuc n) = false

-- `bool(v)`, and the test of `if v`
unfoldable pub truthy : Value → Bool
unfolding is_zero
truthy null = false
truthy (bool b) = b
truthy (int n) = not (is_zero n)
truthy (float (finite m e)) = not (is_zero m)
truthy (float (infinite b)) = true
truthy (float nan) = true
truthy (text s) = not (s == "")
truthy (list nil) = false
truthy (list (cons v r)) = true
truthy (dict end) = false
truthy (dict (field k v r)) = true

-- `v or w`
unfoldable pub or_value : Value → Value → Value
unfolding truthy
or_value v w = if truthy v then v else w

unfoldable pub lookup_field : String → Fields → Option Value
lookup_field k end = none
lookup_field k (field j v r) = if j == k then some v else lookup_field k r

-- `d.get(k, w)` and `d.get(k)` of a dict
unfoldable pub get_or : Fields → String → Value → Value
unfolding lookup_field
get_or d k w = elim (lookup_field k d) [ none ↦ w | some v ↦ v ]

abbrev pub get : Fields → String → Value
get d k = get_or d k null

-- the first truthy value of the keys, as in `d.get(a) or d.get(b) or w`
unfoldable pub first_of : Fields → List String → Value → Value
unfolding or_value get_or
first_of d [] w = w
first_of d (k ∷ ks) w = or_value (get d k) (first_of d ks w)

-- `[r for r in l if isinstance(r, dict)]`
unfoldable pub dicts : Items → List Fields
dicts nil = []
dicts (cons (dict d) r) = d ∷ dicts r
dicts (cons _ r) = dicts r

-- the rows of a value that may be no list
unfoldable pub rows : Value → List Fields
unfolding dicts
rows (list l) = dicts l
rows _ = []

-- n / 2 ^ e, rounded towards zero
unfoldable pub truncate : ℤ → ℕ → ℤ
truncate (pos n) e = pos (n / 2 ^ e)
truncate (negsuc n) e = elim (suc n / 2 ^ e) [ zero ↦ pos 0 | suc k ↦ negsuc k ]
