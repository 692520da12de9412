-- ===== src/Base/Patterns.antt =====
-- Searches by regular expressions that the program writes, on the characters of a text.
use Prim.Native.Nat.{ℕ, ◌+◌}
use Prim.Native.Char.{Char, code}
use Prim.Native.String.{String, [], ◌∷◌}
use mathlib.Core.Bool.{Bool, true, not, ◌&&◌, ◌||◌}
use mathlib.Core.Option.{Option, none, some}
use mathlib.Core.List as L
use mathlib.Core.List.{List}
use text.Mathlib.Text.{◌==◌}
use synology_mcp.Base.Tests.{leb, nat_eq, if◌then◌else◌}
use synology_mcp.Base.Text.{lstrip, strip, starts_with, drop, text_any, text_length, char_is, cut}

-- `o or p` of options
abbrev pub or_else {ℓ} : {A : Type ℓ} → Option A → Option A → Option A
or_else none p = p
or_else (some a) p = some a

-- `\s*(?P<v>.+)$` at the start of `r`, with `v` stripped. White space alone is given back up to a
-- character that ends no line, and stripped.
unfoldable pub value_at : String → Option String
value_at r =
    let t = lstrip r in
    if t == ""
    then (if text_any (λ c. not (char_is c 10)) r then some "" else none)
    else some (strip (cut 10 t).0)

abbrev value_if : Bool → String → Option String
value_if here r = if here then value_at r else none

search_at : String → ℕ → Bool → String → Option String
search_at key n at_start [] = none
search_at key n at_start (c ∷ s) =
    let later = search_at key n (char_is c 10) s in
    or_else (value_if (at_start && starts_with (c ∷ s) key) (drop n (c ∷ s))) later

-- `re.search(r"^key\s*(?P<v>.+)$", s, re.MULTILINE)`, the group stripped, for a key that is not
-- empty
unfoldable pub first_match : String → String → Option String
unfolding search_at
first_match key s = search_at key (text_length key) true s

-- `o` and then `f`, for a pattern that continues where another ended
infixl 10 ◌>>=◌
abbrev pub ◌>>=◌ {ℓ κ} : {A : Type ℓ} {B : Type κ} → Option A → (A → Option B) → Option B
none >>= f = none
some a >>= f = f a

-- the longest run of characters at the start, and the rest
unfoldable pub span : (Char → Bool) → String → String × String
span p [] = ([], [])
span p (c ∷ s) = let (w, rest) = span p s in if p c then (c ∷ w, rest) else ([], c ∷ s)

-- a run of at least one character, as in `[...]+`
unfoldable pub span1 : (Char → Bool) → String → Option (String × String)
unfolding span
span1 p s = let (w, rest) = span p s in if w == "" then none else some (w, rest)

-- what follows the character `n`, which must stand at the start
unfoldable pub after_char : ℕ → String → Option String
after_char n [] = none
after_char n (c ∷ s) = if char_is c n then some s else none

-- the first place of the text at which the pattern matches
unfoldable pub search {ℓ} : {A : Type ℓ} → (String → Option A) → String → Option A
search match [] = match []
search match (c ∷ s) = let later = search match s in or_else (match (c ∷ s)) later

-- a character that matches the lower-case letter or sign `d` under `re.IGNORECASE`: beside the
-- capital letter the Kelvin sign, the long s, and the dotted and the dotless i
abbrev same_letter : Char → Char → Bool
same_letter c d =
    char_is c (code d)
    || leb 97 (code d) && leb (code d) 122 && nat_eq (code c + 32) (code d)
    || char_is d 107 && char_is c 8490
    || char_is d 115 && char_is c 383
    || char_is d 105 && (char_is c 304 || char_is c 305)

-- what follows the word, whose letters are lower case, without regard to case
unfoldable pub after_word : String → String → Option String
after_word [] s = some s
after_word (d ∷ w) [] = none
after_word (d ∷ w) (c ∷ s) = if same_letter c d then after_word w s else none

-- what follows the first of the words that stands at the start
unfoldable pub after_words : List String → String → Option String
unfolding after_word
after_words L.[] s = none
after_words (L.◌∷◌ w ws) s = or_else (after_word w s) (after_words ws s)
