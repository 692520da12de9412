-- ===== src/Base/Text.antt =====
-- The methods of Python's `str` that the program uses, on the characters of a text.
use Prim.Native.Nat.{ℕ, zero, suc}
use Prim.Native.Char.{Char, code}
use Prim.Native.String.{String, [], ◌∷◌, ◌++◌ as ◌<>◌}
use mathlib.Core.Bool.{Bool, true, false, ◌&&◌, ◌||◌}
use mathlib.Core.Option.{Option, none, some}
use mathlib.Core.List as L
use mathlib.Core.List.{List}
use text.Mathlib.Text.{◌==◌}
use synology_mcp.Base.Tests.{leb, nat_eq, if◌then◌else◌}

abbrev within : ℕ → ℕ → ℕ → Bool
within lo hi n = leb lo n && leb n hi

-- `str.isspace` of one character, for all of Unicode
unfoldable pub is_space : Char → Bool
is_space c =
    let n = code c in
    within 9 13 n
    || within 28 32 n
    || nat_eq n 133
    || nat_eq n 160
    || nat_eq n 5760
    || within 8192 8202 n
    || nat_eq n 8232
    || nat_eq n 8233
    || nat_eq n 8239
    || nat_eq n 8287
    || nat_eq n 12288

-- the characters at which `str.splitlines` ends a line
unfoldable pub is_line_break : Char → Bool
is_line_break c =
    let n = code c in
    within 10 13 n || within 28 30 n || nat_eq n 133 || nat_eq n 8232 || nat_eq n 8233

abbrev pub char_is : Char → ℕ → Bool
char_is c n = nat_eq (code c) n

unfoldable pub text_any : (Char → Bool) → String → Bool
text_any p [] = false
text_any p (c ∷ s) = p c || text_any p s

-- `[ch for ch in s if p(ch)]`
unfoldable pub chars_where : (Char → Bool) → String → List String
chars_where p [] = L.[]
chars_where p (c ∷ s) = let rest = chars_where p s in if p c then L.◌∷◌ (c ∷ []) rest else rest

-- `len(s)`
unfoldable pub text_length : String → ℕ
text_length [] = 0
text_length (c ∷ s) = suc (text_length s)

unfoldable pub lstrip_by : (Char → Bool) → String → String
lstrip_by p [] = []
lstrip_by p (c ∷ s) = let rest = lstrip_by p s in if p c then rest else c ∷ s

abbrev pub lstrip : String → String
lstrip s = lstrip_by is_space s

-- what `rstrip` keeps of `c ∷ s`, given what it keeps of `s`
abbrev strip_onto : (Char → Bool) → Char → String → String
strip_onto p c [] = if p c then [] else c ∷ []
strip_onto p c (d ∷ s) = c ∷ d ∷ s

unfoldable pub rstrip_by : (Char → Bool) → String → String
rstrip_by p [] = []
rstrip_by p (c ∷ s) = strip_onto p c (rstrip_by p s)

-- `s.strip(chars)`
unfoldable pub strip_by : (Char → Bool) → String → String
unfolding lstrip_by rstrip_by
strip_by p s = rstrip_by p (lstrip_by p s)

-- `s.strip()`
unfoldable pub strip : String → String
unfolding strip_by is_space
strip s = strip_by is_space s

-- `s.startswith(p)`, on the characters
unfoldable pub starts_with : String → String → Bool
starts_with s [] = true
starts_with [] (d ∷ p) = false
starts_with (c ∷ s) (d ∷ p) = nat_eq (code c) (code d) && starts_with s p

-- `p in s`
unfoldable pub has_text : String → String → Bool
unfolding starts_with
has_text [] p = starts_with [] p
has_text (c ∷ s) p = starts_with (c ∷ s) p || has_text s p

abbrev prepend : Char → List String → List String
prepend c L.[] = L.◌∷◌ (c ∷ []) L.[]
prepend c (L.◌∷◌ l ls) = L.◌∷◌ (c ∷ l) ls

abbrev starts_with_newline : String → Bool
starts_with_newline [] = false
starts_with_newline (c ∷ s) = char_is c 10

-- `s.splitlines()`: "\r\n" ends one line
unfoldable pub splitlines : String → List String
unfolding is_line_break
splitlines [] = L.[]
splitlines (c ∷ s) =
    let rest = splitlines s in
    if is_line_break c
    then (if char_is c 13 && starts_with_newline s then rest else L.◌∷◌ "" rest)
    else prepend c rest

-- the characters before the first space, and what follows them
unfoldable pub take_word : String → String × String
take_word [] = ([], [])
take_word (c ∷ s) = let (w, rest) = take_word s in if is_space c then ([], c ∷ s) else (c ∷ w, rest)

-- `s.split(None, n)`
unfoldable pub split_space : ℕ → String → List String
unfolding lstrip_by take_word is_space
split_space zero s = let t = lstrip s in if t == "" then L.[] else L.◌∷◌ t L.[]
split_space (suc n) s =
    let t = lstrip s in
    let (w, r) = take_word t in let rest = split_space n r in if t == "" then L.[] else L.◌∷◌ w rest

-- `s.split()`: no text has more words than characters
unfoldable pub split_words : String → List String
unfolding split_space text_length
split_words s = split_space (text_length s) s

-- what stands before and after the first `n`, if there is one; `s.split(c, 1)`, `s.partition(c)`
unfoldable pub cut : ℕ → String → String × Bool × String
cut n [] = ([], false, [])
cut n (c ∷ s) =
    let (before, found, after) = cut n s in
    if char_is c n then ([], true, s) else (c ∷ before, found, after)

-- `s[:n]`
unfoldable pub take : ℕ → String → String
take zero s = []
take (suc n) [] = []
take (suc n) (c ∷ s) = c ∷ take n s

-- `s[n:]`
unfoldable pub drop : ℕ → String → String
drop zero s = s
drop (suc n) [] = []
drop (suc n) (c ∷ s) = drop n s

-- `s.split(c)`
abbrev onto_first : Char → List String → List String
onto_first c L.[] = L.◌∷◌ (c ∷ []) L.[]
onto_first c (L.◌∷◌ w ws) = L.◌∷◌ (c ∷ w) ws

unfoldable pub split_on : ℕ → String → List String
split_on n [] = L.◌∷◌ "" L.[]
split_on n (c ∷ s) =
    let rest = split_on n s in if char_is c n then L.◌∷◌ "" rest else onto_first c rest

abbrev onto : Char → Option String → Option String
onto c none = none
onto c (some s) = some (c ∷ s)

-- what stands before the suffix `p`, if `s` ends with it
unfoldable pub remove_suffix : String → String → Option String
remove_suffix [] p = if p == "" then some "" else none
remove_suffix (c ∷ s) p =
    let rest = remove_suffix s p in if (c ∷ s) == p then some "" else onto c rest

-- `sep.join(parts)`
unfoldable pub join : String → List String → String
join sep L.[] = ""
join sep (L.◌∷◌ x L.[]) = x
join sep (L.◌∷◌ x (L.◌∷◌ y ys)) = x <> (sep <> join sep (L.◌∷◌ y ys))
