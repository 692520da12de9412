-- ===== src/Snapshot/Sqlite/Payload.antt =====
-- src/synology_mcp/snapshot_replication.py: the script that reaches sqlite3 through the shell and
-- `printf`, whose documented rules of quoting are written out here as readers.
use Prim.Native.Char.{Char, code}
use Prim.Native.String.{String, [], ◌∷◌}
use Prim.Native.String.append as Append
use mathlib.Core.List as L
use text.Mathlib.TextEquality.{Char-path}
use text.Mathlib.TextLemmas.{append_assoc}
use synology_mcp.Base.{
  ◌<>◌, ◌≡◌, refl, ap, sym, ◌∙◌, Bool, true, false, Option, none, some, List, All, map, or-false,
  Bool-cases, inl, inr, if◌then◌else◌, arith,
}
use synology_mcp.Base.Text.{char_is, text_any, join}
use synology_mcp.Snapshot.Sqlite.{replace_char, escape_printf}

pub data Quoting : Type 0 where
  inside outside escaped : Quoting

-- the word that a POSIX shell makes of single-quoted parts and of characters behind a backslash
unfoldable pub shell_text : Quoting → String → String
shell_text q [] = []
shell_text inside (c ∷ s) =
    let quoted = shell_text inside s in
    let after = shell_text outside s in if char_is c 39 then after else c ∷ quoted
shell_text outside (c ∷ s) =
    let quoted = shell_text inside s in
    let after = shell_text outside s in
    let kept = shell_text escaped s in
    if char_is c 39 then quoted else if char_is c 92 then kept else c ∷ after
shell_text escaped (c ∷ s) = c ∷ shell_text outside s

abbrev pub onto : String → Option String → Option String
onto s none = none
onto s (some t) = some (s <> t)

-- what `printf` writes for a format, `none` for one with a directive or with an escape other than
-- a backslash and `n`; the flag says that a backslash stands before the text
unfoldable pub printf_text : Bool → String → Option String
printf_text false [] = some []
printf_text true [] = none
printf_text false (c ∷ s) =
    let plain = printf_text false s in
    let escape = printf_text true s in
    if char_is c 92 then escape else if char_is c 37 then none else onto (c ∷ []) plain
printf_text true (c ∷ s) =
    let plain = printf_text false s in
    if char_is c 92 then onto (c ∷ []) plain else if char_is c 110 then onto "\n" plain else none

-- each line, ended by a newline
unfoldable pub lines_text : List String → String
lines_text L.[] = ""
lines_text (L.◌∷◌ line lines) = line <> ("\n" <> lines_text lines)

-- no directive of `printf`
abbrev pub IsPlain : String → Type 0
IsPlain s = text_any (λ c. char_is c 37) s ≡ false

append-nil : (t : String) → "" <> t ≡ t
append-nil t = λ i. Append.nil t i

append-cons : (c : Char) (s t : String) → (c ∷ s) <> t ≡ c ∷ (s <> t)
append-cons c s t = λ i. Append.cons c s t i

four : (t : String) → "'\\''" <> t ≡ "'" ∷ ("\\" ∷ ("'" ∷ ("'" ∷ t)))
four t =
    append-cons "'" "\\''" t
    ∙ ap (λ x. "'" ∷ x)
        (append-cons "\\" "''" t
          ∙ ap (λ x. "\\" ∷ x)
              (append-cons "'" "'" t
                ∙ ap (λ x. "'" ∷ x) (append-cons "'" "" t ∙ ap (λ x. "'" ∷ x) (append-nil t))))

two : (t : String) → "\\\\" <> t ≡ "\\" ∷ ("\\" ∷ t)
two t =
    append-cons "\\" "\\" t
    ∙ ap (λ x. "\\" ∷ x) (append-cons "\\" "" t ∙ ap (λ x. "\\" ∷ x) (append-nil t))

line_end : (t : String) → "\\n" <> t ≡ "\\" ∷ ("n" ∷ t)
line_end t =
    append-cons "\\" "n" t
    ∙ ap (λ x. "\\" ∷ x) (append-cons "n" "" t ∙ ap (λ x. "n" ∷ x) (append-nil t))

is_char : (c d : Char) → char_is c (code d) ≡ true → c ≡ d
is_char c d h = Char-path c d (ground (arith, h))

shell_text-escaped :
    (s t : String) → shell_text inside (replace_char 39 "'\\''" s <> t) ≡ s <> shell_text inside t
unfolding shell_text replace_char
shell_text-escaped [] t =
    ap (shell_text inside) (append-nil t) ∙ sym (append-nil (shell_text inside t))
shell_text-escaped (c ∷ s) t = elim (Bool-cases (char_is c 39)) [
  | inl e ↦
      ap (λ b. shell_text inside ((if b then "'\\''" <> rest else c ∷ rest) <> t)) e
      ∙ ap (shell_text inside) (append_assoc "'\\''" rest t ∙ four (rest <> t))
      ∙ ap (λ x. "'" ∷ x) (shell_text-escaped s t)
      ∙ ap (λ d. d ∷ (s <> shell_text inside t)) (sym (is_char c "'" e))
      ∙ sym (append-cons c s (shell_text inside t))
  | inr e ↦
      ap (λ b. shell_text inside ((if b then "'\\''" <> rest else c ∷ rest) <> t)) e
      ∙ ap (shell_text inside) (append-cons c rest t)
      ∙ ap (λ b. if b then shell_text outside (rest <> t) else c ∷ shell_text inside (rest <> t)) e
      ∙ ap (λ x. c ∷ x) (shell_text-escaped s t)
      ∙ sym (append-cons c s (shell_text inside t))
]
  where
    rest : String
    rest = replace_char 39 "'\\''" s

onto-nil : (o : Option String) → onto "" o ≡ o
onto-nil none = refl
onto-nil (some t) = ap some (append-nil t)

onto-cons : (c : Char) (s : String) (o : Option String) → onto (c ∷ []) (onto s o) ≡ onto (c ∷ s) o
onto-cons c s none = refl
onto-cons c s (some t) =
    ap some
      (append-cons c [] (s <> t) ∙ ap (λ x. c ∷ x) (append-nil (s <> t)) ∙ sym (append-cons c s t))

printf_text-doubled :
    (s t : String)
    → IsPlain s
    → printf_text false (replace_char 92 "\\\\" s <> t) ≡ onto s (printf_text false t)
unfolding printf_text replace_char text_any
printf_text-doubled [] t h =
    ap (printf_text false) (append-nil t) ∙ sym (onto-nil (printf_text false t))
printf_text-doubled (c ∷ s) t h = elim (Bool-cases (char_is c 92)) [
  | inl e ↦
      ap (λ b. printf_text false ((if b then "\\\\" <> rest else c ∷ rest) <> t)) e
      ∙ ap (printf_text false) (append_assoc "\\\\" rest t ∙ two (rest <> t))
      ∙ ap (onto ("\\" ∷ [])) (printf_text-doubled s t (or-false (char_is c 37) _ h).1)
      ∙ ap (λ d. onto (d ∷ []) (onto s (printf_text false t))) (sym (is_char c "\\" e))
      ∙ onto-cons c s (printf_text false t)
  | inr e ↦
      ap (λ b. printf_text false ((if b then "\\\\" <> rest else c ∷ rest) <> t)) e
      ∙ ap (printf_text false) (append-cons c rest t)
      ∙ ap
          (λ b.
            if b
            then printf_text true (rest <> t)
            else if char_is c 37
            then none
            else onto (c ∷ []) (printf_text false (rest <> t)))
          e
      ∙ ap (λ b. if b then none else onto (c ∷ []) (printf_text false (rest <> t)))
          (or-false (char_is c 37) _ h).0
      ∙ ap (onto (c ∷ [])) (printf_text-doubled s t (or-false (char_is c 37) _ h).1)
      ∙ onto-cons c s (printf_text false t)
]
  where
    rest : String
    rest = replace_char 92 "\\\\" s

-- what `printf` is given after the quote that opens
payload : List String → String
payload lines = join "\\n" (map escape_printf lines) <> "\\n'"

payload-more :
    (x y : String) (ys : List String)
    → payload (L.◌∷◌ x (L.◌∷◌ y ys)) ≡ escape_printf x <> ("\\" ∷ ("n" ∷ payload (L.◌∷◌ y ys)))
unfolding payload join
payload-more x y ys =
    append_assoc (escape_printf x) ("\\n" <> rest) "\\n'"
    ∙ ap (λ t. escape_printf x <> t) (append_assoc "\\n" rest "\\n'" ∙ line_end (rest <> "\\n'"))
  where
    rest : String
    rest = join "\\n" (map escape_printf (L.◌∷◌ y ys))

-- one line is read, and then what follows it
read_line :
    (x t : String)
    → IsPlain x
    → printf_text false (shell_text inside (escape_printf x <> t))
      ≡ onto x (printf_text false (shell_text inside t))
unfolding escape_printf
read_line x t h =
    ap (printf_text false) (shell_text-escaped (replace_char 92 "\\\\" x) t)
    ∙ printf_text-doubled x (shell_text inside t) h

payload-read :
    (x : String) (lines : List String)
    → All IsPlain (L.◌∷◌ x lines)
    → printf_text false (shell_text inside (payload (L.◌∷◌ x lines)))
      ≡ some (lines_text (L.◌∷◌ x lines))
unfolding payload join shell_text printf_text lines_text
payload-read x L.[] (h, _) = read_line x "\\n'" h
payload-read x (L.◌∷◌ y ys) (h, k) =
    ap (λ t. printf_text false (shell_text inside t)) (payload-more x y ys)
    ∙ read_line x ("\\" ∷ ("n" ∷ payload (L.◌∷◌ y ys))) h
    ∙ ap (λ o. onto x (onto "\n" o)) (payload-read y ys k)

-- The shell and `printf`, by their documented rules, hand to sqlite3 exactly the lines of the
-- script, each ended by a newline, if no line has a percent sign: backslashes and single quotes
-- in a line, a plan's id among them, do not change how the rest is read. A line that has newlines
-- of its own is handed on with them.
pub escape_printf-read :
    (x : String) (lines : List String)
    → All IsPlain (L.◌∷◌ x lines)
    → printf_text false
        (shell_text outside ("'" <> (join "\\n" (map escape_printf (L.◌∷◌ x lines)) <> "\\n'")))
      ≡ some (lines_text (L.◌∷◌ x lines))
unfolding payload shell_text
escape_printf-read x lines h =
    ap (λ t. printf_text false (shell_text outside t))
      (append-cons "'" "" (payload (L.◌∷◌ x lines))
        ∙ ap (λ t. "'" ∷ t) (append-nil (payload (L.◌∷◌ x lines))))
    ∙ payload-read x lines h
