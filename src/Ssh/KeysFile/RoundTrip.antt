-- ===== src/Ssh/KeysFile/RoundTrip.antt =====
-- src/synology_mcp/ssh.py: the text of `authorized_keys` that is written is read back as the
-- entries that it was made from.
use Prim.Native.String.append as Append
use text.Mathlib.TextLemmas.{append_assoc}
use synology_mcp.Base.{
  String, ◌<>◌, false, List, [], ◌∷◌, All, ◌≡◌, ◌≢◌, refl, arith, eq_iff, or-false, Char,
}
use synology_mcp.Base.Text
use synology_mcp.Ssh.KeysFile.{clean_lines, entry_of, split_authorized_keys, join_authorized_keys}

-- an entry as `_split_authorized_keys` returns it: one stripped line that is no comment
abbrev pub IsEntry : String → Type 0
IsEntry e =
    (e ≢ "")
    × (Text.strip e ≡ e)
    × (Text.starts_with e "#" ≡ false)
    × (Text.text_any Text.is_line_break e ≡ false)

append-nil_left : (t : String) → "" <> t ≡ t
append-nil_left t = λ i. Append.nil t i

append-cons : (c : Char) (s t : String) → String.◌∷◌ c s <> t ≡ String.◌∷◌ c (s <> t)
append-cons c s t = λ i. Append.cons c s t i

-- a first line that has no line break in it
splitlines-line :
    (c : Char) (line rest : String)
    → Text.text_any Text.is_line_break (String.◌∷◌ c line) ≡ false
    → Text.splitlines (String.◌∷◌ c line <> String.◌∷◌ "\n" rest)
      ≡ String.◌∷◌ c line ∷ Text.splitlines rest
unfolding Text.splitlines Text.text_any
splitlines-line c String.[] rest h =
    rw
      (
        append-cons c "" (String.◌∷◌ "\n" rest),
        append-nil_left (String.◌∷◌ "\n" rest),
        (or-false (Text.is_line_break c) false h).0,
      )
      refl
splitlines-line c (String.◌∷◌ d line) rest h =
    let (first, others) =
      or-false (Text.is_line_break c) (Text.text_any Text.is_line_break (String.◌∷◌ d line)) h in
    rw
      (
        append-cons c (String.◌∷◌ d line) (String.◌∷◌ "\n" rest),
        first,
        splitlines-line d line rest others,
      )
      refl

splitlines-entry :
    (e rest : String)
    → IsEntry e
    → Text.splitlines (e <> String.◌∷◌ "\n" rest) ≡ e ∷ Text.splitlines rest
splitlines-entry String.[] rest (nonempty, _, _, _) = elim (nonempty refl) [ ]
splitlines-entry (String.◌∷◌ c line) rest (_, _, _, h) = splitlines-line c line rest h

-- the lines of the text that `_join_authorized_keys` makes
splitlines-join :
    (e : String) (es : List String)
    → All IsEntry (e ∷ es)
    → Text.splitlines (Text.join "\n" (e ∷ es) <> "\n") ≡ e ∷ es
unfolding Text.join Text.splitlines
splitlines-join e [] (h, _) = splitlines-entry e "" h
splitlines-join e (d ∷ es) (h, k) =
    rw
      (
        append_assoc e ("\n" <> Text.join "\n" (d ∷ es)) "\n",
        append-cons "\n" "" (Text.join "\n" (d ∷ es)),
        append-nil_left (Text.join "\n" (d ∷ es)),
        append-cons "\n" (Text.join "\n" (d ∷ es)) "\n",
        splitlines-entry e (Text.join "\n" (d ∷ es) <> "\n") h,
        splitlines-join d es k,
      )
      refl

clean_lines-entries : (es : List String) → All IsEntry es → clean_lines es ≡ es
unfolding clean_lines entry_of
clean_lines-entries [] h = refl
clean_lines-entries (e ∷ es) ((nonempty, stripped, plain, _), k) =
    ground (arith, clean_lines-entries es k, eq_iff e "")

-- Entries that are stripped single lines and no comments are read back in their order from the text
-- that is written for them.
pub split-join :
    (entries : List String)
    → All IsEntry entries
    → split_authorized_keys (join_authorized_keys entries) ≡ entries
unfolding split_authorized_keys join_authorized_keys Text.splitlines clean_lines
split-join [] h = refl
split-join (e ∷ es) h = rw (splitlines-join e es h) (clean_lines-entries (e ∷ es) h)
