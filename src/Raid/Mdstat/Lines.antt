-- ===== src/Raid/Mdstat/Lines.antt =====
-- src/synology_mcp/raid.py: the patterns of the lines of /proc/mdstat.
use Prim.Native.Char.{Char}
use Prim.Native.String.{String, [], ◌∷◌}
use mathlib.Core.List as L
use synology_mcp.Base.{◌<>◌, Bool, ◌||◌, Option, none, some, List, if◌then◌else◌}
use synology_mcp.Base.Text.{char_is, is_space, starts_with, drop, lstrip, split_space}
use synology_mcp.Base.Patterns.{◌>>=◌, span1, after_char, after_word, after_words, search}
use synology_mcp.Platform.{Platform}

-- the groups of `_MD_HEADER_RE`
pub record Header : Type 0 where
  pub device : String
  pub state : String
  pub level : String
  pub members : String

-- the groups of `_MEMBER_RE`
pub record MemberMatch : Type 0 where
  pub disk : String
  pub index : String
  pub flag : Option String

-- the groups of `_RESYNC_RE` that are read
pub record ResyncMatch : Type 0 where
  pub percent : String
  pub eta : String
  pub speed : String

header_of_words : String → List String → Option Header
header_of_words device (L.◌∷◌ state (L.◌∷◌ level (L.◌∷◌ members L.[]))) =
    some (record { device = device; state = state; level = level; members = members })
header_of_words device _ = none

is_bar_char : Char → Bool
is_bar_char c = char_is c 61 || char_is c 62 || char_is c 46

is_status_char : Char → Bool
is_status_char c = char_is c 85 || char_is c 95

is_flag_char : Char → Bool
is_flag_char c = char_is c 70 || char_is c 83 || char_is c 82

flag_char : String → Option (String × String)
unfolding is_flag_char
flag_char [] = none
flag_char (c ∷ s) = if is_flag_char c then some (c ∷ [], s) else none

-- `\((?P<flag>[FSR])\)`
flag_at : String → Option String
unfolding flag_char
flag_at s = do
  r ← after_char 40 s
  (flag, after) ← flag_char r
  rest ← after_char 41 after
  some flag

status_at : String → Option String
unfolding is_status_char
status_at s = do
  r ← after_char 91 s
  (status, after) ← span1 is_status_char r
  rest ← after_char 93 after
  some status

-- the search for `_STATUS_RE`
unfoldable pub status_match : String → Option String
unfolding status_at
status_match = search status_at

-- `\s+` and `\s*`
spaces1 : String → Option String
spaces1 s = do (w, rest) ← span1 is_space s; some rest

module _ ⦃P : Platform⦄ where
  -- what `_MD_HEADER_RE` makes of a line without white space at its ends
  unfoldable pub header_match : String → Option Header
  unfolding header_of_words
  header_match line =
      if starts_with line "md"
      then (do
        (digits, r) ← span1 P.is_digit (drop 2 line)
        words ← after_char 58 (lstrip r)
        header_of_words ("md" <> digits) (split_space 2 words))
      else none

  -- `\[(?P<idx>\d+)\]` and the flag
  index_at : String → String → Option MemberMatch
  unfolding flag_at
  index_at disk s = do
    r ← after_char 91 s
    (digits, after) ← span1 P.is_digit r
    rest ← after_char 93 after
    some (record { disk = disk; index = digits; flag = flag_at rest })

  -- the shortest name, not empty, before an index; `seen` is what it holds so far
  member_from : String → String → Option MemberMatch
  unfolding index_at
  member_from seen [] = none
  member_from seen (c ∷ s) =
      let name = seen <> (c ∷ []) in
      let longer = member_from name s in elim (index_at name s) [ none ↦ longer | some m ↦ some m ]

  -- what `_MEMBER_RE` makes of a token, which holds no white space
  unfoldable pub member_match : String → Option MemberMatch
  unfolding member_from
  member_match token = member_from "" token

  is_number_char : Char → Bool
  is_number_char c = P.is_digit c || char_is c 46

  resync_at : String → Option ResyncMatch
  unfolding is_bar_char is_number_char spaces1
  resync_at s = do
    r1 ← after_char 91 s
    (bar, r2) ← span1 is_bar_char r1
    r3 ← after_char 93 r2
    r4 ← spaces1 r3
    r5 ← after_words (L.◌∷◌ "resync" (L.◌∷◌ "recovery" (L.◌∷◌ "reshape" (L.◌∷◌ "check" L.[])))) r4
    r6 ← after_char 61 (lstrip r5)
    (percent, r7) ← span1 is_number_char (lstrip r6)
    r8 ← after_char 37 r7
    r9 ← spaces1 r8
    r10 ← after_char 40 r9
    (blocks, r11) ← span1 P.is_digit r10
    r12 ← after_char 47 r11
    (total, r13) ← span1 P.is_digit r12
    r14 ← after_char 41 r13
    r15 ← spaces1 r14
    r16 ← after_word "finish=" r15
    (eta, r17) ← span1 is_number_char r16
    r18 ← after_word "min" r17
    r19 ← spaces1 r18
    r20 ← after_word "speed=" r19
    (speed, r21) ← span1 P.is_digit r20
    rest ← after_word "k/sec" r21
    some (record { percent = percent; eta = eta; speed = speed })

  -- the search for `_RESYNC_RE`
  unfoldable pub resync_match : String → Option ResyncMatch
  unfolding resync_at
  resync_match = search resync_at
