-- ===== src/UserHome/Affected.antt =====
-- src/synology_mcp/user_home.py: the list of users whose keys would be orphaned.
use synology_mcp.Base.{String, Bool, true, not, ◌&&◌, List, [], ◌∷◌, ◌≡◌, refl, arith, eq_iff}
use synology_mcp.UserHome.Disable.{contains, dedupe}

unfoldable pub is_distinct : List String → Bool
is_distinct [] = true
is_distinct (x ∷ xs) = not (contains x xs) && is_distinct xs

contains-dedupe :
    (x : String) (seen names : List String)
    → contains x (dedupe seen names) ≡ (contains x names && not (contains x seen))
unfolding contains dedupe
contains-dedupe x seen [] = refl
contains-dedupe x seen (name ∷ names) =
    ground
      (arith, contains-dedupe x seen names, contains-dedupe x (name ∷ seen) names, eq_iff name x)

is_distinct-dedupe : (seen names : List String) → is_distinct (dedupe seen names) ≡ true
unfolding contains dedupe is_distinct
is_distinct-dedupe seen [] = refl
is_distinct-dedupe seen (name ∷ names) = ground (
  arith,
  is_distinct-dedupe seen names,
  is_distinct-dedupe (name ∷ seen) names,
  contains-dedupe name (name ∷ seen) names,
  eq_iff name name,
)

-- The affected users are the users found, each once.
pub dedupe_lem :
    (names : List String)
    → ((x : String) → contains x (dedupe [] names) ≡ contains x names)
      × (is_distinct (dedupe [] names) ≡ true)
unfolding contains
dedupe_lem names = (λ x. ground (arith, contains-dedupe x [] names), is_distinct-dedupe [] names)
