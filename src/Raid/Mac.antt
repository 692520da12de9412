-- ===== src/Raid/Mac.antt =====
-- src/synology_mcp/raid.py: the form of a MAC address.
use Prim.Native.Char.{Char}
use Prim.Native.String.{String, [], ◌∷◌}
use synology_mcp.Base.{ℕ, zero, suc, Bool, false, ◌||◌, ◌&&◌, leb, nat_eq}
use Prim.Native.Char as Char

is_hex : Char → Bool
is_hex c =
    leb 48 (Char.code c) && leb (Char.code c) 57 || leb 97 (Char.code c) && leb (Char.code c) 102

-- two digits, and then as many groups of a colon and two digits as the number says
hex_groups : ℕ → String → Bool
unfolding is_hex
hex_groups zero (a ∷ b ∷ []) = is_hex a && is_hex b
hex_groups (suc n) (a ∷ b ∷ c ∷ s) =
    is_hex a && is_hex b && nat_eq (Char.code c) 58 && hex_groups n s
hex_groups _ _ = false

-- `_MAC_RE` matches a text without white space at its end
unfoldable pub is_mac : String → Bool
unfolding hex_groups
is_mac s = hex_groups 5 s
