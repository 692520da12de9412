-- ===== src/Shares/Names/Matches.antt =====
-- src/synology_mcp/shares.py: the search for a share, and when its settings are compatible.
use synology_mcp.Base.{
  String, ◌==◌, true, false, none, some, List, [], ◌∷◌, ◌≡◌, ◌↔◌, arith, eq_iff, is_empty, any,
}
use synology_mcp.Platform.{Platform}
use synology_mcp.Shares.{ShareRow}
use synology_mcp.Shares.Names.{Request, mismatches, find_existing_share}

-- The row that is found has the name, and none is found exactly if no row has it.
pub find_existing_share_lem :
    (rows : List ShareRow) (name : String)
    → ((row : ShareRow) → find_existing_share rows name ≡ some row → row.name ≡ name)
      × ((find_existing_share rows name ≡ none) ↔ (any (λ r. r.name == name) rows ≡ false))
unfolding find_existing_share any
find_existing_share_lem [] name = ground arith
find_existing_share_lem (r ∷ rows) name =
    ground (arith, find_existing_share_lem rows name, eq_iff r.name name)

module _ ⦃P : Platform⦄ where
  -- No mismatch is listed exactly if volume, encryption and recycle bin all agree.
  pub mismatches_iff :
      (row : ShareRow) (r : Request)
      → (is_empty (mismatches row r) ≡ true) ↔ (
          (row.volume ≡ r.volume)
          × (row.encrypted ≡ r.encrypted)
          × (row.recycle_bin_enabled ≡ r.recycle_bin_enabled))
  unfolding mismatches is_empty
  mismatches_iff row r = ground (arith, eq_iff row.volume r.volume)
