-- ===== src/Ssh/Keys/Removal.antt =====
-- src/synology_mcp/ssh.py: which entries `ssh_remove_authorized_key` takes out.
use synology_mcp.Base.{
  ◌+◌, String, false, not, List, [], ◌∷◌, ◌≡◌, refl, arith, keep, any, length, any-keep,
  length-keep-complement,
}
use synology_mcp.Platform.{Platform}
use synology_mcp.Ssh.Keys.{has_fingerprint, remove_entries}

module _ ⦃P : Platform⦄ (fp : String) where
  remove_entries-kept :
      (entries : List String)
      → (remove_entries fp entries).0 ≡ keep (λ e. not (has_fingerprint fp e)) entries
  unfolding remove_entries keep
  remove_entries-kept [] = refl
  remove_entries-kept (e ∷ entries) = ground (arith, remove_entries-kept entries)

  remove_entries-count :
      (entries : List String)
      → (remove_entries fp entries).1 ≡ length (keep (has_fingerprint fp) entries)
  unfolding remove_entries keep
  remove_entries-count [] = refl
  remove_entries-count (e ∷ entries) = ground (arith, remove_entries-count entries)

  -- The entries that stay are those without the fingerprint, in their order; none that has it
  -- stays; and the count is the number of entries that went.
  pub remove_entries_lem :
      (entries : List String)
      → ((remove_entries fp entries).0 ≡ keep (λ e. not (has_fingerprint fp e)) entries)
        × (any (has_fingerprint fp) (remove_entries fp entries).0 ≡ false)
        × (length (remove_entries fp entries).0 + (remove_entries fp entries).1 ≡ length entries)
  remove_entries_lem entries = (
    remove_entries-kept entries,
    rw (remove_entries-kept entries) (any-keep (has_fingerprint fp) entries),
    rw (remove_entries-kept entries, remove_entries-count entries)
        (omega (arith, length-keep-complement (has_fingerprint fp) entries)),
  )
