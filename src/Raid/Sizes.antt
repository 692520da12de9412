-- ===== src/Raid/Sizes.antt =====
-- src/synology_mcp/raid.py: the sizes of a volume.
use synology_mcp.Base.{
  ℕ, ℤ, pos, negsuc, ◌-◌, ltb_ℤ, leb_ℤ, sub_ℤ, true, ◌≡◌, refl, sym, ◌∙◌, arith, Option, none, some,
  if◌then◌else◌,
}
use synology_mcp.Base.Dict.{Dict}
use synology_mcp.Json.{Fields}
use synology_mcp.Errors.{ok}
use synology_mcp.Platform.{Platform}
use synology_mcp.Raid.{Volume, free_size, normalize_volume}

free_size-not_negative :
    (total used : Option ℤ) (n : ℤ) → free_size total used ≡ some n → leb_ℤ (pos 0) n ≡ true
unfolding free_size
free_size-not_negative none used n h = ground arith
free_size-not_negative (some t) none n h = ground arith
free_size-not_negative (some t) (some u) n h = go (sub_ℤ t u) n h
  where
    go : (d m : ℤ) → some (if ltb_ℤ d (pos 0) then pos 0 else d) ≡ some m → leb_ℤ (pos 0) m ≡ true
    go (pos k) (pos m) e = ground arith
    go (pos k) (negsuc m) e = ground arith
    go (negsuc k) (pos m) e = ground arith
    go (negsuc k) (negsuc m) e = ground arith

free_size_lem : (t u : ℕ) → free_size (some (pos t)) (some (pos u)) ≡ some (pos (t - u))
unfolding free_size sub_ℤ
free_size_lem t u = ground arith

module _ ⦃P : Platform⦄ where
  normalize_volume-free :
      (pools : Dict Fields) (raw : Fields) (v : Volume)
      → normalize_volume pools raw ≡ ok v
      → v.size_free ≡ free_size v.size_total v.size_used
  unfolding normalize_volume
  normalize_volume-free pools raw v h = ground arith

  -- A volume's free size, when it is given, is not negative; for sizes that are not negative it is
  -- the total size less the used one, and 0 if more is used than there is; and it is left out if
  -- either size is.
  pub normalize_volume-size :
      (pools : Dict Fields) (raw : Fields) (v : Volume)
      → normalize_volume pools raw ≡ ok v
      → ((n : ℤ) → v.size_free ≡ some n → leb_ℤ (pos 0) n ≡ true)
        × ((t u : ℕ)
            → v.size_total ≡ some (pos t)
            → v.size_used ≡ some (pos u)
            → v.size_free ≡ some (pos (t - u)))
        × (v.size_total ≡ none → v.size_free ≡ none)
        × (v.size_used ≡ none → v.size_free ≡ none)
  unfolding free_size
  normalize_volume-size pools raw v h =
      let e = normalize_volume-free pools raw v h in
      (
        λ n k. free_size-not_negative v.size_total v.size_used n (sym e ∙ k),
        λ t u ht hu. e ∙ rw (ht, hu) (free_size_lem t u),
        λ ht. e ∙ rw ht refl,
        λ hu. e ∙ unknown v.size_total v.size_used hu,
      )
    where
      unknown : (t u : Option ℤ) → u ≡ none → free_size t u ≡ none
      unknown none u e = refl
      unknown (some t) none e = refl
      unknown (some t) (some u) e = ground arith
