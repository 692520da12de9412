-- ===== src/Network/Speed.antt =====
-- src/synology_mcp/network.py: the speed that is shown, and the warning on it.
use synology_mcp.Base.{
  ℤ, pos, leb_ℤ, ◌==ℤ◌, ==ℤ_iff, String, Bool, true, false, ◌≡◌, ◌≢◌, refl, sym, ap, ◌∙◌, arith,
  Option, none, some, Bool-cases, inl, inr, if◌then◌else◌,
}
use synology_mcp.Base.Dict.{Dict}
use synology_mcp.Errors.{ok}
use synology_mcp.Platform.{Platform}
use synology_mcp.Network.{
  WebIface, Iface, merge_iface, merged_speed, positive, speed_mismatch_warning, mismatch_of,
}

merged_speed-positive :
    (sys web : Option ℤ) (n : ℤ) → merged_speed sys web ≡ some n → positive (some n) ≡ true
unfolding merged_speed
merged_speed-positive sys web n h = go (positive sys) (positive web) refl refl h
  where
    go :
        (a b : Bool)
        → positive sys ≡ a
        → positive web ≡ b
        → (if a then sys else if b then web else none) ≡ some n
        → positive (some n) ≡ true
    go true b e f h = ap positive (sym h) ∙ e
    go false true e f h = ap positive (sym h) ∙ f
    go false false e f h = ground arith

-- what `_merge_iface` keeps of the speeds
IsMerged : WebIface → Iface → Type 0
IsMerged web full =
    (full.web_speed ≡ web.speed_mbps_web)
    × (full.speed_mbps ≡ merged_speed full.sysfs_speed full.web_speed)

module _ ⦃P : Platform⦄ where
  merge_iface-IsMerged :
      (web : WebIface) (sysfs : Dict String) (full : Iface)
      → merge_iface web sysfs ≡ ok full
      → IsMerged web full
  unfolding merge_iface IsMerged
  merge_iface-IsMerged web sysfs full h = ground arith

  -- a warning says that the speeds are known and differ, and that sysfs gives a positive one
  warned :
      (name : String) (web sys : Option ℤ)
      → mismatch_of name web sys ≢ none
      → (positive sys ≡ true) × (web ≢ sys)
  unfolding mismatch_of
  warned name none sys h = absurd (h refl)
  warned name (some a) none h = absurd (h refl)
  warned name (some a) (some b) h = elim (Bool-cases (leb_ℤ b (pos 0))) [
    | inl e ↦ absurd (h (rw e refl))
    | inr e ↦ (rw e refl, λ p. h (rw (e, (==ℤ_iff a b).1 (ground (arith, p))) refl))
  ]

  -- known speeds of which that of sysfs is positive are the same if there is no warning
  not_warned :
      (name : String) (a : ℤ) (sys : Option ℤ)
      → positive sys ≡ true
      → mismatch_of name (some a) sys ≡ none
      → sys ≡ some a
  unfolding mismatch_of
  not_warned name a none h e = ground arith
  not_warned name a (some b) h e = elim (Bool-cases (a ==ℤ b)) [
    | inl same ↦ ap some (sym ((==ℤ_iff a b).0 same))
    | inr other ↦ ground arith
  ]

  shown : (sys web : Option ℤ) → positive sys ≡ true → merged_speed sys web ≡ sys
  unfolding merged_speed
  shown sys web h = rw h refl

  module _ (name : String) (web : WebIface) (sysfs : Dict String) (full : Iface) where
    -- An interface that is merged shows no speed or a positive one; if there is a warning, it
    -- shows that of sysfs, and the web API gives another or none; and if there is no warning
    -- though both are known and that of sysfs is positive, it shows that of the web API too.
    pub merge_iface-speed :
        merge_iface web sysfs ≡ ok full
        → ((n : ℤ) → full.speed_mbps ≡ some n → positive (some n) ≡ true)
          × (speed_mismatch_warning name full ≢ none
              → (full.speed_mbps ≡ full.sysfs_speed) × (full.web_speed ≢ full.sysfs_speed))
          × ((a : ℤ)
              → web.speed_mbps_web ≡ some a
              → positive full.sysfs_speed ≡ true
              → speed_mismatch_warning name full ≡ none
              → full.speed_mbps ≡ some a)
    unfolding speed_mismatch_warning IsMerged
    merge_iface-speed h =
        let m = merge_iface-IsMerged web sysfs full h in
        (
          λ n e. merged_speed-positive full.sysfs_speed full.web_speed n (sym m.1 ∙ e),
          λ w.
              let k = warned name full.web_speed full.sysfs_speed w in
              (m.1 ∙ shown full.sysfs_speed full.web_speed k.0, k.1),
          λ a e p w.
              m.1
              ∙ shown full.sysfs_speed full.web_speed p
              ∙ not_warned name a full.sysfs_speed p
                  (ap (λ o. mismatch_of name o full.sysfs_speed) (sym (m.0 ∙ e)) ∙ w),
        )
