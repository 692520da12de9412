-- ===== src/Packages/Uninstall/Guarded.antt =====
-- src/synology_mcp/packages.py: the denylist of `packages_uninstall`.
use mathlib.Core.List.{Memᴰ}
use mathlib.Core.List.Memᴰ.{head, tail}
use synology_mcp.Base.{
  pos, String, ◌==◌, Bool, true, false, none, some, List, [], ◌∷◌, ◌≡◌, ◌⊎◌, ap, refl, sym, ◌∙◌,
  eq_iff, eq_refl, Bool-cases, Option-cases, inl, inr, arith,
}
use synology_mcp.Base.Dict.{Dict, lookup}
use synology_mcp.Json.{Fields, get, text, dict, truthy}
use synology_mcp.Errors.{Result, ok, err, raised, DsmError, unsupported_dsm_version}
use synology_mcp.Builtins.{as_dict, or_empty}
use synology_mcp.Platform.{Platform}
use synology_mcp.Config.{Config}
use synology_mcp.Exec.{State, pure}
use synology_mcp.Exec.Runs.{bind-ok, lift-ok, try-ok, try-err}
use synology_mcp.Transport.Envelope.{Call}
use synology_mcp.Auth.{call_dsm}
use synology_mcp.Packages.{
  uninstall_denylist, installed_row, is_not_installed_error, get_installed_package,
}
use synology_mcp.Packages.Uninstall.{
  denylist_refusal, absent_envelope, uninstall_allowed, uninstall_checked, packages_uninstall,
}

-- the packages that are protected, written out
abbrev pub protected : List String
protected =
    "ContainerManager" ∷ "Docker" ∷ "SnapshotReplication" ∷ "ReplicationService" ∷ "HyperBackup"
    ∷ "HyperBackupVault" ∷ "StorageManager" ∷ "WebStation" ∷ "Apache22" ∷ "Apache24" ∷ "MariaDB10"
    ∷ "MariaDB11" ∷ "PHP7.4" ∷ "PHP8.0" ∷ "PHP8.1" ∷ "PHP8.2" ∷ "SecureSignIn" ∷ "LDAPServer"
    ∷ "DirectoryServer" ∷ []

names_of : Dict String → List String
names_of [] = []
names_of ((k, v) ∷ d) = k ∷ names_of d

lookup-Memᴰ :
    (k : String) (d : Dict String) → Memᴰ k (names_of d) → (v : String) × (lookup k d ≡ some v)
unfolding lookup names_of
lookup-Memᴰ k [] h = elim h [ ]
lookup-Memᴰ k ((j, v) ∷ d) (head e) = (v, rw (sym e, eq_refl k) refl)
lookup-Memᴰ k ((j, v) ∷ d) (tail h) = elim (Bool-cases (j == k)) [
  | inl e ↦ (v, rw e refl)
  | inr e ↦ let (w, found) = lookup-Memᴰ k d h in (w, rw e found)
]

lookup-absent : (k : String) (d : Dict String) → ¬ Memᴰ k (names_of d) → lookup k d ≡ none
unfolding lookup names_of
lookup-absent k [] h = refl
lookup-absent k ((j, v) ∷ d) h = elim (Bool-cases (j == k)) [
  | inl e ↦ elim (h (head (sym ((eq_iff j k).0 e)))) [ ]
  | inr e ↦ rw e (lookup-absent k d (λ there. h (tail there)))
]

-- the look for a package, and an answer to it that says that it is not installed
abbrev pub package_query : String → Call
package_query id = record {
  api = "SYNO.Core.Package";
  method = "get";
  version = pos 1;
  params = ("id", text id) ∷ [];
}

abbrev pub IsAbsent : Result Fields → Type 0
IsAbsent (ok body) =
    (d : Fields) × (as_dict (or_empty (get body "data")) ≡ ok d)
    × (truthy (get d "id") ≡ false)
    × (truthy (get d "package") ≡ false)
IsAbsent (err e) =
    (x : DsmError) × (e ≡ raised x)
    × ((x.kind ≡ unsupported_dsm_version) ⊎ (x.dsm_error_code ≡ some (pos 4545)))

not_installed :
    (x : DsmError)
    → (x.kind ≡ unsupported_dsm_version) ⊎ (x.dsm_error_code ≡ some (pos 4545))
    → is_not_installed_error (raised x) ≡ true
unfolding is_not_installed_error
not_installed x (inl k) = rw k refl
not_installed x (inr k) = rw k (ground arith)

module _ ⦃P : Platform⦄ (config : Config) (host id : String) where
  get_installed_package-IsAbsent :
      (s t : State) (r : Result Fields)
      → call_dsm config host (package_query id) s ≡ (r, t)
      → IsAbsent r
      → get_installed_package config host id s ≡ (ok none, t)
  unfolding get_installed_package installed_row pure
  get_installed_package-IsAbsent s t (ok body) h (d, e, no_id, no_package) =
      try-ok _ s t _ _ body h
      ∙ bind-ok _ t t _ d (lift-ok _ t d e)
      ∙ rw (no_id, no_package)
          (elim (Bool-cases (truthy (dict d))) [ inl k ↦ rw k refl | inr k ↦ rw k refl ])
  get_installed_package-IsAbsent s t (err e) h (x, same, k) =
      try-err _ s t _ _ e h ∙ rw (ap is_not_installed_error same ∙ not_installed x k) refl

  checked-absent :
      (s s1 : State) (force : Bool)
      → (force ≡ false → ¬ Memᴰ id protected)
      → get_installed_package config host id s ≡ (ok none, s1)
      → uninstall_checked config host id force (lookup id uninstall_denylist) s
        ≡ (ok (absent_envelope host id), s1)
  unfolding uninstall_checked uninstall_allowed names_of pure
  checked-absent s s1 false allowed looked =
      rw (lookup-absent id uninstall_denylist (allowed refl)) (bind-ok _ s s1 _ none looked)
  checked-absent s s1 true allowed looked = elim (Option-cases (lookup id uninstall_denylist)) [
    | inl e ↦ rw e (bind-ok _ s s1 _ none looked)
    | inr (reason, e) ↦ rw e (bind-ok _ s s1 _ none looked)
  ]

  module _ (s : State) (named : (id == "") ≡ false) where
    -- For an id that is not empty, a protected package is refused without `force`, and nothing is
    -- sent for that. With `force`, and for every other package also without, a package that is not
    -- installed is reported as such, and nothing is sent after the look for it: the answer to the
    -- look has neither an id nor a package, or it is an error of the version class or with code
    -- 4545.
    pub packages_uninstall-guarded :
        (Memᴰ id protected
          → (reason : String) × (packages_uninstall config host id false s
              ≡ (ok (denylist_refusal host id reason), s)))
        × ((force : Bool) (s1 : State) (r : Result Fields)
            → (force ≡ false → ¬ Memᴰ id protected)
            → call_dsm config host (package_query id) s ≡ (r, s1)
            → IsAbsent r
            → packages_uninstall config host id force s ≡ (ok (absent_envelope host id), s1))
    unfolding packages_uninstall uninstall_allowed uninstall_checked names_of pure
    packages_uninstall-guarded = (
      λ h. let (reason, e) = lookup-Memᴰ id uninstall_denylist h in (reason, rw (named, e) refl),
      λ force s1 r allowed asked absent.
          let looked = get_installed_package-IsAbsent s s1 r asked absent in
          rw named (checked-absent s s1 force allowed looked),
    )
