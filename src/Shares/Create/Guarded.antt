-- ===== src/Shares/Create/Guarded.antt =====
-- src/synology_mcp/shares.py: when `shares_create` does not create.
use mathlib.Core.List.{Memᴰ}
use mathlib.Core.List.Memᴰ.{head, tail}
use synology_mcp.Base.{
  ◌≤◌, String, ◌==◌, Bool, true, false, some, List, [], ◌∷◌, any, is_empty, ◌≡◌, ◌⊎◌, Bool-cases,
  inl, inr, refl, sym, ◌∙◌, eq_refl, arith,
}
use synology_mcp.Base.Text
use synology_mcp.Base.Dict.{lookup, update, insert}
use synology_mcp.Errors.{ok}
use synology_mcp.Platform.{Platform}
use synology_mcp.Config.{Config}
use synology_mcp.Exec.{State, pure, lift}
use synology_mcp.Exec.Runs.{bind-ok, lift-ok}
use synology_mcp.Exec.Costs.{Costs, Costs-pure, Costs-lift, Costs-then, Costs-outcome, total}
use synology_mcp.Auth.Reads.{writes, IsRead, call_dsm-reads}
use synology_mcp.Shares.{ShareRow}
use synology_mcp.Shares.Names.{is_reserved_share_name, find_existing_share, mismatches}
use synology_mcp.Shares.Names.Matches.{mismatches_iff}
use synology_mcp.Shares.Read.{share_list_call, list_shares}
use synology_mcp.Shares.Create.{
  CreateArgs, check_args, request_of, reserved_refusal, exists_envelope, conflict_refusal,
  create_unless, shares_create,
}

-- the reserved names and the prefixes of reserved names, written out
abbrev pub reserved : List String
reserved =
    "home" ∷ "homes" ∷ "music" ∷ "photo" ∷ "video" ∷ "surveillance" ∷ "download" ∷ "NetBackup"
    ∷ "@appstore" ∷ "@autoupdate" ∷ "@database" ∷ "@docker" ∷ "@home" ∷ "@maillog" ∷ "@mailscanner"
    ∷ "@MailScanner" ∷ "@spool" ∷ "@tmp" ∷ []

abbrev pub reserved_prefixes : List String
reserved_prefixes = "usbshare" ∷ "sdshare" ∷ "esata" ∷ "web" ∷ []

any-Memᴰ :
    (p : String → Bool) (x : String) (xs : List String) → Memᴰ x xs → p x ≡ true → any p xs ≡ true
unfolding any
any-Memᴰ p x [] h k = elim h [ ]
any-Memᴰ p x (y ∷ ys) (head e) k = rw (sym e, k) refl
any-Memᴰ p x (y ∷ ys) (tail h) k = ground (arith, any-Memᴰ p x ys h k)

share_list_call-IsRead : IsRead share_list_call
unfolding IsRead update insert lookup
share_list_call-IsRead = refl

module _ ⦃P : Platform⦄ where
  -- a name that differs from a reserved one in the case of letters at most, or that begins with one
  -- of the prefixes once it is in lower case
  abbrev pub IsReserved : String → Type 0
  IsReserved name =
      ((n : String) × Memᴰ n reserved × (P.lower n ≡ P.lower name))
      ⊎ ((p : String) × Memᴰ p reserved_prefixes × (Text.starts_with (P.lower name) p ≡ true))

  is_reserved_share_name-IsReserved :
      (name : String) → IsReserved name → is_reserved_share_name name ≡ true
  unfolding is_reserved_share_name
  is_reserved_share_name-IsReserved name (inl (n, there, same)) =
      let found =
        any-Memᴰ (λ k. P.lower k == P.lower name) n reserved there
          (rw same (eq_refl (P.lower name))) in
      rw found (ground arith)
  is_reserved_share_name-IsReserved name (inr (p, there, starts)) =
      let found =
        any-Memᴰ (λ k. Text.starts_with (P.lower name) k) p reserved_prefixes there starts in
      rw found (ground arith)

  -- an existing share that has the volume, the encryption and the recycle bin of a request
  abbrev pub Agrees : ShareRow → CreateArgs → Type 0
  Agrees row a =
      (row.volume ≡ a.volume)
      × (row.encrypted ≡ a.encryption)
      × (row.recycle_bin_enabled ≡ a.enable_recycle_bin)

module _ ⦃P : Platform⦄ (config : Config) (host : String) where
  pub list_shares-reads : Costs writes 0 (list_shares config host)
  unfolding list_shares
  list_shares-reads =
      Costs-then _ _ _ (call_dsm-reads config host share_list_call share_list_call-IsRead)
        (λ body. Costs-then _ _ _ (Costs-lift _ 0 _) (λ found. Costs-pure _ 0 _))

  module _ (a : CreateArgs) (s : State) (checked : check_args host a ≡ ok tt) where
    create-after_list :
        (s1 : State) (found : List ShareRow × List String)
        → is_reserved_share_name a.name ≡ false
        → list_shares config host s ≡ (ok found, s1)
        → shares_create config host a s
          ≡ create_unless config host a (find_existing_share found.0 a.name) s1
    unfolding shares_create
    create-after_list s1 found h listed =
        bind-ok (lift (check_args host a)) s s _ tt (lift-ok (check_args host a) s tt checked)
        ∙ rw h (bind-ok (list_shares config host) s s1 _ found listed)

    -- For arguments that pass the checks, a name that is reserved is refused before anything is
    -- sent. For a name that the code does not count as reserved, a share that is found under it is
    -- reported if its volume, encryption and recycle bin are those asked for, and is a refused
    -- conflict that lists at least one mismatch if one of them is not; for that no request that
    -- changes anything is sent.
    pub shares_create-guarded :
        (IsReserved a.name → shares_create config host a s ≡ (ok (reserved_refusal host a.name), s))
        × ((s1 : State) (found : List ShareRow × List String) (row : ShareRow)
            → is_reserved_share_name a.name ≡ false
            → list_shares config host s ≡ (ok found, s1)
            → find_existing_share found.0 a.name ≡ some row
            → (Agrees row a → shares_create config host a s ≡ (ok (exists_envelope host row), s1))
              × (¬ Agrees row a
                  → (reasons : List String) × (is_empty reasons ≡ false)
                    × (shares_create config host a s
                        ≡ (ok (conflict_refusal host a.name reasons row), s1)))
              × (total writes s1.trace ≤ total writes s.trace))
    unfolding shares_create create_unless pure
    shares_create-guarded = (
      λ h.
          bind-ok (lift (check_args host a)) s s _ tt (lift-ok (check_args host a) s tt checked)
          ∙ rw (is_reserved_share_name-IsReserved a.name h) refl,
      λ s1 found row h listed e.
          let reasons = mismatches row (request_of a) in
          let agree = mismatches_iff row (request_of a) in
          let after = create-after_list s1 found h listed in
          (
            λ same. after ∙ rw (e, agree.1 same) refl,
            λ other.
                let some_reason : is_empty reasons ≡ false = elim (Bool-cases (is_empty reasons)) [
                  | inl none_there ↦ elim (other (agree.0 none_there)) [ ]
                  | inr some_there ↦ some_there
                ] in
                (reasons, some_reason, after ∙ rw (e, some_reason) refl),
            omega (arith, Costs-outcome writes 0 _ s s1 _ list_shares-reads listed),
          ),
    )
