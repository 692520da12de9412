-- ===== src/Errors/Codes.antt =====
-- The translation of DSM's error codes.
use synology_mcp.Base.{
  ℕ, ℤ, pos, true, ◌==ℤ◌, ==ℤ_iff, String, ◌<>◌, Option, some, ◌≡◌, ◌≢◌, ◌↔◌, ◌⊎◌, refl, arith,
  Bool-cases, inl, inr,
}
use synology_mcp.Json.{Fields}
use synology_mcp.Errors.{
  Result, ok, err, raised, Kind, dsm_error, auth_failed, otp_required, permission_denied,
  session_failed, unsupported_dsm_version, invalid_param, DsmError, kind_of_code,
  raise_for_dsm_error,
}

-- the classes, each with its codes
abbrev pub IsClassOf : ℤ → Kind → Type 0
IsClassOf code kind =
    ((kind ≡ invalid_param) ↔ (code ≡ pos 101))
    × ((kind ≡ unsupported_dsm_version)
        ↔ ((code ≡ pos 102) ⊎ ((code ≡ pos 103) ⊎ (code ≡ pos 104))))
    × ((kind ≡ permission_denied) ↔ (code ≡ pos 105))
    × ((kind ≡ session_failed) ↔ ((code ≡ pos 107) ⊎ (code ≡ pos 119)))
    × ((kind ≡ auth_failed) ↔ (code ≡ pos 400))
    × ((kind ≡ otp_required) ↔ (code ≡ pos 403))
    × ((kind ≡ dsm_error) ↔ (
        (code ≢ pos 101)
        × (code ≢ pos 102)
        × (code ≢ pos 103)
        × (code ≢ pos 104)
        × (code ≢ pos 105)
        × (code ≢ pos 107)
        × (code ≢ pos 119)
        × (code ≢ pos 400)
        × (code ≢ pos 403)))

kind_of_code-IsClassOf : (code : ℤ) → IsClassOf code (kind_of_code code)
unfolding kind_of_code
kind_of_code-IsClassOf code =
    let is : (n : ℕ) → ((code ==ℤ pos n) ≡ true) ↔ (code ≡ pos n) = λ n. ==ℤ_iff code (pos n) in
    let a101 = is 101 in
    let a102 = is 102 in
    let a103 = is 103 in
    let a104 = is 104 in
    let a105 = is 105 in
    let a107 = is 107 in
    let a119 = is 119 in
    let a400 = is 400 in
    let a403 = is 403 in
    (
      ground arith,
      ground arith,
      ground arith,
      ground arith,
      ground arith,
      ground arith,
      ground arith,
    )

abbrev pub HasCode : Result (Unit {0}) → ℤ → Option String → Fields → Type 0
HasCode r code host details =
    (e : DsmError) × (r ≡ err (raised e))
    × IsClassOf code e.kind
    × (e.dsm_error_code ≡ some code)
    × (e.host ≡ host)
    × (e.details ≡ details)

-- Code 0 returns. Any other code raises an error with the code, the host and the details kept, and
-- of its class: the parameter class for 101, the version class for 102 to 104, the permission class
-- for 105, the session class for 107 and 119, the login class for 400, the one for a missing one-time
-- code for 403, the general class for every other code, and each class for these codes only.
pub raise_for_dsm_error_lem :
    (show : ℤ → String) (code : ℤ) (host : Option String) (details : Fields)
    → ((code ≡ pos 0) × (raise_for_dsm_error show code host details ≡ ok tt))
      ⊎ ((code ≢ pos 0) × HasCode (raise_for_dsm_error show code host details) code host details)
unfolding raise_for_dsm_error
raise_for_dsm_error_lem show code host details = elim (Bool-cases (code ==ℤ pos 0)) [
  | inl zero_code ↦ inl ((==ℤ_iff code (pos 0)).0 zero_code, rw zero_code)
  | inr e ↦ inr (
    λ p. cc (e, (==ℤ_iff code (pos 0)).1 p),
    (
      record {
        kind = kind_of_code code;
        message = "DSM error code " <> show code;
        host = host;
        dsm_error_code = some code;
        details = details;
      },
      rw e,
      kind_of_code-IsClassOf code,
      refl,
      refl,
      refl,
    ),
  )
]
