-- ===== src/Auth/Login/Accepted.antt =====
-- src/synology_mcp/auth.py: the session that a login's answer is read as.
use synology_mcp.Base.{refl, ◌==◌, false, ◌≡◌, ◌≢◌, arith, eq_iff, inl, inr, Bool-cases, ◌⊎◌}
use synology_mcp.Json.{text, get, bool, Fields, get_or, truthy}
use synology_mcp.Errors.{Result, err, Exc, ok}
use synology_mcp.Builtins.{as_dict, or_empty, to_text}
use synology_mcp.Platform.{Platform}
use synology_mcp.Config.{HostConfig}
use synology_mcp.Session.{DsmSession}
use synology_mcp.Auth.Login.{read_login, read_session, session_of}

Result-cases : {A : Type 0} (r : Result A) → ((a : A) × (r ≡ ok a)) ⊎ ((e : Exc) × (r ≡ err e))
Result-cases (ok a) = inl (a, refl)
Result-cases (err e) = inr (e, refl)

module _ ⦃P : Platform⦄ (c : HostConfig) (body : Fields) (session : DsmSession) where
  read_session-sid :
      read_session c body ≡ ok session → (session.sid ≢ "") × (session.user ≡ c.account)
  unfolding read_session session_of
  read_session-sid h = elim (Result-cases (as_dict (or_empty (get body "data")))) [
    | inl (d, e) ↦
        let sid = to_text (get_or d "sid" (text "")) in
        elim (Bool-cases (sid == "")) [
          | inl n ↦ ground arith
          | inr n ↦ ground (arith, eq_iff sid "")
        ]
    | inr (x, e) ↦ ground arith
  ]

  pub read_login-sid :
      read_login c body ≡ ok session → (session.sid ≢ "") × (session.user ≡ c.account)
  unfolding read_login
  read_login-sid h = elim (Bool-cases (truthy (get_or body "success" (bool false)))) [
    | inl e ↦ read_session-sid (ground arith)
    | inr e ↦ read_session-sid (ground arith)
  ]
