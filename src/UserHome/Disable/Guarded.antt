-- ===== src/UserHome/Disable/Guarded.antt =====
-- src/synology_mcp/user_home.py: the two safety rails of `user_home_disable`.
use mathlib.Core.List.{Memᴰ}
use mathlib.Core.List.Memᴰ.{head, tail}
use synology_mcp.Base.{
  ◌≤◌, pos, ◌==ℤ◌, String, ◌==◌, true, false, List, [], ◌∷◌, ◌++◌, any, ◌≡◌, ◌⊎◌, inl, inr, refl,
  ap, sym, ◌∙◌, eq_refl, arith,
}
use synology_mcp.Base.Text
use synology_mcp.Errors.{ok}
use synology_mcp.Platform.{Platform, SshResult}
use synology_mcp.Config.{Config}
use synology_mcp.Session.{SshClient}
use synology_mcp.Exec.{State, pure}
use synology_mcp.Exec.Runs.{bind-ok}
use synology_mcp.Exec.Costs.{Costs, Costs-pure, Costs-then, Costs-outcome, total}
use synology_mcp.Helpers.{Envelope}
use synology_mcp.Transport.Ssh.{run}
use synology_mcp.Auth.{get_ssh_client}
use synology_mcp.Auth.Reads.{writes, get_ssh_client-reads}
use synology_mcp.UserHome.{home_enabled, user_home_is_enabled}
use synology_mcp.UserHome.Reads.{run-reads, user_home_is_enabled-reads}
use synology_mcp.UserHome.Affected.{dedupe_lem}
use synology_mcp.UserHome.Disable.{
  users, sudo_failed, read_probe, contains, dedupe, users_of_lines, list_users_with_authorized_keys,
  after_probe, user_home_disable, sudo_required, would_orphan_keys,
}

-- the texts of standard error by which a failure of sudo is known
abbrev pub IsMarker : String → Type 0
IsMarker m =
    (m ≡ "password is required")
    ⊎ ((m ≡ "a terminal is required") ⊎ ((m ≡ "a password is required") ⊎ (m ≡ "sudo:")))

-- a line of the listing that is a path in the home of a user
abbrev pub IsPathOf : String → String → Type 0
IsPathOf user raw =
    ((Text.strip raw == "") ≡ false)
    × ((a b c : String) × (rest : List String) × (Text.split_on b'/' (Text.strip raw)
          ≡ a ∷ (b ∷ (c ∷ ("homes" ∷ (user ∷ rest))))))

contains-append :
    (x : String) (xs ys : List String) → contains x ys ≡ true → contains x (xs ++ ys) ≡ true
unfolding contains
contains-append x [] ys h = h
contains-append x (y ∷ xs) ys h = ground (arith, contains-append x xs ys h)

users_of_lines-contains :
    (user raw : String) (lines : List String)
    → IsPathOf user raw
    → Memᴰ raw lines
    → contains user (users_of_lines lines) ≡ true
unfolding users_of_lines contains
users_of_lines-contains user raw [] path h = elim h [ ]
users_of_lines-contains user raw (x ∷ lines) (line, (a, b, c, rest, parts)) (head e) =
    rw (sym e, line, parts) (ground (arith, eq_refl user))
users_of_lines-contains user raw (x ∷ lines) path (tail h) =
    contains-append user _ (users_of_lines lines) (users_of_lines-contains user raw lines path h)

module _ ⦃P : Platform⦄ where
  list_users-reads : (ssh : SshClient) → Costs writes 0 (list_users_with_authorized_keys ssh)
  unfolding list_users_with_authorized_keys
  list_users-reads ssh = Costs-then _ _ _ (run-reads ssh _) (λ res. Costs-pure _ 0 _)

  sudo_failed-marker :
      (res : SshResult) (m : String)
      → IsMarker m
      → (res.exit_status ==ℤ pos 0) ≡ false
      → Text.has_text (P.lower res.stderr) m ≡ true
      → sudo_failed res ≡ true
  unfolding sudo_failed any
  sudo_failed-marker res m (inl e) bad h =
      let k = ap (Text.has_text (P.lower res.stderr)) (sym e) ∙ h in ground arith
  sudo_failed-marker res m (inr (inl e)) bad h =
      let k = ap (Text.has_text (P.lower res.stderr)) (sym e) ∙ h in ground arith
  sudo_failed-marker res m (inr (inr (inl e))) bad h =
      let k = ap (Text.has_text (P.lower res.stderr)) (sym e) ∙ h in ground arith
  sudo_failed-marker res m (inr (inr (inr e))) bad h =
      let k = ap (Text.has_text (P.lower res.stderr)) (sym e) ∙ h in ground arith

  -- a listing that names a user is a refusal or names some users
  after_listing :
      (config : Config) (host user : String) (names : List String) (t : State)
      → contains user names ≡ true
      → (affected : List String) × (after_probe config host false (users names) t
          ≡ (ok (would_orphan_keys host affected), t))
        × (contains user affected ≡ true)
  unfolding after_probe contains pure
  after_listing config host user [] t h = ground arith
  after_listing config host user (u ∷ us) t h = (u ∷ us, refl, h)

  module _ (config : Config) (host : String) (s s1 s2 s3 : State) (ssh : SshClient) (pre : Envelope)
      (res : SshResult) (connected : get_ssh_client config host s ≡ (ok ssh, s1))
      (checked : user_home_is_enabled config host s1 ≡ (ok pre, s2))
      (enabled : home_enabled pre ≡ true)
      (listed : run ssh "sudo -n find /var/services/homes/*/.ssh/authorized_keys -size +0c -type f"
          false s2
        ≡ (ok res, s3)) where
    listed-probe : list_users_with_authorized_keys ssh s2 ≡ (ok (read_probe res), s3)
    unfolding list_users_with_authorized_keys pure
    listed-probe = bind-ok (run ssh _ false) s2 s3 _ res listed

    disable-after_probe :
        user_home_disable config host false s ≡ after_probe config host false (read_probe res) s3
    unfolding user_home_disable
    disable-after_probe =
        bind-ok (get_ssh_client config host) s s1 _ ssh connected
        ∙ bind-ok (user_home_is_enabled config host) s1 s2 _ pre checked
        ∙ rw enabled
            (bind-ok (list_users_with_authorized_keys ssh) s2 s3 _ (read_probe res) listed-probe)

    -- With an SSH client, User Home found to be enabled and no confirmation, the command that lists
    -- the keys decides, once it returns. If it fails with one of the four texts of sudo in its
    -- lower-case standard error, the answer is the refusal for sudo. If it does not fail, each path
    -- that it lists in a user's home makes the answer the refusal that names that user. No request
    -- that changes anything is sent up to either.
    pub user_home_disable-guarded :
        ((m : String)
          → IsMarker m
          → (res.exit_status ==ℤ pos 0) ≡ false
          → Text.has_text (P.lower res.stderr) m ≡ true
          → user_home_disable config host false s ≡ (ok (sudo_required host res.stderr), s3))
        × ((user raw : String)
            → (res.exit_status ==ℤ pos 0) ≡ true
            → Memᴰ raw (Text.splitlines res.stdout)
            → IsPathOf user raw
            → (affected : List String) × (user_home_disable config host false s
                ≡ (ok (would_orphan_keys host affected), s3))
              × (contains user affected ≡ true))
        × (total writes s3.trace ≤ total writes s.trace)
    unfolding read_probe sudo_failed after_probe pure
    user_home_disable-guarded = (
      λ m marker bad h. disable-after_probe ∙ rw (sudo_failed-marker res m marker bad h) refl,
      λ user raw good there path.
          let names = dedupe [] (users_of_lines (Text.splitlines res.stdout)) in
          let (affected, answer, named) = after_listing config host user names s3 (
            (dedupe_lem (users_of_lines (Text.splitlines res.stdout))).0 user
            ∙ users_of_lines-contains user raw _ path there) in
          (affected, disable-after_probe ∙ rw good answer, named),
      omega (
        arith,
        Costs-outcome writes 0 _ s s1 _ (get_ssh_client-reads config host) connected,
        Costs-outcome writes 0 _ s1 s2 _ (user_home_is_enabled-reads config host) checked,
        Costs-outcome writes 0 _ s2 s3 _ (list_users-reads ssh) (listed-probe),
      ),
    )
