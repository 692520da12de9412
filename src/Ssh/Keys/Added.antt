-- ===== src/Ssh/Keys/Added.antt =====
-- src/synology_mcp/ssh.py: the gate of the two key tools, and what is written for a new key.
use synology_mcp.Base.{
  String, ◌==◌, Bool, true, false, none, some, List, [], ◌∷◌, ◌++◌, All, All-append, any, ◌≡◌, refl,
  ◌∙◌, arith, if◌then◌else◌,
}
use synology_mcp.Json.{truthy}
use synology_mcp.Errors.{ok}
use synology_mcp.Platform.{Platform}
use synology_mcp.Config.{Config, HostConfig}
use synology_mcp.Config.Env.{get_host}
use synology_mcp.Session.{SshClient, DsmSession, get}
use synology_mcp.Exec.{State, pure, lift}
use synology_mcp.Exec.Runs.{bind-ok, lift-ok}
use synology_mcp.Auth.{ensure_session}
use synology_mcp.Auth.Stored.{session_at, ensure_session-cached}
use synology_mcp.Ssh.Pubkey.{
  normalize_fingerprint, Pubkey, fingerprint_sha256, validate_username, parse_pubkey,
}
use synology_mcp.Ssh.KeysFile.{split_authorized_keys, join_authorized_keys, write_authorized_keys}
use synology_mcp.Ssh.KeysFile.RoundTrip.{IsEntry, split-join}
use synology_mcp.Ssh.Keys.{
  ssh_remove_authorized_key, cross_user_refusal, check_calling_user, has_fingerprint,
  added_envelope, append_key, ssh_add_authorized_key,
}

any-append :
    (p : String → Bool) (xs : List String) (x : String) → p x ≡ true → any p (xs ++ (x ∷ [])) ≡ true
unfolding any
any-append p [] x h = rw h refl
any-append p (y ∷ xs) x h = ground (arith, any-append p xs x h)

module _ ⦃P : Platform⦄ where
  -- The gate refuses a user other than the one of the cached session, makes no request for that, and
  -- lets every user through if the host has no password.
  check_calling_user_lem :
      (config : Config) (host user : String) (c : HostConfig) (s : State)
      → get_host config host ≡ ok c
      → (truthy c.password ≡ false → check_calling_user config host user s ≡ (ok none, s))
        × ((session : DsmSession)
            → truthy c.password ≡ true
            → session_at s c.name ≡ some session
            → check_calling_user config host user s ≡ (
              ok (
                  if session.user == user
                  then none
                  else some (cross_user_refusal host user session.user)),
              record s { cache = (get s.cache c.name).1 },
            ))
  unfolding check_calling_user pure
  check_calling_user_lem config host user c s h =
      let resolved = bind-ok (lift (get_host config host)) s s _ c (lift-ok _ s c h) in
      (
        λ closed. resolved ∙ rw closed refl,
        λ session opened cached.
            resolved
            ∙ rw opened (
                bind-ok (ensure_session c) s _ _ session
                  (ensure_session-cached c s session cached)),
      )

  -- With a password and the cached session of one user, adding and removing a key of another user are
  -- both refused, and no request is sent and no command is run for that.
  pub cross_user_lem :
      (config : Config) (host user pubkey comment fingerprint fp : String) (key : Pubkey)
      (c : HostConfig) (session : DsmSession) (s : State)
      → get_host config host ≡ ok c
      → truthy c.password ≡ true
      → session_at s c.name ≡ some session
      → (session.user == user) ≡ false
      → validate_username (some host) user ≡ ok tt
      → parse_pubkey (some host) pubkey ≡ ok key
      → normalize_fingerprint fingerprint ≡ ok fp
      → let after = record s { cache = (get s.cache c.name).1 } in
        (ssh_add_authorized_key config host user pubkey comment s
          ≡ (ok (cross_user_refusal host user session.user), after))
        × (ssh_remove_authorized_key config host user fingerprint s
            ≡ (ok (cross_user_refusal host user session.user), after))
  unfolding ssh_add_authorized_key ssh_remove_authorized_key pure
  cross_user_lem config host user pubkey comment fingerprint fp key c session s hc hp hs other hu hk
        hf =
      let refused : check_calling_user config host user s ≡ (
        ok (some (cross_user_refusal host user session.user)),
        record s { cache = (get s.cache c.name).1 },
      ) =
        (check_calling_user_lem config host user c s hc).1 session hp hs ∙ rw other refl in
      (
        bind-ok (lift (validate_username (some host) user)) s s _ tt (lift-ok _ s tt hu)
            ∙ bind-ok (lift (parse_pubkey (some host) pubkey)) s s _ key (lift-ok _ s key hk)
            ∙ bind-ok (check_calling_user config host user) s _ _ _ refused,
        bind-ok (lift (validate_username (some host) user)) s s _ tt (lift-ok _ s tt hu)
            ∙ bind-ok (lift (normalize_fingerprint fingerprint)) s s _ fp (lift-ok _ s fp hf)
            ∙ bind-ok (check_calling_user config host user) s _ _ _ refused,
      )

  module _ (ssh : SshClient) (host user : String) (key : Pubkey) (line : String)
      (entries : List String) where
    -- For a key whose fingerprint no entry has, with entries and a line as the file keeps them and a
    -- line that has the key's fingerprint, a write that succeeds makes the answer that the key was
    -- added. To add the same key again to what was written is then only reported as present: nothing
    -- is written, whatever the state is.
    pub append_key-again :
        (s t : State)
        → any (has_fingerprint (fingerprint_sha256 key.key_bytes)) entries ≡ false
        → All IsEntry entries
        → IsEntry line
        → has_fingerprint (fingerprint_sha256 key.key_bytes) line ≡ true
        → write_authorized_keys ssh user (join_authorized_keys (entries ++ (line ∷ []))) s
          ≡ (ok tt, t)
        → (append_key ssh host user key line entries s
            ≡ (ok (added_envelope host user key true []), t))
          × ((u : State)
              → append_key ssh host user key line
                  (split_authorized_keys (join_authorized_keys (entries ++ (line ∷ []))))
                  u
                ≡ (ok (added_envelope host user key false ("key already present" ∷ [])), u))
    unfolding append_key pure
    append_key-again s t absent old new same written =
        let p = has_fingerprint (fingerprint_sha256 key.key_bytes) in
        (
          rw absent (
              bind-ok
                (write_authorized_keys ssh user (join_authorized_keys (entries ++ (line ∷ [])))) s t
                _ tt written),
          λ u.
              rw
                (
                  split-join (entries ++ (line ∷ []))
                      (All-append IsEntry entries (line ∷ []) old (new, tt)),
                  any-append p entries line same,
                )
                refl,
        )
