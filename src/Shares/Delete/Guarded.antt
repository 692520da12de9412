-- ===== src/Shares/Delete/Guarded.antt =====
-- src/synology_mcp/shares.py: what `shares_delete` does without `force`.
use synology_mcp.Base.{
  ℤ, pos, ltb_ℤ, ◌≤◌, String, ◌<>◌, ◌==◌, Bool, true, false, Option, none, some, List, [], ◌∷◌,
  ◌++◌, ◌≡◌, ◌⊎◌, inl, inr, ap, refl, ◌∙◌, arith,
}
use synology_mcp.Base.Text
use synology_mcp.Json.{Fields, text, texts}
use synology_mcp.Errors.{Result, ok, err}
use synology_mcp.Platform.{Platform, SshResult}
use synology_mcp.Config.{Config}
use synology_mcp.Session.{SshClient}
use synology_mcp.Exec.{State, pure, is_ssh_error}
use synology_mcp.Exec.Runs.{bind-ok, try_ssh-ok, try_ssh-err}
use synology_mcp.Exec.Costs.{Costs, Costs-pure, Costs-try_ssh, Costs-outcome, total}
use synology_mcp.Transport.Envelope.{Call, extract_warnings}
use synology_mcp.Transport.Ssh.{run}
use synology_mcp.Auth.{call_dsm, get_ssh_client}
use synology_mcp.Auth.Reads.{writes, get_ssh_client-reads}
use synology_mcp.UserHome.Reads.{run-reads}
use synology_mcp.Shares.{ShareRow}
use synology_mcp.Shares.Names.{find_existing_share}
use synology_mcp.Shares.Read.{list_shares}
use synology_mcp.Shares.Create.Guarded.{list_shares-reads}
use synology_mcp.Shares.Delete.{
  read_size, size_command, deleted_envelope, share_directory_size_bytes, not_empty_refusal,
  not_found_envelope, delete_now, delete_found, after_size, shares_delete,
}

-- a size that does not keep the share
abbrev pub IsDeletable : Option ℤ → Type 0
IsDeletable none = Unit
IsDeletable (some n) = ltb_ℤ (pos 0) n ≡ false

module _ ⦃P : Platform⦄ where
  -- the first line of an output is a text that is the number, or that is none
  abbrev FirstLine : String → Option ℤ → Type 0
  FirstLine out size =
      ((out == "") ≡ false)
      × ((line : String) × (rest : List String) × (Text.splitlines out ≡ line ∷ rest)
          × (P.parse_int line ≡ size))

  -- the size that what the command ended in tells
  abbrev pub IsSize : Result SshResult → Option ℤ → Type 0
  IsSize (ok res) (some n) = FirstLine (Text.strip res.stdout) (some n)
  IsSize (ok res) none = (Text.strip res.stdout ≡ "") ⊎ FirstLine (Text.strip res.stdout) none
  IsSize (err e) none = is_ssh_error e ≡ true
  IsSize (err e) (some n) = ⊥

  read_size-first :
      (res : SshResult) (size : Option ℤ)
      → FirstLine (Text.strip res.stdout) size
      → read_size res ≡ size
  unfolding read_size
  read_size-first res size (there, (line, rest, lines, parsed)) = rw (there, lines) parsed

  read_size-IsSize :
      (res : SshResult) (size : Option ℤ) → IsSize (ok res) size → read_size res ≡ size
  unfolding read_size
  read_size-IsSize res (some n) h = read_size-first res (some n) h
  read_size-IsSize res none (inl blank) = rw blank refl
  read_size-IsSize res none (inr h) = read_size-first res none h

  size-reads :
      (ssh : SshClient) (volume name : String)
      → Costs writes 0 (share_directory_size_bytes ssh volume name)
  unfolding share_directory_size_bytes
  size-reads ssh volume name =
      Costs-try_ssh _ 0 0 0 _ _ _ (omega arith) (run-reads ssh _) (λ res. Costs-pure _ 0 _)
        (λ e. Costs-pure _ 0 _)

  module _ (config : Config) (host name : String) (s s1 : State)
      (found : List ShareRow × List String) (named : (name == "") ≡ false)
      (listed : list_shares config host s ≡ (ok found, s1)) where
    delete-after_list :
        (force : Bool)
        → shares_delete config host name force s
          ≡ delete_found config host name force (find_existing_share found.0 name) s1
    unfolding shares_delete
    delete-after_list force = rw named (bind-ok (list_shares config host) s s1 _ found listed)

    -- the calls and commands of the deletion, written out
    abbrev pub du_command : String → String
    du_command volume =
        "sudo -n du -sb --exclude=@eaDir "
        <> (P.shell_quote (volume <> ("/" <> name)) <> " 2>/dev/null | awk '{print $1}'")

    abbrev pub deletion : Call
    deletion = record {
      api = "SYNO.Core.Share";
      method = "delete";
      version = pos 1;
      params = ("name", text (P.json_dumps (texts (name ∷ [])))) ∷ [];
    }

    share_directory_size-IsSize :
        (ssh : SshClient) (volume : String) (r : Result SshResult) (size : Option ℤ) (s2 s3 : State)
        → run ssh (du_command volume) false s2 ≡ (r, s3)
        → IsSize r size
        → share_directory_size_bytes ssh volume name s2 ≡ (ok size, s3)
    unfolding share_directory_size_bytes size_command pure
    share_directory_size-IsSize ssh volume (ok res) size s2 s3 h k =
        try_ssh-ok _ s2 s3 _ _ res h ∙ ap (λ n. (ok n, s3)) (read_size-IsSize res size k)
    share_directory_size-IsSize ssh volume (err x) none s2 s3 h k = try_ssh-err _ s2 s3 _ _ x k h
    share_directory_size-IsSize ssh volume (err x) (some n) s2 s3 h k = elim k [ ]

    after_size-deletes :
        (row : ShareRow) (size : Option ℤ) (s3 s4 : State) (body : Fields)
        → IsDeletable size
        → call_dsm config host deletion s3 ≡ (ok body, s4)
        → after_size config host name row size s3
          ≡ (ok (deleted_envelope host name row (extract_warnings body ++ [])), s4)
    unfolding after_size delete_now pure
    after_size-deletes row none s3 s4 body small h = bind-ok _ s3 s4 _ body h
    after_size-deletes row (some n) s3 s4 body small h = rw small (bind-ok _ s3 s4 _ body h)

    delete-after_size :
        (row : ShareRow) (ssh : SshClient) (size : Option ℤ) (s2 s3 : State)
        → find_existing_share found.0 name ≡ some row
        → get_ssh_client config host s1 ≡ (ok ssh, s2)
        → share_directory_size_bytes ssh row.volume name s2 ≡ (ok size, s3)
        → shares_delete config host name false s ≡ after_size config host name row size s3
    unfolding delete_found
    delete-after_size row ssh size s2 s3 e connected measured =
        delete-after_list false
        ∙ rw e (
            bind-ok (get_ssh_client config host) s1 s2 _ ssh connected
            ∙ bind-ok (share_directory_size_bytes ssh row.volume name) s2 s3 _ size measured)

    -- A name that no share has is reported as such, and no request that changes anything is sent.
    pub shares_delete-absent :
        (force : Bool)
        → find_existing_share found.0 name ≡ none
        → (shares_delete config host name force s ≡ (ok (not_found_envelope host name), s1))
          × (total writes s1.trace ≤ total writes s.trace)
    unfolding delete_found pure
    shares_delete-absent force e = (
      delete-after_list force ∙ rw e refl,
      omega (arith, Costs-outcome writes 0 _ s s1 _ (list_shares-reads config host) listed),
    )

    -- For a name that is not empty, a share that is found under it and an SSH client, what `du`
    -- ends in decides without `force`. If its first line is a positive number, the share is kept,
    -- and no request that changes anything is sent. If it is a number that is not positive, or if
    -- there is none, since the output is blank, its first line is no number or the command raises
    -- an SSH error, the next call is the one that deletes the share, and once it returns the answer
    -- says so.
    pub shares_delete-unforced :
        (row : ShareRow) (ssh : SshClient) (size : Option ℤ) (r : Result SshResult) (s2 s3 : State)
        → find_existing_share found.0 name ≡ some row
        → get_ssh_client config host s1 ≡ (ok ssh, s2)
        → run ssh (du_command row.volume) false s2 ≡ (r, s3)
        → IsSize r size
        → ((n : ℤ)
            → size ≡ some n
            → ltb_ℤ (pos 0) n ≡ true
            → (shares_delete config host name false s
                ≡ (ok (not_empty_refusal host name n row.volume), s3))
              × (total writes s3.trace ≤ total writes s.trace))
          × ((body : Fields) (s4 : State)
              → IsDeletable size
              → call_dsm config host deletion s3 ≡ (ok body, s4)
              → shares_delete config host name false s
                ≡ (ok (deleted_envelope host name row (extract_warnings body ++ [])), s4))
    unfolding after_size pure delete_now
    shares_delete-unforced row ssh size r s2 s3 e connected measured h =
        let there : share_directory_size_bytes ssh row.volume name s2 ≡ (ok size, s3) =
          share_directory_size-IsSize ssh row.volume r size s2 s3 measured h in
        let decided : shares_delete config host name false s
            ≡ after_size config host name row size s3 =
          delete-after_size row ssh size s2 s3 e connected there in
        (
          λ n k p. (
            decided ∙ rw (k, p) refl,
            omega (
              arith,
              Costs-outcome writes 0 _ s s1 _ (list_shares-reads config host) listed,
              Costs-outcome writes 0 _ s1 s2 _ (get_ssh_client-reads config host) connected,
              Costs-outcome writes 0 _ s2 s3 _ (size-reads ssh row.volume name) there,
            ),
          ),
          λ body s4 small deleted. decided ∙ after_size-deletes row size s3 s4 body small deleted,
        )
