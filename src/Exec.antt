-- ===== src/Exec.antt =====
-- A tool runs with the caches of the process and the record of what it sent and received. It may
-- raise; what was written before stays written, so the state comes back beside an exception too.
pub mod Moves
pub mod Costs
pub mod Ends
pub mod Runs
use synology_mcp.Base.{String, Bool, true, false, ◌∷◌, Option, if◌then◌else◌}
use synology_mcp.Errors.{Exc, raised, Kind, dsm_ssh_error, Result, ok, err}
use synology_mcp.Platform.{Event, Trace}
use synology_mcp.Session.{SessionCache, HostState, DsmSession, SshClient, state_of, put, get}
use synology_mcp.Config.{HostConfig}

-- `app_context.cache`, and the events so far
pub record State : Type 0 where
  pub cache : SessionCache
  pub trace : Trace

abbrev pub Exec : Type 0 → Type 0
Exec A = State → Result A × State

module _ {A : Type 0} where
  unfoldable pub pure : A → Exec A
  pure a s = (ok a, s)

  unfoldable pub throw : Exc → Exec A
  throw e s = (err e, s)

  pub lift : Result A → Exec A
  lift r s = (r, s)

  -- ask the platform, which may look at the whole past, and record the event
  unfoldable pub ask : (Trace → A) → (A → Event) → Exec A
  ask answer event s = let a = answer s.trace in (ok a, record s { trace = event a ∷ s.trace })

abbrev pub continue : {A B : Type 0} → Result A → (A → Exec B) → Exec B
continue (ok a) f s = f a s
continue (err e) f s = (err e, s)

-- `continue` with a handler of exceptions
abbrev pub handle : {A B : Type 0} → Result A → (A → Exec B) → (Exc → Exec B) → Exec B
handle (ok a) f g s = f a s
handle (err e) f g s = g e s

-- `cache.get(host)`: the host's state is read, and an entry for it stays
unfoldable pub host_state : String → Exec HostState
host_state host s =
    let (state, cache') = get s.cache host in (ok state, record s { cache = cache' })

-- an assignment to fields of the object that `cache.get(host)` returns
unfoldable pub modify : String → (HostState → HostState) → Exec (Unit {0})
modify host f s = (ok tt, record s { cache = put s.cache host (f (state_of s.cache host)) })

module _ {A B : Type 0} where
  infixl 10 ◌>>=◌ ◌>>◌
  -- opening this opens the actions above too
  unfoldable pub ◌>>=◌ : Exec A → (A → Exec B) → Exec B
  unfolding pure throw lift ask host_state modify
  ◌>>=◌ m f s = let (r, s') = m s in continue r f s'

  abbrev pub ◌>>◌ : Exec A → Exec B → Exec B
  m >> n = m >>= λ _. n

  -- `try: a = m; except Exception as e: g(e); else: f(a)`
  unfoldable pub try_with : Exec A → (A → Exec B) → (Exc → Exec B) → Exec B
  unfolding pure throw lift ask host_state modify
  try_with m f g s = let (r, s') = m s in handle r f g s'

abbrev pub set_session : String → Option DsmSession → Exec (Unit {0})
set_session host session = modify host (λ state. record state { session = session })

abbrev is_ssh_kind : Kind → Bool
is_ssh_kind dsm_ssh_error = true
is_ssh_kind _ = false

-- `isinstance(e, DSMSshError)`
abbrev pub is_ssh_error : Exc → Bool
is_ssh_error (raised e) = is_ssh_kind e.kind
is_ssh_error _ = false

-- `try: a = m; except DSMSshError as e: g(e); else: f(a)`
unfoldable pub try_ssh : {A B : Type 0} → Exec A → (A → Exec B) → (Exc → Exec B) → Exec B
unfolding try_with
try_ssh m f g = try_with m f (λ e. if is_ssh_error e then g e else throw e)
