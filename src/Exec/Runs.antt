-- ===== src/Exec/Runs.antt =====
-- What an action does at a state, from what its parts do.
use synology_mcp.Session.{HostState, state_of, get, put}
use synology_mcp.Platform.{Trace, Event}
use synology_mcp.Base.{true, ◌∷◌, refl, String, arith, ap, ◌≡◌}
use synology_mcp.Errors.{Result, Exc, ok, err}
use synology_mcp.Exec.{
  throw, ask, continue, pure, host_state, modify, lift, Exec, State, ◌>>=◌, try_with, try_ssh,
  is_ssh_error,
}

module _ {A B : Type 0} (m : Exec A) (s t : State) where
  pub bind-ok : (f : A → Exec B) (a : A) → m s ≡ (ok a, t) → (m >>= f) s ≡ f a t
  unfolding ◌>>=◌
  bind-ok f a h = rw h

  pub bind-err : (f : A → Exec B) (e : Exc) → m s ≡ (err e, t) → (m >>= f) s ≡ (err e, t)
  unfolding ◌>>=◌
  bind-err f e h = rw h

  module _ (f : A → Exec B) (g : Exc → Exec B) where
    pub try-ok : (a : A) → m s ≡ (ok a, t) → try_with m f g s ≡ f a t
    unfolding try_with
    try-ok a h = rw h

    pub try-err : (e : Exc) → m s ≡ (err e, t) → try_with m f g s ≡ g e t
    unfolding try_with
    try-err e h = rw h

    pub try_ssh-ok : (a : A) → m s ≡ (ok a, t) → try_ssh m f g s ≡ f a t
    unfolding try_ssh
    try_ssh-ok a h = rw h

    pub try_ssh-err : (e : Exc) → is_ssh_error e ≡ true → m s ≡ (err e, t) → try_ssh m f g s ≡ g e t
    unfolding try_ssh try_with
    try_ssh-err e k h = rw (h, k) refl

module _ {A B : Type 0} where
  -- an action that returned went through its parts
  pub bind-returned :
      (m : Exec A) (f : A → Exec B) (s u : State) (b : B)
      → (m >>= f) s ≡ (ok b, u)
      → (a : A) × (t : State) × (m s ≡ (ok a, t)) × (f a t ≡ (ok b, u))
  unfolding ◌>>=◌
  bind-returned m f s u b h = go (m s).0 (m s).1 refl h
    where
      go :
          (r : Result A) (t : State)
          → m s ≡ (r, t)
          → continue r f t ≡ (ok b, u)
          → (a : A) × (t : State) × (m s ≡ (ok a, t)) × (f a t ≡ (ok b, u))
      go (ok a) t e h = (a, t, e, h)
      go (err e') t e h = ground arith

pub host_state_lem :
    (host : String) (s : State)
    → host_state host s ≡ (ok (state_of s.cache host), record s { cache = (get s.cache host).1 })
unfolding host_state state_of
host_state_lem host s = refl

pub modify_lem :
    (host : String) (f : HostState → HostState) (s : State)
    → modify host f s ≡ (ok tt, record s { cache = put s.cache host (f (state_of s.cache host)) })
unfolding modify
modify_lem host f s = refl

pub pure-returned :
    {A : Type 0} (b : A) (s u : State) (a : A) → pure b s ≡ (ok a, u) → (b ≡ a) × (s ≡ u)
unfolding pure
pure-returned b s u a h = (ground arith, ap (λ x. x.1) h)

pub lift-returned :
    {A : Type 0} (r : Result A) (s u : State) (a : A) → lift r s ≡ (ok a, u) → (r ≡ ok a) × (s ≡ u)
unfolding lift
lift-returned r s u a h = (ap (λ x. x.0) h, ap (λ x. x.1) h)

pub lift-ok : {A : Type 0} (r : Result A) (s : State) (a : A) → r ≡ ok a → lift r s ≡ (ok a, s)
unfolding lift
lift-ok r s a h = rw h refl

pub throw_lem : {A : Type 0} (e : Exc) (s : State) → throw {A = A} e s ≡ (err e, s)
unfolding throw
throw_lem e s = refl

pub ask_lem :
    {A : Type 0} (answer : Trace → A) (event : A → Event) (s : State)
    → ask answer event s
      ≡ (ok (answer s.trace), record s { trace = event (answer s.trace) ∷ s.trace })
unfolding ask
ask_lem answer event s = refl
