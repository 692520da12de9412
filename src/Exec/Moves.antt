-- ===== src/Exec/Moves.antt =====
-- Relations between the state before an action and the state after it, whether it returned or
-- raised: one rule for each way to build an action.
use synology_mcp.Base.{◌≡◌, refl, Bool, true, false, Option, none, some, if◌then◌else◌}
use synology_mcp.Errors.{Exc, Result, ok, err}
use synology_mcp.Exec.{
  Exec, State, continue, handle, pure, throw, lift, ◌>>=◌, try_with, try_ssh, is_ssh_error,
}

pub record Moves (R : State → State → Type 0) {A : Type 0} (m : Exec A) : Type 0 where
  pub at : (s : State) → R s (m s).1

pub record IsPreorder (R : State → State → Type 0) : Type 0 where
  pub stay : (s : State) → R s s
  pub join : (s t u : State) → R s t → R t u → R s u

module _ {R : State → State → Type 0} where
  pub Moves-pure : {A : Type 0} (a : A) → IsPreorder R → Moves R (pure a)
  unfolding pure
  Moves-pure a q = record { at = q.stay }

  pub Moves-lift : {A : Type 0} (r : Result A) → IsPreorder R → Moves R (lift r)
  unfolding lift
  Moves-lift r q = record { at = q.stay }

  pub Moves-throw : {A : Type 0} (e : Exc) → IsPreorder R → Moves R (throw {A = A} e)
  unfolding throw
  Moves-throw e q = record { at = q.stay }

  pub Moves-if :
      {A : Type 0} (b : Bool) (m k : Exec A) → Moves R m → Moves R k → Moves R (if b then m else k)
  Moves-if true m k hm hk = hm
  Moves-if false m k hm hk = hk

  -- an action for each case of an option
  pub Moves-elim :
      {A B : Type 0} (o : Option B) (m : Exec A) (f : B → Exec A)
      → Moves R m
      → ((b : B) → Moves R (f b))
      → Moves R (elim o [ none ↦ m | some b ↦ f b ])
  Moves-elim none m f hm hf = hm
  Moves-elim (some b) m f hm hf = hf b

module _ {R : State → State → Type 0} {A B : Type 0} where
  pub Moves-bind :
      (m : Exec A) (f : A → Exec B)
      → IsPreorder R
      → Moves R m
      → ((a : A) → Moves R (f a))
      → Moves R (m >>= f)
  unfolding ◌>>=◌
  Moves-bind m f q km kf = record { at = λ s. go s (m s).0 (m s).1 refl (km.at s) }
    where
      go : (s : State) (r : Result A) (t : State) → (m s).1 ≡ t → R s t → R s (continue r f t).1
      go s (ok a) t e h = q.join s t _ h ((kf a).at t)
      go s (err e') t e h = h

  -- the rest may use that `r` did not raise
  pub Moves-bind-lift :
      (r : Result A) (f : A → Exec B)
      → IsPreorder R
      → ((a : A) → r ≡ ok a → Moves R (f a))
      → Moves R (lift r >>= f)
  unfolding ◌>>=◌ lift
  Moves-bind-lift (ok a) f q kf = kf a refl
  Moves-bind-lift (err e) f q kf = Moves-throw e q

  pub Moves-try :
      (m : Exec A) (f : A → Exec B) (g : Exc → Exec B)
      → IsPreorder R
      → Moves R m
      → ((a : A) → Moves R (f a))
      → ((e : Exc) → Moves R (g e))
      → Moves R (try_with m f g)
  unfolding try_with
  Moves-try m f g q km kf kg = record { at = λ s. go s (m s).0 (m s).1 (km.at s) }
    where
      go : (s : State) (r : Result A) (t : State) → R s t → R s (handle r f g t).1
      go s (ok a) t h = q.join s t _ h ((kf a).at t)
      go s (err e) t h = q.join s t _ h ((kg e).at t)

  pub Moves-try_ssh :
      (m : Exec A) (f : A → Exec B) (g : Exc → Exec B)
      → IsPreorder R
      → Moves R m
      → ((a : A) → Moves R (f a))
      → ((e : Exc) → Moves R (g e))
      → Moves R (try_ssh m f g)
  unfolding try_ssh
  Moves-try_ssh m f g q km kf kg =
      Moves-try m f _ q km kf (λ e. Moves-if (is_ssh_error e) _ _ (kg e) (Moves-throw e q))

pub ruleset moves_rules = (
  Moves-pure, Moves-throw, Moves-lift, Moves-if, Moves-elim, Moves-bind, Moves-try, Moves-try_ssh,
)
