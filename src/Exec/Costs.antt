-- ===== src/Exec/Costs.antt =====
-- How much an action adds to a weight of the record, at most.
use mathlib.Core.Path.{subst}
use synology_mcp.Base.{
  ◌≡◌, ap, String, ℕ, ◌+◌, ◌≤◌, Bool, true, false, [], ◌∷◌, if◌then◌else◌, arith,
}
use synology_mcp.Errors.{Exc, Result, ok, err}
use synology_mcp.Platform.{Event, Trace}
use synology_mcp.Session.{HostState}
use synology_mcp.Exec.{
  lift, try_with, try_ssh, handle, is_ssh_error, Exec, State, continue, pure, throw, ask,
  host_state, modify, ◌>>=◌,
}

unfoldable pub total : (Event → ℕ) → Trace → ℕ
total w [] = 0
total w (event ∷ trace) = w event + total w trace

module _ (w : Event → ℕ) where
  pub record Costs (n : ℕ) {A : Type 0} (m : Exec A) : Type 0 where
    pub at : (s : State) → total w (m s).1.trace ≤ total w s.trace + n

  module _ {A : Type 0} (n : ℕ) where
    pub Costs-pure : (a : A) → Costs n (pure a)
    unfolding pure
    Costs-pure a = record { at = λ s. omega arith }

    pub Costs-throw : (e : Exc) → Costs n (throw {A = A} e)
    unfolding throw
    Costs-throw e = record { at = λ s. omega arith }

    pub Costs-lift : (r : Result A) → Costs n (lift r)
    unfolding lift
    Costs-lift r = record { at = λ s. omega arith }

    pub Costs-if : (b : Bool) (m k : Exec A) → Costs n m → Costs n k → Costs n (if b then m else k)
    Costs-if true m k hm hk = hm
    Costs-if false m k hm hk = hk

    pub Costs-ask :
        (answer : Trace → A) (event : A → Event)
        → ((a : A) → w (event a) ≤ n)
        → Costs n (ask answer event)
    unfolding ask total
    Costs-ask answer event h = record { at = λ s. omega (arith, h (answer s.trace)) }

  pub Costs-host_state : (host : String) → Costs 0 (host_state host)
  unfolding host_state
  Costs-host_state host = record { at = λ s. omega arith }

  pub Costs-modify : (host : String) (f : HostState → HostState) → Costs 0 (modify host f)
  unfolding modify
  Costs-modify host f = record { at = λ s. omega arith }

  module _ {A B : Type 0} where
    pub Costs-bind :
        (n k t : ℕ) (m : Exec A) (f : A → Exec B)
        → n + k ≤ t
        → Costs n m
        → ((a : A) → Costs k (f a))
        → Costs t (m >>= f)
    unfolding ◌>>=◌
    Costs-bind n k t m f e hm hf = record { at = λ s. go s (m s).0 (m s).1 (hm.at s) }
      where
        go :
            (s : State) (r : Result A) (s' : State)
            → total w s'.trace ≤ total w s.trace + n
            → total w (continue r f s').1.trace ≤ total w s.trace + t
        go s (ok a) s' h = omega (arith, h, e, (hf a).at s')
        go s (err x) s' h = omega (arith, h, e)

    -- two actions that add nothing
    pub Costs-then :
        (m : Exec A) (f : A → Exec B) → Costs 0 m → ((a : A) → Costs 0 (f a)) → Costs 0 (m >>= f)
    Costs-then m f hm hf = Costs-bind 0 0 0 m f (omega arith) hm hf

    pub Costs-try :
        (n k t : ℕ) (m : Exec A) (f : A → Exec B) (g : Exc → Exec B)
        → n + k ≤ t
        → Costs n m
        → ((a : A) → Costs k (f a))
        → ((e : Exc) → Costs k (g e))
        → Costs t (try_with m f g)
    unfolding try_with
    Costs-try n k t m f g e hm hf hg = record { at = λ s. go s (m s).0 (m s).1 (hm.at s) }
      where
        go :
            (s : State) (r : Result A) (s' : State)
            → total w s'.trace ≤ total w s.trace + n
            → total w (handle r f g s').1.trace ≤ total w s.trace + t
        go s (ok a) s' h = omega (arith, h, e, (hf a).at s')
        go s (err x) s' h = omega (arith, h, e, (hg x).at s')

    pub Costs-try_ssh :
        (n k t : ℕ) (m : Exec A) (f : A → Exec B) (g : Exc → Exec B)
        → n + k ≤ t
        → Costs n m
        → ((a : A) → Costs k (f a))
        → ((e : Exc) → Costs k (g e))
        → Costs t (try_ssh m f g)
    unfolding try_ssh
    Costs-try_ssh n k t m f g e hm hf hg =
        Costs-try n k t m f _ e hm hf
          (λ x. Costs-if k (is_ssh_error x) _ _ (hg x) (Costs-throw k x))

  -- an outcome that is known
  pub Costs-outcome :
      {A : Type 0} (n : ℕ) (m : Exec A) (s t : State) (r : Result A)
      → Costs n m
      → m s ≡ (r, t)
      → total w t.trace ≤ total w s.trace + n
  Costs-outcome n m s t r h e =
      subst (λ u. total w u.trace ≤ total w s.trace + n) (ap (λ x. x.1) e) (h.at s)
