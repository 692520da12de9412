-- ===== src/Exec/Ends.antt =====
-- What an action ends in, an answer or an exception, whatever the state.
use synology_mcp.Base.{String, ◌≡◌, refl, Bool, true, false, if◌then◌else◌}
use synology_mcp.Errors.{Exc, Result, ok, err}
use synology_mcp.Platform.{Event, Trace}
use synology_mcp.Session.{HostState}
use synology_mcp.Exec.{ask, host_state, modify, Exec, State, continue, pure, throw, ◌>>=◌}

pub record Ends {A : Type 0} (R : Result A → Type 0) (m : Exec A) : Type 0 where
  pub at : (s : State) → R (m s).0

module _ {A : Type 0} (R : Result A → Type 0) where
  pub Ends-pure : (a : A) → R (ok a) → Ends R (pure a)
  unfolding pure
  Ends-pure a h = record { at = λ s. h }

  pub Ends-throw : (e : Exc) → R (err e) → Ends R (throw e)
  unfolding throw
  Ends-throw e h = record { at = λ s. h }

  pub Ends-ask :
      (answer : Trace → A) (event : A → Event) → ((a : A) → R (ok a)) → Ends R (ask answer event)
  unfolding ask
  Ends-ask answer event h = record { at = λ s. h (answer s.trace) }

  pub Ends-if :
      (b : Bool) (m n : Exec A)
      → (b ≡ true → Ends R m)
      → (b ≡ false → Ends R n)
      → Ends R (if b then m else n)
  Ends-if true m n hm hn = hm refl
  Ends-if false m n hm hn = hn refl

pub Ends-host_state :
    (R : Result HostState → Type 0) (host : String)
    → ((a : HostState) → R (ok a))
    → Ends R (host_state host)
unfolding host_state
Ends-host_state R host h = record { at = λ s. h _ }

pub Ends-modify :
    (R : Result (Unit {0}) → Type 0) (host : String) (f : HostState → HostState)
    → R (ok tt)
    → Ends R (modify host f)
unfolding modify
Ends-modify R host f h = record { at = λ s. h }

module _ {A B : Type 0} (Q : Result A → Type 0) (R : Result B → Type 0) where
  pub Ends-bind :
      (m : Exec A) (f : A → Exec B)
      → Ends Q m
      → ((e : Exc) → Q (err e) → R (err e))
      → ((a : A) → Q (ok a) → Ends R (f a))
      → Ends R (m >>= f)
  unfolding ◌>>=◌
  Ends-bind m f hm he hf = record { at = λ s. go (m s).0 (m s).1 (hm.at s) }
    where
      go : (r : Result A) (t : State) → Q r → R (continue r f t).0
      go (ok a) t h = (hf a h).at t
      go (err e) t h = he e h
