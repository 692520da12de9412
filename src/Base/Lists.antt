-- ===== src/Base/Lists.antt =====
-- Lists measured by native numbers, Boolean filters, and predicates by recursion.
use Prim.Native.Nat.{ℕ, suc, ◌+◌}
use mathlib.Core.Path.{◌≡◌, refl}
use mathlib.Core.Bool.{Bool, true, false, not, ◌||◌}
use mathlib.Core.List.{List, [], ◌∷◌, ◌++◌}
use native.Mathlib.Omega.{arith}
use synology_mcp.Base.Tests.{if◌then◌else◌}

module _ {ℓ} {A : Type ℓ} where
  abbrev pub length : List A → ℕ
  length [] = 0
  length (x ∷ xs) = suc (length xs)

  -- Python's `[x for x in xs if keep(x)]`
  unfoldable pub keep : (A → Bool) → List A → List A
  keep p [] = []
  keep p (x ∷ xs) = let rest = keep p xs in if p x then x ∷ rest else rest

  unfoldable pub any : (A → Bool) → List A → Bool
  any p [] = false
  any p (x ∷ xs) = p x || any p xs

  unfoldable pub is_empty : List A → Bool
  is_empty [] = true
  is_empty (x ∷ xs) = false

abbrev pub All {ℓ κ} : {A : Type ℓ} → (A → Type κ) → List A → Type κ
All P [] = Unit
All P (x ∷ xs) = P x × All P xs

module _ {ℓ} {A : Type ℓ} where
  pub length-keep-complement :
      (p : A → Bool) (xs : List A)
      → length (keep p xs) + length (keep (λ x. not (p x)) xs) ≡ length xs
  unfolding keep
  length-keep-complement p [] = omega arith
  length-keep-complement p (x ∷ xs) = ground (arith, length-keep-complement p xs)

  pub any-keep : (p : A → Bool) (xs : List A) → any p (keep (λ x. not (p x)) xs) ≡ false
  unfolding keep any
  any-keep p [] = refl
  any-keep p (x ∷ xs) = ground (arith, any-keep p xs)

module _ {ℓ κ} {A : Type ℓ} (P : A → Type κ) where
  pub All-append : (xs ys : List A) → All P xs → All P ys → All P (xs ++ ys)
  All-append [] ys h k = k
  All-append (x ∷ xs) ys (p, h) k = (p, All-append xs ys h k)
