-- ===== src/Base/Int.antt =====
-- Python's `int`: unbounded. `negsuc n` is -(n + 1).
use Prim.Native.Nat.{ℕ, zero, suc, ◌+◌, ◌-◌, ◌*◌}
use mathlib.Core.Path.{◌≡◌}
use mathlib.Core.Logic.{◌↔◌}
use mathlib.Core.Bool.{Bool, true, false, not}
use native.Mathlib.Omega.{arith}
use synology_mcp.Base.Tests.{leb, nat_eq, if◌then◌else◌}

pub data ℤ : Type 0 where
  pos : ℕ → ℤ
  negsuc : ℕ → ℤ

infix 50 ◌==ℤ◌
abbrev pub ◌==ℤ◌ : ℤ → ℤ → Bool
pos a ==ℤ pos b = nat_eq a b
negsuc a ==ℤ negsuc b = nat_eq a b
_ ==ℤ _ = false

abbrev pub leb_ℤ : ℤ → ℤ → Bool
leb_ℤ (pos a) (pos b) = leb a b
leb_ℤ (negsuc a) (pos b) = true
leb_ℤ (pos a) (negsuc b) = false
leb_ℤ (negsuc a) (negsuc b) = leb b a

abbrev pub ltb_ℤ : ℤ → ℤ → Bool
ltb_ℤ a b = not (leb_ℤ b a)

sub_ℕ : ℕ → ℕ → ℤ
sub_ℕ a b = if leb b a then pos (a - b) else negsuc (b - a - 1)

unfoldable pub sub_ℤ : ℤ → ℤ → ℤ
unfolding sub_ℕ
sub_ℤ (pos a) (pos b) = sub_ℕ a b
sub_ℤ (pos a) (negsuc b) = pos (a + b + 1)
sub_ℤ (negsuc a) (pos b) = negsuc (a + b)
sub_ℤ (negsuc a) (negsuc b) = sub_ℕ b a

-- the product by a natural number
unfoldable pub scale : ℕ → ℤ → ℤ
scale k (pos n) = pos (n * k)
scale k (negsuc n) = elim ((n + 1) * k) [ zero ↦ pos 0 | suc m ↦ negsuc m ]

pub ==ℤ_iff : (a b : ℤ) → ((a ==ℤ b) ≡ true) ↔ (a ≡ b)
==ℤ_iff (pos a) (pos b) = ground arith
==ℤ_iff (pos a) (negsuc b) = ground arith
==ℤ_iff (negsuc a) (pos b) = ground arith
==ℤ_iff (negsuc a) (negsuc b) = ground arith
