-- ===== src/Common/Eq.antt =====
-- The equality test of the source's `PartialEq`, as an interface with its law.
use Prim.Native.Nat.{ℕ}
use Prim.Native.String.{String}
use mathlib.Core.Path.{◌≡◌}
use mathlib.Core.Logic.{◌↔◌}
use mathlib.Core.Bool.{Bool, true}
use native.Mathlib.Omega.{arith}
use text.Mathlib.Text.{◌==◌ as str_eq}
use text.Mathlib.TextEquality.{eq_iff}
use vai.Common.Tests.{nat_eq, nat_eq_iff}

pub record Equality {ℓ} (A : Type ℓ) : Type ℓ where
  pub eqb : A → A → Bool
  pub eqb_iff : (a b : A) → (eqb a b ≡ true) ↔ (a ≡ b)

infix 50 ◌==◌
abbrev pub ◌==◌ {ℓ} : {A : Type ℓ} ⦃e : Equality A⦄ → A → A → Bool
◌==◌ ⦃e⦄ = e.eqb

instance abbrev pub nat_equality : Equality ℕ
nat_equality = record { eqb = nat_eq; eqb_iff = nat_eq_iff }

instance abbrev pub string_equality : Equality String
string_equality = record { eqb = str_eq; eqb_iff = eq_iff }

pub eq_flip : (x y : String) → (x == y) ≡ (y == x)
eq_flip x y = ground (arith, eq_iff x y, eq_iff y x)
