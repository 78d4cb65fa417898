-- ===== src/Prelude/Keys.antt =====
-- `==` on keys: an interface, with the instances that the program needs.
use Prim.Native.Nat.{ℕ}
use Prim.Native.String.{String}
use mathlib.Core.Path.{◌≡◌, refl}
use mathlib.Core.Logic.{◌↔◌}
use mathlib.Core.Bool.{Bool, true, ◌&&◌}
use native.Mathlib.Omega.{arith}
use text.Mathlib.Text.{◌==◌ as text_eqb}
use text.Mathlib.TextEquality.{eq_iff}
use agentic_alpha_engine.Prelude.Tests.{nat_eqb, nat_eqb_iff}

pub record Eq (A : Type 0) : Type 0 where
  pub eqb : A → A → Bool
  pub eqb_iff : (a b : A) → (eqb a b ≡ true) ↔ (a ≡ b)

infix 50 ◌==◌
abbrev pub ◌==◌ : {A : Type 0} ⦃e : Eq A⦄ → A → A → Bool
◌==◌ ⦃e⦄ = e.eqb

pub ==_iff : {A : Type 0} ⦃e : Eq A⦄ (a b : A) → ((a == b) ≡ true) ↔ (a ≡ b)
==_iff ⦃e⦄ = e.eqb_iff

pub ==_self : {A : Type 0} ⦃e : Eq A⦄ (a : A) → (a == a) ≡ true
==_self a = (==_iff a a).1 refl

instance abbrev pub ℕ_eq : Eq ℕ
ℕ_eq = record { eqb = nat_eqb; eqb_iff = nat_eqb_iff }

instance abbrev pub String_eq : Eq String
String_eq = record { eqb = text_eqb; eqb_iff = eq_iff }

abbrev pub pair_eqb : {A B : Type 0} ⦃a : Eq A⦄ ⦃b : Eq B⦄ → A × B → A × B → Bool
pair_eqb (x, y) (u, v) = x == u && y == v

pub pair_eqb_iff :
    {A B : Type 0} ⦃a : Eq A⦄ ⦃b : Eq B⦄ (p q : A × B) → (pair_eqb p q ≡ true) ↔ (p ≡ q)
pair_eqb_iff (x, y) (u, v) = ground (arith, ==_iff x u, ==_iff y v)

instance abbrev pub ×_eq : {A B : Type 0} ⦃a : Eq A⦄ ⦃b : Eq B⦄ → Eq (A × B)
×_eq = record { eqb = pair_eqb; eqb_iff = pair_eqb_iff }
