-- ===== src/Prelude/Order.antt =====
-- Python's order on numbers, texts (by code points) and tuples.
use Prim.Native.Nat.{ℕ}
use Prim.Native.Char.{code}
use Prim.Native.String.{String}
use mathlib.Core.Path.{◌≡◌, refl, ap₂}
use mathlib.Core.Logic.{◌⊎◌, inl, inr}
use mathlib.Core.Bool.{Bool, true, false, ◌&&◌}
use native.Mathlib.Omega.{arith}
use text.Mathlib.TextEquality.{Char-path}
use agentic_alpha_engine.Prelude.Tests.{ltb, leb, nat_eqb, if◌then◌else◌}

-- `a <= b`
pub record Ord (A : Type 0) : Type 0 where
  pub le : A → A → Bool
  pub le_total : (a b : A) → (le a b ≡ true) ⊎ (le b a ≡ true)
  pub le_trans : (a b c : A) → le a b ≡ true → le b c ≡ true → le a c ≡ true
  pub le_antisymm : (a b : A) → le a b ≡ true → le b a ≡ true → a ≡ b

unfoldable pub text_le : String → String → Bool
text_le String.[] t = true
text_le (String.◌∷◌ c s) String.[] = false
text_le (String.◌∷◌ c s) (String.◌∷◌ d t) =
    if ltb (code c) (code d) then true else nat_eqb (code c) (code d) && text_le s t

pub text_le_total : (s t : String) → (text_le s t ≡ true) ⊎ (text_le t s ≡ true)
unfolding text_le
text_le_total String.[] t = inl refl
text_le_total (String.◌∷◌ c s) String.[] = inr refl
text_le_total (String.◌∷◌ c s) (String.◌∷◌ d t) = ground (arith, text_le_total s t)

pub text_le_trans : (s t u : String) → text_le s t ≡ true → text_le t u ≡ true → text_le s u ≡ true
unfolding text_le
text_le_trans String.[] t u h k = refl
text_le_trans (String.◌∷◌ c s) String.[] u h k = ground arith
text_le_trans (String.◌∷◌ c s) (String.◌∷◌ d t) String.[] h k = ground arith
text_le_trans (String.◌∷◌ c s) (String.◌∷◌ d t) (String.◌∷◌ e u) h k =
    ground (arith, text_le_trans s t u)

pub text_le_antisymm : (s t : String) → text_le s t ≡ true → text_le t s ≡ true → s ≡ t
unfolding text_le
text_le_antisymm String.[] String.[] h k = refl
text_le_antisymm String.[] (String.◌∷◌ d t) h k = ground arith
text_le_antisymm (String.◌∷◌ c s) String.[] h k = ground arith
text_le_antisymm (String.◌∷◌ c s) (String.◌∷◌ d t) h k =
    ap₂ String.◌∷◌ (Char-path c d (ground arith))
      (text_le_antisymm s t (ground arith) (ground arith))

pub leb_total : (a b : ℕ) → (leb a b ≡ true) ⊎ (leb b a ≡ true)
leb_total a b = ground arith

pub leb_trans : (a b c : ℕ) → leb a b ≡ true → leb b c ≡ true → leb a c ≡ true
leb_trans a b c h k = ground arith

pub leb_antisymm : (a b : ℕ) → leb a b ≡ true → leb b a ≡ true → a ≡ b
leb_antisymm a b h k = ground arith

instance abbrev pub ℕ_ord : Ord ℕ
ℕ_ord = record { le = leb; le_total = leb_total; le_trans = leb_trans; le_antisymm = leb_antisymm }

instance abbrev pub String_ord : Ord String
String_ord = record {
  le = text_le;
  le_total = text_le_total;
  le_trans = text_le_trans;
  le_antisymm = text_le_antisymm;
}

-- Tuples: the first place where they differ decides.
module _ {A B : Type 0} ⦃a : Ord A⦄ ⦃b : Ord B⦄ where
  abbrev pub pair_le : A × B → A × B → Bool
  pair_le (x, y) (u, v) = if a.le x u then (if a.le u x then b.le y v else true) else false

  pub pair_le_total : (p q : A × B) → (pair_le p q ≡ true) ⊎ (pair_le q p ≡ true)
  pair_le_total (x, y) (u, v) = ground (arith, a.le_total x u, b.le_total y v)

  pub pair_le_trans : (p q r : A × B) → pair_le p q ≡ true → pair_le q r ≡ true → pair_le p r ≡ true
  pair_le_trans (x, y) (u, v) (m, n) h k =
      ground (arith, a.le_trans x u m, a.le_trans m x u, a.le_trans u m x, b.le_trans y v n)

  pub pair_le_antisymm : (p q : A × B) → pair_le p q ≡ true → pair_le q p ≡ true → p ≡ q
  pair_le_antisymm (x, y) (u, v) h k = ground (arith, a.le_antisymm x u, b.le_antisymm y v)

  instance abbrev pub ×_ord : Ord (A × B)
  ×_ord = record {
    le = pair_le;
    le_total = pair_le_total;
    le_trans = pair_le_trans;
    le_antisymm = pair_le_antisymm;
  }
