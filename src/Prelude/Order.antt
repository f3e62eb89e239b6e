-- ===== src/Prelude/Order.antt =====
-- Totally ordered keys: what `BTreeSet`, `HashMap` and `sort` ask of their elements.
pub mod Sets
pub mod Laws
use mathlib.Core.Path.{◌≡◌, refl}
use mathlib.Core.Logic.{◌↔◌}
use mathlib.Core.Bool.{Bool, true, false}

pub record Order {ℓ} (K : Type ℓ) : Type ℓ where
  pub beq : K → K → Bool
  pub ltb : K → K → Bool
  pub beq_iff : (a b : K) → (beq a b ≡ true) ↔ (a ≡ b)
  pub lt_irrefl : (a : K) → ltb a a ≡ false
  pub lt_trans : (a b c : K) → ltb a b ≡ true → ltb b c ≡ true → ltb a c ≡ true
  pub lt_total : (a b : K) → beq a b ≡ false → ltb a b ≡ false → ltb b a ≡ true

infix 50 ◌==◌ ◌<?◌
abbrev pub ◌==◌ {ℓ} : {K : Type ℓ} ⦃o : Order K⦄ → K → K → Bool
◌==◌ ⦃o⦄ = o.beq

abbrev pub ◌<?◌ {ℓ} : {K : Type ℓ} ⦃o : Order K⦄ → K → K → Bool
◌<?◌ ⦃o⦄ = o.ltb

pub beq_refl {ℓ} : {K : Type ℓ} ⦃o : Order K⦄ (a : K) → a == a ≡ true
beq_refl ⦃o⦄ a = (o.beq_iff a a).1 refl
