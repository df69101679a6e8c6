-- ===== src/Prelude/Order.antt =====
-- The comparison operators of a key type, as the containers use them: `a < b` is `less a b`,
-- `a > b` is `less b a`, and `a == b` is `equal a b`. The laws are those of a strict total order
-- with the equality that goes with it.
use awesome_dsa.Prelude.Tests.{ltb, ◌==◌}
use Prim.Native.Nat.{ℕ}
use mathlib.Core.Path.{◌≡◌}
use mathlib.Core.Bool.{Bool, true, false}
use native.Mathlib.Omega.{arith}

pub record Order {ℓ} (K : Type ℓ) : Type ℓ where
  pub less : K → K → Bool
  pub equal : K → K → Bool
  pub less_irrefl : (a : K) → less a a ≡ false
  pub less_trans : (a b c : K) → less a b ≡ true → less b c ≡ true → less a c ≡ true
  pub less_connex : (a b : K) → less a b ≡ false → less b a ≡ false → a ≡ b
  pub equal_refl : (a : K) → equal a a ≡ true
  pub eq_of_equal : (a b : K) → equal a b ≡ true → a ≡ b

infix 50 ◌≺◌
abbrev pub ◌≺◌ {ℓ} : {K : Type ℓ} ⦃o : Order K⦄ → K → K → Type 0
◌≺◌ ⦃o⦄ a b = o.less a b ≡ true

module _ {ℓ} {K : Type ℓ} ⦃o : Order K⦄ where
  pub less_asymm : (a b : K) → o.less a b ≡ true → o.less b a ≡ false
  less_asymm a b h = ground (arith, o.less_trans a b a, o.less_irrefl a)

  pub less_ne : (a b : K) → o.less a b ≡ true → o.equal a b ≡ false
  less_ne a b h = ground (arith, o.eq_of_equal a b, o.less_irrefl a)

  pub less_ne_rev : (a b : K) → o.less a b ≡ true → o.equal b a ≡ false
  less_ne_rev a b h = ground (arith, o.eq_of_equal b a, o.less_irrefl a)

pub ltb_irrefl : (a : ℕ) → ltb a a ≡ false
ltb_irrefl a = ground arith

pub ltb_trans : (a b c : ℕ) → ltb a b ≡ true → ltb b c ≡ true → ltb a c ≡ true
ltb_trans a b c p q = ground arith

pub ltb_connex : (a b : ℕ) → ltb a b ≡ false → ltb b a ≡ false → a ≡ b
ltb_connex a b p q = ground arith

pub ==_refl : (a : ℕ) → (a == a) ≡ true
==_refl a = ground arith

pub eq_of_== : (a b : ℕ) → (a == b) ≡ true → a ≡ b
eq_of_== a b h = ground arith

instance abbrev pub nat_order : Order ℕ
nat_order = record {
  less = ltb;
  equal = ◌==◌;
  less_irrefl = ltb_irrefl;
  less_trans = ltb_trans;
  less_connex = ltb_connex;
  equal_refl = ==_refl;
  eq_of_equal = eq_of_==;
}
