-- ===== src/Prelude/Priority.antt =====
-- The comparator of a priority queue: `comp(a, b)` says that `a` has the higher priority. The laws
-- are those that the standard library asks of a `Compare`, a strict weak order.
use mathlib.Core.Path.{◌≡◌}
use mathlib.Core.Bool.{Bool, true, false}
use mathlib.Core.List.{List, [], ◌∷◌}
use Prim.Native.Nat.{ℕ}
use native.Mathlib.Omega.{arith}
use awesome_dsa.Prelude.Tests.{ltb}
use awesome_dsa.Prelude.Ascending.{Each}

pub record Priority {ℓ} (T : Type ℓ) : Type ℓ where
  pub comp : T → T → Bool
  pub comp_asymm : (a b : T) → comp a b ≡ true → comp b a ≡ false
  pub comp_cotrans : (a b c : T) → comp b a ≡ false → comp c b ≡ false → comp c a ≡ false

-- `b` does not come before `a`
infix 50 ◌≼◌
abbrev pub ◌≼◌ {ℓ} : {T : Type ℓ} ⦃p : Priority T⦄ → T → T → Type 0
◌≼◌ ⦃p⦄ a b = p.comp b a ≡ false

-- No element comes before an earlier one.
abbrev pub InOrder {ℓ} : {T : Type ℓ} ⦃p : Priority T⦄ → List T → Type 0
InOrder [] = Unit
InOrder (x ∷ xs) = Each (λ y. x ≼ y) xs × InOrder xs

pub ltb_asymm : (a b : ℕ) → ltb a b ≡ true → ltb b a ≡ false
ltb_asymm a b h = ground arith

pub ltb_cotrans : (a b c : ℕ) → ltb b a ≡ false → ltb c b ≡ false → ltb c a ≡ false
ltb_cotrans a b c p q = ground arith

-- `std::less`
instance abbrev pub nat_less : Priority ℕ
nat_less = record { comp = ltb; comp_asymm = ltb_asymm; comp_cotrans = ltb_cotrans }
