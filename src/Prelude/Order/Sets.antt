-- ===== src/Prelude/Order/Sets.antt =====
-- `BTreeSet` as a strictly increasing list, `HashMap` as a function, membership, sorting.
use Prim.Native.Nat.{ℕ, suc, ◌+◌}
use mathlib.Core.Path.{◌≡◌}
use mathlib.Core.Bool.{Bool, true, false, ◌||◌}
use mathlib.Core.Option.{Option, some}
use mathlib.Core.List.{List, [], ◌∷◌}
use dojjo.Prelude.Tests.{if◌then◌else◌}
use dojjo.Prelude.Lists.{All}
use dojjo.Prelude.Order.{Order, ◌==◌, ◌<?◌}

abbrev pub Map {ℓ κ} : Type ℓ → Type κ → Type (ℓ ⊔ κ)
Map K V = K → Option V

module _ {ℓ} {K : Type ℓ} ⦃o : Order K⦄ where
  abbrev pub update {κ} : {V : Type κ} → Map K V → K → V → Map K V
  update m k v j = if k == j then some v else m j

  abbrev pub contains : List K → K → Bool
  contains [] a = false
  contains (x ∷ xs) a = x == a || contains xs a

  -- `BTreeSet::insert`
  unfoldable pub insert : K → List K → List K
  insert a [] = a ∷ []
  insert a (x ∷ xs) = if a == x then x ∷ xs else if a <? x then a ∷ x ∷ xs else x ∷ insert a xs

  -- `iter().collect::<BTreeSet>()`
  unfoldable pub set_of : List K → List K
  set_of [] = []
  set_of (x ∷ xs) = insert x (set_of xs)

  -- One step of a stable insertion sort.
  unfoldable pub place : K → List K → List K
  place a [] = a ∷ []
  place a (x ∷ xs) = if x <? a then x ∷ place a xs else a ∷ x ∷ xs

  -- `sort()`: for a total order every sort has the same result.
  unfoldable pub sort : List K → List K
  unfolding place
  sort [] = []
  sort (x ∷ xs) = place x (sort xs)

  abbrev pub count : K → List K → ℕ
  count a [] = 0
  count a (x ∷ xs) = (if x == a then 1 else 0) + count a xs

  -- The index of the first occurrence, or the length.
  abbrev pub position : K → List K → ℕ
  position a [] = 0
  position a (x ∷ xs) = if x == a then 0 else suc (position a xs)

  -- Strictly increasing: the invariant of a set.
  abbrev pub IsIncreasing : List K → Type 0
  IsIncreasing [] = Unit
  IsIncreasing (x ∷ xs) = All (λ y. x <? y ≡ true) xs × IsIncreasing xs

  -- Nothing stands behind a greater key.
  abbrev pub IsSorted : List K → Type 0
  IsSorted [] = Unit
  IsSorted (x ∷ xs) = All (λ y. y <? x ≡ false) xs × IsSorted xs
