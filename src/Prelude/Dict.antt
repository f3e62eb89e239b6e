-- ===== src/Prelude/Dict.antt =====
-- `HashMap` where its entries are iterated: an association list, in the order of iteration.
use mathlib.Core.Path.{◌≡◌, refl, sym}
use mathlib.Core.Option.{Option, none, some}
use mathlib.Core.List.{List, [], ◌∷◌}
use native.Mathlib.Omega.{arith}
use dojjo.Prelude.Tests.{is_some, Bool-cases, if◌then◌else◌}
use dojjo.Prelude.Order.{Order, ◌==◌}
use dojjo.Prelude.Order.Sets.{contains, count}
use dojjo.Prelude.Order.Laws.{count-not-contains}
use dojjo.Prelude.Lists.{length}
use mathlib.Core.Logic.{inl, inr}
use Prim.Native.Nat.{suc, ◌+◌, ◌≤◌}

abbrev pub Dict {ℓ κ} : Type ℓ → Type κ → Type (ℓ ⊔ κ)
Dict K V = List (K × V)

module _ {ℓ κ} {K : Type ℓ} {V : Type κ} where
  abbrev pub keys : Dict K V → List K
  keys [] = []
  keys ((k, v) ∷ d) = k ∷ keys d

module _ {ℓ κ} {K : Type ℓ} {V : Type κ} ⦃o : Order K⦄ where
  unfoldable pub lookup : K → Dict K V → Option V
  lookup k [] = none
  lookup k ((j, v) ∷ d) = if j == k then some v else lookup k d

  -- `insert`: the value of a key that is there is replaced.
  unfoldable pub put : K → V → Dict K V → Dict K V
  put k v [] = (k, v) ∷ []
  put k v ((j, w) ∷ d) = if j == k then (k, v) ∷ d else (j, w) ∷ put k v d

  unfoldable pub erase : K → Dict K V → Dict K V
  erase k [] = []
  erase k ((j, v) ∷ d) = let rest = erase k d in if j == k then rest else (j, v) ∷ rest

  pub lookup-put :
      (k j : K) (v : V) (d : Dict K V)
      → lookup j (put k v d) ≡ (if k == j then some v else lookup j d)
  unfolding lookup put
  lookup-put k j v [] = refl
  lookup-put k j v ((i, w) ∷ d) =
      ground (arith, o.beq_iff k j, o.beq_iff i k, o.beq_iff i j, lookup-put k j v d)

  pub lookup-erase :
      (k j : K) (d : Dict K V) → lookup j (erase k d) ≡ (if k == j then none else lookup j d)
  unfolding lookup erase
  lookup-erase k j [] = ground arith
  lookup-erase k j ((i, w) ∷ d) =
      ground (arith, o.beq_iff k j, o.beq_iff i k, o.beq_iff i j, lookup-erase k j d)

  pub contains-keys : (k : K) (d : Dict K V) → contains (keys d) k ≡ is_some (lookup k d)
  unfolding lookup
  contains-keys k [] = refl
  contains-keys k ((j, v) ∷ d) = ground (arith, contains-keys k d)

  pub count-keys-put :
      (k j : K) (v : V) (d : Dict K V)
      → count j (keys (put k v d))
        ≡ count j (keys d) + (if contains (keys d) k then 0 else if k == j then 1 else 0)
  unfolding put
  count-keys-put k j v [] = ground arith
  count-keys-put k j v ((i, w) ∷ d) =
      ground (arith, o.beq_iff k j, o.beq_iff i k, o.beq_iff i j, count-keys-put k j v d)

  pub count-keys-erase :
      (k j : K) (d : Dict K V)
      → count j (keys (erase k d)) ≡ (if k == j then 0 else count j (keys d))
  unfolding erase
  count-keys-erase k j [] = ground arith
  count-keys-erase k j ((i, w) ∷ d) =
      ground (arith, o.beq_iff k j, o.beq_iff i k, o.beq_iff i j, count-keys-erase k j d)

  pub length-put_le : (k : K) (v : V) (d : Dict K V) → length (put k v d) ≤ suc (length d)
  unfolding put
  length-put_le k v [] = omega arith
  length-put_le k v ((i, w) ∷ d) = ground (arith, length-put_le k v d)

  -- `put` keeps the keys different.
  pub put_unique :
      (k : K) (v : V) (d : Dict K V)
      → ((j : K) → count j (keys d) ≤ 1)
      → (j : K) → count j (keys (put k v d)) ≤ 1
  put_unique k v d h j = elim (Bool-cases (k == j)) [
    | inl e ↦
        let same = (o.beq_iff k j).0 e in
        let absent = count-not-contains (keys d) k in
        rw (count-keys-put k j v d, e) (rw (sym same) (ground (arith, h k, absent)))
    | inr ne ↦ rw (count-keys-put k j v d, ne) (ground (arith, h j))
  ]
