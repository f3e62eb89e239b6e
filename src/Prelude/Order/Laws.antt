-- ===== src/Prelude/Order/Laws.antt =====
-- Laws of sets, sorting and counting over an ordered key.
use Prim.Native.Nat.{suc, ◌+◌, ◌≤◌, ◌<◌}
use mathlib.Core.Path.{◌≡◌, refl}
use mathlib.Core.Logic.{inl, inr}
use mathlib.Core.Bool.{true, false, ◌||◌}
use mathlib.Core.List.{List, [], ◌∷◌, ◌++◌}
use native.Mathlib.Omega.{arith}
use dojjo.Prelude.Tests.{if◌then◌else◌, nat_eq, Bool-cases}
use dojjo.Prelude.Lists.{length, All}
use dojjo.Prelude.Order.{Order, ◌==◌, ◌<?◌, beq_refl}
use dojjo.Prelude.Order.Sets.{contains, insert, set_of, place, sort, count, position, IsIncreasing}

module _ {ℓ} {K : Type ℓ} ⦃o : Order K⦄ where
  pub contains-insert :
      (a : K) (xs : List K) (b : K) → contains (insert a xs) b ≡ (a == b || contains xs b)
  unfolding insert
  contains-insert a [] b = refl
  contains-insert a (x ∷ xs) b =
      ground (arith, contains-insert a xs b, o.beq_iff a x, o.beq_iff a b, o.beq_iff x b)

  pub contains-set_of : (xs : List K) (b : K) → contains (set_of xs) b ≡ contains xs b
  unfolding set_of
  contains-set_of [] b = refl
  contains-set_of (x ∷ xs) b = ground (arith, contains-insert x (set_of xs) b, contains-set_of xs b)

  pub contains-append :
      (xs ys : List K) (b : K) → contains (xs ++ ys) b ≡ (contains xs b || contains ys b)
  contains-append [] ys b = refl
  contains-append (x ∷ xs) ys b = ground (arith, contains-append xs ys b)

  All-gt_trans :
      (a x : K) (xs : List K)
      → a <? x ≡ true
      → All (λ y. x <? y ≡ true) xs
      → All (λ y. a <? y ≡ true) xs
  All-gt_trans a x [] h k = tt
  All-gt_trans a x (y ∷ ys) h k = (o.lt_trans a x y h k.0, All-gt_trans a x ys h k.1)

  All-gt-insert :
      (x a : K) (xs : List K)
      → x <? a ≡ true
      → All (λ y. x <? y ≡ true) xs
      → All (λ y. x <? y ≡ true) (insert a xs)
  unfolding insert
  All-gt-insert x a [] h k = (h, tt)
  All-gt-insert x a (y ∷ ys) h k = ground (arith, All-gt-insert x a ys h)

  pub insert-IsIncreasing : (a : K) (xs : List K) → IsIncreasing xs → IsIncreasing (insert a xs)
  unfolding insert
  insert-IsIncreasing a [] h = (tt, tt)
  insert-IsIncreasing a (x ∷ xs) h = ground (
    arith,
    insert-IsIncreasing a xs h.1,
    All-gt-insert x a xs,
    All-gt_trans a x xs,
    o.lt_total a x,
  )

  pub set_of-IsIncreasing : (xs : List K) → IsIncreasing (set_of xs)
  unfolding set_of
  set_of-IsIncreasing [] = tt
  set_of-IsIncreasing (x ∷ xs) = insert-IsIncreasing x (set_of xs) (set_of-IsIncreasing xs)

  not_contains_of_gt : (a : K) (xs : List K) → All (λ y. a <? y ≡ true) xs → contains xs a ≡ false
  not_contains_of_gt a [] h = refl
  not_contains_of_gt a (x ∷ xs) h =
      ground (arith, not_contains_of_gt a xs h.1, o.beq_iff x a, o.lt_irrefl a)

  -- The least element of a set occurs once.
  pub not-contains-tail : (a : K) (xs : List K) → IsIncreasing (a ∷ xs) → contains xs a ≡ false
  not-contains-tail a xs h = not_contains_of_gt a xs h.0

  pub contains-eq-count : (xs : List K) (a : K) → contains xs a ≡ true → 0 < count a xs
  contains-eq-count [] a h = cc
  contains-eq-count (x ∷ xs) a h = ground (arith, contains-eq-count xs a)

  pub count-not-contains : (xs : List K) (a : K) → contains xs a ≡ false → count a xs ≡ 0
  count-not-contains [] a h = refl
  count-not-contains (x ∷ xs) a h = ground (arith, count-not-contains xs a)

  pub count-IsIncreasing :
      (xs : List K) (a : K) → IsIncreasing xs → count a xs ≡ (if contains xs a then 1 else 0)
  count-IsIncreasing [] a h = refl
  count-IsIncreasing (x ∷ xs) a h = ground (
    arith,
    count-IsIncreasing xs a h.1,
    not-contains-tail x xs h,
    o.beq_iff x a,
    count-not-contains xs a,
  )

  pub count-append : (a : K) (xs ys : List K) → count a (xs ++ ys) ≡ count a xs + count a ys
  count-append a [] ys = omega arith
  count-append a (x ∷ xs) ys = omega (arith, count-append a xs ys)

  count-place :
      (a x : K) (xs : List K) → count a (place x xs) ≡ (if x == a then 1 else 0) + count a xs
  unfolding place
  count-place a x [] = refl
  count-place a x (y ∷ ys) = ground (arith, count-place a x ys)

  pub count-sort : (a : K) (xs : List K) → count a (sort xs) ≡ count a xs
  unfolding sort
  count-sort a [] = refl
  count-sort a (x ∷ xs) = ground (arith, count-place a x (sort xs), count-sort a xs)

  pub contains-sort : (xs : List K) (a : K) → contains (sort xs) a ≡ contains xs a
  contains-sort xs a = elim (Bool-cases (contains xs a)) [
    | inl hit ↦
        ground
          (arith, hit, contains-eq-count xs a hit, count-sort a xs, count-not-contains (sort xs) a)
    | inr gone ↦
        ground (
          arith,
          gone,
          count-not-contains xs a gone,
          count-sort a xs,
          contains-eq-count (sort xs) a,
        )
  ]

  pub position-append :
      (a : K) (xs ys : List K)
      → position a (xs ++ ys) ≡ (if contains xs a then position a xs else length xs + position a ys)
  position-append a [] ys = omega arith
  position-append a (x ∷ xs) ys = ground (arith, position-append a xs ys)

  pub position-lt-length : (a : K) (xs : List K) → contains xs a ≡ true → position a xs < length xs
  position-lt-length a [] h = cc
  position-lt-length a (x ∷ xs) h = ground (arith, position-lt-length a xs)

  pub position-eq-length : (a : K) (xs : List K) → contains xs a ≡ false → position a xs ≡ length xs
  position-eq-length a [] h = refl
  position-eq-length a (x ∷ xs) h = ground (arith, position-eq-length a xs)

  pub position-le-length : (a : K) (xs : List K) → position a xs ≤ length xs
  position-le-length a [] = omega arith
  position-le-length a (x ∷ xs) = ground (arith, position-le-length a xs)

  -- Removes the first occurrence.
  erase : K → List K → List K
  erase a [] = []
  erase a (x ∷ xs) = if x == a then xs else x ∷ erase a xs

  count-erase :
      (a b : K) (xs : List K)
      → 0 < count a xs
      → count b (erase a xs) + (if a == b then 1 else 0) ≡ count b xs
  unfolding erase
  count-erase a b [] h = absurd (omega arith)
  count-erase a b (x ∷ xs) h =
      ground (arith, count-erase a b xs, o.beq_iff x a, o.beq_iff a b, o.beq_iff x b)

  length-erase : (a : K) (xs : List K) → 0 < count a xs → suc (length (erase a xs)) ≡ length xs
  unfolding erase
  length-erase a [] h = absurd (omega arith)
  length-erase a (x ∷ xs) h = ground (arith, length-erase a xs)

  -- A list that holds nothing more often than another is not longer.
  pub length-le_of_count :
      (xs ys : List K) → ((a : K) → count a xs ≤ count a ys) → length xs ≤ length ys
  length-le_of_count [] ys h = omega arith
  length-le_of_count (x ∷ xs) ys h =
      let here : 0 < count x ys = ground (arith, h x, beq_refl x) in
      let rest =
        length-le_of_count xs (erase x ys) (λ a. omega (arith, h a, count-erase x a ys here)) in
      omega (arith, rest, length-erase x ys here)

  -- Inclusion with equal lengths is equality of counts.
  pub count_eq_of_length :
      (xs ys : List K)
      → ((a : K) → count a xs ≤ count a ys)
      → length xs ≡ length ys
      → (a : K) → count a xs ≡ count a ys
  count_eq_of_length xs ys h e a = elim (Bool-cases (nat_eq (count a xs) (count a ys))) [
    | inl same ↦ ground (arith, same)
    | inr less ↦
        let more =
          length-le_of_count (a ∷ xs) ys (λ b. ground (arith, less, h a, h b, o.beq_iff a b)) in
        absurd (omega (arith, more, e))
  ]
