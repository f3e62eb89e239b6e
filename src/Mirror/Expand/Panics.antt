-- ===== src/Mirror/Expand/Panics.antt =====
-- No assertion of operation_expand.rs fails.
use Prim.Native.Nat.{ℕ, zero, suc}
use dojjo.Prelude.Text.Order.{text_order, text_lt_irrefl, text_lt_trans}
use dojjo.Prelude.{
  List, [], ◌∷◌, ◌≡◌, ◌≢◌, inl, inr, refl, Bool, true, false, ◌||◌, arith, nat_eq, nat_eq_iff,
  length, All, Result, ok, err, panic, assert, guard, ◌>>=◌, Bool-cases,
}
use dojjo.Prelude.Order.Sets.{contains, set_of, place, sort}
use dojjo.Prelude.Dict.{Dict, lookup}
use dojjo.Prelude.Text.{Text, len, starts_with}
use dojjo.Mirror.Operation.{
  Bytes, Codec, IsHex, invalid_data, operation_id_bytes, operation_id_hex_chars, op_prefix,
  is_all_zero, parent_path,
}
use dojjo.Mirror.ApplyOrder.{read_parents, windows_le}
use dojjo.Mirror.Expand.{
  Closure, add_parent, expand_parents, expand_child, expand_loop, op_seeds, seeded, expand_fuel,
  expand_operation_parent_closure,
}
use dojjo.Mirror.Expand.Rounds.{expand_child-Grows}

windows_le-place :
    (a : Text) (xs : List Text) → windows_le xs ≡ true → windows_le (place a xs) ≡ true
unfolding windows_le place
windows_le-place a [] h = refl
windows_le-place a (x ∷ []) h = ground (arith, text_lt_trans x a x, text_lt_irrefl x)
windows_le-place a (x ∷ y ∷ r) h =
    ground (arith, h, text_lt_trans x a x, text_lt_irrefl x, windows_le-place a (y ∷ r))

windows_le-sort : (xs : List Text) → windows_le (sort xs) ≡ true
unfolding sort
windows_le-sort [] = unfold windows_le in refl
windows_le-sort (x ∷ xs) = windows_le-place x (sort xs) (windows_le-sort xs)

bind-ne-panic {ℓ κ μ} :
    {E : Type ℓ} {A : Type κ} {B : Type μ} (m : Result E A) (next : A → Result E B)
    → m ≢ panic
    → ((a : A) → m ≡ ok a → next a ≢ panic)
    → m >>= next ≢ panic
bind-ne-panic (ok a) next h k = k a refl
bind-ne-panic (err e) next h k = λ p. cc
bind-ne-panic panic next h k = absurd (h refl)

assert-ne-panic {ℓ} : {E : Type ℓ} (b : Bool) → b ≡ true → assert {E = E} b ≢ panic
assert-ne-panic true e h = cc
assert-ne-panic false e h = cc

guard-ne-panic {ℓ} : {E : Type ℓ} (b : Bool) (e : E) → guard b e ≢ panic
guard-ne-panic true e h = cc
guard-ne-panic false e h = cc

guard-true {ℓ} : {E : Type ℓ} (b : Bool) (e : E) {u : Unit {0}} → guard b e ≡ ok u → b ≡ true
guard-true true e h = refl
guard-true false e h = cc

module _ (c : Codec) (disk : Dict Text Bytes) (hex : IsHex c) where
  read_parents-ne-panic : (path : Text) → read_parents c (λ p. lookup p disk) path ≢ panic
  unfolding read_parents
  read_parents-ne-panic path h = ground (arith, h)

  add_parent-ne-panic : (path : Text) (q : Closure) → add_parent c disk path q ≢ panic
  unfolding add_parent
  add_parent-ne-panic path q h = ground (arith, h)

  expand_parents-ne-panic :
      (ps seen : List Bytes) (q : Closure) → expand_parents c disk ps seen q ≢ panic
  unfolding expand_parents
  expand_parents-ne-panic [] seen q = λ h. cc
  expand_parents-ne-panic (p ∷ ps) seen q =
      bind-ne-panic (guard (nat_eq (length p) operation_id_bytes) invalid_data) _
        (guard-ne-panic _ invalid_data)
        λ _ sized. elim (Bool-cases (is_all_zero p || contains seen p)) [
          | inl skip ↦ rw skip (expand_parents-ne-panic ps seen q)
          | inr take ↦
              let long : len (c.hex_encode p) ≡ operation_id_hex_chars = ground (
                arith,
                guard-true (nat_eq (length p) operation_id_bytes) invalid_data sized,
                hex.len-hex_encode p,
              ) in
              rw take (
                bind-ne-panic (assert (nat_eq (len (c.hex_encode p)) operation_id_hex_chars)) _
                  (assert-ne-panic _ ((nat_eq_iff _ _).1 long))
                  λ _ _.
                    bind-ne-panic (add_parent c disk (parent_path c p) q) _
                      (add_parent-ne-panic (parent_path c p) q)
                      λ r _. expand_parents-ne-panic ps (p ∷ seen) r)
        ]

  expand_child-ne-panic :
      (child : Text) (q : Closure)
      → starts_with op_prefix child ≡ true
      → expand_child c disk child q ≢ panic
  unfolding expand_child
  expand_child-ne-panic child q op =
      bind-ne-panic (assert (starts_with op_prefix child)) _ (assert-ne-panic _ op) λ _ _.
        bind-ne-panic (read_parents c (λ p. lookup p disk) child) _ (read_parents-ne-panic child)
          λ ps _. expand_parents-ne-panic ps [] q

  expand_loop-ne-panic :
      (n : ℕ) (l st : List Text)
      → All (λ p. starts_with op_prefix p ≡ true) st
      → expand_loop c disk n (record { listed = l; stack = st }) ≢ panic
  unfolding expand_loop
  expand_loop-ne-panic zero l st ops = λ h. cc
  expand_loop-ne-panic (suc n) l [] ops = λ h. cc
  expand_loop-ne-panic (suc n) l (child ∷ rest) ops =
      bind-ne-panic (expand_child c disk child (record { listed = l; stack = rest })) _
        (expand_child-ne-panic child (record { listed = l; stack = rest }) ops.0)
        λ q step. expand_loop-ne-panic n q.listed q.stack (
          (expand_child-Grows c disk child (record { listed = l; stack = rest }) q step).0.ops
            ops.1)

  op_seeds-All :
      (ps acc : List Text)
      → All (λ p. starts_with op_prefix p ≡ true) acc
      → All (λ p. starts_with op_prefix p ≡ true) (op_seeds ps acc)
  unfolding op_seeds
  op_seeds-All [] acc h = h
  op_seeds-All (p ∷ ps) acc h = elim (Bool-cases (starts_with op_prefix p)) [
    | inl is_op ↦ rw is_op (op_seeds-All ps (p ∷ acc) (is_op, h))
    | inr not_op ↦ rw not_op (op_seeds-All ps acc h)
  ]

  -- If `hex::encode` writes two digits for each byte, no assertion of the expansion fails: neither
  -- that on the stack, nor that on the digits, nor that on the sorted result.
  pub expand-ne-panic :
      (seed_paths : List Text) → expand_operation_parent_closure c disk seed_paths ≢ panic
  unfolding expand_operation_parent_closure
  expand-ne-panic seed_paths =
      bind-ne-panic (expand_loop c disk (expand_fuel c disk seed_paths) (seeded c disk seed_paths))
        _
        (expand_loop-ne-panic (expand_fuel c disk seed_paths) (set_of seed_paths)
          (op_seeds seed_paths []) (op_seeds-All seed_paths [] tt))
        λ q _.
          bind-ne-panic (assert (windows_le (sort q.listed))) _
            (assert-ne-panic _ (windows_le-sort q.listed)) λ _ _ h. cc
