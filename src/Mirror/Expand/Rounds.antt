-- ===== src/Mirror/Expand/Rounds.antt =====
-- One operation of `expand_operation_parent_closure`: its parents are listed afterwards.
use Prim.Native.Nat.{ℕ}
use mathlib.Core.Path.{subst}
use dojjo.Prelude.Text.Order.{text_order, text_eq_iff}
use dojjo.Prelude.{
  List, [], ◌∷◌, ◌≡◌, ◌⊎◌, inl, inr, refl, sym, ap, ◌∙◌, ◌+◌, ◌≤◌, true, false, ◌||◌, arith,
  if◌then◌else◌, nat_eq, is_some, length, all, All, Result, ok, assert, guard, ◌>>=◌, ◌>>◌,
  bind_inv, ok-injective, guard-eq-ok, Bool-cases,
}
use dojjo.Prelude.Order.{◌==◌}
use dojjo.Prelude.Order.Sets.{contains, insert}
use dojjo.Prelude.Order.Laws.{contains-insert}
use dojjo.Prelude.Dict.{Dict, lookup, keys, contains-keys}
use dojjo.Prelude.Text.{Text, len, starts_with}
use dojjo.Mirror.Operation.{
  Bytes, Codec, IoError, invalid_data, operation_id_bytes, operation_id_hex_chars, op_prefix,
  is_all_zero, parent_path,
}
use dojjo.Mirror.ApplyOrder.{read_parents}
use dojjo.Mirror.ApplyOrder.Edges.{IsParent}
use dojjo.Mirror.Expand.{Closure, add_parent, expand_parents, expand_child}

-- The paths of `ps` that are not listed.
abbrev pub missing : List Text → List Text → ℕ
missing [] listed = 0
missing (p ∷ ps) listed = (if contains listed p then 0 else 1) + missing ps listed

missing-insert_le :
    (ps : List Text) (x : Text) (l : List Text) → missing ps (insert x l) ≤ missing ps l
missing-insert_le [] x l = omega arith
missing-insert_le (p ∷ ps) x l = ground (arith, contains-insert x l p, missing-insert_le ps x l)

missing-insert :
    (ps : List Text) (x : Text) (l : List Text)
    → contains ps x ≡ true
    → contains l x ≡ false
    → missing ps (insert x l) + 1 ≤ missing ps l
missing-insert [] x l m n = cc
missing-insert (p ∷ ps) x l m n = ground (
  arith,
  contains-insert x l p,
  text_eq_iff x p,
  text_eq_iff p x,
  missing-insert ps x l,
  missing-insert_le ps x l,
)

parent_path-op_prefix : (c : Codec) (b : Bytes) → starts_with op_prefix (parent_path c b) ≡ true
unfolding parent_path
parent_path-op_prefix c b = refl

-- What a round leaves: the list and the stack have grown together, out of files on disk.
pub record Grows (ds : List Text) (q q' : Closure) : Type 0 where
  pub kept : (x : Text) → contains q.listed x ≡ true → contains q'.listed x ≡ true
  pub kept_stack : (x : Text) → contains q.stack x ≡ true → contains q'.stack x ≡ true
  pub origin :
      (x : Text)
      → contains q'.listed x ≡ true
      → (contains q.listed x ≡ true) ⊎ (contains q'.stack x ≡ true)
  pub measure : length q'.stack + missing ds q'.listed ≤ length q.stack + missing ds q.listed
  pub ops :
      All (λ p. starts_with op_prefix p ≡ true) q.stack
      → All (λ p. starts_with op_prefix p ≡ true) q'.stack

Grows-refl : (ds : List Text) (q : Closure) → Grows ds q q
Grows-refl ds q = record {
  kept = λ x h. h;
  kept_stack = λ x h. h;
  origin = λ x h. inl h;
  measure = omega arith;
  ops = λ h. h;
}

Grows-trans : (ds : List Text) (q r s : Closure) → Grows ds q r → Grows ds r s → Grows ds q s
Grows-trans ds q r s g h = record {
  kept = λ x m. h.kept x (g.kept x m);
  kept_stack = λ x m. h.kept_stack x (g.kept_stack x m);
  origin = λ x m. elim (h.origin x m) [
    | inl old ↦ elim (g.origin x old) [
      | inl older ↦ inl older
      | inr on_stack ↦ inr (h.kept_stack x on_stack)
    ]
    | inr new ↦ inr new
  ];
  measure = omega (arith, g.measure, h.measure);
  ops = λ k. h.ops (g.ops k);
}

-- A new path that is on disk.
abbrev push : Text → Closure → Closure
push path q = record { listed = insert path q.listed; stack = path ∷ q.stack }

push-Grows :
    (ds : List Text) (path : Text) (q : Closure)
    → starts_with op_prefix path ≡ true
    → contains ds path ≡ true
    → contains q.listed path ≡ false
    → Grows ds q (push path q)
push-Grows ds path q op on_disk new = record {
  kept = λ x h. ground (arith, contains-insert path q.listed x, h);
  kept_stack = λ x h. ground (arith, h);
  origin = λ x h. elim (Bool-cases (path == x)) [
    | inl same ↦ inr (ground (arith, same))
    | inr differ ↦ inl (ground (arith, contains-insert path q.listed x, h, differ))
  ];
  measure = omega (arith, missing-insert ds path q.listed on_disk new);
  ops = λ h. (op, h);
}

module _ (c : Codec) (disk : Dict Text Bytes) where
  add_parent-Grows :
      (parent : Bytes) (q q' : Closure)
      → add_parent c disk (parent_path c parent) q ≡ ok q'
      → Grows (keys disk) q q' × (contains q'.listed (parent_path c parent) ≡ true)
  unfolding add_parent
  add_parent-Grows parent q q' run = elim (Bool-cases (contains q.listed (parent_path c parent))) [
    | inl old ↦
        let done : ◌≡◌ {A = Result IoError Closure} (ok q) (ok q') = rw (old, add_parent) at run in
        let e = ok-injective done in
        (
          subst (Grows (keys disk) q) e (Grows-refl (keys disk) q),
          ap (λ k. contains k.listed (parent_path c parent)) (sym e) ∙ old,
        )
    | inr new ↦
        let path = parent_path c parent in
        let rest : guard (is_some (lookup path disk)) invalid_data >> ok (push path q) ≡ ok q' =
          rw (new, add_parent) at run in
        let (_, found, done) = bind_inv (guard (is_some (lookup path disk)) invalid_data) _ rest in
        let e = ok-injective done in
        let on_disk = contains-keys path disk ∙ guard-eq-ok _ invalid_data found in
        (
          subst (Grows (keys disk) q) e
              (push-Grows (keys disk) path q (parent_path-op_prefix c parent) on_disk new),
          ap (λ k. contains k.listed path) (sym e)
              ∙ ground (arith, contains-insert path q.listed path, text_eq_iff path path),
        )
  ]

  -- After the loop over the parents, all of them are listed.
  pub expand_parents-Grows :
      (parents seen : List Bytes) (q q' : Closure)
      → ((p : Bytes) → contains seen p ≡ true → contains q.listed (parent_path c p) ≡ true)
      → expand_parents c disk parents seen q ≡ ok q'
      → Grows (keys disk) q q'
        × ((p : Bytes) → IsParent c parents p → contains q'.listed (parent_path c p) ≡ true)
  unfolding expand_parents
  expand_parents-Grows [] seen q q' known run =
      (subst (Grows (keys disk) q) (ok-injective run) (Grows-refl (keys disk) q), λ p h. cc)
  expand_parents-Grows (b ∷ bs) seen q q' known run =
      let (_, _, rest) =
        bind_inv (guard (nat_eq (length b) operation_id_bytes) invalid_data) _ run in
      elim (Bool-cases (is_all_zero b || contains seen b)) [
        | inl skip ↦
            let rest' : expand_parents c disk bs seen q ≡ ok q' = rw skip at rest in
            let (grows, all) = expand_parents-Grows bs seen q q' known rest' in
            (
              grows,
              λ p h. elim (Bool-cases (b == p)) [
                | inl same ↦
                    let e = (text_eq_iff b p).0 same in
                    grows.kept (parent_path c p)
                      (known p (ground (arith, skip, h.1, ap is_all_zero e, ap (contains seen) e)))
                | inr differ ↦ all p (ground (arith, h.0, differ), h.1)
              ],
            )
        | inr take ↦
            let rest' : (do
              assert (nat_eq (len (c.hex_encode b)) operation_id_hex_chars)
              r ← add_parent c disk (parent_path c b) q
              expand_parents c disk bs (b ∷ seen) r)
                ≡ ok q' =
              rw take at rest in
            let (_, _, rest2) =
              bind_inv (assert (nat_eq (len (c.hex_encode b)) operation_id_hex_chars)) _ rest' in
            let (r, added, rest3) = bind_inv (add_parent c disk (parent_path c b) q) _ rest2 in
            let (first, here) = add_parent-Grows b q r added in
            let (grows, all) =
              expand_parents-Grows bs (b ∷ seen) r q'
                (λ p m. elim (Bool-cases (b == p)) [
                  | inl same ↦
                      subst (λ k. contains r.listed (parent_path c k) ≡ true)
                        ((text_eq_iff b p).0 same) here
                  | inr differ ↦ first.kept (parent_path c p) (known p (ground (arith, m, differ)))
                ])
                rest3 in
            (
              Grows-trans (keys disk) q r q' first grows,
              λ p h. elim (Bool-cases (b == p)) [
                | inl same ↦
                    subst (λ k. contains q'.listed (parent_path c k) ≡ true)
                      ((text_eq_iff b p).0 same) (grows.kept (parent_path c b) here)
                | inr differ ↦ all p (ground (arith, h.0, differ), h.1)
              ],
            )
      ]

  -- The operation's parents are listed afterwards.
  abbrev pub AreListed : List Text → Text → Type 0
  AreListed listed child =
      (parents : List Bytes)
      → read_parents c (λ p. lookup p disk) child ≡ ok parents
      → (p : Bytes) → IsParent c parents p
      → contains listed (parent_path c p) ≡ true

  pub expand_child-Grows :
      (child : Text) (q q' : Closure)
      → expand_child c disk child q ≡ ok q'
      → Grows (keys disk) q q'
        × AreListed q'.listed child
        × ((ps : List Bytes) × (read_parents c (λ p. lookup p disk) child ≡ ok ps))
  unfolding expand_child
  expand_child-Grows child q q' run =
      let (_, _, rest) = bind_inv (assert (starts_with op_prefix child)) _ run in
      let (parents, read, rest') = bind_inv (read_parents c (λ p. lookup p disk) child) _ rest in
      let (grows, all) = expand_parents-Grows parents [] q q' (λ p h. cc) rest' in
      (
        grows,
        λ ps read' p h. all p (subst (λ k. IsParent c k p) (ok-injective (sym read' ∙ read)) h),
        (parents, read),
      )
