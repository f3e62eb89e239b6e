-- ===== src/Mirror/ApplyOrder/Edges.antt =====
-- `operation_parent_edges` finds every parent of every operation.
use dojjo.Prelude.{
  List, [], ◌∷◌, ◌++◌, ◌≡◌, refl, ap, sym, ◌∙◌, inl, inr, true, false, ◌||◌, arith, Bool-cases, ok,
  Result-cases, bind_inv, ok-injective,
}
use dojjo.Prelude.Order.{Order, ◌==◌, beq_refl}
use dojjo.Prelude.Order.Sets.{contains}
use dojjo.Prelude.Text.{Text}
use dojjo.Prelude.Text.Order.{text_order, text_eq_iff}
use dojjo.Mirror.Kahn.Loop.{has_edge}
use dojjo.Mirror.Operation.{Bytes, Codec, Files, is_all_zero, parent_path}
use dojjo.Mirror.ApplyOrder.{parent_edges, read_parents, edges_of}

pub has_edge-append :
    {K : Type 0} ⦃o : Order K⦄ (xs ys : List (K × K)) (u v : K)
    → has_edge (xs ++ ys) u v ≡ (has_edge xs u v || has_edge ys u v)
has_edge-append [] ys u v = refl
has_edge-append ((a, b) ∷ xs) ys u v = ground (arith, has_edge-append xs ys u v)

module _ (c : Codec) where
  -- `p` is a parent that counts: one of `parents`, and not the root operation's id.
  abbrev pub IsParent : List Bytes → Bytes → Type 0
  IsParent parents p = (contains parents p ≡ true) × (is_all_zero p ≡ false)

  -- One step over a parent that is not skipped.
  module _ (op_paths : List Text) (child : Text) where
    step_eq :
        (p : Bytes) (ps seen : List Bytes) (es : List (Text × Text))
        → is_all_zero p ≡ false
        → contains seen p ≡ false
        → parent_edges c op_paths child (p ∷ ps) seen ≡ ok es
        → (rest : List (Text × Text)) × (es ≡ (parent_path c p, child) ∷ rest)
          × (parent_edges c op_paths child ps (p ∷ seen) ≡ ok rest)
          × (contains op_paths (parent_path c p) ≡ true)
    unfolding parent_edges
    step_eq p ps seen es z s h = elim (Result-cases (parent_edges c op_paths child ps (p ∷ seen))) [
      | inl (rest, run) ↦ (rest, ground arith, run, ground arith)
      | inr (inl (e, run)) ↦ ground arith
      | inr (inr run) ↦ ground arith
    ]

    skip_zero :
        (p : Bytes) (ps seen : List Bytes) (es : List (Text × Text))
        → is_all_zero p ≡ true
        → parent_edges c op_paths child (p ∷ ps) seen ≡ ok es
        → parent_edges c op_paths child ps seen ≡ ok es
    unfolding parent_edges
    skip_zero p ps seen es z h = ground arith

    skip_seen :
        (p : Bytes) (ps seen : List Bytes) (es : List (Text × Text))
        → is_all_zero p ≡ false
        → contains seen p ≡ true
        → parent_edges c op_paths child (p ∷ ps) seen ≡ ok es
        → parent_edges c op_paths child ps seen ≡ ok es
    unfolding parent_edges
    skip_seen p ps seen es z s h = ground arith

    -- Every parent that is not zero and not seen yet gives an edge.
    parent_edges_complete :
        (ps seen : List Bytes) (es : List (Text × Text)) (p : Bytes)
        → parent_edges c op_paths child ps seen ≡ ok es
        → IsParent ps p
        → contains seen p ≡ false
        → has_edge es (parent_path c p) child ≡ true
    parent_edges_complete [] seen es p h m s = cc
    parent_edges_complete (q ∷ ps) seen es p h m s = elim (Bool-cases (is_all_zero q)) [
      | inl z ↦
          parent_edges_complete ps seen es p (skip_zero q ps seen es z h)
            (ground (arith, text_eq_iff q p), m.1) s
      | inr z ↦ elim (Bool-cases (contains seen q)) [
        | inl old ↦
            parent_edges_complete ps seen es p (skip_seen q ps seen es z old h)
              (ground (arith, text_eq_iff q p), m.1) s
        | inr new ↦
            let (rest, e, run, _) = step_eq q ps seen es z new h in
            elim (Bool-cases (q == p)) [
              | inl same ↦
                  ground (arith, e, text_eq_iff q p, beq_refl (parent_path c p), beq_refl child)
              | inr differ ↦ ground (
                arith,
                e,
                parent_edges_complete ps (q ∷ seen) rest p run (ground arith, m.1) (ground arith),
              )
            ]
      ]
    ]

    -- What an edge says.
    abbrev pub IsParentEdge : List Bytes → Text → Text → Type 0
    IsParentEdge ps u v =
        (v ≡ child)
        × (contains op_paths u ≡ true)
        × ((p : Bytes) × (contains ps p ≡ true) × (is_all_zero p ≡ false) × (u ≡ parent_path c p))

    IsParentEdge-cons :
        (q : Bytes) (ps : List Bytes) (u v : Text) → IsParentEdge ps u v → IsParentEdge (q ∷ ps) u v
    IsParentEdge-cons q ps u v (e, m, (p, k, z, w)) = (e, m, (p, ground (arith, k), z, w))

    -- Every edge leads from the path of a parent that is in the list to the child.
    parent_edges_sound :
        (ps seen : List Bytes) (es : List (Text × Text)) (u v : Text)
        → parent_edges c op_paths child ps seen ≡ ok es
        → has_edge es u v ≡ true
        → IsParentEdge ps u v
    parent_edges_sound [] seen es u v h k = absurd (unfold parent_edges in ground arith)
    parent_edges_sound (q ∷ ps) seen es u v h k = elim (Bool-cases (is_all_zero q)) [
      | inl z ↦
          IsParentEdge-cons q ps u v
            (parent_edges_sound ps seen es u v (skip_zero q ps seen es z h) k)
      | inr z ↦ elim (Bool-cases (contains seen q)) [
        | inl old ↦
            IsParentEdge-cons q ps u v
              (parent_edges_sound ps seen es u v (skip_seen q ps seen es z old h) k)
        | inr new ↦
            let (rest, e, run, listed) = step_eq q ps seen es z new h in
            elim (Bool-cases (has_edge rest u v)) [
              | inl later ↦
                  IsParentEdge-cons q ps u v (parent_edges_sound ps (q ∷ seen) rest u v run later)
              | inr first ↦
                  let (a, b) = first_edge rest u v (parent_path c q) (rw e at k) first in
                  (b, rw a listed, (q, ground (arith, beq_refl q), z, a))
            ]
      ]
    ]
      where
        first_edge :
            (rest : List (Text × Text)) (u v w : Text)
            → has_edge ((w, child) ∷ rest) u v ≡ true
            → has_edge rest u v ≡ false
            → (u ≡ w) × (v ≡ child)
        first_edge rest u v w a b = ground (arith, text_eq_iff w u, text_eq_iff child v)

module _ (c : Codec) (files : Files) (op_paths : List Text) where
  cons_inv :
      (child : Text) (children : List Text) (es : List (Text × Text))
      → edges_of c files op_paths (child ∷ children) ≡ ok es
      → (ps : List Bytes) × (here : List (Text × Text)) × (rest : List (Text × Text))
        × (read_parents c files child ≡ ok ps)
        × (parent_edges c op_paths child ps [] ≡ ok here)
        × (edges_of c files op_paths children ≡ ok rest)
        × (es ≡ here ++ rest)
  unfolding edges_of
  cons_inv child children es h =
      let (ps, read, h1) = bind_inv (read_parents c files child) _ h in
      let (here, run, h2) = bind_inv (parent_edges c op_paths child ps []) _ h1 in
      let (rest, runs, h3) = bind_inv (edges_of c files op_paths children) _ h2 in
      (ps, here, rest, read, run, runs, sym (ok-injective h3))

  -- Every parent of every listed operation gives an edge.
  pub edges_complete :
      (children : List Text) (es : List (Text × Text)) (child : Text)
      → edges_of c files op_paths children ≡ ok es
      → contains children child ≡ true
      → (ps : List Bytes) × (read_parents c files child ≡ ok ps)
        × ((p : Bytes) → IsParent c ps p → has_edge es (parent_path c p) child ≡ true)
  edges_complete [] es child h m = cc
  edges_complete (x ∷ children) es child h m =
      let (ps, here, rest, read, run, runs, e) = cons_inv x children es h in
      elim (Bool-cases (x == child)) [
        | inl same ↦
            let x_eq : x ≡ child = (text_eq_iff x child).0 same in
            (
              ps,
              ap (read_parents c files) (sym x_eq) ∙ read,
              λ p k. ground (
                arith,
                e,
                has_edge-append here rest (parent_path c p) child,
                parent_edges_complete c op_paths x ps [] here p run k refl,
              ),
            )
        | inr differ ↦
            let (ps', read', all') = edges_complete children rest child runs (ground (arith, m)) in
            (
              ps',
              read',
              λ p k.
                  rw e
                    (ground (arith, has_edge-append here rest (parent_path c p) child, all' p k)),
            )
      ]

  -- The ends of an edge are listed operations, and its tail is a parent of its head.
  pub edges_sound :
      (children : List Text) (es : List (Text × Text)) (u v : Text)
      → edges_of c files op_paths children ≡ ok es
      → has_edge es u v ≡ true
      → (contains children v ≡ true)
        × (contains op_paths u ≡ true)
        × ((ps : List Bytes) × (p : Bytes) × (read_parents c files v ≡ ok ps)
            × (contains ps p ≡ true)
            × (is_all_zero p ≡ false)
            × (u ≡ parent_path c p))
  edges_sound [] es u v h k = absurd (unfold edges_of in ground arith)
  edges_sound (x ∷ children) es u v h k =
      let (ps, here, rest, read, run, runs, e) = cons_inv x children es h in
      elim (Bool-cases (has_edge here u v)) [
        | inl now ↦
            let (v_eq, listed, (p, m, z, w)) =
              parent_edges_sound c op_paths x ps [] here u v run now in
            (ground (arith, text_eq_iff x v), listed, (ps, p, rw v_eq read, m, z, w))
        | inr not_now ↦
            let (m, listed, more) =
              edges_sound children rest u v runs (ground (arith, has_edge-append here rest u v)) in
            (ground (arith, m), listed, more)
      ]
