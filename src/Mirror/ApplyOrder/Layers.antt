-- ===== src/Mirror/ApplyOrder/Layers.antt =====
-- How the layers are cut out of the paths and put together again.
use dojjo.Prelude.{
  List, [], ◌∷◌, ◌≡◌, refl, ap, sym, ◌∙◌, Bool, true, false, not, arith, ◌≤◌, ◌<◌, nat_eq,
  if◌then◌else◌, length, Result, ok, err, panic, bind_inv, ok-injective, assert-eq-ok, assert,
}
use dojjo.Prelude.Order.Sets.{count, position, set_of}
use dojjo.Prelude.Order.Laws.{
  count-sort, count_eq_of_length, count-IsIncreasing, set_of-IsIncreasing, contains-set_of,
  contains-eq-count,
}
use dojjo.Prelude.Text.{Text, is_empty}
use dojjo.Prelude.Text.Order.{text_order, text_eq_iff}
use dojjo.Mirror.Kahn.{KahnError, kahn_toposort}
use dojjo.Mirror.Kahn.Loop.{has_edge}
use dojjo.Mirror.Kahn.Round.{IsGraph}
use dojjo.Mirror.Kahn.Sorts.{kahn_sound}
use dojjo.Mirror.Operation.{Codec, Files, IoError}
use dojjo.Mirror.ApplyOrder.{
  Layer, operations, discriminant, layer_of, classify_path, filter_layer, sorted_paths_in_layer,
  is_nil, edges_of, sort_operations, ordered_operations, check_ids, operation_parent_edges,
  or_invalid_data,
}
use dojjo.Mirror.ApplyOrder.Edges.{edges_sound}

unfoldable pub in_layer : Layer → Text → Bool
in_layer l p = nat_eq (discriminant (layer_of p)) (discriminant l)

filter_layer-cons :
    (p : Text) (ps : List Text) (l : Layer) (v : List Text)
    → filter_layer (p ∷ ps) l ≡ ok v
    → (rest : List Text) × (filter_layer ps l ≡ ok rest)
      × (v ≡ (if in_layer l p then p ∷ rest else rest))
unfolding filter_layer classify_path in_layer
filter_layer-cons p ps l v h =
    let (k, e, h1) = bind_inv (classify_path p) _ h in
    let (t, _, e1) = bind_inv (assert (not (is_empty p))) _ e in
    let (rest, run, h2) = bind_inv (filter_layer ps l) _ h1 in
    (
      rest,
      run,
      sym (ok-injective h2)
          ∙ ap (λ (k : Layer). if nat_eq (discriminant k) (discriminant l) then p ∷ rest else rest)
              (sym (ok-injective e1)),
    )

pub count-filter_layer :
    (paths : List Text) (l : Layer) (v : List Text) (a : Text)
    → filter_layer paths l ≡ ok v
    → count a v ≡ (if in_layer l a then count a paths else 0)
count-filter_layer [] l v a h = unfold filter_layer in ground arith
count-filter_layer (p ∷ ps) l v a h =
    let (rest, run, e) = filter_layer-cons p ps l v h in
    ground (arith, e, count-filter_layer ps l rest a run, text_eq_iff p a)

pub count-sorted_paths :
    (paths : List Text) (l : Layer) (v : List Text) (a : Text)
    → sorted_paths_in_layer paths l ≡ ok v
    → count a v ≡ (if in_layer l a then count a paths else 0)
unfolding sorted_paths_in_layer
count-sorted_paths paths l v a h =
    let (w, run, h1) = bind_inv (filter_layer paths l) _ h in
    ground (arith, h1, count-sort a w, count-filter_layer paths l w a run)

or_invalid_data-eq-ok :
    (r : Result KahnError (List Text)) (out : List Text) → or_invalid_data r ≡ ok out → r ≡ ok out
or_invalid_data-eq-ok (ok x) out h = ground arith
or_invalid_data-eq-ok (err e) out h = cc
or_invalid_data-eq-ok panic out h = cc

module _ (c : Codec) (files : Files) where
  -- What a successful sort of the operations gives.
  pub record IsSortedBy (op_paths out : List Text) : Type 0 where
    pub counts : (a : Text) → count a out ≡ count a op_paths
    pub edges : List (Text × Text)
    pub found : operation_parent_edges c files op_paths ≡ ok edges
    pub ordered : (u v : Text) → has_edge edges u v ≡ true → position u out < position v out

  edges-IsGraph :
      (op_paths : List Text) (es : List (Text × Text))
      → operation_parent_edges c files op_paths ≡ ok es
      → IsGraph (set_of op_paths) es
  unfolding operation_parent_edges
  edges-IsGraph op_paths es h = record {
    tails =
        λ u v k. contains-set_of op_paths u ∙ (edges_sound c files op_paths op_paths es u v h k).1;
    heads =
        λ u v k. contains-set_of op_paths v ∙ (edges_sound c files op_paths op_paths es u v h k).0;
  }

  count-set_of : (xs : List Text) (a : Text) → count a (set_of xs) ≤ count a xs
  count-set_of xs a = ground (
    arith,
    count-IsIncreasing (set_of xs) a (set_of-IsIncreasing xs),
    contains-set_of xs a,
    contains-eq-count xs a,
  )

  sort_operations_lem :
      (op_paths out : List Text)
      → sort_operations c files op_paths ≡ ok out
      → IsSortedBy op_paths out
  unfolding sort_operations
  sort_operations_lem op_paths out h =
      let (es, found, h1) = bind_inv (operation_parent_edges c files op_paths) _ h in
      let (sorted, ran, h2) =
        bind_inv (or_invalid_data (kahn_toposort (set_of op_paths) es)) _ h1 in
      let (_, same, h3) = bind_inv (assert (nat_eq (length sorted) (length op_paths))) _ h2 in
      let is_out : sorted ≡ out = ok-injective h3 in
      let lengths : length out ≡ length op_paths = ground (
        arith,
        assert-eq-ok {E = IoError} (nat_eq (length sorted) (length op_paths)) same,
        is_out,
      ) in
      let ran' = or_invalid_data-eq-ok _ sorted ran ∙ ap ok is_out in
      let (counts, ordered) =
        kahn_sound (set_of op_paths) es (set_of-IsIncreasing op_paths)
          (edges-IsGraph op_paths es found) out ran' in
      record {
        counts =
            count_eq_of_length out op_paths (λ a. omega (arith, counts a, count-set_of op_paths a))
              lengths;
        edges = es;
        found = found;
        ordered = ordered;
      }

  -- The operations among the paths come out sorted.
  pub ordered_operations_lem :
      (paths out : List Text)
      → ordered_operations c files paths ≡ ok out
      → (op_paths : List Text) × (filter_layer paths operations ≡ ok op_paths)
        × IsSortedBy op_paths out
  unfolding ordered_operations
  ordered_operations_lem paths out h =
      let (op_paths, kept, h1) = bind_inv (filter_layer paths operations) _ h in
      let (_, checked, h2) = bind_inv (check_ids op_paths) _ h1 in
      (op_paths, kept, by_cases op_paths h2)
    where
      by_cases :
          (ops : List Text)
          → ◌≡◌ {A = Result IoError (List Text)}
              (elim (is_nil ops) [ true ↦ ok [] | false ↦ sort_operations c files ops ])
              (ok out)
          → IsSortedBy ops out
      by_cases [] e =
          unfold operation_parent_edges edges_of in
          record {
            counts = λ a. ground (arith, e);
            edges = [];
            found = refl;
            ordered = λ u v k. cc;
          }
      by_cases (x ∷ ops) e = sort_operations_lem (x ∷ ops) out e
