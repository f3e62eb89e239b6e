-- ===== src/Mirror/ApplyOrder/Correct.antt =====
-- `compute_mirror_apply_order` lists every path, layer by layer, and parents before children.
use dojjo.Prelude.Text.Order.{text_order}
use dojjo.Prelude.{
  List, [], ◌∷◌, ◌≡◌, refl, ap, sym, ◌∙◌, ◌↔◌, Bool, true, false, ◌&&◌, some, arith, ◌<◌, nat_eq,
  leb, all, length, ok, bind_inv, ok-injective, assert,
}
use dojjo.Prelude.Order.Sets.{contains, count, position}
use dojjo.Prelude.Order.Laws.{position-append, contains-eq-count, count-not-contains}
use dojjo.Prelude.Text.{Text}
use dojjo.Mirror.Operation.{Bytes, Codec, Files, is_all_zero, parent_path}
use dojjo.Mirror.ApplyOrder.{
  Layer, operations, discriminant, layer_of, filter_layer, ordered_operations, layer_paths,
  layers_from, all_layers, operation_parent_edges, edges_of, read_parents,
  compute_mirror_apply_order,
}
use dojjo.Mirror.ApplyOrder.Edges.{edges_complete, edges_sound}
use dojjo.Mirror.ApplyOrder.Layers.{
  in_layer, count-filter_layer, IsSortedBy, ordered_operations_lem,
}
use dojjo.Mirror.ApplyOrder.Counted.{
  rank, in_layer_iff, listed_all, position-skip, layers-cons, not-in-layer, count-layers,
  layers-ordered,
}

module _ (c : Codec) (files : Files) (paths : List Text) where
  abbrev has_operations : List Layer → Bool
  has_operations [] = false
  has_operations (operations ∷ ls) = true
  has_operations (l ∷ ls) = has_operations ls

  -- The order of the operations among themselves is that of their own part.
  skip_layer :
      (l : Layer) (ls : List Layer) (out : List Text) (u v : Text)
      → layers_from c files paths (l ∷ ls) ≡ ok out
      → in_layer l u ≡ false
      → in_layer l v ≡ false
      → ((rest : List Text)
          → layers_from c files paths ls ≡ ok rest
          → position u rest < position v rest)
      → position u out < position v out
  skip_layer l ls out u v run nu nv later =
      let (here, rest, e1, e2, e) = layers-cons c files paths l ls out run in
      rw e (
        position-skip here rest u v (not-in-layer c files paths l here u e1 nu)
          (not-in-layer c files paths l here v e1 nv) (later rest e2))

  other_layer :
      (l : Layer) (u : Text) → rank u ≡ 3 → nat_eq (discriminant l) 3 ≡ false → in_layer l u ≡ false
  other_layer l u h k = ground (arith, in_layer_iff l u)

  layer-operations : layer_paths c files paths operations ≡ ordered_operations c files paths
  unfolding layer_paths
  layer-operations = refl

  operations-through :
      (ls : List Layer) (out ops : List Text) (u v : Text)
      → has_operations ls ≡ true
      → layers_from c files paths ls ≡ ok out
      → ordered_operations c files paths ≡ ok ops
      → rank u ≡ 3
      → rank v ≡ 3
      → contains ops u ≡ true
      → contains ops v ≡ true
      → position u ops < position v ops
      → position u out < position v out
  operations-through [] out ops u v m run e ru rv mu mv lt = cc
  operations-through (operations ∷ ls) out ops u v m run e ru rv mu mv lt =
      let (here, rest, e1, e2, e3) = layers-cons c files paths operations ls out run in
      let same : here ≡ ops = ok-injective (sym e1 ∙ (layer-operations ∙ e)) in
      ground (arith, e3, same, position-append u here rest, position-append v here rest)
  operations-through (l ∷ ls) out ops u v m run e ru rv mu mv lt =
      skip_layer l ls out u v run (other_layer l u ru refl) (other_layer l v rv refl)
        (λ rest runs. operations-through ls rest ops u v m runs e ru rv mu mv lt)

  run_ordered :
      (ls : List Layer) (out : List Text)
      → has_operations ls ≡ true
      → layers_from c files paths ls ≡ ok out
      → (ops : List Text) × (ordered_operations c files paths ≡ ok ops)
  run_ordered [] out m run = cc
  run_ordered (operations ∷ ls) out m run =
      let (here, rest, e1, e2, e3) = layers-cons c files paths operations ls out run in
      (here, sym layer-operations ∙ e1)
  run_ordered (l ∷ ls) out m run =
      let (here, rest, e1, e2, e3) = layers-cons c files paths l ls out run in
      run_ordered ls rest m e2

  -- The guarantees of an apply order.
  pub record IsApplyOrder (out : List Text) : Type 0 where
    pub same : (a : Text) → count a out ≡ count a paths
    pub layered :
        (a b : Text) → contains paths a ≡ true → rank a < rank b → position a out < position b out
    pub parents_first :
        (child : Text) (buf : Bytes) (parents : List Bytes) (p : Bytes)
        → contains paths child ≡ true
        → layer_of child ≡ operations
        → files child ≡ some buf
        → c.parents buf ≡ some parents
        → contains parents p ≡ true
        → is_all_zero p ≡ false
        → (contains paths (parent_path c p) ≡ true)
          × (position (parent_path c p) out < position child out)

  read_lem :
      (child : Text) (buf : Bytes) (parents : List Bytes)
      → files child ≡ some buf
      → c.parents buf ≡ some parents
      → read_parents c files child ≡ ok parents
  unfolding read_parents
  read_lem child buf parents fe pe = ground (arith, fe, pe)

  parents_in :
      (ops_out ops : List Text) (child : Text) (parents : List Bytes) (p : Bytes)
      → IsSortedBy c files ops ops_out
      → read_parents c files child ≡ ok parents
      → contains ops child ≡ true
      → contains parents p ≡ true
      → is_all_zero p ≡ false
      → (contains ops (parent_path c p) ≡ true)
        × (position (parent_path c p) ops_out < position child ops_out)
  parents_in ops_out ops child parents p s read m mp nz =
      let run : edges_of c files ops ops ≡ ok s.edges = unfold operation_parent_edges in s.found in
      let (ps, read', edge) = edges_complete c files ops ops s.edges child run m in
      let same : ps ≡ parents = ok-injective (sym read' ∙ read) in
      let e = edge p (ground (arith, same), nz) in
      (
        (edges_sound c files ops ops s.edges (parent_path c p) child run e).1,
        s.ordered (parent_path c p) child e,
      )

  -- Membership in the part of the operations.
  contains-ops :
      (ops : List Text) (a : Text)
      → filter_layer paths operations ≡ ok ops
      → (contains ops a ≡ true) ↔ ((contains paths a ≡ true) × (rank a ≡ 3))
  contains-ops ops a kept =
      let counted = count-filter_layer paths operations ops a kept in
      let layer = in_layer_iff operations a in
      (
        λ m. ground (arith, counted, layer, contains-eq-count ops a m, count-not-contains paths a),
        λ m.
            ground
              (arith, counted, layer, m.1, contains-eq-count paths a m.0, count-not-contains ops a),
      )

  parents_lem :
      (out : List Text)
      → layers_from c files paths all_layers ≡ ok out
      → (child : Text) (buf : Bytes) (parents : List Bytes) (p : Bytes)
      → contains paths child ≡ true
      → layer_of child ≡ operations
      → files child ≡ some buf
      → c.parents buf ≡ some parents
      → contains parents p ≡ true
      → is_all_zero p ≡ false
      → (contains paths (parent_path c p) ≡ true)
        × (position (parent_path c p) out < position child out)
  parents_lem out run child buf parents p m is_op fe pe mp nz =
      let (ops_out, ran) = run_ordered all_layers out refl run in
      let (ops, kept, s) = ordered_operations_lem c files paths ops_out ran in
      let child_in = (contains-ops ops child kept).1 (m, ap discriminant is_op) in
      let (u_in, lt) =
        parents_in ops_out ops child parents p s (read_lem child buf parents fe pe) child_in mp
          nz in
      let (u_path, u_rank) = (contains-ops ops (parent_path c p) kept).0 u_in in
      let in_out = λ (a : Text). member ops_out ops a s in
      (
        u_path,
        operations-through all_layers out ops_out (parent_path c p) child refl run ran u_rank
            (ap discriminant is_op) (in_out (parent_path c p) u_in) (in_out child child_in) lt,
      )
    where
      member :
          (ops_out ops : List Text) (a : Text)
          → IsSortedBy c files ops ops_out
          → contains ops a ≡ true
          → contains ops_out a ≡ true
      member ops_out ops a s h =
          ground (arith, s.counts a, contains-eq-count ops a h, count-not-contains ops_out a)

  -- A successful `compute_mirror_apply_order` lists every path as often as the input, each layer
  -- before the next, and every parent of a listed operation, which is listed too, before it.
  pub compute_order_sound :
      (out : List Text) → compute_mirror_apply_order c files paths ≡ ok out → IsApplyOrder out
  unfolding compute_mirror_apply_order
  compute_order_sound out h =
      let (o, run, h1) = bind_inv (layers_from c files paths all_layers) _ h in
      let (_, _, h2) = bind_inv (assert (leb (length o) (length paths))) _ h1 in
      let (_, _, h3) = bind_inv (assert (all (contains paths) o && all (contains o) paths)) _ h2 in
      let run' : layers_from c files paths all_layers ≡ ok out = run ∙ ap ok (ok-injective h3) in
      record {
        same = λ a.
            ground (
              arith,
              count-layers c files paths 0 all_layers out a (omega arith) run',
              listed_all a,
            );
        layered = λ a b m lt.
            layers-ordered c files paths 0 all_layers out a b (omega arith) run' (listed_all a) m
              lt;
        parents_first = parents_lem out run';
      }
