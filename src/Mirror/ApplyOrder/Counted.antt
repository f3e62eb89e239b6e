-- ===== src/Mirror/ApplyOrder/Counted.antt =====
-- The parts of the apply order: each holds its own layer, and the layers rise.
use Prim.Native.Nat.{ℕ}
use dojjo.Prelude.Text.Order.{text_order}
use dojjo.Prelude.{
  List, [], ◌∷◌, ◌++◌, ◌≡◌, sym, ◌∙◌, ◌↔◌, inl, inr, Bool, true, false, ◌||◌, arith, ◌+◌, ◌≤◌, ◌<◌,
  nat_eq_iff, if◌then◌else◌, Bool-cases, ok, bind_inv, ok-injective,
}
use dojjo.Prelude.Order.Sets.{contains, count, position}
use dojjo.Prelude.Order.Laws.{
  count-append, position-append, position-lt-length, contains-eq-count, count-not-contains,
}
use dojjo.Prelude.Text.{Text}
use dojjo.Mirror.Operation.{Codec, Files}
use dojjo.Mirror.ApplyOrder.{
  Layer, operations, discriminant, layer_of, layer_paths, layers_from, all_layers,
}
use dojjo.Mirror.ApplyOrder.Layers.{
  in_layer, count-filter_layer, count-sorted_paths, ordered_operations_lem,
}

abbrev pub rank : Text → ℕ
rank a = discriminant (layer_of a)

-- The discriminants rise along the list, from `k` on.
abbrev IsAscending : ℕ → List Layer → Type 0
IsAscending k [] = Unit
IsAscending k (l ∷ ls) = (k ≤ discriminant l) × IsAscending (discriminant l + 1) ls

abbrev listed : List Layer → Text → Bool
listed [] a = false
listed (l ∷ ls) a = in_layer l a || listed ls a

pub in_layer_iff : (l : Layer) (a : Text) → (in_layer l a ≡ true) ↔ (rank a ≡ discriminant l)
unfolding in_layer
in_layer_iff l a = nat_eq_iff (rank a) (discriminant l)

pub listed_all : (a : Text) → listed all_layers a ≡ true
unfolding in_layer
listed_all a = ground arith

-- A part that holds neither key only shifts both.
pub position-skip :
    (here rest : List Text) (a b : Text)
    → contains here a ≡ false
    → contains here b ≡ false
    → position a rest < position b rest
    → position a (here ++ rest) < position b (here ++ rest)
position-skip here rest a b h k lt =
    ground (arith, position-append a here rest, position-append b here rest)

module _ (c : Codec) (files : Files) (paths : List Text) where
  count-layer_paths :
      (l : Layer) (v : List Text) (a : Text)
      → layer_paths c files paths l ≡ ok v
      → count a v ≡ (if in_layer l a then count a paths else 0)
  unfolding layer_paths
  count-layer_paths operations v a h =
      let (ops, kept, s) = ordered_operations_lem c files paths v h in
      s.counts a ∙ count-filter_layer paths operations ops a kept
  count-layer_paths l v a h = count-sorted_paths paths l v a h

  pub layers-cons :
      (l : Layer) (ls : List Layer) (out : List Text)
      → layers_from c files paths (l ∷ ls) ≡ ok out
      → (here : List Text) × (rest : List Text) × (layer_paths c files paths l ≡ ok here)
        × (layers_from c files paths ls ≡ ok rest)
        × (out ≡ here ++ rest)
  unfolding layers_from
  layers-cons l ls out h =
      let (here, run, h1) = bind_inv (layer_paths c files paths l) _ h in
      let (rest, runs, h2) = bind_inv (layers_from c files paths ls) _ h1 in
      (here, rest, run, runs, sym (ok-injective h2))

  -- What is not of the layer is not in its part.
  pub not-in-layer :
      (l : Layer) (v : List Text) (a : Text)
      → layer_paths c files paths l ≡ ok v
      → in_layer l a ≡ false
      → contains v a ≡ false
  not-in-layer l v a h n = ground (arith, count-layer_paths l v a h, contains-eq-count v a)

  rank-le :
      (k : ℕ) (ls : List Layer) (a : Text) → IsAscending k ls → listed ls a ≡ true → k ≤ rank a
  rank-le k [] a h m = cc
  rank-le k (l ∷ ls) a h m = ground (arith, in_layer_iff l a, rank-le (discriminant l + 1) ls a h.1)

  pub count-layers :
      (k : ℕ) (ls : List Layer) (out : List Text) (a : Text)
      → IsAscending k ls
      → layers_from c files paths ls ≡ ok out
      → count a out ≡ (if listed ls a then count a paths else 0)
  count-layers k [] out a h run = unfold layers_from in ground arith
  count-layers k (l ∷ ls) out a h run =
      let (here, rest, e1, e2, e) = layers-cons l ls out run in
      ground (
        arith,
        e,
        count-append a here rest,
        count-layer_paths l here a e1,
        count-layers (discriminant l + 1) ls rest a h.1 e2,
        rank-le (discriminant l + 1) ls a h.1,
        in_layer_iff l a,
      )

  pub layers-ordered :
      (k : ℕ) (ls : List Layer) (out : List Text) (a b : Text)
      → IsAscending k ls
      → layers_from c files paths ls ≡ ok out
      → listed ls a ≡ true
      → contains paths a ≡ true
      → rank a < rank b
      → position a out < position b out
  layers-ordered k [] out a b h run m p lt = cc
  layers-ordered k (l ∷ ls) out a b h run m p lt =
      let (here, rest, e1, e2, e) = layers-cons l ls out run in
      elim (Bool-cases (in_layer l a)) [
        | inl first ↦ rw e (
            ground (
              arith,
              position-append a here rest,
              position-append b here rest,
              position-lt-length a here,
              count-layer_paths l here a e1,
              contains-eq-count paths a p,
              count-not-contains here a,
              not-in-layer l here b e1,
              in_layer_iff l a,
              in_layer_iff l b,
            ))
        | inr later ↦
            let up : listed ls a ≡ true = ground arith in
            rw e (
              position-skip here rest a b (not-in-layer l here a e1 later)
                (not-in-layer l here b e1
                  (ground (arith, in_layer_iff l b, rank-le (discriminant l + 1) ls a h.1 up)))
                (layers-ordered (discriminant l + 1) ls rest a b h.1 e2 up p lt))
      ]
