-- ===== src/Client/Sync/Order.antt =====
-- client/src/sync.rs: in which order the changed files are uploaded.
use mathlib.Core.Path.{subst}
use dojjo.Prelude.Text.Order.{text_order, text_eq_iff}
use dojjo.Prelude.{
  ◌<◌, List, [], ◌∷◌, ◌≡◌, inl, inr, ap, ◌∙◌, arith, true, false, ◌&&◌, some, if◌then◌else◌, Result,
  ok, ◌>>=◌, bind_inv, ok-injective, Bool-cases,
}
use dojjo.Prelude.Order.{◌==◌}
use dojjo.Prelude.Order.Sets.{contains, position}
use dojjo.Prelude.Order.Laws.{contains-eq-count, count-not-contains}
use dojjo.Prelude.Dict.{Dict, lookup}
use dojjo.Prelude.Text.{Text}
use dojjo.Mirror.Operation.{Bytes, Codec, IoError, is_all_zero, parent_path}
use dojjo.Mirror.ApplyOrder.{layer_of, operations, compute_mirror_apply_order}
use dojjo.Mirror.ApplyOrder.Correct.{IsApplyOrder, compute_order_sound}
use dojjo.Mirror.ApplyOrder.Counted.{rank}
use dojjo.Mirror.Expand.{expand_operation_parent_closure}
use dojjo.Mirror.Expand.Closed.{expand-IsExpansion}

-- `filter(|p| push_needed.contains(*p))`
unfoldable pub only_needed : List Text → List Text → List Text
only_needed needed [] = []
only_needed needed (p ∷ ps) =
    let rest = only_needed needed ps in if contains needed p then p ∷ rest else rest

-- The changed files in the order in which they are uploaded.
unfoldable pub upload_order : Codec → Dict Text Bytes → List Text → Result IoError (List Text)
upload_order c files push_paths = do
  expanded ← expand_operation_parent_closure c files push_paths
  order ← compute_mirror_apply_order c (λ p. lookup p files) expanded
  ok (only_needed push_paths order)

contains-only_needed :
    (needed ps : List Text) (a : Text)
    → contains (only_needed needed ps) a ≡ (contains needed a && contains ps a)
unfolding only_needed
contains-only_needed needed [] a = ground arith
contains-only_needed needed (p ∷ ps) a = elim (Bool-cases (p == a)) [
  | inl same ↦
      let e = (text_eq_iff p a).0 same in
      let moved : contains needed p ≡ contains needed a = ap (contains needed) e in
      ground (arith, contains-only_needed needed ps a, moved, same)
  | inr other ↦ ground (arith, contains-only_needed needed ps a, other)
]

position-only_needed :
    (needed ps : List Text) (a b : Text)
    → contains needed a ≡ true
    → contains needed b ≡ true
    → position a ps < position b ps
    → position a (only_needed needed ps) < position b (only_needed needed ps)
unfolding only_needed
position-only_needed needed [] a b ha hb h = absurd (omega (arith, h))
position-only_needed needed (p ∷ ps) a b ha hb h = elim (Bool-cases (p == a)) [
  | inl same ↦
      let moved : contains needed p ≡ true = ap (contains needed) ((text_eq_iff p a).0 same) ∙ ha in
      ground (arith, h, same, moved)
  | inr other ↦ ground (arith, h, other, position-only_needed needed ps a b ha hb)
]

-- `a` is an ancestor of the operation `child`, by the operation files on disk.
pub data Ancestor (c : Codec) (files : Dict Text Bytes) : Text → Text → Type 0 where
  parent :
      (child : Text) (buf : Bytes) (parents : List Bytes) (p : Bytes)
      → layer_of child ≡ operations
      → lookup child files ≡ some buf
      → c.parents buf ≡ some parents
      → contains parents p ≡ true
      → is_all_zero p ≡ false
      → Ancestor c files (parent_path c p) child
  above :
      (a b child : Text)
      → Ancestor c files a b
      → Ancestor c files b child
      → Ancestor c files a child

-- Exactly the changed files, the layers in their order, and an operation after all of its ancestors.
pub record IsUploadOrder (c : Codec) (files : Dict Text Bytes) (push_paths out : List Text)
    : Type 0 where
  pub exact : (a : Text) → contains out a ≡ contains push_paths a
  pub layered :
      (a b : Text)
      → contains push_paths a ≡ true
      → contains push_paths b ≡ true
      → rank a < rank b
      → position a out < position b out
  pub ancestors_first :
      (a child : Text)
      → contains push_paths a ≡ true
      → contains push_paths child ≡ true
      → Ancestor c files a child
      → position a out < position child out

module _ (c : Codec) (files : Dict Text Bytes) (paths order : List Text)
    (sound : IsApplyOrder c (λ p. lookup p files) paths order) where
  Ancestor-before :
      (a child : Text)
      → Ancestor c files a child
      → contains paths child ≡ true
      → (contains paths a ≡ true) × (position a order < position child order)
  Ancestor-before a child (parent _ buf parents p is_op read decoded has not_root) listed =
      sound.parents_first child buf parents p listed is_op read decoded has not_root
  Ancestor-before a child (above _ b _ up down) listed =
      let (listed_b, before_child) = Ancestor-before b child down listed in
      let (listed_a, before_b) = Ancestor-before a b up listed_b in
      (listed_a, omega (arith, before_child, before_b))

-- A successful `upload_order` has exactly the changed files, each layer before the next, and an
-- operation after those of its ancestors that are uploaded too, also where the operations between them
-- are not.
pub upload_order_sound :
    (c : Codec) (files : Dict Text Bytes) (push_paths out : List Text)
    → upload_order c files push_paths ≡ ok out
    → IsUploadOrder c files push_paths out
unfolding upload_order
upload_order_sound c files push_paths out done =
    let (expanded, grown, h1) =
      bind_inv (expand_operation_parent_closure c files push_paths) _ done in
    let (order, sorted, h2) =
      bind_inv (compute_mirror_apply_order c (λ p. lookup p files) expanded) _ h1 in
    let expansion = expand-IsExpansion c files push_paths expanded grown in
    let sound = compute_order_sound c (λ p. lookup p files) expanded order sorted in
    let listed : (a : Text) → contains push_paths a ≡ true → contains expanded a ≡ true =
      expansion.has_seeds in
    subst (IsUploadOrder c files push_paths) (ok-injective h2) (record {
      exact = λ a. ground (
        arith,
        contains-only_needed push_paths order a,
        listed a,
        sound.same a,
        contains-eq-count expanded a,
        count-not-contains order a,
      );
      layered = λ a b ha hb h.
          position-only_needed push_paths order a b ha hb (sound.layered a b (listed a ha) h);
      ancestors_first = λ a child ha hc above.
          position-only_needed push_paths order a child ha hc
            (Ancestor-before c files expanded order sound a child above (listed child hc)).1;
    })
