-- ===== src/Mirror/Expand/Closed.antt =====
-- `expand_operation_parent_closure` ends with all ancestors listed, and no assertion fails.
use Prim.Native.Nat.{ℕ, zero, suc}
use mathlib.Core.Path.{subst}
use dojjo.Prelude.Text.Order.{text_order, text_eq_iff}
use dojjo.Prelude.{
  List, [], ◌∷◌, ◌≡◌, ◌⊎◌, inl, inr, refl, sym, ap, ◌∙◌, ◌+◌, ◌≤◌, true, ◌||◌, arith, length, ok,
  assert, bind_inv, ok-injective, Bool-cases,
}
use dojjo.Prelude.Order.{◌==◌}
use dojjo.Prelude.Order.Sets.{contains, set_of, sort}
use dojjo.Prelude.Order.Laws.{contains-sort, contains-set_of}
use dojjo.Prelude.Dict.{Dict, lookup, keys}
use dojjo.Prelude.Text.{Text, starts_with}
use dojjo.Mirror.Operation.{Bytes, Codec, op_prefix}
use dojjo.Mirror.ApplyOrder.{read_parents, windows_le}
use dojjo.Mirror.Expand.{
  Closure, expand_child, expand_loop, op_seeds, seeded, expand_fuel,
  expand_operation_parent_closure,
}
use dojjo.Mirror.Expand.Rounds.{missing, Grows, AreListed, expand_child-Grows}

missing-le-length : (ps l : List Text) → missing ps l ≤ length ps
missing-le-length [] l = omega arith
missing-le-length (p ∷ ps) l = ground (arith, missing-le-length ps l)

length-keys : (d : Dict Text Bytes) → length (keys d) ≡ length d
length-keys [] = refl
length-keys ((k, v) ∷ d) = omega (arith, length-keys d)

length-op_seeds : (ps acc : List Text) → length (op_seeds ps acc) ≤ length ps + length acc
unfolding op_seeds
length-op_seeds [] acc = omega arith
length-op_seeds (p ∷ ps) acc = ground (arith, length-op_seeds ps acc, length-op_seeds ps (p ∷ acc))

contains-op_seeds :
    (ps acc : List Text) (x : Text)
    → starts_with op_prefix x ≡ true
    → (contains ps x || contains acc x) ≡ true
    → contains (op_seeds ps acc) x ≡ true
unfolding op_seeds
contains-op_seeds [] acc x op h = h
contains-op_seeds (p ∷ ps) acc x op h = elim (Bool-cases (starts_with op_prefix p)) [
  | inl is_op ↦ rw is_op (contains-op_seeds ps (p ∷ acc) x op (ground (arith, h)))
  | inr not_op ↦ rw not_op (
      contains-op_seeds ps acc x op
        (ground (arith, h, text_eq_iff p x, ap (starts_with op_prefix) {x = p} {y = x})))
]

module _ (c : Codec) (disk : Dict Text Bytes) where
  -- The operation can be read, and its parents are listed.
  pub record IsSettled (listed : List Text) (child : Text) : Type 0 where
    pub parents : List Bytes
    pub readable : read_parents c (λ p. lookup p disk) child ≡ ok parents
    pub are_listed : AreListed c disk listed child

  abbrev Waits : Closure → Type 0
  Waits q =
      (x : Text)
      → contains q.listed x ≡ true
      → starts_with op_prefix x ≡ true
      → (contains q.stack x ≡ true) ⊎ IsSettled q.listed x

  IsSettled-mono :
      (l l' : List Text) (x : Text)
      → ((y : Text) → contains l y ≡ true → contains l' y ≡ true)
      → IsSettled l x
      → IsSettled l' x
  IsSettled-mono l l' x kept s = record {
    parents = s.parents;
    readable = s.readable;
    are_listed = λ ps read p h. kept _ (s.are_listed ps read p h);
  }

  Waits-step :
      (child : Text) (rest : List Text) (l : List Text) (q' : Closure)
      → Waits (record { listed = l; stack = child ∷ rest })
      → expand_child c disk child (record { listed = l; stack = rest }) ≡ ok q'
      → Waits q' × Grows (keys disk) (record { listed = l; stack = rest }) q'
  Waits-step child rest l q' waits run =
      let (grows, listed, (ps, read)) =
        expand_child-Grows c disk child (record { listed = l; stack = rest }) q' run in
      let done : IsSettled q'.listed child = record {
        parents = ps;
        readable = read;
        are_listed = listed;
      } in
      (
        λ x h op. elim (grows.origin x h) [
          | inr on_stack ↦ inl on_stack
          | inl old ↦ elim (waits x old op) [
            | inr settled ↦ inr (IsSettled-mono l q'.listed x grows.kept settled)
            | inl stacked ↦ elim (Bool-cases (child == x)) [
              | inl same ↦ inr (subst (IsSettled q'.listed) ((text_eq_iff child x).0 same) done)
              | inr differ ↦ inl (grows.kept_stack x (ground (arith, stacked, differ)))
            ]
          ]
        ],
        grows,
      )

  abbrev size : Closure → ℕ
  size q = length q.stack + missing (keys disk) q.listed

  drained :
      (l : List Text) (r : Closure)
      → Waits (record { listed = l; stack = [] })
      → record { listed = l; stack = [] } ≡ r
      → ((x : Text) → contains l x ≡ true → contains r.listed x ≡ true)
        × ((x : Text)
            → contains r.listed x ≡ true
            → starts_with op_prefix x ≡ true
            → IsSettled r.listed x)
  drained l r waits e =
      subst
        (λ k.
          ((x : Text) → contains l x ≡ true → contains k.listed x ≡ true)
          × ((x : Text)
              → contains k.listed x ≡ true
              → starts_with op_prefix x ≡ true
              → IsSettled k.listed x))
        e
        (
          λ x h. h,
          λ x h op. elim (waits x h op) [ inl stacked ↦ absurd (cc) | inr settled ↦ settled ],
        )

  pub expand_loop-IsSettled :
      (n : ℕ) (l st : List Text) (r : Closure)
      → Waits (record { listed = l; stack = st })
      → size (record { listed = l; stack = st }) ≤ n
      → expand_loop c disk n (record { listed = l; stack = st }) ≡ ok r
      → ((x : Text) → contains l x ≡ true → contains r.listed x ≡ true)
        × ((x : Text)
            → contains r.listed x ≡ true
            → starts_with op_prefix x ≡ true
            → IsSettled r.listed x)
  unfolding expand_loop
  expand_loop-IsSettled zero l [] r waits le run = drained l r waits (ok-injective run)
  expand_loop-IsSettled zero l (child ∷ rest) r waits le run = absurd (omega arith)
  expand_loop-IsSettled (suc n) l [] r waits le run = drained l r waits (ok-injective run)
  expand_loop-IsSettled (suc n) l (child ∷ rest) r waits le run =
      let (q', step, more) =
        bind_inv (expand_child c disk child (record { listed = l; stack = rest })) _ run in
      let (waits', grows) = Waits-step child rest l q' waits step in
      let (kept, settled) =
        expand_loop-IsSettled n q'.listed q'.stack r waits' (omega (arith, grows.measure)) more in
      (λ x h. kept x (grows.kept x h), settled)

  -- What the expansion of `seed_paths` promises.
  pub record IsExpansion (seed_paths out : List Text) : Type 0 where
    pub has_seeds : (p : Text) → contains seed_paths p ≡ true → contains out p ≡ true
    pub is_closed :
        (child : Text)
        → contains out child ≡ true
        → starts_with op_prefix child ≡ true
        → IsSettled out child

  -- A successful `expand_operation_parent_closure` has the seeds, and with an operation, which it
  -- could read, all of its parents but the root.
  pub expand-IsExpansion :
      (seed_paths out : List Text)
      → expand_operation_parent_closure c disk seed_paths ≡ ok out
      → IsExpansion seed_paths out
  unfolding expand_operation_parent_closure
  expand-IsExpansion seed_paths out run =
      let (r, looped, rest) =
        bind_inv (expand_loop c disk (expand_fuel c disk seed_paths) (seeded c disk seed_paths)) _
          run in
      let (_, _, done) = bind_inv (assert (windows_le (sort r.listed))) _ rest in
      let waits : Waits (seeded c disk seed_paths) = λ x h op.
        inl (
          contains-op_seeds seed_paths [] x op (ground (arith, contains-set_of seed_paths x, h))) in
      let enough : size (seeded c disk seed_paths) ≤ expand_fuel c disk seed_paths = omega (
        arith,
        length-op_seeds seed_paths [],
        missing-le-length (keys disk) (set_of seed_paths),
        length-keys disk,
      ) in
      let (kept, settled) =
        expand_loop-IsSettled (expand_fuel c disk seed_paths) (set_of seed_paths)
          (op_seeds seed_paths []) r waits enough looped in
      let e : sort r.listed ≡ out = ok-injective done in
      subst (IsExpansion seed_paths) e (record {
        has_seeds = λ p h. contains-sort r.listed p ∙ kept p (contains-set_of seed_paths p ∙ h);
        is_closed = λ child h op.
            IsSettled-mono r.listed (sort r.listed) child (λ y m. contains-sort r.listed y ∙ m)
              (settled child (sym (contains-sort r.listed child) ∙ h) op);
      })
