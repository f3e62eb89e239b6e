-- ===== src/Mirror/Expand.antt =====
-- dojjo-mirror/src/operation_expand.rs: a set of paths with all ancestors of its operations. The
-- `HashSet` is a sorted list, the stack a list with its top first, `disk` the regular files.
pub mod Rounds
pub mod Closed
pub mod Panics
pub mod Tests
use Prim.Native.Nat.{ℕ, zero, suc}
use dojjo.Prelude.Text.Order.{text_order}
use dojjo.Prelude.{
  List, [], ◌∷◌, ◌+◌, Bool, true, false, ◌||◌, if◌then◌else◌, nat_eq, is_some, length, Result, ok,
  assert, guard, ◌>>=◌, ◌>>◌,
}
use dojjo.Prelude.Order.Sets.{contains, insert, set_of, sort}
use dojjo.Prelude.Dict.{Dict, lookup}
use dojjo.Prelude.Text.{Text, len, starts_with}
use dojjo.Mirror.Operation.{
  Bytes, Codec, IoError, invalid_data, operation_id_bytes, operation_id_hex_chars, op_prefix,
  is_all_zero, parent_path,
}
use dojjo.Mirror.ApplyOrder.{read_parents, windows_le}

pub record Closure : Type 0 where
  pub listed : List Text
  pub stack : List Text

-- The operations among the seeds, the last one on top.
unfoldable pub op_seeds : List Text → List Text → List Text
op_seeds [] acc = acc
op_seeds (p ∷ ps) acc = op_seeds ps (if starts_with op_prefix p then p ∷ acc else acc)

module _ (c : Codec) (disk : Dict Text Bytes) where
  -- A parent that is neither the root nor a repetition.
  unfoldable pub add_parent : Text → Closure → Result IoError Closure
  add_parent path q = elim (contains q.listed path) [
    | true ↦ ok q
    | false ↦ do
      guard (is_some (lookup path disk)) invalid_data
      ok (record { listed = insert path q.listed; stack = path ∷ q.stack })
  ]

  -- The loop over `proto.parents`; `seen` is `unique_parent_ids`.
  unfoldable pub expand_parents : List Bytes → List Bytes → Closure → Result IoError Closure
  expand_parents [] seen q = ok q
  expand_parents (parent ∷ parents) seen q = do
    guard (nat_eq (length parent) operation_id_bytes) invalid_data
    elim (is_all_zero parent || contains seen parent) [
      | true ↦ expand_parents parents seen q
      | false ↦ do
        assert (nat_eq (len (c.hex_encode parent)) operation_id_hex_chars)
        q' ← add_parent (parent_path c parent) q
        expand_parents parents (parent ∷ seen) q'
    ]

  -- One round of `while let Some(child) = stack.pop()`
  unfoldable pub expand_child : Text → Closure → Result IoError Closure
  expand_child child q = do
    assert (starts_with op_prefix child)
    parents ← read_parents c (λ p. lookup p disk) child
    expand_parents parents [] q

  unfoldable pub expand_loop : ℕ → Closure → Result IoError Closure
  expand_loop zero q = ok q
  expand_loop (suc fuel) q = elim q.stack [
    | [] ↦ ok q
    | child ∷ rest ↦ do q' ← expand_child child (record q { stack = rest }); expand_loop fuel q'
  ]

  abbrev pub seeded : List Text → Closure
  seeded seed_paths = record { listed = set_of seed_paths; stack = op_seeds seed_paths [] }

  -- A path is pushed on the stack once for each seed, or once when it is found on disk.
  abbrev pub expand_fuel : List Text → ℕ
  expand_fuel seed_paths = length seed_paths + length disk

  unfoldable pub expand_operation_parent_closure : List Text → Result IoError (List Text)
  expand_operation_parent_closure seed_paths = do
    q ← expand_loop (expand_fuel seed_paths) (seeded seed_paths)
    assert (windows_le (sort q.listed))
    ok (sort q.listed)
