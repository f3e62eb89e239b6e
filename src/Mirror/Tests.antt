-- ===== src/Mirror/Tests.antt =====
-- Runs of the mirror's definitions, and the theorems at concrete inputs.
use Prim.Native.Nat.{ℕ, zero, suc, ◌+◌, ◌-◌, ◌/◌, ◌%◌}
use dojjo.Prelude.{
  List, [], ◌∷◌, ◌≡◌, refl, ◌≢◌, ◌↔◌, ◌⊎◌, Bool, true, Option, some, arith, ltb, if◌then◌else◌, All,
  ok, err, panic,
}
use dojjo.Prelude.Order.{◌==◌}
use dojjo.Prelude.Order.Sets.{count, position, IsIncreasing, set_of, insert, sort}
use dojjo.Prelude.Text.{Text, text, join}
use dojjo.Prelude.Text.Order.{text_order, text_eq, text_lt}
use dojjo.Mirror.Path.{
  parse_safe_mirror_rel, not_relative, dot_segment, invalid_characters, empty_segment,
}
use dojjo.Mirror.Path.Laws.{parse_safe_iff, parse-join, parse_safe-ne-panic}
use dojjo.Mirror.Path.Segments.{IsSafeSegment, IsMirrorPath}
use dojjo.Mirror.Exclude.{
  jj_repo_rel_excluded_from_mirror, jj_repo_rel_excluded_from_git_file_mirror,
}
use dojjo.Mirror.Exclude.Segments.{IsHostLocal}
use dojjo.Mirror.Exclude.Paths.{excluded_iff}
use dojjo.Mirror.Kahn.{cycle_or_missing, kahn_toposort, add_edges, zeroes, sources, relax, drain}
use dojjo.Mirror.Operation.{Bytes, Codec, Files, IoError, is_all_zero, parent_path}
use dojjo.Mirror.ApplyOrder.{
  compute_mirror_apply_order, layers_from, layer_paths, sorted_paths_in_layer, filter_layer,
  classify_path, layer_of, windows_le, ordered_operations, check_ids, hex_id_valid, sort_operations,
  operation_parent_edges, edges_of, read_parents, parent_edges,
}
use dojjo.Mirror.ApplyOrder.Correct.{IsApplyOrder, compute_order_sound}
use dojjo.Mirror.Kahn.Round.{IsGraph}
use dojjo.Mirror.Kahn.Sorts.{IsRank, kahn_decides}

-- The tests of mirror_path.rs.
parse_tests :
    (parse_safe_mirror_rel (text "op_store/operations/0123456789abcdef")
      ≡ ok (text "op_store" ∷ text "operations" ∷ text "0123456789abcdef" ∷ []))
    × (parse_safe_mirror_rel (text "op_store/../etc/passwd") ≡ err dot_segment)
    × (parse_safe_mirror_rel (text "/op_store/x") ≡ err not_relative)
    × (parse_safe_mirror_rel (text "op_store/foo bar") ≡ err invalid_characters)
    × (parse_safe_mirror_rel (text " a//b ") ≡ err empty_segment)
unfolding parse_safe_mirror_rel
parse_tests = (refl, refl, refl, refl, refl)

parse_safe_iff_example :
    (parse_safe_mirror_rel (text " store/a ") ≡ ok (text "store" ∷ text "a" ∷ []))
    ↔ IsMirrorPath (text " store/a ") (text "store" ∷ text "a" ∷ [])
parse_safe_iff_example = parse_safe_iff (text " store/a ") (text "store" ∷ text "a" ∷ [])

parse_safe-ne-panic_example : parse_safe_mirror_rel (text "a/../b") ≢ panic
parse_safe-ne-panic_example = parse_safe-ne-panic (text "a/../b")

two_segments_safe : All IsSafeSegment (text "store" ∷ text "x" ∷ [])
unfolding parse_safe_mirror_rel
two_segments_safe = ((parse_safe_iff (text "store/x") (text "store" ∷ text "x" ∷ [])).0 refl).safe

parse-join_example :
    parse_safe_mirror_rel (join b'/' (text "store" ∷ text "x" ∷ []))
    ≡ ok (text "store" ∷ text "x" ∷ [])
unfolding join
parse-join_example =
    parse-join (text "store" ∷ text "x" ∷ []) (λ e. cc) two_segments_safe (omega arith)

abbrev nodes : List Text
nodes = text "a" ∷ text "b" ∷ text "c" ∷ []

abbrev chain : List (Text × Text)
chain = (text "c", text "b") ∷ (text "b", text "a") ∷ []

abbrev loop : List (Text × Text)
loop = (text "a", text "b") ∷ (text "b", text "a") ∷ []

nodes-IsIncreasing : IsIncreasing nodes
unfolding text_lt
nodes-IsIncreasing = ((refl, (refl, tt)), ((refl, tt), (tt, tt)))

loop-IsGraph : IsGraph nodes loop
loop-IsGraph = record { tails = λ u v h. ground arith; heads = λ u v h. ground arith }

kahn_decides_example :
    ((out : List Text) × (kahn_toposort nodes loop ≡ ok out)
      × ((a : Text) → count a out ≡ count a nodes)
      × IsRank loop (λ u. position u out))
    ⊎ (kahn_toposort nodes loop ≡ err cycle_or_missing) × ¬ ((rank : Text → ℕ) × IsRank loop rank)
kahn_decides_example = kahn_decides nodes loop nodes-IsIncreasing loop-IsGraph

repeat : ℕ → ℕ → List ℕ
repeat zero x = []
repeat (suc n) x = x ∷ repeat n x

hex_digit : ℕ → ℕ
hex_digit d = if ltb d 10 then d + b'0' else d - 10 + b'a'

sample_hex : Bytes → Text
sample_hex [] = []
sample_hex (b ∷ bs) = hex_digit (b / 16) ∷ hex_digit (b % 16) ∷ sample_hex bs

-- A file holds its only parent's id, or nothing.
abbrev sample_parents : Bytes → Option (List Bytes)
sample_parents [] = some []
sample_parents (b ∷ bs) = some ((b ∷ bs) ∷ [])

abbrev sample : Codec
sample = record { parents = sample_parents; hex_encode = sample_hex }

abbrev op_a : Text
op_a = parent_path sample (repeat 64 0xab)

abbrev op_b : Text
op_b = parent_path sample (repeat 64 0x1c)

sample_files : Files
sample_files path = if path == op_b then some (repeat 64 0xab) else some []

abbrev sample_paths : List Text
sample_paths = text "op_heads/heads/x" ∷ op_b ∷ op_a ∷ text "store/type" ∷ []

abbrev sample_order : List Text
sample_order = text "store/type" ∷ op_a ∷ op_b ∷ text "op_heads/heads/x" ∷ []

order_test : compute_mirror_apply_order sample sample_files sample_paths ≡ ok sample_order
unfolding compute_mirror_apply_order layers_from layer_paths sorted_paths_in_layer filter_layer
    classify_path layer_of sort windows_le ordered_operations check_ids hex_id_valid sort_operations
    operation_parent_edges edges_of read_parents parent_edges is_all_zero parent_path sample_files
    repeat hex_digit sample_hex kahn_toposort add_edges zeroes sources relax drain set_of insert
    text_eq text_lt
order_test = refl

compute_order_sound_example : IsApplyOrder sample sample_files sample_paths sample_order
compute_order_sound_example =
    compute_order_sound sample sample_files sample_paths sample_order order_test

lock_path : parse_safe_mirror_rel (text "op_heads/lock") ≡ ok (text "op_heads" ∷ text "lock" ∷ [])
unfolding parse_safe_mirror_rel
lock_path = refl

excluded_iff_example :
    ((b : Bool) × (jj_repo_rel_excluded_from_mirror {E = IoError}
          (join b'/' (text "op_heads" ∷ text "lock" ∷ []))
        ≡ ok b)
      × ((b ≡ true) ↔ IsHostLocal (text "op_heads" ∷ text "lock" ∷ [])))
    × ((b : Bool) × (jj_repo_rel_excluded_from_git_file_mirror {E = IoError}
            (join b'/' (text "op_heads" ∷ text "lock" ∷ []))
          ≡ ok b)
        × ((b ≡ true) ↔ (
            (r : List Text) × (◌≡◌ {A = List Text}
              (text "op_heads" ∷ text "lock" ∷ [])
              (text "store" ∷ text "git" ∷ r)))))
excluded_iff_example =
    excluded_iff IoError (text "op_heads/lock") (text "op_heads" ∷ text "lock" ∷ []) lock_path
