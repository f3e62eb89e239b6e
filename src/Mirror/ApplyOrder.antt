-- ===== src/Mirror/ApplyOrder.antt =====
-- dojjo-mirror/src/mirror_apply_order.rs: the order in which mirrored files are written.
-- The root directory is fixed, and not the empty path.
pub mod Edges
pub mod Layers
pub mod Counted
pub mod Correct
use Prim.Native.Nat.{ℕ}
use dojjo.Prelude.Text.Order.{text_order}
use dojjo.Prelude.{
  List, [], ◌∷◌, ◌++◌, Bool, true, false, not, ◌&&◌, Option, none, some, leb, nat_eq, if◌then◌else◌,
  all, length, Result, ok, err, panic, assert, guard, ◌>>=◌, ◌>>◌,
}
use dojjo.Prelude.Order.{◌==◌, ◌<?◌}
use dojjo.Prelude.Order.Sets.{contains, set_of, sort}
use dojjo.Prelude.Text.{Text, text, is_empty, is_ascii_hexdigit, len, starts_with, strip_prefix}
use dojjo.Mirror.Kahn.{KahnError, kahn_toposort}
use dojjo.Mirror.Operation.{
  Bytes, Codec, Files, IoError, invalid_data, other, operation_id_bytes, operation_id_hex_chars,
  op_prefix, is_all_zero, parent_path,
}

pub data Layer : Type 0 where
  store views op_store_type operations misc index submodules op_heads : Layer

-- The discriminants, by which layers are compared.
abbrev pub discriminant : Layer → ℕ
discriminant store = 0
discriminant views = 1
discriminant op_store_type = 2
discriminant operations = 3
discriminant misc = 4
discriminant index = 5
discriminant submodules = 6
discriminant op_heads = 7

-- The tests of `classify_path` after its assertion.
unfoldable pub layer_of : Text → Layer
layer_of path =
    if starts_with (text "store/") path
    then store
    else if starts_with (text "op_store/views/") path
    then views
    else if path == text "op_store/type"
    then op_store_type
    else if starts_with op_prefix path
    then operations
    else if starts_with (text "index/") path
    then index
    else if starts_with (text "submodules/") path
    then submodules
    else if starts_with (text "op_heads/") path
    then op_heads
    else misc

unfoldable pub classify_path : Text → Result IoError Layer
classify_path path = do assert (not (is_empty path)); ok (layer_of path)

unfoldable pub hex_id_valid : Text → Bool
hex_id_valid s = nat_eq (len s) operation_id_hex_chars && all is_ascii_hexdigit s

-- `paths.iter().filter(|p| classify_path(p) == layer)`
unfoldable pub filter_layer : List Text → Layer → Result IoError (List Text)
filter_layer [] layer = ok []
filter_layer (p ∷ ps) layer = do
  l ← classify_path p
  rest ← filter_layer ps layer
  ok (if nat_eq (discriminant l) (discriminant layer) then p ∷ rest else rest)

-- `v.windows(2).all(|w| w[0] <= w[1])`
unfoldable pub windows_le : List Text → Bool
windows_le [] = true
windows_le (x ∷ []) = true
windows_le (x ∷ y ∷ r) = not (y <? x) && windows_le (y ∷ r)

unfoldable pub sorted_paths_in_layer : List Text → Layer → Result IoError (List Text)
sorted_paths_in_layer paths layer = do
  v ← filter_layer paths layer
  assert (windows_le (sort v))
  ok (sort v)

module _ (c : Codec) where
  -- The loop over `proto.parents` of one operation; `seen` is `unique_parents`.
  unfoldable pub parent_edges :
      List Text → Text → List Bytes → List Bytes → Result IoError (List (Text × Text))
  parent_edges op_paths child [] seen = ok []
  parent_edges op_paths child (parent ∷ parents) seen = do
    guard (nat_eq (length parent) operation_id_bytes) invalid_data
    elim (is_all_zero parent) [
      | true ↦ parent_edges op_paths child parents seen
      | false ↦ elim (contains seen parent) [
        | true ↦ parent_edges op_paths child parents seen
        | false ↦ do
          assert (nat_eq (len (c.hex_encode parent)) operation_id_hex_chars)
          guard (contains op_paths (parent_path c parent)) invalid_data
          guard (not (parent_path c parent == child)) invalid_data
          rest ← parent_edges op_paths child parents (parent ∷ seen)
          ok ((parent_path c parent, child) ∷ rest)
      ]
    ]

abbrev pub or_err {ℓ} : {A : Type ℓ} → Option A → IoError → Result IoError A
or_err none e = err e
or_err (some a) e = ok a

-- `for p in &op_paths`
unfoldable pub check_ids : List Text → Result IoError (Unit {0})
check_ids [] = ok tt
check_ids (p ∷ ps) = elim (strip_prefix op_prefix p) [
  | none ↦ panic
  | some rest ↦ do guard (hex_id_valid rest) invalid_data; check_ids ps
]

-- `map_err` of the message into an `InvalidData`
abbrev pub or_invalid_data : Result KahnError (List Text) → Result IoError (List Text)
or_invalid_data (ok out) = ok out
or_invalid_data (err e) = err invalid_data
or_invalid_data panic = panic

abbrev is_nil : List Text → Bool
is_nil [] = true
is_nil (x ∷ xs) = false

abbrev pub all_layers : List Layer
all_layers = store ∷ views ∷ op_store_type ∷ operations ∷ misc ∷ index ∷ submodules ∷ op_heads ∷ []

module _ (c : Codec) (files : Files) where
  -- `std::fs::read`, then `OperationProto::decode`
  unfoldable pub read_parents : Text → Result IoError (List Bytes)
  read_parents path = do buf ← or_err (files path) other; or_err (c.parents buf) invalid_data

  -- The loop over the children; `op_paths` is the whole list.
  unfoldable pub edges_of : List Text → List Text → Result IoError (List (Text × Text))
  edges_of op_paths [] = ok []
  edges_of op_paths (child ∷ children) = do
    parents ← read_parents child
    here ← parent_edges c op_paths child parents []
    rest ← edges_of op_paths children
    ok (here ++ rest)

  unfoldable pub operation_parent_edges : List Text → Result IoError (List (Text × Text))
  operation_parent_edges op_paths = edges_of op_paths op_paths

  -- The operations that are there, sorted by their parents.
  unfoldable pub sort_operations : List Text → Result IoError (List Text)
  sort_operations op_paths = do
    edges ← operation_parent_edges op_paths
    sorted ← or_invalid_data (kahn_toposort (set_of op_paths) edges)
    assert (nat_eq (length sorted) (length op_paths))
    ok sorted

  -- The layer of the operations.
  unfoldable pub ordered_operations : List Text → Result IoError (List Text)
  ordered_operations paths = do
    op_paths ← filter_layer paths operations
    check_ids op_paths
    elim (is_nil op_paths) [ true ↦ ok [] | false ↦ sort_operations op_paths ]

  unfoldable pub layer_paths : List Text → Layer → Result IoError (List Text)
  layer_paths paths operations = ordered_operations paths
  layer_paths paths layer = sorted_paths_in_layer paths layer

  -- The loop over the layers.
  unfoldable pub layers_from : List Text → List Layer → Result IoError (List Text)
  layers_from paths [] = ok []
  layers_from paths (l ∷ ls) = do
    here ← layer_paths paths l
    rest ← layers_from paths ls
    ok (here ++ rest)

  unfoldable pub compute_mirror_apply_order : List Text → Result IoError (List Text)
  compute_mirror_apply_order paths = do
    out ← layers_from paths all_layers
    assert (leb (length out) (length paths))
    assert (all (contains paths) out && all (contains out) paths)
    ok out
