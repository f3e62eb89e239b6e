-- ===== src/Mirror/Expand/Tests.antt =====
-- A repository with two operations, the later one as the seed.
use Prim.Native.Nat.{ℕ, zero, suc}
use dojjo.Prelude.Text.Order.{text_order, text_eq, text_lt}
use dojjo.Prelude.{
  List, [], ◌∷◌, ◌≡◌, ◌≢◌, refl, ◌+◌, ◌*◌, ◌/◌, ◌%◌, Option, some, arith, length, ok, panic,
}
use dojjo.Prelude.Order.Sets.{insert, set_of, place, sort}
use dojjo.Prelude.Dict.{Dict, lookup}
use dojjo.Prelude.Text.{Text, text, len, utf8_width}
use dojjo.Mirror.Operation.{Bytes, Codec, IsHex, is_all_zero, parent_path}
use dojjo.Mirror.ApplyOrder.{read_parents, windows_le}
use dojjo.Mirror.Expand.{
  add_parent, expand_parents, expand_child, expand_loop, op_seeds, expand_operation_parent_closure,
}
use dojjo.Mirror.Expand.Closed.{IsExpansion, expand-IsExpansion}
use dojjo.Mirror.Expand.Panics.{expand-ne-panic}

unfoldable pub bytes_of : ℕ → ℕ → Bytes
bytes_of zero x = []
bytes_of (suc n) x = x ∷ bytes_of n x

unfoldable pub digit : ℕ → ℕ
digit d = b'a' + d % 6

unfoldable pub digits : Bytes → Text
digits [] = []
digits (b ∷ bs) = digit (b / 16) ∷ digit b ∷ digits bs

-- A file of bytes is its only parent's id; an empty file has none.
abbrev pub only_parent : Bytes → Option (List Bytes)
only_parent [] = some []
only_parent (b ∷ bs) = some ((b ∷ bs) ∷ [])

abbrev pub repo_codec : Codec
repo_codec = record { parents = only_parent; hex_encode = digits }

digit_width : (d : ℕ) → utf8_width (digit d) ≡ 1
unfolding digit
digit_width d = ground arith

len-digits : (b : Bytes) → len (digits b) ≡ 2 * length b
unfolding digits
len-digits [] = omega arith
len-digits (b ∷ bs) = omega (arith, digit_width (b / 16), digit_width b, len-digits bs)

repo_codec-IsHex : IsHex repo_codec
repo_codec-IsHex = record { len-hex_encode = len-digits }

abbrev pub first_op : Text
first_op = parent_path repo_codec (bytes_of 64 7)

abbrev pub second_op : Text
second_op = parent_path repo_codec (bytes_of 64 9)

abbrev pub repo_files : Dict Text Bytes
repo_files = (second_op, bytes_of 64 7) ∷ (first_op, []) ∷ []

expand_run :
    expand_operation_parent_closure repo_codec repo_files (text "views/v" ∷ second_op ∷ [])
    ≡ ok (first_op ∷ second_op ∷ text "views/v" ∷ [])
unfolding expand_operation_parent_closure expand_loop expand_child expand_parents add_parent
    op_seeds read_parents is_all_zero parent_path bytes_of digit digits lookup insert set_of place
    sort windows_le text_eq text_lt
expand_run = refl

expand-IsExpansion_example :
    IsExpansion repo_codec repo_files
      (text "views/v" ∷ second_op ∷ [])
      (first_op ∷ second_op ∷ text "views/v" ∷ [])
expand-IsExpansion_example =
    expand-IsExpansion repo_codec repo_files (text "views/v" ∷ second_op ∷ [])
      (first_op ∷ second_op ∷ text "views/v" ∷ []) expand_run

expand-ne-panic_example :
    expand_operation_parent_closure repo_codec repo_files (second_op ∷ []) ≢ panic
expand-ne-panic_example = expand-ne-panic repo_codec repo_files repo_codec-IsHex (second_op ∷ [])
