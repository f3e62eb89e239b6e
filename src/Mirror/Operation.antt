-- ===== src/Mirror/Operation.antt =====
-- Operation files, as mirror_apply_order.rs and operation_expand.rs of dojjo-mirror/src read them.
-- The protobuf decoder of `jj_lib` and the `hex` crate are parameters.
use Prim.Native.Nat.{ℕ, ◌*◌}
use dojjo.Prelude.{List, ◌++◌, ◌≡◌, Bool, Option, nat_eq, all, length}
use dojjo.Prelude.Text.{Text, text, len}

abbrev pub Bytes : Type 0
Bytes = List ℕ

-- `OperationProto::decode`, of which only the field `parents` is read, and `hex::encode`.
pub record Codec : Type 0 where
  pub parents : Bytes → Option (List Bytes)
  pub hex_encode : Bytes → Text

-- Two digits for each byte.
pub record IsHex (c : Codec) : Type 0 where
  pub len-hex_encode : (b : Bytes) → len (c.hex_encode b) ≡ 2 * length b

-- The regular files below the root of the repository; `none` where a read fails.
abbrev pub Files : Type 0
Files = Text → Option Bytes

-- `std::io::Error`, by what the callers tell apart.
pub data IoError : Type 0 where
  invalid_data other : IoError

abbrev pub operation_id_bytes : ℕ
operation_id_bytes = 64

abbrev pub operation_id_hex_chars : ℕ
operation_id_hex_chars = operation_id_bytes * 2

abbrev pub op_prefix : Text
op_prefix = text "op_store/operations/"

unfoldable pub is_all_zero : Bytes → Bool
is_all_zero bytes = all (λ b. nat_eq b 0) bytes

-- `format!("op_store/operations/{parent_hex}")`
unfoldable pub parent_path : Codec → Bytes → Text
parent_path c parent = op_prefix ++ c.hex_encode parent
