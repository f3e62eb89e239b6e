-- ===== src/Prelude/Json.antt =====
-- `serde_json::Value`, as far as client and server need it. A number that is no `u64` is `other`.
use Prim.Native.Nat.{ℕ}
use mathlib.Core.Option.{Option, none, some}
use mathlib.Core.List.{List, [], ◌∷◌}
use dojjo.Prelude.Tests.{if◌then◌else◌}
use dojjo.Prelude.Order.{◌==◌}
use dojjo.Prelude.Text.{Text}
use dojjo.Prelude.Text.Order.{text_order}

mutual
  pub data Json : Type 0 where
    null other : Json
    num : ℕ → Json
    str : Text → Json
    arr : Items → Json
    obj : Fields → Json

  pub data Items : Type 0 where
    nil : Items
    cons : Json → Items → Items

  pub data Fields : Type 0 where
    end : Fields
    field : Text → Json → Fields → Fields

abbrev pub get_field : Text → Fields → Json
get_field k end = null
get_field k (field j v fs) = if j == k then v else get_field k fs

-- `value[k]`, which is `Null` where there is no such field.
abbrev pub index : Text → Json → Json
index k (obj fs) = get_field k fs
index k _ = null

abbrev pub as_str : Json → Option Text
as_str (str s) = some s
as_str _ = none

abbrev pub as_u64 : Json → Option ℕ
as_u64 (num n) = some n
as_u64 _ = none

abbrev pub items : Items → List Json
items nil = []
items (cons v vs) = v ∷ items vs

abbrev pub as_array : Json → Option (List Json)
as_array (arr vs) = some (items vs)
as_array _ = none
