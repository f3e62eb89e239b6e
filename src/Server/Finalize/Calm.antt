-- ===== src/Server/Finalize/Calm.antt =====
-- The steps of `finalize_into_mirror` that cannot panic.
use dojjo.Prelude.{
  List, ◌≡◌, ◌≢◌, refl, Bool, true, false, not, Option, none, some, Result, ok, err, panic, arith,
}
use dojjo.Prelude.Text.{Text, is_empty, join}
use dojjo.Prelude.Text.Order.{text_order}
use dojjo.Prelude.Action.{check, ensure}
use dojjo.Tus.Types.{Bytes, UploadId, StoreError, not_found, other}
use dojjo.Mirror.Path.{PathError, parse_safe_mirror_rel}
use dojjo.Mirror.Path.Laws.{parse_safe_iff}
use dojjo.Mirror.Path.Segments.{safe-IsRelText}
use dojjo.Server.Store.{Dojo, Faults, data_len}
use dojjo.Server.Store.Append.{eq_refl}
use dojjo.Server.Finalize.{
  FinalizeError, FinalizeFaults, or_fail, map_path_error, map_store_error, move_into_mirror,
}

pub check-ne-panic : (s : Dojo) (b : Bool) → b ≡ true → (check {E = FinalizeError} b s).0 ≢ panic
check-ne-panic s true e h = cc
check-ne-panic s false e h = cc

pub ensure-ne-panic : (s : Dojo) (b : Bool) (e : FinalizeError) → (ensure b e s).0 ≢ panic
ensure-ne-panic s true e h = cc
ensure-ne-panic s false e h = cc

pub or_fail-ne-panic {ℓ} : {A : Type ℓ} (o : Option A) (e : FinalizeError) → or_fail o e ≢ panic
or_fail-ne-panic none e h = cc
or_fail-ne-panic (some a) e h = cc

pub map_path_error-panic {ℓ} :
    {A : Type ℓ} (r : Result PathError A) → map_path_error r ≡ panic → r ≡ panic
map_path_error-panic (ok a) h = cc
map_path_error-panic (err e) h = cc
map_path_error-panic panic h = refl

pub map_store_error-panic {ℓ} :
    {A : Type ℓ} (r : Result StoreError A) → map_store_error r ≡ panic → r ≡ panic
map_store_error-panic (ok a) h = cc
map_store_error-panic (err not_found) h = cc
map_store_error-panic (err other) h = cc
map_store_error-panic panic h = refl

pub data_len-ne-panic : (f : Faults) (id : UploadId) (s : Dojo) → (data_len f id s).0 ≢ panic
unfolding data_len
data_len-ne-panic f id s h = ground (arith, h)

module _ (g : FinalizeFaults) (id : UploadId) (dest : Text) (bytes : Bytes) (s : Dojo) where
  pub move_into_mirror-ne-panic : (move_into_mirror g id dest bytes s).0 ≢ panic
  unfolding move_into_mirror
  move_into_mirror-ne-panic h = ground (arith, h, eq_refl id, eq_refl dest)

pub ok-ne-panic {ℓ} : {A : Type ℓ} {r : Result FinalizeError A} {a : A} → r ≡ ok a → r ≢ panic
ok-ne-panic run h = cc

pub joined_nonempty :
    (raw : Text) (rel : List Text)
    → parse_safe_mirror_rel raw ≡ ok rel
    → is_empty (join b'/' rel) ≡ false
joined_nonempty raw rel parsed =
    let m = (parse_safe_iff raw rel).0 parsed in
    (safe-IsRelText rel m.some_segment m.safe).not_empty

pub nonempty-not : (b : Bool) → b ≡ false → not b ≡ true
nonempty-not true e = cc
nonempty-not false e = refl
