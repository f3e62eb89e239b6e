-- ===== src/Tus/Handler/Guards.antt =====
-- Lemmas on the tests of the handlers.
use Prim.Native.Nat.{ℕ}
use dojjo.Prelude.{[], ◌∷◌, ◌≡◌, ◌≢◌, refl, ◌≤◌, true, false, Option, none, some, arith}
use dojjo.Prelude.Text.{is_empty}
use dojjo.Tus.Types.{UploadId}
use dojjo.Tus.Store.{Within}
use dojjo.Tus.Handler.{fits}

pub is_empty-nonempty : (id : UploadId) → id ≢ [] → is_empty id ≡ false
is_empty-nonempty [] h = absurd (h refl)
is_empty-nonempty (c ∷ id) h = refl

pub Within-fits : (d : Option ℕ) (n : ℕ) → Within d n → fits d n ≡ true
Within-fits none n h = refl
Within-fits (some len) n h = ground arith

pub fits-Within : (d : Option ℕ) (n : ℕ) → fits d n ≡ true → Within d n
fits-Within none n h = tt
fits-Within (some len) n h = ground (arith, h)

-- A smaller number fits where a larger one does.
pub Within-mono : (d : Option ℕ) (k n : ℕ) → k ≤ n → Within d n → Within d k
Within-mono none k n le h = tt
Within-mono (some len) k n le h = ground arith
