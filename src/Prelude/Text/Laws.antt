-- ===== src/Prelude/Text/Laws.antt =====
-- Splitting, joining and trimming.
use Prim.Native.Nat.{ℕ}
use mathlib.Core.Path.{◌≡◌, refl, ap, ◌∙◌}
use mathlib.Core.Logic.{◌≢◌}
use mathlib.Core.Bool.{true, false, not}
use mathlib.Core.List.{List, [], ◌∷◌, ◌++◌}
use native.Mathlib.Omega.{arith}
use dojjo.Prelude.Lists.{All, all}
use dojjo.Prelude.Text.{Text, is_whitespace, trim, trim_end, has_char, cons_head, split, join}

pub split-ne-nil : (c : ℕ) (s : Text) → split c s ≢ []
unfolding split
split-ne-nil c [] h = cc
split-ne-nil c (x ∷ s) h = ground (arith, split-ne-nil c s)

join-cons_head : (c x : ℕ) (ss : List Text) → ss ≢ [] → join c (cons_head x ss) ≡ x ∷ join c ss
unfolding join
join-cons_head c x [] h = absurd (h refl)
join-cons_head c x (s ∷ []) h = refl
join-cons_head c x (s ∷ t ∷ r) h = refl

join-nil-cons : (c : ℕ) (ss : List Text) → ss ≢ [] → join c ([] ∷ ss) ≡ c ∷ join c ss
unfolding join
join-nil-cons c [] h = absurd (h refl)
join-nil-cons c (s ∷ r) h = refl

pub join-split : (c : ℕ) (s : Text) → join c (split c s) ≡ s
unfolding split
join-split c [] = unfold join in refl
join-split c (x ∷ s) = ground (
  arith,
  join-split c s,
  join-cons_head c x (split c s) (split-ne-nil c s),
  join-nil-cons c (split c s) (split-ne-nil c s),
)

split-append : (c : ℕ) (s r : Text) → has_char c s ≡ false → split c (s ++ (c ∷ r)) ≡ s ∷ split c r
unfolding split
split-append c [] r h = ground arith
split-append c (x ∷ s) r h = ground (arith, split-append c s r)

split_plain : (c : ℕ) (s : Text) → has_char c s ≡ false → split c s ≡ s ∷ []
unfolding split
split_plain c [] h = refl
split_plain c (x ∷ s) h = ground (arith, split_plain c s)

pub split-join :
    (c : ℕ) (ss : List Text)
    → ss ≢ []
    → All (λ s. has_char c s ≡ false) ss
    → split c (join c ss) ≡ ss
unfolding join
split-join c [] h k = absurd (h refl)
split-join c (s ∷ []) h k = split_plain c s k.0
split-join c (s ∷ t ∷ r) h k =
    split-append c s (join c (t ∷ r)) k.0 ∙ ap (λ x. s ∷ x) (split-join c (t ∷ r) (λ e. cc) k.1)

trim_end_plain : (s : Text) → all (λ c. not (is_whitespace c)) s ≡ true → trim_end s ≡ s
unfolding trim_end
trim_end_plain [] h = refl
trim_end_plain (c ∷ s) h = ground (arith, trim_end_plain s)

-- A text without white space is its own `trim`.
pub trim_plain : (s : Text) → all (λ c. not (is_whitespace c)) s ≡ true → trim s ≡ s
unfolding trim
trim_plain [] h = refl
trim_plain (c ∷ s) h = ground (arith, trim_end_plain (c ∷ s) h)
