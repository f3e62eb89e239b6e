-- ===== src/Prelude/Text/Occurs.antt =====
-- Where a text occurs in another: `split_once` at the first occurrence, `contains` of joined texts.
use Prim.Native.Nat.{ℕ, ◌≤◌}
use mathlib.Core.Path.{◌≡◌, refl, sym, ap, ◌∙◌}
use mathlib.Core.Logic.{inl, inr}
use mathlib.Core.Bool.{true, false, ◌||◌}
use mathlib.Core.Option.{none, some}
use mathlib.Core.List.{[], ◌∷◌, ◌++◌, append_assoc}
use native.Mathlib.Omega.{arith}
use dojjo.Prelude.Tests.{Bool-cases}
use dojjo.Prelude.Lists.{length, length-append}
use dojjo.Prelude.Text.{Text, has_char, has_dots, starts_with, strip_prefix}
use dojjo.Prelude.Text.Order.{text_eq_iff}
use dojjo.Prelude.Text.Search.{has_text, ends_with, split_once}

-- A text that is long enough decides alone what it starts with.
starts_with-append :
    (pat s t : Text) → length pat ≤ length s → starts_with pat (s ++ t) ≡ starts_with pat s
starts_with-append [] s t h = refl
starts_with-append (p ∷ ps) [] t h = absurd (omega arith)
starts_with-append (p ∷ ps) (c ∷ s) t h = rw (starts_with-append ps s t (omega arith)) refl

strip_prefix-eq-none : (pat s : Text) → starts_with pat s ≡ false → strip_prefix pat s ≡ none
strip_prefix-eq-none [] s h = cc
strip_prefix-eq-none (p ∷ ps) [] h = refl
strip_prefix-eq-none (p ∷ ps) (c ∷ s) h = ground (arith, strip_prefix-eq-none ps s)

pub strip_prefix-append : (pat s : Text) → strip_prefix pat (pat ++ s) ≡ some s
strip_prefix-append [] s = refl
strip_prefix-append (p ∷ ps) s = ground (arith, strip_prefix-append ps s)

pub starts_with-append_self : (pat s : Text) → starts_with pat (pat ++ s) ≡ true
starts_with-append_self [] s = refl
starts_with-append_self (p ∷ ps) s = ground (arith, starts_with-append_self ps s)

split_once_at_start :
    (pat s rest : Text) → strip_prefix pat s ≡ some rest → split_once pat s ≡ some ([], rest)
unfolding split_once
split_once_at_start [] [] rest h = ground arith
split_once_at_start (p ∷ ps) [] rest h = cc
split_once_at_start pat (c ∷ s) rest h = rw h refl

module _ (init : Text) (last : ℕ) (rest : Text) where
  head_differs :
      (c : ℕ) (head : Text)
      → starts_with (init ++ last ∷ []) (c ∷ head ++ init) ≡ false
      → strip_prefix (init ++ last ∷ []) (c ∷ head ++ init ++ last ∷ rest) ≡ none
  head_differs c head h =
      let pat = init ++ last ∷ [] in
      let long : length pat ≤ length (c ∷ head ++ init) =
        omega (arith, length-append init (last ∷ []), length-append (c ∷ head) init) in
      strip_prefix-eq-none pat (c ∷ head ++ init ++ last ∷ rest)
        (starts_with-append pat (c ∷ head ++ init) (last ∷ rest) long ∙ h)

  -- `split_once` splits at an occurrence that has none before it, not even overlapping.
  pub split_once-append :
      (head : Text)
      → has_text (init ++ last ∷ []) (head ++ init) ≡ false
      → split_once (init ++ last ∷ []) (head ++ init ++ last ∷ rest) ≡ some (head, rest)
  unfolding split_once has_text
  split_once-append [] h = split_once_at_start (init ++ last ∷ []) (init ++ last ∷ rest) rest (
      ap (strip_prefix (init ++ last ∷ [])) (sym (append_assoc init (last ∷ []) rest))
      ∙ strip_prefix-append (init ++ last ∷ []) rest)
  split_once-append (c ∷ head) h =
      elim (Bool-cases (starts_with (init ++ last ∷ []) (c ∷ head ++ init))) [
        | inl here ↦ let bad = rw here at h in cc
        | inr apart ↦ rw (head_differs c head apart, split_once-append head (rw apart at h)) refl
      ]

starts_with-has_char :
    (c : ℕ) (pat s : Text)
    → has_char c pat ≡ true
    → has_char c s ≡ false
    → starts_with pat s ≡ false
starts_with-has_char c [] s h k = cc
starts_with-has_char c (p ∷ ps) [] h k = refl
starts_with-has_char c (p ∷ ps) (x ∷ s) h k = ground (arith, starts_with-has_char c ps s)

-- A text that lacks a character has no occurrence of one with it.
pub has_text-has_char :
    (c : ℕ) (pat s : Text) → has_char c pat ≡ true → has_char c s ≡ false → has_text pat s ≡ false
unfolding has_text
has_text-has_char c [] s h k = cc
has_text-has_char c (p ∷ ps) [] h k = refl
has_text-has_char c (p ∷ ps) (x ∷ s) h k =
    ground (arith, starts_with-has_char c (p ∷ ps) (x ∷ s), has_text-has_char c (p ∷ ps) s)

pub has_text-append_self : (before pat after : Text) → has_text pat (before ++ pat ++ after) ≡ true
unfolding has_text
has_text-append_self [] [] [] = refl
has_text-append_self [] [] (c ∷ after) = refl
has_text-append_self [] (p ∷ ps) after = ground (arith, starts_with-append_self (p ∷ ps) after)
has_text-append_self (c ∷ before) pat after = ground (arith, has_text-append_self before pat after)

pub ends_with-append : (before pat : Text) → ends_with pat (before ++ pat) ≡ true
unfolding ends_with
ends_with-append [] [] = refl
ends_with-append [] (p ∷ ps) = ground (arith, text_eq_iff (p ∷ ps) (p ∷ ps))
ends_with-append (c ∷ before) pat = ground (arith, ends_with-append before pat)

pub has_char-append : (c : ℕ) (s t : Text) → has_char c (s ++ t) ≡ (has_char c s || has_char c t)
has_char-append c [] t = refl
has_char-append c (x ∷ s) t = ground (arith, has_char-append c s t)

-- Two dots in a row do not go across a slash.
pub has_dots-append :
    (s t : Text) → has_dots (s ++ (b'/' ∷ t)) ≡ (has_dots s || has_dots (b'/' ∷ t))
unfolding has_dots
has_dots-append [] t = refl
has_dots-append (c ∷ []) t = ground arith
has_dots-append (c ∷ d ∷ s) t = ground (arith, has_dots-append (d ∷ s) t)
