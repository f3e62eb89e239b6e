-- ===== src/Prelude/Text/Search.antt =====
-- The searches of `str` for a text: where it begins, ends, occurs first.
use Prim.Native.Nat.{ℕ, ◌+◌, ◌-◌}
use mathlib.Core.Bool.{Bool, ◌||◌}
use mathlib.Core.Option.{Option, none, some}
use mathlib.Core.List.{[], ◌∷◌, ◌++◌}
use dojjo.Prelude.Tests.{leb, if◌then◌else◌}
use dojjo.Prelude.Text.{Text, is_empty, is_whitespace, starts_with, strip_prefix, trim_start}
use dojjo.Prelude.Text.Order.{text_eq}

-- `str::contains` of a text
unfoldable pub has_text : Text → Text → Bool
has_text pat [] = is_empty pat
has_text pat (c ∷ s) = starts_with pat (c ∷ s) || has_text pat s

unfoldable pub ends_with : Text → Text → Bool
ends_with pat [] = is_empty pat
ends_with pat (c ∷ s) = text_eq (c ∷ s) pat || ends_with pat s

abbrev pub put_before : ℕ → Option (Text × Text) → Option (Text × Text)
put_before c none = none
put_before c (some (before, after)) = some (c ∷ before, after)

abbrev pub or_later : ℕ → Option Text → Option (Text × Text) → Option (Text × Text)
or_later c none later = put_before c later
or_later c (some after) later = some ([], after)

-- `split_once`: what stands before and after the first occurrence.
unfoldable pub split_once : Text → Text → Option (Text × Text)
split_once pat [] = if is_empty pat then some ([], []) else none
split_once pat (c ∷ s) = or_later c (strip_prefix pat (c ∷ s)) (split_once pat s)

abbrev pub keep_char : ℕ → Option Text → Option Text
keep_char c none = none
keep_char c (some s) = some (c ∷ s)

unfoldable pub strip_suffix : Text → Text → Option Text
strip_suffix pat [] = if is_empty pat then some [] else none
strip_suffix pat (c ∷ s) = if text_eq (c ∷ s) pat then some [] else keep_char c (strip_suffix pat s)

abbrev pub replaced : Text → Text → Option (Text × Text) → Text
replaced s rep none = s
replaced s rep (some (before, after)) = before ++ rep ++ after

-- `replacen(pat, rep, 1)`
unfoldable pub replace_first : Text → Text → Text → Text
replace_first pat rep s = replaced s rep (split_once pat s)

-- Up to the first white space.
unfoldable pub first_word : Text → Text
first_word [] = []
first_word (c ∷ s) = let rest = first_word s in if is_whitespace c then [] else c ∷ rest

-- `split_whitespace().next().unwrap_or("")`
unfoldable pub next_word : Text → Text
unfolding first_word trim_start
next_word s = first_word (trim_start s)

abbrev pub to_ascii_lower : ℕ → ℕ
to_ascii_lower c = if leb b'A' c then (if leb c b'Z' then c + 32 else c) else c

abbrev pub to_ascii_upper : ℕ → ℕ
to_ascii_upper c = if leb b'a' c then (if leb c b'z' then c - 32 else c) else c
