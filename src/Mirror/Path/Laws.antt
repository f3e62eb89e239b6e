-- ===== src/Mirror/Path/Laws.antt =====
-- What `parse_safe_mirror_rel` accepts.
use Prim.Native.Nat.{ℕ}
use dojjo.Prelude.{
  List, [], ◌∷◌, ◌++◌, ◌≡◌, refl, ap, sym, ◌∙◌, ◌≢◌, ◌↔◌, inl, inr, Bool, true, false, not, ◌&&◌,
  ◌≤◌, arith, all, All, ok, panic, Result-cases,
}
use dojjo.Prelude.Text.{
  Text, text, is_empty, is_whitespace, len, trim, starts_with, has_char, split, join,
}
use dojjo.Prelude.Text.Laws.{split-join, join-split, split-ne-nil, trim_plain}
use dojjo.Mirror.Path.{
  segment_char, is_safe_mirror_path_segment, parse_segments, is_nil, is_normal,
  parse_safe_mirror_rel,
}
use dojjo.Mirror.Path.Segments.{
  IsSafeSegment, IsMirrorPath, all_iff, is_safe_iff, parse_segments_lem, parse_segments_inv,
  parse_segments_ne_panic, all_chars, all_normal, no_char-join, no_slash, join_head, is_nil_lem,
}

accepts :
    (rel : Text) (segs : List Text)
    → segs ≢ []
    → all is_safe_mirror_path_segment segs ≡ true
    → join b'/' segs ≡ trim rel
    → len (trim rel) ≤ 4096
    → parse_safe_mirror_rel rel ≡ ok segs
accepts rel segs h k e n =
    let parts : split b'/' (trim rel) ≡ segs =
      ap (split b'/') (sym e) ∙ split-join b'/' segs h (no_slash segs k) in
    let run : parse_segments (split b'/' (trim rel)) [] ≡ ok segs =
      rw parts (parse_segments_lem segs [] k) in
    let (full, no_root, no_back) = join_head segs h k in
    unfold parse_safe_mirror_rel in
    ground (
      arith,
      ap is_empty e,
      ap (starts_with (text "/")) e,
      ap (starts_with (text "\\")) e,
      ap (has_char b'\\') e,
      no_char-join b'\\' segs refl refl k,
      run,
      is_nil_lem segs h,
      all_normal segs k,
    )

rejects :
    (rel : Text) (segs : List Text)
    → parse_safe_mirror_rel rel ≡ ok segs
    → (all is_safe_mirror_path_segment segs ≡ true)
      × (segs ≡ split b'/' (trim rel))
      × (len (trim rel) ≤ 4096)
rejects rel segs h =
    let run : parse_segments (split b'/' (trim rel)) [] ≡ ok segs =
      unfold parse_safe_mirror_rel in ground arith in
    let (safe, e) = parse_segments_inv (split b'/' (trim rel)) [] segs run in
    (rw e safe, e, unfold parse_safe_mirror_rel in ground arith)

-- `parse_safe_mirror_rel` returns exactly the safe segments that joined by slashes are the trimmed
-- input of at most 4096 bytes.
pub parse_safe_iff :
    (rel : Text) (segs : List Text) → (parse_safe_mirror_rel rel ≡ ok segs) ↔ IsMirrorPath rel segs
parse_safe_iff rel segs =
    let safe = all_iff is_safe_mirror_path_segment IsSafeSegment is_safe_iff segs in
    (
      λ h.
          let (k, e, n) = rejects rel segs h in
          record {
            some_segment = λ z. split-ne-nil b'/' (trim rel) (sym e ∙ z);
            safe = safe.0 k;
            joined = ap (join b'/') e ∙ join-split b'/' (trim rel);
            fits = n;
          },
      λ m. accepts rel segs m.some_segment (safe.1 m.safe) m.joined m.fits,
    )

-- No assertion of `parse_safe_mirror_rel` can fail.
pub parse_safe-ne-panic : (rel : Text) → parse_safe_mirror_rel rel ≢ panic
parse_safe-ne-panic rel h = elim (Result-cases (parse_segments (split b'/' (trim rel)) [])) [
  | inl (out, run) ↦
      let (safe, e) = parse_segments_inv (split b'/' (trim rel)) [] out run in
      let normal : all is_normal out ≡ true = rw e (all_normal (split b'/' (trim rel)) safe) in
      let full : is_nil out ≡ false =
        rw e (is_nil_lem (split b'/' (trim rel)) (split-ne-nil b'/' (trim rel))) in
      unfold parse_safe_mirror_rel in ground (arith, run, normal, full)
  | inr (inl (e, run)) ↦ unfold parse_safe_mirror_rel in ground (arith, run)
  | inr (inr run) ↦ parse_segments_ne_panic (split b'/' (trim rel)) [] run
]

and_split : (a b : Bool) → (a && b) ≡ true → (a ≡ true) × (b ≡ true)
and_split true b h = (refl, h)
and_split false b h = cc

visible_range : (c : ℕ) → segment_char c ≡ true → (33 ≤ c) × (c ≤ 122)
visible_range c h = ground arith

not_white : (c : ℕ) → (33 ≤ c) × (c ≤ 122) → is_whitespace c ≡ false
not_white c h = ground arith

white_lem : (s : Text) → all segment_char s ≡ true → all (λ c. not (is_whitespace c)) s ≡ true
white_lem [] h = refl
white_lem (c ∷ s) h =
    let (here, rest) = and_split (segment_char c) (all segment_char s) h in
    rw (not_white c (visible_range c here)) (white_lem s rest)

all-append {ℓ} : {A : Type ℓ} (p : A → Bool) (s r : List A) → all p (s ++ r) ≡ (all p s && all p r)
all-append p [] r = refl
all-append p (x ∷ s) r = ground (arith, all-append p s r)

no_white :
    (segs : List Text)
    → all is_safe_mirror_path_segment segs ≡ true
    → all (λ c. not (is_whitespace c)) (join b'/' segs) ≡ true
unfolding join
no_white [] h = refl
no_white (s ∷ []) h = white_lem s (all_chars s (ground arith))
no_white (s ∷ t ∷ r) h = ground (
  arith,
  white_lem s (all_chars s (ground arith)),
  no_white (t ∷ r) (ground arith),
  all-append (λ c. not (is_whitespace c)) s (b'/' ∷ join b'/' (t ∷ r)),
)

-- Safe segments, joined, are parsed back.
pub parse-join :
    (segs : List Text)
    → segs ≢ []
    → All IsSafeSegment segs
    → len (join b'/' segs) ≤ 4096
    → parse_safe_mirror_rel (join b'/' segs) ≡ ok segs
parse-join segs h safe fits =
    let k = (all_iff is_safe_mirror_path_segment IsSafeSegment is_safe_iff segs).1 safe in
    let plain = trim_plain (join b'/' segs) (no_white segs k) in
    accepts (join b'/' segs) segs h k (sym plain) (rw plain fits)
