-- ===== src/Mirror/Path/Segments.antt =====
-- The segments that `parse_safe_mirror_rel` accepts, and paths joined of them.
use Prim.Native.Nat.{ℕ}
use mathlib.Core.List.{append_assoc, append-nil}
use dojjo.Prelude.{
  List, [], ◌∷◌, ◌++◌, ◌≡◌, refl, ◌≢◌, ◌↔◌, ◌⊎◌, Bool, true, false, ◌||◌, ◌≤◌, arith, nat_eq, all,
  All, ok, panic,
}
use dojjo.Prelude.Text.{Text, text, is_empty, len, trim, starts_with, has_char, join}
use dojjo.Prelude.Text.Order.{text_eq_iff}
use dojjo.Mirror.Path.{segment_char, is_safe_mirror_path_segment, parse_segments, is_nil, is_normal}

-- `[A-Za-z0-9._-]`
abbrev pub IsAllowed : ℕ → Type 0
IsAllowed c =
    ((b'a' ≤ c) × (c ≤ b'z'))
    ⊎ ((b'A' ≤ c) × (c ≤ b'Z'))
    ⊎ ((b'0' ≤ c) × (c ≤ b'9'))
    ⊎ (c ≡ b'.')
    ⊎ (c ≡ b'_')
    ⊎ (c ≡ b'-')

pub record IsSafeSegment (seg : Text) : Type 0 where
  pub some_char : seg ≢ []
  pub not_dot : seg ≢ text "."
  pub not_dot_dot : seg ≢ text ".."
  pub allowed : All IsAllowed seg

-- `segs` are the segments of `rel`, and all are safe.
pub record IsMirrorPath (rel : Text) (segs : List Text) : Type 0 where
  pub some_segment : segs ≢ []
  pub safe : All IsSafeSegment segs
  pub joined : join b'/' segs ≡ trim rel
  pub fits : len (trim rel) ≤ 4096

segment_char_iff : (c : ℕ) → (segment_char c ≡ true) ↔ IsAllowed c
segment_char_iff c = (λ h. ground arith, λ h. ground arith)

pub all_iff {ℓ} :
    {A : Type ℓ} (p : A → Bool) (P : A → Type 0)
    → ((a : A) → (p a ≡ true) ↔ P a)
    → (xs : List A) → (all p xs ≡ true) ↔ All P xs
all_iff p P e [] = (λ _. tt, λ _. refl)
all_iff p P e (x ∷ xs) = (
  λ h. ((e x).0 (ground arith), (all_iff p P e xs).0 (ground arith)),
  λ h. ground (arith, (e x).1 h.0, (all_iff p P e xs).1 h.1),
)

pub is_safe_iff : (seg : Text) → (is_safe_mirror_path_segment seg ≡ true) ↔ IsSafeSegment seg
unfolding is_safe_mirror_path_segment
is_safe_iff [] = (λ h. cc, λ h. absurd (h.some_char refl))
is_safe_iff (c ∷ s) =
    let dot = text_eq_iff (c ∷ s) (text ".") in
    let dots = text_eq_iff (c ∷ s) (text "..") in
    let chars = all_iff segment_char IsAllowed segment_char_iff (c ∷ s) in
    (
      λ h. record {
        some_char = λ e. cc;
        not_dot = λ e. ground (arith, dot.1 e);
        not_dot_dot = λ e. ground (arith, dots.1 e);
        allowed = chars.0 (ground arith);
      },
      λ h. ground (arith, dot, dots, h.not_dot, h.not_dot_dot, chars.1 h.allowed),
    )

pub parse_segments_lem :
    (segs out : List Text)
    → all is_safe_mirror_path_segment segs ≡ true
    → parse_segments segs out ≡ ok (out ++ segs)
unfolding parse_segments is_safe_mirror_path_segment
parse_segments_lem [] out h = rw append-nil
parse_segments_lem (s ∷ segs) out h =
    let rest = parse_segments_lem segs (out ++ s ∷ []) (ground arith) in
    ground (arith, rest, append_assoc out (s ∷ []) segs)

pub parse_segments_inv :
    (segs out r : List Text)
    → parse_segments segs out ≡ ok r
    → (all is_safe_mirror_path_segment segs ≡ true) × (r ≡ out ++ segs)
unfolding parse_segments
parse_segments_inv [] out r h = (refl, ground (arith, append-nil out))
parse_segments_inv (s ∷ segs) out r h =
    let rest = parse_segments_inv segs (out ++ s ∷ []) r (ground arith) in
    ground (arith, rest, append_assoc out (s ∷ []) segs)

pub parse_segments_ne_panic : (segs out : List Text) → parse_segments segs out ≢ panic
unfolding parse_segments
parse_segments_ne_panic [] out h = cc
parse_segments_ne_panic (s ∷ segs) out h =
    ground (arith, parse_segments_ne_panic segs (out ++ s ∷ []))

pub all_chars : (seg : Text) → is_safe_mirror_path_segment seg ≡ true → all segment_char seg ≡ true
unfolding is_safe_mirror_path_segment
all_chars seg h = ground arith

is_normal_lem : (seg : Text) → is_safe_mirror_path_segment seg ≡ true → is_normal seg ≡ true
unfolding is_safe_mirror_path_segment
is_normal_lem seg h = ground arith

pub all_normal :
    (segs : List Text) → all is_safe_mirror_path_segment segs ≡ true → all is_normal segs ≡ true
all_normal [] h = refl
all_normal (s ∷ segs) h = ground (arith, is_normal_lem s, all_normal segs)

no_char :
    (c : ℕ) (s : Text) → segment_char c ≡ false → all segment_char s ≡ true → has_char c s ≡ false
no_char c [] h k = refl
no_char c (x ∷ s) h k = ground (arith, no_char c s h)

has_char-append : (c : ℕ) (s r : Text) → has_char c (s ++ r) ≡ (has_char c s || has_char c r)
has_char-append c [] r = refl
has_char-append c (x ∷ s) r = ground (arith, has_char-append c s r)

pub no_char-join :
    (c : ℕ) (segs : List Text)
    → segment_char c ≡ false
    → nat_eq b'/' c ≡ false
    → all is_safe_mirror_path_segment segs ≡ true
    → has_char c (join b'/' segs) ≡ false
unfolding join
no_char-join c [] h k m = refl
no_char-join c (s ∷ []) h k m = no_char c s h (all_chars s (ground arith))
no_char-join c (s ∷ t ∷ r) h k m = ground (
  arith,
  no_char c s h (all_chars s (ground arith)),
  no_char-join c (t ∷ r) h k (ground arith),
  has_char-append c s (b'/' ∷ join b'/' (t ∷ r)),
)

pub no_slash :
    (segs : List Text)
    → all is_safe_mirror_path_segment segs ≡ true
    → All (λ s. has_char b'/' s ≡ false) segs
no_slash [] h = tt
no_slash (s ∷ segs) h =
    (no_char b'/' s refl (all_chars s (ground arith)), no_slash segs (ground arith))

-- A joined path is not empty and begins with no separator.
pub join_head :
    (segs : List Text)
    → segs ≢ []
    → all is_safe_mirror_path_segment segs ≡ true
    → (is_empty (join b'/' segs) ≡ false)
      × (starts_with (text "/") (join b'/' segs) ≡ false)
      × (starts_with (text "\\") (join b'/' segs) ≡ false)
unfolding join is_safe_mirror_path_segment
join_head [] h k = absurd (h refl)
join_head ([] ∷ segs) h k = cc
join_head ((c ∷ s) ∷ []) h k = ground arith
join_head ((c ∷ s) ∷ t ∷ r) h k = ground arith

pub is_nil_lem : (segs : List Text) → segs ≢ [] → is_nil segs ≡ false
is_nil_lem [] h = absurd (h refl)
is_nil_lem (s ∷ ss) h = refl

-- What a joined path looks like to tests on its text.
pub record IsRelText (segs : List Text) : Type 0 where
  pub not_empty : is_empty (join b'/' segs) ≡ false
  pub not_rooted : starts_with (text "/") (join b'/' segs) ≡ false
  pub no_backslash : has_char b'\\' (join b'/' segs) ≡ false
  pub no_slashes : All (λ s. has_char b'/' s ≡ false) segs

pub safe-IsRelText : (segs : List Text) → segs ≢ [] → All IsSafeSegment segs → IsRelText segs
safe-IsRelText segs h safe =
    let k = (all_iff is_safe_mirror_path_segment IsSafeSegment is_safe_iff segs).1 safe in
    let (full, no_root, no_back) = join_head segs h k in
    record {
      not_empty = full;
      not_rooted = no_root;
      no_backslash = no_char-join b'\\' segs refl refl k;
      no_slashes = no_slash segs k;
    }
