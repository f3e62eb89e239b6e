-- ===== src/Client/Git/Parsed.antt =====
-- What the parsers of `git_sync.rs` put into a table of refs.
use mathlib.Core.Path.{subst}
use dojjo.Prelude.Text.Order.{text_order, text_eq_iff}
use dojjo.Prelude.{
  List, [], ◌∷◌, ◌≡◌, refl, sym, ap, ◌∙◌, inl, inr, arith, true, false, ◌||◌, Option, none, some,
  ok, bind_inv, ok-injective, Bool-cases,
}
use dojjo.Prelude.Order.{◌==◌}
use dojjo.Prelude.Dict.{lookup, put, lookup-put}
use dojjo.Prelude.Text.{Text, text, split, starts_with}
use dojjo.Prelude.Text.Search.{split_once}
use dojjo.Mirror.Operation.{Bytes}
use dojjo.Client.Git.Refs.{
  Refs, expect_text, add_parts, is_shared, is_tracking, add_remote_ref, add_line, add_lines,
  parse_stdout,
}

-- Two texts that begin one text: one begins the other.
starts_with_both :
    (p q s : Text)
    → starts_with p s ≡ true
    → starts_with q s ≡ true
    → (starts_with p q || starts_with q p) ≡ true
starts_with_both [] q s h k = refl
starts_with_both (a ∷ p) [] s h k = refl
starts_with_both (a ∷ p) (b ∷ q) [] h k = cc
starts_with_both (a ∷ p) (b ∷ q) (c ∷ s) h k = ground (arith, starts_with_both p q s)

prefix_apart :
    (p q s : Text)
    → starts_with p s ≡ true
    → (starts_with p q || starts_with q p) ≡ false
    → starts_with q s ≡ false
prefix_apart p q s h apart = elim (Bool-cases (starts_with q s)) [
  | inl is ↦ let bad = sym (starts_with_both p q s h is) ∙ apart in cc
  | inr other ↦ other
]

pub tracking-not-shared : (r : Text) → is_tracking r ≡ true → is_shared r ≡ false
tracking-not-shared r h =
    let tracking = text "refs/remotes/dojjo/" in
    rw
      (
        prefix_apart tracking (text "refs/heads/") r h refl,
        prefix_apart tracking (text "refs/jj/") r h refl,
        prefix_apart tracking (text "refs/tags/") r h refl,
      )
      refl

module _ {ℓ} (P : Refs → Type ℓ) (from_utf8 : Bytes → Option Text) (add : Text → Text → Refs → Refs)
    (keeps : (a b : Text) (refs : Refs) → P refs → P (add a b refs)) where
  add_parts_inv : (r : Option (Text × Text)) (refs : Refs) → P refs → P (add_parts add r refs)
  add_parts_inv none refs p = p
  add_parts_inv (some (a, b)) refs p = keeps a b refs p

  add_line_inv :
      (line : Bytes) (refs next : Refs)
      → P refs
      → add_line from_utf8 add line refs ≡ ok next
      → P next
  unfolding add_line
  add_line_inv [] refs next p h = subst P (ok-injective h) p
  add_line_inv (c ∷ line) refs next p h =
      let (line_text, _, more) = bind_inv (expect_text (from_utf8 (c ∷ line))) _ h in
      subst P (ok-injective more) (add_parts_inv (split_once (text "\t") line_text) refs p)

  -- What is kept by each line holds of what is read.
  pub add_lines_inv :
      (lines : List Bytes) (refs out : Refs)
      → P refs
      → add_lines from_utf8 add lines refs ≡ ok out
      → P out
  unfolding add_lines
  add_lines_inv [] refs out p h = subst P (ok-injective h) p
  add_lines_inv (line ∷ lines) refs out p h =
      let (next, added, more) = bind_inv (add_line from_utf8 add line refs) _ h in
      add_lines_inv lines next out (add_line_inv line refs next p added) more

-- Every ref that is read of the remote is a branch, a tag or one of jj.
abbrev pub IsShared : Refs → Type 0
IsShared refs = (r oid : Text) → lookup r refs ≡ some oid → is_shared r ≡ true

put-IsShared :
    (name oid : Text) (refs : Refs)
    → is_shared name ≡ true
    → IsShared refs
    → IsShared (put name oid refs)
put-IsShared name oid refs shared h r o found = elim (Bool-cases (name == r)) [
  | inl same ↦ ap is_shared (sym ((text_eq_iff name r).0 same)) ∙ shared
  | inr apart ↦ h r o (sym (lookup-put name r oid refs ∙ rw apart refl) ∙ found)
]

add_remote-IsShared :
    (a b : Text) (refs : Refs) → IsShared refs → IsShared (add_remote_ref a b refs)
add_remote-IsShared oid name refs h = elim (Bool-cases (is_shared name)) [
  | inl shared ↦ rw shared (put-IsShared name oid refs shared h)
  | inr other ↦ rw other h
]

pub parse_stdout-IsShared :
    (from_utf8 : Bytes → Option Text) (stdout : Bytes) (remote : Refs)
    → parse_stdout from_utf8 stdout ≡ ok remote
    → IsShared remote
unfolding parse_stdout lookup
parse_stdout-IsShared from_utf8 stdout remote h =
    add_lines_inv IsShared from_utf8 add_remote_ref add_remote-IsShared (split b'\n' stdout) []
      remote (λ r o none_there. cc) h
