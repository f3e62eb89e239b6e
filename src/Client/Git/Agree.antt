-- ===== src/Client/Git/Agree.antt =====
-- The comparisons of refs of client/src/git_sync.rs: when nothing is to be pushed or fetched.
use dojjo.Prelude.Text.Order.{text_order, text_eq_iff}
use dojjo.Prelude.{
  ◌≤◌, [], ◌∷◌, ◌≡◌, refl, sym, ap, ◌∙◌, inl, inr, arith, Bool, true, false, ◌||◌, Option, none,
  some, ok, bind_inv, Bool-cases,
}
use dojjo.Prelude.Order.{◌==◌}
use dojjo.Prelude.Order.Sets.{count}
use dojjo.Prelude.Order.Laws.{contains-eq-count}
use dojjo.Prelude.Dict.{keys, lookup, contains-keys, put_unique}
use dojjo.Prelude.Text.{Text, split}
use dojjo.Mirror.Operation.{Bytes}
use dojjo.Client.Git.Refs.{
  Refs, is_shared, is_tracking, add_remote_ref, add_local_ref, add_tracking_ref, add_lines,
  parse_stdout, local_refs, fetch_ref, differs_from, any_to_push, any_to_fetch,
}
use dojjo.Client.Git.Parsed.{add_lines_inv}

or_inv : (a b : Bool) → (a || b) ≡ false → (a ≡ false) × (b ≡ false)
or_inv true b h = cc
or_inv false b h = (refl, h)

differs_from-eq-false : (oid : Text) (o : Option Text) → differs_from oid o ≡ false → o ≡ some oid
differs_from-eq-false oid none h = cc
differs_from-eq-false oid (some other) h = ground (arith, text_eq_iff other oid, h)

differs_from_self : (oid : Text) → differs_from oid (some oid) ≡ false
differs_from_self oid = rw ((text_eq_iff oid oid).1 refl) refl

-- The two loops are one, over what a ref is compared with.
pub any_differs : (Text → Option Text) → Refs → Bool
any_differs other [] = false
any_differs other ((r, oid) ∷ refs) = differs_from oid (other r) || any_differs other refs

pub push-any_differs :
    (remote refs : Refs) → any_to_push remote refs ≡ any_differs (λ r. lookup r remote) refs
unfolding any_to_push any_differs
push-any_differs remote [] = refl
push-any_differs remote ((r, oid) ∷ refs) = rw (push-any_differs remote refs) refl

pub fetch-any_differs :
    (push_refs refs : Refs) → any_to_fetch push_refs refs ≡ any_differs (fetch_ref push_refs) refs
unfolding any_to_fetch any_differs
fetch-any_differs push_refs [] = refl
fetch-any_differs push_refs ((r, oid) ∷ refs) = rw (fetch-any_differs push_refs refs) refl

pub any_differs-eq-false :
    (other : Text → Option Text) (refs : Refs) (r oid : Text)
    → any_differs other refs ≡ false
    → lookup r refs ≡ some oid
    → other r ≡ some oid
unfolding any_differs lookup
any_differs-eq-false other [] r oid h found = cc
any_differs-eq-false other ((n, o) ∷ refs) r oid h found =
    let (first, more) = or_inv (differs_from o (other n)) (any_differs other refs) h in
    elim (Bool-cases (n == r)) [
      | inl same ↦
          let is : n ≡ r = (text_eq_iff n r).0 same in
          let value : some o ≡ some oid = rw same at found in
          ap other (sym is) ∙ differs_from-eq-false o (other n) first ∙ value
      | inr apart ↦ any_differs-eq-false other refs r oid more (rw apart at found)
    ]

-- Over different refs, what every ref is compared with has the same object: nothing differs.
none_differs :
    (other : Text → Option Text) (refs : Refs)
    → ((r : Text) → count r (keys refs) ≤ 1)
    → ((r oid : Text) → lookup r refs ≡ some oid → other r ≡ some oid)
    → any_differs other refs ≡ false
unfolding any_differs lookup
none_differs other [] unique h = refl
none_differs other ((n, o) ∷ refs) unique h =
    let here : other n ≡ some o = h n o (rw ((text_eq_iff n n).1 refl) refl) in
    rw (here, differs_from_self o)
      (none_differs other refs (λ r. ground (arith, unique r))
        (λ r oid found. h r oid (elim (Bool-cases (n == r)) [
          | inl same ↦ absurd (
              ground (
                arith,
                same,
                unique r,
                contains-eq-count (keys refs) r,
                contains-keys r refs,
                found,
              ))
          | inr apart ↦ rw apart found
        ])))

-- No ref stands twice in what is read.
abbrev pub IsUnique : Refs → Type 0
IsUnique refs = (r : Text) → count r (keys refs) ≤ 1

add_remote-IsUnique :
    (a b : Text) (refs : Refs) → IsUnique refs → IsUnique (add_remote_ref a b refs)
add_remote-IsUnique oid name refs h = elim (Bool-cases (is_shared name)) [
  | inl shared ↦ rw shared (put_unique name oid refs h)
  | inr other ↦ rw other h
]

add_tracking-IsUnique :
    (a b : Text) (refs : Refs) → IsUnique refs → IsUnique (add_tracking_ref a b refs)
add_tracking-IsUnique name oid refs h = elim (Bool-cases (is_tracking name)) [
  | inl tracking ↦ rw tracking (put_unique name oid refs h)
  | inr other ↦ rw other h
]

add_local-IsUnique : (a b : Text) (refs : Refs) → IsUnique refs → IsUnique (add_local_ref a b refs)
add_local-IsUnique name oid refs h = elim (Bool-cases (is_tracking name)) [
  | inl tracking ↦ rw tracking h
  | inr other ↦ rw other (add_remote-IsUnique oid name refs h)
]

module _ (from_utf8 : Bytes → Option Text) where
  pub parse_stdout-IsUnique :
      (stdout : Bytes) (remote : Refs) → parse_stdout from_utf8 stdout ≡ ok remote → IsUnique remote
  unfolding parse_stdout
  parse_stdout-IsUnique stdout remote h =
      add_lines_inv IsUnique from_utf8 add_remote_ref add_remote-IsUnique (split b'\n' stdout) []
        remote (λ r. omega arith) h

  pub local_refs-IsUnique :
      (stdout : Bytes) (push_refs : Refs)
      → local_refs from_utf8 stdout ≡ ok push_refs
      → IsUnique push_refs
  unfolding local_refs
  local_refs-IsUnique stdout push_refs h =
      let (first, read, more) =
        bind_inv (add_lines from_utf8 add_local_ref (split b'\n' stdout) []) _ h in
      add_lines_inv IsUnique from_utf8 add_tracking_ref add_tracking-IsUnique (split b'\n' stdout)
        first push_refs
        (add_lines_inv IsUnique from_utf8 add_local_ref add_local-IsUnique (split b'\n' stdout) []
          first (λ r. omega arith) read)
        more

-- The refs of one side are on the other, with the same objects.
pub record Aligned (remote push_refs : Refs) : Type 0 where
  pub pushed : (r oid : Text) → lookup r push_refs ≡ some oid → lookup r remote ≡ some oid
  pub fetched : (r oid : Text) → lookup r remote ≡ some oid → fetch_ref push_refs r ≡ some oid

pub none-Aligned :
    (remote push_refs : Refs)
    → any_to_push remote push_refs ≡ false
    → any_to_fetch push_refs remote ≡ false
    → Aligned remote push_refs
none-Aligned remote push_refs push fetch = record {
  pushed = λ r oid.
      any_differs-eq-false (λ n. lookup n remote) push_refs r oid
        (sym (push-any_differs remote push_refs) ∙ push);
  fetched = λ r oid.
      any_differs-eq-false (fetch_ref push_refs) remote r oid
        (sym (fetch-any_differs push_refs remote) ∙ fetch);
}

pub Aligned-none :
    (remote push_refs : Refs)
    → IsUnique remote
    → IsUnique push_refs
    → Aligned remote push_refs
    → (any_to_push remote push_refs ≡ false) × (any_to_fetch push_refs remote ≡ false)
Aligned-none remote push_refs u v a = (
  push-any_differs remote push_refs ∙ none_differs (λ n. lookup n remote) push_refs v a.pushed,
  fetch-any_differs push_refs remote ∙ none_differs (fetch_ref push_refs) remote u a.fetched,
)
