-- ===== src/Client/Git/Mismatch.antt =====
-- The debug lines of `git_ref_mismatch_lines` of client/src/git_sync.rs, compared with
-- `git_transport_need`.
use mathlib.Core.Path.{subst}
use dojjo.Prelude.Text.Order.{text_order, text_eq_iff}
use dojjo.Prelude.{
  List, [], ◌∷◌, ◌++◌, ◌≡◌, ◌≢◌, ◌↔◌, refl, sym, ap, ◌∙◌, inl, inr, arith, true, false, ◌||◌,
  Option, none, some, ok, Bool-cases, Option-cases, is_some,
}
use dojjo.Prelude.Order.{◌==◌}
use dojjo.Prelude.Order.Sets.{contains, set_of}
use dojjo.Prelude.Order.Laws.{contains-set_of, contains-append}
use dojjo.Prelude.Dict.{keys, lookup, contains-keys}
use dojjo.Prelude.Text.{Text, text}
use dojjo.Mirror.Operation.{Bytes}
use dojjo.Client.Git.Refs.{
  Refs, parse_stdout, local_refs, fetch_ref, any_to_push, any_to_fetch, or_dash, local_oid,
  mismatch, mismatches, ref_mismatches,
}
use dojjo.Client.Git.Agree.{
  Aligned, none-Aligned, Aligned-none, parse_stdout-IsUnique, local_refs-IsUnique,
}

-- No object is printed as the mark for a missing one.
abbrev pub NoDash : Refs → Type 0
NoDash refs = (r oid : Text) → lookup r refs ≡ some oid → oid ≢ text "-"

mismatch-nil_iff :
    (r a b : Text) (rest : List (Text × Text × Text))
    → (mismatch r a b rest ≡ []) ↔ ((a ≡ b) × (rest ≡ []))
mismatch-nil_iff r a b rest = elim (Bool-cases (a == b)) [
  | inl same ↦ rw same (λ h. ((text_eq_iff a b).0 same, h), λ h. h.1)
  | inr apart ↦ rw apart (λ h. absurd (cc), λ h. let bad = (text_eq_iff a b).1 h.0 in absurd (cc))
]

mismatches-nil :
    (push_refs remote : Refs) (names : List Text)
    → mismatches push_refs remote names ≡ []
    → (r : Text) → contains names r ≡ true
    → local_oid push_refs r ≡ or_dash (lookup r remote)
unfolding mismatches
mismatches-nil push_refs remote [] h r here = cc
mismatches-nil push_refs remote (n ∷ names) h r here =
    let (equal, more) = (mismatch-nil_iff n _ _ _).0 h in
    elim (Bool-cases (n == r)) [
      | inl same ↦
          subst (λ m. local_oid push_refs m ≡ or_dash (lookup m remote)) ((text_eq_iff n r).0 same)
            equal
      | inr apart ↦ mismatches-nil push_refs remote names more r (rw apart at here)
    ]

nil-mismatches :
    (push_refs remote : Refs) (names : List Text)
    → ((r : Text) → contains names r ≡ true → local_oid push_refs r ≡ or_dash (lookup r remote))
    → mismatches push_refs remote names ≡ []
unfolding mismatches
nil-mismatches push_refs remote [] h = refl
nil-mismatches push_refs remote (n ∷ names) h = (mismatch-nil_iff n _ _ _).1 (
  h n (rw ((text_eq_iff n n).1 refl) refl),
  nil-mismatches push_refs remote names (λ r here. h r (ground (arith, here))),
)

named :
    (push_refs remote : Refs) (r : Text)
    → contains (set_of (keys push_refs ++ keys remote)) r
      ≡ (is_some (lookup r push_refs) || is_some (lookup r remote))
named push_refs remote r =
    contains-set_of (keys push_refs ++ keys remote) r
    ∙ contains-append (keys push_refs) (keys remote) r
    ∙ rw (contains-keys r push_refs, contains-keys r remote) refl

or_dash_inv : (o : Option Text) (oid : Text) → oid ≢ text "-" → or_dash o ≡ oid → o ≡ some oid
or_dash_inv none oid other h = absurd (other (sym h))
or_dash_inv (some a) oid other h = ap some h

fetch_ref_known :
    (push_refs : Refs) (r oid : Text)
    → lookup r push_refs ≡ some oid
    → fetch_ref push_refs r ≡ some oid
unfolding fetch_ref
fetch_ref_known push_refs r oid h = rw h refl

nil-Aligned :
    (push_refs remote : Refs)
    → NoDash remote
    → NoDash push_refs
    → ref_mismatches push_refs remote ≡ []
    → Aligned remote push_refs
unfolding ref_mismatches
nil-Aligned push_refs remote u v h =
    let equal = mismatches-nil push_refs remote (set_of (keys push_refs ++ keys remote)) h in
    record {
      pushed = λ r oid here. or_dash_inv (lookup r remote) oid (v r oid here) (
          sym (equal r (named push_refs remote r ∙ rw here refl))
          ∙ ap or_dash (fetch_ref_known push_refs r oid here));
      fetched = λ r oid here.
          or_dash_inv (fetch_ref push_refs r) oid (u r oid here)
            (equal r (named push_refs remote r ∙ rw here (ground arith)) ∙ ap or_dash here);
    }

Aligned-nil :
    (push_refs remote : Refs) → Aligned remote push_refs → ref_mismatches push_refs remote ≡ []
unfolding ref_mismatches
Aligned-nil push_refs remote a =
    nil-mismatches push_refs remote (set_of (keys push_refs ++ keys remote)) λ r here.
      let known = sym (named push_refs remote r) ∙ here in
      elim (Option-cases (lookup r push_refs)) [
        | inr (oid, e) ↦
            ap or_dash (fetch_ref_known push_refs r oid e) ∙ sym (ap or_dash (a.pushed r oid e))
        | inl absent ↦ elim (Option-cases (lookup r remote)) [
          | inr (oid, e) ↦ ap or_dash (a.fetched r oid e) ∙ sym (ap or_dash e)
          | inl gone ↦ let bad = rw (absent, gone) at known in absurd (cc)
        ]
      ]

-- Of what git prints for the two sides, there are no lines of differing refs exactly if neither a push
-- nor a fetch is needed for the refs, provided that git prints no object as a dash.
pub mismatches-nil_iff :
    (from_utf8 : Bytes → Option Text) (remote_out local_out : Bytes) (remote push_refs : Refs)
    → parse_stdout from_utf8 remote_out ≡ ok remote
    → local_refs from_utf8 local_out ≡ ok push_refs
    → NoDash remote
    → NoDash push_refs
    → (ref_mismatches push_refs remote ≡ [])
      ↔ ((any_to_push remote push_refs ≡ false) × (any_to_fetch push_refs remote ≡ false))
mismatches-nil_iff from_utf8 remote_out local_out remote push_refs h k u v = (
  λ none_there.
      Aligned-none remote push_refs (parse_stdout-IsUnique from_utf8 remote_out remote h)
        (local_refs-IsUnique from_utf8 local_out push_refs k)
        (nil-Aligned push_refs remote u v none_there),
  λ flags. Aligned-nil push_refs remote (none-Aligned remote push_refs flags.0 flags.1),
)
