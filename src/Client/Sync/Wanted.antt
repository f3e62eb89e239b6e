-- ===== src/Client/Sync/Wanted.antt =====
-- What `sync.rs` decides to pull.
use dojjo.Prelude.Text.Order.{text_order, text_eq_iff}
use dojjo.Prelude.{
  List, [], ◌∷◌, ◌≡◌, inl, inr, refl, sym, ◌∙◌, arith, true, some, is_some, ok, Bool-cases,
  Option-cases,
}
use dojjo.Prelude.Order.{◌==◌}
use dojjo.Prelude.Order.Sets.{contains}
use dojjo.Prelude.Dict.{lookup}
use dojjo.Prelude.Text.{Text}
use dojjo.Client.Manifest.{Manifest, ManifestEntry}
use dojjo.Client.Sync.{Index, needs_pull, is_wanted, pull_set_of}
use dojjo.Client.Sync.Steady.{IsPublished}
use dojjo.Client.Sync.Verified.{listed_shared, some-injective}

-- Of the paths of the manifest those are pulled whose files are missing or have another digest.
pub pull_set_of-ok :
    (index : Index) (man : Manifest) (ps : List Text)
    → IsPublished man
    → ((p : Text) → contains ps p ≡ true → is_some (lookup p man.entries) ≡ true)
    → (set : List Text) × (pull_set_of index man ps ≡ ok set)
      × ((p : Text) (ent : ManifestEntry)
          → lookup p man.entries ≡ some ent
          → contains ps p ≡ true
          → needs_pull (lookup p index) ent ≡ true
          → contains set p ≡ true)
unfolding pull_set_of is_wanted
pull_set_of-ok index man [] good known = ([], refl, λ p ent here there need. cc)
pull_set_of-ok index man (q ∷ ps) good known =
    let (set, run, has) =
      pull_set_of-ok index man ps good (λ p here. known p (ground (arith, here))) in
    let known_q = known q (ground (arith, text_eq_iff q q)) in
    let shared = listed_shared q (good.listed q known_q) in
    elim (Option-cases (lookup q man.entries)) [
      | inl gone ↦ absurd (ground (arith, known_q, gone))
      | inr (e, here) ↦ elim (Bool-cases (needs_pull (lookup q index) e)) [
        | inl need ↦ (
          q ∷ set,
          rw (shared, here, need, run) refl,
          λ p ent at in_ps need_p. ground (arith, in_ps, has p ent at, need_p),
        )
        | inr same ↦ (
          set,
          rw (shared, here, same, run) refl,
          λ p ent at in_ps need_p. elim (Bool-cases (q == p)) [
            | inl e1 ↦
                let name = (text_eq_iff q p).0 e1 in
                let entry : e ≡ ent = some-injective (sym here ∙ rw (sym name) at at) in
                let need_q : needs_pull (lookup q index) e ≡ true = rw (name, entry) need_p in
                absurd cc
            | inr ne ↦ has p ent at (rw ne at in_ps) need_p
          ],
        )
      ]
    ]
