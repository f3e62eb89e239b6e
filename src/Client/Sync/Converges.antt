-- ===== src/Client/Sync/Converges.antt =====
-- A synchronization with a server and a disk on which nothing fails succeeds.
use mathlib.Core.Path.{subst}
use dojjo.Prelude.Text.Order.{text_order}
use dojjo.Prelude.{
  ℕ, ◌≤◌, ◌<◌, List, [], ◌∷◌, ◌≡◌, inl, inr, refl, sym, ap, ◌∙◌, arith, true, false, none, some,
  is_some, ltb, length, ok, Bool-cases, Option-cases,
}
use dojjo.Prelude.Order.Sets.{contains, count}
use dojjo.Prelude.Dict.{keys, lookup, contains-keys}
use dojjo.Prelude.Text.{Text, is_empty, len}
use dojjo.Mirror.Operation.{Bytes}
use dojjo.Client.Manifest.{Manifest, ManifestEntry}
use dojjo.Client.Http.{Net, trim_slashes}
use dojjo.Client.Fetch.{Session, LocalFaults}
use dojjo.Client.RepoWalk.{sha256_index}
use dojjo.Client.RepoWalk.Index.{is_listed, sha256_index-lookup}
use dojjo.Client.RepoWalk.Total.{IsClean, sha256_index-ok}
use dojjo.Client.Sync.{
  Index, needs_pull, pull_set_of, verify_entries, verify_local, verify_local_matches_manifest,
}
use dojjo.Client.Sync.Down.{
  local_index, sync_objects, sync_set, prune_local_mirror_paths_not_in_manifest, finish_sync,
  pull_changed, sync_down, max_local_files,
}
use dojjo.Client.Sync.Steady.{IsSteady, NoFaults, IsPublished}
use dojjo.Client.Sync.Pulls.{HasEntry, IsReady, Pulled, sync_objects-ok}
use dojjo.Client.Sync.Wanted.{pull_set_of-ok}
use dojjo.Client.Sync.Prunes.{prune_from-ok}
use dojjo.Client.Sync.Verified.{IsMirrored, listed_shared}
use dojjo.Client.Sync.Sound.{sync_down-IsMirrored}
use dojjo.Client.Sync.Checks.{
  verify_entries-ok, verify_local-ok, indexed_entry, index-listed, unneeded_digest,
}

module _ {W : Type 0} (net : Net W) (api_base dojo_id : Text) (faults : LocalFaults)
    (man : Manifest) (P : W → Type 0) (steady : IsSteady net api_base dojo_id man P)
    (good : IsPublished man) (dojo_named : is_empty dojo_id ≡ false)
    (based : is_empty (trim_slashes api_base) ≡ false) (calm : NoFaults faults)
    (sized : (b : Bytes) → len (net.sha256_hex b) ≡ 64) where
  abbrev Ready : Session W → Type 0
  Ready s = IsReady net api_base dojo_id faults man P steady good dojo_named based calm s

  -- Every file of the manifest is there.
  abbrev Complete : Session W → Type 0
  Complete s =
      (p : Text) (ent : ManifestEntry)
      → lookup p man.entries ≡ some ent
      → HasEntry net.sha256_hex s.files p ent

  named : (s : Session W) → s.manifest ≡ man → is_empty s.manifest.revision ≡ false
  named s at = ap (λ x. is_empty x.revision) at ∙ good.named

  local_index-ok :
      (s : Session W)
      → IsClean s.files
      → (index : Index) × (local_index net api_base dojo_id faults s ≡ (ok index, s))
        × (sha256_index net.sha256_hex faults.read s.files ≡ ok index)
        × (length index ≤ length (keys s.files))
        × ((p : Text) → count p (keys index) ≤ 1)
  unfolding local_index
  local_index-ok s clean =
      let (index, run, short, unique) =
        sha256_index-ok net.sha256_hex faults.read s.files calm.readable sized clean in
      (index, rw run refl, run, short, unique)

  pull_step :
      (set : List Text) (s : Session W)
      → Ready s
      → (s' : Session W) × (sync_set net api_base dojo_id faults set s.manifest.apply_order s
          ≡ (ok tt, s'))
        × Ready s'
        × Pulled net api_base dojo_id faults man P steady good dojo_named based calm set
            man.apply_order s s'
  unfolding sync_set
  pull_step [] s ready = (
    s,
    refl,
    ready,
    record { kept = λ p ent at h. h; got = λ p ent at in_order in_set. absurd cc },
  )
  pull_step (x ∷ set) s ready =
      let (s', run, ready', pulled) =
        sync_objects-ok net api_base dojo_id faults man P steady good dojo_named based calm
          (x ∷ set) man.apply_order s ready (λ p h. sym (good.ordered p) ∙ h) in
      (
        s',
        ap (λ m. sync_objects net api_base dojo_id faults (x ∷ set) m.apply_order s) ready.at ∙ run,
        ready',
        pulled,
      )

  pull_changed-ok :
      (s : Session W)
      → Ready s
      → length (keys s.files) < max_local_files
      → ((p : Text) (ent : ManifestEntry) (b : Bytes)
          → lookup p man.entries ≡ some ent
          → lookup p s.files ≡ some b
          → net.sha256_hex b ≡ ent.sha256
          → length b ≡ ent.size)
      → (s' : Session W) × (pull_changed net api_base dojo_id faults s ≡ (ok tt, s'))
        × Ready s'
        × Complete s'
  unfolding pull_changed
  pull_changed-ok s ready few honest =
      let (index, look, indexed, short, _) = local_index-ok s ready.clean in
      let known : (p : Text)
          → contains man.apply_order p ≡ true
          → is_some (lookup p man.entries) ≡ true =
        λ p h. sym (good.ordered p) ∙ h in
      let (set, analysed, has) = pull_set_of-ok index man man.apply_order good known in
      let (s', run, ready', pulled) = pull_step set s ready in
      let complete : Complete s' = λ p ent at. elim (Bool-cases (needs_pull (lookup p index) ent)) [
        | inl need ↦
            let listed_at = good.ordered p ∙ ap is_some at in
            pulled.got p ent at listed_at (has p ent at listed_at need)
        | inr same ↦
            let lookup_eq =
              sha256_index-lookup net.sha256_hex faults.read s.files index p indexed in
            let (b, here, sha) =
              unneeded_digest net.sha256_hex (is_listed p) (lookup p s.files) ent
                (ap (λ o. needs_pull o ent) (sym lookup_eq) ∙ same) in
            pulled.kept p ent at (b, here, (honest p ent b at here sha, sha))
      ] in
      let bounded : ltb (length index) max_local_files ≡ true = ground (arith, short, few) in
      let pull_set : pull_set_of index s.manifest s.manifest.apply_order ≡ ok set =
        ap (λ x. pull_set_of index x x.apply_order) ready.at ∙ analysed in
      (s', rw (look, bounded, pull_set) run, ready', complete)

  prune-ok :
      (s : Session W)
      → Ready s
      → Complete s
      → (m : ℕ) × (s' : Session W) × (prune_local_mirror_paths_not_in_manifest net api_base dojo_id
            faults s
          ≡ (ok m, s'))
        × (s'.manifest ≡ man)
        × IsClean s'.files
        × Complete s'
        × ((p : Text) → is_listed p ≡ true → lookup p man.entries ≡ none → lookup p s'.files ≡ none)
  unfolding prune_local_mirror_paths_not_in_manifest
  prune-ok s ready complete =
      let (index, look, indexed, _, unique) = local_index-ok s ready.clean in
      let there : (p : Text)
          → contains (keys index) p ≡ true
          → (is_listed p ≡ true) × (is_some (lookup p s.files) ≡ true) =
        λ p h. index-listed net.sha256_hex faults.read s.files index p indexed h in
      let (m, s', run, pruned) =
        prune_from-ok net api_base dojo_id faults calm (keys index) 0 s ready.clean unique there in
      (
        m,
        s',
        rw (named s ready.at, look) run,
        pruned.same_manifest ∙ ready.at,
        pruned.clean,
        λ p ent at.
            let (b, here, fits) = complete p ent at in
            let known : is_some (lookup p s.manifest.entries) ≡ true =
              ap (λ x. is_some (lookup p x.entries)) ready.at ∙ ap is_some at in
            (b, pruned.known_kept p known ∙ here, fits),
        λ p listed absent.
            let unknown = ap (λ x. lookup p x.entries) ready.at ∙ absent in
            elim (Option-cases (lookup p s.files)) [
              | inl none_there ↦ pruned.no_new p none_there
              | inr (b, here) ↦
                  pruned.gone p
                    (contains-keys p index
                      ∙ ap is_some
                          (sha256_index-lookup net.sha256_hex faults.read s.files index p indexed)
                      ∙ rw (listed, here) refl)
                    unknown
            ],
      )

  finish-ok :
      (s : Session W)
      → s.manifest ≡ man
      → IsClean s.files
      → Complete s
      → ((p : Text) → is_listed p ≡ true → lookup p man.entries ≡ none → lookup p s.files ≡ none)
      → finish_sync net api_base dojo_id faults s ≡ (ok man.revision, s)
  unfolding finish_sync verify_local_matches_manifest
  finish-ok s at clean complete pruned =
      let (index, look, indexed, _, unique) = local_index-ok s clean in
      let entries = verify_entries-ok index man.entries good.unique (λ p ent here.
        let listed = good.listed p (ap is_some here) in
        (
          listed_shared p listed,
          indexed_entry net.sha256_hex faults.read s.files index p ent indexed listed
              (complete p ent here),
        )) in
      let paths = verify_local-ok man (keys index) (λ p h.
        let (listed, present) = index-listed net.sha256_hex faults.read s.files index p indexed h in
        (
          listed_shared p listed,
          elim (Option-cases (lookup p man.entries)) [
            | inl absent ↦ absurd (ground (arith, present, pruned p listed absent))
            | inr (e, known) ↦ ap is_some known
          ],
        )) in
      rw
        (
          look,
          named s at,
          ap (λ x. verify_entries index x.entries) at ∙ entries,
          ap (λ x. verify_local x (keys index)) at ∙ paths,
        )
        (ap (λ x. (ok x.revision, s)) at)

  -- On a server that has the file of each entry of a well-formed manifest, whatever requests come, and
  -- a disk on which nothing fails, with clean local files of which none has the digest of its entry and
  -- another length, the second half of a synchronization succeeds. It records the revision of that
  -- manifest, whose files are then the local ones.
  pub sync_down_converges :
      (s : Session W)
      → s.manifest ≡ man
      → P s.world
      → IsClean s.files
      → length (keys s.files) < max_local_files
      → ((p : Text) (ent : ManifestEntry) (b : Bytes)
          → lookup p man.entries ≡ some ent
          → lookup p s.files ≡ some b
          → net.sha256_hex b ≡ ent.sha256
          → length b ≡ ent.size)
      → (s' : Session W) × (sync_down net api_base dojo_id faults s ≡ (ok man.revision, s'))
        × (s'.manifest ≡ man)
        × IsMirrored net.sha256_hex s'.files man
  unfolding sync_down
  sync_down_converges s at alive clean few honest =
      let (s1, pulled, ready1, complete1) =
        pull_changed-ok s (record { at = at; alive = alive; clean = clean }) few honest in
      let (m, s2, pruned, at2, clean2, complete2, gone2) = prune-ok s1 ready1 complete1 in
      let finished = finish-ok s2 at2 clean2 complete2 gone2 in
      let run : sync_down net api_base dojo_id faults s ≡ (ok man.revision, s2) =
        rw (pulled, pruned) finished in
      (
        s2,
        run,
        at2,
        subst (λ x. IsMirrored net.sha256_hex s2.files x) at2
            (sync_down-IsMirrored net api_base dojo_id faults s s2 man.revision run).1,
      )
