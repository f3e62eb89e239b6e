-- ===== src/Client/Sync/Prunes.antt =====
-- The pruning of client/src/sync.rs on a disk on which nothing fails.
use dojjo.Prelude.Text.Order.{text_order, text_eq_iff}
use dojjo.Prelude.{
  ℕ, ◌+◌, ◌≤◌, List, [], ◌∷◌, ◌≡◌, inl, inr, refl, ap, ◌∙◌, arith, true, false, none, is_some, ok,
  Bool-cases,
}
use dojjo.Prelude.Order.{◌==◌}
use dojjo.Prelude.Order.Sets.{contains, count}
use dojjo.Prelude.Order.Laws.{contains-eq-count}
use dojjo.Prelude.Dict.{Dict, lookup, erase, lookup-erase, count-keys-erase, contains-keys}
use dojjo.Prelude.Text.{Text}
use dojjo.Mirror.Operation.{Bytes}
use dojjo.Client.Http.{Net}
use dojjo.Client.Fetch.{Session, LocalFaults}
use dojjo.Client.RepoWalk.Index.{is_listed}
use dojjo.Client.RepoWalk.Total.{IsClean}
use dojjo.Client.Sync.Down.{prune_from, prune_path}
use dojjo.Client.Sync.Steady.{NoFaults}
use dojjo.Client.Sync.Verified.{listed_shared}

erase-IsClean : (p : Text) (files : Dict Text Bytes) → IsClean files → IsClean (erase p files)
erase-IsClean p files clean = record {
  unique = λ q. ground (arith, count-keys-erase p q files, clean.unique q);
  scanned = λ q here. clean.scanned q (
      ground (
        arith,
        here,
        contains-keys q (erase p files),
        contains-keys q files,
        lookup-erase p q files,
      ));
}

-- Where the list says so and the manifest does not know it, a file is gone; the others are as before.
pub record Pruned {W : Type 0} (ps : List Text) (s s' : Session W) : Type 0 where
  pub same_manifest : s'.manifest ≡ s.manifest
  pub clean : IsClean s'.files
  pub known_kept :
      (p : Text)
      → is_some (lookup p s.manifest.entries) ≡ true
      → lookup p s'.files ≡ lookup p s.files
  pub gone :
      (p : Text)
      → contains ps p ≡ true
      → lookup p s.manifest.entries ≡ none
      → lookup p s'.files ≡ none
  pub no_new : (p : Text) → lookup p s.files ≡ none → lookup p s'.files ≡ none

module _ {W : Type 0} (net : Net W) (api_base dojo_id : Text) (faults : LocalFaults)
    (calm : NoFaults faults) where
  -- The path `q` comes first, and it is in the manifest: it is left alone.
  known-Pruned :
      (q : Text) (ps : List Text) (s s' : Session W)
      → is_some (lookup q s.manifest.entries) ≡ true
      → Pruned ps s s'
      → Pruned (q ∷ ps) s s'
  known-Pruned q ps s s' known r = record {
    same_manifest = r.same_manifest;
    clean = r.clean;
    known_kept = r.known_kept;
    gone = λ p h k. elim (Bool-cases (q == p)) [
      | inl same ↦
          let name = (text_eq_iff q p).0 same in
          let missing : is_some (lookup q s.manifest.entries) ≡ false =
            ap (λ x. is_some (lookup x s.manifest.entries)) name ∙ ap is_some k in
          absurd cc
      | inr other ↦ r.gone p (rw other at h) k
    ];
    no_new = r.no_new;
  }

  abbrev without : Text → Session W → Session W
  without q s = record s { files = erase q s.files }

  -- It is not: it is erased.
  erased-Pruned :
      (q : Text) (ps : List Text) (s s' : Session W)
      → is_some (lookup q s.manifest.entries) ≡ false
      → Pruned ps (without q s) s'
      → Pruned (q ∷ ps) s s'
  erased-Pruned q ps s s' unknown r = record {
    same_manifest = r.same_manifest;
    clean = r.clean;
    known_kept = λ p h. r.known_kept p h ∙ lookup-erase q p s.files ∙ elim (Bool-cases (q == p)) [
      | inr other ↦ rw other refl
      | inl same ↦
          let name = (text_eq_iff q p).0 same in
          let known : is_some (lookup q s.manifest.entries) ≡ true =
            ap (λ x. is_some (lookup x s.manifest.entries)) name ∙ h in
          absurd cc
    ];
    gone = λ p h k. elim (Bool-cases (q == p)) [
      | inl same ↦ r.no_new p (lookup-erase q p s.files ∙ rw same refl)
      | inr other ↦ r.gone p (rw other at h) k
    ];
    no_new = λ p h. r.no_new p (lookup-erase q p s.files ∙ rw h (ground arith));
  }

  apart :
      (q : Text) (ps : List Text)
      → ((p : Text) → count p (q ∷ ps) ≤ 1)
      → (p : Text) → contains ps p ≡ true
      → q == p ≡ false
  apart q ps unique p h = elim (Bool-cases (q == p)) [
    | inr other ↦ other
    | inl same ↦ absurd (ground (arith, h, same, unique p, contains-eq-count ps p h))
  ]

  pub prune_from-ok :
      (ps : List Text) (n : ℕ) (s : Session W)
      → IsClean s.files
      → ((p : Text) → count p ps ≤ 1)
      → ((p : Text)
          → contains ps p ≡ true
          → (is_listed p ≡ true) × (is_some (lookup p s.files) ≡ true))
      → (m : ℕ) × (s' : Session W) × (prune_from net api_base dojo_id faults ps n s ≡ (ok m, s'))
        × Pruned ps s s'
  unfolding prune_from prune_path
  prune_from-ok [] n s clean unique there = (
    n,
    s,
    refl,
    record {
      same_manifest = refl;
      clean = clean;
      known_kept = λ p h. refl;
      gone = λ p h k. absurd cc;
      no_new = λ p h. h;
    },
  )
  prune_from-ok (q ∷ ps) n s clean unique there =
      let (listed, present) = there q (ground (arith, text_eq_iff q q)) in
      let shared = listed_shared q listed in
      let fewer : (p : Text) → count p ps ≤ 1 = λ p. ground (arith, unique p) in
      let later : (p : Text)
          → contains ps p ≡ true
          → (is_listed p ≡ true) × (is_some (lookup p s.files) ≡ true) =
        λ p h. there p (ground (arith, h)) in
      elim (Bool-cases (is_some (lookup q s.manifest.entries))) [
        | inl known ↦
            let (m, s', run, r) = prune_from-ok ps n s clean fewer later in
            (m, s', rw (shared, known) run, known-Pruned q ps s s' known r)
        | inr unknown ↦
            let later1 : (p : Text)
                → contains ps p ≡ true
                → (is_listed p ≡ true) × (is_some (lookup p (erase q s.files)) ≡ true) =
              λ p h. (
                (later p h).0,
                ap is_some (lookup-erase q p s.files ∙ rw (apart q ps unique p h) refl)
                    ∙ (later p h).1,
              ) in
            let (m, s', run, r) =
              prune_from-ok ps (n + 1) (without q s) (erase-IsClean q s.files clean) fewer later1 in
            (
              m,
              s',
              rw (shared, unknown, present, calm.removable q) run,
              erased-Pruned q ps s s' unknown r,
            )
      ]
