-- ===== src/Client/Sync/Pulls.antt =====
-- The pull loop of client/src/sync.rs on a server and a disk on which nothing fails.
use dojjo.Prelude.Text.Order.{text_order, text_eq, text_eq_iff}
use dojjo.Prelude.{
  List, [], ◌∷◌, ◌≡◌, inl, inr, refl, sym, ap, ◌∙◌, arith, true, false, some, is_some, ok,
  Bool-cases, Option-cases, Result-cases,
}
use dojjo.Prelude.Order.{◌==◌}
use dojjo.Prelude.Order.Sets.{contains}
use dojjo.Prelude.Dict.{Dict, lookup, put, lookup-put, put_unique, contains-keys}
use dojjo.Prelude.Text.{Text, is_empty, trim, trim_start, trim_end}
use dojjo.Mirror.Path.{parse_safe_mirror_rel}
use dojjo.Mirror.Operation.{Bytes}
use dojjo.Client.Manifest.{Manifest, ManifestEntry}
use dojjo.Client.Http.{Net, trim_slashes}
use dojjo.Client.Fetch.{Session, LocalFaults}
use dojjo.Client.RepoWalk.{is_scanned}
use dojjo.Client.RepoWalk.Index.{is_listed}
use dojjo.Client.RepoWalk.Total.{IsClean}
use dojjo.Client.Sync.Down.{sync_objects}
use dojjo.Client.Sync.Steady.{Matches, IsSteady, NoFaults, IsPublished, sync_object-ok}
use dojjo.Client.Sync.Verified.{listed_shared, some-injective}

-- The file of an entry is there.
abbrev pub HasEntry : (Bytes → Text) → Dict Text Bytes → Text → ManifestEntry → Type 0
HasEntry sha256_hex files p ent = (b : Bytes) × (lookup p files ≡ some b) × Matches sha256_hex ent b

listed-scanned : (p : Text) → is_listed p ≡ true → is_scanned p ≡ ok (is_listed p)
listed-scanned p h = elim (Result-cases (is_scanned p)) [
  | inl (b, e) ↦ rw e refl
  | inr (inl (x, e)) ↦ absurd (ground (arith, h, e))
  | inr (inr e) ↦ absurd (ground (arith, h, e))
]

put-IsClean :
    (p : Text) (b : Bytes) (files : Dict Text Bytes)
    → is_listed p ≡ true
    → IsClean files
    → IsClean (put p b files)
put-IsClean p b files listed clean = record {
  unique = put_unique p b files clean.unique;
  scanned = λ q here. elim (Bool-cases (p == q)) [
    | inl same ↦ rw (sym ((text_eq_iff p q).0 same)) (listed-scanned p listed)
    | inr other ↦ clean.scanned q (
        ground (
          arith,
          other,
          here,
          contains-keys q (put p b files),
          contains-keys q files,
          lookup-put p q b files,
        ))
  ];
}

listed-is_empty : (p : Text) → is_listed p ≡ true → is_empty p ≡ false
unfolding is_scanned parse_safe_mirror_rel trim trim_start trim_end text_eq
listed-is_empty [] h = cc
listed-is_empty (c ∷ p) h = refl

module _ {W : Type 0} (net : Net W) (api_base dojo_id : Text) (faults : LocalFaults)
    (man : Manifest) (P : W → Type 0) (steady : IsSteady net api_base dojo_id man P)
    (good : IsPublished man) (dojo_named : is_empty dojo_id ≡ false)
    (based : is_empty (trim_slashes api_base) ≡ false) (calm : NoFaults faults) where
  -- A session with the manifest `man`, a server that is still there, and clean files.
  pub record IsReady (s : Session W) : Type 0 where
    pub at : s.manifest ≡ man
    pub alive : P s.world
    pub clean : IsClean s.files

  -- Files of the manifest are kept, and those of the set are there after their turn.
  pub record Pulled (set rels : List Text) (s s' : Session W) : Type 0 where
    pub kept :
        (p : Text) (ent : ManifestEntry)
        → lookup p man.entries ≡ some ent
        → HasEntry net.sha256_hex s.files p ent
        → HasEntry net.sha256_hex s'.files p ent
    pub got :
        (p : Text) (ent : ManifestEntry)
        → lookup p man.entries ≡ some ent
        → contains rels p ≡ true
        → contains set p ≡ true
        → HasEntry net.sha256_hex s'.files p ent

  put-Pulled :
      (set : List Text) (q : Text) (e : ManifestEntry) (b : Bytes) (w' : W) (s : Session W)
      → lookup q man.entries ≡ some e
      → Matches net.sha256_hex e b
      → Pulled set (q ∷ []) s (record s { world = w'; files = put q b s.files })
  put-Pulled set q e b w' s here fits =
      let hit : (p : Text) (ent : ManifestEntry)
          → lookup p man.entries ≡ some ent
          → q == p ≡ true
          → HasEntry net.sha256_hex (put q b s.files) p ent =
        λ p ent at same.
          let name = (text_eq_iff q p).0 same in
          let entry : e ≡ ent =
            some-injective (sym here ∙ ap (λ x. lookup x man.entries) name ∙ at) in
          (b, lookup-put q p b s.files ∙ rw same refl, rw (sym entry) fits) in
      record {
        kept = λ p ent at before. elim (Bool-cases (q == p)) [
          | inl same ↦ hit p ent at same
          | inr other ↦
              let (b0, there, fits0) = before in
              (b0, lookup-put q p b s.files ∙ rw other there, fits0)
        ];
        got = λ p ent at in_rels in_set. hit p ent at (ground (arith, in_rels));
      }

  skip-Pulled :
      (set rels : List Text) (q : Text) (s s' : Session W)
      → contains set q ≡ false
      → Pulled set rels s s'
      → Pulled set (q ∷ rels) s s'
  skip-Pulled set rels q s s' skip pulled = record {
    kept = pulled.kept;
    got = λ p ent at in_rels in_set. elim (Bool-cases (q == p)) [
      | inl same ↦
          let moved : contains set q ≡ true =
            ap (contains set) ((text_eq_iff q p).0 same) ∙ in_set in
          absurd cc
      | inr other ↦ pulled.got p ent at (rw other at in_rels) in_set
    ];
  }

  then-Pulled :
      (set rels : List Text) (q : Text) (s s1 s' : Session W)
      → Pulled set (q ∷ []) s s1
      → Pulled set rels s1 s'
      → Pulled set (q ∷ rels) s s'
  then-Pulled set rels q s s1 s' one pulled = record {
    kept = λ p ent at h. pulled.kept p ent at (one.kept p ent at h);
    got = λ p ent at in_rels in_set. elim (Bool-cases (q == p)) [
      | inl same ↦ pulled.kept p ent at (one.got p ent at (rw same refl) in_set)
      | inr other ↦ pulled.got p ent at (rw other at in_rels) in_set
    ];
  }

  pub sync_objects-ok :
      (set rels : List Text) (s : Session W)
      → IsReady s
      → ((p : Text) → contains rels p ≡ true → is_some (lookup p man.entries) ≡ true)
      → (s' : Session W) × (sync_objects net api_base dojo_id faults set rels s ≡ (ok tt, s'))
        × IsReady s'
        × Pulled set rels s s'
  unfolding sync_objects
  sync_objects-ok set [] s ready known = (
    s,
    refl,
    ready,
    record { kept = λ p ent at h. h; got = λ p ent at in_rels in_set. absurd cc },
  )
  sync_objects-ok set (q ∷ rels) s ready known =
      let known_q = known q (ground (arith, text_eq_iff q q)) in
      let listed = good.listed q known_q in
      let shared = listed_shared q listed in
      let later : (p : Text) → contains rels p ≡ true → is_some (lookup p man.entries) ≡ true =
        λ p h. known p (ground (arith, h)) in
      elim (Bool-cases (contains set q)) [
        | inr skip ↦
            let (s', run, ready', pulled) = sync_objects-ok set rels s ready later in
            (s', rw (shared, skip) run, ready', skip-Pulled set rels q s s' skip pulled)
        | inl take ↦ elim (Option-cases (lookup q man.entries)) [
          | inl gone ↦ absurd (ground (arith, known_q, gone))
          | inr (e, here) ↦
              let (b, w', now, alive', fits) =
                sync_object-ok net api_base dojo_id faults man P steady good dojo_named based calm q
                  e s (listed-is_empty q listed) ready.at here ready.alive in
              let one = put-Pulled set q e b w' s here fits in
              let ready1 : IsReady (record s { world = w'; files = put q b s.files }) = record {
                at = ready.at;
                alive = alive';
                clean = put-IsClean q b s.files listed ready.clean;
              } in
              let (s', run, ready', pulled) = sync_objects-ok set rels _ ready1 later in
              (s', rw (shared, take, now) run, ready', then-Pulled set rels q s _ s' one pulled)
        ]
      ]
