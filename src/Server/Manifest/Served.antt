-- ===== src/Server/Manifest/Served.antt =====
-- Publication of the manifest: what a `sync-complete` leaves, and what is served after it.
use dojjo.Prelude.Text.Order.{text_order}
use dojjo.Prelude.{
  ℕ, ◌≡◌, ◌≢◌, refl, inl, inr, arith, Bool, not, Option, none, some, Result, ok, err, panic,
  Bool-cases, Option-cases, ok-injective,
}
use dojjo.Prelude.Dict.{Dict}
use dojjo.Prelude.Text.{Text, is_empty}
use dojjo.Prelude.Action.{Action, lift, return, check, ◌>>=◌, ◌>>◌, after_read, check-keeps}
use dojjo.Mirror.Operation.{Bytes, Codec}
use dojjo.Server.MirrorGet.{AppError, internal}
use dojjo.Server.DojoId.{assert_safe_dojo_external_id, dojo_data_dir}
use dojjo.Server.Manifest.{ManifestBody, build_manifest_body, validate_manifest_body}
use dojjo.Server.Manifest.Publish.{
  manifest_json, Serde, DojoDir, PublishFaults, write_tmp, rename_tmp, live_manifest,
  publish_mirror_manifest, published_reply, after_normalize, with_mirror, post_mirror_sync_complete,
}

module _ (c : Codec) (sha256_hex : Bytes → Text) (serde : Serde) (f : PublishFaults) where
  abbrev pub published_json : ManifestBody → Bytes
  published_json body = serde.to_vec (manifest_json body)

  -- How a publication ends: with the manifest of the mirror in place, or with the manifest that was
  -- published before.
  pub data PublishEnd (s : DojoDir) : Result AppError ManifestBody × DojoDir → Type 0 where
    published :
        (body : ManifestBody)
        → build_manifest_body c sha256_hex s.mirror ≡ ok body
        → validate_manifest_body body ≡ ok tt
        → PublishEnd s (ok body, record s { published = some (published_json body); tmp = none })
    not_published :
        (r : Result AppError ManifestBody) (tmp : Option Bytes)
        → ((body : ManifestBody) → r ≢ ok body)
        → PublishEnd s (r, record s { tmp = tmp })

  renamed-PublishEnd :
      (s : DojoDir) (body : ManifestBody)
      → build_manifest_body c sha256_hex s.mirror ≡ ok body
      → validate_manifest_body body ≡ ok tt
      → PublishEnd s
          ((write_tmp f.write (published_json body) >> (rename_tmp f.rename >> return body)) s)
  renamed-PublishEnd s body built valid = elim (Option-cases f.write) [
    | inr (left, e) ↦ rw e (not_published (err internal) left (λ b q. cc))
    | inl e ↦ rw e (elim (Bool-cases f.rename) [
      | inl fails ↦ rw fails (not_published (err internal) (some (published_json body)) (λ b q. cc))
      | inr works ↦ rw works (published body built valid)
    ])
  ]

  reading-PublishEnd :
      {A : Type 0} (m : Action DojoDir AppError A) (next : A → Action DojoDir AppError ManifestBody)
      (s : DojoDir)
      → (m s).1 ≡ s
      → ((a : A) → (m s).0 ≡ ok a → PublishEnd s (next a s))
      → PublishEnd s ((m >>= next) s)
  reading-PublishEnd m next s keeps =
      after_read (PublishEnd s) m next s keeps (λ e _. not_published (err e) s.tmp (λ b q. cc))
        (λ _. not_published panic s.tmp (λ b q. cc))

  publish-PublishEnd : (s : DojoDir) → PublishEnd s (publish_mirror_manifest c sha256_hex serde f s)
  unfolding publish_mirror_manifest
  publish-PublishEnd s =
      reading-PublishEnd (live_manifest c sha256_hex serde f) _ s refl λ body built.
        reading-PublishEnd (lift (validate_manifest_body body)) _ s refl λ u valid.
          reading-PublishEnd (check (not (is_empty (published_json body)))) _ s (check-keeps _ _ s)
            λ _ _. renamed-PublishEnd s body built valid

  module _ (normalize : Dict Text Bytes → Result AppError (Unit {0}) × Dict Text Bytes) where
    -- How a request of `sync-complete` ends.
    pub data SyncEnd (s : DojoDir) : Result AppError ℕ × DojoDir → Type 0 where
      completes :
          (mirror : Dict Text Bytes) (body : ManifestBody)
          → normalize s.mirror ≡ (ok tt, mirror)
          → build_manifest_body c sha256_hex mirror ≡ ok body
          → SyncEnd s (
            ok 204,
            record s { mirror = mirror; published = some (published_json body); tmp = none },
          )
      fails :
          (r : Result AppError ℕ) (mirror : Dict Text Bytes) (tmp : Option Bytes)
          → r ≢ ok 204
          → SyncEnd s (r, record s { mirror = mirror; tmp = tmp })

    published-SyncEnd :
        (s : DojoDir) (mirror : Dict Text Bytes) (r : Result AppError ManifestBody × DojoDir)
        → normalize s.mirror ≡ (ok tt, mirror)
        → PublishEnd (with_mirror s mirror) r
        → SyncEnd s (published_reply c sha256_hex serde f r.0 r.1)
    published-SyncEnd s mirror r normal (published body built valid) =
        completes mirror body normal built
    published-SyncEnd s mirror r normal (not_published (ok body) tmp not_ok) =
        absurd (not_ok body refl)
    published-SyncEnd s mirror r normal (not_published (err e) tmp _) =
        fails (err internal) mirror tmp (λ q. cc)
    published-SyncEnd s mirror r normal (not_published panic tmp _) =
        fails panic mirror tmp (λ q. cc)

    after_normalize-SyncEnd :
        (s : DojoDir) (r : Result AppError (Unit {0})) (mirror : Dict Text Bytes)
        → normalize s.mirror ≡ (r, mirror)
        → SyncEnd s (after_normalize c sha256_hex serde f r (with_mirror s mirror))
    after_normalize-SyncEnd s (ok u) mirror normal =
        published-SyncEnd s mirror _ normal (publish-PublishEnd (record s { mirror = mirror }))
    after_normalize-SyncEnd s (err e) mirror normal =
        fails (ok 500) mirror s.tmp
          (λ q. let bad : ◌≡◌ {A = ℕ} 500 204 = ok-injective q in absurd (omega (arith, bad)))
    after_normalize-SyncEnd s panic mirror normal = fails panic mirror s.tmp (λ q. cc)

    reading-SyncEnd :
        {A : Type 0} (m : Action DojoDir AppError A) (next : A → Action DojoDir AppError ℕ)
        (s : DojoDir)
        → (m s).1 ≡ s
        → ((a : A) → (m s).0 ≡ ok a → SyncEnd s (next a s))
        → SyncEnd s ((m >>= next) s)
    reading-SyncEnd m next s keeps =
        after_read (SyncEnd s) m next s keeps (λ e _. fails (err e) s.mirror s.tmp (λ q. cc))
          (λ _. fails panic s.mirror s.tmp (λ q. cc))

    -- A `sync-complete` that ends with 204 has normalized the mirror and published the manifest of what
    -- that left; however else it ends, the manifest that was published before is still in place.
    pub sync_complete-SyncEnd :
        (find_dojo : Text → Option Bool) (dojo_id : Text) (s : DojoDir)
        → SyncEnd s (post_mirror_sync_complete c sha256_hex serde f find_dojo dojo_id normalize s)
    unfolding post_mirror_sync_complete
    sync_complete-SyncEnd find_dojo dojo_id s =
        reading-SyncEnd (lift (assert_safe_dojo_external_id dojo_id)) _ s refl λ _ _.
          reading-SyncEnd (lift (dojo_data_dir find_dojo dojo_id)) _ s refl λ _ _.
            reading-SyncEnd (check s.is_dir) _ s (check-keeps _ _ s)
              λ _ _. after_normalize-SyncEnd s (normalize s.mirror).0 (normalize s.mirror).1 refl

    pub completes_inv :
        (s : DojoDir) (x : Result AppError ℕ × DojoDir)
        → SyncEnd s x
        → x.0 ≡ ok 204
        → (body : ManifestBody) × (normalize s.mirror ≡ (ok tt, x.1.mirror))
          × (build_manifest_body c sha256_hex x.1.mirror ≡ ok body)
          × (x.1.published ≡ some (published_json body))
    completes_inv s x (completes mirror body normal built) h = (body, normal, built, refl)
    completes_inv s x (fails r mirror tmp other) h = absurd (other h)
