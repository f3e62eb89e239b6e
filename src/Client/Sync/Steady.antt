-- ===== src/Client/Sync/Steady.antt =====
-- A server and a disk on which nothing fails: the requests and writes of client/src/manifest.rs and
-- sync.rs on them.
use dojjo.Prelude.Text.Order.{text_order, text_eq_iff}
use dojjo.Prelude.{
  ◌≡◌, refl, ap, ◌∙◌, ◌≤◌, true, false, Option, none, some, is_some, nat_eq_iff, length, ok,
}
use dojjo.Prelude.Order.Sets.{contains, count}
use dojjo.Prelude.Dict.{Dict, keys, lookup, put}
use dojjo.Prelude.Text.{Text, is_empty, len}
use dojjo.Prelude.Action.{Action}
use dojjo.Mirror.Operation.{Bytes}
use dojjo.Client.Manifest.{Manifest, ManifestEntry, ClientError}
use dojjo.Client.Http.{HttpResponse, Net, get_request, mirror_url, trim_slashes}
use dojjo.Client.Fetch.{
  Session, LocalFaults, received, get_entry, get_once, get_loop, get_mirror_object_bytes,
}
use dojjo.Client.RepoWalk.Index.{is_listed}
use dojjo.Client.Pull.{write_file}
use dojjo.Client.Sync.Down.{sync_object}

abbrev pub Matches : (Bytes → Text) → ManifestEntry → Bytes → Type 0
Matches sha256_hex ent b = (length b ≡ ent.size) × (sha256_hex b ≡ ent.sha256)

-- In every state that `P` holds of, the server has the file of each entry of the manifest.
pub record IsSteady {W : Type 0} (net : Net W) (api_base dojo_id : Text) (man : Manifest)
    (P : W → Type 0) : Type 0 where
  pub serves :
      (rel : Text) (ent : ManifestEntry) (w : W)
      → lookup rel man.entries ≡ some ent
      → P w
      → (b : Bytes) × (headers : Dict Text Text) × (w' : W) × (net.send
            (get_request (mirror_url api_base dojo_id rel))
            w
          ≡ (some (record { status = 200; headers = headers; body = some b }), w'))
        × P w'
        × Matches net.sha256_hex ent b

pub record NoFaults (faults : LocalFaults) : Type 0 where
  pub writable : (p : Text) → faults.write p ≡ none
  pub readable : (p : Text) → faults.read p ≡ false
  pub removable : (p : Text) → faults.remove p ≡ false

-- A manifest with a revision, whose entries are files that the walk would list, and whose order has
-- exactly their paths.
pub record IsPublished (man : Manifest) : Type 0 where
  pub named : is_empty man.revision ≡ false
  pub unique : (p : Text) → count p (keys man.entries) ≤ 1
  pub complete :
      (p : Text) (ent : ManifestEntry)
      → lookup p man.entries ≡ some ent
      → (is_empty ent.path ≡ false) × (len ent.sha256 ≡ 64)
  pub listed : (p : Text) → is_some (lookup p man.entries) ≡ true → is_listed p ≡ true
  pub ordered : (p : Text) → contains man.apply_order p ≡ is_some (lookup p man.entries)

module _ {W : Type 0} (net : Net W) (api_base dojo_id : Text) (faults : LocalFaults) where
  received-ok :
      (ent : ManifestEntry) (headers : Dict Text Text) (b : Bytes) (s : Session W)
      → Matches net.sha256_hex ent b
      → received net api_base dojo_id ent
          (record { status = 200; headers = headers; body = some b })
          s
        ≡ (ok (some b), s)
  unfolding received
  received-ok ent headers b s (size, sha) =
      rw
        ((nat_eq_iff (length b) ent.size).1 size, (text_eq_iff (net.sha256_hex b) ent.sha256).1 sha)
        refl

  abbrev success : Dict Text Text → Bytes → HttpResponse
  success headers b = record { status = 200; headers = headers; body = some b }

  get_once-ok :
      (again : Action (Session W) ClientError (Option Bytes)) (rel : Text) (ent : ManifestEntry)
      (s : Session W) (headers : Dict Text Text) (b : Bytes) (w' : W)
      → lookup rel s.manifest.entries ≡ some ent
      → is_empty ent.path ≡ false
      → len ent.sha256 ≡ 64
      → net.send (get_request (mirror_url api_base dojo_id rel)) s.world
        ≡ (some (success headers b), w')
      → get_once net api_base dojo_id again rel s
        ≡ received net api_base dojo_id ent (success headers b) (record s { world = w' })
  unfolding get_once get_entry
  get_once-ok again rel ent s headers b w' here full sized sent =
      rw (here, full, (nat_eq_iff _ _).1 sized, sent) refl

  module _ (man : Manifest) (P : W → Type 0) (steady : IsSteady net api_base dojo_id man P)
      (good : IsPublished man) (dojo_named : is_empty dojo_id ≡ false)
      (based : is_empty (trim_slashes api_base) ≡ false) (calm : NoFaults faults) where
    -- A file of the manifest is received at the first request.
    pub get-ok :
        (rel : Text) (ent : ManifestEntry) (s : Session W)
        → is_empty rel ≡ false
        → s.manifest ≡ man
        → lookup rel man.entries ≡ some ent
        → P s.world
        → (b : Bytes) × (w' : W) × (get_mirror_object_bytes net api_base dojo_id rel s
            ≡ (ok (some b), record s { world = w' }))
          × P w'
          × Matches net.sha256_hex ent b
    unfolding get_mirror_object_bytes get_loop
    get-ok rel ent s named at here alive =
        let (b, headers, w', sent, alive', fits) = steady.serves rel ent s.world here alive in
        let (full, sized) = good.complete rel ent here in
        (
          b,
          w',
          rw (dojo_named, named, based)
              (get_once-ok _ rel ent s headers b w' (ap (λ m. lookup rel m.entries) at ∙ here) full
                  sized sent
                ∙ received-ok ent headers b (record s { world = w' }) fits),
          alive',
          fits,
        )

    pub sync_object-ok :
        (rel : Text) (ent : ManifestEntry) (s : Session W)
        → is_empty rel ≡ false
        → s.manifest ≡ man
        → lookup rel man.entries ≡ some ent
        → P s.world
        → (b : Bytes) × (w' : W) × (sync_object net api_base dojo_id faults rel s
            ≡ (ok tt, record s { world = w'; files = put rel b s.files }))
          × P w'
          × Matches net.sha256_hex ent b
    unfolding sync_object write_file
    sync_object-ok rel ent s named at here alive =
        let (b, w', got, alive', fits) = get-ok rel ent s named at here alive in
        (
          b,
          w',
          rw (got, ap (λ m. lookup rel m.entries) at ∙ here, calm.writable rel) refl,
          alive',
          fits,
        )
