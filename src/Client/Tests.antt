-- ===== src/Client/Tests.antt =====
-- The client against a server with one file, and the theorems at concrete inputs.
use dojjo.Prelude.Text.Order.{text_order, text_eq, text_eq_iff}
use dojjo.Prelude.{
  ℕ, ◌+◌, ◌%◌, ◌≤◌, [], ◌∷◌, ◌≡◌, inl, inr, refl, sym, ap, ◌∙◌, arith, Bool, true, false, Option,
  none, some, length, ok, Bool-cases,
}
use dojjo.Prelude.Order.{◌==◌}
use dojjo.Prelude.Order.Sets.{contains, count}
use dojjo.Prelude.Dict.{lookup}
use dojjo.Prelude.Text.{Text, text, is_empty, len, utf8_width, trim, split}
use dojjo.Mirror.Operation.{Bytes}
use dojjo.Mirror.Path.{parse_safe_mirror_rel, parse_segments, is_safe_mirror_path_segment}
use dojjo.Mirror.Exclude.{
  jj_repo_rel_excluded_from_mirror, jj_repo_rel_excluded_from_git_file_mirror, assert_rel,
  is_host_local, is_git_store,
}
use dojjo.Prelude.Json.{Json}
use dojjo.Client.Manifest.{Manifest, ManifestEntry}
use dojjo.Client.Http.{HttpRequest, HttpResponse, Net, trim_slashes}
use dojjo.Client.Fetch.{Session, LocalFaults, WriteFault, get_mirror_object_bytes}
use dojjo.Client.Fetch.Outcome.{GetEnd, counted, get_mirror_object_bytes-GetEnd}
use dojjo.Client.RepoWalk.{is_scanned, is_local_only}
use dojjo.Client.RepoWalk.Index.{is_listed}
use dojjo.Client.RepoWalk.Total.{IsClean}
use dojjo.Client.Sync.Down.{sync_down}
use dojjo.Client.Sync.Steady.{IsSteady, NoFaults, IsPublished}
use dojjo.Client.Sync.Verified.{IsMirrored, some-injective}
use dojjo.Client.Sync.Sound.{sync_down-IsMirrored}
use dojjo.Client.Sync.Converges.{sync_down_converges}

abbrev base_url : Text
base_url = text "http://localhost/api/"

abbrev dojo : Text
dojo = text "d1"

letter : ℕ → ℕ
letter n = b'a' + n % 16

abbrev zeros : Text
zeros = text "000000000000000000000000000000000000000000000000000000000000000"

-- A digest that tells lengths apart.
abbrev length_digest : Bytes → Text
length_digest b = letter (length b) ∷ zeros

letter_width : (n : ℕ) → utf8_width (letter n) ≡ 1
unfolding letter
letter_width n = ground arith

len-length_digest : (b : Bytes) → len (length_digest b) ≡ 64
len-length_digest b = ap (λ n. n + 63) (letter_width (length b))

abbrev type_path : Text
type_path = text "store/type"

abbrev old_path : Text
old_path = text "store/old"

abbrev git_word : Bytes
git_word = b'g' ∷ b'i' ∷ b't' ∷ []

-- The state counts the requests; every request is answered with the one file.
abbrev answer : HttpRequest → ℕ → Option HttpResponse × ℕ
answer req n = (some (record { status = 200; headers = []; body = some git_word }), n + 1)

abbrev no_json : Bytes → Option Json
no_json b = none

abbrev plain : Text → Text
plain t = t

abbrev one_file_net : Net ℕ
one_file_net = record {
  send = answer;
  from_json = no_json;
  sha256_hex = length_digest;
  base64 = plain;
}

abbrev type_entry : ManifestEntry
type_entry = record { path = type_path; size = 3; sha256 = length_digest git_word }

abbrev one_file_manifest : Manifest
one_file_manifest = record {
  revision = text "r1";
  entries = (type_path, type_entry) ∷ [];
  apply_order = type_path ∷ [];
}

abbrev no_write_fault : Text → Option WriteFault
no_write_fault p = none

abbrev never : Text → Bool
never p = false

abbrev sound_disk : LocalFaults
sound_disk = record { write = no_write_fault; read = never; remove = never }

abbrev stale : Session ℕ
stale = record { world = 0; manifest = one_file_manifest; files = (old_path, 1 ∷ []) ∷ [] }

sound_disk-NoFaults : NoFaults sound_disk
sound_disk-NoFaults = record { writable = λ p. refl; readable = λ p. refl; removable = λ p. refl }

-- What an entry of the one file can be.
type_entry_only :
    (p : Text) (ent : ManifestEntry)
    → lookup p one_file_manifest.entries ≡ some ent
    → (type_path ≡ p) × (type_entry ≡ ent)
unfolding lookup
type_entry_only p ent h = elim (Bool-cases (type_path == p)) [
  | inl same ↦
      let found : ◌≡◌ {A = Option ManifestEntry} (some type_entry) (some ent) = rw same at h in
      ((text_eq_iff type_path p).0 same, some-injective found)
  | inr other ↦
      let missing : ◌≡◌ {A = Option ManifestEntry} none (some ent) = rw other at h in absurd cc
]

one_file-IsSteady : IsSteady one_file_net base_url dojo one_file_manifest (λ n. Unit)
one_file-IsSteady = record {
  serves = λ rel ent w here alive.
      let entry = (type_entry_only rel ent here).1 in
      (git_word, [], w + 1, refl, tt, (ap (λ e. e.size) entry, ap (λ e. e.sha256) entry));
}

type_path_listed : is_listed type_path ≡ true
unfolding is_scanned is_local_only parse_safe_mirror_rel parse_segments is_safe_mirror_path_segment
    jj_repo_rel_excluded_from_mirror jj_repo_rel_excluded_from_git_file_mirror assert_rel
    is_host_local is_git_store text_eq trim split
type_path_listed = refl

old_path_scanned : is_scanned old_path ≡ ok (is_listed old_path)
unfolding is_scanned is_local_only parse_safe_mirror_rel parse_segments is_safe_mirror_path_segment
    jj_repo_rel_excluded_from_mirror jj_repo_rel_excluded_from_git_file_mirror assert_rel
    is_host_local is_git_store text_eq trim split
old_path_scanned = refl

single : (x p : Text) → contains (x ∷ []) p ≡ true → x ≡ p
single x p h = (text_eq_iff x p).0 (ground (arith, h))

single_count : (x p : Text) → count p (x ∷ []) ≤ 1
single_count x p = ground arith

one_file-IsPublished : IsPublished one_file_manifest
unfolding lookup
one_file-IsPublished = record {
  named = refl;
  unique = single_count type_path;
  complete = λ p ent here.
      let entry = (type_entry_only p ent here).1 in
      (
        ap (λ e. is_empty e.path) (sym entry),
        ap (λ e. len e.sha256) (sym entry) ∙ len-length_digest git_word,
      );
  listed = λ p here. rw (sym (single type_path p (ground (arith, here)))) type_path_listed;
  ordered = λ p. ground arith;
}

stale-IsClean : IsClean stale.files
stale-IsClean = record {
  unique = single_count old_path;
  scanned = λ p here. rw (sym (single old_path p here)) old_path_scanned;
}

old_only :
    (p : Text) (ent : ManifestEntry) (b : Bytes)
    → lookup p one_file_manifest.entries ≡ some ent
    → lookup p stale.files ≡ some b
    → length_digest b ≡ ent.sha256
    → length b ≡ ent.size
old_only p ent b here there sha =
    let gone : lookup type_path stale.files ≡ none = unfold lookup text_eq in refl in
    let found : lookup type_path stale.files ≡ some b =
      ap (λ x. lookup x stale.files) (type_entry_only p ent here).0 ∙ there in
    absurd cc

stale_run :
    (s' : Session ℕ) × (sync_down one_file_net base_url dojo sound_disk stale
      ≡ (ok (text "r1"), s'))
    × (s'.manifest ≡ one_file_manifest)
    × IsMirrored length_digest s'.files one_file_manifest
unfolding trim_slashes
stale_run =
    sync_down_converges one_file_net base_url dojo sound_disk one_file_manifest (λ n. Unit)
      one_file-IsSteady one_file-IsPublished refl refl sound_disk-NoFaults len-length_digest stale
      refl tt stale-IsClean (omega arith) old_only

sync_down_converges_example :
    (s' : Session ℕ) × (sync_down one_file_net base_url dojo sound_disk stale
      ≡ (ok (text "r1"), s'))
    × (s'.manifest ≡ one_file_manifest)
    × IsMirrored length_digest s'.files one_file_manifest
unfolding trim_slashes
sync_down_converges_example =
    sync_down_converges one_file_net base_url dojo sound_disk one_file_manifest (λ n. Unit)
      one_file-IsSteady one_file-IsPublished refl refl sound_disk-NoFaults len-length_digest stale
      refl tt stale-IsClean (omega arith) old_only

sync_down-IsMirrored_example :
    (text "r1" ≡ stale_run.0.manifest.revision)
    × IsMirrored length_digest stale_run.0.files stale_run.0.manifest
sync_down-IsMirrored_example =
    sync_down-IsMirrored one_file_net base_url dojo sound_disk stale stale_run.0 (text "r1")
      stale_run.1

abbrev counting : Session (ℕ × ℕ)
counting = record { world = (0, 0); manifest = one_file_manifest; files = [] }

get_mirror_object_bytes-GetEnd_example :
    GetEnd length_digest 17 type_path counting
      (get_mirror_object_bytes (counted one_file_net) base_url dojo type_path counting)
get_mirror_object_bytes-GetEnd_example =
    get_mirror_object_bytes-GetEnd one_file_net base_url dojo type_path counting
