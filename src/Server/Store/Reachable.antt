-- ===== src/Server/Store/Reachable.antt =====
-- The dojos that the methods of `FsDojoUploadStore` lead to.
use Prim.Native.Nat.{ℕ}
use mathlib.Core.Path.{subst}
use dojjo.Prelude.{
  [], ◌≡◌, ◌≢◌, ◌⊎◌, Bool, true, false, inl, inr, refl, sym, ap, ◌∙◌, Option, none, some, arith,
  length, Bool-cases, Option-cases,
}
use dojjo.Prelude.Text.{is_empty}
use dojjo.Prelude.Text.Order.{text_order, text_eq, text_eq_iff}
use dojjo.Tus.Types.{Bytes, UploadId, CreateInfo}
use dojjo.Tus.Store.{Within}
use dojjo.Server.Store.{
  PersistedMeta, MetaFile, holds, value_of, meta_file, data_file, WriteEnd, written, not_made,
  left_empty, left_partial, meta_left, if_kept, dir_left, leave_dir, IsPlain, UploadDir, Dojo,
  Faults, persisted, put_dir, remove_upload, create_upload, write_chunk, delete_upload, data_len,
}
use dojjo.Server.Store.View.{IsConsistent}
use dojjo.Server.Store.Append.{eq_refl}
use dojjo.Server.Store.Create.{empty_dir, with_meta, with_data, WriteEnd-cases, create_upload-used}
use dojjo.Tus.Handler.Guards.{is_empty-nonempty}
use dojjo.Server.Store.Frame.{write-IsConsistent}

-- One call of a method that may write, with the faults that befall it.
pub data StoreStep : Dojo → Dojo → Type 0 where
  creates :
      (f : Faults) (id : UploadId) (info : CreateInfo) (s : Dojo)
      → IsPlain id
      → StoreStep s (create_upload f id info s).1
  writes :
      (f : Faults) (id : UploadId) (offset : ℕ) (chunk : Bytes) (s : Dojo)
      → IsPlain id
      → StoreStep s (write_chunk f id offset chunk s).1
  deletes :
      (f : Faults) (id : UploadId) (s : Dojo) → IsPlain id → StoreStep s (delete_upload f id s).1

pub data Reachable : Dojo → Dojo → Type 0 where
  starts : (s : Dojo) → Reachable s s
  steps : (s t u : Dojo) → Reachable s t → StoreStep t u → Reachable s u

module _ (id : UploadId) (s : Dojo) (inv : IsConsistent s) where
  put_dir-IsConsistent :
      (d : UploadDir)
      → ((m : PersistedMeta) → value_of d.meta ≡ some m → m.id ≡ id)
      → ((m : PersistedMeta) (bytes : Bytes)
          → value_of d.meta ≡ some m
          → d.received ≡ some bytes
          → Within m.declared (length bytes))
      → IsConsistent (put_dir id d s)
  put_dir-IsConsistent d named within = record {
    named = λ j m h. elim (Bool-cases (text_eq id j)) [
      | inl hit ↦ named m (rw hit at h) ∙ (text_eq_iff id j).0 hit
      | inr miss ↦ inv.named j m (rw miss at h)
    ];
    within = λ j m bytes h g. elim (Bool-cases (text_eq id j)) [
      | inl hit ↦ within m bytes (rw hit at h) (rw hit at g)
      | inr miss ↦ inv.within j m bytes (rw miss at h) (rw miss at g)
    ];
  }

  remove_upload-IsConsistent : IsConsistent (remove_upload id s)
  remove_upload-IsConsistent = record {
    named = λ j m h. elim (Bool-cases (text_eq id j)) [
      | inl hit ↦ let gone : ◌≡◌ {A = Option PersistedMeta} none (some m) = rw hit at h in absurd cc
      | inr miss ↦ inv.named j m (rw miss at h)
    ];
    within = λ j m bytes h g. elim (Bool-cases (text_eq id j)) [
      | inl hit ↦ let gone : ◌≡◌ {A = Option PersistedMeta} none (some m) = rw hit at h in absurd cc
      | inr miss ↦ inv.within j m bytes (rw miss at h) (rw miss at g)
    ];
  }

Within-zero : (d : Option ℕ) → Within d 0
Within-zero none = tt
Within-zero (some len) = ground arith

module _ (f : Faults) (id : UploadId) (info : CreateInfo) (s : Dojo) (inv : IsConsistent s) where
  persisted_id : (m : PersistedMeta) → some (persisted id info) ≡ some m → m.id ≡ id
  persisted_id m h = let e : persisted id info ≡ m = cc in sym (ap (λ k. k.id) e)

  empty_dir-IsConsistent : IsConsistent (empty_dir id info s)
  empty_dir-IsConsistent =
      put_dir-IsConsistent id s inv _ (λ m h. absurd cc) (λ m bytes h g. absurd cc)

  with_meta-IsConsistent :
      (o : Option MetaFile)
      → ((m : PersistedMeta) → value_of o ≡ some m → m.id ≡ id)
      → IsConsistent (with_meta id info s o)
  with_meta-IsConsistent o named =
      put_dir-IsConsistent id (empty_dir id info s) empty_dir-IsConsistent _ named
        (λ m bytes h g. absurd cc)

  left_named :
      (w : WriteEnd) (m : PersistedMeta)
      → value_of (meta_left w (persisted id info)) ≡ some m
      → m.id ≡ id
  left_named written m h = persisted_id m h
  left_named not_made m h = absurd cc
  left_named left_empty m h = absurd cc
  left_named left_partial m h = absurd cc

  with_data-IsConsistent : IsConsistent (with_data id info s)
  with_data-IsConsistent =
      put_dir-IsConsistent id (with_meta id info s _) (with_meta-IsConsistent _ persisted_id) _
        persisted_id
        λ m bytes h g.
          let none_yet : [] ≡ bytes = cc in
          subst (λ b. Within m.declared (length b)) none_yet (Within-zero m.declared)

  -- The creation once the directory has been made.
  made-IsConsistent :
      id ≢ []
      → s.uploads id ≡ none
      → f.create_work_dir ≡ false
      → f.create_dir ≡ false
      → IsConsistent (create_upload f id info s).1
  unfolding create_upload
  made-IsConsistent ne unused root dir =
      let named = is_empty-nonempty id ne in
      elim (WriteEnd-cases f.write_meta) [
        | inr (m, bad, left) ↦
            let run : (create_upload f id info s).1
                ≡ with_meta id info s (meta_left f.write_meta (persisted id info)) =
              rw (named, root, dir, unused, bad) refl in
            rw run (with_meta-IsConsistent _ (left_named f.write_meta))
        | inl meta ↦ elim (Bool-cases f.write_data) [
          | inl bad ↦
              let run : (create_upload f id info s).1
                  ≡ with_meta id info s (some (holds (persisted id info))) =
                rw (named, root, dir, unused, meta, bad) refl in
              rw run (with_meta-IsConsistent _ persisted_id)
          | inr made ↦
              let run : (create_upload f id info s).1 ≡ with_data id info s =
                elim (Bool-cases f.stat_data) [
                  | inl bad ↦ unfold data_len in rw (named, root, dir, unused, meta, made, bad) refl
                  | inr sized ↦
                      unfold data_len in
                      rw (named, root, dir, unused, meta, made, sized, eq_refl id) refl
                ] in
              rw run with_data-IsConsistent
        ]
      ]

  pub create-IsConsistent : IsConsistent (create_upload f id info s).1
  unfolding create_upload
  create-IsConsistent = elim (Bool-cases (is_empty id)) [
    | inl unnamed ↦ rw unnamed inv
    | inr named ↦
        let ne : id ≢ [] = λ e. let empty : is_empty id ≡ true = ap is_empty e in cc in
        elim (Option-cases (s.uploads id)) [
          | inr (d, used) ↦ rw (create_upload-used id info s f d ne used) inv
          | inl unused ↦ elim (Bool-cases f.create_work_dir) [
            | inl bad ↦ rw (named, bad) inv
            | inr root ↦ elim (Bool-cases f.create_dir) [
              | inl bad ↦ rw (named, root, bad) inv
              | inr dir ↦ made-IsConsistent ne unused root dir
            ]
          ]
        ]
  ]

kept_value :
    (k : Bool) (o : Option MetaFile) (m : PersistedMeta)
    → value_of (if_kept k o) ≡ some m
    → value_of o ≡ some m
kept_value true o m h = h
kept_value false o m h = absurd cc

kept_bytes : (k : Bool) (o : Option Bytes) (b : Bytes) → if_kept k o ≡ some b → o ≡ some b
kept_bytes true o b h = h
kept_bytes false o b h = absurd cc

leave_dir-IsConsistent :
    (r : Option (Bool × Bool)) (id : UploadId) (d : UploadDir) (s : Dojo)
    → s.uploads id ≡ some d
    → IsConsistent s
    → IsConsistent (leave_dir id (dir_left r d) s)
leave_dir-IsConsistent none id d s used inv = remove_upload-IsConsistent id s inv
leave_dir-IsConsistent (some (kept_meta, kept_data)) id d s used inv =
    put_dir-IsConsistent id s inv _
      (λ m h. inv.named id m (ap meta_file used ∙ kept_value kept_meta d.meta m h))
      λ m bytes h g.
        inv.within id m bytes (ap meta_file used ∙ kept_value kept_meta d.meta m h)
          (ap data_file used ∙ kept_bytes kept_data d.received bytes g)

-- What a deletion leaves: the dojo as it was, or a directory that has lost files.
pub delete_upload-state :
    (f : Faults) (id : UploadId) (s : Dojo)
    → ((delete_upload f id s).1 ≡ s)
      ⊎ ((d : UploadDir) × (s.uploads id ≡ some d)
          × ((delete_upload f id s).1 ≡ leave_dir id (dir_left f.remove_dir_all d) s))
unfolding delete_upload
delete_upload-state f id s = elim (Bool-cases (is_empty id)) [
  | inl unnamed ↦ inl (rw unnamed refl)
  | inr named ↦ elim (Option-cases (s.uploads id)) [
    | inl unused ↦ inl (rw (named, unused) refl)
    | inr (d, used) ↦ elim (Option-cases f.remove_dir_all) [
      | inr (left, bad) ↦ inr (d, used, rw (named, used, bad) refl)
      | inl removed ↦ inr (d, used, rw (named, used, removed, eq_refl id) refl)
    ]
  ]
]

pub delete-IsConsistent :
    (f : Faults) (id : UploadId) (s : Dojo) → IsConsistent s → IsConsistent (delete_upload f id s).1
delete-IsConsistent f id s inv = elim (delete_upload-state f id s) [
  | inl same ↦ rw same inv
  | inr (d, used, left) ↦ rw left (leave_dir-IsConsistent f.remove_dir_all id d s used inv)
]

step-IsConsistent : (s t : Dojo) → StoreStep s t → IsConsistent s → IsConsistent t
step-IsConsistent s t (creates f id info _ plain) inv = create-IsConsistent f id info s inv
step-IsConsistent s t (writes f id offset chunk _ plain) inv =
    write-IsConsistent f id chunk s offset inv
step-IsConsistent s t (deletes f id _ plain) inv = delete-IsConsistent f id s inv

-- However calls of the methods for plain identifiers follow one another, and whichever calls of the
-- disk fail on the way: if at the start every `meta.json` that holds a value names its directory, and
-- no more data is there than it declares, this is so at the end. An empty or cut `meta.json`, which a
-- failing creation may leave, holds no value.
pub Reachable-IsConsistent : (s t : Dojo) → Reachable s t → IsConsistent s → IsConsistent t
Reachable-IsConsistent s t (starts _) inv = inv
Reachable-IsConsistent s u (steps _ t _ before step) inv =
    step-IsConsistent t u step (Reachable-IsConsistent s t before inv)
