-- ===== src/Server/Store/Append.antt =====
-- Appending a chunk to the data file of an upload.
use Prim.Native.Nat.{ℕ, zero, suc}
use mathlib.Core.Option
use dojjo.Prelude.{
  [], ◌∷◌, ◌++◌, ◌≡◌, ◌≢◌, inl, inr, refl, sym, ap, ◌+◌, ◌≤◌, true, false, Option, none, some, ok,
  err, arith, leb, nat_eq_iff, length, length-append, Bool-cases, Option-cases,
}
use dojjo.Prelude.Text.Order.{text_order, text_eq, text_eq_iff}
use dojjo.Tus.Types.{Bytes, UploadId, other}
use dojjo.Tus.Store.{WriteResult, wrote, stopped}
use dojjo.Server.Store.{
  PersistedMeta, UploadDir, Dojo, Faults, take, meta_file, data_file, data_len, append_data,
  append_chunk, with_appended,
}
use dojjo.Server.Store.View.{info_of, view}

pub eq_refl : (id : UploadId) → text_eq id id ≡ true
eq_refl id = (text_eq_iff id id).1 refl

pub eq_ne : (id j : UploadId) → j ≢ id → text_eq id j ≡ false
eq_ne id j ne = elim (Bool-cases (text_eq id j)) [
  | inl same ↦ absurd (ne (sym ((text_eq_iff id j).0 same)))
  | inr differ ↦ differ
]

leb_add : (a b : ℕ) → leb a (a + b) ≡ true
leb_add a b = ground arith

pub length-take_le : (n : ℕ) (xs : Bytes) → length (take n xs) ≤ length xs
length-take_le zero xs = ground arith
length-take_le (suc n) [] = ground arith
length-take_le (suc n) (x ∷ xs) = ground (arith, length-take_le n xs)

module _ (id : UploadId) (b : Bytes) (s : Dojo) where
  frame_at :
      (j : UploadId) (o : Option UploadDir)
      → j ≢ id
      → (with_appended id b o s).uploads j ≡ s.uploads j
  frame_at j none ne = refl
  frame_at j (some d) ne = rw (eq_ne id j ne) refl

  pub append_frame : (j : UploadId) → j ≢ id → (append_data id b s).uploads j ≡ s.uploads j
  append_frame j ne = frame_at j (s.uploads id) ne

  meta_at :
      (o : Option UploadDir)
      → s.uploads id ≡ o
      → meta_file ((with_appended id b o s).uploads id) ≡ meta_file o
  meta_at none e = rw e refl
  meta_at (some d) e = rw (eq_refl id) refl

  pub meta_file-append : meta_file ((append_data id b s).uploads id) ≡ meta_file (s.uploads id)
  meta_file-append = meta_at (s.uploads id) refl

  data_at :
      (o : Option UploadDir)
      → s.uploads id ≡ o
      → data_file ((with_appended id b o s).uploads id) ≡ Option.map (λ old. old ++ b) (data_file o)
  data_at none e = rw e refl
  data_at (some d) e = rw (eq_refl id) refl

  pub data_file-append :
      data_file ((append_data id b s).uploads id)
      ≡ Option.map (λ old. old ++ b) (data_file (s.uploads id))
  data_file-append = data_at (s.uploads id) refl

module _ (f : Faults) (id : UploadId) (s : Dojo) (m : PersistedMeta) (bytes chunk : Bytes)
    (m_some : meta_file (s.uploads id) ≡ some m)
    (d_some : data_file (s.uploads id) ≡ some bytes) where
  -- The view of an upload whose data has grown.
  pub view-append :
      (b : Bytes)
      → view (append_data id b s) id
        ≡ some (record (info_of id m bytes) { offset = length bytes + length b })
  view-append b =
      rw (meta_file-append id b s, m_some, data_file-append id b s, d_some)
        (ap (λ n. some (record (info_of id m bytes) { offset = n })) (length-append bytes b))

  -- A write that fails before it appends.
  pub unwritten : WriteResult view id s (info_of id m bytes) (length chunk) (err other, s)
  unwritten = stopped s 0 (ground arith) (
      rw (m_some, d_some)
        (ap (λ n. some (record (info_of id m bytes) { offset = n })) (ground arith)))

  pub append_chunk-WriteResult :
      f.stat_data ≡ false
      → WriteResult view id s
          (info_of id m bytes)
          (length chunk)
          (append_chunk f id (length bytes) chunk s)
  append_chunk-WriteResult good = elim (Bool-cases f.open_data) [
    | inl shut ↦
        let run : append_chunk f id (length bytes) chunk s ≡ (err other, s) =
          unfold append_chunk in rw shut refl in
        rw run unwritten
    | inr opened ↦ elim (Option-cases f.write_all) [
      | inr (k, short) ↦
          let run : append_chunk f id (length bytes) chunk s
              ≡ (err other, append_data id (take k chunk) s) =
            unfold append_chunk in rw (opened, short) refl in
          rw run (
            stopped _ (length (take k chunk)) (length-take_le k chunk) (view-append (take k chunk)))
      | inl whole ↦
          let grown : data_file ((append_data id chunk s).uploads id) ≡ some (bytes ++ chunk) =
            rw (data_file-append id chunk s, d_some) refl in
          elim (Bool-cases f.flush) [
            | inl unflushed ↦
                let run : append_chunk f id (length bytes) chunk s
                    ≡ (err other, append_data id chunk s) =
                  unfold append_chunk in rw (opened, whole, unflushed) refl in
                rw run (stopped _ (length chunk) (ground arith) (view-append chunk))
            | inr flushed ↦
                let run : append_chunk f id (length bytes) chunk s
                    ≡ (ok (length bytes + length chunk), append_data id chunk s) =
                  unfold append_chunk data_len in
                  rw
                    (
                      opened,
                      whole,
                      flushed,
                      good,
                      grown,
                      length-append bytes chunk,
                      leb_add (length bytes) (length chunk),
                      (nat_eq_iff (length bytes + length chunk) _).1 refl,
                    )
                    refl in
                rw run (wrote _ (view-append chunk))
          ]
    ]
  ]
