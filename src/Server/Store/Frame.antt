-- ===== src/Server/Store/Frame.antt =====
-- What `write_chunk` leaves behind, for any arguments: it appends nothing before its checks have passed.
use Prim.Native.Nat.{ℕ}
use mathlib.Core.Option
use mathlib.Core.Path.{subst}
use dojjo.Prelude.{
  ◌++◌, ◌≡◌, ◌≢◌, ◌⊎◌, inl, inr, refl, sym, ap, ◌∙◌, ◌+◌, ◌≤◌, Bool, true, false, not, Option, none,
  some, Result, ok, err, panic, arith, nat_eq, length, length-append, Bool-cases, Option-cases,
}
use dojjo.Prelude.Order.{◌==◌}
use dojjo.Prelude.Text.{is_empty}
use dojjo.Prelude.Text.Order.{text_order, text_eq, text_eq_iff}
use dojjo.Prelude.Action.{after_read, Action, check, ◌>>=◌}
use dojjo.Tus.Types.{Bytes, UploadId, StoreError, other}
use dojjo.Tus.Store.{Within}
use dojjo.Server.Store.{
  PersistedMeta, Dojo, Faults, take, meta_file, data_file, read_meta, data_len, write_chunk,
  append_data, append_chunk, room_for,
}
use dojjo.Server.Store.Append.{append_frame, meta_file-append, data_file-append, length-take_le}
use dojjo.Server.Store.View.{IsConsistent}
use dojjo.Tus.Handler.Guards.{Within-mono}

-- A write leaves the dojo as it was, or appends bytes that the upload has room for.
pub data WriteRun (id : UploadId) (chunk : Bytes) (s : Dojo)
    : Result StoreError ℕ × Dojo → Type 0 where
  unchanged : (r : Result StoreError ℕ) → WriteRun id chunk s (r, s)
  grown :
      (r : Result StoreError ℕ) (m : PersistedMeta) (bytes b : Bytes)
      → meta_file (s.uploads id) ≡ some m
      → data_file (s.uploads id) ≡ some bytes
      → length b ≤ length chunk
      → Within m.declared (length bytes + length chunk)
      → WriteRun id chunk s (r, append_data id b s)

module _ (s : Dojo) where
  pub check-keeps {κ} : (E : Type κ) (b : Bool) → (check {E = E} b s).1 ≡ s
  check-keeps E true = refl
  check-keeps E false = refl

  pub check-ok {κ} : (E : Type κ) (b : Bool) → (check {E = E} b s).0 ≡ ok tt → b ≡ true
  check-ok E true h = refl
  check-ok E false h = cc

  room_for-keeps : (d : Option ℕ) (offset n : ℕ) → (room_for d offset n s).1 ≡ s
  room_for-keeps none offset n = refl
  room_for-keeps (some len) offset n = ground arith

  room_for-ok :
      (d : Option ℕ) (offset n : ℕ) → (room_for d offset n s).0 ≡ ok tt → Within d (offset + n)
  room_for-ok none offset n h = tt
  room_for-ok (some len) offset n h = ground (arith, h)

  module _ (f : Faults) (id : UploadId) where
    pub read_meta-keeps : (read_meta f id s).1 ≡ s
    unfolding read_meta
    read_meta-keeps = ground arith

    pub read_meta-ok :
        (m : PersistedMeta) → (read_meta f id s).0 ≡ ok m → meta_file (s.uploads id) ≡ some m
    unfolding read_meta
    read_meta-ok m h = ground (arith, h)

    pub data_len-keeps : (data_len f id s).1 ≡ s
    unfolding data_len
    data_len-keeps = ground arith

    pub data_len-ok :
        (n : ℕ)
        → (data_len f id s).0 ≡ ok n
        → (bytes : Bytes) × (data_file (s.uploads id) ≡ some bytes) × (n ≡ length bytes)
    unfolding data_len
    data_len-ok n h = elim (Option-cases (data_file (s.uploads id))) [
      | inl gone ↦ absurd (ground (arith, h, gone))
      | inr (bytes, here) ↦ (bytes, here, ground (arith, h, here))
    ]

module _ (f : Faults) (id : UploadId) (chunk : Bytes) (s : Dojo) where
  -- The rest of a write, after a part that only reads.
  after :
      {A : Type 0} (m : Action Dojo StoreError A) (next : A → Action Dojo StoreError ℕ)
      → (m s).1 ≡ s
      → ((a : A) → (m s).0 ≡ ok a → WriteRun id chunk s (next a s))
      → WriteRun id chunk s ((m >>= next) s)
  after m next keeps k =
      after_read (WriteRun id chunk s) m next s keeps (λ e _. unchanged (err e))
        (λ _. unchanged panic) k

  abbrev Grows : (Bytes) → Type 0
  Grows bytes =
      (m : PersistedMeta) × (meta_file (s.uploads id) ≡ some m)
      × (data_file (s.uploads id) ≡ some bytes)
      × (Within m.declared (length bytes + length chunk))

  append_chunk-WriteRun :
      (n : ℕ) (bytes : Bytes) → Grows bytes → WriteRun id chunk s (append_chunk f id n chunk s)
  append_chunk-WriteRun n bytes (m, m_some, d_some, w) = elim (Bool-cases f.open_data) [
    | inl shut ↦
        let run : append_chunk f id n chunk s ≡ (err other, s) =
          unfold append_chunk in rw shut refl in
        rw run (unchanged (err other))
    | inr opened ↦ elim (Option-cases f.write_all) [
      | inr (k, short) ↦
          let run : append_chunk f id n chunk s ≡ (err other, append_data id (take k chunk) s) =
            unfold append_chunk in rw (opened, short) refl in
          rw run (grown (err other) m bytes (take k chunk) m_some d_some (length-take_le k chunk) w)
      | inl whole ↦
          let kept : (append_chunk f id n chunk s).1 ≡ append_data id chunk s =
            unfold append_chunk data_len in ground (arith, opened, whole) in
          subst (λ s'. WriteRun id chunk s ((append_chunk f id n chunk s).0, s')) (sym kept)
            (grown (append_chunk f id n chunk s).0 m bytes chunk m_some d_some (ground arith) w)
    ]
  ]

  write_chunk-WriteRun : (n : ℕ) → WriteRun id chunk s (write_chunk f id n chunk s)
  unfolding write_chunk
  write_chunk-WriteRun n =
      after (check (not (is_empty id))) _ (check-keeps s StoreError (not (is_empty id))) λ _ named.
        after (read_meta f id) _ (read_meta-keeps s f id) λ m got.
          after (check (m.id == id)) _ (check-keeps s StoreError (m.id == id)) λ _ same.
            after (data_len f id) _ (data_len-keeps s f id) λ current len.
              after (check (nat_eq current n)) _ (check-keeps s StoreError (nat_eq current n))
                λ _ at_end.
                  after (room_for m.declared n (length chunk)) _
                    (room_for-keeps s m.declared n (length chunk))
                    λ _ room.
                      let (bytes, d_some, size) = data_len-ok s f id current len in
                      let start : n ≡ length bytes =
                        ground (arith, size, check-ok s StoreError (nat_eq current n) at_end) in
                      let fits_all = room_for-ok s m.declared n (length chunk) room in
                      append_chunk-WriteRun n bytes (
                        m,
                        read_meta-ok s f id m got,
                        d_some,
                        subst (λ k. Within m.declared (k + length chunk)) start fits_all,
                      )

  same_upload : (j : UploadId) → (id ≡ j) ⊎ (j ≢ id)
  same_upload j = elim (Bool-cases (text_eq id j)) [
    | inl same ↦ inl ((text_eq_iff id j).0 same)
    | inr differ ↦ inr (λ e. let same : text_eq id j ≡ true = (text_eq_iff id j).1 (sym e) in cc)
  ]

  kept_meta :
      (b : Bytes) (j : UploadId) (m : PersistedMeta)
      → meta_file ((append_data id b s).uploads j) ≡ some m
      → meta_file (s.uploads j) ≡ some m
  kept_meta b j m h = elim (same_upload j) [
    | inl e ↦
        subst
          (λ k.
            meta_file ((append_data id b s).uploads k) ≡ some m → meta_file (s.uploads k) ≡ some m)
          e (λ g. sym (meta_file-append id b s) ∙ g) h
    | inr ne ↦ sym (ap meta_file (append_frame id b s j ne)) ∙ h
  ]

  Within-append_data :
      (m m' : PersistedMeta) (bytes b bytes' : Bytes)
      → meta_file (s.uploads id) ≡ some m
      → data_file (s.uploads id) ≡ some bytes
      → length b ≤ length chunk
      → Within m.declared (length bytes + length chunk)
      → meta_file ((append_data id b s).uploads id) ≡ some m'
      → data_file ((append_data id b s).uploads id) ≡ some bytes'
      → Within m'.declared (length bytes')
  Within-append_data m m' bytes b bytes' m_some d_some le w h g =
      let meta_chain : some m ≡ some m' = sym m_some ∙ sym (meta_file-append id b s) ∙ h in
      let same_meta : m ≡ m' = cc in
      let data_chain : some (bytes ++ b) ≡ some bytes' =
        ap (Option.map (λ old. old ++ b)) (sym d_some) ∙ sym (data_file-append id b s) ∙ g in
      let same_data : bytes ++ b ≡ bytes' = cc in
      let longer : length bytes + length b ≡ length bytes' =
        sym (length-append bytes b) ∙ ap length same_data in
      subst (λ k. Within k.declared (length bytes')) same_meta
        (Within-mono m.declared (length bytes') (length bytes + length chunk)
          (ground (arith, longer, le)) w)

  pub WriteRun-IsConsistent :
      (r : Result StoreError ℕ × Dojo) → IsConsistent s → WriteRun id chunk s r → IsConsistent r.1
  WriteRun-IsConsistent r inv (unchanged _) = inv
  WriteRun-IsConsistent r inv (grown _ m bytes b m_some d_some le w) = record {
    named = λ j m' h. inv.named j m' (kept_meta b j m' h);
    within = λ j m' bytes' h g. elim (same_upload j) [
      | inl e ↦
          Within-append_data m m' bytes b bytes' m_some d_some le w
            (subst (λ k. meta_file ((append_data id b s).uploads k) ≡ some m') (sym e) h)
            (subst (λ k. data_file ((append_data id b s).uploads k) ≡ some bytes') (sym e) g)
      | inr ne ↦
          inv.within j m' bytes' (kept_meta b j m' h)
            (sym (ap data_file (append_frame id b s j ne)) ∙ g)
    ];
  }

  pub WriteRun-frame :
      (j : UploadId) (r : Result StoreError ℕ × Dojo)
      → j ≢ id
      → WriteRun id chunk s r
      → r.1.uploads j ≡ s.uploads j
  WriteRun-frame j r ne (unchanged _) = refl
  WriteRun-frame j r ne (grown _ m bytes b m_some d_some le w) = append_frame id b s j ne

  pub write-IsConsistent : (n : ℕ) → IsConsistent s → IsConsistent (write_chunk f id n chunk s).1
  write-IsConsistent n inv = WriteRun-IsConsistent _ inv (write_chunk-WriteRun n)

  pub write-frame :
      (n : ℕ) (j : UploadId) → j ≢ id → (write_chunk f id n chunk s).1.uploads j ≡ s.uploads j
  write-frame n j ne = WriteRun-frame j _ ne (write_chunk-WriteRun n)
