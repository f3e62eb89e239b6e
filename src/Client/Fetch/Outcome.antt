-- ===== src/Client/Fetch/Outcome.antt =====
-- What `get_mirror_object_bytes` of client/src/manifest.rs returns, and how many requests it sends.
use dojjo.Prelude.Text.Order.{text_order, text_eq_iff}
use dojjo.Prelude.{
  ℕ, zero, suc, ◌+◌, ◌*◌, ◌≤◌, ◌≡◌, ◌≢◌, inl, inr, refl, sym, ap, ◌∙◌, arith, Bool, true, false,
  not, Option, none, some, if◌then◌else◌, nat_eq, nat_eq_iff, length, Result, ok, err, panic,
  Bool-cases, Option-cases, Result-cases, ok-injective,
}
use dojjo.Prelude.Order.{◌==◌}
use dojjo.Prelude.Dict.{lookup}
use dojjo.Prelude.Text.{Text, is_empty, len}
use dojjo.Prelude.Action.{Action, lift, ensure, run_inv, ensure-eq-ok}
use dojjo.Mirror.Operation.{Bytes}
use dojjo.Client.Manifest.{
  Manifest, ManifestEntry, ClientError, no_response, still_missing, bad_status, bad_body,
  length_mismatch, sha256_mismatch, or_context,
}
use dojjo.Client.Http.{
  HttpRequest, HttpResponse, Net, get_request, mirror_url, trim_slashes, is_error_status,
}
use dojjo.Client.Fetch.{
  Session, send, fetch_manifest, received, refetch, get_entry, get_once, get_loop,
  get_mirror_object_bytes, max_manifest_refetch_on_404,
}

abbrev pub counted_send :
    {W : Type 0}
    → (HttpRequest → W → Option HttpResponse × W)
    → HttpRequest
    → W × ℕ
    → Option HttpResponse × (W × ℕ)
counted_send send req (w, n) = ((send req w).0, ((send req w).1, suc n))

-- The same network, with a count of the requests.
abbrev pub counted : {W : Type 0} → Net W → Net (W × ℕ)
counted net = record {
  send = counted_send net.send;
  from_json = net.from_json;
  sha256_hex = net.sha256_hex;
  base64 = net.base64;
}

-- At most `k` requests were sent and no local file was touched; what was received is the entry that the
-- manifest at the end has for the path, and nothing is returned only if it has none.
pub record GetEnd {W : Type 0} (sha256_hex : Bytes → Text) (k : ℕ) (rel : Text)
    (s : Session (W × ℕ)) (r : Result ClientError (Option Bytes) × Session (W × ℕ)) : Type 0 where
  pub few : (r.1).world.1 ≤ s.world.1 + k
  pub kept : (r.1).files ≡ s.files
  pub got :
      (b : Bytes)
      → r.0 ≡ ok (some b)
      → (ent : ManifestEntry) × (lookup rel (r.1).manifest.entries ≡ some ent)
        × (length b ≡ ent.size)
        × (sha256_hex b ≡ ent.sha256)
  pub absent : r.0 ≡ ok none → lookup rel (r.1).manifest.entries ≡ none

failed-GetEnd :
    {W : Type 0} (sha256_hex : Bytes → Text) (k : ℕ) (rel : Text) (s t : Session (W × ℕ))
    (r : Result ClientError (Option Bytes))
    → t.world.1 ≤ s.world.1 + k
    → t.files ≡ s.files
    → ((o : Option Bytes) → r ≢ ok o)
    → GetEnd sha256_hex k rel s (r, t)
failed-GetEnd sha256_hex k rel s t r few kept fails = record {
  few = few;
  kept = kept;
  got = λ b h. absurd (fails (some b) h);
  absent = λ h. absurd (fails none h);
}

-- What holds from a later state on.
later-GetEnd :
    {W : Type 0} (sha256_hex : Bytes → Text) (j k : ℕ) (rel : Text) (s t : Session (W × ℕ))
    (r : Result ClientError (Option Bytes) × Session (W × ℕ))
    → t.world.1 + j ≤ s.world.1 + k
    → t.files ≡ s.files
    → GetEnd sha256_hex j rel t r
    → GetEnd sha256_hex k rel s r
later-GetEnd sha256_hex j k rel s t r fewer same h = record {
  few = omega (arith, h.few, fewer);
  kept = h.kept ∙ same;
  got = h.got;
  absent = h.absent;
}

module _ {W : Type 0} (net : Net W) (api_base dojo_id : Text) where
  received-state :
      (ent : ManifestEntry) (res : HttpResponse) (t : Session (W × ℕ))
      → (received (counted net) api_base dojo_id ent res t).1 ≡ t
  unfolding received
  received-state ent res t = ground arith

  received-result :
      (ent : ManifestEntry) (res : HttpResponse) (t : Session (W × ℕ)) (o : Option Bytes)
      → (received (counted net) api_base dojo_id ent res t).0 ≡ ok o
      → (b : Bytes) × (o ≡ some b) × (length b ≡ ent.size) × (net.sha256_hex b ≡ ent.sha256)
  unfolding received
  received-result ent res t o h =
      let run : received (counted net) api_base dojo_id ent res t
          ≡ (ok o, (received (counted net) api_base dojo_id ent res t).1) =
        ap (λ x. (x, (received (counted net) api_base dojo_id ent res t).1)) h in
      let (_, _, h1) = run_inv (ensure (not (is_error_status res.status)) bad_status) _ t run in
      let (b, _, h2) = run_inv (lift (or_context res.body bad_body)) _ _ h1 in
      let (_, size, h3) = run_inv (ensure (nat_eq (length b) ent.size) length_mismatch) _ _ h2 in
      let (_, sha, h4) = run_inv (ensure (net.sha256_hex b == ent.sha256) sha256_mismatch) _ _ h3 in
      (
        b,
        sym (ok-injective (ap (λ x. x.0) h4)),
        (nat_eq_iff (length b) ent.size).0 (ensure-eq-ok _ length_mismatch _ size),
        (text_eq_iff (net.sha256_hex b) ent.sha256).0 (ensure-eq-ok _ sha256_mismatch _ sha),
      )

  fetch-end :
      (s : Session (W × ℕ))
      → ((fetch_manifest (counted net) api_base dojo_id s).1.world.1 ≤ s.world.1 + 1)
        × ((fetch_manifest (counted net) api_base dojo_id s).1.files ≡ s.files)
  unfolding fetch_manifest
  fetch-end s = ground arith

  received-GetEnd :
      (rel : Text) (ent : ManifestEntry) (res : HttpResponse) (t : Session (W × ℕ))
      → lookup rel t.manifest.entries ≡ some ent
      → GetEnd net.sha256_hex 0 rel t (received (counted net) api_base dojo_id ent res t)
  received-GetEnd rel ent res t here =
      let same = received-state ent res t in
      record {
        few = rw same (omega arith);
        kept = rw same refl;
        got = λ b h.
            let (c, e, size, sha) = received-result ent res t (some b) h in
            let eq : b ≡ c = cc in
            (
              ent,
              ap (λ x. lookup rel x.manifest.entries) same ∙ here,
              ap length eq ∙ size,
              ap net.sha256_hex eq ∙ sha,
            );
        absent = λ h. let (c, e, size, sha) = received-result ent res t none h in absurd cc;
      }

  reply-GetEnd :
      (gone : Bool) (k : ℕ) (again : Action (Session (W × ℕ)) ClientError (Option Bytes))
      (rel : Text) (ent : ManifestEntry) (res : HttpResponse) (s t : Session (W × ℕ))
      → t.world.1 + k ≤ s.world.1 + suc k
      → t.files ≡ s.files
      → ((t : Session (W × ℕ)) → GetEnd net.sha256_hex k rel t (again t))
      → lookup rel t.manifest.entries ≡ some ent
      → GetEnd net.sha256_hex
          (suc k)
          rel
          s
          ((if gone then again else received (counted net) api_base dojo_id ent res) t)
  reply-GetEnd true k again rel ent res s t fewer same more here =
      later-GetEnd net.sha256_hex k (suc k) rel s t _ fewer same (more t)
  reply-GetEnd false k again rel ent res s t fewer same more here =
      later-GetEnd net.sha256_hex 0 (suc k) rel s t _ (omega (arith, fewer)) same
        (received-GetEnd rel ent res t here)

  -- The answer of one request, if what follows a 404 sends at most `k`.
  get_entry-GetEnd :
      (k : ℕ) (again : Action (Session (W × ℕ)) ClientError (Option Bytes)) (rel : Text)
      (o : Option ManifestEntry) (s : Session (W × ℕ))
      → ((t : Session (W × ℕ)) → GetEnd net.sha256_hex k rel t (again t))
      → lookup rel s.manifest.entries ≡ o
      → GetEnd net.sha256_hex (suc k) rel s (get_entry (counted net) api_base dojo_id again rel o s)
  unfolding get_entry
  get_entry-GetEnd k again rel none s more here = record {
    few = omega arith;
    kept = refl;
    got = λ b h. absurd cc;
    absent = λ h. here;
  }
  get_entry-GetEnd k again rel (some ent) s more here =
      elim (Bool-cases (not (is_empty ent.path))) [
        | inr bad ↦
            rw bad
              (failed-GetEnd net.sha256_hex (suc k) rel s s panic (omega arith) refl (λ o h. cc))
        | inl full ↦ elim (Bool-cases (nat_eq (len ent.sha256) 64)) [
          | inr bad ↦
              rw (full, bad)
                (failed-GetEnd net.sha256_hex (suc k) rel s s panic (omega arith) refl (λ o h. cc))
          | inl sized ↦
              let req = get_request (mirror_url api_base dojo_id rel) in
              let t : Session (W × ℕ) = record s {
                world = ((net.send req s.world.0).1, suc s.world.1);
              } in
              elim (Option-cases (net.send req s.world.0).0) [
                | inl lost ↦
                    rw (full, sized, lost)
                      (failed-GetEnd net.sha256_hex (suc k) rel s t (err no_response) (omega arith)
                        refl (λ o h. cc))
                | inr (res, came) ↦
                    rw (full, sized, came)
                      (reply-GetEnd (nat_eq res.status 404) k again rel ent res s t (omega arith)
                        refl more here)
              ]
        ]
      ]

  refetch-GetEnd :
      (k : ℕ) (again : Action (Session (W × ℕ)) ClientError (Option Bytes)) (rel : Text)
      (s : Session (W × ℕ))
      → ((t : Session (W × ℕ)) → GetEnd net.sha256_hex k rel t (again t))
      → GetEnd net.sha256_hex (suc k) rel s (refetch (counted net) api_base dojo_id again s)
  unfolding refetch
  refetch-GetEnd k again rel s more =
      let fetch = fetch_manifest (counted net) api_base dojo_id s in
      let (few, kept) = fetch-end s in
      let t : Manifest → Session (W × ℕ) = λ m. record fetch.1 { manifest = m } in
      elim (Result-cases fetch.0) [
        | inl (m, e) ↦ rw e (
            later-GetEnd net.sha256_hex k (suc k) rel s (t m) _ (omega (arith, few)) kept
              (more (t m)))
        | inr (inl (x, e)) ↦ rw e (
            failed-GetEnd net.sha256_hex (suc k) rel s fetch.1 (err x) (omega (arith, few)) kept
              (λ o h. cc))
        | inr (inr e) ↦ rw e (
            failed-GetEnd net.sha256_hex (suc k) rel s fetch.1 panic (omega (arith, few)) kept
              (λ o h. cc))
      ]

  get_loop-GetEnd :
      (left : ℕ) (rel : Text) (s : Session (W × ℕ))
      → GetEnd net.sha256_hex
          (suc (left * 2))
          rel
          s
          (get_loop (counted net) api_base dojo_id left rel s)
  unfolding get_loop get_once
  get_loop-GetEnd zero rel s =
      get_entry-GetEnd 0 _ rel _ s
        (λ t.
          failed-GetEnd net.sha256_hex 0 rel t t (err still_missing) (omega arith) refl (λ o h. cc))
        refl
  get_loop-GetEnd (suc left) rel s =
      later-GetEnd net.sha256_hex (suc (suc (suc (left * 2)))) (suc (suc left * 2)) rel s s _
        (omega arith) refl
        (get_entry-GetEnd (suc (suc (left * 2))) _ rel _ s
          (λ t. refetch-GetEnd (suc (left * 2)) _ rel t (get_loop-GetEnd left rel)) refl)

  -- Whatever the server answers, at most 17 requests are sent and no local file is touched. Bytes that
  -- are returned have the length and the digest of the entry that the manifest, which may have been
  -- replaced, then has for the path; nothing is returned only if it then has no such entry.
  pub get_mirror_object_bytes-GetEnd :
      (rel : Text) (s : Session (W × ℕ))
      → GetEnd net.sha256_hex 17 rel s
          (get_mirror_object_bytes (counted net) api_base dojo_id rel s)
  unfolding get_mirror_object_bytes
  get_mirror_object_bytes-GetEnd rel s =
      let stop = failed-GetEnd net.sha256_hex 17 rel s s panic (omega arith) refl (λ o h. cc) in
      elim (Bool-cases (not (is_empty dojo_id))) [
        | inr bad ↦ rw bad stop
        | inl dojo ↦ elim (Bool-cases (not (is_empty rel))) [
          | inr bad ↦ rw (dojo, bad) stop
          | inl path ↦ elim (Bool-cases (not (is_empty (trim_slashes api_base)))) [
            | inr bad ↦ rw (dojo, path, bad) stop
            | inl based ↦ rw (dojo, path, based) (get_loop-GetEnd max_manifest_refetch_on_404 rel s)
          ]
        ]
      ]
