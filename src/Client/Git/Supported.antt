-- ===== src/Client/Git/Supported.antt =====
-- Which URLs that sync-server/src/git_remote.rs makes of `DOJJO_PUBLIC_URL` the client takes:
-- `assert_supported_git_remote_url` of client/src/git_sync.rs.
use dojjo.Prelude.{
  [], ◌∷◌, ◌++◌, ◌≡◌, ◌↔◌, refl, sym, ap, ◌∙◌, inl, inr, arith, Bool, true, false, not, ◌||◌, ok,
  bind_inv, ok-injective, Bool-cases, assert, guard,
}
use dojjo.Prelude.Text.{Text, text, is_empty, has_char, starts_with, trim, strip_prefix}
use dojjo.Prelude.Text.Occurs.{has_char-append}
use dojjo.Prelude.Text.Search.{has_text, ends_with}
use dojjo.Server.MirrorGet.{bad_request}
use dojjo.Server.GitRemote.{expect_some, PublicUrl, parse_public_url, scheme_of, git_remote_url}
use dojjo.Server.DojoId.{assert_safe_dojo_external_id}
use dojjo.Client.Git.{Git, assert_supported_git_remote_url}

-- The test on the scheme.
abbrev has_scheme : Text → Bool
has_scheme url =
    starts_with (text "file://") url
    || starts_with (text "http://") url
    || starts_with (text "https://") url

has_scheme-nonempty : (url : Text) → has_scheme url ≡ true → is_empty url ≡ false
has_scheme-nonempty [] h = cc
has_scheme-nonempty (c ∷ url) h = refl

starts_with_longer : (pat s t : Text) → starts_with pat s ≡ true → starts_with pat (s ++ t) ≡ true
starts_with_longer [] s t h = refl
starts_with_longer (p ∷ ps) [] t h = cc
starts_with_longer (p ∷ ps) (c ∷ s) t h = ground (arith, starts_with_longer ps s t)

has_scheme_longer : (s t : Text) → has_scheme s ≡ true → has_scheme (s ++ t) ≡ true
has_scheme_longer s t h = ground (
  arith,
  h,
  starts_with_longer (text "file://") s t,
  starts_with_longer (text "http://") s t,
  starts_with_longer (text "https://") s t,
)

scheme_of-has_scheme : (base scheme : Text) → scheme_of base ≡ ok scheme → has_scheme base ≡ true
scheme_of-has_scheme base scheme h = ground (arith, h)

parsed-has_scheme :
    (value : Text) (public : PublicUrl)
    → parse_public_url value ≡ ok public
    → has_scheme public.base ≡ true
unfolding parse_public_url
parsed-has_scheme value public h =
    let base = trim value in
    let (_, _, h1) = bind_inv (assert (not (is_empty base))) _ h in
    let (_, _, h2) = bind_inv (guard (not (ends_with (text "/") base)) bad_request) _ h1 in
    let (scheme, known, h3) = bind_inv (scheme_of base) _ h2 in
    let (rest, _, h4) = bind_inv (expect_some (strip_prefix scheme base)) _ h3 in
    let (_, _, h5) = bind_inv (guard (not (is_empty rest)) bad_request) _ h4 in
    let (_, _, h6) = bind_inv (guard (not (has_char b'/' rest)) bad_request) _ h5 in
    let (_, _, h7) = bind_inv (assert (has_text (text "://") base)) _ h6 in
    ap has_scheme (sym (ap (λ p. p.base) (ok-injective h7)))
    ∙ scheme_of-has_scheme base scheme known

printed_inv :
    (public : PublicUrl) (id url : Text)
    → git_remote_url public id ≡ ok url
    → public.base ++ text "/git/" ++ id ++ text ".git" ≡ url
unfolding git_remote_url
printed_inv public id url h =
    let printed = public.base ++ text "/git/" ++ id ++ text ".git" in
    let (_, _, h1) = bind_inv (assert_safe_dojo_external_id id) _ h in
    let (_, _, h2) = bind_inv (assert (has_text (text "/git/") printed)) _ h1 in
    let (_, _, h3) = bind_inv (assert (ends_with (text ".git") printed)) _ h2 in ok-injective h3

has_at-printed :
    (base id : Text)
    → has_char b'@' (base ++ text "/git/" ++ id ++ text ".git")
      ≡ (has_char b'@' base || has_char b'@' id)
has_at-printed base id =
    has_char-append b'@' (base ++ text "/git/" ++ id) (text ".git")
    ∙ rw (has_char-append b'@' (base ++ text "/git/") id, has_char-append b'@' base (text "/git/"))
        (ground arith)

module _ {W : Type 0} (g : Git W) (w : W) where
  taken_iff :
      (url : Text)
      → has_scheme url ≡ true
      → (assert_supported_git_remote_url g url w ≡ (ok tt, w)) ↔ (has_char b'@' url ≡ false)
  unfolding assert_supported_git_remote_url
  taken_iff url scheme = elim (Bool-cases (has_char b'@' url)) [
    | inl at ↦
        rw (has_scheme-nonempty url scheme, scheme, at)
          (λ h. let bad = ap (λ r. r.0) h in cc, λ h. cc)
    | inr free ↦ rw (has_scheme-nonempty url scheme, scheme, free) (λ h. refl, λ h. refl)
  ]

  -- Of the URLs that the server prints for its public URL and a dojo, the client takes exactly those with
  -- no at sign in the public URL and in the identifier.
  pub supported_iff :
      (value id url : Text) (public : PublicUrl)
      → parse_public_url value ≡ ok public
      → git_remote_url public id ≡ ok url
      → (assert_supported_git_remote_url g url w ≡ (ok tt, w))
        ↔ ((has_char b'@' public.base ≡ false) × (has_char b'@' id ≡ false))
  supported_iff value id url public parsed printed =
      let is = printed_inv public id url printed in
      let scheme : has_scheme url ≡ true =
        ap has_scheme (sym is)
        ∙ has_scheme_longer (public.base ++ text "/git/" ++ id) (text ".git") (
            has_scheme_longer (public.base ++ text "/git/") id (
              has_scheme_longer public.base (text "/git/")
                (parsed-has_scheme value public parsed))) in
      let at : has_char b'@' url ≡ (has_char b'@' public.base || has_char b'@' id) =
        ap (has_char b'@') (sym is) ∙ has_at-printed public.base id in
      let taken = taken_iff url scheme in
      (λ h. ground (arith, at, taken.0 h), λ h. taken.1 (ground (arith, at, h)))
