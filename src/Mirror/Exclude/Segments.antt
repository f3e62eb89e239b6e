-- ===== src/Mirror/Exclude/Segments.antt =====
-- The exclusion tests compare texts; on a valid path they depend on its segments alone.
use Prim.Native.Nat.{ℕ}
use mathlib.Core.List.{append_assoc}
use dojjo.Prelude.{
  List, [], ◌∷◌, ◌++◌, ◌≡◌, refl, ap, sym, ◌∙◌, ◌≢◌, ◌↔◌, ◌⊎◌, inl, inr, Bool, true, false, ◌&&◌,
  ◌||◌, arith, if◌then◌else◌, All,
}
use dojjo.Prelude.Text.{Text, text, starts_with, has_char, split, join}
use dojjo.Prelude.Text.Order.{text_eq, text_eq_iff}
use dojjo.Prelude.Text.Laws.{split-join}
use dojjo.Mirror.Exclude.{is_host_local, is_git_store}

abbrev HasNoSlash : Text → Type 0
HasNoSlash s = has_char b'/' s ≡ false

text_eq-slash :
    (s w x y : Text)
    → HasNoSlash s
    → HasNoSlash w
    → text_eq (s ++ (b'/' ∷ x)) (w ++ (b'/' ∷ y)) ≡ (text_eq s w && text_eq x y)
unfolding text_eq
text_eq-slash [] [] x y h k = refl
text_eq-slash [] (b ∷ w) x y h k = ground arith
text_eq-slash (a ∷ s) [] x y h k = ground arith
text_eq-slash (a ∷ s) (b ∷ w) x y h k = ground (arith, text_eq-slash s w x y)

starts_with-slash :
    (s w x y : Text)
    → HasNoSlash s
    → HasNoSlash w
    → starts_with (w ++ (b'/' ∷ y)) (s ++ (b'/' ∷ x)) ≡ (text_eq s w && starts_with y x)
unfolding text_eq
starts_with-slash [] [] x y h k = refl
starts_with-slash [] (b ∷ w) x y h k = ground arith
starts_with-slash (a ∷ s) [] x y h k = ground arith
starts_with-slash (a ∷ s) (b ∷ w) x y h k = ground (arith, starts_with-slash s w x y)

-- A prefix that holds a slash fits no single segment.
starts_with-plain : (s w y : Text) → HasNoSlash s → starts_with (w ++ (b'/' ∷ y)) s ≡ false
starts_with-plain [] [] y h = refl
starts_with-plain [] (b ∷ w) y h = refl
starts_with-plain (a ∷ s) [] y h = ground arith
starts_with-plain (a ∷ s) (b ∷ w) y h = ground (arith, starts_with-plain s w y)

text_eq-plain : (s w y : Text) → HasNoSlash s → text_eq s (w ++ (b'/' ∷ y)) ≡ false
unfolding text_eq
text_eq-plain [] [] y h = refl
text_eq-plain [] (b ∷ w) y h = refl
text_eq-plain (a ∷ s) [] y h = ground arith
text_eq-plain (a ∷ s) (b ∷ w) y h = ground (arith, text_eq-plain s w y)

text_eq-slash_plain : (s w x : Text) → HasNoSlash w → text_eq (s ++ (b'/' ∷ x)) w ≡ false
unfolding text_eq
text_eq-slash_plain [] [] x h = refl
text_eq-slash_plain [] (b ∷ w) x h = ground arith
text_eq-slash_plain (a ∷ s) [] x h = refl
text_eq-slash_plain (a ∷ s) (b ∷ w) x h = ground (arith, text_eq-slash_plain s w x)

-- The first segments are those of `root`.
abbrev pub has_root : List Text → List Text → Bool
has_root [] segs = true
has_root (w ∷ root) [] = false
has_root (w ∷ root) (s ∷ segs) = text_eq s w && has_root root segs

-- `rel == p || rel.starts_with(p + "/")`
abbrev under : Text → Text → Bool
under p rel = text_eq rel p || starts_with (p ++ (b'/' ∷ [])) rel

under-join :
    (root segs : List Text)
    → root ≢ []
    → segs ≢ []
    → All HasNoSlash root
    → All HasNoSlash segs
    → under (join b'/' root) (join b'/' segs) ≡ has_root root segs
unfolding join
under-join [] segs h k m n = absurd (h refl)
under-join (w ∷ root) [] h k m n = absurd (k refl)
under-join (w ∷ []) (s ∷ []) h k m n = ground (arith, starts_with-plain s w [] n.0)
under-join (w ∷ []) (s ∷ t ∷ r) h k m n = ground (
  arith,
  text_eq-slash_plain s w (join b'/' (t ∷ r)) m.0,
  starts_with-slash s w (join b'/' (t ∷ r)) [] n.0 m.0,
)
under-join (w ∷ v ∷ root) (s ∷ []) h k m n =
    let y = join b'/' (v ∷ root) in
    ground (
      arith,
      text_eq-plain s w y n.0,
      append_assoc w (b'/' ∷ y) (b'/' ∷ []),
      starts_with-plain s w (y ++ (b'/' ∷ [])) n.0,
    )
under-join (w ∷ v ∷ root) (s ∷ t ∷ r) h k m n =
    let y = join b'/' (v ∷ root) in
    let x = join b'/' (t ∷ r) in
    ground (
      arith,
      under-join (v ∷ root) (t ∷ r) (λ e. cc) (λ e. cc) m.1 n.1,
      text_eq-slash s w x y n.0 m.0,
      append_assoc w (b'/' ∷ y) (b'/' ∷ []),
      starts_with-slash s w x (y ++ (b'/' ∷ [])) n.0 m.0,
    )

join-injective :
    (c : ℕ) (xs ys : List Text)
    → xs ≢ []
    → ys ≢ []
    → All (λ s. has_char c s ≡ false) xs
    → All (λ s. has_char c s ≡ false) ys
    → join c xs ≡ join c ys
    → xs ≡ ys
join-injective c xs ys h k m n e = sym (split-join c xs h m) ∙ ap (split c) e ∙ split-join c ys k n

if-true : (a b : Bool) → (if a then true else b) ≡ true → (a ≡ true) ⊎ (b ≡ true)
if-true true b h = inl refl
if-true false b h = inr h

if-true-intro : (a b : Bool) → a ≡ true → (if a then true else b) ≡ true
if-true-intro true b h = refl
if-true-intro false b h = cc

or-true : (a b : Bool) → (a || b) ≡ true → (a ≡ true) ⊎ (b ≡ true)
or-true true b h = inl refl
or-true false b h = inr h

-- `segs` are the segments of a path that is local to one machine.
pub data IsHostLocal (segs : List Text) : Type 0 where
  workspace_store : (r : List Text) → segs ≡ text "workspace_store" ∷ r → IsHostLocal segs
  git_target : segs ≡ text "store" ∷ text "git_target" ∷ [] → IsHostLocal segs
  config_toml : segs ≡ text "config.toml" ∷ [] → IsHostLocal segs
  config_id : segs ≡ text "config-id" ∷ [] → IsHostLocal segs
  import_lock : segs ≡ text "git_import_export.lock" ∷ [] → IsHostLocal segs
  heads_lock : segs ≡ text "op_heads" ∷ text "lock" ∷ [] → IsHostLocal segs
  extra_lock : segs ≡ text "store" ∷ text "extra" ∷ text "lock" ∷ [] → IsHostLocal segs

has_root_sound :
    (root segs : List Text) → has_root root segs ≡ true → (r : List Text) × (segs ≡ root ++ r)
has_root_sound [] segs h = (segs, refl)
has_root_sound (w ∷ root) [] h = cc
has_root_sound (w ∷ root) (s ∷ segs) h =
    let (r, e) = has_root_sound root segs (ground arith) in (r, ground (arith, e, text_eq_iff s w))

has_root-append : (root r : List Text) → has_root root (root ++ r) ≡ true
has_root-append [] r = refl
has_root-append (w ∷ root) r = ground (arith, has_root-append root r, text_eq_iff w w)

module _ (segs : List Text) (h : segs ≢ []) (n : All HasNoSlash segs) where
  same_path :
      (path : List Text)
      → path ≢ []
      → All HasNoSlash path
      → (text_eq (join b'/' segs) (join b'/' path) ≡ true) ↔ (segs ≡ path)
  same_path path k m = (
    λ e. join-injective b'/' segs path h k n m ((text_eq_iff _ _).0 e),
    λ e. (text_eq_iff _ _).1 (ap (join b'/') e),
  )

  same_path_flipped :
      (path : List Text)
      → path ≢ []
      → All HasNoSlash path
      → (text_eq (join b'/' path) (join b'/' segs) ≡ true) ↔ (segs ≡ path)
  same_path_flipped path k m = (
    λ e. join-injective b'/' segs path h k n m (sym ((text_eq_iff _ _).0 e)),
    λ e. (text_eq_iff _ _).1 (sym (ap (join b'/') e)),
  )

  -- `is_git_store` holds exactly below `store/git`.
  pub is_git_store_iff :
      (is_git_store (join b'/' segs) ≡ true)
      ↔ ((r : List Text) × (segs ≡ text "store" ∷ text "git" ∷ r))
  unfolding is_git_store join
  is_git_store_iff =
      let root : List Text = text "store" ∷ text "git" ∷ [] in
      let tests = under-join root segs (λ e. cc) h (refl, (refl, tt)) n in
      (
        λ e. has_root_sound root segs (sym tests ∙ e),
        λ e. tests ∙ (ap (has_root root) e.1 ∙ has_root-append root e.0),
      )

  host_local_back : IsHostLocal segs → is_host_local (join b'/' segs) ≡ true
  unfolding is_host_local join text_eq
  host_local_back (workspace_store r q) =
      let root : List Text = text "workspace_store" ∷ [] in
      let tree = under-join root segs (λ e. cc) h (refl, tt) n in
      if-true-intro _ _ (tree ∙ (ap (has_root root) q ∙ has_root-append root r))
  host_local_back (git_target q) = rw q refl
  host_local_back (config_toml q) = rw q refl
  host_local_back (config_id q) = rw q refl
  host_local_back (import_lock q) = rw q refl
  host_local_back (heads_lock q) = rw q refl
  host_local_back (extra_lock q) = rw q refl

  -- `is_host_local` holds exactly on the paths that are local to one machine.
  pub is_host_local_iff : (is_host_local (join b'/' segs) ≡ true) ↔ IsHostLocal segs
  unfolding is_host_local join
  is_host_local_iff =
      let root : List Text = text "workspace_store" ∷ [] in
      let tree = under-join root segs (λ e. cc) h (refl, tt) n in
      let target = same_path (text "store" ∷ text "git_target" ∷ []) (λ e. cc) (refl, (refl, tt)) in
      let toml = same_path (text "config.toml" ∷ []) (λ e. cc) (refl, tt) in
      let id = same_path (text "config-id" ∷ []) (λ e. cc) (refl, tt) in
      let git = same_path_flipped (text "git_import_export.lock" ∷ []) (λ e. cc) (refl, tt) in
      let heads =
        same_path_flipped (text "op_heads" ∷ text "lock" ∷ []) (λ e. cc) (refl, (refl, tt)) in
      let extra =
        same_path_flipped (text "store" ∷ text "extra" ∷ text "lock" ∷ []) (λ e. cc)
          (refl, (refl, (refl, tt))) in
      let index =
        same_path_flipped (text "workspace_store" ∷ text "index.lock" ∷ []) (λ e. cc)
          (refl, (refl, tt)) in
      (
        λ e. elim (if-true _ _ e) [
          | inl a ↦ let (r, q) = has_root_sound root segs (sym tree ∙ a) in workspace_store r q
          | inr e ↦ elim (if-true _ _ e) [
            | inl a ↦ git_target (target.0 a)
            | inr e ↦ elim (if-true _ _ e) [
              | inl a ↦ config_toml (toml.0 a)
              | inr e ↦ elim (if-true _ _ e) [
                | inl a ↦ config_id (id.0 a)
                | inr e ↦ elim (or-true _ _ e) [
                  | inl a ↦ import_lock (git.0 a)
                  | inr e ↦ elim (or-true _ _ e) [
                    | inl a ↦ heads_lock (heads.0 a)
                    | inr e ↦ elim (or-true _ _ e) [
                      | inl a ↦ extra_lock (extra.0 a)
                      | inr e ↦ elim (or-true _ _ e) [
                        | inl a ↦ workspace_store (text "index.lock" ∷ []) (index.0 a)
                        | inr e ↦ cc
                      ]
                    ]
                  ]
                ]
              ]
            ]
          ]
        ],
        host_local_back,
      )
