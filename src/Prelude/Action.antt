-- ===== src/Prelude/Action.antt =====
-- Code that changes a state, returns `Result` and may panic. What was written before an error or a
-- panic stays written.
use mathlib.Core.Bool.{Bool, true, false}
use mathlib.Core.Path.{◌≡◌, refl}
use mathlib.Core.Logic.{inl, inr}
use dojjo.Prelude.Results.{Result, ok, err, panic, Result-cases}

abbrev pub Action {ℓ κ μ} : Type ℓ → Type κ → Type μ → Type (ℓ ⊔ κ ⊔ μ)
Action S E A = S → Result E A × S

module _ {ℓ κ μ ν} {S : Type ℓ} {E : Type κ} {A : Type μ} {B : Type ν} where
  abbrev pub run_next : Result E A → (A → Action S E B) → Action S E B
  run_next (ok a) f s = f a s
  run_next (err e) f s = (err e, s)
  run_next panic f s = (panic, s)

  infixl 5 ◌>>=◌
  abbrev pub ◌>>=◌ : Action S E A → (A → Action S E B) → Action S E B
  ◌>>=◌ m f s = run_next (m s).0 f (m s).1

module _ {ℓ κ ν} {S : Type ℓ} {E : Type κ} {B : Type ν} where
  infixl 5 ◌>>◌
  abbrev pub ◌>>◌ : Action S E (Unit {0}) → Action S E B → Action S E B
  m >> n = m >>= λ _. n

module _ {ℓ κ μ} {S : Type ℓ} {E : Type κ} {A : Type μ} where
  abbrev pub lift : Result E A → Action S E A
  lift r s = (r, s)

  abbrev pub return : A → Action S E A
  return a s = (ok a, s)

  abbrev pub fail : E → Action S E A
  fail e s = (err e, s)

  abbrev pub gets : (S → A) → Action S E A
  gets f s = (ok (f s), s)

module _ {ℓ κ} {S : Type ℓ} {E : Type κ} where
  -- `assert!`
  abbrev pub check : Bool → Action S E (Unit {0})
  check true s = (ok tt, s)
  check false s = (panic, s)

  -- An early `return Err(e)` unless the test holds.
  abbrev pub ensure : Bool → E → Action S E (Unit {0})
  ensure true e s = (ok tt, s)
  ensure false e s = (err e, s)

  abbrev pub modify : (S → S) → Action S E (Unit {0})
  modify f s = (ok tt, f s)

-- What follows a part that leaves the state alone: whatever holds of its failures and of the rest
-- after each of its successes holds of the whole.
pub after_read {ℓ κ μ ν ξ} :
    {S : Type ℓ} {E : Type κ} {A : Type μ} {B : Type ν} (P : Result E B × S → Type ξ)
    (m : Action S E A) (next : A → Action S E B) (s : S)
    → (m s).1 ≡ s
    → ((e : E) → (m s).0 ≡ err e → P (err e, s))
    → ((m s).0 ≡ panic → P (panic, s))
    → ((a : A) → (m s).0 ≡ ok a → P (next a s))
    → P ((m >>= next) s)
after_read P m next s keeps fails panics k = elim (Result-cases (m s).0) [
  | inl (a, e) ↦ rw (e, keeps) (k a e)
  | inr (inl (x, e)) ↦ rw (e, keeps) (fails x e)
  | inr (inr e) ↦ rw (e, keeps) (panics e)
]

-- If a chain succeeds, so does its first part, and the rest succeeds on what that returns.
pub run_inv {ℓ κ μ ν} :
    {S : Type ℓ} {E : Type κ} {A : Type μ} {B : Type ν} (m : Action S E A) (next : A → Action S E B)
    (s : S) {y : B} {s' : S}
    → (m >>= next) s ≡ (ok y, s')
    → (x : A) × ((m s).0 ≡ ok x) × (next x (m s).1 ≡ (ok y, s'))
run_inv m next s done = elim (Result-cases (m s).0) [
  | inl (x, e) ↦ (x, e, rw e at done)
  | inr (inl (x, e)) ↦ let bad = rw e at done in cc
  | inr (inr e) ↦ let bad = rw e at done in cc
]

pub ensure-eq-ok {ℓ κ} :
    {S : Type ℓ} {E : Type κ} (b : Bool) (e : E) (s : S) {u : Unit {0}}
    → (ensure b e s).0 ≡ ok u
    → b ≡ true
ensure-eq-ok true e s h = refl
ensure-eq-ok false e s h = cc

pub check-keeps {ℓ κ} : {S : Type ℓ} (E : Type κ) (b : Bool) (s : S) → (check {E = E} b s).1 ≡ s
check-keeps E true s = refl
check-keeps E false s = refl

pub ensure-keeps {ℓ κ} : {S : Type ℓ} {E : Type κ} (b : Bool) (e : E) (s : S) → (ensure b e s).1 ≡ s
ensure-keeps true e s = refl
ensure-keeps false e s = refl

-- Two chains that begin by the same reading agree if what follows agrees on what that returns.
pub read_cong {ℓ κ μ ν} :
    {S : Type ℓ} {E : Type κ} {A : Type μ} {B : Type ν} (m : Action S E A) (f g : A → Action S E B)
    (s : S)
    → (m s).1 ≡ s
    → ((a : A) → (m s).0 ≡ ok a → f a s ≡ g a s)
    → (m >>= f) s ≡ (m >>= g) s
read_cong m f g s keeps same = elim (Result-cases (m s).0) [
  | inl (a, e) ↦ rw (e, keeps) (same a e)
  | inr (inl (x, e)) ↦ rw e refl
  | inr (inr e) ↦ rw e refl
]
