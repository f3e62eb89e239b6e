-- ===== src/Prelude/Text/Decimal.antt =====
-- `u64::to_string` and `str::parse::<u64>`.
use Prim.Native.Nat.{ℕ, zero, suc, ◌+◌, ◌-◌, ◌*◌, ◌/◌, ◌%◌, ◌≤◌, ◌<◌}
use mathlib.Core.Path.{◌≡◌, refl, sym, ap, ◌∙◌}
use mathlib.Core.Logic.{inl, inr}
use mathlib.Core.Bool.{true, false, ◌&&◌}
use mathlib.Core.Option.{Option, none, some}
use mathlib.Core.List.{[], ◌∷◌}
use native.Mathlib.Omega.{arith}
use dojjo.Prelude.Tests.{ltb, nat_eq, if◌then◌else◌, Bool-cases}
use dojjo.Prelude.Text.{Text, is_ascii_digit}

abbrev pub u64_limit : ℕ
u64_limit = 0x1_0000_0000_0000_0000

-- The digit of a number below ten.
abbrev pub digit_char : ℕ → ℕ
digit_char d = b'0' + d

-- The last digit first; every round drops one, so the number itself is enough fuel.
unfoldable pub print_digits : ℕ → ℕ → Text → Text
print_digits zero n acc = acc
print_digits (suc fuel) n acc =
    let rest = print_digits fuel (n / 10) (digit_char (n % 10) ∷ acc) in
    if ltb n 10 then digit_char (n % 10) ∷ acc else rest

unfoldable pub to_string : ℕ → Text
unfolding print_digits
to_string n = print_digits (suc n) n []

unfoldable pub parse_digits : Text → ℕ → Option ℕ
parse_digits [] n = some n
parse_digits (c ∷ s) n =
    let rest = parse_digits s (n * 10 + (c - b'0')) in
    if is_ascii_digit c && ltb (n * 10 + (c - b'0')) u64_limit then rest else none

-- An optional plus sign, and at least one digit.
unfoldable pub parse_u64 : Text → Option ℕ
unfolding parse_digits
parse_u64 [] = none
parse_u64 (c ∷ []) = parse_digits (c ∷ []) 0
parse_u64 (c ∷ d ∷ s) = if nat_eq c b'+' then parse_digits (d ∷ s) 0 else parse_digits (c ∷ d ∷ s) 0

parse_digit :
    (d m : ℕ) (acc : Text)
    → d < 10
    → m * 10 + d < u64_limit
    → parse_digits (digit_char d ∷ acc) m ≡ parse_digits acc (m * 10 + d)
unfolding parse_digits
parse_digit d m acc h k =
    let same : m * 10 + (digit_char d - b'0') ≡ m * 10 + d = omega arith in
    let is_digit : is_ascii_digit (digit_char d) ≡ true = ground (arith, h) in
    let fits : ltb (m * 10 + d) u64_limit ≡ true = ground (arith, k) in
    rw (same, is_digit, fits) refl

parse-print_digits :
    (fuel n : ℕ) (acc : Text)
    → n < u64_limit
    → n < fuel
    → parse_digits (print_digits fuel n acc) 0 ≡ parse_digits acc n
unfolding parse_digits print_digits
parse-print_digits zero n acc h k = absurd (omega (arith, k))
parse-print_digits (suc fuel) n acc h k = elim (Bool-cases (ltb n 10)) [
  | inl small ↦
      let small_n : n < 10 = ground (arith, small) in
      let d : n % 10 ≡ n = omega (arith, small_n) in
      rw (small, d)
        (parse_digit n 0 acc small_n (omega (arith, h)) ∙ ap (parse_digits acc) (omega arith))
  | inr large ↦
      let large_n : 10 ≤ n = ground (arith, large) in
      rw large (
        parse-print_digits fuel (n / 10) (digit_char (n % 10) ∷ acc) (omega (arith, h))
          (omega (arith, large_n, k))
        ∙ parse_digit (n % 10) (n / 10) acc (omega arith) (omega (arith, h))
        ∙ ap (parse_digits acc) (omega arith))
]

print_digits-head :
    (fuel n : ℕ) (acc : Text)
    → n < fuel
    → (c : ℕ) × (s : Text) × (print_digits fuel n acc ≡ c ∷ s) × (nat_eq c b'+' ≡ false)
unfolding print_digits
print_digits-head zero n acc k = absurd (omega (arith, k))
print_digits-head (suc fuel) n acc k = elim (Bool-cases (ltb n 10)) [
  | inl small ↦ (digit_char (n % 10), acc, rw small refl, ground arith)
  | inr large ↦
      let large_n : 10 ≤ n = ground (arith, large) in
      let (c, s, e, sign) =
        print_digits-head fuel (n / 10) (digit_char (n % 10) ∷ acc) (omega (arith, large_n, k)) in
      (c, s, rw large e, sign)
]

parse_unsigned :
    (c : ℕ) (s : Text) → nat_eq c b'+' ≡ false → parse_u64 (c ∷ s) ≡ parse_digits (c ∷ s) 0
unfolding parse_u64
parse_unsigned c [] h = refl
parse_unsigned c (d ∷ s) h = rw h refl

-- A printed 64-bit number is parsed back.
pub parse-to_string : (n : ℕ) → n < u64_limit → parse_u64 (to_string n) ≡ some n
unfolding to_string
parse-to_string n h =
    let (c, s, e, sign) = print_digits-head (suc n) n [] (omega arith) in
    ap parse_u64 e
    ∙ parse_unsigned c s sign
    ∙ ap (λ t. parse_digits t 0) (sym e)
    ∙ parse-print_digits (suc n) n [] h (omega arith)
    ∙ unfold parse_digits in refl
