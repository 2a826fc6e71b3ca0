-- ===== src/Common/Decimal.antt =====
-- Numbers as decimal digits: `String(n)` and `Number.parseInt(digits, 10)` below 2 ^ 53.
use Prim.Native.Nat.{ℕ, zero, suc, ◌+◌, ◌-◌, ◌*◌, ◌/◌, ◌%◌, ◌<◌}
use mathlib.Core.Path.{◌≡◌, refl, ◌∙◌}
use mathlib.Core.Logic.{inl, inr}
use mathlib.Core.Bool.{true}
use mathlib.Core.List.{[], ◌∷◌, ◌++◌}
use native.Mathlib.Omega.{arith}
use bunny_cli_fork.Common.Tests.{ltb, if◌then◌else◌, Bool-cases, &&-join}
use bunny_cli_fork.Common.Lists.{all, all-append}
use bunny_cli_fork.Common.Chars.{is_digit}
use bunny_cli_fork.Common.Strings.{Text}

-- The digits of a number below `10 ^ fuel`.
unfoldable pub print_fuel : ℕ → ℕ → Text
print_fuel zero n = []
print_fuel (suc f) n =
    let more = print_fuel f (n / 10) ++ (48 + n % 10) ∷ [] in
    if ltb n 10 then (48 + n) ∷ [] else more

-- String(n): `n + 1` rounds are always enough.
unfoldable pub print : ℕ → Text
unfolding print_fuel
print n = print_fuel (n + 1) n

unfoldable pub parse_from : ℕ → Text → ℕ
parse_from acc [] = acc
parse_from acc (c ∷ s) = parse_from (acc * 10 + (c - 48)) s

-- The number that a run of digits stands for.
unfoldable pub parse : Text → ℕ
unfolding parse_from
parse s = parse_from 0 s

parse_from-append :
    (acc : ℕ) (s : Text) (c : ℕ) → parse_from acc (s ++ c ∷ []) ≡ parse_from acc s * 10 + (c - 48)
unfolding parse_from
parse_from-append acc [] c = refl
parse_from-append acc (d ∷ s) c = parse_from-append (acc * 10 + (d - 48)) s c

parse-print_fuel : (f n : ℕ) → n < f → parse_from 0 (print_fuel f n) ≡ n
unfolding print_fuel parse_from
parse-print_fuel zero n h = elim h [ ]
parse-print_fuel (suc f) n h = elim (Bool-cases (ltb n 10)) [
  | inl small ↦ rw small (omega arith)
  | inr large ↦ rw large (
      parse_from-append 0 (print_fuel f (n / 10)) (48 + n % 10)
      ∙ omega (arith, parse-print_fuel f (n / 10) (ground arith)))
]

-- A number is read back from its digits.
pub parse-print : (n : ℕ) → parse (print n) ≡ n
unfolding parse print
parse-print n = parse-print_fuel (n + 1) n (omega arith)

print_fuel-digits : (f n : ℕ) → all is_digit (print_fuel f n) ≡ true
unfolding print_fuel is_digit
print_fuel-digits zero n = refl
print_fuel-digits (suc f) n = elim (Bool-cases (ltb n 10)) [
  | inl small ↦ rw small (ground arith)
  | inr large ↦ rw (large, all-append) (&&-join _ _ (print_fuel-digits f (n / 10)) (ground arith))
]

pub print-digits : (n : ℕ) → all is_digit (print n) ≡ true
unfolding print
print-digits n = print_fuel-digits (n + 1) n

-- A zero in front changes nothing.
pub parse-zero : (s : Text) → parse (48 ∷ s) ≡ parse s
unfolding parse parse_from
parse-zero s = refl
