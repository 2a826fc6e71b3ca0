-- ===== src/Common/ParseInt.antt =====
-- `Number.parseInt(text, 10)`.
use Prim.Native.Nat.{ℕ, zero, suc, ◌<◌, ◌+◌, ◌/◌, ◌%◌}
use mathlib.Core.Path.{◌≡◌, refl, sym, ap, ◌∙◌}
use mathlib.Core.Logic.{inl, inr}
use mathlib.Core.Bool.{true, false}
use mathlib.Core.List.{[], ◌∷◌, ◌++◌}
use native.Mathlib.Omega.{arith}
use bunny_cli_fork.Common.Tests.{◌==◌, ltb, if◌then◌else◌, &&-split, Bool-cases}
use bunny_cli_fork.Common.Lists.{all}
use bunny_cli_fork.Common.Chars.{is_digit, is_space}
use bunny_cli_fork.Common.Strings.{Text, trim_start, strip_start}
use bunny_cli_fork.Common.Decimal.{parse, print, print_fuel, parse-print, print-digits}

-- NaN, or the integer with its sign.
pub data Parsed : Type 0 where
  not_a_number : Parsed
  plus minus : ℕ → Parsed

-- The digits that a text starts with.
unfoldable pub leading_digits : Text → Text
unfolding is_digit
leading_digits [] = []
leading_digits (c ∷ s) = let rest = leading_digits s in if is_digit c then c ∷ rest else []

unfoldable pub magnitude : (ℕ → Parsed) → Text → Parsed
unfolding parse
magnitude sign [] = not_a_number
magnitude sign (c ∷ s) = sign (parse (c ∷ s))

unfoldable pub signed : Text → Parsed
unfolding leading_digits magnitude
signed [] = not_a_number
signed (c ∷ s) =
    if c == b'-'
    then magnitude minus (leading_digits s)
    else if c == b'+'
    then magnitude plus (leading_digits s)
    else magnitude plus (leading_digits (c ∷ s))

unfoldable pub parse_int : Text → Parsed
unfolding signed trim_start
parse_int s = signed (trim_start s)

leading_digits-all : (s : Text) → all is_digit s ≡ true → leading_digits s ≡ s
unfolding leading_digits
leading_digits-all [] h = refl
leading_digits-all (c ∷ s) h =
    let (a, b) = &&-split (is_digit c) (all is_digit s) h in rw a (rw (leading_digits-all s b) refl)

digit_not_sign : (c : ℕ) → is_digit c ≡ true → ((c == b'-') ≡ false) × ((c == b'+') ≡ false)
unfolding is_digit
digit_not_sign c h = (ground arith, ground arith)

digit_not_space : (c : ℕ) → is_digit c ≡ true → is_space c ≡ false
unfolding is_digit is_space
digit_not_space c h = ground arith

-- A run of digits is read as its number.
pub parse_int-digits :
    (c : ℕ) (s : Text) → all is_digit (c ∷ s) ≡ true → parse_int (c ∷ s) ≡ plus (parse (c ∷ s))
unfolding parse_int trim_start strip_start
parse_int-digits c s h =
    let (a, b) = &&-split (is_digit c) (all is_digit s) h in
    let (m, p) = digit_not_sign c a in
    rw (digit_not_space c a)
      (unfold signed in rw m (rw p (rw (leading_digits-all (c ∷ s) h) (unfold magnitude in refl))))

append-HasUnit : (s : Text) (a : ℕ) → (c : ℕ) × (t : Text) × (s ++ a ∷ [] ≡ c ∷ t)
append-HasUnit [] a = (a, [], refl)
append-HasUnit (c ∷ s) a = (c, s ++ a ∷ [], refl)

print_fuel-HasUnit : (f n : ℕ) → n < f → (c : ℕ) × (t : Text) × (print_fuel f n ≡ c ∷ t)
unfolding print_fuel
print_fuel-HasUnit zero n h = elim h [ ]
print_fuel-HasUnit (suc f) n h = elim (Bool-cases (ltb n 10)) [
  | inl small ↦ (48 + n, [], rw small refl)
  | inr large ↦ rw large (append-HasUnit (print_fuel f (n / 10)) (48 + n % 10))
]

print-HasUnit : (n : ℕ) → (c : ℕ) × (t : Text) × (print n ≡ c ∷ t)
unfolding print
print-HasUnit n = print_fuel-HasUnit (n + 1) n (omega arith)

-- A number is read back from its digits.
pub parse_int-print : (n : ℕ) → parse_int (print n) ≡ plus n
parse_int-print n =
    let (c, t, e) = print-HasUnit n in
    rw e (
      parse_int-digits c t (ap (all is_digit) (sym e) ∙ print-digits n)
      ∙ ap (λ u. plus (parse u)) (sym e)
      ∙ ap plus (parse-print n))

-- And behind a minus sign.
pub parse_int-minus : (n : ℕ) → parse_int (45 ∷ print n) ≡ minus n
unfolding parse_int trim_start strip_start is_space signed magnitude
parse_int-minus n =
    let (c, t, e) = print-HasUnit n in
    ap (magnitude minus) (leading_digits-all (print n) (print-digits n) ∙ e)
    ∙ ap (λ u. minus (parse u)) (sym e)
    ∙ ap minus (parse-print n)
