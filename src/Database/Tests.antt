-- ===== src/Database/Tests.antt =====
-- Values there and back, with BigInt as parseInt of a sign and digits, and an encoding of
-- four units to a byte.
use bunny_cli_fork.Common.{
  zero, suc, ◌%◌, Option, none, some, [], ◌∷◌, Text, codes, length, ◌≡◌, refl, ap, arith,
}
use bunny_cli_fork.Common.Exec.{ok, thrown}
use bunny_cli_fork.Common.Decimal.{print, print_fuel}
use bunny_cli_fork.Common.ParseInt.{Parsed, parse_int, parse_int-print, parse_int-minus}
use bunny_cli_fork.Common.ParseInt
use bunny_cli_fork.Database.Values.{
  Integer, plus, minus, Value, big, wire_integer, print_integer, is_past_int64, encode_value,
  decode_value, out_of_range,
}
use bunny_cli_fork.Database.Stored.{unsigned_zero, stored, decode_value-encode_value}

abbrev integer_of : Parsed → Option Integer
integer_of ParseInt.not_a_number = none
integer_of (ParseInt.plus n) = some (plus n)
integer_of (ParseInt.minus n) = some (minus n)

abbrev big_int : Text → Option Integer
big_int t = integer_of (parse_int t)

reads : (z : Integer) → big_int (print_integer z) ≡ some (unsigned_zero z)
unfolding print_integer
reads (plus n) = ap integer_of (parse_int-print n)
reads (minus zero) = ap integer_of (parse_int-print 0)
reads (minus (suc n)) = ap integer_of (parse_int-minus (suc n))

range_test :
    encode_value {F = Text} big_int (λ t. t) (λ t. some t) (big (plus 9223372036854775808))
    ≡ thrown (out_of_range (plus 9223372036854775808))
unfolding encode_value is_past_int64
range_test = refl

-- Four units for every byte.
abbrev fourfold : Text → Text
fourfold [] = []
fourfold (c ∷ s) = c ∷ c ∷ c ∷ c ∷ fourfold s

abbrev every_fourth : Text → Text
every_fourth (a ∷ b ∷ c ∷ d ∷ s) = a ∷ every_fourth s
every_fourth _ = []

abbrev unfolded : Text → Option Text
unfolded s = some (every_fourth s)

every_fourth-fourfold : (s : Text) → every_fourth (fourfold s) ≡ s
every_fourth-fourfold [] = refl
every_fourth-fourfold (c ∷ s) = ap (λ t. c ∷ t) (every_fourth-fourfold s)

length-fourfold : (s : Text) → length (fourfold s) % 4 ≡ 0
length-fourfold [] = refl
length-fourfold (c ∷ s) = omega (arith, length-fourfold s)

-- An integer that no double holds.
abbrev large : Value Text
large = big (plus 9007199254740993)

large_test :
    encode_value big_int fourfold unfolded large ≡ ok (wire_integer (codes "9007199254740993"))
unfolding encode_value is_past_int64 print_integer print print_fuel
large_test = refl

decode_value-encode_value_example :
    decode_value big_int fourfold unfolded (wire_integer (codes "9007199254740993"))
    ≡ ok (stored large)
decode_value-encode_value_example =
    decode_value-encode_value big_int fourfold unfolded reads length-fourfold
      (λ s h. ap some (every_fourth-fourfold s)) large tt (wire_integer (codes "9007199254740993"))
      large_test
