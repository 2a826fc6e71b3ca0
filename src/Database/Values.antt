-- ===== src/Database/Values.antt =====
-- packages/database-client/src/protocol.ts: `encodeValue` and `decodeValue`. BigInt of a text, btoa and
-- atob are parameters, and so are the doubles that are not integral.
use bunny_cli_fork.Common.{
  ℕ, zero, suc, ◌-◌, ◌%◌, ◌^◌, Bool, not, Option, none, some, List, [], ◌∷◌, ◌++◌, map,
  if◌then◌else◌, ltb, Text, codes, length, take, drop,
}
use bunny_cli_fork.Common.Exec.{Result, ok, thrown}
use bunny_cli_fork.Common.Decimal.{print}

-- An integer by its sign and its magnitude; `minus 0` is the double -0.
pub data Integer : Type 0 where
  plus minus : ℕ → Integer

-- A double: integral, finite otherwise, or neither.
pub data Double (F : Type 0) : Type 0 where
  whole : Integer → Double F
  fraction : F → Double F
  not_finite : Double F

pub data Value (F : Type 0) : Type 0 where
  null undefined date unknown : Value F
  boolean : Bool → Value F
  big : Integer → Value F
  number : Double F → Value F
  text : Text → Value F
  blob : List ℕ → Value F

pub data WireValue (F : Type 0) : Type 0 where
  wire_null : WireValue F
  wire_integer : Text → WireValue F
  wire_float : Double F → WireValue F
  wire_text : Text → WireValue F
  wire_blob : Text → WireValue F

pub data Problem : Type 0 where
  no_undefined no_date no_type : Problem
  out_of_range : Integer → Problem
  no_finite_number : Problem
  bad_integer bad_base64 : Text → Problem

-- value.toString(), for a BigInt and for a safe integer
unfoldable pub print_integer : Integer → Text
print_integer (plus n) = print n
print_integer (minus zero) = print 0
print_integer (minus (suc n)) = b'-' ∷ print (suc n)

-- value > INT64_MAX || value < INT64_MIN
unfoldable pub is_past_int64 : Integer → Bool
is_past_int64 (plus n) = ltb (2 ^ 63 - 1) n
is_past_int64 (minus n) = ltb (2 ^ 63) n

-- Number.isSafeInteger(value)
unfoldable pub is_safe : Integer → Bool
is_safe (plus n) = not (ltb (2 ^ 53 - 1) n)
is_safe (minus n) = not (ltb (2 ^ 53 - 1) n)

-- The loop over chunks of bytes, of which the binary string is put together.
unfoldable pub join_chunks : ℕ → ℕ → List ℕ → Text
join_chunks chunk zero bytes = []
join_chunks chunk (suc rounds) [] = []
join_chunks chunk (suc rounds) (b ∷ bytes) =
    take chunk (b ∷ bytes) ++ join_chunks chunk rounds (drop chunk (b ∷ bytes))

-- "=".repeat(n)
unfoldable pub padding : ℕ → Text
padding zero = []
padding (suc n) = b'=' ∷ padding n

unfoldable pub bytes_to_base64 : (Text → Text) → List ℕ → Text
unfolding join_chunks
bytes_to_base64 btoa bytes = btoa (join_chunks 0x8000 (length bytes) bytes)

unfoldable pub padded : Text → Text
unfolding padding
padded base64 = base64 ++ padding ((4 - length base64 % 4) % 4)

-- A code unit of the binary string as a byte.
unfoldable pub bytes_of : Option Text → Option (List ℕ)
bytes_of none = none
bytes_of (some binary) = some (map (λ c. c % 256) binary)

unfoldable pub base64_to_bytes : (Text → Option Text) → Text → Option (List ℕ)
unfolding padded bytes_of
base64_to_bytes atob base64 = bytes_of (atob (padded base64))

unfoldable pub encode_number : {F : Type 0} → Double F → Result Problem (WireValue F)
unfolding is_safe print_integer
encode_number not_finite = thrown no_finite_number
encode_number (fraction x) = ok (wire_float (fraction x))
encode_number (whole z) =
    if is_safe z then ok (wire_integer (print_integer z)) else ok (wire_float (whole z))

-- A number where it is exact, and a BigInt where it would not be.
unfoldable pub narrow : {F : Type 0} → Integer → Value F
narrow z = if is_safe z then number (whole z) else big z

unfoldable pub read_integer : {F : Type 0} → Text → Option Integer → Result Problem (Value F)
unfolding narrow
read_integer t none = thrown (bad_integer t)
read_integer t (some z) = ok (narrow z)

unfoldable pub read_blob : {F : Type 0} → Text → Option (List ℕ) → Result Problem (Value F)
read_blob t none = thrown (bad_base64 t)
read_blob t (some bytes) = ok (blob bytes)

module _ {F : Type 0} (big_int : Text → Option Integer) (btoa : Text → Text)
    (atob : Text → Option Text) where
  unfoldable pub encode_value : Value F → Result Problem (WireValue F)
  unfolding encode_number is_past_int64 bytes_to_base64
  encode_value null = ok wire_null
  encode_value undefined = thrown no_undefined
  encode_value (boolean b) = ok (wire_integer (if b then codes "1" else codes "0"))
  encode_value (big z) =
      if is_past_int64 z then thrown (out_of_range z) else ok (wire_integer (print_integer z))
  encode_value (number x) = encode_number x
  encode_value (text t) = ok (wire_text t)
  encode_value (blob bytes) = ok (wire_blob (bytes_to_base64 btoa bytes))
  encode_value date = thrown no_date
  encode_value unknown = thrown no_type

  unfoldable pub decode_integer : Text → Result Problem (Value F)
  unfolding read_integer
  decode_integer t = read_integer t (big_int t)

  unfoldable pub decode_blob : Text → Result Problem (Value F)
  unfolding base64_to_bytes read_blob
  decode_blob t = read_blob t (base64_to_bytes atob t)

  unfoldable pub decode_value : WireValue F → Result Problem (Value F)
  unfolding decode_integer decode_blob
  decode_value wire_null = ok null
  decode_value (wire_text t) = ok (text t)
  decode_value (wire_float x) = ok (number x)
  decode_value (wire_blob t) = decode_blob t
  decode_value (wire_integer t) = decode_integer t
