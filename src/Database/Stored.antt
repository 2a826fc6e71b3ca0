-- ===== src/Database/Stored.antt =====
-- What a value is once it was stored and read back.
use bunny_cli_fork.Common.{
  ℕ, zero, suc, ◌-◌, ◌%◌, ◌≤◌, ◌<◌, true, false, Option, some, List, [], ◌∷◌, ◌++◌, map, append-nil,
  if◌then◌else◌, Text, length, take, drop, All, Bool-cases, ◌≡◌, refl, sym, ap, ◌∙◌, subst, inl,
  inr, arith,
}
use bunny_cli_fork.Common.Exec.{Result, ok, thrown}
use bunny_cli_fork.Common.Decimal.{print, print_fuel}
use bunny_cli_fork.Database.Values.{
  Integer, plus, minus, Double, whole, fraction, not_finite, Value, null, undefined, date, unknown,
  boolean, big, number, text, blob, WireValue, Problem, print_integer, is_past_int64, is_safe,
  join_chunks, padding, bytes_to_base64, base64_to_bytes, encode_number, encode_value, narrow,
  read_integer, read_blob, padded, bytes_of, decode_integer, decode_blob, decode_value,
}

-- The same number without a sign on zero.
abbrev pub unsigned_zero : Integer → Integer
unsigned_zero (plus n) = plus n
unsigned_zero (minus zero) = plus 0
unsigned_zero (minus (suc n)) = minus (suc n)

take-drop : (n : ℕ) (xs : List ℕ) → take n xs ++ drop n xs ≡ xs
take-drop zero xs = refl
take-drop (suc n) [] = refl
take-drop (suc n) (x ∷ xs) = ap (λ l. x ∷ l) (take-drop n xs)

length-drop : (n : ℕ) (xs : List ℕ) → length (drop n xs) ≤ length xs
length-drop zero xs = omega arith
length-drop (suc n) [] = omega arith
length-drop (suc n) (x ∷ xs) = omega (arith, length-drop n xs)

length-drop_cons : (n b : ℕ) (xs : List ℕ) → 1 ≤ n → length (drop n (b ∷ xs)) ≤ length xs
length-drop_cons zero b xs h = absurd (omega arith)
length-drop_cons (suc n) b xs h = length-drop n xs

join_chunks-all :
    (chunk rounds : ℕ) (bytes : List ℕ)
    → 1 ≤ chunk
    → length bytes ≤ rounds
    → join_chunks chunk rounds bytes ≡ bytes
unfolding join_chunks
join_chunks-all chunk zero [] c h = refl
join_chunks-all chunk zero (b ∷ bytes) c h = absurd (omega arith)
join_chunks-all chunk (suc rounds) [] c h = refl
join_chunks-all chunk (suc rounds) (b ∷ bytes) c h =
    ap (λ l. take chunk (b ∷ bytes) ++ l)
      (join_chunks-all chunk rounds (drop chunk (b ∷ bytes)) c
        (omega (arith, h, length-drop_cons chunk b bytes c)))
    ∙ take-drop chunk (b ∷ bytes)

whole_bytes : (bytes : List ℕ) → All (λ b. b < 256) bytes → map (λ c. c % 256) bytes ≡ bytes
whole_bytes [] h = refl
whole_bytes (b ∷ bytes) (l, h) =
    ap (λ n. n ∷ map (λ c. c % 256) bytes) {x = b % 256} {y = b} (omega (arith, l))
    ∙ ap (λ l. b ∷ l) (whole_bytes bytes h)

is_safe-unsigned : (z : Integer) → is_safe (unsigned_zero z) ≡ is_safe z
unfolding is_safe
is_safe-unsigned (plus n) = refl
is_safe-unsigned (minus zero) = ground arith
is_safe-unsigned (minus (suc n)) = refl

-- What is read back: booleans are integers, an integer is a number where it is exact and a BigInt
-- otherwise, and zero has no sign.
abbrev pub stored : {F : Type 0} → Value F → Value F
stored (boolean b) = number (whole (plus (if b then 1 else 0)))
stored (big z) = if is_safe z then number (whole (unsigned_zero z)) else big (unsigned_zero z)
stored (number (whole z)) = if is_safe z then number (whole (unsigned_zero z)) else number (whole z)
stored v = v

-- The elements of a byte array are bytes.
abbrev pub HoldsBytes : {F : Type 0} → Value F → Type 0
HoldsBytes (blob bytes) = All (λ b. b < 256) bytes
HoldsBytes v = Unit

padded-fours : (s : Text) → length s % 4 ≡ 0 → padded s ≡ s
unfolding padded
padded-fours s h = ap (λ n. s ++ padding ((4 - n) % 4)) h ∙ (unfold padding in append-nil s)

bytes-round_trip :
    (btoa : Text → Text) (atob : Text → Option Text)
    → ((s : Text) → length (btoa s) % 4 ≡ 0)
    → ((s : Text) → All (λ c. c < 256) s → atob (btoa s) ≡ some s)
    → (bytes : List ℕ) → All (λ b. b < 256) bytes
    → base64_to_bytes atob (bytes_to_base64 btoa bytes) ≡ some bytes
unfolding base64_to_bytes bytes_to_base64
bytes-round_trip btoa atob fours undone bytes h =
    ap (λ s. bytes_of (atob (padded (btoa s))))
      (join_chunks-all 0x8000 (length bytes) bytes (omega arith) (omega arith))
    ∙ ap (λ s. bytes_of (atob s)) (padded-fours (btoa bytes) (fours bytes))
    ∙ ap bytes_of (undone bytes h)
    ∙ whole bytes h
  where
    whole : (bytes : List ℕ) → All (λ b. b < 256) bytes → bytes_of (some bytes) ≡ some bytes
    whole bytes h = unfold bytes_of in ap some (whole_bytes bytes h)

module _ {F : Type 0} (big_int : Text → Option Integer) (btoa : Text → Text)
    (atob : Text → Option Text)
    (reads : (z : Integer) → big_int (print_integer z) ≡ some (unsigned_zero z))
    (fours : (s : Text) → length (btoa s) % 4 ≡ 0)
    (undone : (s : Text) → All (λ c. c < 256) s → atob (btoa s) ≡ some s) where
  abbrev ReadsBack : Value F → Result Problem (WireValue F) → Type 0
  ReadsBack v (ok w) = decode_value big_int btoa atob w ≡ ok (stored v)
  ReadsBack v (thrown e) = Unit

  decode_integer-stored :
      (z : Integer)
      → decode_integer {F = F} big_int btoa atob (print_integer z)
        ≡ ok (if is_safe z then number (whole (unsigned_zero z)) else big (unsigned_zero z))
  unfolding decode_integer read_integer narrow
  decode_integer-stored z =
      ap (read_integer {F = F} (print_integer z)) (reads z)
      ∙ ap (λ b. ok (if b then number (whole (unsigned_zero z)) else big (unsigned_zero z)))
          (is_safe-unsigned z)

  number-ReadsBack : (x : Double F) → ReadsBack (number x) (encode_number x)
  unfolding encode_number decode_value
  number-ReadsBack not_finite = tt
  number-ReadsBack (fraction x) = refl
  number-ReadsBack (whole z) = elim (Bool-cases (is_safe z)) [
    | inl e ↦ rw e (
        decode_integer-stored z
        ∙ ap (λ b. ok (if b then number (whole (unsigned_zero z)) else big (unsigned_zero z))) e
        ∙ sym (ap (λ b. ok (if b then number (whole (unsigned_zero z)) else number (whole z))) e))
    | inr e ↦
        rw e
          (sym (ap (λ b. ok (if b then number (whole (unsigned_zero z)) else number (whole z))) e))
  ]

  encode_value-ReadsBack :
      (v : Value F) → HoldsBytes v → ReadsBack v (encode_value big_int btoa atob v)
  unfolding encode_value decode_value decode_blob
  encode_value-ReadsBack null h = refl
  encode_value-ReadsBack undefined h = tt
  encode_value-ReadsBack date h = tt
  encode_value-ReadsBack unknown h = tt
  encode_value-ReadsBack (text t) h = refl
  encode_value-ReadsBack (number x) h = number-ReadsBack x
  encode_value-ReadsBack (boolean true) h =
      unfold is_safe print_integer print print_fuel in decode_integer-stored (plus 1)
  encode_value-ReadsBack (boolean false) h =
      unfold is_safe print_integer print print_fuel in decode_integer-stored (plus 0)
  encode_value-ReadsBack (big z) h = elim (Bool-cases (is_past_int64 z)) [
    | inl e ↦ rw e tt
    | inr e ↦ rw e (decode_integer-stored z)
  ]
  encode_value-ReadsBack (blob bytes) h =
      unfold read_blob in
      ap (read_blob {F = F} (bytes_to_base64 btoa bytes))
        (bytes-round_trip btoa atob fours undone bytes h)

  -- A value that can be sent is read back as what it is once stored, where BigInt reads back the
  -- digits of an integer, and atob undoes btoa, whose texts have a length divisible by four.
  pub decode_value-encode_value :
      (v : Value F)
      → HoldsBytes v
      → (w : WireValue F) → encode_value big_int btoa atob v ≡ ok w
      → decode_value big_int btoa atob w ≡ ok (stored v)
  decode_value-encode_value v h w e = subst (ReadsBack v) e (encode_value-ReadsBack v h)
