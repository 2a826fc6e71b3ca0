-- ===== src/Common/Strings.antt =====
-- Strings as lists of code units, with the string methods that the program calls.
use Prim.Native.Nat.{ℕ, suc}
use Prim.Native.Char.{code}
use Prim.Native.String.{String}
use mathlib.Core.Path.{◌≡◌, refl}
use mathlib.Core.Logic.{◌↔◌}
use mathlib.Core.Bool.{Bool, true, false, ◌&&◌, ◌||◌}
use mathlib.Core.Option.{Option, none, some}
use mathlib.Core.List.{List, [], ◌∷◌, ◌++◌, map, reverse}
use native.Mathlib.Omega.{arith}
use bunny_cli_fork.Common.Tests.{ltb, ◌==◌, if◌then◌else◌}
use bunny_cli_fork.Common.Chars.{is_space, lower}

abbrev pub Text : Type 0
Text = List ℕ

-- A literal of the source, as code units.
abbrev pub codes : String → Text
codes String.[] = []
codes (String.◌∷◌ c s) = code c ∷ codes s

-- a === b
unfoldable pub text_eq : Text → Text → Bool
text_eq [] [] = true
text_eq (a ∷ s) (b ∷ t) = a == b && text_eq s t
text_eq _ _ = false

pub text_eq_refl : (s : Text) → text_eq s s ≡ true
unfolding text_eq
text_eq_refl [] = refl
text_eq_refl (a ∷ s) = ground (arith, text_eq_refl s)

pub eq_of_text_eq : (s t : Text) → text_eq s t ≡ true → s ≡ t
unfolding text_eq
eq_of_text_eq [] [] h = refl
eq_of_text_eq [] (b ∷ t) h = cc
eq_of_text_eq (a ∷ s) [] h = cc
eq_of_text_eq (a ∷ s) (b ∷ t) h = ground (arith, eq_of_text_eq s t)

pub text_eq_iff : (s t : Text) → (text_eq s t ≡ true) ↔ (s ≡ t)
text_eq_iff s t = (eq_of_text_eq s t, λ e. ground (arith, text_eq_refl s))

-- a < b, by code units.
unfoldable pub text_lt : Text → Text → Bool
text_lt _ [] = false
text_lt [] (b ∷ t) = true
text_lt (a ∷ s) (b ∷ t) = ltb a b || (a == b && text_lt s t)

-- s.startsWith(p)
unfoldable pub starts_with : Text → Text → Bool
starts_with s [] = true
starts_with [] (b ∷ p) = false
starts_with (a ∷ s) (b ∷ p) = a == b && starts_with s p

-- s.indexOf(c) for one code unit; `none` is -1.
unfoldable pub index_of : ℕ → Text → Option ℕ
index_of c [] = none
index_of c (a ∷ s) =
    if a == c then some 0 else elim (index_of c s) [ none ↦ none | some i ↦ some (suc i) ]

-- s.split(c)
unfoldable pub split : ℕ → Text → List Text
split c [] = [] ∷ []
split c (a ∷ s) = elim (split c s) [
  | [] ↦ [] ∷ []
  | p ∷ ps ↦ if a == c then [] ∷ p ∷ ps else (a ∷ p) ∷ ps
]

-- parts.join(sep)
unfoldable pub join : Text → List Text → Text
join sep [] = []
join sep (p ∷ []) = p
join sep (p ∷ q ∷ ps) = p ++ (sep ++ join sep (q ∷ ps))

-- The text without the units of a class at its start, at its end, and at both.
unfoldable pub strip_start : (ℕ → Bool) → Text → Text
strip_start p [] = []
strip_start p (a ∷ s) = let rest = strip_start p s in if p a then rest else a ∷ s

unfoldable pub strip_end : (ℕ → Bool) → Text → Text
strip_end p s = reverse (strip_start p (reverse s))

unfoldable pub strip : (ℕ → Bool) → Text → Text
strip p s = strip_end p (strip_start p s)

-- s.trimStart()
unfoldable pub trim_start : Text → Text
unfolding strip_start is_space
trim_start s = strip_start is_space s

-- s.trim()
unfoldable pub trim : Text → Text
unfolding strip_start strip_end strip is_space
trim s = strip is_space s

-- s.toLowerCase(), on the letters of ASCII.
unfoldable pub to_lower : Text → Text
to_lower s = map lower s
