-- ===== src/Rest/Identifier.antt =====
-- A quoted identifier is read back as the name that it was written from.
use bunny_cli_fork.Common.{
  ℕ, Bool, true, false, not, Option, none, some, [], ◌∷◌, ◌++◌, ◌==◌, if◌then◌else◌, Text,
  Bool-cases, append_assoc, append-nil, ==→eq, ◌≡◌, refl, sym, ap, ◌∙◌, inl, inr,
}
use bunny_cli_fork.Rest.Sql.{double_quotes, quote_identifier}

-- How SQL reads an identifier behind its opening quotation mark: up to the first mark that is not
-- doubled, with what follows it.
unfoldable pub read_quoted : Text → Text → Option (Text × Text)
read_quoted acc [] = none
read_quoted acc (c ∷ []) = if c == b'"' then some (acc, []) else none
read_quoted acc (c ∷ d ∷ s) =
    let plain = read_quoted (acc ++ c ∷ []) (d ∷ s) in
    let doubled = read_quoted (acc ++ c ∷ []) s in
    if not (c == b'"') then plain else if d == b'"' then doubled else some (acc, d ∷ s)

unfoldable pub read_identifier : Text → Option (Text × Text)
unfolding read_quoted
read_identifier [] = none
read_identifier (c ∷ s) = if c == b'"' then read_quoted [] s else none

abbrev pub starts_quote : Text → Bool
starts_quote [] = false
starts_quote (c ∷ s) = c == b'"'

double_quotes-quote :
    (c : ℕ) (s : Text) → (c == b'"') ≡ true → double_quotes (c ∷ s) ≡ b'"' ∷ b'"' ∷ double_quotes s
unfolding double_quotes
double_quotes-quote c s h = rw h

double_quotes-plain :
    (c : ℕ) (s : Text) → (c == b'"') ≡ false → double_quotes (c ∷ s) ≡ c ∷ double_quotes s
unfolding double_quotes
double_quotes-plain c s h = rw h

read_plain :
    (acc : Text) (c d : ℕ) (s : Text)
    → (c == b'"') ≡ false
    → read_quoted acc (c ∷ d ∷ s) ≡ read_quoted (acc ++ c ∷ []) (d ∷ s)
unfolding read_quoted
read_plain acc c d s h = rw h

read_two : (acc s : Text) → read_quoted acc (b'"' ∷ b'"' ∷ s) ≡ read_quoted (acc ++ b'"' ∷ []) s
unfolding read_quoted
read_two acc s = refl

read_end :
    (acc rest : Text) → starts_quote rest ≡ false → read_quoted acc (b'"' ∷ rest) ≡ some (acc, rest)
unfolding read_quoted
read_end acc [] h = refl
read_end acc (d ∷ s) h = rw h

-- What stands before the closing mark has a first unit.
head_of : (name rest : Text) → (d : ℕ) × (s : Text) × (double_quotes name ++ b'"' ∷ rest ≡ d ∷ s)
unfolding double_quotes
head_of [] rest = (b'"', rest, refl)
head_of (c ∷ s) rest = elim (Bool-cases (c == b'"')) [
  | inl h ↦ (b'"', b'"' ∷ (double_quotes s ++ b'"' ∷ rest), rw h)
  | inr h ↦ (c, double_quotes s ++ b'"' ∷ rest, rw h)
]

read_step :
    (acc : Text) (c : ℕ) (t : Text)
    → (c == b'"') ≡ false
    → (d : ℕ) × (s : Text) × (t ≡ d ∷ s)
    → read_quoted acc (c ∷ t) ≡ read_quoted (acc ++ c ∷ []) t
read_step acc c t h (d, s, e) = rw e (read_plain acc c d s h)

read_doubled :
    (acc name rest : Text)
    → starts_quote rest ≡ false
    → read_quoted acc (double_quotes name ++ b'"' ∷ rest) ≡ some (acc ++ name, rest)
read_doubled acc [] rest h =
    unfold double_quotes in read_end acc rest h ∙ ap (λ t. some (t, rest)) (sym (append-nil acc))
read_doubled acc (c ∷ s) rest h = elim (Bool-cases (c == b'"')) [
  | inl same ↦ rw (double_quotes-quote c s same) (
      read_two acc (double_quotes s ++ b'"' ∷ rest)
      ∙ read_doubled (acc ++ b'"' ∷ []) s rest h
      ∙ ap (λ t. some (t, rest))
          (append_assoc acc (b'"' ∷ []) s ∙ ap (λ q. acc ++ q ∷ s) (sym (==→eq c b'"' same))))
  | inr other ↦ rw (double_quotes-plain c s other) (
      read_step acc c (double_quotes s ++ b'"' ∷ rest) other (head_of s rest)
      ∙ read_doubled (acc ++ c ∷ []) s rest h
      ∙ ap (λ t. some (t, rest)) (append_assoc acc (c ∷ []) s))
]

-- Whatever the name, the quoted identifier is read back as that name, and nothing of what follows,
-- where that does not begin with a quotation mark: no column name can end its own quotes.
pub read_identifier-quote_identifier :
    (name rest : Text)
    → starts_quote rest ≡ false
    → read_identifier (quote_identifier name ++ rest) ≡ some (name, rest)
unfolding read_identifier quote_identifier
read_identifier-quote_identifier name rest h =
    rw (append_assoc (double_quotes name) (b'"' ∷ []) rest) (read_doubled [] name rest h)
