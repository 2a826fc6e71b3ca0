-- ===== src/Rest/Platform.antt =====
-- What the REST package takes from its host: JavaScript's numbers, the values that `req.json()`
-- returns, `decodeURIComponent`, and the rows of a database.
use bunny_cli_fork.Common.{ℕ, Bool, Option, List, Text, ◌⊎◌, not, ◌&&◌, ◌==◌, all, ◌≡◌, true}

-- What a body's value is by `typeof`, `Array.isArray` and a comparison with null.
pub data Shape (J : Type 0) : Type 0 where
  null scalar : Shape J
  object : List (Text × J) → Shape J
  array : List J → Shape J

pub record Platform : Type 1 where
  pub Number : Type 0
  pub to_number : Text → Number
  pub parse_int : Text → Number
  pub is_nan : Number → Bool
  pub show : Number → Text
  pub of_ℕ : ℕ → Number
  pub add : Number → Number → Number
  pub sub : Number → Number → Number
  pub Json : Type 0
  pub shape : Json → Shape Json
  -- `none`: a URIError is thrown.
  pub decode_uri : Text → Option Text
  pub Row : Type 0
  -- `Number(row.count)`; `none` where the column is null or missing.
  pub count_of : Row → Option Number

-- The text of a number holds no quotation mark and no question mark.
abbrev pub ShowsPlain : Platform → Type 0
ShowsPlain p = (n : p.Number) → all (λ c. not (c == b'"') && not (c == b'?')) (p.show n) ≡ true

module _ (p : Platform) where
  -- string | number
  abbrev pub Scalar : Type 0
  Scalar = Text ⊎ p.Number

  -- A filter's value.
  pub data Value : Type 0 where
    str : Text → Value
    num : p.Number → Value
    bool : Bool → Value
    nil : Value
    many : List (Text ⊎ p.Number) → Value

  -- What is bound to a placeholder: a filter's value or a field of a body.
  pub data Arg : Type 0 where
    value : Value → Arg
    field : p.Json → Arg
