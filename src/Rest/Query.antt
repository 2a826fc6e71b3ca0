-- ===== src/Rest/Query.antt =====
-- packages/database-rest/src/parser.ts
use bunny_cli_fork.Common.{
  ℕ, suc, Bool, true, false, not, ◌&&◌, ◌||◌, Option, none, some, List, [], ◌∷◌, map, any, filter,
  ◌==◌, if◌then◌else◌, Text, codes, text_eq, index_of, take, drop, split, trim, to_lower, is_empty,
  reverse, inl, inr,
}
use bunny_cli_fork.Rest.Platform.{Platform, Scalar, Value, str, num, bool, nil, many}

-- `inherited` is what the table of operators gives for a name that it has from Object.prototype.
pub data Operator : Type 0 where
  eq neq gt gte lt lte like ilike is in_list inherited : Operator

pub data Direction : Type 0 where
  asc desc : Direction

pub record OrderClause : Type 0 where
  pub column : Text
  pub direction : Direction
  pub nulls_first : Bool

-- The names that every object has.
abbrev pub object_names : List Text
object_names =
    codes "constructor"
    ∷ codes "__defineGetter__"
    ∷ codes "__defineSetter__"
    ∷ codes "hasOwnProperty"
    ∷ codes "__lookupGetter__"
    ∷ codes "__lookupSetter__"
    ∷ codes "isPrototypeOf"
    ∷ codes "propertyIsEnumerable"
    ∷ codes "toString"
    ∷ codes "valueOf"
    ∷ codes "__proto__"
    ∷ codes "toLocaleString"
    ∷ []

-- FILTER_OPERATORS
abbrev pub filter_operators : List (Text × Operator)
filter_operators =
    (codes "eq", eq)
    ∷ (codes "neq", neq)
    ∷ (codes "gt", gt)
    ∷ (codes "gte", gte)
    ∷ (codes "lt", lt)
    ∷ (codes "lte", lte)
    ∷ (codes "like", like)
    ∷ (codes "ilike", ilike)
    ∷ (codes "is", is)
    ∷ (codes "in", in_list)
    ∷ []

-- The first pair of a name, as `searchParams.get` and a lookup in an object literal find it.
unfoldable pub get {ℓ} : {A : Type ℓ} → Text → List (Text × A) → Option A
get k [] = none
get k ((j, a) ∷ m) = if text_eq j k then some a else get k m

unfoldable pub operator_of : Text → Option Operator
operator_of name = elim (get name filter_operators) [
  | some op ↦ some op
  | none ↦ if any (text_eq name) object_names then some inherited else none
]

-- RESERVED_PARAMS
unfoldable pub is_reserved : Text → Bool
is_reserved k =
    any (text_eq k) (codes "select" ∷ codes "order" ∷ codes "limit" ∷ codes "offset" ∷ [])

unfoldable pub parse_select : Option Text → List Text
parse_select none = []
parse_select (some s) =
    if is_empty s || text_eq s (codes "*")
    then []
    else filter (λ c. not (is_empty c)) (map trim (split b',' s))

-- A line terminator, which `.` does not match.
abbrev is_line_end : ℕ → Bool
is_line_end c = c == 10 || c == 13 || c == 0x2028 || c == 0x2029

-- The group of /^\((.+)\)$/, if that matches.
unfoldable pub parenthesised : Text → Option Text
parenthesised [] = none
parenthesised (c ∷ s) = elim (reverse s) [
  | [] ↦ none
  | d ∷ r ↦
      if c == b'(' && d == b')' && not (is_empty r) && not (any is_line_end r)
      then some (reverse r)
      else none
]

-- One comma-separated item: its column, its direction, and whether nulls come first.
unfoldable pub order_clause : List Text → OrderClause
order_clause [] = record { column = []; direction = asc; nulls_first = false }
order_clause (column ∷ []) = record { column = column; direction = asc; nulls_first = false }
order_clause (column ∷ second ∷ rest) = record {
  column = column;
  direction = if text_eq (to_lower second) (codes "desc") then desc else asc;
  nulls_first = any (λ s. text_eq (to_lower s) (codes "nullsfirst")) (second ∷ rest);
}

unfoldable pub parse_order : Option Text → List OrderClause
parse_order none = []
parse_order (some s) =
    if is_empty s
    then []
    else filter (λ (o : OrderClause). not (is_empty o.column))
        (map (λ part. order_clause (split b'.' (trim part))) (split b',' s))

module _ (p : Platform) where
  pub record FilterCondition : Type 0 where
    pub column : Text
    pub operator : Operator
    pub value : Value p

  pub record ParsedQuery : Type 0 where
    pub select : List Text
    pub filters : List FilterCondition
    pub order : List OrderClause
    pub limit : Option p.Number
    pub offset : Option p.Number

  unfoldable pub in_value : Text → Scalar p
  in_value v =
      let trimmed = trim v in
      let n = p.to_number trimmed in if p.is_nan n then inl trimmed else inr n

  unfoldable pub parse_in_values : Text → List (Scalar p)
  parse_in_values raw = elim (parenthesised raw) [
    | none ↦ inl raw ∷ []
    | some inner ↦ map in_value (split b',' inner)
  ]

  unfoldable pub parse_is_value : Text → Value p
  parse_is_value raw =
      let lower = to_lower raw in
      if text_eq lower (codes "null")
      then nil
      else if text_eq lower (codes "true")
      then bool true
      else if text_eq lower (codes "false")
      then bool false
      else nil

  unfoldable pub parse_value : Text → Value p
  parse_value raw =
      let n = p.to_number raw in
      if not (p.is_nan n) && not (is_empty (trim raw)) then num n else str raw

  unfoldable pub parse_operand : Operator → Text → Value p
  parse_operand in_list raw = many (parse_in_values raw)
  parse_operand is raw = parse_is_value raw
  parse_operand op raw = parse_value raw

  unfoldable pub parse_filter_value : Text → Text → Option FilterCondition
  parse_filter_value column value = elim (index_of b'.' value) [
    | none ↦ some (record { column = column; operator = eq; value = parse_value value })
    | some dot ↦ elim (operator_of (take dot value)) [
      | none ↦ none
      | some op ↦ some (record {
        column = column;
        operator = op;
        value = parse_operand op (drop (suc dot) value);
      })
    ]
  ]

  -- The loop of `parseQueryParams`.
  unfoldable pub parse_filters : List (Text × Text) → List FilterCondition
  parse_filters [] = []
  parse_filters ((key, value) ∷ rest) =
      let later = parse_filters rest in
      if is_reserved key
      then later
      else elim (parse_filter_value key value) [ none ↦ later | some f ↦ f ∷ later ]

  -- `param ? parseInt(param, 10) : undefined`
  unfoldable pub int_param : Option Text → Option p.Number
  int_param none = none
  int_param (some s) = if is_empty s then none else some (p.parse_int s)

  unfoldable pub parse_query_params : List (Text × Text) → ParsedQuery
  parse_query_params params = record {
    select = parse_select (get (codes "select") params);
    filters = parse_filters params;
    order = parse_order (get (codes "order") params);
    limit = int_param (get (codes "limit") params);
    offset = int_param (get (codes "offset") params);
  }
