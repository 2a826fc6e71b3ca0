-- ===== src/Rest/Casts.antt =====
-- The casts of the SQL builders are safe on what the query parser gives, but one: the parser takes
-- a name of Object.prototype for an operator.
use bunny_cli_fork.Common.{
  suc, Bool, true, false, Option, none, some, List, [], ◌∷◌, ◌++◌, Text, codes, join, take, drop,
  index_of, All, if_both, Option-cases, ◌≡◌, ◌≢◌, refl, inl, inr, arith,
}
use bunny_cli_fork.Rest.Platform.{Platform, Value, many}
use bunny_cli_fork.Rest.Query.{
  Operator, is, in_list, inherited, FilterCondition, operator_of, is_reserved, parse_is_value,
  parse_value, parse_operand, parse_filter_value, parse_filters, parse_query_params,
}
use bunny_cli_fork.Rest.Sql.{
  condition_of, in_condition, push_filters, build_where, build_select_query, build_count_query,
  build_update_query, build_delete_query, SelectQuery, quote_identifier, Pushed,
}

abbrev pub is_in : Operator → Bool
is_in in_list = true
is_in op = false

module _ (p : Platform) where
  abbrev pub is_many : Value p → Bool
  is_many (many vs) = true
  is_many v = false

  -- A list of values goes with `in`, and with no other operator.
  pub record IsTyped (f : FilterCondition p) : Type 0 where
    pub typed : is_many f.value ≡ is_in f.operator

  parse_is_value-typed : (raw : Text) → is_many (parse_is_value p raw) ≡ false
  unfolding parse_is_value
  parse_is_value-typed raw = ground arith

  parse_value-typed : (raw : Text) → is_many (parse_value p raw) ≡ false
  unfolding parse_value
  parse_value-typed raw = ground arith

  parse_operand-typed : (op : Operator) (raw : Text) → is_many (parse_operand p op raw) ≡ is_in op
  unfolding parse_operand
  parse_operand-typed in_list raw = refl
  parse_operand-typed is raw = parse_is_value-typed raw
  parse_operand-typed op raw = parse_value-typed raw

  abbrev TypedOption : Option (FilterCondition p) → Type 0
  TypedOption none = Unit
  TypedOption (some f) = IsTyped f

  parse_filter_value-IsTyped :
      (column value : Text) → TypedOption (parse_filter_value p column value)
  unfolding parse_filter_value
  parse_filter_value-IsTyped column value = elim (Option-cases (index_of b'.' value)) [
    | inl no_dot ↦ rw (no_dot, TypedOption) (record { typed = parse_value-typed value })
    | inr (dot, at) ↦ elim (Option-cases (operator_of (take dot value))) [
      | inl unknown ↦ rw (at, unknown, TypedOption) tt
      | inr (op, known) ↦
          rw (at, known, TypedOption)
            (record { typed = parse_operand-typed op (drop (suc dot) value) })
    ]
  ]

  add_filter :
      (o : Option (FilterCondition p)) (fs : List (FilterCondition p))
      → TypedOption o
      → All IsTyped fs
      → All IsTyped (elim o [ none ↦ fs | some f ↦ f ∷ fs ])
  add_filter none fs t h = h
  add_filter (some f) fs t h = (t, h)

  pub parse_filters-IsTyped : (params : List (Text × Text)) → All IsTyped (parse_filters p params)
  unfolding parse_filters
  parse_filters-IsTyped [] = tt
  parse_filters-IsTyped ((key, value) ∷ rest) =
      let h = parse_filters-IsTyped rest in
      if_both (All IsTyped) (is_reserved key) _ _ h (
        add_filter (parse_filter_value p key value) (parse_filters p rest)
          (parse_filter_value-IsTyped key value) h)

  condition_of-typed :
      (col : Text) (op : Operator) (v : Value p)
      → is_many v ≡ is_in op
      → (w : Pushed p) × (condition_of p col op v ≡ some w)
  unfolding condition_of in_condition
  condition_of-typed col is v h = (_, refl)
  condition_of-typed col in_list (many vs) h = (_, refl)
  condition_of-typed col in_list v h = cc
  condition_of-typed col inherited v h = (_, refl)
  condition_of-typed col op v h = (_, refl)

  push_filters-typed :
      (fs : List (FilterCondition p))
      → All IsTyped fs
      → (w : Pushed p) × (push_filters p fs ≡ some w)
  unfolding push_filters
  push_filters-typed [] h = (_, refl)
  push_filters-typed (f ∷ fs) (t, h) =
      let (a, a_eq) = condition_of-typed (quote_identifier f.column) f.operator f.value t.typed in
      let (b, b_eq) = push_filters-typed fs h in
      (
        record { conditions = a.conditions ++ b.conditions; args = a.args ++ b.args },
        rw (a_eq, push_filters) (rw (b_eq, push_filters)),
      )

  -- A typed list of filters has a WHERE clause.
  pub build_where-typed :
      (fs : List (FilterCondition p))
      → All IsTyped fs
      → (w : SelectQuery p) × (build_where p fs ≡ some w)
  unfolding build_where
  build_where-typed [] h = (_, refl)
  build_where-typed (f ∷ fs) h =
      let (w, e) = push_filters-typed (f ∷ fs) h in
      (
        record { sql = codes " WHERE " ++ join (codes " AND ") w.conditions; args = w.args },
        rw (e, build_where),
      )

  -- Whatever the query string, the four statements over its filters are built: the cast to an array
  -- in the `in` case never meets another value.
  pub queries_total :
      (table : Text) (params : List (Text × Text)) (body : List (Text × p.Json))
      → (build_select_query p table (parse_query_params p params) ≢ none)
        × (build_count_query p table (parse_query_params p params) ≢ none)
        × (build_update_query p table body (parse_query_params p params).filters ≢ none)
        × (build_delete_query p table (parse_query_params p params).filters ≢ none)
  unfolding parse_query_params build_select_query build_count_query build_update_query
      build_delete_query
  queries_total table params body =
      let (w, e) = build_where-typed (parse_filters p params) (parse_filters-IsTyped params) in
      (
        rw (e, build_select_query) (λ h. cc h),
        rw (e, build_count_query) (λ h. cc h),
        rw (e, build_update_query) (λ h. cc h),
        rw (e, build_delete_query) (λ h. cc h),
      )
