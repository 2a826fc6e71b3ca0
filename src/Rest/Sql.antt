-- ===== src/Rest/Sql.antt =====
-- packages/database-rest/src/sql.ts. `none` is the TypeError of `values.map` on what is no array.
use bunny_cli_fork.Common.{
  true, Option, none, some, List, [], ◌∷◌, ◌++◌, map, ◌==◌, if◌then◌else◌, Text, codes, join, inl,
  inr,
}
use bunny_cli_fork.Rest.Platform.{
  Platform, Scalar, Value, str, num, bool, nil, many, Arg, value, field,
}
use bunny_cli_fork.Rest.Query.{
  Operator, eq, neq, gt, gte, lt, lte, like, ilike, is, in_list, inherited, asc, desc, OrderClause,
  FilterCondition, ParsedQuery,
}

-- name.replace(/"/g, '""')
unfoldable pub double_quotes : Text → Text
double_quotes [] = []
double_quotes (c ∷ s) =
    let rest = double_quotes s in if c == b'"' then b'"' ∷ b'"' ∷ rest else c ∷ rest

unfoldable pub quote_identifier : Text → Text
quote_identifier name = b'"' ∷ (double_quotes name ++ b'"' ∷ [])

unfoldable pub order_text : OrderClause → Text
order_text o =
    quote_identifier o.column
    ++ (elim o.direction [ asc ↦ codes " ASC" | desc ↦ codes " DESC" ]
        ++ (if o.nulls_first then codes " NULLS FIRST" else []))

unfoldable pub build_order_by : List OrderClause → Text
build_order_by [] = []
build_order_by (o ∷ os) = codes " ORDER BY " ++ join (codes ", ") (map order_text (o ∷ os))

unfoldable pub build_select : List Text → Text
build_select [] = codes "*"
build_select (c ∷ cs) = join (codes ", ") (map quote_identifier (c ∷ cs))

-- columns.map(() => "?").join(", ")
unfoldable pub placeholders {ℓ} : {A : Type ℓ} → List A → Text
placeholders xs = join (codes ", ") (map (λ _. codes "?") xs)

-- The comparison of an operator that binds one argument.
unfoldable pub comparison : Operator → Text
comparison eq = codes " = ?"
comparison neq = codes " != ?"
comparison gt = codes " > ?"
comparison gte = codes " >= ?"
comparison lt = codes " < ?"
comparison lte = codes " <= ?"
comparison like = codes " LIKE ?"
comparison ilike = codes " LIKE ? COLLATE NOCASE"
comparison op = []

module _ (p : Platform) where
  pub record SelectQuery : Type 0 where
    pub sql : Text
    pub args : List (Arg p)

  -- What one filter pushes: its conditions and its arguments.
  pub record Pushed : Type 0 where
    pub conditions : List Text
    pub args : List (Arg p)

  unfoldable pub scalar_arg : Scalar p → Arg p
  scalar_arg (inl t) = value (str t)
  scalar_arg (inr n) = value (num n)

  unfoldable pub is_condition : Text → Value p → Text
  is_condition col nil = col ++ codes " IS NULL"
  is_condition col (bool true) = col ++ codes " IS TRUE"
  is_condition col v = col ++ codes " IS FALSE"

  -- The `in` case.
  unfoldable pub in_condition : Text → Value p → Option Pushed
  in_condition col (many vs) = some (record {
    conditions = (col ++ (codes " IN (" ++ (placeholders vs ++ codes ")"))) ∷ [];
    args = map scalar_arg vs;
  })
  in_condition col v = none

  -- The switch on a filter's operator; no case takes an inherited name.
  unfoldable pub condition_of : Text → Operator → Value p → Option Pushed
  condition_of col is v = some (record { conditions = is_condition col v ∷ []; args = [] })
  condition_of col in_list v = in_condition col v
  condition_of col inherited v = some (record { conditions = []; args = [] })
  condition_of col op v =
      some (record { conditions = (col ++ comparison op) ∷ []; args = value v ∷ [] })

  -- The loop of `buildWhere`.
  unfoldable pub push_filters : List (FilterCondition p) → Option Pushed
  push_filters [] = some (record { conditions = []; args = [] })
  push_filters (f ∷ fs) = elim (condition_of (quote_identifier f.column) f.operator f.value) [
    | none ↦ none
    | some a ↦ elim (push_filters fs) [
      | none ↦ none
      | some b ↦
          some (record { conditions = a.conditions ++ b.conditions; args = a.args ++ b.args })
    ]
  ]

  unfoldable pub build_where : List (FilterCondition p) → Option SelectQuery
  build_where [] = some (record { sql = []; args = [] })
  build_where (f ∷ fs) = elim (push_filters (f ∷ fs)) [
    | none ↦ none
    | some w ↦
        some (record { sql = codes " WHERE " ++ join (codes " AND ") w.conditions; args = w.args })
  ]

  unfoldable pub numbered : Text → Option p.Number → Text
  numbered word none = []
  numbered word (some n) = word ++ p.show n

  unfoldable pub build_select_query : Text → ParsedQuery p → Option SelectQuery
  build_select_query table query = elim (build_where query.filters) [
    | none ↦ none
    | some w ↦ some (record {
      sql =
          codes "SELECT "
          ++ (build_select query.select
              ++ (codes " FROM "
                  ++ (quote_identifier table
                      ++ (w.sql
                          ++ (build_order_by query.order
                              ++ (numbered (codes " LIMIT ") query.limit
                                  ++ numbered (codes " OFFSET ") query.offset))))));
      args = w.args;
    })
  ]

  unfoldable pub build_count_query : Text → ParsedQuery p → Option SelectQuery
  build_count_query table query = elim (build_where query.filters) [
    | none ↦ none
    | some w ↦ some (record {
      sql = codes "SELECT COUNT(*) as count FROM " ++ (quote_identifier table ++ w.sql);
      args = w.args;
    })
  ]

  unfoldable pub build_insert_query : Text → List (Text × p.Json) → SelectQuery
  build_insert_query table row = record {
    sql =
        codes "INSERT INTO "
        ++ (quote_identifier table
            ++ (codes " ("
                ++ (join (codes ", ") (map (λ (c : Text × p.Json). quote_identifier c.0) row)
                    ++ (codes ") VALUES (" ++ (placeholders row ++ codes ") RETURNING *")))));
    args = map (λ (c : Text × p.Json). field c.1) row;
  }

  unfoldable pub build_update_query :
      Text → List (Text × p.Json) → List (FilterCondition p) → Option SelectQuery
  build_update_query table values filters = elim (build_where filters) [
    | none ↦ none
    | some w ↦ some (record {
      sql =
          codes "UPDATE "
          ++ (quote_identifier table
              ++ (codes " SET "
                  ++ (join (codes ", ")
                        (map (λ (c : Text × p.Json). quote_identifier c.0 ++ codes " = ?") values)
                      ++ (w.sql ++ codes " RETURNING *"))));
      args = map (λ (c : Text × p.Json). field c.1) values ++ w.args;
    })
  ]

  unfoldable pub build_delete_query : Text → List (FilterCondition p) → Option SelectQuery
  build_delete_query table filters = elim (build_where filters) [
    | none ↦ none
    | some w ↦ some (record {
      sql = codes "DELETE FROM " ++ (quote_identifier table ++ (w.sql ++ codes " RETURNING *"));
      args = w.args;
    })
  ]
