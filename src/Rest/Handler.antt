-- ===== src/Rest/Handler.antt =====
-- packages/database-rest/src/handler.ts
use bunny_cli_fork.Common.{
  ℕ, not, ◌&&◌, Option, none, some, List, [], ◌∷◌, ◌++◌, any, filter, if◌then◌else◌, Text, codes,
  text_eq, starts_with, split, drop, length, is_empty,
}
use bunny_cli_fork.Rest.Platform.{Platform, Shape, object, array, Arg}
use bunny_cli_fork.Rest.Query.{FilterCondition, get, parse_query_params}
use bunny_cli_fork.Rest.Sql.{
  SelectQuery, build_select_query, build_count_query, build_insert_query, build_update_query,
  build_delete_query,
}
use bunny_cli_fork.Common.Exec.{Result, ok, thrown, Exec, pure, throw, lift, ◌>>=◌}

pub record Table : Type 0 where
  pub primary_key : List Text
  pub unique_columns : List Text

abbrev pub Schema : Type 0
Schema = List (Text × Table)

pub data ParsedRoute : Type 0 where
  collection : Text → ParsedRoute
  single : Text → Text → Text → ParsedRoute

-- The routes of decoded segments. `tableNames.has` is a name that the schema has.
unfoldable pub route_of : Schema → List Text → Option ParsedRoute
route_of tables [] = none
route_of tables (table ∷ segments) = if is_empty table then none else elim (get table tables) [
  | none ↦ none
  | some _ ↦ elim segments [
    | [] ↦ some (collection table)
    | second ∷ [] ↦ if is_empty second then none else some (single table (codes "__pk__") second)
    | second ∷ third ∷ [] ↦
        if starts_with second (codes "by-") && not (is_empty third)
        then some (single table (drop 3 second) third)
        else none
    | _ ↦ none
  ]
]

-- `.map(decodeURIComponent)`; `none` is its URIError.
unfoldable pub decode_all : (Text → Option Text) → List Text → Option (List Text)
decode_all decode [] = some []
decode_all decode (s ∷ ss) = elim (decode s) [
  | none ↦ none
  | some d ↦ elim (decode_all decode ss) [ none ↦ none | some ds ↦ some (d ∷ ds) ]
]

unfoldable pub segments_of : Text → List Text
segments_of pathname = filter (λ s. not (is_empty s)) (split b'/' pathname)

-- `tablePkColumn`: the primary key, where it is one column.
unfoldable pub sole_key : List Text → Option Text
sole_key (pk ∷ []) = if is_empty pk then none else some pk
sole_key _ = none

-- The column that a single-resource route may filter by.
unfoldable pub key_column : Table → Text → Option Text
key_column t column =
    if text_eq column (codes "__pk__")
    then sole_key t.primary_key
    else if any (text_eq column) t.unique_columns
    then some column
    else none

unfoldable pub resolve_single_column : Schema → Text → Text → Option Text
resolve_single_column tables table column = elim (get table tables) [
  | none ↦ none
  | some t ↦ key_column t column
]

module _ (p : Platform) where
  pub data Response : Type 0 where
    spec : Response
    error : ℕ → Text → Text → Response
    -- status, `data`, and the headers that are added
    rows : ℕ → List p.Row → List (Text × Text) → Response
    row : p.Row → Response

  pub record Request (E : Type 0) : Type 0 where
    pub method : Text
    pub pathname : Text
    pub params : List (Text × Text)
    -- what `req.json()` resolves to
    pub body : Result E p.Json

  -- The executor over the database's state, the host's `onError`, which may do anything but replace
  -- the response, and the exceptions of the language.
  pub record Host (E S : Type 0) : Type 0 where
    pub execute : Text → List (Arg p) → Exec E S (List p.Row)
    pub on_error : E → S → S
    pub type_error : E
    pub uri_error : E

  abbrev pub bad_request : Text → Response
  bad_request message = error 400 message (codes "BAD_REQUEST")

  abbrev pub not_found : Response
  not_found = error 404 (codes "Not found") (codes "NOT_FOUND")

  abbrev pub row_not_found : Response
  row_not_found = error 404 (codes "Row not found") (codes "NOT_FOUND")

  abbrev pub not_allowed : Response
  not_allowed = error 405 (codes "Method not allowed") (codes "METHOD_NOT_ALLOWED")

  abbrev pub internal_error : Response
  internal_error = error 500 (codes "Internal error") (codes "INTERNAL_ERROR")

  abbrev pub first_row : List p.Row → Response
  first_row [] = row_not_found
  first_row (r ∷ rs) = row r

  -- `Number(countResult.rows[0]?.count ?? 0)`
  abbrev total_count : List p.Row → p.Number
  total_count [] = p.of_ℕ 0
  total_count (r ∷ rs) = elim (p.count_of r) [ none ↦ p.of_ℕ 0 | some n ↦ n ]

  abbrev or_zero : Option p.Number → p.Number
  or_zero none = p.of_ℕ 0
  or_zero (some n) = n

  unfoldable pub range_headers : Option p.Number → List p.Row → List p.Row → List (Text × Text)
  range_headers offset found counted =
      let first = or_zero offset in
      let total = p.show (total_count counted) in
      (codes "X-Total-Count", total)
      ∷ (
        codes "Content-Range",
        codes "items "
            ++ (p.show first
                ++ (codes "-"
                    ++ (p.show (p.sub (p.add first (p.of_ℕ (length found))) (p.of_ℕ 1))
                        ++ (codes "/" ++ total)))),
      )
      ∷ []

  module _ {E S : Type 0} (h : Host E S) where
    -- A builder's TypeError.
    abbrev pub built : Option (SelectQuery p) → Exec E S (SelectQuery p)
    built none = throw h.type_error
    built (some q) = pure q

    abbrev pub run : SelectQuery p → Exec E S (List p.Row)
    run q = h.execute q.sql q.args

    -- `Promise.all` of the two reads: both are sent, and the first rejection counts.
    unfoldable pub run_both : SelectQuery p → SelectQuery p → Exec E S (List p.Row × List p.Row)
    run_both q r s =
        let (a, s') = run q s in
        let (b, s'') = run r s' in
        elim a [
          | thrown e ↦ (thrown e, s'')
          | ok xs ↦ elim b [ thrown e ↦ (thrown e, s'') | ok ys ↦ (ok (xs, ys), s'') ]
        ]

    unfoldable pub handle_get : Text → List (Text × Text) → Exec E S Response
    handle_get table params =
        let query = parse_query_params p params in
        do
          q ← built (build_select_query p table query)
          r ← built (build_count_query p table query)
          (found, counted) ← run_both q r
          pure (rows 200 found (range_headers query.offset found counted))

    -- The loop of `handlePost`; a row that is no object ends it, after the inserts before it.
    unfoldable pub insert_rows : Text → List p.Json → List p.Row → Exec E S Response
    insert_rows table [] results = pure (rows 201 results [])
    insert_rows table (j ∷ js) results = elim (p.shape j) [
      | object fields ↦ do
        found ← run (build_insert_query p table fields)
        insert_rows table js (results ++ found)
      | _ ↦ pure (bad_request (codes "Each row must be a JSON object"))
    ]

    unfoldable pub post_body : Text → p.Json → Exec E S Response
    post_body table body = elim (p.shape body) [
      | object fields ↦ insert_rows table (body ∷ []) []
      | array [] ↦ pure (bad_request (codes "Request body must not be empty"))
      | array (j ∷ js) ↦ insert_rows table (j ∷ js) []
      | _ ↦ pure (bad_request (codes "Request body must be a JSON object or array"))
    ]

    unfoldable pub handle_post : Text → Request E → Exec E S Response
    handle_post table req = do body ← lift req.body; post_body table body

    -- What `handlePatch` does with a body, beside the filters of the query string.
    unfoldable pub patch_body : Text → List (FilterCondition p) → Shape p.Json → Exec E S (Response)
    patch_body table filters (object []) =
        pure (bad_request (codes "Request body must not be empty"))
    patch_body table [] (object (f ∷ fs)) =
        pure (bad_request (codes "Filters are required for update operations"))
    patch_body table (c ∷ cs) (object (f ∷ fs)) = do
      q ← built (build_update_query p table (f ∷ fs) (c ∷ cs))
      found ← run q
      pure (rows 200 found [])
    patch_body table filters body = pure (bad_request (codes "Request body must be a JSON object"))

    unfoldable pub handle_patch : Text → Request E → Exec E S Response
    handle_patch table req = do
      body ← lift req.body
      patch_body table (parse_query_params p req.params).filters (p.shape body)

    unfoldable pub delete_filtered : Text → List (FilterCondition p) → Exec E S Response
    delete_filtered table [] =
        pure (bad_request (codes "Filters are required for delete operations"))
    delete_filtered table (c ∷ cs) = do
      q ← built (build_delete_query p table (c ∷ cs))
      found ← run q
      pure (rows 200 found [])

    unfoldable pub handle_delete : Text → List (Text × Text) → Exec E S Response
    handle_delete table params = delete_filtered table (parse_query_params p params).filters
