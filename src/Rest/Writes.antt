-- ===== src/Rest/Writes.antt =====
-- What the write handlers run: one row by a key, and the rows of a POST one after another.
use bunny_cli_fork.Common.{
  Bool, true, false, none, Option, is_empty, ◌≢◌, some, List, [], ◌∷◌, ◌++◌, Text, codes, join,
  text_eq, ◌≡◌, ◌⊎◌, refl, sym, ap, ◌∙◌, inl, inr, arith,
}
use bunny_cli_fork.Rest.Platform.{Platform, object, value}
use bunny_cli_fork.Rest.Query.{get, parse_value}
use bunny_cli_fork.Rest.Sql.{
  quote_identifier, comparison, condition_of, push_filters, build_where, build_insert_query,
  build_delete_query,
}
use bunny_cli_fork.Common.Exec.{Result, ok, thrown, pure, continue, ◌>>=◌}
use bunny_cli_fork.Rest.Handler.{
  Table, Schema, single, resolve_single_column, Response, rows, Request, Host, bad_request,
  not_found, first_row, insert_rows, run,
}
use bunny_cli_fork.Rest.Routes.{dispatch, dispatch_single, handle_delete_one}
use bunny_cli_fork.Rest.Keys.{IsKey, NoKey, resolved_of, resolve-cases, resolve_single_column-IsKey}

module _ (p : Platform) {E S : Type 0} (h : Host p E S) where
  abbrev pub delete_text : Text → Text → Text
  delete_text table c =
      codes "DELETE FROM "
      ++ (quote_identifier table
          ++ (codes " WHERE " ++ (quote_identifier c ++ codes " = ?") ++ codes " RETURNING *"))

  -- The one statement, and its first row as the answer.
  abbrev pub deletes : Text → Text → Text → S → Result E (Response p) × S
  deletes table c raw s =
      (h.execute (delete_text table c) (value (parse_value p raw) ∷ []) >>= λ found.
      pure (first_row p found))
        s

  named_column : (c : Text) → c ≢ [] → is_empty c ≡ false
  named_column [] named = absurd (named refl)
  named_column (a ∷ c) named = refl

  delete_by_key :
      (tables : Schema) (table column raw c : Text) (req : Request p E) (s : S)
      → req.method ≡ codes "DELETE"
      → resolve_single_column tables table column ≡ some c
      → c ≢ []
      → dispatch p h tables (single table column raw) req s ≡ deletes table c raw s
  unfolding dispatch dispatch_single handle_delete_one build_delete_query build_where push_filters
      condition_of comparison join text_eq
  delete_by_key tables table column raw c req s m e named =
      rw (e, dispatch) (rw (named_column c named) (rw (m, dispatch_single) refl))

  unresolved :
      (tables : Schema) (table column raw : Text) (req : Request p E) (s : S) (o : Option Text)
      → resolve_single_column tables table column ≡ o
      → ((c : Text) → o ≡ some c → c ≢ [] → ⊥)
      → dispatch p h tables (single table column raw) req s ≡ (ok (not_found p), s)
  unfolding dispatch
  unresolved tables table column raw req s none e no_key = rw (e, dispatch) refl
  unresolved tables table column raw req s (some []) e no_key = rw (e, dispatch) refl
  unresolved tables table column raw req s (some (a ∷ c)) e no_key =
      absurd (no_key (a ∷ c) refl (λ q. cc q))

  -- A DELETE of a single resource runs one statement, where the route's word stands for a named
  -- column of its table: the sole primary key for `__pk__`, or a unique column for itself. The
  -- statement deletes from that table where that column equals the value of the path, bound as its
  -- only argument. Where the word stands for no such column, the answer is 404, with the state as
  -- before.
  pub single_delete_statement :
      (tables : Schema) (table column raw : Text) (req : Request p E) (s : S)
      → req.method ≡ codes "DELETE"
      → ((c : Text) × (t : Table) × (get table tables ≡ some t)
          × IsKey t column c
          × (dispatch p h tables (single table column raw) req s ≡ deletes table c raw s))
        ⊎ (NoKey tables table column
            × (dispatch p h tables (single table column raw) req s ≡ (ok (not_found p), s)))
  single_delete_statement tables table column raw req s m =
      elim (resolve-cases tables table column) [
        | inl (c, t, found, key) ↦ inl (
          c,
          t,
          found,
          key,
          delete_by_key tables table column raw c req s m
              (resolved_of tables table column c t found key) key.0,
        )
        | inr no_key ↦ inr (
          no_key,
          unresolved tables table column raw req s (resolve_single_column tables table column) refl
              (λ c e named.
                let (t, found, key) = resolve_single_column-IsKey tables table column c e named in
                no_key t c found key),
        )
      ]

  -- The shape of every value is an object.
  abbrev pub AllObjects : List p.Json → Type 0
  AllObjects [] = Unit
  AllObjects (j ∷ js) =
      ((fields : List (Text × p.Json)) × (p.shape j ≡ object fields)) × AllObjects js

  abbrev pub is_object : p.Json → Bool
  is_object j = elim (p.shape j) [ object fields ↦ true | _ ↦ false ]

  bad_row :
      (table : Text) (j : p.Json) (js : List p.Json) (results : List p.Row) (s : S)
      → is_object j ≡ false
      → insert_rows p h table (j ∷ js) results s
        ≡ (ok (bad_request p (codes "Each row must be a JSON object")), s)
  unfolding insert_rows
  bad_row table j js results s e = ground arith

  run_cases :
      (x : Result E (List p.Row) × S)
      → ((rs : List p.Row) × (t : S) × (x ≡ (ok rs, t))) ⊎ ((e : E) × (t : S) × (x ≡ (thrown e, t)))
  run_cases (ok rs, t) = inl (rs, t, refl)
  run_cases (thrown e, t) = inr (e, t, refl)

  insert_object :
      (table : Text) (j : p.Json) (js : List p.Json) (results rs : List p.Row)
      (fields : List (Text × p.Json)) (s t : S)
      → p.shape j ≡ object fields
      → run p h (build_insert_query p table fields) s ≡ (ok rs, t)
      → insert_rows p h table (j ∷ js) results s ≡ insert_rows p h table js (results ++ rs) t
  unfolding insert_rows
  insert_object table j js results rs fields s t o ran = rw (o, insert_rows) (rw (ran, continue))

  insert_fails :
      (table : Text) (j : p.Json) (js : List p.Json) (results : List p.Row)
      (fields : List (Text × p.Json)) (s t : S) (x : E)
      → p.shape j ≡ object fields
      → run p h (build_insert_query p table fields) s ≡ (thrown x, t)
      → insert_rows p h table (j ∷ js) results s ≡ (thrown x, t)
  unfolding insert_rows
  insert_fails table j js results fields s t x o ran = rw (o, insert_rows) (rw (ran, continue))

  -- A POST is not atomic: where the inserts of the rows before a value that is no object succeed, the
  -- answer is an error of the client, and the state is the one that those inserts have left.
  pub insert_rows_partial :
      (table : Text) (good : List p.Json) (j : p.Json) (js : List p.Json)
      (results found : List p.Row) (s s' : S)
      → AllObjects good
      → is_object j ≡ false
      → insert_rows p h table good results s ≡ (ok (rows 201 found []), s')
      → insert_rows p h table (good ++ j ∷ js) results s
        ≡ (ok (bad_request p (codes "Each row must be a JSON object")), s')
  unfolding insert_rows
  insert_rows_partial table [] j js results found s s' a e q =
      bad_row table j js results s e
      ∙ ap (λ t. (ok (bad_request p (codes "Each row must be a JSON object")), t))
          (ap (λ (x : Result E (Response p) × S). x.1) q)
  insert_rows_partial table (g ∷ gs) j js results found s s' ((fields, o), a) e q =
      elim (run_cases (run p h (build_insert_query p table fields) s)) [
        | inl (rs, t, ran) ↦
            insert_object table g (gs ++ j ∷ js) results rs fields s t o ran
            ∙ insert_rows_partial table gs j js (results ++ rs) found t s' a e
                (sym (insert_object table g gs results rs fields s t o ran) ∙ q)
        | inr (x, t, failed) ↦ cc (insert_fails table g gs results fields s t x o failed, q)
      ]
