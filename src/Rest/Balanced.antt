-- ===== src/Rest/Balanced.antt =====
-- Whole queries have as many placeholders as arguments.
use bunny_cli_fork.Common.{
  ◌+◌, ◌*◌, Option, none, some, List, ◌++◌, map, Text, codes, join, length, length-append,
  length-map, Option-cases, ◌≡◌, refl, inl, inr, arith,
}
use bunny_cli_fork.Rest.Platform.{Platform, ShowsPlain, Arg, field}
use bunny_cli_fork.Rest.Query.{FilterCondition, ParsedQuery}
use bunny_cli_fork.Rest.Sql.{
  quote_identifier, build_order_by, build_select, placeholders, SelectQuery, build_where, numbered,
  build_select_query, build_count_query, build_insert_query, build_update_query, build_delete_query,
}
use bunny_cli_fork.Rest.Neutral.{
  inside, holes, Neutral, Neutral-append, Neutral_cast, quote_identifier-Neutral, inert-Neutral,
  join-Neutral,
}
use bunny_cli_fork.Rest.Placeholders.{
  comma-Neutral, placeholders-Neutral, Balanced, Builds, build_where-Builds,
}
use bunny_cli_fork.Rest.Clauses.{
  build_order_by-Neutral, build_select-Neutral, plain_before, plain_after, IsWord, word_before,
  word_after, identifier_before,
}

module _ (p : Platform) where
  numbered-Neutral :
      (word : Text) (n : Option p.Number)
      → ShowsPlain p
      → IsWord word
      → Neutral (numbered p word n) 0
  unfolding numbered
  numbered-Neutral word none plain h =
      unfold inside holes in record { outside = refl; count = refl }
  numbered-Neutral word (some n) plain h =
      word_before word _ 0 h (inert-Neutral (p.show n) (plain n))

  build_select_query-Builds :
      (table : Text) (query : ParsedQuery p)
      → ShowsPlain p
      → Builds p (build_select_query p table query)
  unfolding build_select_query inside holes
  build_select_query-Builds table query plain = elim (Option-cases (build_where p query.filters)) [
    | inl failed ↦ rw (failed, build_select_query, Builds) tt
    | inr (w, built) ↦
        let clause = (rw built at (build_where-Builds p query.filters)).text in
        let n = length w.args in
        rw (built, build_select_query, Builds)
          (record {
            text =
                word_before (codes "SELECT ") _ n (refl, refl)
                  (plain_before (build_select query.select) _ n (build_select-Neutral query.select)
                    (word_before (codes " FROM ") _ n (refl, refl)
                      (identifier_before table _ n (
                        plain_after w.sql _ n clause (
                          plain_before (build_order_by query.order) _ 0
                            (build_order_by-Neutral query.order)
                            (plain_before (numbered p (codes " LIMIT ") query.limit) _ 0
                              (numbered-Neutral (codes " LIMIT ") query.limit plain (refl, refl))
                              (numbered-Neutral (codes " OFFSET ") query.offset plain
                                (refl, refl))))))));
          })
  ]

  build_count_query-Builds :
      (table : Text) (query : ParsedQuery p) → Builds p (build_count_query p table query)
  unfolding build_count_query inside holes
  build_count_query-Builds table query = elim (Option-cases (build_where p query.filters)) [
    | inl failed ↦ rw (failed, build_count_query, Builds) tt
    | inr (w, built) ↦
        let clause = (rw built at (build_where-Builds p query.filters)).text in
        rw (built, build_count_query, Builds)
          (record {
            text =
                word_before (codes "SELECT COUNT(*) as count FROM ") _ (length w.args) (refl, refl)
                  (identifier_before table w.sql (length w.args) clause);
          })
  ]

  build_delete_query-Builds :
      (table : Text) (filters : List (FilterCondition p))
      → Builds p (build_delete_query p table filters)
  unfolding build_delete_query inside holes
  build_delete_query-Builds table filters = elim (Option-cases (build_where p filters)) [
    | inl failed ↦ rw (failed, build_delete_query, Builds) tt
    | inr (w, built) ↦
        let clause = (rw built at (build_where-Builds p filters)).text in
        rw (built, build_delete_query, Builds)
          (record {
            text =
                word_before (codes "DELETE FROM ") _ (length w.args) (refl, refl)
                  (identifier_before table _ (length w.args)
                    (word_after w.sql (codes " RETURNING *") (length w.args) clause (refl, refl)));
          })
  ]

  set_clause-Neutral : (c : Text × p.Json) → Neutral (quote_identifier c.0 ++ codes " = ?") 1
  unfolding inside holes
  set_clause-Neutral c =
      identifier_before c.0 (codes " = ?") 1 (record { outside = refl; count = refl })

  build_update_query-Builds :
      (table : Text) (values : List (Text × p.Json)) (filters : List (FilterCondition p))
      → Builds p (build_update_query p table values filters)
  unfolding build_update_query inside holes
  build_update_query-Builds table values filters = elim (Option-cases (build_where p filters)) [
    | inl failed ↦ rw (failed, build_update_query, Builds) tt
    | inr (w, built) ↦
        let clause = (rw built at (build_where-Builds p filters)).text in
        let n = length w.args in
        let m = length values in
        let arg : Text × p.Json → Arg p = λ c. field c.1 in
        let set = λ (c : Text × p.Json). quote_identifier c.0 ++ codes " = ?" in
        let sets = join-Neutral set 1 (codes ", ") values comma-Neutral set_clause-Neutral in
        rw (built, build_update_query, Builds)
          (record {
            text =
                Neutral_cast _ (m * 1 + n) _
                  (word_before (codes "UPDATE ") _ (m * 1 + n) (refl, refl)
                    (identifier_before table _ (m * 1 + n) (
                      word_before (codes " SET ") _ (m * 1 + n) (refl, refl)
                        (Neutral-append (join (codes ", ") (map set values)) _ (m * 1) n sets
                          (word_after w.sql (codes " RETURNING *") n clause (refl, refl))))))
                  (omega (arith, length-append (map arg values) w.args, length-map arg values));
          })
  ]

  build_insert_query-Balanced :
      (table : Text) (row : List (Text × p.Json)) → Balanced p (build_insert_query p table row)
  unfolding build_insert_query inside holes
  build_insert_query-Balanced table row =
      let n = length row in
      let name = λ (c : Text × p.Json). quote_identifier c.0 in
      let names =
        Neutral_cast _ (n * 0) 0
          (join-Neutral name 0 (codes ", ") row comma-Neutral (λ c. quote_identifier-Neutral c.0))
          (omega arith) in
      record {
        text = rw length-map (
            word_before (codes "INSERT INTO ") _ n (refl, refl)
              (identifier_before table _ n (
                word_before (codes " (") _ n (refl, refl)
                  (plain_before (join (codes ", ") (map name row)) _ n names (
                    word_before (codes ") VALUES (") _ n (refl, refl)
                      (word_after (placeholders row) (codes ") RETURNING *") n
                        (placeholders-Neutral row) (refl, refl)))))));
      }

  -- A query that one of the five builders gives.
  pub data Built : SelectQuery p → Type 0 where
    selected :
        {q : SelectQuery p} (table : Text) (query : ParsedQuery p)
        → build_select_query p table query ≡ some q
        → Built q
    counted :
        {q : SelectQuery p} (table : Text) (query : ParsedQuery p)
        → build_count_query p table query ≡ some q
        → Built q
    inserted :
        {q : SelectQuery p} (table : Text) (row : List (Text × p.Json))
        → build_insert_query p table row ≡ q
        → Built q
    updated :
        {q : SelectQuery p} (table : Text) (values : List (Text × p.Json))
        (filters : List (FilterCondition p))
        → build_update_query p table values filters ≡ some q
        → Built q
    deleted :
        {q : SelectQuery p} (table : Text) (filters : List (FilterCondition p))
        → build_delete_query p table filters ≡ some q
        → Built q

  -- Whatever the table, the columns and the values, a query of any of the five builders has as many
  -- placeholders outside quotation marks as it has arguments, and its text ends outside them, if no
  -- number is shown with a quotation mark or a question mark.
  pub Built-Balanced : (q : SelectQuery p) → ShowsPlain p → Built q → Balanced p q
  Built-Balanced q plain (selected table query e) =
      rw e at (build_select_query-Builds table query plain)
  Built-Balanced q plain (counted table query e) = rw e at (build_count_query-Builds table query)
  Built-Balanced q plain (inserted table row e) = rw e at (build_insert_query-Balanced table row)
  Built-Balanced q plain (updated table values filters e) =
      rw e at (build_update_query-Builds table values filters)
  Built-Balanced q plain (deleted table filters e) =
      rw e at (build_delete_query-Builds table filters)
