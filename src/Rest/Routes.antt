-- ===== src/Rest/Routes.antt =====
-- packages/database-rest/src/handler.ts: the single-resource handlers and `createRestHandler`.
use bunny_cli_fork.Common.{
  ◌&&◌, Option, none, some, List, [], ◌∷◌, if◌then◌else◌, Text, codes, text_eq, starts_with, drop,
  length, is_empty,
}
use bunny_cli_fork.Rest.Platform.{Platform, object}
use bunny_cli_fork.Rest.Query.{eq, FilterCondition, parse_query_params, parse_value}
use bunny_cli_fork.Rest.Sql.{build_select_query, build_update_query, build_delete_query}
use bunny_cli_fork.Common.Exec.{Result, ok, thrown, Exec, pure, lift, ◌>>=◌}
use bunny_cli_fork.Rest.Handler.{
  Schema, ParsedRoute, collection, single, route_of, decode_all, segments_of, resolve_single_column,
  Response, spec, error, Request, Host, bad_request, not_found, not_allowed, internal_error,
  first_row, built, run, handle_get, handle_post, handle_patch, handle_delete,
}

module _ (p : Platform) where
  -- The one filter of a single resource.
  abbrev pub key_filter : Text → Text → List (FilterCondition p)
  key_filter column raw = record { column = column; operator = eq; value = parse_value p raw } ∷ []

  module _ {E S : Type 0} (h : Host p E S) where
    unfoldable pub handle_get_one : Text → Text → Text → List (Text × Text) → Exec E S (Response p)
    handle_get_one table column raw params = do
      q ← built p h (
          build_select_query p table (record {
            select = (parse_query_params p params).select;
            filters = key_filter column raw;
            order = [];
            limit = some (p.of_ℕ 1);
            offset = none;
          }))
      found ← run p h q
      pure (first_row p found)

    unfoldable pub handle_patch_one : Text → Text → Text → Request p E → Exec E S (Response p)
    handle_patch_one table column raw req = do
      body ← lift req.body
      elim (p.shape body) [
        | object [] ↦ pure (bad_request p (codes "Request body must not be empty"))
        | object (f ∷ fs) ↦ do
          q ← built p h (build_update_query p table (f ∷ fs) (key_filter column raw))
          found ← run p h q
          pure (first_row p found)
        | _ ↦ pure (bad_request p (codes "Request body must be a JSON object"))
      ]

    unfoldable pub handle_delete_one : Text → Text → Text → Exec E S (Response p)
    handle_delete_one table column raw = do
      q ← built p h (build_delete_query p table (key_filter column raw))
      found ← run p h q
      pure (first_row p found)

    unfoldable pub dispatch_single : Text → Text → Text → Request p E → Exec E S (Response p)
    dispatch_single table column raw req =
        if text_eq req.method (codes "GET")
        then handle_get_one table column raw req.params
        else if text_eq req.method (codes "PATCH")
        then handle_patch_one table column raw req
        else if text_eq req.method (codes "DELETE")
        then handle_delete_one table column raw
        else pure (not_allowed p)

    unfoldable pub dispatch_collection : Text → Request p E → Exec E S (Response p)
    dispatch_collection table req =
        if text_eq req.method (codes "GET")
        then handle_get p h table req.params
        else if text_eq req.method (codes "POST")
        then handle_post p h table req
        else if text_eq req.method (codes "PATCH")
        then handle_patch p h table req
        else if text_eq req.method (codes "DELETE")
        then handle_delete p h table req.params
        else pure (not_allowed p)

    -- The body of the `try`.
    unfoldable pub dispatch : Schema → ParsedRoute → Request p E → Exec E S (Response p)
    dispatch tables (single table column raw) req =
        elim (resolve_single_column tables table column) [
          | none ↦ pure (not_found p)
          | some c ↦ if is_empty c then pure (not_found p) else dispatch_single table c raw req
        ]
    dispatch tables (collection table) req = dispatch_collection table req

    -- The `catch`: the error goes to the host, and never into the response.
    unfoldable pub catch_internal : Result E (Response p) → S → Response p × S
    catch_internal (ok r) s = (r, s)
    catch_internal (thrown e) s = (internal_error p, h.on_error e s)

    unfoldable pub guarded : Schema → ParsedRoute → Request p E → S → Response p × S
    guarded tables route req s = let (r, s') = dispatch tables route req s in catch_internal r s'

    unfoldable pub serve_route : Schema → Option ParsedRoute → Request p E → Exec E S (Response p)
    serve_route tables none req s =
        (ok (error 404 (codes "Table not found") (codes "NOT_FOUND")), s)
    serve_route tables (some route) req s = let (r, s') = guarded tables route req s in (ok r, s')

    -- What follows the base path: decoding stands outside the `try`.
    unfoldable pub serve_path : Schema → Text → Request p E → Exec E S (Response p)
    serve_path tables pathname req s =
        if text_eq pathname (codes "/") && text_eq req.method (codes "GET")
        then (ok spec, s)
        else elim (decode_all p.decode_uri (segments_of pathname)) [
          | none ↦ (thrown h.uri_error, s)
          | some segments ↦ serve_route tables (route_of tables segments) req s
        ]

    -- `createRestHandler(executor, schema, { basePath, onError })` at a request.
    unfoldable pub rest_handler : Schema → Text → Request p E → Exec E S (Response p)
    rest_handler tables base_path req s =
        if is_empty base_path
        then serve_path tables req.pathname req s
        else if starts_with req.pathname base_path
        then (let rest = drop (length base_path) req.pathname in
            serve_path tables (if is_empty rest then codes "/" else rest) req s)
        else (ok (not_found p), s)
