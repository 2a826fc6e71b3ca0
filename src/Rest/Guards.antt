-- ===== src/Rest/Guards.antt =====
-- What the handler refuses to run, and when it answers at all.
use bunny_cli_fork.Common.{
  Bool, true, false, ◌&&◌, Option, none, some, List, [], ◌∷◌, Text, codes, text_eq, Option-cases,
  ◌≡◌, ◌≢◌, ◌⊎◌, ◌∙◌, ◌++◌, All, is_empty, Bool-cases, eq_of_text_eq, starts_with, drop-append,
  arith, refl, inl, inr,
}
use bunny_cli_fork.Rest.Platform.{Platform, Shape, object}
use bunny_cli_fork.Rest.Query.{parse_query_params}
use bunny_cli_fork.Common.Exec.{Result, ok, thrown}
use bunny_cli_fork.Rest.Handler.{
  Schema, ParsedRoute, collection, route_of, decode_all, segments_of, Response, error, Request,
  Host, patch_body, handle_patch, delete_filtered, handle_delete,
}
use bunny_cli_fork.Rest.Routes.{
  dispatch, dispatch_collection, catch_internal, guarded, serve_route, serve_path, rest_handler,
}

abbrev pub is_error : {p : Platform} → Response p → Bool
is_error (error status message code) = true
is_error r = false

not_nil : (s : Text) → s ≢ [] → is_empty s ≡ false
not_nil [] h = absurd (h refl)
not_nil (c ∷ s) h = refl

not_root :
    (s method : Text)
    → s ≢ codes "/"
    → (text_eq s (codes "/") && text_eq method (codes "GET")) ≡ false
not_root s method h = elim (Bool-cases (text_eq s (codes "/"))) [
  | inl same ↦ absurd (h (eq_of_text_eq s (codes "/") same))
  | inr other ↦ rw other refl
]

starts_with-append : (s t : Text) → starts_with (s ++ t) s ≡ true
unfolding starts_with
starts_with-append [] t = refl
starts_with-append (c ∷ s) t = ground (arith, starts_with-append s t)

module _ (p : Platform) {E S : Type 0} (h : Host p E S) where
  -- An error response, and a state that nothing but the host's error hook has touched: that only
  -- where the body cannot be read.
  abbrev pub IsRefused : Request p E → S → Response p × S → Type 0
  IsRefused req s (r, s') =
      (is_error r ≡ true) × ((s' ≡ s) ⊎ ((e : E) × (req.body ≡ thrown e) × (s' ≡ h.on_error e s)))

  patch_body_unfiltered :
      (table : Text) (body : Shape p.Json) (req : Request p E) (s : S)
      → IsRefused req s
          (catch_internal p h (patch_body p h table [] body s).0 (patch_body p h table [] body s).1)
  unfolding patch_body catch_internal
  patch_body_unfiltered table (object []) req s = (refl, inl refl)
  patch_body_unfiltered table (object (f ∷ fs)) req s = (refl, inl refl)
  patch_body_unfiltered table b req s = (refl, inl refl)

  patch_reads :
      (table : Text) (req : Request p E) (s : S) (j : p.Json)
      → (parse_query_params p req.params).filters ≡ []
      → req.body ≡ ok j
      → handle_patch p h table req s ≡ patch_body p h table [] (p.shape j) s
  unfolding handle_patch
  patch_reads table req s j e b = rw (b, handle_patch) (rw (e, handle_patch))

  patch_unfiltered :
      (table : Text) (req : Request p E) (s : S) (body : Result E p.Json)
      → (parse_query_params p req.params).filters ≡ []
      → req.body ≡ body
      → IsRefused req s
          (catch_internal p h (handle_patch p h table req s).0 (handle_patch p h table req s).1)
  unfolding handle_patch catch_internal
  patch_unfiltered table req s (thrown x) e b = rw (b, handle_patch) (refl, inr (x, refl, refl))
  patch_unfiltered table req s (ok j) e b =
      rw (patch_reads table req s j e b) (patch_body_unfiltered table (p.shape j) req s)

  delete_unfiltered :
      (table : Text) (req : Request p E) (s : S)
      → (parse_query_params p req.params).filters ≡ []
      → IsRefused req s (
          catch_internal p h
            (handle_delete p h table req.params s).0
            (handle_delete p h table req.params s).1)
  unfolding handle_delete delete_filtered catch_internal
  delete_unfiltered table req s e = rw (e, handle_delete) (refl, inl refl)

  -- A PATCH or a DELETE of a collection whose query string gives no filter runs no statement: the
  -- response is an error, and the state is as before, but for the host's error hook where the body
  -- of the request cannot be read.
  pub unfiltered_write-IsRefused :
      (tables : Schema) (table : Text) (req : Request p E) (s : S)
      → (req.method ≡ codes "PATCH") ⊎ (req.method ≡ codes "DELETE")
      → (parse_query_params p req.params).filters ≡ []
      → IsRefused req s (guarded p h tables (collection table) req s)
  unfolding guarded dispatch dispatch_collection text_eq handle_patch
  unfiltered_write-IsRefused tables table req s (inl m) e =
      rw (m, dispatch_collection) (patch_unfiltered table req s req.body e refl)
  unfiltered_write-IsRefused tables table req s (inr m) e =
      rw (m, dispatch_collection) (delete_unfiltered table req s e)

  thrown_of :
      (tables : Schema) (pathname : Text) (req : Request p E) (s : S)
      → (text_eq pathname (codes "/") && text_eq req.method (codes "GET")) ≡ false
      → decode_all p.decode_uri (segments_of pathname) ≡ none
      → serve_path p h tables pathname req s ≡ (thrown h.uri_error, s)
  unfolding serve_path
  thrown_of tables pathname req s e failed = rw (e, failed, serve_path)

  answered :
      (tables : Schema) (pathname : Text) (req : Request p E) (s : S) (segments : List Text)
      → (text_eq pathname (codes "/") && text_eq req.method (codes "GET")) ≡ false
      → decode_all p.decode_uri (segments_of pathname) ≡ some segments
      → serve_path p h tables pathname req s
        ≡ serve_route p h tables (route_of tables segments) req s
  unfolding serve_path
  answered tables pathname req s segments e decoded = rw (e, decoded, serve_path)

  serve_route-answers :
      (tables : Schema) (route : Option ParsedRoute) (req : Request p E) (s : S)
      → (r : Response p) × (s' : S) × (serve_route p h tables route req s ≡ (ok r, s'))
  unfolding serve_route
  serve_route-answers tables none req s =
      (error 404 (codes "Table not found") (codes "NOT_FOUND"), s, refl)
  serve_route-answers tables (some route) req s =
      ((guarded p h tables route req s).0, (guarded p h tables route req s).1, refl)

  -- A segment of the path cannot be decoded.
  abbrev pub IsUnreadable : List Text → Type 0
  IsUnreadable [] = ⊥
  IsUnreadable (t ∷ ts) = (p.decode_uri t ≡ none) ⊎ IsUnreadable ts

  abbrev pub Readable : Text → Type 0
  Readable t = p.decode_uri t ≢ none

  decode_all-cases :
      (ts : List Text)
      → ((decode_all p.decode_uri ts ≡ none) × IsUnreadable ts)
        ⊎ ((ds : List Text) × (decode_all p.decode_uri ts ≡ some ds) × All Readable ts)
  unfolding decode_all
  decode_all-cases [] = inr ([], refl, tt)
  decode_all-cases (t ∷ ts) = elim (Option-cases (p.decode_uri t)) [
    | inl failed ↦ inl (rw (failed, decode_all) refl, inl failed)
    | inr (d, e) ↦ elim (decode_all-cases ts) [
      | inl (failed, bad) ↦ inl (rw (e, decode_all) (rw (failed, decode_all) refl), inr bad)
      | inr (ds, found, good) ↦ inr (
        d ∷ ds,
        rw (e, decode_all) (rw (found, decode_all) refl),
        ((λ (missing : p.decode_uri t ≡ none). cc (e, missing)), good),
      )
    ]
  ]

  -- What comes of a request for the paths whose segments are to be decoded: an answer where all are,
  -- and else the URIError, with the state as before.
  abbrev pub Answers : List Text → Result E (Response p) × S → S → Type 0
  Answers ts (ok r, s') s = All Readable ts
  Answers ts (thrown e, s') s = IsUnreadable ts × (e ≡ h.uri_error) × (s' ≡ s)

  serve_path-Answers :
      (tables : Schema) (pathname : Text) (req : Request p E) (s : S)
      → (text_eq pathname (codes "/") && text_eq req.method (codes "GET")) ≡ false
      → Answers (segments_of pathname) (serve_path p h tables pathname req s) s
  serve_path-Answers tables pathname req s e = elim (decode_all-cases (segments_of pathname)) [
    | inl (failed, bad) ↦ rw (thrown_of tables pathname req s e failed) (bad, refl, refl)
    | inr (segments, decoded, good) ↦
        let (r, s', q) = serve_route-answers tables (route_of tables segments) req s in
        rw (answered tables pathname req s segments e decoded ∙ q) good
  ]

  -- The path behind the base path; a path that does not begin with the base has none.
  abbrev pub Behind : Text → Text → Text → Type 0
  Behind base_path pathname rest = (base_path ++ rest ≡ pathname) × (rest ≢ []) × (rest ≢ codes "/")

  -- Whatever the base path, the method and the executor, a request for a path behind the base, other
  -- than its root, is answered where every segment of that path can be decoded; where one cannot,
  -- the URIError leaves the handler, with the state as before.
  pub rest_handler-Answers :
      (tables : Schema) (base_path rest : Text) (req : Request p E) (s : S)
      → Behind base_path req.pathname rest
      → Answers (segments_of rest) (rest_handler p h tables base_path req s) s
  unfolding rest_handler serve_path
  rest_handler-Answers tables [] rest req s (e, some_path, no_root) =
      rw (← e) (serve_path-Answers tables rest req s (not_root rest req.method no_root))
  rest_handler-Answers tables (c ∷ base) rest req s (e, some_path, no_root) = rw (← e) (
      rw (starts_with-append (c ∷ base) rest, drop-append (c ∷ base) rest)
        (rw (not_nil rest some_path)
          (serve_path-Answers tables rest req s (not_root rest req.method no_root))))
