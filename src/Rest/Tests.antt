-- ===== src/Rest/Tests.antt =====
-- The theorems on the REST package at a concrete platform and host.
use bunny_cli_fork.Common.{
  ℕ, ◌+◌, ◌-◌, true, not, ◌&&◌, Option, none, some, List, [], ◌∷◌, ◌++◌, all, ◌==◌, Text, codes,
  text_eq, index_of, map, is_digit, if◌then◌else◌, ◌≡◌, ◌≢◌, ◌⊎◌, ◌↔◌, refl, inr, arith,
}
use bunny_cli_fork.Common.Decimal.{print, parse, print-digits}
use bunny_cli_fork.Common.Exec.{ok, thrown}
use bunny_cli_fork.Rest.Platform.{Platform, Shape, scalar, object, array, ShowsPlain}
use bunny_cli_fork.Rest.Query.{get, is_reserved, operator_of, parse_filters, parse_query_params}
use bunny_cli_fork.Rest.Sql.{
  quote_identifier, push_filters, build_select_query, build_count_query, build_update_query,
  build_delete_query, build_insert_query, SelectQuery,
}
use bunny_cli_fork.Rest.Identifier.{read_identifier, read_identifier-quote_identifier}
use bunny_cli_fork.Rest.Casts.{queries_total}
use bunny_cli_fork.Rest.Inherited.{IsIgnored, inherited_filter_ignored}
use bunny_cli_fork.Rest.Balanced.{inserted, Built-Balanced}
use bunny_cli_fork.Rest.Placeholders.{Balanced}
use bunny_cli_fork.Rest.Handler.{
  Table, Schema, collection, single, rows, Request, Host, insert_rows, bad_request, not_found,
  segments_of,
}
use bunny_cli_fork.Rest.Routes.{dispatch, guarded, rest_handler}
use bunny_cli_fork.Rest.Guards.{
  IsRefused, unfiltered_write-IsRefused, Answers, rest_handler-Answers,
}
use bunny_cli_fork.Rest.Keys.{IsKey, NoKey}
use bunny_cli_fork.Rest.Writes.{deletes, single_delete_statement, insert_rows_partial}
use bunny_cli_fork.Rest.Auth.{Credentials, RequireAuthOptions, require_auth}
use bunny_cli_fork.Rest.Auth.Laws.{Admitted, require_auth_iff}

data Body : Type 0 where
  number : ℕ → Body
  fields : List (Text × ℕ) → Body
  items : List ℕ → Body

abbrev shape_of : Body → Shape Body
shape_of (number n) = scalar
shape_of (fields fs) = object (map (λ (f : Text × ℕ). (f.0, number (f.1))) fs)
shape_of (items js) = array (map number js)

abbrev decode : Text → Option Text
decode s = if text_eq s (codes "%") then none else some s

-- Numbers are natural, NaN is 999.
abbrev platform : Platform
platform = record {
  Number = ℕ;
  to_number = λ s. if all is_digit s then parse s else 999;
  parse_int = λ s. if all is_digit s then parse s else 999;
  is_nan = λ n. n == 999;
  show = print;
  of_ℕ = λ n. n;
  add = λ m n. m + n;
  sub = λ m n. m - n;
  Json = Body;
  shape = shape_of;
  decode_uri = decode;
  Row = ℕ;
  count_of = λ n. some n;
}

digits_plain :
    (s : Text) → all is_digit s ≡ true → all (λ c. not (c == b'"') && not (c == b'?')) s ≡ true
unfolding is_digit
digits_plain [] h = refl
digits_plain (c ∷ s) h = ground (arith, digits_plain s)

platform-ShowsPlain : ShowsPlain platform
platform-ShowsPlain n = digits_plain (print n) (print-digits n)

-- The state counts the statements run.
abbrev host : Host platform Text ℕ
host = record {
  execute = λ sql args s. (ok (s ∷ []), s + 1);
  on_error = λ e s. s;
  type_error = codes "TypeError";
  uri_error = codes "URIError";
}

abbrev users : Text
users = codes "users"

abbrev tables : Schema
tables = (users, record { primary_key = codes "id" ∷ []; unique_columns = codes "email" ∷ [] }) ∷ []

abbrev delete_request : List (Text × Text) → Text → Request platform Text
delete_request params pathname = record {
  method = codes "DELETE";
  pathname = pathname;
  params = params;
  body = thrown (codes "no body");
}

read_identifier-quote_identifier_example :
    read_identifier (quote_identifier (codes "a\"b") ++ codes " = ?")
    ≡ some (codes "a\"b", codes " = ?")
read_identifier-quote_identifier_example =
    read_identifier-quote_identifier (codes "a\"b") (codes " = ?") refl

abbrev params_in : List (Text × Text)
params_in = (codes "id", codes "in.(1,2)") ∷ []

queries_total_example :
    (build_select_query platform users (parse_query_params platform params_in) ≢ none)
    × (build_count_query platform users (parse_query_params platform params_in) ≢ none)
    × (build_update_query platform users [] (parse_query_params platform params_in).filters ≢ none)
    × (build_delete_query platform users (parse_query_params platform params_in).filters ≢ none)
queries_total_example = queries_total platform users params_in []

ignored : IsIgnored platform (codes "x") (codes "constructor.y")
unfolding is_reserved text_eq index_of operator_of get
ignored = record { open_key = refl; dot = 11; has_dot = refl; operator = refl }

inherited_filter_ignored_example :
    (parse_filters platform ([] ++ (codes "x", codes "constructor.y") ∷ []) ≢ [])
    × (push_filters platform
          (parse_filters platform ([] ++ (codes "x", codes "constructor.y") ∷ []))
        ≡ push_filters platform (parse_filters platform ([] ++ [])))
inherited_filter_ignored_example =
    inherited_filter_ignored platform [] [] (codes "x") (codes "constructor.y") ignored

abbrev insertion : SelectQuery platform
insertion = build_insert_query platform users ((codes "na?me", number 1) ∷ [])

Built-Balanced_example : Balanced platform insertion
Built-Balanced_example =
    Built-Balanced platform insertion platform-ShowsPlain
      (inserted users ((codes "na?me", number 1) ∷ []) refl)

no_filters : (parse_query_params platform []).filters ≡ []
unfolding parse_query_params parse_filters
no_filters = refl

unfiltered_write-IsRefused_example :
    IsRefused platform host
      (delete_request [] (codes "/users"))
      0
      (guarded platform host tables (collection users) (delete_request [] (codes "/users")) 0)
unfiltered_write-IsRefused_example =
    unfiltered_write-IsRefused platform host tables users (delete_request [] (codes "/users")) 0
      (inr refl) no_filters

rest_handler-Answers_example :
    Answers platform host
      (segments_of (codes "/users/%"))
      (rest_handler platform host tables
        (codes "/api")
        (delete_request [] (codes "/api/users/%"))
        0)
      0
rest_handler-Answers_example =
    rest_handler-Answers platform host tables (codes "/api") (codes "/users/%")
      (delete_request [] (codes "/api/users/%")) 0 (refl, λ e. cc e, λ e. cc e)

single_delete_statement_example :
    ((c : Text) × (t : Table) × (get users tables ≡ some t)
      × IsKey t (codes "email") c
      × (dispatch platform host tables
            (single users (codes "email") (codes "a"))
            (delete_request [] (codes "/users/by-email/a"))
            0
          ≡ deletes platform host users c (codes "a") 0))
    ⊎ (NoKey tables users (codes "email")
        × (dispatch platform host tables
              (single users (codes "email") (codes "a"))
              (delete_request [] (codes "/users/by-email/a"))
              0
            ≡ (ok (not_found platform), 0)))
single_delete_statement_example =
    single_delete_statement platform host tables users (codes "email") (codes "a")
      (delete_request [] (codes "/users/by-email/a")) 0 refl

abbrev good_rows : List Body
good_rows = fields ((codes "a", 1) ∷ []) ∷ []

inserted_good : insert_rows platform host users good_rows [] 0 ≡ (ok (rows 201 (0 ∷ []) []), 1)
unfolding insert_rows
inserted_good = refl

insert_rows_partial_example :
    insert_rows platform host users (good_rows ++ number 7 ∷ []) [] 0
    ≡ (ok (bad_request platform (codes "Each row must be a JSON object")), 1)
insert_rows_partial_example =
    insert_rows_partial platform host users good_rows (number 7) [] [] (0 ∷ []) 0 1
      (((codes "a", number 1) ∷ [], refl), tt) refl inserted_good

abbrev bytes_of : Text → List ℕ
bytes_of s = s

abbrev guard_options : RequireAuthOptions
guard_options = record {
  token = codes "secret";
  cookie_name = some (codes "sid");
  is_public = none;
}

abbrev with_cookie : Credentials
with_cookie = record {
  pathname = codes "/";
  authorization = none;
  cookie = some (codes "a=1; sid=secret");
}

require_auth_iff_example :
    (require_auth bytes_of (λ c. true) guard_options with_cookie ≡ some true)
    ↔ Admitted bytes_of guard_options with_cookie
require_auth_iff_example = require_auth_iff bytes_of (λ c. true) guard_options with_cookie
