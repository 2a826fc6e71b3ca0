-- ===== src/Env/Collect.antt =====
-- packages/cli/src/core/env.ts: KEY=VALUE pairs, and the variables collected from a file and pairs. The
-- file's text is a parameter: `none` where no file is named.
use bunny_cli_fork.Common.{
  suc, Option, none, some, List, [], ◌∷◌, if◌then◌else◌, Text, codes, text_eq, index_of, take, drop,
  is_empty,
}
use bunny_cli_fork.Common.Dict.{set}
use bunny_cli_fork.Common.Exec.{Result, ok, thrown}
use bunny_cli_fork.Env.Dotenv.{is_env_key, DotenvEntry, parse_dotenv_entries}

pub data EnvProblem : Type 0 where
  no_equals invalid_key : Text → EnvProblem
  unclosed : List Text → EnvProblem

unfoldable pub split_pair : Text → Result EnvProblem (Text × Text)
split_pair entry = elim (index_of b'=' entry) [
  | none ↦ thrown (no_equals entry)
  | some eq ↦
      if is_env_key (take eq entry)
      then ok (take eq entry, drop (suc eq) entry)
      else thrown (invalid_key (take eq entry))
]

-- `env[key] = value` on an object literal: a string assigned to `__proto__` is dropped.
unfoldable pub assign : Text → Text → List (Text × Text) → List (Text × Text)
assign key value env = if text_eq key (codes "__proto__") then env else set key value env

unfoldable pub assign_entries : List DotenvEntry → List (Text × Text) → List (Text × Text)
assign_entries [] env = env
assign_entries (e ∷ es) env = assign_entries es (assign e.key e.value env)

-- parseDotenv
unfoldable pub parse_dotenv : Text → List (Text × Text)
parse_dotenv text = assign_entries (parse_dotenv_entries text).entries []

unfoldable pub assign_pairs :
    List Text → List (Text × Text) → Result EnvProblem (List (Text × Text))
assign_pairs [] env = ok env
assign_pairs (entry ∷ entries) env = elim (split_pair entry) [
  | thrown e ↦ thrown e
  | ok pair ↦ assign_pairs entries (assign (pair.0) (pair.1) env)
]

unfoldable pub collect_env : List Text → Option Text → Result EnvProblem (List (Text × Text))
collect_env entries none = assign_pairs entries []
collect_env entries (some text) =
    let parse = parse_dotenv_entries text in
    if is_empty parse.unterminated
    then assign_pairs entries (assign_entries parse.entries [])
    else thrown (unclosed parse.unterminated)
