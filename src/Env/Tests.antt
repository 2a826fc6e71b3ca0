-- ===== src/Env/Tests.antt =====
-- Reading dotenv text, and the theorems on variables at concrete files and pairs.
use bunny_cli_fork.Common.{
  true, none, some, List, [], ◌∷◌, ◌++◌, Text, codes, text_eq, starts_with, index_of, split, trim,
  trim_start, is_empty, is_space, is_word, is_digit, is_lower, is_upper, ◌≡◌, refl,
}
use bunny_cli_fork.Common.Dict.{get}
use bunny_cli_fork.Common.Exec.{ok}
use bunny_cli_fork.Env.Dotenv.{
  is_env_key, chomp, chomp_all, lines_of, escape_of, is_line_end, expand_escapes,
  before_spaced_hash, strip_comment, closing_quote, push_entry, quoted_value, close_or_wait,
  open_value, starts_space, strip_export, open_body, open_line, line_step, parse_lines,
  parse_dotenv_entries,
}
use bunny_cli_fork.Env.Collect.{split_pair, collect_env}
use bunny_cli_fork.Env.Override.{written, pair_texts, last_value, split_pair-join, collect_env-last}

-- A comment, an export, a comment behind a value, and a value over two lines.
abbrev env_file : Text
env_file = codes "# c\nexport A=1 # x\r\nB=\"x\\ty\nz\" rest\nbad line\n"

parsed_test : parse_dotenv_entries env_file ≡ record {
  entries =
      record { key = codes "A"; value = codes "1" }
      ∷ record { key = codes "B"; value = codes "x\ty\nz" }
      ∷ [];
  unterminated = [];
}
unfolding parse_dotenv_entries lines_of chomp_all chomp split parse_lines line_step open_line
    open_body open_value close_or_wait closing_quote strip_comment before_spaced_hash strip_export
    starts_space push_entry quoted_value expand_escapes escape_of is_line_end is_env_key is_word
    is_digit is_lower is_upper trim trim_start is_space starts_with index_of
parsed_test = refl

closed_test : is_empty (parse_dotenv_entries env_file).unterminated ≡ true
unfolding parse_dotenv_entries lines_of chomp_all chomp split parse_lines line_step open_line
    open_body open_value close_or_wait closing_quote strip_comment before_spaced_hash strip_export
    starts_space push_entry quoted_value expand_escapes escape_of is_line_end is_env_key is_word
    is_digit is_lower is_upper trim trim_start is_space starts_with index_of
closed_test = refl

legal_key : is_env_key (codes "URL") ≡ true
unfolding is_env_key is_word is_digit is_lower is_upper
legal_key = refl

split_pair-join_example :
    split_pair (codes "URL" ++ b'=' ∷ codes "a?b=c") ≡ ok (codes "URL", codes "a?b=c")
split_pair-join_example = split_pair-join (codes "URL") (codes "a?b=c") legal_key

abbrev pairs : List (Text × Text)
pairs = (codes "A", codes "2") ∷ []

collect_env-last_example :
    (env : List (Text × Text)) × (collect_env (pair_texts pairs) (some env_file) ≡ ok env)
    × (get (codes "A") env
        ≡ last_value (codes "A") none (written (parse_dotenv_entries env_file).entries ++ pairs))
unfolding text_eq is_env_key is_word is_digit is_lower is_upper
collect_env-last_example = collect_env-last (codes "A") env_file pairs refl closed_test refl
