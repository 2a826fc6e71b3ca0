-- ===== src/SqlSplit/Tests.antt =====
-- Runs of the splitter, and the theorems at concrete scripts.
use bunny_cli_fork.Common.{
  List, [], ◌∷◌, ◌++◌, Text, codes, map, All, trim, trim_start, is_space, lower, is_word, text_eq,
  to_lower, ◌≡◌, refl,
}
use bunny_cli_fork.SqlSplit.Trigger.{is_opener, terminator, doubles, in_block_body, eat_word}
use bunny_cli_fork.SqlSplit.Scan.{
  ok, err, split_statements, newlines, column_from, unterminated_quote, unterminated_comment,
}
use bunny_cli_fork.SqlSplit.Pieces.{Piece, unit, literal, dashes, block, Statement, script, escape}
use bunny_cli_fork.SqlSplit.Statements.{IsStatement, split_statements-IsStatement}
use bunny_cli_fork.SqlSplit.Scripts.{
  IsWritten, found, split_statements-script, split_statements-unterminated,
}

comment_test :
    split_statements (codes "a; -- x;y\nb /* ; */ c") ≡ ok (codes "a" ∷ codes "b   c" ∷ [])
unfolding split_statements trim is_space in_block_body eat_word is_word text_eq to_lower lower
comment_test = refl

unterminated_test :
    split_statements (codes "a;\n /* b")
    ≡ err (record { problem = unterminated_comment; line = 2; column = 2 })
unfolding split_statements trim is_space in_block_body eat_word
unterminated_test = refl

abbrev plain_text : Text → List Piece
plain_text t = map unit t

-- INSERT with a literal and comments, and a trigger with a semicolon in its body on a new line.
abbrev insert_statement : Statement
insert_statement = record {
  first =
      plain_text (codes "INSERT ")
      ++ literal b'\'' (codes "a;'b") ∷ block (codes "c;d") ∷ dashes (codes "it's;") ∷ [];
  later = [];
}

abbrev trigger_statement : Statement
trigger_statement = record {
  first = plain_text (codes "\nCREATE TRIGGER t BEGIN x");
  later = plain_text (codes " END") ∷ [];
}

insert_statement-IsWritten : IsWritten insert_statement
unfolding is_opener terminator doubles escape in_block_body trim is_space eat_word is_word lower
insert_statement-IsWritten = record { pieces = refl; inner = tt; closed = refl; solid = refl }

trigger_statement-IsWritten : IsWritten trigger_statement
unfolding is_opener terminator doubles escape in_block_body trim is_space eat_word is_word lower
    text_eq to_lower trim_start
trigger_statement-IsWritten = record {
  pieces = refl;
  inner = (refl, refl, tt);
  closed = refl;
  solid = refl;
}

abbrev statements : List Statement
statements = insert_statement ∷ trigger_statement ∷ []

split_statements-script_example : split_statements (script statements) ≡ ok (map found statements)
split_statements-script_example =
    split_statements-script statements
      (insert_statement-IsWritten, (trigger_statement-IsWritten, tt))

split_statements-IsStatement_example : All IsStatement (map found statements)
split_statements-IsStatement_example =
    split_statements-IsStatement (script statements) (map found statements)
      split_statements-script_example

-- The quote before `oops` is the eighth unit of the third line, behind a comment's own.
split_statements-unterminated_example :
    split_statements (script (insert_statement ∷ []) ++ codes "\nSELECT \"oops")
    ≡ err (record { problem = unterminated_quote; line = 3; column = 8 })
unfolding is_opener terminator doubles escape newlines column_from
split_statements-unterminated_example =
    split_statements-unterminated (insert_statement ∷ []) (plain_text (codes "\nSELECT ")) b'"'
      (codes "oops") (insert_statement-IsWritten, tt) refl
