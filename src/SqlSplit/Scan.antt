-- ===== src/SqlSplit/Scan.antt =====
-- packages/database-shell/src/parser.ts: `syntaxError` and `splitStatements`. The index `i` is the
-- number of units read, and the text after it is the argument of the recursion; where the code
-- jumps by `indexOf` past a comment, the scan walks there in a mode of its own.
use bunny_cli_fork.Common.{
  ℕ, ◌+◌, not, ◌&&◌, List, [], ◌∷◌, ◌++◌, ◌==◌, if◌then◌else◌, Text, trim, newline, take, is_empty,
}
use bunny_cli_fork.SqlSplit.Trigger.{is_opener, terminator, doubles, in_block_body}

-- The two messages of the scanner.
pub data Problem : Type 0 where
  unterminated_comment unterminated_quote : Problem

pub record SyntaxError : Type 0 where
  pub problem : Problem
  pub line : ℕ
  pub column : ℕ

-- The number of newlines, and of units after the last one.
unfoldable pub newlines : Text → ℕ
newlines [] = 0
newlines (c ∷ s) = if c == newline then newlines s + 1 else newlines s

-- offset - lastIndexOf("\n"), where -1 is no newline.
unfoldable pub column_from : ℕ → Text → ℕ
column_from k [] = k
column_from k (c ∷ s) = column_from (if c == newline then 1 else k + 1) s

unfoldable pub syntax_error : Text → ℕ → Problem → SyntaxError
unfolding newlines column_from
syntax_error sql offset problem =
    let before = take offset sql in
    record { problem = problem; line = newlines before + 1; column = column_from 1 before }

pub data Split : Type 0 where
  ok : List Text → Split
  err : SyntaxError → Split

-- Where the scan stands: `quoted` has the terminator and `quoteStart`, a block comment its start.
pub data Mode : Type 0 where
  plain line_comment : Mode
  quoted : ℕ → ℕ → Mode
  block_comment : ℕ → Mode

pub record Scan : Type 0 where
  pub statements : List Text
  pub current : Text

unfoldable pub push : Text → Scan → Scan
push s st = record st { current = st.current ++ s }

-- `const trimmed = current.trim(); if (trimmed.length > 0) statements.push(trimmed)`
unfoldable pub finish : Scan → List Text
finish st =
    let trimmed = trim st.current in
    if is_empty trimmed then st.statements else st.statements ++ trimmed ∷ []

-- The branch of `;`.
unfoldable pub semicolon : Scan → Scan
unfolding push finish
semicolon st =
    if in_block_body st.current
    then push (b';' ∷ []) st
    else record { statements = finish st; current = [] }

-- The branches on one unit outside quotes, but the comments.
unfoldable pub plain_mode : ℕ → ℕ → Mode
unfolding is_opener terminator
plain_mode i c = if is_opener c then quoted (terminator c) i else plain

unfoldable pub plain_step : ℕ → Scan → Scan
unfolding push semicolon
plain_step c st = if c == b';' then semicolon st else push (c ∷ []) st

-- The end of the loop: a `break` out of a line comment ends it too.
unfoldable pub at_end : Text → Mode → Scan → Split
unfolding finish syntax_error
at_end sql plain st = ok (finish st)
at_end sql line_comment st = ok (finish st)
at_end sql (quoted q start) st = err (syntax_error sql start unterminated_quote)
at_end sql (block_comment start) st = err (syntax_error sql start unterminated_comment)

-- The loop of `splitStatements` over the units from index `i` on.
unfoldable pub scan : Text → Mode → ℕ → Text → Scan → Split
unfolding at_end plain_mode plain_step push doubles
scan sql mode i [] st = at_end sql mode st
scan sql plain i (c ∷ []) st = at_end sql (plain_mode i c) (plain_step c st)
scan sql plain i (c ∷ d ∷ s) st =
    let line = scan sql line_comment (i + 2) s st in
    let block = scan sql (block_comment i) (i + 2) s st in
    let step = scan sql (plain_mode i c) (i + 1) (d ∷ s) (plain_step c st) in
    if c == b'-' && d == b'-' then line else if c == b'/' && d == b'*' then block else step
scan sql line_comment i (c ∷ s) st =
    let back = scan sql plain (i + 1) s (push (newline ∷ []) st) in
    let skip = scan sql line_comment (i + 1) s st in if c == newline then back else skip
scan sql (block_comment start) i (c ∷ []) st = at_end sql (block_comment start) st
scan sql (block_comment start) i (c ∷ d ∷ s) st =
    let back = scan sql plain (i + 2) s (push (32 ∷ []) st) in
    let skip = scan sql (block_comment start) (i + 1) (d ∷ s) st in
    if c == b'*' && d == b'/' then back else skip
scan sql (quoted q start) i (c ∷ []) st =
    at_end sql (if c == q then plain else quoted q start) (push (c ∷ []) st)
scan sql (quoted q start) i (c ∷ d ∷ s) st =
    let inside = scan sql (quoted q start) (i + 1) (d ∷ s) (push (c ∷ []) st) in
    let doubled = scan sql (quoted q start) (i + 2) s (push (c ∷ q ∷ []) st) in
    let closed = scan sql plain (i + 1) (d ∷ s) (push (c ∷ []) st) in
    if not (c == q) then inside else if doubles q && d == q then doubled else closed

unfoldable pub split_statements : Text → Split
unfolding scan
split_statements sql = scan sql plain 0 sql (record { statements = []; current = [] })
