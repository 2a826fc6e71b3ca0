-- ===== src/SqlSplit/Pieces.antt =====
-- Scripts as their author means them: statements made of plain units, quoted literals and comments,
-- how they are written, and what of that is kept. `script` is what the scanner is then given.
use bunny_cli_fork.Common.{
  ℕ, Bool, true, not, ◌&&◌, ◌||◌, List, [], ◌∷◌, ◌++◌, ◌==◌, if◌then◌else◌, newline, Text, ◌≡◌,
}
use bunny_cli_fork.SqlSplit.Trigger.{is_opener, terminator, doubles, in_block_body}

pub data Piece : Type 0 where
  unit : ℕ → Piece
  signed : ℕ → ℕ → Piece
  literal : ℕ → Text → Piece
  dashes block : Text → Piece

-- Neither quote, nor semicolon, nor the first unit of a comment.
abbrev pub is_plain : ℕ → Bool
is_plain c = not (is_opener c) && not (c == b';') && not (c == b'-') && not (c == b'/')

-- A quote inside its literal is written twice.
unfoldable pub escape : ℕ → Text → Text
escape q [] = []
escape q (c ∷ s) = let rest = escape q s in if c == q then c ∷ q ∷ rest else c ∷ rest

abbrev pub lacks : ℕ → Text → Bool
lacks q [] = true
lacks q (c ∷ s) = not (c == q) && lacks q s

abbrev pub render_piece : Piece → Text
render_piece (unit c) = c ∷ []
render_piece (signed c d) = c ∷ d ∷ []
render_piece (literal o s) = o ∷ (escape (terminator o) s ++ terminator o ∷ [])
render_piece (dashes s) = b'-' ∷ b'-' ∷ (s ++ newline ∷ [])
render_piece (block s) = b'/' ∷ b'*' ∷ (s ++ b'*' ∷ b'/' ∷ [])

-- Of a comment a newline or a space is kept.
abbrev pub keep_piece : Piece → Text
keep_piece (unit c) = c ∷ []
keep_piece (signed c d) = c ∷ d ∷ []
keep_piece (literal o s) = o ∷ (escape (terminator o) s ++ terminator o ∷ [])
keep_piece (dashes s) = newline ∷ []
keep_piece (block s) = 32 ∷ []

abbrev pub keep : List Piece → Text
keep [] = []
keep (p ∷ ps) = keep_piece p ++ keep ps

-- The text closes no block comment.
abbrev pub stays_inside : Text → Bool
stays_inside [] = true
stays_inside (c ∷ []) = true
stays_inside (c ∷ d ∷ s) = not (c == b'*' && d == b'/') && stays_inside (d ∷ s)

abbrev pub render : List Piece → Text
render [] = []
render (p ∷ ps) = render_piece p ++ render ps

-- A `-` or `/` is followed by a unit that opens no comment, a bracketed name holds no bracket, and a
-- comment does not hold its own end.
abbrev pub piece_ok : Piece → Bool
piece_ok (unit c) = is_plain c
piece_ok (signed c d) = (c == b'-' || c == b'/') && is_plain d && not (d == b'*')
piece_ok (literal o s) = is_opener o && (doubles (terminator o) || lacks (terminator o) s)
piece_ok (dashes s) = lacks newline s
piece_ok (block s) = stays_inside s

-- The text does not begin with the quote that has just closed.
abbrev pub apart : Piece → Text → Bool
apart (literal o s) (c ∷ r) = not (doubles (terminator o)) || not (c == terminator o)
apart _ _ = true

abbrev pub pieces_ok : List Piece → Bool
pieces_ok [] = true
pieces_ok (p ∷ ps) = piece_ok p && apart p (render ps) && pieces_ok ps

-- A statement: its text up to the first semicolon, and the parts that follow further ones, as in
-- the body of a trigger.
pub record Statement : Type 0 where
  pub first : List Piece
  pub later : List (List Piece)

-- The parts after the first, each behind its semicolon.
abbrev pub tail : List (List Piece) → Text
tail [] = []
tail (ps ∷ pss) = b';' ∷ (render ps ++ tail pss)

abbrev pub text : Statement → Text
text st = render st.first ++ tail st.later

abbrev pub kept_tail : List (List Piece) → Text
kept_tail [] = []
kept_tail (ps ∷ pss) = b';' ∷ (keep ps ++ kept_tail pss)

-- What is kept of a statement.
abbrev pub kept : Statement → Text
kept st = keep st.first ++ kept_tail st.later

-- A block body is open at each inner semicolon, behind what was kept.
abbrev pub StaysOpen : Text → List (List Piece) → Type 0
StaysOpen s [] = Unit
StaysOpen s (ps ∷ pss) =
    (in_block_body s ≡ true) × (pieces_ok ps ≡ true) × StaysOpen (s ++ b';' ∷ keep ps) pss

-- Each statement, and a semicolon.
abbrev pub script : List Statement → Text
script [] = []
script (s ∷ ss) = text s ++ b';' ∷ script ss
