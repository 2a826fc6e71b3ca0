-- ===== src/SqlSplit/Scripts.antt =====
-- Whole scripts: the statements that come out, and where an unclosed quote is reported.
use bunny_cli_fork.Common.{
  ℕ, ◌+◌, true, false, List, [], ◌∷◌, ◌++◌, Text, length, length-append, append_assoc, map, trim,
  is_empty, All, take-append, append-nil, &&-split, ◌≡◌, refl, ap, ◌∙◌, arith,
}
use bunny_cli_fork.SqlSplit.Trigger.{is_opener, terminator, in_block_body}
use bunny_cli_fork.SqlSplit.Scan.{
  ok, err, plain, Scan, push, finish, semicolon, scan, newlines, column_from, syntax_error,
  unterminated_quote, split_statements,
}
use bunny_cli_fork.SqlSplit.Pieces.{
  Piece, literal, render, keep, kept_tail, kept, escape, pieces_ok, Statement, text, tail,
  StaysOpen, script,
}
use bunny_cli_fork.SqlSplit.Reading.{body_ok, scan_open, scan_escaped}
use bunny_cli_fork.SqlSplit.RoundTrip.{
  before, before_literal, scan_before, scan-render, scan-tail, scan-semicolon, no_quote-tail,
}

-- A statement as the splitter is to find it: its pieces are written out properly, each inner
-- semicolon stands in an open block body and the last one does not, and more than white space is kept
-- of it.
pub record IsWritten (s : Statement) : Type 0 where
  pub pieces : pieces_ok s.first ≡ true
  pub inner : StaysOpen (keep s.first) s.later
  pub closed : in_block_body (kept s) ≡ false
  pub solid : is_empty (trim (kept s)) ≡ false

abbrev fresh_scan : List Text → Scan
fresh_scan ss = record { statements = ss; current = [] }

-- What is found of a statement.
abbrev pub found : Statement → Text
found s = trim (kept s)

finish_statement :
    (ss : List Text) (s : Text) (st : Scan)
    → st.statements ≡ ss
    → st.current ≡ s
    → is_empty (trim s) ≡ false
    → finish st ≡ ss ++ trim s ∷ []
unfolding finish
finish_statement ss s st e f h = rw (f, h, e) refl

closing_semicolon :
    (ss : List Text) (s : Text)
    → in_block_body s ≡ false
    → is_empty (trim s) ≡ false
    → semicolon (push s (fresh_scan ss)) ≡ fresh_scan (ss ++ trim s ∷ [])
unfolding semicolon push
closing_semicolon ss s h k =
    rw h
      (ap fresh_scan (finish_statement ss s (record { statements = ss; current = s }) refl refl k))

module _ (sql : Text) where
  scan_statement :
      (s : Statement) (i : ℕ) (r : Text) (ss : List Text)
      → IsWritten s
      → scan sql plain i (text s ++ b';' ∷ r) (fresh_scan ss)
        ≡ scan sql plain (i + length (text s) + 1) r (fresh_scan (ss ++ found s ∷ []))
  unfolding push is_opener
  scan_statement s i r ss w =
      let a = render s.first in
      let b = tail s.later in
      let rest : Text = b';' ∷ r in
      let st = fresh_scan ss in
      rw (append_assoc a b rest) (
        scan-render sql s.first i (i + length a) (b ++ rest) st w.pieces
          (no_quote-tail s.later rest refl) refl
        ∙ scan-tail sql s.later (i + length a) (i + length (text s)) rest (push (keep s.first) st)
            w.inner refl (omega (arith, length-append a b))
        ∙ scan-semicolon sql (i + length (text s)) r
            (push (kept_tail s.later) (push (keep s.first) st))
        ∙ ap (scan sql plain (i + length (text s) + 1) r)
            (closing_semicolon ss (kept s) w.closed w.solid))

  scan-script :
      (qs : List Statement) (i j : ℕ) (r : Text) (ss : List Text)
      → All IsWritten qs
      → i + length (script qs) ≡ j
      → scan sql plain i (script qs ++ r) (fresh_scan ss)
        ≡ scan sql plain j r (fresh_scan (ss ++ map found qs))
  scan-script [] i j r ss h e = let i_eq : i ≡ j = omega arith in rw (append-nil ss, i_eq)
  scan-script (q ∷ qs) i j r ss (w, h) e = rw (append_assoc (text q) (b';' ∷ script qs) r) (
      scan_statement q i (script qs ++ r) ss w
      ∙ scan-script qs (i + length (text q) + 1) j r (ss ++ found q ∷ []) h
          (omega (arith, length-append (text q) (b';' ∷ script qs)))
      ∙ ap (λ t. scan sql plain j r (fresh_scan t)) (append_assoc ss (found q ∷ []) (map found qs)))

-- A script of statements written with plain units, quoted literals and comments, each followed by a
-- semicolon, is split into exactly those statements, in order, where a line comment leaves a newline
-- and a block comment a space, and white space at either end is dropped: no semicolon in a literal, a
-- comment or an open trigger body ends one. This is for statements that are more than white space,
-- whose own semicolon stands outside a block body.
pub split_statements-script :
    (qs : List Statement) → All IsWritten qs → split_statements (script qs) ≡ ok (map found qs)
unfolding split_statements trim
split_statements-script qs h =
    let sql = script qs in
    rw (← append-nil sql) (scan-script (sql ++ []) qs 0 (length sql) [] [] h (omega arith))

scan_unclosed :
    (sql : Text) (i o : ℕ) (s : Text) (st : Scan)
    → is_opener o ≡ true
    → body_ok (terminator o) s ≡ true
    → scan sql plain i (o ∷ escape (terminator o) s) st
      ≡ err (syntax_error sql i unterminated_quote)
unfolding scan
scan_unclosed sql i o s st h b =
    let w = escape (terminator o) s in
    rw (← append-nil w) (
      scan_open sql i o (w ++ []) st h
      ∙ scan_escaped sql i (terminator o) s (i + 1) (i + 1 + length w) [] (push (o ∷ []) st) b refl)

syntax_error_at :
    (before rest : Text) (n : ℕ)
    → n ≡ length before
    → syntax_error (before ++ rest) n unterminated_quote ≡ record {
      problem = unterminated_quote;
      line = newlines before + 1;
      column = column_from 1 before;
    }
unfolding syntax_error
syntax_error_at before rest n e = rw (e, take-append before rest)

-- Where the last literal of a script is never closed, the error names the line and the column of its
-- opening quote, whatever proper statements and pieces stand before it.
pub split_statements-unterminated :
    (qs : List Statement) (ps : List Piece) (o : ℕ) (s : Text)
    → All IsWritten qs
    → pieces_ok (ps ++ literal o s ∷ []) ≡ true
    → split_statements ((script qs ++ render ps) ++ o ∷ escape (terminator o) s)
      ≡ err (record {
        problem = unterminated_quote;
        line = newlines (script qs ++ render ps) + 1;
        column = column_from 1 (script qs ++ render ps);
      })
unfolding split_statements
split_statements-unterminated qs ps o s h k =
    let rest : Text = o ∷ escape (terminator o) s in
    let sql = (script qs ++ render ps) ++ rest in
    let i = length (script qs) in
    let proper = before_literal ps o s (escape (terminator o) s) k in
    let st = fresh_scan (map found qs) in
    scan_from sql (append_assoc (script qs) (render ps) rest)
    ∙ scan-script sql qs 0 i (render ps ++ rest) [] h (omega arith)
    ∙ scan_before sql ps i (i + length (render ps)) rest st proper.0 refl
    ∙ scan_unclosed sql (i + length (render ps)) o s (push (keep ps) st) (&&-split _ _ proper.1).0
        (&&-split _ _ proper.1).1
    ∙ ap err (
        syntax_error_at (script qs ++ render ps) rest (i + length (render ps))
          (omega (arith, length-append (script qs) (render ps))))
  where
    scan_from :
        (sql : Text) {a b : Text}
        → a ≡ b
        → scan sql plain 0 a (fresh_scan []) ≡ scan sql plain 0 b (fresh_scan [])
    scan_from sql e = ap (λ t. scan sql plain 0 t (fresh_scan [])) e
