-- ===== src/SqlSplit/Statements.antt =====
-- What `split_statements` returns, whatever the script.
use bunny_cli_fork.Common.{
  ℕ, ◌+◌, false, not, ◌&&◌, List, [], ◌∷◌, ◌==◌, if◌then◌else◌, Text, trim, newline, is_empty, All,
  All-append, Bool-cases, if_both, ◌≡◌, ◌≢◌, inl, inr, arith,
}
use bunny_cli_fork.Common.Trim.{IsTrimmed, trim-IsTrimmed}
use bunny_cli_fork.SqlSplit.Trigger.{in_block_body, doubles}
use bunny_cli_fork.SqlSplit.Scan.{
  Split, ok, err, Mode, plain, line_comment, quoted, block_comment, Scan, push, finish, semicolon,
  at_end, plain_step, plain_mode, scan, split_statements,
}

-- A statement has a first unit, and no space at either end.
pub record IsStatement (s : Text) : Type 0 where
  pub trimmed : IsTrimmed s
  pub solid : s ≢ []

abbrev Returns : Split → Type 0
Returns (ok ss) = All IsStatement ss
Returns (err e) = Unit

abbrev Holds : Scan → Type 0
Holds st = All IsStatement st.statements

ne_nil : (s : Text) → is_empty s ≡ false → s ≢ []
ne_nil s h e = ground arith

finish-Holds : (st : Scan) → Holds st → All IsStatement (finish st)
unfolding finish
finish-Holds st h = elim (Bool-cases (is_empty (trim st.current))) [
  | inl e ↦ rw e h
  | inr e ↦ rw e (
      All-append IsStatement st.statements (trim st.current ∷ []) h
        (record { trimmed = trim-IsTrimmed st.current; solid = ne_nil _ e }, tt))
]

semicolon-Holds : (st : Scan) → Holds st → Holds (semicolon st)
unfolding semicolon push
semicolon-Holds st h = elim (Bool-cases (in_block_body st.current)) [
  | inl e ↦ rw e h
  | inr e ↦ rw e (finish-Holds st h)
]

plain_step-Holds : (c : ℕ) (st : Scan) → Holds st → Holds (plain_step c st)
unfolding plain_step push
plain_step-Holds c st h = elim (Bool-cases (c == b';')) [
  | inl e ↦ rw e (semicolon-Holds st h)
  | inr e ↦ rw e h
]

at_end-Returns : (sql : Text) (m : Mode) (st : Scan) → Holds st → Returns (at_end sql m st)
unfolding at_end
at_end-Returns sql plain st h = finish-Holds st h
at_end-Returns sql line_comment st h = finish-Holds st h
at_end-Returns sql (quoted q start) st h = tt
at_end-Returns sql (block_comment start) st h = tt

scan-Returns :
    (sql : Text) (m : Mode) (i : ℕ) (s : Text) (st : Scan) → Holds st → Returns (scan sql m i s st)
unfolding scan push
scan-Returns sql m i [] st h = at_end-Returns sql m st h
scan-Returns sql plain i (c ∷ []) st h =
    at_end-Returns sql (plain_mode i c) (plain_step c st) (plain_step-Holds c st h)
scan-Returns sql plain i (c ∷ d ∷ s) st h =
    if_both Returns (c == b'-' && d == b'-') _ _ (scan-Returns sql line_comment (i + 2) s st h) (
      if_both Returns (c == b'/' && d == b'*') _ _
        (scan-Returns sql (block_comment i) (i + 2) s st h)
        (scan-Returns sql (plain_mode i c) (i + 1) (d ∷ s) (plain_step c st)
          (plain_step-Holds c st h)))
scan-Returns sql line_comment i (c ∷ s) st h =
    if_both Returns (c == newline) _ _ (scan-Returns sql plain (i + 1) s (push (newline ∷ []) st) h)
      (scan-Returns sql line_comment (i + 1) s st h)
scan-Returns sql (block_comment start) i (c ∷ []) st h = tt
scan-Returns sql (block_comment start) i (c ∷ d ∷ s) st h =
    if_both Returns (c == b'*' && d == b'/') _ _
      (scan-Returns sql plain (i + 2) s (push (32 ∷ []) st) h)
      (scan-Returns sql (block_comment start) (i + 1) (d ∷ s) st h)
scan-Returns sql (quoted q start) i (c ∷ []) st h =
    at_end-Returns sql (if c == q then plain else quoted q start) (push (c ∷ []) st) h
scan-Returns sql (quoted q start) i (c ∷ d ∷ s) st h =
    if_both Returns (not (c == q)) _ _
      (scan-Returns sql (quoted q start) (i + 1) (d ∷ s) (push (c ∷ []) st) h)
      (if_both Returns (doubles q && d == q) _ _
        (scan-Returns sql (quoted q start) (i + 2) s (push (c ∷ q ∷ []) st) h)
        (scan-Returns sql plain (i + 1) (d ∷ s) (push (c ∷ []) st) h))

-- Whatever the script, each statement that the splitter returns is not empty and has no white space
-- at either end.
pub split_statements-IsStatement :
    (sql : Text) (ss : List Text) → split_statements sql ≡ ok ss → All IsStatement ss
unfolding split_statements
split_statements-IsStatement sql ss e =
    rw e at (scan-Returns sql plain 0 sql (record { statements = []; current = [] }) tt)
