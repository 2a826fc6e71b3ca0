-- ===== src/SqlSplit/Comments.antt =====
-- The scanner over a comment.
use bunny_cli_fork.Common.{
  ℕ, ◌+◌, true, false, ◌&&◌, [], ◌∷◌, ◌++◌, ◌==◌, Text, newline, length, ◌≡◌, refl, ap, ◌∙◌, arith,
}
use bunny_cli_fork.SqlSplit.Scan.{plain, line_comment, block_comment, Scan, push, scan}
use bunny_cli_fork.SqlSplit.Pieces.{lacks, stays_inside}

module _ (sql : Text) where
  scan_line_end :
      (i : ℕ) (r : Text) (st : Scan)
      → scan sql line_comment i (newline ∷ r) st ≡ scan sql plain (i + 1) r (push (newline ∷ []) st)
  unfolding scan
  scan_line_end i r st = refl

  scan_line_skip :
      (i c : ℕ) (s : Text) (st : Scan)
      → (c == newline) ≡ false
      → scan sql line_comment i (c ∷ s) st ≡ scan sql line_comment (i + 1) s st
  unfolding scan
  scan_line_skip i c s st h = rw h refl

  scan_line :
      (s : Text) (i j : ℕ) (r : Text) (st : Scan)
      → lacks newline s ≡ true
      → i + length s + 1 ≡ j
      → scan sql line_comment i (s ++ newline ∷ r) st ≡ scan sql plain j r (push (newline ∷ []) st)
  scan_line [] i j r st h e =
      scan_line_end i r st
      ∙ ap (λ n. scan sql plain n r (push (newline ∷ []) st)) (omega (arith, e))
  scan_line (c ∷ s) i j r st h e =
      scan_line_skip i c (s ++ newline ∷ r) st (ground arith)
      ∙ scan_line s (i + 1) j r st (ground arith) (omega (arith, e))

  pub scan_dashes :
      (s : Text) (i : ℕ) (r : Text) (st : Scan)
      → lacks newline s ≡ true
      → scan sql plain i (b'-' ∷ b'-' ∷ (s ++ newline ∷ r)) st
        ≡ scan sql plain (i + 2 + length s + 1) r (push (newline ∷ []) st)
  scan_dashes s i r st h = opens ∙ scan_line s (i + 2) (i + 2 + length s + 1) r st h refl
    where
      opens :
          scan sql plain i (b'-' ∷ b'-' ∷ (s ++ newline ∷ r)) st
          ≡ scan sql line_comment (i + 2) (s ++ newline ∷ r) st
      opens = unfold scan in refl

  scan_block_end :
      (start i : ℕ) (r : Text) (st : Scan)
      → scan sql (block_comment start) i (b'*' ∷ b'/' ∷ r) st
        ≡ scan sql plain (i + 2) r (push (32 ∷ []) st)
  unfolding scan
  scan_block_end start i r st = refl

  scan_block_skip :
      (start i c d : ℕ) (s : Text) (st : Scan)
      → (c == b'*' && d == b'/') ≡ false
      → scan sql (block_comment start) i (c ∷ d ∷ s) st
        ≡ scan sql (block_comment start) (i + 1) (d ∷ s) st
  unfolding scan
  scan_block_skip start i c d s st h = rw h refl

  scan_inside_block :
      (start : ℕ) (s : Text) (i j : ℕ) (r : Text) (st : Scan)
      → stays_inside s ≡ true
      → i + length s + 2 ≡ j
      → scan sql (block_comment start) i (s ++ b'*' ∷ b'/' ∷ r) st
        ≡ scan sql plain j r (push (32 ∷ []) st)
  scan_inside_block start [] i j r st h e =
      scan_block_end start i r st
      ∙ ap (λ n. scan sql plain n r (push (32 ∷ []) st)) (omega (arith, e))
  scan_inside_block start (c ∷ []) i j r st h e =
      scan_block_skip start i c b'*' (b'/' ∷ r) st (ground arith)
      ∙ scan_inside_block start [] (i + 1) j r st refl (omega (arith, e))
  scan_inside_block start (c ∷ d ∷ s) i j r st h e =
      scan_block_skip start i c d (s ++ b'*' ∷ b'/' ∷ r) st (ground arith)
      ∙ scan_inside_block start (d ∷ s) (i + 1) j r st (ground arith) (omega (arith, e))

  pub scan_block :
      (s : Text) (i : ℕ) (r : Text) (st : Scan)
      → stays_inside s ≡ true
      → scan sql plain i (b'/' ∷ b'*' ∷ (s ++ b'*' ∷ b'/' ∷ r)) st
        ≡ scan sql plain (i + 2 + length s + 2) r (push (32 ∷ []) st)
  scan_block s i r st h = opens ∙ scan_inside_block i s (i + 2) (i + 2 + length s + 2) r st h refl
    where
      opens :
          scan sql plain i (b'/' ∷ b'*' ∷ (s ++ b'*' ∷ b'/' ∷ r)) st
          ≡ scan sql (block_comment i) (i + 2) (s ++ b'*' ∷ b'/' ∷ r) st
      opens = unfold scan in refl
