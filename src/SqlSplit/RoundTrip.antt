-- ===== src/SqlSplit/RoundTrip.antt =====
-- The splitter gives back the statements that a script was written from.
use bunny_cli_fork.Common.{
  ℕ, ◌+◌, Bool, true, false, not, ◌&&◌, ◌||◌, List, [], ◌∷◌, ◌++◌, ◌==◌, Text, length,
  length-append, append_assoc, &&-split, &&-join, ◌≡◌, refl, ap, ◌∙◌, arith, newline,
}
use bunny_cli_fork.SqlSplit.Trigger.{is_opener, terminator, in_block_body, doubles}
use bunny_cli_fork.SqlSplit.Scan.{plain, Scan, push, semicolon, plain_step, plain_mode, scan}
use bunny_cli_fork.SqlSplit.Pieces.{
  Piece, unit, signed, literal, dashes, block, is_plain, escape, render_piece, render, keep_piece,
  keep, piece_ok, apart, pieces_ok, tail, kept_tail, StaysOpen,
}
use bunny_cli_fork.SqlSplit.Comments.{scan_dashes, scan_block}
use bunny_cli_fork.SqlSplit.Reading.{
  fresh, scan_plain, scan_literal, scan_step, push-push, push-nil,
}

-- No unit of a statement is taken for another's: the rest begins with no quote.
abbrev pub no_quote : Text → Bool
no_quote [] = true
no_quote (c ∷ r) = not (is_opener c)

opener_terminator :
    (o c : ℕ)
    → is_opener o ≡ true
    → is_opener c ≡ false
    → (not (doubles (terminator o)) || not (c == terminator o)) ≡ true
unfolding is_opener terminator doubles
opener_terminator o c h k = ground arith

apart-append :
    (p : Piece) (s r : Text)
    → piece_ok p ≡ true
    → apart p s ≡ true
    → no_quote r ≡ true
    → apart p (s ++ r) ≡ true
apart-append (unit c) s r h k n = refl
apart-append (signed c d) s r h k n = refl
apart-append (dashes b) s r h k n = refl
apart-append (block b) s r h k n = refl
apart-append (literal o b) [] [] h k n = refl
apart-append (literal o b) [] (c ∷ r) h k n = ground (arith, opener_terminator o c)
apart-append (literal o b) (c ∷ s) r h k n = k

-- The pieces are written out properly, before a given rest.
abbrev pub before : Text → List Piece → Bool
before r [] = true
before r (p ∷ ps) = piece_ok p && apart p (render ps ++ r) && before r ps

before_of_pieces_ok :
    (ps : List Piece) (r : Text) → pieces_ok ps ≡ true → no_quote r ≡ true → before r ps ≡ true
before_of_pieces_ok [] r h n = refl
before_of_pieces_ok (p ∷ ps) r h n =
    let here = &&-split (piece_ok p && apart p (render ps)) (pieces_ok ps) h in
    let first = &&-split (piece_ok p) (apart p (render ps)) here.0 in
    &&-join (piece_ok p && apart p (render ps ++ r)) (before r ps)
      (&&-join (piece_ok p) (apart p (render ps ++ r)) first.0
        (apart-append p (render ps) r first.0 first.1 n))
      (before_of_pieces_ok ps r here.1 n)

apart_head :
    (p : Piece) (ps : List Piece) (o : ℕ) (s t : Text)
    → apart p (render (ps ++ literal o s ∷ [])) ≡ apart p (render ps ++ o ∷ t)
apart_head (unit c) ps o s t = refl
apart_head (signed c d) ps o s t = refl
apart_head (dashes b) ps o s t = refl
apart_head (block b) ps o s t = refl
apart_head (literal q b) [] o s t = refl
apart_head (literal q b) (dashes c ∷ ps) o s t = refl
apart_head (literal q b) (block c ∷ ps) o s t = refl
apart_head (literal q b) (unit c ∷ ps) o s t = refl
apart_head (literal q b) (signed c d ∷ ps) o s t = refl
apart_head (literal q b) (literal c d ∷ ps) o s t = refl

-- Pieces that would be proper with one more literal stand properly before its opening.
pub before_literal :
    (ps : List Piece) (o : ℕ) (s t : Text)
    → pieces_ok (ps ++ literal o s ∷ []) ≡ true
    → (before (o ∷ t) ps ≡ true) × (piece_ok (literal o s) ≡ true)
before_literal [] o s t h = (refl, ground arith)
before_literal (p ∷ ps) o s t h =
    let all = render (ps ++ literal o s ∷ []) in
    let here = &&-split (piece_ok p && apart p all) (pieces_ok (ps ++ literal o s ∷ [])) h in
    let first = &&-split (piece_ok p) (apart p all) here.0 in
    let later = before_literal ps o s t here.1 in
    (
      &&-join (piece_ok p && apart p (render ps ++ o ∷ t)) (before (o ∷ t) ps)
          (&&-join (piece_ok p) (apart p (render ps ++ o ∷ t)) first.0
            (rw (apart_head p ps o s t) at first.1))
          later.0,
      later.1,
    )

fresh_of_apart : (o : ℕ) (s r : Text) → apart (literal o s) r ≡ true → fresh (terminator o) r ≡ true
fresh_of_apart o s [] h = refl
fresh_of_apart o s (c ∷ r) h = h

is_plain-comment :
    (c : ℕ) (d : ℕ)
    → is_plain c ≡ true
    → ((c == b'-' && d == b'-') || (c == b'/' && d == b'*')) ≡ false
is_plain-comment c d h = ground arith

pub no_quote-tail :
    (pss : List (List Piece)) (r : Text) → no_quote r ≡ true → no_quote (tail pss ++ r) ≡ true
unfolding is_opener
no_quote-tail [] r h = h
no_quote-tail (ps ∷ pss) r h = refl

sign_no_opener : (c d : ℕ) → piece_ok (signed c d) ≡ true → is_opener c ≡ false
unfolding is_opener
sign_no_opener c d h = ground arith

add_two : (i : ℕ) → i + 1 + 1 ≡ i + 2
add_two i = omega arith

module _ (sql : Text) where
  scan_unit :
      (i c : ℕ) (r : Text) (st : Scan)
      → is_plain c ≡ true
      → scan sql plain i (c ∷ r) st ≡ scan sql plain (i + 1) r (push (c ∷ []) st)
  scan_unit i c [] st h = scan_plain sql i c [] st refl (ground arith) (ground arith)
  scan_unit i c (d ∷ r) st h =
      scan_plain sql i c (d ∷ r) st (is_plain-comment c d h) (ground arith) (ground arith)

  scan_piece :
      (p : Piece) (i : ℕ) (r : Text) (st : Scan)
      → piece_ok p ≡ true
      → apart p r ≡ true
      → scan sql plain i (render_piece p ++ r) st
        ≡ scan sql plain (i + length (render_piece p)) r (push (keep_piece p) st)
  scan_piece (unit c) i r st h k = scan_unit i c r st h
  scan_piece (signed c d) i r st h k =
      scan_plain sql i c (d ∷ r) st (ground arith) (sign_no_opener c d h) (ground arith)
      ∙ scan_unit (i + 1) d r (push (c ∷ []) st) (ground arith)
      ∙ cc (push-push sql (c ∷ []) (d ∷ []) st, add_two i)
  scan_piece (literal o s) i r st h k =
      let q = terminator o in
      let w = escape q s in
      rw (append_assoc w (q ∷ []) r) (
        scan_literal sql i o s r st (&&-split _ _ h).0 (&&-split _ _ h).1 (fresh_of_apart o s r k)
        ∙ ap (λ n. scan sql plain n r (push (o ∷ (w ++ q ∷ [])) st))
            (omega (arith, length-append w (q ∷ []))))
  scan_piece (dashes s) i r st h k = rw (append_assoc s (newline ∷ []) r) (
      scan_dashes sql s i r st h
      ∙ ap (λ n. scan sql plain n r (push (newline ∷ []) st))
          (omega (arith, length-append s (newline ∷ []))))
  scan_piece (block s) i r st h k = rw (append_assoc s (b'*' ∷ b'/' ∷ []) r) (
      scan_block sql s i r st h
      ∙ ap (λ n. scan sql plain n r (push (32 ∷ []) st))
          (omega (arith, length-append s (b'*' ∷ b'/' ∷ []))))

  pub scan_before :
      (ps : List Piece) (i j : ℕ) (r : Text) (st : Scan)
      → before r ps ≡ true
      → i + length (render ps) ≡ j
      → scan sql plain i (render ps ++ r) st ≡ scan sql plain j r (push (keep ps) st)
  scan_before [] i j r st h e = let i_eq : i ≡ j = omega arith in rw (push-nil sql st, i_eq)
  scan_before (p ∷ ps) i j r st h e =
      let a = render_piece p in
      let b = render ps in
      let here = &&-split (piece_ok p && apart p (b ++ r)) (before r ps) h in
      let first = &&-split (piece_ok p) (apart p (b ++ r)) here.0 in
      rw (append_assoc a b r) (
        scan_piece p i (b ++ r) st first.0 first.1
        ∙ scan_before ps (i + length a) j r (push (keep_piece p) st) here.1
            (omega (arith, length-append a b))
        ∙ ap (scan sql plain j r) (push-push sql (keep_piece p) (keep ps) st))

  pub scan-render :
      (ps : List Piece) (i j : ℕ) (r : Text) (st : Scan)
      → pieces_ok ps ≡ true
      → no_quote r ≡ true
      → i + length (render ps) ≡ j
      → scan sql plain i (render ps ++ r) st ≡ scan sql plain j r (push (keep ps) st)
  scan-render ps i j r st h n e = scan_before ps i j r st (before_of_pieces_ok ps r h n) e

  pub scan-semicolon :
      (i : ℕ) (r : Text) (st : Scan)
      → scan sql plain i (b';' ∷ r) st ≡ scan sql plain (i + 1) r (semicolon st)
  unfolding plain_mode plain_step
  scan-semicolon i [] st = scan_step sql i b';' [] st refl
  scan-semicolon i (c ∷ r) st = scan_step sql i b';' (c ∷ r) st refl

  inner_semicolon :
      (st : Scan) → in_block_body st.current ≡ true → semicolon st ≡ push (b';' ∷ []) st
  unfolding semicolon
  inner_semicolon st h = rw h

  pub scan-tail :
      (pss : List (List Piece)) (i j : ℕ) (r : Text) (st : Scan)
      → StaysOpen st.current pss
      → no_quote r ≡ true
      → i + length (tail pss) ≡ j
      → scan sql plain i (tail pss ++ r) st ≡ scan sql plain j r (push (kept_tail pss) st)
  unfolding push
  scan-tail [] i j r st h n e = let i_eq : i ≡ j = omega arith in rw (push-nil sql st, i_eq)
  scan-tail (ps ∷ pss) i j r st (inside, good, more) n e =
      let a = render ps in
      let k = keep ps in
      let b = tail pss in
      let first : Text = b';' ∷ [] in
      rw (append_assoc a b r) (
        scan-semicolon i (a ++ (b ++ r)) st
        ∙ ap (scan sql plain (i + 1) (a ++ (b ++ r))) (inner_semicolon st inside)
        ∙ scan-render ps (i + 1) (i + 1 + length a) (b ++ r) (push first st) good
            (no_quote-tail pss r n) refl
        ∙ ap (scan sql plain (i + 1 + length a) (b ++ r)) (push-push sql first k st)
        ∙ scan-tail pss (i + 1 + length a) j r (push (first ++ k) st) more n
            (omega (arith, length-append a b))
        ∙ ap (scan sql plain j r) (push-push sql (first ++ k) (kept_tail pss) st))
