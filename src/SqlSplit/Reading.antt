-- ===== src/SqlSplit/Reading.antt =====
-- The scanner over one piece, over the pieces of a statement, and over a quoted body.
use bunny_cli_fork.Common.{
  ℕ, ◌+◌, Bool, true, false, not, ◌&&◌, ◌||◌, [], ◌∷◌, ◌++◌, ◌==◌, Text, length, append_assoc,
  append-nil, Bool-cases, ◌≡◌, refl, ap, ◌∙◌, inl, inr, arith,
}
use bunny_cli_fork.SqlSplit.Trigger.{is_opener, terminator, doubles}
use bunny_cli_fork.SqlSplit.Scan.{plain, quoted, Scan, push, plain_step, plain_mode, scan}
use bunny_cli_fork.SqlSplit.Pieces.{escape, lacks}

abbrev pub opens_comment : ℕ → Text → Bool
opens_comment c [] = false
opens_comment c (d ∷ s) = (c == b'-' && d == b'-') || (c == b'/' && d == b'*')

-- The rest does not begin with the quote.
abbrev pub fresh : ℕ → Text → Bool
fresh q [] = true
fresh q (c ∷ r) = not (doubles q) || not (c == q)

abbrev pub body_ok : ℕ → Text → Bool
body_ok q s = doubles q || lacks q s

escape_quote : (q c : ℕ) (s : Text) → (c == q) ≡ true → escape q (c ∷ s) ≡ q ∷ q ∷ escape q s
unfolding escape
escape_quote q c s h = ground arith

escape_other : (q c : ℕ) (s : Text) → (c == q) ≡ false → escape q (c ∷ s) ≡ c ∷ escape q s
unfolding escape
escape_other q c s h = rw h

doubles_of_quote :
    (q c : ℕ) (s : Text) → body_ok q (c ∷ s) ≡ true → (c == q) ≡ true → doubles q ≡ true
doubles_of_quote q c s h e = ground arith

body_ok-tail : (q c : ℕ) (s : Text) → body_ok q (c ∷ s) ≡ true → body_ok q s ≡ true
body_ok-tail q c s h = ground arith

opener_no_comment : (o : ℕ) (t : Text) → is_opener o ≡ true → opens_comment o t ≡ false
unfolding is_opener
opener_no_comment o [] h = refl
opener_no_comment o (d ∷ t) h = ground arith

opener_no_semicolon : (o : ℕ) → is_opener o ≡ true → (o == b';') ≡ false
unfolding is_opener
opener_no_semicolon o h = ground arith

module _ (sql : Text) where
  pub scan_step :
      (i c : ℕ) (s : Text) (st : Scan)
      → opens_comment c s ≡ false
      → scan sql plain i (c ∷ s) st ≡ scan sql (plain_mode i c) (i + 1) s (plain_step c st)
  unfolding scan
  scan_step i c [] st h = refl
  scan_step i c (d ∷ s) st h = ground arith

  pub scan_plain :
      (i c : ℕ) (s : Text) (st : Scan)
      → opens_comment c s ≡ false
      → is_opener c ≡ false
      → (c == b';') ≡ false
      → scan sql plain i (c ∷ s) st ≡ scan sql plain (i + 1) s (push (c ∷ []) st)
  scan_plain i c s st h o e = scan_step i c s st h ∙ (unfold plain_mode plain_step in rw (o, e))

  pub push-push : (s t : Text) (st : Scan) → push t (push s st) ≡ push (s ++ t) st
  unfolding push
  push-push s t st = rw (append_assoc st.current s t)

  pub push-nil : (st : Scan) → push [] st ≡ st
  unfolding push
  push-nil st = rw (append-nil st.current)

  scan_close :
      (start q i : ℕ) (r : Text) (st : Scan)
      → fresh q r ≡ true
      → scan sql (quoted q start) i (q ∷ r) st ≡ scan sql plain (i + 1) r (push (q ∷ []) st)
  unfolding scan
  scan_close start q i [] st h = ground arith
  scan_close start q i (c ∷ r) st h = ground arith

  scan_inside :
      (start q i c : ℕ) (t : Text) (st : Scan)
      → (c == q) ≡ false
      → scan sql (quoted q start) i (c ∷ t) st
        ≡ scan sql (quoted q start) (i + 1) t (push (c ∷ []) st)
  unfolding scan
  scan_inside start q i c [] st h = rw h
  scan_inside start q i c (d ∷ t) st h = rw h

  scan_doubled :
      (start q i : ℕ) (t : Text) (st : Scan)
      → doubles q ≡ true
      → scan sql (quoted q start) i (q ∷ q ∷ t) st
        ≡ scan sql (quoted q start) (i + 2) t (push (q ∷ q ∷ []) st)
  unfolding scan
  scan_doubled start q i t st h = ground arith

  scan_nothing :
      (start q i j : ℕ) (t : Text) (st : Scan)
      → i + length (escape q []) ≡ j
      → scan sql (quoted q start) i (escape q [] ++ t) st
        ≡ scan sql (quoted q start) j t (push (escape q []) st)
  unfolding escape
  scan_nothing start q i j t st e = let i_eq : i ≡ j = omega arith in rw (push-nil st, i_eq)

  -- A body in its written form is read whole, up to whatever follows it.
  pub scan_escaped :
      (start q : ℕ) (s : Text) (i j : ℕ) (t : Text) (st : Scan)
      → body_ok q s ≡ true
      → i + length (escape q s) ≡ j
      → scan sql (quoted q start) i (escape q s ++ t) st
        ≡ scan sql (quoted q start) j t (push (escape q s) st)
  scan_escaped start q [] i j t st h e = scan_nothing start q i j t st e
  scan_escaped start q (c ∷ s) i j t st h e = elim (Bool-cases (c == q)) [
    | inl same ↦
        let written = escape_quote q c s same in
        rw written (
          scan_doubled start q i (escape q s ++ t) st (doubles_of_quote q c s h same)
          ∙ scan_escaped start q s (i + 2) j t (push (q ∷ q ∷ []) st) (body_ok-tail q c s h)
              (omega (arith, ap length written))
          ∙ ap (scan sql (quoted q start) j t) (push-push (q ∷ q ∷ []) (escape q s) st))
    | inr other ↦
        let written = escape_other q c s other in
        rw written (
          scan_inside start q i c (escape q s ++ t) st other
          ∙ scan_escaped start q s (i + 1) j t (push (c ∷ []) st) (body_ok-tail q c s h)
              (omega (arith, ap length written))
          ∙ ap (scan sql (quoted q start) j t) (push-push (c ∷ []) (escape q s) st))
  ]

  pub scan_open :
      (i o : ℕ) (t : Text) (st : Scan)
      → is_opener o ≡ true
      → scan sql plain i (o ∷ t) st
        ≡ scan sql (quoted (terminator o) i) (i + 1) t (push (o ∷ []) st)
  scan_open i o t st h =
      scan_step i o t st (opener_no_comment o t h)
      ∙ (unfold plain_mode plain_step in rw (h, opener_no_semicolon o h))

  pub scan_literal :
      (i o : ℕ) (s r : Text) (st : Scan)
      → is_opener o ≡ true
      → body_ok (terminator o) s ≡ true
      → fresh (terminator o) r ≡ true
      → scan sql plain i (o ∷ (escape (terminator o) s ++ terminator o ∷ r)) st
        ≡ scan sql plain
            (i + 1 + length (escape (terminator o) s) + 1)
            r
            (push (o ∷ (escape (terminator o) s ++ terminator o ∷ [])) st)
  scan_literal i o s r st h b f =
      let q = terminator o in
      let w = escape q s in
      scan_open i o (w ++ q ∷ r) st h
      ∙ scan_escaped i q s (i + 1) (i + 1 + length w) (q ∷ r) (push (o ∷ []) st) b refl
      ∙ scan_close i q (i + 1 + length w) r (push w (push (o ∷ []) st)) f
      ∙ ap (scan sql plain (i + 1 + length w + 1) r)
          (push-push w (q ∷ []) (push (o ∷ []) st) ∙ push-push (o ∷ []) (w ++ q ∷ []) st)
