-- ===== src/Migrations/Checksum.antt =====
-- What a migration's checksum does not see.
use bunny_cli_fork.Common.{
  ℕ, Bool, true, false, not, [], ◌∷◌, ◌==◌, all, if◌then◌else◌, Text, trim, Bool-cases, ==→eq, ◌≡◌,
  refl, ap, sym, ◌∙◌, inl, inr, arith,
}
use bunny_cli_fork.Migrations.History.{unix_lines, checksum}

-- The text with the line endings of Windows.
unfoldable pub dos_lines : Text → Text
dos_lines [] = []
dos_lines (c ∷ s) = let rest = dos_lines s in if c == 10 then 13 ∷ 10 ∷ rest else c ∷ rest

unix_lines-keep : (c : ℕ) (s : Text) → (c == 13) ≡ false → unix_lines (c ∷ s) ≡ c ∷ unix_lines s
unfolding unix_lines
unix_lines-keep c [] h = refl
unix_lines-keep c (d ∷ s) h = rw h refl

abbrev pub no_returns : Text → Bool
no_returns s = all (λ c. not (c == 13)) s

unix_lines-ending :
    (c : ℕ) (s t : Text) → (c == 10) ≡ true → unix_lines t ≡ s → unix_lines (13 ∷ 10 ∷ t) ≡ c ∷ s
unfolding unix_lines
unix_lines-ending c s t e rest = ap (λ u. 10 ∷ u) rest ∙ ap (λ d. d ∷ s) (sym (==→eq c 10 e))

unix_lines-dos_lines : (s : Text) → no_returns s ≡ true → unix_lines (dos_lines s) ≡ s
unfolding dos_lines
unix_lines-dos_lines [] h = unfold unix_lines in refl
unix_lines-dos_lines (c ∷ s) h =
    let rest = unix_lines-dos_lines s (ground (arith, h)) in
    elim (Bool-cases (c == 10)) [
      | inl e ↦ rw e (unix_lines-ending c s (dos_lines s) e rest)
      | inr e ↦ rw e (unix_lines-keep c (dos_lines s) (ground (arith, h)) ∙ ap (λ t. c ∷ t) rest)
    ]

unix_lines-same : (s : Text) → no_returns s ≡ true → unix_lines s ≡ s
unix_lines-same [] h = unfold unix_lines in refl
unix_lines-same (c ∷ s) h =
    unix_lines-keep c s (ground (arith, h))
    ∙ ap (λ t. c ∷ t) (unix_lines-same s (ground (arith, h)))

-- A file without carriage returns has the checksum it has with the line endings of Windows.
pub checksum-dos_lines :
    (sha256 : Text → Text) (sql : Text)
    → no_returns sql ≡ true
    → checksum sha256 (dos_lines sql) ≡ checksum sha256 sql
unfolding checksum
checksum-dos_lines sha256 sql h =
    ap (λ t. sha256 (trim t)) (unix_lines-dos_lines sql h ∙ sym (unix_lines-same sql h))
