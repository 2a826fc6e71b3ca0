-- ===== src/Cli/Distance.antt =====
-- packages/cli/src/core/suggest.ts, distance: one row of the table is kept and rewritten in place.
use bunny_cli_fork.Common.{ℕ, suc, zero, ◌+◌, List, [], ◌∷◌, ◌==◌, leb, if◌then◌else◌, Text, length}

-- Math.min(a, b, c)
unfoldable pub least_of : ℕ → ℕ → ℕ → ℕ
least_of a b c = let ab = if leb a b then a else b in if leb ab c then ab else c

unfoldable pub cost : ℕ → ℕ → ℕ
cost c d = if c == d then 0 else 1

-- `Array.from({ length: n }, (_, i) => i)`, from `i` on.
unfoldable pub count_from : ℕ → ℕ → List ℕ
count_from zero i = []
count_from (suc n) i = i ∷ count_from n (i + 1)

-- The inner loop from `j` on: `diag`, the entry just written at `j - 1`, the rest of `b` and the
-- entries not yet rewritten. An entry that is missing counts as 0.
unfoldable pub rewrite : ℕ → ℕ → ℕ → Text → List ℕ → List ℕ
unfolding least_of cost
rewrite c diag left [] row = []
rewrite c diag left (d ∷ b) [] =
    let v = least_of (0 + 1) (left + 1) (diag + cost c d) in v ∷ rewrite c 0 v b []
rewrite c diag left (d ∷ b) (tmp ∷ row) =
    let v = least_of (tmp + 1) (left + 1) (diag + cost c d) in v ∷ rewrite c tmp v b row

-- One turn of the outer loop.
unfoldable pub next_row : ℕ → ℕ → Text → List ℕ → List ℕ
unfolding rewrite
next_row i c b [] = i ∷ rewrite c 0 i b []
next_row i c b (first ∷ row) = i ∷ rewrite c first i b row

unfoldable pub all_rows : ℕ → Text → Text → List ℕ → List ℕ
unfolding next_row
all_rows i [] b row = row
all_rows i (c ∷ a) b row = all_rows (i + 1) a b (next_row i c b row)

-- `prev[n] ?? 0`
unfoldable pub entry : ℕ → List ℕ → ℕ
entry n [] = 0
entry zero (v ∷ row) = v
entry (suc n) (v ∷ row) = entry n row

unfoldable pub distance : Text → Text → ℕ
unfolding all_rows entry count_from
distance a b = entry (length b) (all_rows 1 a b (count_from (length b + 1) 0))
