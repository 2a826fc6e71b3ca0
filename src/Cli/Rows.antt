-- ===== src/Cli/Rows.antt =====
-- The rows of `distance` hold the least numbers of edits between prefixes of the two texts.
use bunny_cli_fork.Common.{
  ℕ, suc, ◌+◌, ◌≤◌, List, [], ◌∷◌, reverse, reverse-reverse, Text, length, ◌≡◌, refl, sym, subst,
  ap, ◌∙◌, arith,
}
use mathlib.Core.List.{reverse_aux}
use bunny_cli_fork.Cli.Distance.{count_from, rewrite, next_row, all_rows, entry, distance}
use bunny_cli_fork.Cli.Edits.{Edits, least, least-below, least-Edits, Edits-reverse}

-- The entries behind the first, for prefixes in reversed order: the one of the row and the one that
-- the row starts at.
unfoldable row_after : Text → Text → Text → List ℕ
row_after ra rb [] = []
row_after ra rb (d ∷ b) = least ra (d ∷ rb) ∷ row_after ra (d ∷ rb) b

rewrite-row :
    (c : ℕ) (ra rb b : Text)
    → rewrite c (least ra rb) (least (c ∷ ra) rb) b (row_after ra rb b) ≡ row_after (c ∷ ra) rb b
unfolding rewrite row_after least
rewrite-row c ra rb [] = refl
rewrite-row c ra rb (d ∷ b) =
    ap (λ row. least (c ∷ ra) (d ∷ rb) ∷ row) (rewrite-row c ra (d ∷ rb) b)

abbrev row_of : Text → Text → List ℕ
row_of ra b = least ra [] ∷ row_after ra [] b

least-empty : (ra : Text) → least ra [] ≡ length ra
unfolding least
least-empty [] = refl
least-empty (c ∷ s) = refl

next_row-row :
    (c i : ℕ) (ra b : Text) → i ≡ suc (length ra) → next_row i c b (row_of ra b) ≡ row_of (c ∷ ra) b
unfolding next_row
next_row-row c i ra b h =
    ap (λ n. n ∷ rewrite c (least ra []) n b (row_after ra [] b)) (h ∙ sym (least-empty (c ∷ ra)))
    ∙ ap (λ row. least (c ∷ ra) [] ∷ row) (rewrite-row c ra [] b)

all_rows-row :
    (a ra b : Text) (i : ℕ)
    → i ≡ suc (length ra)
    → all_rows i a b (row_of ra b) ≡ row_of (reverse_aux a ra) b
unfolding all_rows
all_rows-row [] ra b i h = refl
all_rows-row (c ∷ a) ra b i h =
    ap (all_rows (i + 1) a b) (next_row-row c i ra b h)
    ∙ all_rows-row a (c ∷ ra) b (i + 1) (omega (arith, h))

count_from-row :
    (b rb : Text) (i : ℕ)
    → i ≡ length rb
    → count_from (suc (length b)) i ≡ least [] rb ∷ row_after [] rb b
unfolding count_from row_after least
count_from-row [] rb i h = ap (λ n. n ∷ []) h
count_from-row (d ∷ b) rb i h =
    rw h (ap (λ row. length rb ∷ row) (count_from-row b (d ∷ rb) (length rb + 1) (omega arith)))

entry-last :
    (ra rb b : Text)
    → entry (length b) (least ra rb ∷ row_after ra rb b) ≡ least ra (reverse_aux b rb)
unfolding entry row_after
entry-last ra rb [] = refl
entry-last ra rb (d ∷ b) = entry-last ra (d ∷ rb) b

distance-least : (a b : Text) → distance a b ≡ least (reverse a) (reverse b)
unfolding distance
distance-least a b =
    ap (λ row. entry (length b) (all_rows 1 a b row))
      (ap (λ n. count_from n 0) {x = length b + 1} {y = suc (length b)} (omega arith)
        ∙ count_from-row b [] 0 refl)
    ∙ ap (entry (length b)) (all_rows-row a [] b 1 refl)
    ∙ entry-last (reverse a) [] b

-- So many single-unit deletions, insertions and replacements as the distance turn the one text into
-- the other, and whatever number of them does, the distance is no greater.
pub distance-Edits :
    (a b : Text) (n : ℕ) → Edits a b n → Edits a b (distance a b) × (distance a b ≤ n)
distance-Edits a b n e = (
  subst (λ n. Edits a b n) (sym (distance-least a b))
      (subst (λ s. Edits s b (least (reverse a) (reverse b))) (reverse-reverse a)
        (subst (λ t. Edits (reverse (reverse a)) t (least (reverse a) (reverse b)))
          (reverse-reverse b)
          (Edits-reverse (reverse a) (reverse b) _ (least-Edits (reverse a) (reverse b))))),
  rw (distance-least a b) (least-below (reverse a) (reverse b) n (Edits-reverse a b n e)),
)
