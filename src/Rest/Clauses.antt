-- ===== src/Rest/Clauses.antt =====
-- The clauses without placeholders, and texts in a row.
use bunny_cli_fork.Common.{
  ℕ, ◌+◌, ◌*◌, Bool, true, false, List, [], ◌∷◌, ◌++◌, if◌then◌else◌, Text, codes, length, ◌≡◌,
  refl, arith,
}
use bunny_cli_fork.Rest.Query.{asc, desc, OrderClause, Direction}
use bunny_cli_fork.Rest.Sql.{quote_identifier, order_text, build_order_by, build_select}
use bunny_cli_fork.Rest.Neutral.{
  inside, holes, Neutral, Neutral-append, Neutral_cast, quote_identifier-Neutral, join-Neutral,
}
use bunny_cli_fork.Rest.Placeholders.{comma-Neutral}

order_text-Neutral : (o : OrderClause) → Neutral (order_text o) 0
unfolding order_text
order_text-Neutral o =
    Neutral-append (quote_identifier o.column) _ 0 0 (quote_identifier-Neutral o.column) (
      Neutral-append (elim o.direction [ asc ↦ codes " ASC" | desc ↦ codes " DESC" ])
        (if o.nulls_first then codes " NULLS FIRST" else []) 0 0 (direction-Neutral o.direction)
        (nulls-Neutral o.nulls_first))
  where
    direction-Neutral :
        (d : Direction) → Neutral (elim d [ asc ↦ codes " ASC" | desc ↦ codes " DESC" ]) 0
    direction-Neutral asc = unfold inside holes in record { outside = refl; count = refl }
    direction-Neutral desc = unfold inside holes in record { outside = refl; count = refl }

    nulls-Neutral : (b : Bool) → Neutral (if b then codes " NULLS FIRST" else []) 0
    nulls-Neutral true = unfold inside holes in record { outside = refl; count = refl }
    nulls-Neutral false = unfold inside holes in record { outside = refl; count = refl }

pub build_order_by-Neutral : (os : List OrderClause) → Neutral (build_order_by os) 0
unfolding build_order_by inside holes
build_order_by-Neutral [] = record { outside = refl; count = refl }
build_order_by-Neutral (o ∷ os) =
    Neutral-append (codes " ORDER BY ") _ 0 0 (record { outside = refl; count = refl })
      (Neutral_cast _ (length (o ∷ os) * 0) 0
        (join-Neutral order_text 0 (codes ", ") (o ∷ os) comma-Neutral order_text-Neutral)
        (omega arith))

pub build_select-Neutral : (cs : List Text) → Neutral (build_select cs) 0
unfolding build_select inside holes
build_select-Neutral [] = record { outside = refl; count = refl }
build_select-Neutral (c ∷ cs) =
    Neutral_cast _ (length (c ∷ cs) * 0) 0
      (join-Neutral quote_identifier 0 (codes ", ") (c ∷ cs) comma-Neutral quote_identifier-Neutral)
      (omega arith)

-- Two neutral texts, where the first has no placeholder.
pub plain_before : (s t : Text) (n : ℕ) → Neutral s 0 → Neutral t n → Neutral (s ++ t) n
plain_before s t n h k = Neutral_cast (s ++ t) (0 + n) n (Neutral-append s t 0 n h k) (omega arith)

pub plain_after : (s t : Text) (n : ℕ) → Neutral s n → Neutral t 0 → Neutral (s ++ t) n
plain_after s t n h k = Neutral_cast (s ++ t) (n + 0) n (Neutral-append s t n 0 h k) (omega arith)

abbrev pub IsWord : Text → Type 0
IsWord s = (inside false s ≡ false) × (holes false s ≡ 0)

pub word_before : (s t : Text) (n : ℕ) → IsWord s → Neutral t n → Neutral (s ++ t) n
word_before s t n h k = plain_before s t n (record { outside = h.0; count = h.1 }) k

pub word_after : (s t : Text) (n : ℕ) → Neutral s n → IsWord t → Neutral (s ++ t) n
word_after s t n h k = plain_after s t n h (record { outside = k.0; count = k.1 })

pub identifier_before :
    (name t : Text) (n : ℕ) → Neutral t n → Neutral (quote_identifier name ++ t) n
identifier_before name t n k =
    plain_before (quote_identifier name) t n (quote_identifier-Neutral name) k
