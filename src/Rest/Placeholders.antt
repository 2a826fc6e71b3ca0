-- ===== src/Rest/Placeholders.antt =====
-- Every query has as many placeholders as arguments.
use bunny_cli_fork.Common.{
  ℕ, ◌+◌, ◌*◌, true, false, Option, none, some, List, [], ◌∷◌, ◌++◌, Text, codes, join, length,
  length-append, length-map, All, All-append, ◌≡◌, refl, arith,
}
use bunny_cli_fork.Rest.Platform.{Platform, Value, bool, nil, many}
use bunny_cli_fork.Rest.Query.{Operator, is, in_list, inherited, FilterCondition}
use bunny_cli_fork.Rest.Sql.{
  quote_identifier, placeholders, comparison, SelectQuery, Pushed, scalar_arg, is_condition,
  in_condition, condition_of, push_filters, build_where,
}
use bunny_cli_fork.Rest.Neutral.{
  inside, holes, Neutral, Neutral-append, Neutral_cast, quote_identifier-Neutral, join-Neutral,
}

-- The number of holes in a list of neutral texts.
abbrev sum_holes : List Text → ℕ
sum_holes [] = 0
sum_holes (c ∷ cs) = holes false c + sum_holes cs

record Counted (cs : List Text) (n : ℕ) : Type 0 where
  each : All (λ c. inside false c ≡ false) cs
  total : sum_holes cs ≡ n

sum_holes-append : (cs ds : List Text) → sum_holes (cs ++ ds) ≡ sum_holes cs + sum_holes ds
sum_holes-append [] ds = omega arith
sum_holes-append (c ∷ cs) ds = omega (arith, sum_holes-append cs ds)

Counted-append :
    (cs ds : List Text) (m n : ℕ) → Counted cs m → Counted ds n → Counted (cs ++ ds) (m + n)
Counted-append cs ds m n h k = record {
  each = All-append (λ c. inside false c ≡ false) cs ds h.each k.each;
  total = omega (arith, sum_holes-append cs ds, h.total, k.total);
}

Counted-one : (c : Text) (n : ℕ) → Neutral c n → Counted (c ∷ []) n
Counted-one c n h = record { each = (h.outside, tt); total = omega (arith, h.count) }

Counted-join :
    (sep : Text) (cs : List Text) (n : ℕ) → Neutral sep 0 → Counted cs n → Neutral (join sep cs) n
unfolding join
Counted-join sep [] n k h = unfold inside holes in record { outside = refl; count = h.total }
Counted-join sep (c ∷ []) n k h = record { outside = h.each.0; count = omega (arith, h.total) }
Counted-join sep (c ∷ d ∷ cs) n k h =
    let later =
      Counted-join sep (d ∷ cs) (sum_holes (d ∷ cs)) k (record { each = h.each.1; total = refl }) in
    Neutral_cast _ (holes false c + (0 + sum_holes (d ∷ cs))) n
      (Neutral-append c _ (holes false c) _ (record { outside = h.each.0; count = refl })
        (Neutral-append sep _ 0 _ k later))
      (omega (arith, h.total))

pub comma-Neutral : Neutral (codes ", ") 0
unfolding inside holes
comma-Neutral = record { outside = refl; count = refl }

pub placeholders-Neutral {ℓ} : {A : Type ℓ} (xs : List A) → Neutral (placeholders xs) (length xs)
unfolding placeholders inside holes
placeholders-Neutral xs =
    Neutral_cast _ (length xs * 1) (length xs)
      (join-Neutral (λ _. codes "?") 1 (codes ", ") xs comma-Neutral
        (λ _. record { outside = refl; count = refl }))
      (omega arith)

module _ (p : Platform) where
  abbrev Pushes : Option (Pushed p) → Type 0
  Pushes none = Unit
  Pushes (some w) = Counted w.conditions (length w.args)

  one : (col s : Text) (n : ℕ) → Neutral col 0 → Neutral s n → Counted ((col ++ s) ∷ []) n
  one col s n h k =
      Counted-one (col ++ s) n
        (Neutral_cast _ (0 + n) n (Neutral-append col s 0 n h k) (omega arith))

  in_condition-Pushes : (col : Text) (v : Value p) → Neutral col 0 → Pushes (in_condition p col v)
  unfolding in_condition inside holes
  in_condition-Pushes col (many vs) h = rw (length-map (scalar_arg p) vs) (
      one col _ (length vs) h (
        Neutral_cast _ (0 + (length vs + 0)) (length vs)
          (Neutral-append (codes " IN (") _ 0 _ (record { outside = refl; count = refl })
            (Neutral-append (placeholders vs) (codes ")") (length vs) 0 (placeholders-Neutral vs)
              (record { outside = refl; count = refl })))
          (omega arith)))
  in_condition-Pushes col v h = tt

  is_condition-Counted :
      (col : Text) (v : Value p) → Neutral col 0 → Counted (is_condition p col v ∷ []) 0
  unfolding is_condition inside holes
  is_condition-Counted col nil h = one col _ 0 h (record { outside = refl; count = refl })
  is_condition-Counted col (bool true) h = one col _ 0 h (record { outside = refl; count = refl })
  is_condition-Counted col (bool false) h = one col _ 0 h (record { outside = refl; count = refl })
  is_condition-Counted col v h = one col _ 0 h (record { outside = refl; count = refl })

  condition_of-Pushes :
      (col : Text) (op : Operator) (v : Value p) → Neutral col 0 → Pushes (condition_of p col op v)
  unfolding condition_of comparison inside holes
  condition_of-Pushes col is v h = is_condition-Counted col v h
  condition_of-Pushes col in_list v h = in_condition-Pushes col v h
  condition_of-Pushes col inherited v h = record { each = tt; total = refl }
  condition_of-Pushes col op v h = one col _ 1 h (record { outside = refl; count = refl })

  push_filters-Pushes : (fs : List (FilterCondition p)) → Pushes (push_filters p fs)
  unfolding push_filters
  push_filters-Pushes [] = record { each = tt; total = refl }
  push_filters-Pushes (f ∷ fs) =
      join_pushes (condition_of p (quote_identifier f.column) f.operator f.value)
        (push_filters p fs)
        (condition_of-Pushes (quote_identifier f.column) f.operator f.value
          (quote_identifier-Neutral f.column))
        (push_filters-Pushes fs)
    where
      join_pushes :
          (a b : Option (Pushed p))
          → Pushes a
          → Pushes b
          → Pushes (elim a [
            | none ↦ none
            | some a' ↦ elim b [
              | none ↦ none
              | some b' ↦ some (record {
                conditions = a'.conditions ++ b'.conditions;
                args = a'.args ++ b'.args;
              })
            ]
          ])
      join_pushes none b h k = tt
      join_pushes (some a) none h k = tt
      join_pushes (some a) (some b) h k =
          rw (length-append a.args b.args)
            (Counted-append a.conditions b.conditions (length a.args) (length b.args) h k)

  -- The query's text meets as many placeholders as it has arguments.
  pub record Balanced (q : SelectQuery p) : Type 0 where
    pub text : Neutral q.sql (length q.args)

  abbrev pub Builds : Option (SelectQuery p) → Type 0
  Builds none = Unit
  Builds (some q) = Balanced q

  word-Neutral : (s : Text) → inside false s ≡ false → holes false s ≡ 0 → Neutral s 0
  word-Neutral s h k = record { outside = h; count = k }

  pub build_where-Builds : (fs : List (FilterCondition p)) → Builds (build_where p fs)
  unfolding build_where
  build_where-Builds [] = record {
    text = unfold inside holes in record { outside = refl; count = refl };
  }
  build_where-Builds (f ∷ fs) =
      where_clause (push_filters p (f ∷ fs)) (push_filters-Pushes (f ∷ fs))
    where
      where_clause :
          (w : Option (Pushed p))
          → Pushes w
          → Builds (elim w [
            | none ↦ none
            | some w' ↦ some (record {
              sql = codes " WHERE " ++ join (codes " AND ") w'.conditions;
              args = w'.args;
            })
          ])
      where_clause none h = tt
      where_clause (some w) h = record {
        text =
            unfold inside holes in
            Neutral_cast _ (0 + length w.args) (length w.args)
              (Neutral-append (codes " WHERE ") _ 0 _ (record { outside = refl; count = refl })
                (Counted-join (codes " AND ") w.conditions (length w.args)
                  (record { outside = refl; count = refl }) h))
              (omega arith);
      }
