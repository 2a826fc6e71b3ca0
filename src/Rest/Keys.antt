-- ===== src/Rest/Keys.antt =====
-- packages/database-rest/src/handler.ts: which column the route of a single resource stands for.
use bunny_cli_fork.Common.{
  true, false, Option, text_eq_refl, eq_of_text_eq, ◌≢◌, some, List, [], ◌∷◌, any, Text, codes,
  text_eq, Bool-cases, Option-cases, ◌≡◌, ◌⊎◌, refl, ap, ◌∙◌, inl, inr, arith,
}
use bunny_cli_fork.Rest.Query.{get}
use bunny_cli_fork.Rest.Handler.{Table, Schema, sole_key, key_column, resolve_single_column}

abbrev pub Has : Text → List Text → Type 0
Has c [] = ⊥
Has c (x ∷ xs) = (c ≡ x) ⊎ Has c xs

-- The column that a route's word stands for: the sole primary key for `__pk__`, and a unique column
-- for itself. It has a name.
abbrev pub IsKey : Table → Text → Text → Type 0
IsKey t column c =
    (c ≢ [])
    × (((column ≡ codes "__pk__") × (t.primary_key ≡ c ∷ []))
        ⊎ ((column ≢ codes "__pk__") × (column ≡ c) × Has c t.unique_columns))

-- No table of that name, or no such column in it.
abbrev pub NoKey : Schema → Text → Text → Type 0
NoKey tables table column =
    (t : Table) (c : Text) → get table tables ≡ some t → IsKey t column c → ⊥

Has-any : (c : Text) (xs : List Text) → any (text_eq c) xs ≡ true → Has c xs
Has-any c [] h = cc h
Has-any c (x ∷ xs) h = elim (Bool-cases (text_eq c x)) [
  | inl same ↦ inl (eq_of_text_eq c x same)
  | inr other ↦ inr (Has-any c xs (ground (arith, h, other)))
]

any_of_Has : (c : Text) (xs : List Text) → Has c xs → any (text_eq c) xs ≡ true
any_of_Has c [] h = elim h [ ]
any_of_Has c (x ∷ xs) (inl e) = rw (← e) (rw (text_eq_refl c) refl)
any_of_Has c (x ∷ xs) (inr h) = ground (arith, any_of_Has c xs h)

sole_key-eq : (pks : List Text) (c : Text) → sole_key pks ≡ some c → pks ≡ c ∷ []
unfolding sole_key
sole_key-eq [] c e = cc e
sole_key-eq (pk ∷ []) c e = ground arith
sole_key-eq (pk ∷ q ∷ pks) c e = cc e

sole_key_of : (c : Text) → c ≢ [] → sole_key (c ∷ []) ≡ some c
unfolding sole_key
sole_key_of [] h = absurd (h refl)
sole_key_of (a ∷ c) h = refl

key_column-IsKey :
    (t : Table) (column c : Text) → key_column t column ≡ some c → c ≢ [] → IsKey t column c
unfolding key_column
key_column-IsKey t column c e named = (
  named,
  elim (Bool-cases (text_eq column (codes "__pk__"))) [
    | inl pk ↦ inl (
      eq_of_text_eq column (codes "__pk__") pk,
      sole_key-eq t.primary_key c (rw (pk, key_column) at e),
    )
    | inr other ↦ elim (Bool-cases (any (text_eq column) t.unique_columns)) [
      | inl unique ↦
          let found : some column ≡ some c = rw (other, unique, key_column) at e in
          let same : column ≡ c = cc found in
          inr (differs column other, same, Has-any c t.unique_columns (rw same at unique))
      | inr none_such ↦ cc (rw (other, none_such, key_column) at e)
    ]
  ],
)
  where
    differs : (x : Text) → text_eq x (codes "__pk__") ≡ false → x ≢ codes "__pk__"
    differs x h q = cc (h, ap (λ t. text_eq t (codes "__pk__")) q, text_eq_refl (codes "__pk__"))

key_column_of : (t : Table) (column c : Text) → IsKey t column c → key_column t column ≡ some c
unfolding key_column
key_column_of t column c (named, inl (pk, sole)) =
    rw (pk, key_column) (rw (text_eq_refl (codes "__pk__"), sole) (sole_key_of c named))
key_column_of t column c (named, inr (other, same, unique)) =
    elim (Bool-cases (text_eq column (codes "__pk__"))) [
      | inl pk ↦ absurd (other (eq_of_text_eq column (codes "__pk__") pk))
      | inr not_pk ↦
          rw (not_pk, key_column) (rw same (rw (any_of_Has c t.unique_columns unique) refl))
    ]

pub resolved_of :
    (tables : Schema) (table column c : Text) (t : Table)
    → get table tables ≡ some t
    → IsKey t column c
    → resolve_single_column tables table column ≡ some c
unfolding resolve_single_column
resolved_of tables table column c t found key =
    rw (found, resolve_single_column) (key_column_of t column c key)

pub resolve_single_column-IsKey :
    (tables : Schema) (table column c : Text)
    → resolve_single_column tables table column ≡ some c
    → c ≢ []
    → (t : Table) × (get table tables ≡ some t) × IsKey t column c
unfolding resolve_single_column
resolve_single_column-IsKey tables table column c e named = elim (Option-cases (get table tables)) [
  | inl missing ↦ cc (rw (missing, resolve_single_column) at e)
  | inr (t, found) ↦
      (t, found, key_column-IsKey t column c (rw (found, resolve_single_column) at e) named)
]

-- What the lookup of a route's column gives: a key of its table, or nothing that has a name.
pub resolve-cases :
    (tables : Schema) (table column : Text)
    → ((c : Text) × (t : Table) × (get table tables ≡ some t) × IsKey t column c)
      ⊎ NoKey tables table column
resolve-cases tables table column =
    elim (Option-cases (resolve_single_column tables table column)) [
      | inl missing ↦
          inr (λ t c found key. cc (missing, resolved_of tables table column c t found key))
      | inr (c, e) ↦ elim (List-cases c) [
        | inl nothing ↦ inr (λ t d found key.
            absurd (key.0 (some_eq e (resolved_of tables table column d t found key) ∙ nothing)))
        | inr named ↦
            let (t, found, key) = resolve_single_column-IsKey tables table column c e named in
            inl (c, t, found, key)
      ]
    ]
  where
    some_eq : {o : Option Text} {a b : Text} → o ≡ some a → o ≡ some b → b ≡ a
    some_eq h k = cc (h, k)

    List-cases : (c : Text) → (c ≡ []) ⊎ (c ≢ [])
    List-cases [] = inl refl
    List-cases (a ∷ c) = inr (λ e. cc e)
