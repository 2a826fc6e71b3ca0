-- ===== src/Rest/Inherited.antt =====
-- A filter whose operator is a name of Object.prototype.
use bunny_cli_fork.Common.{
  ℕ, suc, false, some, List, [], ◌∷◌, ◌++◌, Text, take, drop, index_of, Bool-cases, Option-cases,
  ◌≡◌, ◌≢◌, refl, ap, ◌∙◌, inl, inr,
}
use bunny_cli_fork.Rest.Platform.{Platform}
use bunny_cli_fork.Rest.Query.{
  inherited, FilterCondition, operator_of, is_reserved, parse_operand, parse_filter_value,
  parse_filters,
}
use bunny_cli_fork.Rest.Sql.{condition_of, push_filters, quote_identifier}

module _ (p : Platform) where
  push_inherited :
      (f : FilterCondition p) (fs : List (FilterCondition p))
      → f.operator ≡ inherited
      → push_filters p (f ∷ fs) ≡ push_filters p fs
  unfolding push_filters condition_of
  push_inherited f fs e = elim (Option-cases (push_filters p fs)) [
    | inl failed ↦ rw (e, condition_of, push_filters) (rw (failed, push_filters))
    | inr (w, built) ↦ rw (e, condition_of, push_filters) (rw (built, push_filters))
  ]

  push_congruent :
      (f : FilterCondition p) (fs gs : List (FilterCondition p))
      → push_filters p fs ≡ push_filters p gs
      → push_filters p (f ∷ fs) ≡ push_filters p (f ∷ gs)
  unfolding push_filters
  push_congruent f fs gs e =
      elim (Option-cases (condition_of p (quote_identifier f.column) f.operator f.value)) [
        | inl failed ↦ rw (failed, push_filters)
        | inr (w, pushed) ↦ rw (pushed, push_filters) (rw (e, push_filters))
      ]

  -- The parameter has an operator that is a name of Object.prototype.
  pub record IsIgnored (key value : Text) : Type 0 where
    pub open_key : is_reserved key ≡ false
    pub dot : ℕ
    pub has_dot : index_of b'.' value ≡ some dot
    pub operator : operator_of (take dot value) ≡ some inherited

  abbrev ignored_filter : Text → Text → ℕ → FilterCondition p
  ignored_filter key value dot = record {
    column = key;
    operator = inherited;
    value = parse_operand p inherited (drop (suc dot) value);
  }

  parse_ignored :
      (key value : Text) (rest : List (Text × Text)) (i : IsIgnored key value)
      → parse_filters p ((key, value) ∷ rest)
        ≡ ignored_filter key value i.dot ∷ parse_filters p rest
  unfolding parse_filters parse_filter_value
  parse_ignored key value rest i =
      rw (i.open_key, i.has_dot, parse_filters) (rw (i.operator, parse_filter_value))

  skip_ignored :
      (before after : List (Text × Text)) (key value : Text)
      → IsIgnored key value
      → push_filters p (parse_filters p (before ++ (key, value) ∷ after))
        ≡ push_filters p (parse_filters p (before ++ after))
  unfolding parse_filters
  skip_ignored [] after key value i =
      ap (push_filters p) (parse_ignored key value after i)
      ∙ push_inherited (ignored_filter key value i.dot) (parse_filters p after) refl
  skip_ignored ((k, v) ∷ before) after key value i =
      let ih = skip_ignored before after key value i in
      elim (Bool-cases (is_reserved k)) [
        | inl reserved ↦ rw (reserved, parse_filters) ih
        | inr open_key ↦ elim (Option-cases (parse_filter_value p k v)) [
          | inl unknown ↦ rw (open_key, unknown, parse_filters) ih
          | inr (f, parsed) ↦ rw (open_key, parsed, parse_filters) (push_congruent f _ _ ih)
        ]
      ]

  parsed_ne_nil :
      (before after : List (Text × Text)) (key value : Text)
      → IsIgnored key value
      → parse_filters p (before ++ (key, value) ∷ after) ≢ []
  unfolding parse_filters
  parsed_ne_nil [] after key value i = λ e. cc (parse_ignored key value after i, e)
  parsed_ne_nil ((k, v) ∷ before) after key value i =
      let ih = parsed_ne_nil before after key value i in
      elim (Bool-cases (is_reserved k)) [
        | inl reserved ↦ rw (reserved, parse_filters) ih
        | inr open_key ↦ elim (Option-cases (parse_filter_value p k v)) [
          | inl unknown ↦ rw (open_key, unknown, parse_filters) ih
          | inr (f, parsed) ↦ rw (open_key, parsed, parse_filters) (λ e. cc e)
        ]
      ]

  -- A parameter whose operator is a name of Object.prototype, such as `constructor.x`, counts as a
  -- filter (the list is not empty, so an update or a deletion is let through), and it adds neither a
  -- condition nor an argument to those of the other parameters.
  pub inherited_filter_ignored :
      (before after : List (Text × Text)) (key value : Text)
      → IsIgnored key value
      → (parse_filters p (before ++ (key, value) ∷ after) ≢ [])
        × (push_filters p (parse_filters p (before ++ (key, value) ∷ after))
            ≡ push_filters p (parse_filters p (before ++ after)))
  inherited_filter_ignored before after key value i =
      (parsed_ne_nil before after key value i, skip_ignored before after key value i)
