-- ===== src/Migrations/Gate.antt =====
-- What the drift gate lets through, and which files are then pending.
use bunny_cli_fork.Common.{
  true, false, none, some, List, [], ◌∷◌, ◌++◌, map, filter, if◌then◌else◌, Text, text_eq_refl,
  eq_of_text_eq, text_lt, is_empty, All, Bool-cases, Option-cases, if_both, filter-empty,
  filter-none, All-split, All-append, All-map, All-of_map, All-imp, ◌≡◌, ◌⊎◌, ◌↔◌, refl, sym, subst,
  inl, inr, arith,
}
use bunny_cli_fork.Common.Order.{text_lt_irrefl, text_le_trans, text_lt_asymm}
use bunny_cli_fork.Migrations.History.{
  MigrationFile, AppliedMigration, MigrationStatus, record_of, newest_from, newest_applied,
  unapplied_state, applied_state, file_status, on_disk, missing_statuses, migration_statuses,
  is_unsafe, migration_history_issues, history_safe,
}

-- No recorded name lies above the text.
abbrev pub NoneAbove : Text → List AppliedMigration → Type 0
NoneAbove t [] = Unit
NoneAbove t (r ∷ rs) = (text_lt t r.name ≡ false) × NoneAbove t rs

NoneAbove-trans :
    (s t : Text) (rs : List AppliedMigration)
    → text_lt s t ≡ false
    → NoneAbove t rs
    → NoneAbove s rs
NoneAbove-trans s t [] h k = tt
NoneAbove-trans s t (r ∷ rs) h (k, ks) = (text_le_trans r.name t s k h, NoneAbove-trans s t rs h ks)

newest_grows : (t : Text) (rs : List AppliedMigration) → text_lt (newest_from t rs) t ≡ false
unfolding newest_from
newest_grows t [] = text_lt_irrefl t
newest_grows t (r ∷ rs) = elim (Bool-cases (text_lt t r.name)) [
  | inl below ↦ rw below (
      text_le_trans t r.name (newest_from r.name rs) (text_lt_asymm t r.name below)
        (newest_grows r.name rs))
  | inr above ↦ rw above (newest_grows t rs)
]

newest_from-below :
    (t : Text) (r : AppliedMigration) (rs : List AppliedMigration)
    → text_lt t r.name ≡ true
    → newest_from t (r ∷ rs) ≡ newest_from r.name rs
unfolding newest_from
newest_from-below t r rs below = rw below refl

newest_from-above :
    (t : Text) (r : AppliedMigration) (rs : List AppliedMigration)
    → text_lt t r.name ≡ false
    → newest_from t (r ∷ rs) ≡ newest_from t rs
unfolding newest_from
newest_from-above t r rs above = rw above refl

newest_from-NoneAbove : (t : Text) (rs : List AppliedMigration) → NoneAbove (newest_from t rs) rs
newest_from-NoneAbove t [] = tt
newest_from-NoneAbove t (r ∷ rs) = elim (Bool-cases (text_lt t r.name)) [
  | inl below ↦
      subst (λ n. NoneAbove n (r ∷ rs)) (sym (newest_from-below t r rs below))
        (newest_grows r.name rs, newest_from-NoneAbove r.name rs)
  | inr above ↦
      subst (λ n. NoneAbove n (r ∷ rs)) (sym (newest_from-above t r rs above))
        (
          text_le_trans r.name t (newest_from t rs) above (newest_grows t rs),
          newest_from-NoneAbove t rs,
        )
]

newest_from-le :
    (s t : Text) (rs : List AppliedMigration)
    → text_lt s t ≡ false
    → NoneAbove s rs
    → text_lt s (newest_from t rs) ≡ false
unfolding newest_from
newest_from-le s t [] h k = h
newest_from-le s t (r ∷ rs) h (k, ks) =
    newest_from-le s (if text_lt t r.name then r.name else t) rs
      (if_both (λ u. text_lt s u ≡ false) (text_lt t r.name) r.name t k h) ks

-- A file in step with the records: recorded with its checksum, or new and not below any record.
abbrev pub InStep : List AppliedMigration → MigrationFile → Type 0
InStep rows f =
    ((row : AppliedMigration) × (record_of f.name rows ≡ some row) × (row.checksum ≡ f.checksum))
    ⊎ ((record_of f.name rows ≡ none) × NoneAbove f.name rows)

not_below_newest :
    (newest name : Text)
    → is_unsafe (unapplied_state newest name) ≡ false
    → text_lt name newest ≡ false
unfolding unapplied_state is_unsafe text_lt
not_below_newest [] name h = refl
not_below_newest (c ∷ newest) name h = ground arith

unapplied-safe :
    (newest name : Text)
    → text_lt name newest ≡ false
    → is_unsafe (unapplied_state newest name) ≡ false
unfolding unapplied_state is_unsafe
unapplied-safe [] name h = refl
unapplied-safe (c ∷ newest) name h = rw h

applied-same :
    (f : MigrationFile) (row : AppliedMigration)
    → is_unsafe (applied_state f row) ≡ false
    → row.checksum ≡ f.checksum
unfolding applied_state is_unsafe
applied-same f row h = eq_of_text_eq row.checksum f.checksum (ground arith)

applied-safe :
    (f : MigrationFile) (row : AppliedMigration)
    → row.checksum ≡ f.checksum
    → is_unsafe (applied_state f row) ≡ false
unfolding applied_state is_unsafe
applied-safe f row e = ground (arith, text_eq_refl f.checksum)

nil_le : (s : Text) → text_lt s [] ≡ false
unfolding text_lt
nil_le [] = refl
nil_le (c ∷ s) = refl

InStep-iff :
    (rows : List AppliedMigration) (f : MigrationFile)
    → (is_unsafe (file_status rows f).state ≡ false) ↔ InStep rows f
unfolding file_status newest_applied
InStep-iff rows f = elim (Option-cases (record_of f.name rows)) [
  | inl none_such ↦ (
    λ h.
        let above = not_below_newest _ f.name (rw (none_such, file_status) at h) in
        inr (
          none_such,
          NoneAbove-trans f.name (newest_from [] rows) rows above (newest_from-NoneAbove [] rows),
        ),
    λ (k : InStep rows f). elim k [
      | inl (row, e, same) ↦ cc (none_such, e)
      | inr (e, h) ↦
          rw (none_such, file_status)
            (unapplied-safe _ f.name (newest_from-le f.name [] rows (nil_le f.name) h))
    ],
  )
  | inr (row, found) ↦ (
    λ h. inl (row, found, applied-same f row (rw (found, file_status) at h)),
    λ (k : InStep rows f). elim k [
      | inl (row', e, same) ↦ rw (e, file_status) (applied-safe f row' same)
      | inr (e, h) ↦ cc (found, e)
    ],
  )
]

All-on_disk :
    (files : List MigrationFile) (rows : List AppliedMigration)
    → All (λ (s : MigrationStatus). is_unsafe s.state ≡ false) (missing_statuses files rows)
    → All (λ (r : AppliedMigration). on_disk files r.name ≡ true) rows
unfolding missing_statuses is_unsafe
All-on_disk files [] h = tt
All-on_disk files (r ∷ rs) h = elim (Bool-cases (on_disk files r.name)) [
  | inl e ↦ (e, All-on_disk files rs (rw (e, missing_statuses) at h))
  | inr e ↦ cc ((rw (e, missing_statuses) at h).0)
]

nothing_missing :
    (files : List MigrationFile) (rows : List AppliedMigration)
    → All (λ (r : AppliedMigration). on_disk files r.name ≡ true) rows
    → missing_statuses files rows ≡ []
unfolding missing_statuses
nothing_missing files [] h = refl
nothing_missing files (r ∷ rs) (e, h) = rw (e, missing_statuses) (nothing_missing files rs h)

-- Without `--allow-drift` the gate lets a run through exactly when every file is in step (recorded
-- with its checksum, or new and not below any recorded name) and every record has its file.
pub history_safe_iff :
    (files : List MigrationFile) (rows : List AppliedMigration)
    → (history_safe (migration_statuses files rows) false ≡ true)
      ↔ (All (InStep rows) files × All (λ (r : AppliedMigration). on_disk files r.name ≡ true) rows)
unfolding history_safe migration_history_issues migration_statuses
history_safe_iff files rows = (to, from)
  where
    to :
        is_empty (
            filter
              (λ (s : MigrationStatus). is_unsafe s.state)
              (map (file_status rows) files ++ missing_statuses files rows))
          ≡ true
        → All (InStep rows) files × All (λ (r : AppliedMigration). on_disk files r.name ≡ true) rows
    to h =
        let safe = filter-empty (λ (s : MigrationStatus). is_unsafe s.state) _ h in
        let (a, b) =
          All-split (λ (s : MigrationStatus). is_unsafe s.state ≡ false)
            (map (file_status rows) files) _ safe in
        (
          All-imp (λ f. is_unsafe (file_status rows f).state ≡ false) (InStep rows)
              (λ f. (InStep-iff rows f).0) files
              (All-of_map (λ (s : MigrationStatus). is_unsafe s.state ≡ false) (file_status rows)
                files a),
          All-on_disk files rows b,
        )

    from :
        All (InStep rows) files × All (λ (r : AppliedMigration). on_disk files r.name ≡ true) rows
        → is_empty (
            filter
              (λ (s : MigrationStatus). is_unsafe s.state)
              (map (file_status rows) files ++ missing_statuses files rows))
          ≡ true
    from (a, b) =
        filter-none (λ (s : MigrationStatus). is_unsafe s.state) _
          (All-append (λ (s : MigrationStatus). is_unsafe s.state ≡ false)
            (map (file_status rows) files) _
            (All-map (λ (s : MigrationStatus). is_unsafe s.state ≡ false) (file_status rows) files
              (All-imp (InStep rows) (λ f. is_unsafe (file_status rows f).state ≡ false)
                (λ f. (InStep-iff rows f).1) files a))
            (rw (nothing_missing files rows b) tt))
