-- ===== src/Migrations/Finish.antt =====
-- A run of `bunny db migrations apply` that nothing stops.
use bunny_cli_fork.Common.{
  Bool, true, false, List, [], ◌∷◌, ◌++◌, map, any, append_assoc, append-nil, Text, text_eq,
  text_eq_refl, is_empty, is_word, is_digit, All, All-imp, Option-cases, ◌≡◌, refl, ap, ◌∙◌, inl,
  inr, arith,
}
use bunny_cli_fork.Common.Exec.{ok, Result-cases}
use bunny_cli_fork.Migrations.History.{
  MigrationFile, AppliedMigration, pending_migrations, migration_statuses, history_safe,
}
use bunny_cli_fork.Migrations.Apply.{
  MigrationStatement, finished, is_identifier, quote_table, migrations_table, migration_statements,
  prepare, prepared_for, plain_statements, tracking_statement, Client, done_of, remaining,
  ensure_migrations_table, read_applied, statements_for, apply_migration, apply_pending,
  write_confirmed, write_prepared, write_pending, apply_read, apply_migrations,
}
use bunny_cli_fork.Migrations.Resume.{
  IsTracked, next, apply_pending-next, apply_migrations-remaining,
}

remaining_nil :
    (fs : List MigrationFile) (done : List Text)
    → All (λ (f : MigrationFile). any (λ n. text_eq n f.name) done ≡ true) fs
    → remaining fs done ≡ []
unfolding remaining
remaining_nil [] done h = refl
remaining_nil (f ∷ fs) done (e, h) = rw e (remaining_nil fs done h)

named :
    (fs : List MigrationFile)
    → All
        (λ (f : MigrationFile).
          any (λ n. text_eq n f.name) (map (λ (f : MigrationFile). f.name) fs) ≡ true)
        fs
named [] = tt
named (f ∷ fs) = (
  rw (text_eq_refl f.name) refl,
  All-imp
      (λ (g : MigrationFile).
        any (λ n. text_eq n g.name) (map (λ (f : MigrationFile). f.name) fs) ≡ true)
      (λ (g : MigrationFile).
        any (λ n. text_eq n g.name) (map (λ (f : MigrationFile). f.name) (f ∷ fs)) ≡ true)
      (λ g e. ground (arith, e)) fs (named fs),
)

Parses : MigrationFile → Type 0
Parses f = (ss : List Text) × (migration_statements f ≡ ok ss)

prepare-Parses :
    (fs : List MigrationFile) (prepared : List (Text × List Text))
    → prepare fs ≡ ok prepared
    → All Parses fs
unfolding Parses prepare
prepare-Parses [] prepared h = tt
prepare-Parses (f ∷ fs) prepared h = elim (Result-cases (migration_statements f)) [
  | inr (e, bad) ↦ cc (rw (bad, prepare) at h)
  | inl (ss, good) ↦ elim (Result-cases (prepare fs)) [
    | inr (e, bad) ↦ cc (rw (bad, prepare) at (rw (good, prepare) at h))
    | inl (later, rest) ↦ ((ss, good), prepare-Parses fs later rest)
  ]
]

module _ {E S : Type 0} (client : Client E S) where
  -- The client does what it is asked: it reads the rows, creates the table and runs every batch.
  pub record IsWilling (rows : S → List AppliedMigration) : Type 0 where
    pub reads : (s : S) → (s' : S) × (read_applied client migrations_table s ≡ (ok (rows s), s'))
    pub creates :
        (s : S) → (s' : S) × (ensure_migrations_table client migrations_table s ≡ (ok tt, s'))
    pub runs :
        (statements : List MigrationStatement) (s : S)
        → (s' : S) × (client.batch statements s ≡ (ok tt, s'))

  loaded :
      (prepared : List (Text × List Text)) (f : MigrationFile)
      → Parses f
      → (ss : List Text) × (statements_for client prepared f ≡ ok ss)
  unfolding Parses statements_for
  loaded prepared f (ss, good) = elim (Option-cases (prepared_for f.name prepared)) [
    | inl absent ↦ (ss, rw (absent, statements_for) good)
    | inr (found, e) ↦ (found, rw (e, statements_for) refl)
  ]

  module _ (rows : S → List AppliedMigration) (willing : IsWilling rows) where
    apply_migration-runs :
        (prepared : List (Text × List Text)) (f : MigrationFile) (s : S)
        → Parses f
        → (s' : S) × (apply_migration client migrations_table prepared f s ≡ (ok tt, s'))
    unfolding quote_table is_identifier is_word is_digit apply_migration plain_statements
    apply_migration-runs prepared f s parses =
        let (ss, e) = loaded prepared f parses in
        let (s', ran) =
          willing.runs
            (plain_statements ss
              ++ tracking_statement (b'"' ∷ migrations_table ++ b'"' ∷ []) f ∷ [])
            s in
        (s', rw (e, apply_migration) (rw ran refl))

    apply_pending-finishes :
        (prepared : List (Text × List Text)) (fs : List MigrationFile) (done : List Text) (s : S)
        → All Parses fs
        → (s' : S) × (apply_pending client migrations_table prepared fs done s
            ≡ (ok (finished (done ++ map (λ (f : MigrationFile). f.name) fs)), s'))
    apply_pending-finishes prepared [] done s h =
        (s, unfold apply_pending in (rw (append-nil done) refl))
    apply_pending-finishes prepared (f ∷ fs) done s (p, h) =
        let (t, ran) = apply_migration-runs prepared f s p in
        let (s', e) = apply_pending-finishes prepared fs (done ++ f.name ∷ []) t h in
        (
          s',
          apply_pending-next client migrations_table prepared f fs done s
              ∙ ap (next client migrations_table prepared f fs done) ran
              ∙ e
              ∙ ap (λ n. (ok (finished n), s')) (append_assoc done (f.name ∷ []) _),
        )

    apply_migrations-through :
        (files : List MigrationFile) (allow_drift : Bool) (prepared : List (Text × List Text))
        (s : S)
        → is_empty (pending_migrations files (rows s)) ≡ false
        → history_safe (migration_statuses files (rows s)) allow_drift ≡ true
        → prepare (pending_migrations files (rows s)) ≡ ok prepared
        → (s' : S) × (apply_migrations client files allow_drift false true s ≡ (
          ok (finished (map (λ (f : MigrationFile). f.name) (pending_migrations files (rows s)))),
          s',
        ))
    unfolding apply_migrations apply_read write_prepared write_confirmed write_pending
    apply_migrations-through files allow_drift prepared s some_pending safe parsed =
        let pending = pending_migrations files (rows s) in
        let (s1, read) = willing.reads s in
        let (s2, created) = willing.creates s1 in
        let (s', ran) =
          apply_pending-finishes prepared pending [] s2 (prepare-Parses pending prepared parsed) in
        (
          s',
          rw read (
              rw (some_pending, apply_read)
                (rw safe (rw (parsed, write_pending) (rw created ran)))),
        )

    -- Of migrations that are pending, safe and well formed, a confirmed run applies every one, in
    -- order, and afterwards none is pending, for a client that does what it is asked.
    pub apply_migrations-finishes :
        IsTracked client rows
        → (files : List MigrationFile) (allow_drift : Bool) (prepared : List (Text × List Text))
          (s : S)
        → is_empty (pending_migrations files (rows s)) ≡ false
        → history_safe (migration_statuses files (rows s)) allow_drift ≡ true
        → prepare (pending_migrations files (rows s)) ≡ ok prepared
        → (s' : S) × (apply_migrations client files allow_drift false true s ≡ (
          ok (finished (map (λ (f : MigrationFile). f.name) (pending_migrations files (rows s)))),
          s',
        ))
          × (pending_migrations files (rows s') ≡ [])
    unfolding done_of
    apply_migrations-finishes tracked files allow_drift prepared s some_pending safe parsed =
        let (s', ran) =
          apply_migrations-through files allow_drift prepared s some_pending safe parsed in
        let left =
          rw ran at
            (apply_migrations-remaining client rows tracked files allow_drift false true s) in
        (s', ran, left ∙ remaining_nil _ _ (named (pending_migrations files (rows s))))
