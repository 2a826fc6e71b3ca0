-- ===== src/Migrations/Rows.antt =====
-- What is pending with more rows recorded.
use bunny_cli_fork.Common.{
  ◌||◌, List, [], ◌∷◌, ◌++◌, map, any, Text, text_eq, Bool-cases, ◌≡◌, refl, inl, inr, arith,
}
use bunny_cli_fork.Migrations.History.{
  MigrationFile, AppliedMigration, recorded, pending_migrations,
}
use bunny_cli_fork.Migrations.Apply.{remaining}

recorded-append :
    (a b : List AppliedMigration) (name : Text)
    → recorded (a ++ b) name ≡ (recorded a name || recorded b name)
unfolding recorded
recorded-append [] b name = refl
recorded-append (r ∷ rs) b name = ground (arith, recorded-append rs b name)

recorded-names :
    (rs : List AppliedMigration) (name : Text)
    → recorded rs name ≡ any (λ n. text_eq n name) (map (λ (r : AppliedMigration). r.name) rs)
unfolding recorded
recorded-names [] name = refl
recorded-names (r ∷ rs) name = ground (arith, recorded-names rs name)

-- With more records, what is pending is what was pending less those names.
pub pending_after :
    (files : List MigrationFile) (rows new : List AppliedMigration)
    → pending_migrations files (rows ++ new)
      ≡ remaining (pending_migrations files rows) (map (λ (r : AppliedMigration). r.name) new)
unfolding pending_migrations remaining
pending_after [] rows new = refl
pending_after (f ∷ fs) rows new =
    let split = recorded-append rows new f.name in
    let names = recorded-names new f.name in
    elim (Bool-cases (recorded rows f.name)) [
      | inl old ↦ rw (split, old) (pending_after fs rows new)
      | inr fresh ↦ rw (split, fresh, names) (ground (arith, pending_after fs rows new))
    ]
