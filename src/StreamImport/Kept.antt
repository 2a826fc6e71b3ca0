-- ===== src/StreamImport/Kept.antt =====
-- The entry that a reconciliation gives back is for the video it was for.
use bunny_cli_fork.Common.{
  Bool, not, ◌&&◌, ◌||◌, Option, none, some, Text, is_empty, if_both, Option-cases, ◌≡◌, refl, inl,
  inr,
}
use bunny_cli_fork.Common.Exec.{Result, ok, thrown, run_cases}
use bunny_cli_fork.Common.Dict.{get}
use bunny_cli_fork.StreamImport.Videos.{
  Video, Health, video_health, is_failed, truthy, is_permanent_failure,
}
use bunny_cli_fork.StreamImport.Videos
use bunny_cli_fork.StreamImport.Entries.{Entry, is_completed, is_failure}
use bunny_cli_fork.StreamImport.Reconcile.{
  Library, stalled_now, reconcile_processing, reconcile_with, reconcile_existing, reconcile_entry,
}

module _ {E S : Type 0} (lib : Library E S) (clean_failed retry_stalled : Bool) where
  -- The video that a result's entry is for.
  abbrev pub id_after : Entry → Result E Entry × S → Text
  id_after m (ok m', s) = m'.source_video_id
  id_after m (thrown e, s) = m.source_video_id

  reconcile_processing-id :
      (guid : Text) (v : Video) (m : Entry) (s : S)
      → id_after m (reconcile_processing lib clean_failed retry_stalled guid v m s)
        ≡ m.source_video_id
  unfolding reconcile_processing
  reconcile_processing-id guid v m s =
      if_both (λ x. id_after m x ≡ m.source_video_id) (stalled_now lib clean_failed retry_stalled v)
        _ _
        (elim (run_cases (lib.delete_video guid s)) [
          | inl (u, s', ran) ↦ rw ran refl
          | inr (e, s', ran) ↦ rw ran refl
        ])
        refl

  reconcile_with-id :
      (guid : Text) (v : Video) (health : Health) (m : Entry) (s : S)
      → id_after m (reconcile_with lib clean_failed retry_stalled guid v health m s)
        ≡ m.source_video_id
  unfolding reconcile_with
  reconcile_with-id guid v Videos.finished m s = refl
  reconcile_with-id guid v Videos.processing m s = reconcile_processing-id guid v m s
  reconcile_with-id guid v Videos.failed m s =
      if_both (λ x. id_after m x ≡ m.source_video_id) (is_permanent_failure v && not clean_failed) _
        _ refl refl

  reconcile_existing-id :
      (v : Video) (o : Option Text) (m : Entry) (s : S)
      → id_after m (reconcile_existing lib clean_failed retry_stalled v o m s) ≡ m.source_video_id
  unfolding reconcile_existing
  reconcile_existing-id v none m s = refl
  reconcile_existing-id v (some guid) m s =
      if_both (λ x. id_after m x ≡ m.source_video_id) (is_empty guid) _ _ refl
        (reconcile_with-id guid v (video_health v) m s)

  pub reconcile_entry-id :
      (m : Entry) (s : S)
      → id_after m (reconcile_entry lib clean_failed retry_stalled m s) ≡ m.source_video_id
  unfolding reconcile_entry
  reconcile_entry-id m s =
      if_both (λ x. id_after m x ≡ m.source_video_id) (is_completed m.status || is_failure m.status)
        _ _ refl
        (elim (Option-cases (get (lib.dedup_key m.source_video_id) lib.index)) [
          | inl e ↦ rw e refl
          | inr (v, e) ↦ rw e (reconcile_existing-id v v.guid m s)
        ])
