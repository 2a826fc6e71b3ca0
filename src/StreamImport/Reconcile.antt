-- ===== src/StreamImport/Reconcile.antt =====
-- packages/stream-import/src/migration.ts: `reconcileWithBunny`, which lines every entry up with what
-- Bunny holds. The service's deletion of a video and the clock are parameters.
use bunny_cli_fork.Common.{
  ℕ, Bool, true, not, ◌&&◌, ◌||◌, Option, none, some, List, [], ◌∷◌, if◌then◌else◌, Text, is_empty,
}
use bunny_cli_fork.Common.Exec.{ok, thrown, Exec}
use bunny_cli_fork.Common.Dict.{get}
use bunny_cli_fork.StreamImport.Videos.{
  Video, Health, video_health, is_permanent_failure, failure_reason, is_stalled,
}
use bunny_cli_fork.StreamImport.Videos
use bunny_cli_fork.StreamImport.Entries.{
  Entry, pending, processing, completed, failed, is_completed, is_failure,
}

abbrev pub or_keep : Option Text → Text → Option Text
or_keep none now = some now
or_keep (some t) now = some t

abbrev pub or_number : Option ℕ → ℕ → ℕ
or_number none n = n
or_number (some m) n = m

-- The four ways a video of the index changes its entry.
abbrev pub set_finished : Text → Text → Entry → Entry
set_finished guid now m = record {
  source_video_id = m.source_video_id;
  video_name = m.video_name;
  source_folder_id = m.source_folder_id;
  bunny_video_id = some guid;
  bunny_collection_id = m.bunny_collection_id;
  status = completed;
  error = m.error;
  started_at = m.started_at;
  completed_at = or_keep m.completed_at now;
  encode_progress = 100;
  pending_fetch = m.pending_fetch;
  attempts = m.attempts;
  permanent = m.permanent;
}

abbrev pub set_again : Entry → Entry
set_again m = record {
  source_video_id = m.source_video_id;
  video_name = m.video_name;
  source_folder_id = m.source_folder_id;
  bunny_video_id = none;
  bunny_collection_id = m.bunny_collection_id;
  status = pending;
  error = m.error;
  started_at = m.started_at;
  completed_at = m.completed_at;
  encode_progress = m.encode_progress;
  pending_fetch = m.pending_fetch;
  attempts = m.attempts;
  permanent = m.permanent;
}

abbrev pub set_processing : Text → Video → Entry → Entry
set_processing guid existing m = record {
  source_video_id = m.source_video_id;
  video_name = m.video_name;
  source_folder_id = m.source_folder_id;
  bunny_video_id = some guid;
  bunny_collection_id = m.bunny_collection_id;
  status = processing;
  error = m.error;
  started_at = m.started_at;
  completed_at = m.completed_at;
  encode_progress = or_number existing.encode_progress m.encode_progress;
  pending_fetch = m.pending_fetch;
  attempts = m.attempts;
  permanent = m.permanent;
}

abbrev pub set_failed : Text → Video → Entry → Entry
set_failed guid existing m = record {
  source_video_id = m.source_video_id;
  video_name = m.video_name;
  source_folder_id = m.source_folder_id;
  bunny_video_id = some guid;
  bunny_collection_id = m.bunny_collection_id;
  status = failed;
  error = some (failure_reason existing);
  started_at = m.started_at;
  completed_at = m.completed_at;
  encode_progress = m.encode_progress;
  pending_fetch = m.pending_fetch;
  attempts = m.attempts;
  permanent = true;
}

-- DEFAULT_STALLED_AFTER_MS
abbrev pub default_stalled_after_ms : ℕ
default_stalled_after_ms = 1800000

-- The service: the index of the library, the key of a source's video, the clock and the deletion.
pub record Library (E S : Type 0) : Type 0 where
  pub index : List (Text × Video)
  pub dedup_key : Text → Text
  pub parse_date : Text → Option ℕ
  pub now_ms : ℕ
  pub now_iso : Text
  pub delete_video : Text → Exec E S Unit

module _ {E S : Type 0} (lib : Library E S) (clean_failed retry_stalled : Bool) where
  unfoldable pub stalled_now : Video → Bool
  stalled_now existing =
      retry_stalled && is_stalled lib.parse_date existing lib.now_ms default_stalled_after_ms none

  -- A processing video: a stalled one is deleted first.
  unfoldable pub reconcile_processing : Text → Video → Entry → Exec E S Entry
  reconcile_processing guid existing m s =
      if stalled_now existing
      then (let (r, s') = lib.delete_video guid s in
          elim r [ ok _ ↦ (ok (set_again m), s') | thrown e ↦ (thrown e, s') ])
      else (ok (set_processing guid existing m), s)

  unfoldable pub reconcile_with : Text → Video → Health → Entry → Exec E S Entry
  reconcile_with guid existing Videos.finished m s = (ok (set_finished guid lib.now_iso m), s)
  reconcile_with guid existing Videos.processing m s = reconcile_processing guid existing m s
  reconcile_with guid existing Videos.failed m s =
      if is_permanent_failure existing && not clean_failed
      then (ok (set_failed guid existing m), s)
      else (ok (set_again m), s)

  unfoldable pub reconcile_existing : Video → Option Text → Entry → Exec E S Entry
  reconcile_existing existing none m s = (ok m, s)
  reconcile_existing existing (some guid) m s =
      if is_empty guid then (ok m, s) else reconcile_with guid existing (video_health existing) m s

  unfoldable pub reconcile_entry : Entry → Exec E S Entry
  reconcile_entry m s =
      if is_completed m.status || is_failure m.status
      then (ok m, s)
      else elim (get (lib.dedup_key m.source_video_id) lib.index) [
        | none ↦ (ok m, s)
        | some existing ↦ reconcile_existing existing existing.guid m s
      ]

  -- The loop: the entries as they are left, and the error that stopped it.
  unfoldable pub reconcile_with_bunny : List Entry → S → Option E × List Entry × S
  reconcile_with_bunny [] s = (none, [], s)
  reconcile_with_bunny (m ∷ ms) s =
      let (r, s') = reconcile_entry m s in
      elim r [
        | thrown e ↦ (some e, m ∷ ms, s')
        | ok m' ↦ let (e, ms', s'') = reconcile_with_bunny ms s' in (e, m' ∷ ms', s'')
      ]
