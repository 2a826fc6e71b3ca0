-- ===== src/StreamImport/Summary.antt =====
-- packages/stream-import/src/migration.ts: `getSummary`, what a run over the discovered videos would
-- find. The discovery, the index of the library and the clock are given.
use bunny_cli_fork.Common.{
  ℕ, ◌+◌, Bool, true, false, not, ◌&&◌, Option, none, some, List, [], ◌∷◌, ◌++◌, map, length,
  if◌then◌else◌, Text,
}
use bunny_cli_fork.Common.Dict.{get, set}
use bunny_cli_fork.StreamImport.Videos.{
  Video, Health, video_health, is_permanent_failure, failure_reason, is_stalled,
}
use bunny_cli_fork.StreamImport.Videos
use bunny_cli_fork.StreamImport.Entries.{SourceVideo, or_zero, unsupported_reason}
use bunny_cli_fork.StreamImport.Reconcile.{Library, default_stalled_after_ms}

pub record SourceFolder : Type 0 where
  pub id : Text
  pub name : Text
  pub video_count : ℕ

pub record SourceContent : Type 0 where
  pub folders : List SourceFolder
  pub videos : List (Text × List SourceVideo)
  pub uncategorized_videos : List SourceVideo

pub record SummaryVideo : Type 0 where
  pub name : Text
  pub folder : Option Text

-- Which list a video goes to; a new one tells whether Bunny failed it before.
pub data Standing : Type 0 where
  migrated in_processing : Standing
  failed_for_good : Text → Standing
  new_video : Bool → Standing

-- What the loop over the videos gathers.
pub record Summary : Type 0 where
  pub failed_on_bunny : ℕ
  pub stalled_on_bunny : ℕ
  pub total_size : ℕ
  pub total_duration : ℕ
  pub new_videos_list : List SummaryVideo
  pub migrated_videos_list : List SummaryVideo
  pub processing_list : List SummaryVideo
  pub unsupported_list : List (SummaryVideo × Text)
  pub failed_for_good_list : List (SummaryVideo × Text)

pub record MigrationSummary : Type 0 where
  pub total_folders : ℕ
  pub total_videos : ℕ
  pub already_migrated : ℕ
  pub processing_on_bunny : ℕ
  pub new_videos : ℕ
  pub folders : List (Text × ℕ)
  pub uncategorized_count : ℕ
  pub tally : Summary

unfoldable pub no_summary : Summary
no_summary = record {
  failed_on_bunny = 0;
  stalled_on_bunny = 0;
  total_size = 0;
  total_duration = 0;
  new_videos_list = [];
  migrated_videos_list = [];
  processing_list = [];
  unsupported_list = [];
  failed_for_good_list = [];
}

-- `new Map(folders.map((f) => [f.id, f.name]))`
unfoldable pub folder_names : List SourceFolder → List (Text × Text) → List (Text × Text)
folder_names [] names = names
folder_names (f ∷ fs) names = folder_names fs (set f.id f.name names)

unfoldable pub foldered :
    List (Text × Text) → List (Text × List SourceVideo) → List (SourceVideo × Option Text)
foldered names [] = []
foldered names ((fid, vs) ∷ videos) = map (λ v. (v, get fid names)) vs ++ foldered names videos

-- `entries`: every discovered video with the name of its folder.
unfoldable pub discovered : SourceContent → List (SourceVideo × Option Text)
unfolding folder_names foldered
discovered content =
    foldered (folder_names content.folders []) content.videos
    ++ map (λ v. (v, none)) content.uncategorized_videos

abbrev pub add_if : Bool → ℕ → ℕ
add_if b n = if b then n + 1 else n

abbrev pub add_unsupported :
    SummaryVideo → Option Text → List (SummaryVideo × Text) → List (SummaryVideo × Text)
add_unsupported row none rows = rows
add_unsupported row (some reason) rows = rows ++ (row, reason) ∷ []

-- The row of a video, in the list of its standing.
unfoldable pub add_row : Standing → SummaryVideo → Option Text → Summary → Summary
add_row migrated row reason t = record {
  failed_on_bunny = t.failed_on_bunny;
  stalled_on_bunny = t.stalled_on_bunny;
  total_size = t.total_size;
  total_duration = t.total_duration;
  new_videos_list = t.new_videos_list;
  migrated_videos_list = t.migrated_videos_list ++ row ∷ [];
  processing_list = t.processing_list;
  unsupported_list = t.unsupported_list;
  failed_for_good_list = t.failed_for_good_list;
}
add_row in_processing row reason t = record {
  failed_on_bunny = t.failed_on_bunny;
  stalled_on_bunny = t.stalled_on_bunny;
  total_size = t.total_size;
  total_duration = t.total_duration;
  new_videos_list = t.new_videos_list;
  migrated_videos_list = t.migrated_videos_list;
  processing_list = t.processing_list ++ row ∷ [];
  unsupported_list = t.unsupported_list;
  failed_for_good_list = t.failed_for_good_list;
}
add_row (failed_for_good why) row reason t = record {
  failed_on_bunny = t.failed_on_bunny;
  stalled_on_bunny = t.stalled_on_bunny;
  total_size = t.total_size;
  total_duration = t.total_duration;
  new_videos_list = t.new_videos_list;
  migrated_videos_list = t.migrated_videos_list;
  processing_list = t.processing_list;
  unsupported_list = t.unsupported_list;
  failed_for_good_list = t.failed_for_good_list ++ (row, why) ∷ [];
}
add_row (new_video failed) row reason t = record {
  failed_on_bunny = add_if failed t.failed_on_bunny;
  stalled_on_bunny = t.stalled_on_bunny;
  total_size = t.total_size;
  total_duration = t.total_duration;
  new_videos_list = t.new_videos_list ++ row ∷ [];
  migrated_videos_list = t.migrated_videos_list;
  processing_list = t.processing_list;
  unsupported_list = add_unsupported row reason t.unsupported_list;
  failed_for_good_list = t.failed_for_good_list;
}

-- What is counted of every video.
unfoldable pub add_totals : SourceVideo → Bool → Summary → Summary
add_totals video stalled t = record {
  failed_on_bunny = t.failed_on_bunny;
  stalled_on_bunny = add_if stalled t.stalled_on_bunny;
  total_size = t.total_size + or_zero video.size;
  total_duration = t.total_duration + or_zero video.duration;
  new_videos_list = t.new_videos_list;
  migrated_videos_list = t.migrated_videos_list;
  processing_list = t.processing_list;
  unsupported_list = t.unsupported_list;
  failed_for_good_list = t.failed_for_good_list;
}

module _ {E S : Type 0} (lib : Library E S) (clean_failed retry_stalled : Bool) where
  unfoldable pub stalled_here : Option Video → Bool
  stalled_here none = false
  stalled_here (some v) = is_stalled lib.parse_date v lib.now_ms default_stalled_after_ms none

  unfoldable pub standing_by : Video → Health → Standing
  standing_by v Videos.finished = migrated
  standing_by v Videos.processing =
      if not (stalled_here (some v) && retry_stalled)
      then in_processing
      else if is_permanent_failure v && not clean_failed
      then failed_for_good (failure_reason v)
      else new_video false
  standing_by v Videos.failed =
      if is_permanent_failure v && not clean_failed
      then failed_for_good (failure_reason v)
      else new_video true

  unfoldable pub standing : Option Video → Standing
  unfolding standing_by
  standing none = new_video false
  standing (some v) = standing_by v (video_health v)

  unfoldable pub existing_of : SourceVideo → Option Video
  existing_of video = get (lib.dedup_key video.source_id) lib.index

  -- One round of the loop over the entries.
  unfoldable pub add_video : SourceVideo × Option Text → Summary → Summary
  unfolding standing stalled_here add_row add_totals existing_of
  add_video (video, folder) t =
      add_row (standing (existing_of video)) (record { name = video.display_name; folder = folder })
        (unsupported_reason video) (add_totals video (stalled_here (existing_of video)) t)

  unfoldable pub summarize : List (SourceVideo × Option Text) → Summary → Summary
  unfolding add_video
  summarize [] t = t
  summarize (e ∷ es) t = summarize es (add_video e t)

  unfoldable pub get_summary : SourceContent → Summary
  unfolding summarize discovered no_summary
  get_summary content = summarize (discovered content) no_summary

  -- What `getSummary` returns: the tally, and the counts of it and of the content.
  unfoldable pub migration_summary : SourceContent → MigrationSummary
  unfolding get_summary discovered
  migration_summary content =
      let t = get_summary content in
      record {
        total_folders = length content.folders;
        total_videos = length (discovered content);
        already_migrated = length t.migrated_videos_list;
        processing_on_bunny = length t.processing_list;
        new_videos = length t.new_videos_list;
        folders = map (λ (f : SourceFolder). (f.name, f.video_count)) content.folders;
        uncategorized_count = length content.uncategorized_videos;
        tally = t;
      }
