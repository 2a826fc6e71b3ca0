-- ===== src/StreamImport/SummaryTests.antt =====
-- A summary over three videos, of which one is finished and one failed on Bunny.
use bunny_cli_fork.Common.{
  ℕ, ◌≤◌, false, none, some, List, [], ◌∷◌, Text, codes, text_eq, length, ◌≡◌, refl, is_empty,
}
use bunny_cli_fork.Common.Exec.{ok}
use bunny_cli_fork.Common.Dict.{get, set}
use bunny_cli_fork.StreamImport.Videos.{Video, video_health, is_permanent_failure}
use bunny_cli_fork.StreamImport.Entries.{
  SourceVideo, Entry, entry_of, count_videos, needs_queueing, unsupported_reason, over_resolution,
}
use bunny_cli_fork.StreamImport.Reconcile.{
  Library, set_finished, reconcile_entry, reconcile_existing, reconcile_with,
}
use bunny_cli_fork.StreamImport.Summary.{
  SourceContent, no_summary, standing, standing_by, existing_of, get_summary, migration_summary,
  discovered, foldered, folder_names, summarize, add_video, add_row, add_totals, stalled_here,
}
use bunny_cli_fork.StreamImport.Counted.{listed, get_summary-counts}
use bunny_cli_fork.StreamImport.Foretold.{is_new, standing-foretells}

abbrev video : Text → ℕ → Video
video guid status = record {
  guid = some guid;
  status = some status;
  encode_progress = some 50;
  storage_size = some 0;
  date_uploaded = none;
  meta_tags = [];
  messages = [];
}

abbrev source_video : Text → SourceVideo
source_video id = record {
  source_id = id;
  display_name = id;
  size = some 7;
  duration = none;
  width = none;
  height = none;
}

abbrev library : Library Text (List Text)
library = record {
  index = (codes "v1", video (codes "g1") 4) ∷ (codes "v2", video (codes "g2") 5) ∷ [];
  dedup_key = λ id. id;
  parse_date = λ t. some 0;
  now_ms = 9;
  now_iso = codes "now";
  delete_video = λ guid s. (ok tt, guid ∷ s);
}

abbrev content : SourceContent
content = record {
  folders = record { id = codes "f"; name = codes "Films"; video_count = 2 } ∷ [];
  videos = (codes "f", source_video (codes "v1") ∷ source_video (codes "v2") ∷ []) ∷ [];
  uncategorized_videos = source_video (codes "v3") ∷ [];
}

summary_test :
    let s = migration_summary library false false content in
    (s.total_videos ≡ 3) × (s.new_videos ≡ 2) × (s.tally.failed_on_bunny ≡ 1)
unfolding migration_summary get_summary discovered foldered folder_names summarize add_video add_row
    add_totals stalled_here standing standing_by existing_of no_summary video_health
    is_permanent_failure unsupported_reason over_resolution get set text_eq
summary_test = (refl, refl, refl)

get_summary-counts_example :
    let t = get_summary library false false content in
    (listed t ≡ count_videos content.videos content.uncategorized_videos)
    × (t.failed_on_bunny ≤ length t.new_videos_list)
    × (length t.unsupported_list ≤ length t.new_videos_list)
get_summary-counts_example = get_summary-counts library false false content

abbrev finished_entry : Entry
finished_entry =
    set_finished (codes "g1") (codes "now") (entry_of (source_video (codes "v1")) none none)

finished_test :
    reconcile_entry library false false (entry_of (source_video (codes "v1")) none none) []
    ≡ (ok finished_entry, [])
unfolding reconcile_entry reconcile_existing reconcile_with video_health get text_eq
finished_test = refl

known :
    (v : Video)
    → get (codes "v1") library.index ≡ some v
    → (g : Text) × (v.guid ≡ some g) × (is_empty g ≡ false)
unfolding get text_eq
known v e = (codes "g1", cc e, refl)

standing-foretells_example :
    needs_queueing library.index finished_entry
    ≡ is_new
        (standing library false false (existing_of library false false (source_video (codes "v1"))))
standing-foretells_example =
    standing-foretells library false false (source_video (codes "v1")) none none [] known
      finished_entry [] finished_test
