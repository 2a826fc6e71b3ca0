-- ===== src/StreamImport/QueueTests.antt =====
-- A hand-off whose timeout strikes just when Bunny has created the video.
use bunny_cli_fork.Common.{
  true, false, not, Option, none, some, List, [], ◌∷◌, Text, codes, is_empty, ◌≡◌, refl,
}
use bunny_cli_fork.Common.Exec.{ok}
use bunny_cli_fork.Common.Dict.{get, remove}
use bunny_cli_fork.StreamImport.Entries.{SourceVideo, entry_of}
use bunny_cli_fork.StreamImport.Work.{
  DownloadInfo, Notes, FetchResult, Work, Services, with_entry, with_host, with_notes,
  without_copies, flush,
}
use bunny_cli_fork.StreamImport.Queue.{
  begin_fetch, note_fetch, note_created, fetch_created, after_fetch, fetch_from, after_info,
  start_fetch, after_delete, delete_copies, delete_dead_copies, find_video, tag_video, settle,
  is_resumed, queue_video,
}
use bunny_cli_fork.StreamImport.Recorded.{Recorded, Honest}
use bunny_cli_fork.StreamImport.Remembered.{queue_video-Recorded}

abbrev download : DownloadInfo
download = record { url = codes "https://a"; title = []; description = none; tags = [] }

abbrev success : FetchResult
success = record {
  success = true;
  video_id = some (codes "g9");
  error = none;
  indeterminate = false;
}

-- The state is the videos that Bunny created.
abbrev services : Services Text (List Text)
services = record {
  download_info = λ id s. (ok (some download), s);
  valid_url = λ url. true;
  fetch_video = λ info title folder s. (ok success, codes "g9" ∷ s);
  set_metadata = λ id key n s. (ok tt, s);
  delete_video = λ g s. (ok tt, s);
  dedup_key = λ id. id;
  video_aborted = λ s. not (is_empty s);
  run_aborted = λ s. false;
  now = λ s. codes "now";
  describe = λ f. codes "failed";
}

abbrev source_video : SourceVideo
source_video = record {
  source_id = codes "v1";
  display_name = codes "v1";
  size = none;
  duration = none;
  width = none;
  height = none;
}

abbrev nothing_noted : Notes
nothing_noted = record { description = none; tags = [] }

abbrev work : Work (List Text)
work = record {
  entry = entry_of source_video none none;
  notes = nothing_noted;
  journal = entry_of source_video none none;
  journal_notes = nothing_noted;
  dead_copies = [];
  host = [];
}

journal_test : (queue_video services true work).journal.bunny_video_id ≡ some (codes "g9")
unfolding queue_video find_video start_fetch begin_fetch after_info fetch_from note_fetch
    after_fetch fetch_created note_created settle is_resumed delete_dead_copies delete_copies
    with_entry with_host with_notes without_copies flush tag_video after_delete get remove
journal_test = refl

fetches :
    (info : DownloadInfo) (title : Text) (folder : Option Text) (s : List Text)
    → Honest (λ s. s) s (services.fetch_video info title folder s)
fetches info title folder s = (λ e. refl, λ e i. absurd (clash e))
  where
    clash : true ≡ false → ⊥
    clash e = cc e

queue_video-Recorded_example :
    let w = queue_video services true work in Recorded (λ s. s) [] w.journal w.host
queue_video-Recorded_example =
    queue_video-Recorded services true (λ s. s) [] (λ g s. refl) (λ id key n s. refl) (λ id s. refl)
      fetches work refl
