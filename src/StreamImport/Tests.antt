-- ===== src/StreamImport/Tests.antt =====
-- The theorems on imports at a small library.
use bunny_cli_fork.Common.{
  ℕ, true, false, none, some, List, [], ◌∷◌, Text, codes, text_eq, All, ◌≡◌, refl,
}
use bunny_cli_fork.Common.Exec.{ok}
use bunny_cli_fork.Common.Dict.{get, set}
use bunny_cli_fork.StreamImport.Videos.{
  Video, build_source_index, video_health, index_videos, index_video, key_of, tag_value, healthier,
}
use bunny_cli_fork.StreamImport.Index.{build_source_index-healthiest}
use bunny_cli_fork.StreamImport.Best.{Finds}
use bunny_cli_fork.StreamImport.Entries.{SourceVideo, Entry, entry_of, prepare_entries}
use bunny_cli_fork.StreamImport.Prepared.{Grows, FoldersHave, AllHave, prepare_entries-Grows}
use bunny_cli_fork.StreamImport.Reconcile.{
  Library, set_finished, reconcile_with_bunny, reconcile_entry, reconcile_existing, reconcile_with,
}
use bunny_cli_fork.StreamImport.Settled.{Settled, reconcile_with_bunny-Settled}
use bunny_cli_fork.Common.{ℕ, is_digit, Option}
use bunny_cli_fork.StreamImport.Videos.{parse_bunny_date, ends_in_zone}
use bunny_cli_fork.StreamImport.Entries.{fetching}
use bunny_cli_fork.StreamImport.Recover.{
  Candidate, member, cons_guid, claimed_guids, ambiguous_titles, ambiguous_from, uploaded_since,
  is_match, find_pending, find_lost_fetch, recover_found, recover_pending, recover_entry,
  recover_entries, recover_lost_fetches,
}
use bunny_cli_fork.StreamImport.Guids.{NoRepeat}
use bunny_cli_fork.StreamImport.Claims.{recover_lost_fetches-NoRepeat}
use bunny_cli_fork.Common.{Bool, true, ◌↔◌}
use bunny_cli_fork.StreamImport.Entries.{completed, run_completed, overall_status, requeue_failed}
use bunny_cli_fork.StreamImport.Reconcile.{set_failed}
use bunny_cli_fork.StreamImport.Outcome.{overall_status_iff, Fates, requeue_failed-settled}

abbrev video : Text → ℕ → Text → Video
video guid status key = record {
  guid = some guid;
  status = some status;
  encode_progress = some 50;
  storage_size = some 0;
  date_uploaded = none;
  meta_tags = record { property = some (codes "source"); value = some key } ∷ [];
  messages = [];
}

-- A dead copy, and the working one behind it.
abbrev copies : List Video
copies =
    video (codes "g1") 5 (codes "v1")
    ∷ video (codes "g2") 4 (codes "v1")
    ∷ video (codes "g3") 3 (codes "v2")
    ∷ []

build_source_index-healthiest_example :
    Finds
      (codes "source")
      (codes "v1")
      copies
      (get (codes "v1") (build_source_index copies (codes "source")))
build_source_index-healthiest_example =
    build_source_index-healthiest copies (codes "source") (codes "v1")

abbrev source_video : Text → SourceVideo
source_video id = record {
  source_id = id;
  display_name = id;
  size = none;
  duration = none;
  width = none;
  height = none;
}

abbrev found : List (Text × List SourceVideo)
found = (codes "f", source_video (codes "v1") ∷ source_video (codes "v1") ∷ []) ∷ []

abbrev loose : List SourceVideo
loose = source_video (codes "v2") ∷ source_video (codes "v3") ∷ []

abbrev entries : List Entry
entries =
    entry_of (source_video (codes "v1")) none none
    ∷ entry_of (source_video (codes "v3")) none none
    ∷ []

prepare_entries-Grows_example :
    Grows entries (prepare_entries [] found loose entries)
    × FoldersHave (prepare_entries [] found loose entries) found
    × AllHave (prepare_entries [] found loose entries) loose
prepare_entries-Grows_example = prepare_entries-Grows [] found loose entries

abbrev library : Library Text (List Text)
library = record {
  index = build_source_index copies (codes "source");
  dedup_key = λ id. id;
  parse_date = λ t. some 0;
  now_ms = 10;
  now_iso = codes "now";
  delete_video = λ guid deleted. (ok tt, guid ∷ deleted);
}

abbrev settled : List Entry
settled =
    set_finished (codes "g2") (codes "now") (entry_of (source_video (codes "v1")) none none)
    ∷ entry_of (source_video (codes "v3")) none none
    ∷ []

reconcile_test : reconcile_with_bunny library false true entries [] ≡ (none, settled, [])
unfolding reconcile_with_bunny reconcile_entry reconcile_existing reconcile_with video_health
    build_source_index index_videos index_video key_of tag_value get set healthier text_eq
reconcile_test = refl

reconcile_with_bunny-Settled_example : All (Settled library false true) settled
reconcile_with_bunny-Settled_example =
    reconcile_with_bunny-Settled library false true entries settled [] [] reconcile_test

abbrev lost : Entry
lost = record {
  source_video_id = codes "v9";
  video_name = codes "t";
  source_folder_id = none;
  bunny_video_id = none;
  bunny_collection_id = none;
  status = fetching;
  error = none;
  started_at = none;
  completed_at = none;
  encode_progress = 0;
  pending_fetch = some (record { title = codes "t"; at = codes "5" });
  attempts = 1;
  permanent = false;
}

abbrev held : Entry
held = set_finished (codes "g2") (codes "now") (entry_of (source_video (codes "v1")) none none)

abbrev orphan : Candidate
orphan = record {
  video = record {
    guid = some (codes "g8");
    status = some 1;
    encode_progress = none;
    storage_size = none;
    date_uploaded = some (codes "6");
    meta_tags = [];
    messages = [];
  };
  title = some (codes "t");
}

abbrev date_of : Text → Option ℕ
date_of t = some 0

recovered_test :
    claimed_guids (recover_lost_fetches date_of (orphan ∷ []) (held ∷ lost ∷ []))
    ≡ codes "g2" ∷ codes "g8" ∷ []
unfolding recover_lost_fetches recover_entries recover_entry recover_pending recover_found
    find_lost_fetch find_pending is_match uploaded_since parse_bunny_date claimed_guids cons_guid
    member ambiguous_titles ambiguous_from text_eq ends_in_zone is_digit
recovered_test = refl

recover_lost_fetches-NoRepeat_example :
    NoRepeat (claimed_guids (recover_lost_fetches date_of (orphan ∷ []) (held ∷ lost ∷ [])))
unfolding claimed_guids cons_guid member
recover_lost_fetches-NoRepeat_example =
    recover_lost_fetches-NoRepeat date_of (orphan ∷ []) (held ∷ lost ∷ []) (refl, tt)

overall_status_iff_example :
    (overall_status (held ∷ lost ∷ []) ≡ run_completed)
    ↔ All (λ (m : Entry). m.status ≡ completed) (held ∷ lost ∷ [])
overall_status_iff_example = overall_status_iff (held ∷ lost ∷ [])

abbrev anywhere : Entry → Bool
anywhere m = true

abbrev failure : Entry
failure = set_failed (codes "g1") (video (codes "g1") 5 (codes "v1")) held

requeue_failed-settled_example :
    Fates true anywhere (held ∷ failure ∷ []) (requeue_failed true anywhere (held ∷ failure ∷ []))
requeue_failed-settled_example = requeue_failed-settled true anywhere (held ∷ failure ∷ [])
