-- ===== src/StreamImport/OrphanTests.antt =====
-- A dead run that left one video untagged, and one whose fetch it never saw the end of.
use bunny_cli_fork.Common.{
  ℕ, false, Option, none, some, List, [], ◌∷◌, Text, codes, text_eq, All, ◌≡◌, refl, is_digit,
}
use bunny_cli_fork.Common.Dict.{get}
use bunny_cli_fork.StreamImport.Videos.{parse_bunny_date, ends_in_zone}
use bunny_cli_fork.StreamImport.Entries.{Entry, fetching, in_progress, PendingFetch, is_tagged}
use bunny_cli_fork.StreamImport.Recover.{
  Candidate, claimed_guids, cons_guid, member, ambiguous_titles, ambiguous_from, find_lost_fetch,
  find_pending, is_match, uploaded_since,
}
use bunny_cli_fork.StreamImport.Guids.{NoRepeat}
use bunny_cli_fork.StreamImport.Orphans.{
  RunState, Identity, matches_run, same_account, adopt_orphans, adopt_entries, adopt_entry,
  candidate_guid, is_orphan, is_there,
}
use bunny_cli_fork.StreamImport.Adopted.{IsAdopted, adopt_orphans-NoRepeat}

abbrev left_over : Text → Option Text → Option PendingFetch → Entry
left_over id guid fetch = record {
  source_video_id = id;
  video_name = id;
  source_folder_id = none;
  bunny_video_id = guid;
  bunny_collection_id = none;
  status = fetching;
  error = none;
  started_at = none;
  completed_at = none;
  encode_progress = 0;
  pending_fetch = fetch;
  attempts = 0;
  permanent = false;
}

abbrev self : Identity
self = record { source = codes "vimeo"; library_id = codes "12"; account_id = none }

abbrev saved : RunState
saved = record {
  source = codes "vimeo";
  bunny_library_id = codes "12";
  bunny_account_id = some (codes "a");
  source_folder_id = none;
  folder_mappings = [];
  video_migrations =
      left_over (codes "v1") (some (codes "g1")) none
      ∷ left_over (codes "v2") none (some (record { title = codes "t"; at = codes "5" }))
      ∷ [];
  status = in_progress;
}

abbrev lost : Candidate
lost = record {
  video = record {
    guid = some (codes "g2");
    status = some 3;
    encode_progress = none;
    storage_size = none;
    date_uploaded = some (codes "6");
    meta_tags = [];
    messages = [];
  };
  title = some (codes "t");
}

abbrev date_of : Text → Option ℕ
date_of t = some 0

abbrev known : List Text
known = codes "g1" ∷ codes "g2" ∷ []

abbrev same_key : Text → Text
same_key id = id

abbrev taken_over : List Entry
taken_over = adopt_orphans date_of (lost ∷ []) [] known same_key self [] (some saved)

taken_over_test : claimed_guids taken_over ≡ codes "g1" ∷ codes "g2" ∷ []
unfolding adopt_orphans matches_run same_account adopt_entries adopt_entry candidate_guid is_orphan
    is_there claimed_guids cons_guid member ambiguous_titles ambiguous_from find_lost_fetch
    find_pending is_match uploaded_since parse_bunny_date ends_in_zone is_digit get is_tagged
    text_eq
taken_over_test = refl

adopt_orphans-NoRepeat_example :
    NoRepeat (claimed_guids taken_over)
    × All (IsAdopted date_of (lost ∷ []) [] known same_key) taken_over
unfolding claimed_guids cons_guid member
adopt_orphans-NoRepeat_example =
    adopt_orphans-NoRepeat date_of (lost ∷ []) [] known same_key self saved (refl, tt)
