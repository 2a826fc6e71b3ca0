-- ===== src/StreamImport/Entries.antt =====
-- packages/stream-import/src/contracts.ts and migration.ts: the entries of a run and the functions
-- on them that call no service.
use bunny_cli_fork.Common.{
  ℕ, ◌+◌, ◌*◌, Bool, true, false, not, ◌&&◌, ◌||◌, Option, none, some, List, [], ◌∷◌, ◌++◌, map,
  any, ◌==◌, ltb, leb, if◌then◌else◌, Text, codes, text_eq, is_empty, length,
}
use bunny_cli_fork.Common.Decimal.{print}
use bunny_cli_fork.StreamImport.Videos.{Video, truthy}

pub data EntryStatus : Type 0 where
  pending fetching processing completed failed : EntryStatus

pub data RunStatus : Type 0 where
  in_progress run_completed run_failed paused : RunStatus

pub record PendingFetch : Type 0 where
  pub title : Text
  pub at : Text

-- VideoMigration, less the description and the tags that only its fetch reads.
pub record Entry : Type 0 where
  pub source_video_id : Text
  pub video_name : Text
  pub source_folder_id : Option Text
  pub bunny_video_id : Option Text
  pub bunny_collection_id : Option Text
  pub status : EntryStatus
  pub error : Option Text
  pub started_at : Option Text
  pub completed_at : Option Text
  pub encode_progress : ℕ
  pub pending_fetch : Option PendingFetch
  pub attempts : ℕ
  pub permanent : Bool

pub record SourceVideo : Type 0 where
  pub source_id : Text
  pub display_name : Text
  pub size : Option ℕ
  pub duration : Option ℕ
  pub width : Option ℕ
  pub height : Option ℕ

pub record FolderMapping : Type 0 where
  pub source_folder_id : Text
  pub bunny_collection_id : Text

abbrev pub is_completed : EntryStatus → Bool
is_completed completed = true
is_completed s = false

abbrev pub is_failure : EntryStatus → Bool
is_failure failed = true
is_failure s = false

unfoldable pub overall_status : List Entry → RunStatus
overall_status entries =
    if any (λ (m : Entry). is_failure m.status) entries
    then run_failed
    else if any (λ (m : Entry). not (is_completed m.status)) entries
    then in_progress
    else run_completed

-- MAX_IMPORT_ATTEMPTS
abbrev pub max_import_attempts : ℕ
max_import_attempts = 3

unfoldable pub given_up : Bool → Entry → Bool
given_up clean_failed m = not clean_failed && (m.permanent || leb max_import_attempts m.attempts)

abbrev pub retried : Entry → Entry
retried m = record {
  source_video_id = m.source_video_id;
  video_name = m.video_name;
  source_folder_id = m.source_folder_id;
  bunny_video_id = m.bunny_video_id;
  bunny_collection_id = m.bunny_collection_id;
  status = if truthy m.bunny_video_id then processing else pending;
  error = none;
  started_at = m.started_at;
  completed_at = none;
  encode_progress = m.encode_progress;
  pending_fetch = m.pending_fetch;
  attempts = m.attempts;
  permanent = m.permanent;
}

unfoldable pub requeue_entry : Bool → (Entry → Bool) → Entry → Entry
requeue_entry clean_failed in_scope m =
    if is_failure m.status && in_scope m && not (given_up clean_failed m) then retried m else m

unfoldable pub requeue_failed : Bool → (Entry → Bool) → List Entry → List Entry
requeue_failed clean_failed in_scope entries = map (requeue_entry clean_failed in_scope) entries

abbrev pub entry_of : SourceVideo → Option Text → Option Text → Entry
entry_of video folder collection = record {
  source_video_id = video.source_id;
  video_name = video.display_name;
  source_folder_id = folder;
  bunny_video_id = none;
  bunny_collection_id = collection;
  status = pending;
  error = none;
  started_at = none;
  completed_at = none;
  encode_progress = 0;
  pending_fetch = none;
  attempts = 0;
  permanent = false;
}

unfoldable pub has_entry : List Entry → Text → Bool
has_entry entries id = any (λ (m : Entry). text_eq m.source_video_id id) entries

-- `add`: the set of known identifiers is that of the entries.
unfoldable pub add_entry : SourceVideo → Option Text → Option Text → List Entry → List Entry
add_entry video folder collection entries =
    if has_entry entries video.source_id
    then entries
    else entries ++ entry_of video folder collection ∷ []

unfoldable pub add_entries : List SourceVideo → Option Text → Option Text → List Entry → List Entry
add_entries [] folder collection entries = entries
add_entries (v ∷ vs) folder collection entries =
    add_entries vs folder collection (add_entry v folder collection entries)

unfoldable pub collection_of : List FolderMapping → Text → Option Text
collection_of [] folder = none
collection_of (m ∷ ms) folder =
    let later = collection_of ms folder in
    if text_eq m.source_folder_id folder then some m.bunny_collection_id else later

unfoldable pub add_folders :
    List FolderMapping → List (Text × List SourceVideo) → List Entry → List Entry
add_folders mappings [] entries = entries
add_folders mappings ((folder, vs) ∷ folders) entries =
    add_folders mappings folders
      (add_entries vs (some folder) (collection_of mappings folder) entries)

unfoldable pub prepare_entries :
    List FolderMapping → List (Text × List SourceVideo) → List SourceVideo → List Entry → List Entry
prepare_entries mappings videos uncategorized entries =
    add_entries uncategorized none none (add_folders mappings videos entries)

-- Whether a video of the index has the identifier.
unfoldable pub is_tagged : List (Text × Video) → Text → Bool
is_tagged [] id = false
is_tagged ((key, v) ∷ index) id = elim v.guid [
  | none ↦ is_tagged index id
  | some g ↦ text_eq g id || is_tagged index id
]

unfoldable pub processing_untagged : List (Text × Video) → Option Text → Bool
processing_untagged index none = false
processing_untagged index (some id) = not (is_empty id) && not (is_tagged index id)

unfoldable pub status_needs_queueing : List (Text × Video) → EntryStatus → Option Text → Bool
status_needs_queueing index pending id = true
status_needs_queueing index fetching id = true
status_needs_queueing index processing id = processing_untagged index id
status_needs_queueing index s id = false

unfoldable pub needs_queueing : List (Text × Video) → Entry → Bool
needs_queueing index m = status_needs_queueing index m.status m.bunny_video_id

-- Whether a source's length or size is over Bunny's limits.
abbrev pub or_zero : Option ℕ → ℕ
or_zero none = 0
or_zero (some n) = n

unfoldable pub over_resolution : ℕ → ℕ → Bool
over_resolution w h =
    not (w == 0)
    && not (h == 0)
    && (ltb 3840 (if leb w h then h else w) || ltb 2160 (if leb w h then w else h))

unfoldable pub unsupported_reason : SourceVideo → Option Text
unsupported_reason v =
    if ltb (72 * 3600) (or_zero v.duration)
    then some (codes "Longer than Bunny's 72 hour limit")
    else if over_resolution (or_zero v.width) (or_zero v.height)
    then some (
        print (or_zero v.width)
        ++ codes "x"
        ++ print (or_zero v.height)
        ++ codes " is above Bunny's 2160p limit")
    else none

unfoldable pub count_videos : List (Text × List SourceVideo) → List SourceVideo → ℕ
count_videos [] uncategorized = length uncategorized
count_videos ((folder, vs) ∷ folders) uncategorized = count_videos folders uncategorized + length vs
