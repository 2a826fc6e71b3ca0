-- ===== src/StreamImport/Orphans.antt =====
-- packages/stream-import/src/migration.ts: the saved run that a new one resumes or takes videos from,
-- and what of the library's listing that needs.
use bunny_cli_fork.Common.{
  ℕ, Bool, true, false, not, ◌&&◌, ◌||◌, Option, none, some, List, [], ◌∷◌, ◌++◌, any, filter,
  if◌then◌else◌, Text, text_eq, is_empty,
}
use bunny_cli_fork.Common.Dict.{get, set}
use bunny_cli_fork.StreamImport.Videos.{Video, MetaTag, video_health, is_failed, tag_value}
use bunny_cli_fork.StreamImport.Entries.{
  Entry, processing, RunStatus, in_progress, run_completed, FolderMapping, is_tagged,
}
use bunny_cli_fork.StreamImport.Recover.{
  member, Candidate, cons_guid, claimed_guids, ambiguous_titles, find_lost_fetch,
}

-- MigrationState, less its identifier and its times.
pub record RunState : Type 0 where
  pub source : Text
  pub bunny_library_id : Text
  pub bunny_account_id : Option Text
  pub source_folder_id : Option Text
  pub folder_mappings : List FolderMapping
  pub video_migrations : List Entry
  pub status : RunStatus

-- What a run is about: the source, the library and its owner where that is known.
pub record Identity : Type 0 where
  pub source : Text
  pub library_id : Text
  pub account_id : Option Text

unfoldable pub new_state : Identity → RunState
new_state self = record {
  source = self.source;
  bunny_library_id = self.library_id;
  bunny_account_id = self.account_id;
  source_folder_id = none;
  folder_mappings = [];
  video_migrations = [];
  status = in_progress;
}

-- Two owners differ only where both are known.
unfoldable pub same_account : Option Text → Option Text → Bool
same_account none b = true
same_account (some a) none = true
same_account (some a) (some b) = is_empty a || is_empty b || text_eq a b

-- `matchesRun` gives null.
unfoldable pub matches_run : Identity → RunState → Bool
unfolding same_account
matches_run self saved =
    text_eq saved.source self.source
    && text_eq saved.bunny_library_id self.library_id
    && same_account saved.bunny_account_id self.account_id

unfoldable pub is_finished : RunStatus → Bool
is_finished run_completed = true
is_finished s = false

abbrev pub resumed : RunState → RunState
resumed saved = record {
  source = saved.source;
  bunny_library_id = saved.bunny_library_id;
  bunny_account_id = saved.bunny_account_id;
  source_folder_id = saved.source_folder_id;
  folder_mappings = saved.folder_mappings;
  video_migrations = saved.video_migrations;
  status = in_progress;
}

unfoldable pub resumable_state : Identity → Option RunState → RunState
unfolding new_state matches_run is_finished
resumable_state self none = new_state self
resumable_state self (some saved) =
    if not (matches_run self saved)
    then new_state self
    else if is_finished saved.status
    then new_state self
    else resumed saved

-- The guids of the listing, and the videos in it without the source's tag.
unfoldable pub known_guids : List Video → List Text
unfolding cons_guid
known_guids [] = []
known_guids (v ∷ vs) = cons_guid v.guid (known_guids vs)

unfoldable pub has_tag : Text → List MetaTag → Bool
has_tag property tags =
    any (λ (t : MetaTag). elim t.property [ none ↦ false | some p ↦ text_eq p property ]) tags

unfoldable pub untagged_videos : Text → List Candidate → List Candidate
unfolding has_tag
untagged_videos property listing =
    filter (λ (c : Candidate). not (has_tag property c.video.meta_tags)) listing

-- The failed copies of every tag, in the order of the listing.
unfoldable pub add_copy : Text → Text → List (Text × List Text) → List (Text × List Text)
add_copy tag guid copies = elim (get tag copies) [
  | none ↦ set tag (guid ∷ []) copies
  | some gs ↦ set tag (gs ++ guid ∷ []) copies
]

unfoldable pub dead_copies : Text → List Video → List (Text × List Text) → List (Text × List Text)
unfolding add_copy
dead_copies property [] copies = copies
dead_copies property (v ∷ vs) copies = elim (tag_value property v.meta_tags) [
  | none ↦ dead_copies property vs copies
  | some tag ↦ elim v.guid [
    | none ↦ dead_copies property vs copies
    | some guid ↦
        if is_empty tag || is_empty guid || not (is_failed (video_health v))
        then dead_copies property vs copies
        else dead_copies property vs (add_copy tag guid copies)
  ]
]

-- An entry of a dead run, taken over with the video it has in Bunny.
abbrev pub adopted : Entry → Text → Entry
adopted m guid = record {
  source_video_id = m.source_video_id;
  video_name = m.video_name;
  source_folder_id = m.source_folder_id;
  bunny_video_id = some guid;
  bunny_collection_id = m.bunny_collection_id;
  status = processing;
  error = none;
  started_at = m.started_at;
  completed_at = none;
  encode_progress = m.encode_progress;
  pending_fetch = none;
  attempts = m.attempts;
  permanent = m.permanent;
}

unfoldable pub is_there : Option Video → Bool
is_there none = false
is_there (some v) = true

-- The library as it was listed.
module _ (parse_date : Text → Option ℕ) (untagged : List Candidate) (index : List (Text × Video))
    (known : List Text) (dedup_key : Text → Text) where
  -- A video of Bunny's that is to be adopted: untagged, without a tagged copy, and still there.
  unfoldable pub is_orphan : Entry → Text → Bool
  is_orphan m guid =
      not (is_empty guid)
      && not (is_tagged index guid || is_there (get (dedup_key m.source_video_id) index))
      && member guid known

  -- `entry.bunnyVideoId ?? this.findLostFetch(...)`
  unfoldable pub candidate_guid : Entry → Option Text → List Text → List Text → Option Text
  candidate_guid m none claimed ambiguous = find_lost_fetch parse_date untagged m claimed ambiguous
  candidate_guid m (some guid) claimed ambiguous = some guid

  -- A round, before the entries that are pushed behind it.
  unfoldable pub adopt_entry : Entry → List Entry → (Text → List Entry) → Option Text → List Entry
  unfolding is_orphan
  adopt_entry m skipped taken none = skipped
  adopt_entry m skipped taken (some guid) =
      if is_orphan m guid then adopted m guid ∷ taken guid else skipped

  -- The loop: the entries that are pushed.
  unfoldable pub adopt_entries : List Text → List Entry → List Text → List Entry
  unfolding candidate_guid adopt_entry
  adopt_entries ambiguous [] claimed = []
  adopt_entries ambiguous (m ∷ ms) claimed =
      let skipped = adopt_entries ambiguous ms claimed in
      adopt_entry m skipped (λ guid. adopt_entries ambiguous ms (guid ∷ claimed))
        (candidate_guid m m.bunny_video_id claimed ambiguous)

  unfoldable pub adopt_orphans : Identity → List Entry → Option RunState → List Entry
  unfolding adopt_entries claimed_guids ambiguous_titles matches_run
  adopt_orphans self entries none = entries
  adopt_orphans self entries (some saved) =
      if not (matches_run self saved)
      then entries
      else entries
        ++ adopt_entries (ambiguous_titles saved.video_migrations) saved.video_migrations
            (claimed_guids saved.video_migrations)
