-- ===== src/StreamImport/Recover.antt =====
-- packages/stream-import/src/migration.ts: on resume, entries whose fetch response was lost are given
-- the video that Bunny created for them.
use bunny_cli_fork.Common.{
  ℕ, ◌+◌, Bool, false, not, ◌&&◌, Option, none, some, List, [], ◌∷◌, any, filter, leb,
  if◌then◌else◌, Text, text_eq, is_empty,
}
use bunny_cli_fork.StreamImport.Videos.{Video, truthy, text_or_empty, parse_bunny_date}
use bunny_cli_fork.StreamImport.Entries.{Entry, EntryStatus, PendingFetch, processing}

-- A set of strings as its elements.
unfoldable pub member : Text → List Text → Bool
member t xs = any (λ x. text_eq x t) xs

-- An untagged video with its title.
pub record Candidate : Type 0 where
  pub video : Video
  pub title : Option Text

-- CLOCK_SKEW_MS
abbrev pub clock_skew_ms : ℕ
clock_skew_ms = 300000

unfoldable pub cons_guid : Option Text → List Text → List Text
cons_guid none gs = gs
cons_guid (some g) gs = if is_empty g then gs else g ∷ gs

-- The guids of the entries that have one.
unfoldable pub claimed_guids : List Entry → List Text
claimed_guids [] = []
claimed_guids (m ∷ ms) = cons_guid m.bunny_video_id (claimed_guids ms)

-- The loop of `ambiguousTitles` behind the titles seen.
unfoldable pub ambiguous_from : List Text → List Entry → List Text
ambiguous_from seen [] = []
ambiguous_from seen (m ∷ ms) = elim m.pending_fetch [
  | none ↦ ambiguous_from seen ms
  | some pending ↦
      let unseen = ambiguous_from (pending.title ∷ seen) ms in
      let skipped = ambiguous_from seen ms in
      if truthy m.bunny_video_id
      then skipped
      else if member pending.title seen
      then pending.title ∷ unseen
      else unseen
]

unfoldable pub ambiguous_titles : List Entry → List Text
ambiguous_titles entries = ambiguous_from [] entries

abbrev pub same_title : Option Text → Text → Bool
same_title none title = false
same_title (some t) title = text_eq t title

module _ (parse_date : Text → Option ℕ) (untagged : List Candidate) where
  -- Uploaded no earlier than the request, within the skew of the two clocks.
  unfoldable pub uploaded_since : Option Text → Text → Bool
  uploaded_since none at = false
  uploaded_since (some date) at = elim (parse_bunny_date parse_date date) [
    | none ↦ false
    | some d ↦ elim (parse_date at) [ none ↦ false | some t ↦ leb t (d + clock_skew_ms) ]
  ]

  unfoldable pub is_match : PendingFetch → List Text → Candidate → Bool
  is_match pending claimed c =
      truthy c.video.guid
      && not (member (text_or_empty c.video.guid) claimed)
      && same_title c.title pending.title
      && uploaded_since c.video.date_uploaded pending.at

  abbrev pub only_guid : List Candidate → Option Text
  only_guid (c ∷ []) = c.video.guid
  only_guid cs = none

  unfoldable pub find_pending : Option PendingFetch → List Text → List Text → Option Text
  find_pending none claimed ambiguous = none
  find_pending (some pending) claimed ambiguous =
      if member pending.title ambiguous
      then none
      else only_guid (filter (is_match pending claimed) untagged)

  unfoldable pub find_lost_fetch : Entry → List Text → List Text → Option Text
  find_lost_fetch entry claimed ambiguous = find_pending entry.pending_fetch claimed ambiguous

  abbrev pub forgotten : Entry → Option Text → EntryStatus → Entry
  forgotten m id status = record {
    source_video_id = m.source_video_id;
    video_name = m.video_name;
    source_folder_id = m.source_folder_id;
    bunny_video_id = id;
    bunny_collection_id = m.bunny_collection_id;
    status = status;
    error = m.error;
    started_at = m.started_at;
    completed_at = m.completed_at;
    encode_progress = m.encode_progress;
    pending_fetch = none;
    attempts = m.attempts;
    permanent = m.permanent;
  }

  unfoldable pub recover_found : Entry → List Text → Option Text → Entry × List Text
  recover_found m claimed none = (forgotten m m.bunny_video_id m.status, claimed)
  recover_found m claimed (some guid) = (forgotten m (some guid) processing, guid ∷ claimed)

  unfoldable pub recover_pending :
      List Text → Entry → List Text → Option PendingFetch → Entry × List Text
  recover_pending ambiguous m claimed none = (m, claimed)
  recover_pending ambiguous m claimed (some pending) =
      if truthy m.bunny_video_id
      then (m, claimed)
      else recover_found m claimed (find_lost_fetch m claimed ambiguous)

  -- A round of the loop: the entry, and the guids claimed behind it.
  unfoldable pub recover_entry : List Text → Entry → List Text → Entry × List Text
  recover_entry ambiguous m claimed = recover_pending ambiguous m claimed m.pending_fetch

  unfoldable pub recover_entries : List Text → List Entry → List Text → List Entry
  recover_entries ambiguous [] claimed = []
  recover_entries ambiguous (m ∷ ms) claimed =
      let (m', claimed') = recover_entry ambiguous m claimed in
      m' ∷ recover_entries ambiguous ms claimed'

  unfoldable pub recover_lost_fetches : List Entry → List Entry
  recover_lost_fetches entries =
      recover_entries (ambiguous_titles entries) entries (claimed_guids entries)
