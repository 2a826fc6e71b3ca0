-- ===== src/StreamImport/Counted.antt =====
-- The lists of a summary share out the discovered videos.
use bunny_cli_fork.Common.{
  ℕ, ◌+◌, ◌≤◌, Bool, Option, none, some, List, [], ◌∷◌, map, Text, length, length-append,
  length-map, ◌≡◌, ◌∙◌, arith,
}
use bunny_cli_fork.Common.Dict.{get}
use bunny_cli_fork.StreamImport.Entries.{SourceVideo, unsupported_reason, count_videos}
use bunny_cli_fork.StreamImport.Reconcile.{Library}
use bunny_cli_fork.StreamImport.Summary.{
  SourceContent, SummaryVideo, Standing, migrated, in_processing, failed_for_good, new_video,
  Summary, no_summary, folder_names, foldered, discovered, stalled_here, standing, add_unsupported,
  add_row, add_totals, existing_of, add_video, summarize, get_summary,
}

-- The videos that stand in one of the four lists.
abbrev pub listed : Summary → ℕ
listed t =
    length t.new_videos_list
    + length t.migrated_videos_list
    + length t.processing_list
    + length t.failed_for_good_list

add_row-listed :
    (st : Standing) (row : SummaryVideo) (reason : Option Text) (t : Summary)
    → listed (add_row st row reason t) ≡ listed t + 1
unfolding add_row
add_row-listed migrated row reason t =
    omega (arith, length-append t.migrated_videos_list (row ∷ []))
add_row-listed in_processing row reason t =
    omega (arith, length-append t.processing_list (row ∷ []))
add_row-listed (failed_for_good why) row reason t =
    omega (arith, length-append t.failed_for_good_list ((row, why) ∷ []))
add_row-listed (new_video b) row reason t =
    omega (arith, length-append t.new_videos_list (row ∷ []))

-- Failed copies and unsupported videos are counted among the new ones.
abbrev IsFair : Summary → Type 0
IsFair t =
    (t.failed_on_bunny ≤ length t.new_videos_list)
    × (length t.unsupported_list ≤ length t.new_videos_list)

add_unsupported-bound :
    (row : SummaryVideo) (reason : Option Text) (rows : List (SummaryVideo × Text))
    → length (add_unsupported row reason rows) ≤ length rows + 1
add_unsupported-bound row none rows = omega arith
add_unsupported-bound row (some why) rows = omega (arith, length-append rows ((row, why) ∷ []))

add_row-IsFair :
    (st : Standing) (row : SummaryVideo) (reason : Option Text) (t : Summary)
    → IsFair t
    → IsFair (add_row st row reason t)
unfolding add_row
add_row-IsFair migrated row reason t h = h
add_row-IsFair in_processing row reason t h = h
add_row-IsFair (failed_for_good why) row reason t h = h
add_row-IsFair (new_video b) row reason t (h, k) = (
  ground (arith, h, length-append t.new_videos_list (row ∷ [])),
  omega (
    arith,
    k,
    add_unsupported-bound row reason t.unsupported_list,
    length-append t.new_videos_list (row ∷ []),
  ),
)

length-foldered :
    (names : List (Text × Text)) (videos : List (Text × List SourceVideo))
    (uncategorized : List SourceVideo)
    → length (foldered names videos) + length uncategorized ≡ count_videos videos uncategorized
unfolding foldered count_videos
length-foldered names [] uncategorized = omega arith
length-foldered names ((fid, vs) ∷ videos) uncategorized = omega (
  arith,
  length-append (map (λ v. (v, get fid names)) vs) (foldered names videos),
  length-map {B = SourceVideo × Option Text} (λ v. (v, get fid names)) vs,
  length-foldered names videos uncategorized,
)

module _ {E S : Type 0} (lib : Library E S) (clean_failed retry_stalled : Bool) where
  add_video-listed :
      (v : SourceVideo) (f : Option Text) (t : Summary)
      → listed (add_video lib clean_failed retry_stalled (v, f) t) ≡ listed t + 1
  unfolding add_video add_totals
  add_video-listed v f t =
      add_row-listed
        (standing lib clean_failed retry_stalled (existing_of lib clean_failed retry_stalled v))
        (record { name = v.display_name; folder = f }) (unsupported_reason v)
        (add_totals v
          (stalled_here lib clean_failed retry_stalled
            (existing_of lib clean_failed retry_stalled v))
          t)

  add_video-IsFair :
      (v : SourceVideo) (f : Option Text) (t : Summary)
      → IsFair t
      → IsFair (add_video lib clean_failed retry_stalled (v, f) t)
  unfolding add_video add_totals
  add_video-IsFair v f t h =
      add_row-IsFair
        (standing lib clean_failed retry_stalled (existing_of lib clean_failed retry_stalled v))
        (record { name = v.display_name; folder = f }) (unsupported_reason v)
        (add_totals v
          (stalled_here lib clean_failed retry_stalled
            (existing_of lib clean_failed retry_stalled v))
          t)
        h

  summarize-listed :
      (es : List (SourceVideo × Option Text)) (t : Summary)
      → listed (summarize lib clean_failed retry_stalled es t) ≡ listed t + length es
  unfolding summarize
  summarize-listed [] t = omega arith
  summarize-listed ((v, f) ∷ es) t = omega (
    arith,
    summarize-listed es (add_video lib clean_failed retry_stalled (v, f) t),
    add_video-listed v f t,
  )

  summarize-IsFair :
      (es : List (SourceVideo × Option Text)) (t : Summary)
      → IsFair t
      → IsFair (summarize lib clean_failed retry_stalled es t)
  unfolding summarize
  summarize-IsFair [] t h = h
  summarize-IsFair ((v, f) ∷ es) t h =
      summarize-IsFair es (add_video lib clean_failed retry_stalled (v, f) t)
        (add_video-IsFair v f t h)

  length-discovered :
      (content : SourceContent)
      → length (discovered content) ≡ count_videos content.videos content.uncategorized_videos
  unfolding discovered
  length-discovered content =
      let names = folder_names content.folders [] in
      omega (
        arith,
        length-append (foldered names content.videos)
            (map {B = SourceVideo × Option Text} (λ v. (v, none)) content.uncategorized_videos),
        length-map {B = SourceVideo × Option Text} (λ v. (v, none)) content.uncategorized_videos,
        length-foldered names content.videos content.uncategorized_videos,
      )

  -- The four lists of the summary have together as many rows as a run over the whole content counts
  -- videos; and the failed copies and the unsupported videos are no more than
  -- the new ones.
  pub get_summary-counts :
      (content : SourceContent)
      → let t = get_summary lib clean_failed retry_stalled content in
        (listed t ≡ count_videos content.videos content.uncategorized_videos)
        × (t.failed_on_bunny ≤ length t.new_videos_list)
        × (length t.unsupported_list ≤ length t.new_videos_list)
  unfolding get_summary no_summary
  get_summary-counts content =
      let (a, b) = summarize-IsFair (discovered content) no_summary (omega arith, omega arith) in
      (
        summarize-listed (discovered content) no_summary ∙ omega (arith, length-discovered content),
        a,
        b,
      )
