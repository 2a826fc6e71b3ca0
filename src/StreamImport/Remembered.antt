-- ===== src/StreamImport/Remembered.antt =====
-- However the hand-off of a video ends, what Bunny created for it is not lost.
use bunny_cli_fork.Common.{
  Bool, true, false, not, ◌&&◌, ◌||◌, Option, none, some, List, if◌then◌else◌, Text, if_both, ◌≡◌,
  refl, ◌∙◌, inl,
}
use bunny_cli_fork.Common.Exec.{Result, ok, thrown, continue}
use bunny_cli_fork.StreamImport.Entries.{pending, failed}
use bunny_cli_fork.StreamImport.Work.{
  DownloadInfo, Notes, Fault, Work, Services, revised, with_entry, with_host, with_notes, flush,
}
use bunny_cli_fork.StreamImport.Queue.{
  begin_fetch, noted, title_of, note_fetch, after_fetch, fetch_from, after_info, start_fetch,
  delete_dead_copies, find_video, tag_video, put_back, mark_failed, is_untouched, settle,
  is_resumed, queue_video,
}
use bunny_cli_fork.StreamImport.Recorded.{
  Recorded, Kept, Honest, Kept-Recorded, Kept-flush, Kept-revised, after_delete-Kept, continue-Kept,
  delete_dead_copies-created, after_fetch-Kept,
}

module _ {E S : Type 0} (svc : Services E S) (clean_failed : Bool) (created : S → List Text)
    (before : List Text)
    (deletes : (g : Text) (s : S) → created ((svc.delete_video g s).1) ≡ created s)
    (tags : (id key : Text) (n : Notes) (s : S)
      → created ((svc.set_metadata id key n s).1) ≡ created s)
    (downloads : (id : Text) (s : S) → created ((svc.download_info id s).1) ≡ created s)
    (fetches : (info : DownloadInfo) (title : Text) (folder : Option Text) (s : S)
      → Honest created s (svc.fetch_video info title folder s)) where
  fetch_from-Kept :
      (info : DownloadInfo) (w : Work S)
      → created w.host ≡ before
      → Kept created before ((fetch_from svc clean_failed info w).1)
  unfolding fetch_from
  fetch_from-Kept info w h =
      if_both (λ (x : Result (Fault E) Text × Work S). Kept created before (x.1))
        (not (svc.valid_url info.url)) _ _ (inl h)
        (if_both (λ (x : Result (Fault E) Text × Work S). Kept created before (x.1))
          (svc.run_aborted w.host) _ _ (inl h) sent)
    where
      sent :
          let w' = note_fetch svc clean_failed info w in
          Kept created before (
            (after_fetch svc clean_failed w' (
              svc.fetch_video info
                (title_of svc clean_failed info w.entry)
                w.entry.bunny_collection_id
                w'.host)).1)
      sent =
          unfold note_fetch flush with_entry in
          after_fetch-Kept svc clean_failed created before deletes tags
            (note_fetch svc clean_failed info w)
            (svc.fetch_video info (title_of svc clean_failed info w.entry)
              w.entry.bunny_collection_id w.host)
            h
            (
              (
                record { title = title_of svc clean_failed info w.entry; at = svc.now w.host },
                refl,
              ),
              (
                record { title = title_of svc clean_failed info w.entry; at = svc.now w.host },
                refl,
              ),
            )
            (fetches info (title_of svc clean_failed info w.entry) w.entry.bunny_collection_id
              w.host)

  after_info-Kept :
      (w : Work S) (x : Result E (Option DownloadInfo) × S)
      → created (x.1) ≡ before
      → Kept created before ((after_info svc clean_failed w x).1)
  unfolding after_info with_host with_notes
  after_info-Kept w (thrown e, s) h = inl h
  after_info-Kept w (ok none, s) h =
      if_both (λ (x : Result (Fault E) Text × Work S). Kept created before (x.1))
        (svc.video_aborted s || svc.run_aborted s) _ _ (inl h) (inl h)
  after_info-Kept w (ok (some info), s) h =
      if_both (λ (x : Result (Fault E) Text × Work S). Kept created before (x.1))
        (svc.video_aborted s || svc.run_aborted s) _ _ (inl h)
        (fetch_from-Kept info (with_notes (noted svc clean_failed info w.notes) (with_host s w)) h)

  start_fetch-Kept :
      (w : Work S)
      → created w.host ≡ before
      → Kept created before ((start_fetch svc clean_failed w).1)
  unfolding start_fetch begin_fetch flush with_entry
  start_fetch-Kept w h =
      after_info-Kept (begin_fetch svc clean_failed w)
        (svc.download_info w.entry.source_video_id w.host)
        (downloads w.entry.source_video_id w.host ∙ h)

  find_video-Kept :
      (resumed : Bool) (w : Work S)
      → created w.host ≡ before
      → Kept created before ((find_video svc clean_failed resumed w).1)
  unfolding find_video
  find_video-Kept true w h = inl h
  find_video-Kept false w h =
      by_deletion (if clean_failed then delete_dead_copies svc clean_failed w else (ok tt, w)) (
        if_both (λ (x : Result (Fault E) Unit × Work S). created ((x.1).host) ≡ before) clean_failed
          (delete_dead_copies svc clean_failed w) (ok tt, w)
          (delete_dead_copies-created svc clean_failed created before deletes tags w h) h)
    where
      by_deletion :
          (x : Result (Fault E) Unit × Work S)
          → created ((x.1).host) ≡ before
          → Kept created before ((continue (x.0) (λ u. start_fetch svc clean_failed) (x.1)).1)
      by_deletion (ok u, w') k = start_fetch-Kept w' k
      by_deletion (thrown e, w') k = inl k

  put_back-Kept :
      (w : Work S) → Kept created before w → Kept created before (put_back svc clean_failed w)
  unfolding put_back
  put_back-Kept w k =
      let m = w.entry in
      Kept-flush created before
        (with_entry (revised m m.bunny_video_id pending m.error none m.pending_fetch m.attempts) w)
        (Kept-revised created before w pending m.error none m.attempts k)

  mark_failed-Kept :
      (f : Fault E) (w : Work S)
      → Kept created before w
      → Kept created before (mark_failed svc clean_failed f w)
  unfolding mark_failed
  mark_failed-Kept f w k =
      let m = w.entry in
      Kept-flush created before
        (with_entry
          (revised m m.bunny_video_id failed (some (svc.describe f)) m.started_at m.pending_fetch
            m.attempts)
          w)
        (Kept-revised created before w failed (some (svc.describe f)) m.started_at m.attempts k)

  settle-Kept :
      (x : Result (Fault E) Unit × Work S)
      → Kept created before (x.1)
      → Kept created before (settle svc clean_failed x)
  unfolding settle
  settle-Kept (ok u, w) k =
      if_both (Kept created before) (svc.video_aborted w.host) w (flush w) k
        (Kept-flush created before w k)
  settle-Kept (thrown f, w) k = if_both (Kept created before) (svc.video_aborted w.host) _ _ k (
      if_both (Kept created before)
        (svc.run_aborted w.host && is_untouched svc clean_failed w.entry) _ _ (put_back-Kept w k)
        (mark_failed-Kept f w k))

  -- However the hand-off of a video ends - done, failed, paused or timed out - where the service is
  -- honest about its fetches and only a fetch creates videos: Bunny created nothing for it, or the
  -- journal has the video that was created, or the journal has the fetch noted as sent.
  pub queue_video-Recorded :
      (w : Work S)
      → created w.host ≡ before
      → let w' = queue_video svc clean_failed w in Recorded created before w'.journal w'.host
  unfolding queue_video tag_video
  queue_video-Recorded w h =
      let found = find_video svc clean_failed (is_resumed svc clean_failed w.entry) w in
      Kept-Recorded created before (queue_video svc clean_failed w) (
        settle-Kept (continue (found.0) (tag_video svc clean_failed) (found.1)) (
          continue-Kept svc clean_failed created before deletes tags (tag_video svc clean_failed)
            found (find_video-Kept (is_resumed svc clean_failed w.entry) w h)
            (λ id v k.
              after_delete-Kept svc clean_failed created before deletes tags v
                (svc.set_metadata id (svc.dedup_key v.entry.source_video_id) v.notes v.host)
                (tags id (svc.dedup_key v.entry.source_video_id) v.notes v.host) k)))
