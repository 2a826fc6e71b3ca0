-- ===== src/StreamImport/Queue.antt =====
-- packages/stream-import/src/migration.ts: `queueVideo` with startFetch, tagVideo and deleteDeadCopies.
use bunny_cli_fork.Common.{
  ◌+◌, Bool, true, false, not, ◌&&◌, ◌||◌, Option, none, some, List, [], ◌∷◌, if◌then◌else◌, Text,
  is_empty,
}
use bunny_cli_fork.Common.Exec.{Result, ok, thrown, continue}
use bunny_cli_fork.Common.Dict.{get}
use bunny_cli_fork.StreamImport.Videos.{truthy, text_or_empty}
use bunny_cli_fork.StreamImport.Entries.{Entry, pending, fetching, processing, failed}
use bunny_cli_fork.StreamImport.Work.{
  DownloadInfo, Notes, FetchResult, Fault, aborted, no_download, invalid_url, fetch_failed, service,
  Work, Services, revised, with_entry, with_host, with_notes, without_copies, flush,
}

module _ {E S : Type 0} (svc : Services E S) (clean_failed : Bool) where
  -- Fetching, with one attempt more.
  unfoldable pub begin_fetch : Work S → Work S
  unfolding flush with_entry
  begin_fetch w = flush (
      with_entry
        (revised w.entry w.entry.bunny_video_id fetching none (some (svc.now w.host))
          w.entry.pending_fetch (w.entry.attempts + 1))
        w)

  abbrev pub noted : DownloadInfo → Notes → Notes
  noted info n = record {
    description = if truthy info.description then info.description else n.description;
    tags = if is_empty info.tags then n.tags else info.tags;
  }

  abbrev pub title_of : DownloadInfo → Entry → Text
  title_of info m = if is_empty info.title then m.video_name else info.title

  -- The journal knows of the fetch before Bunny does.
  unfoldable pub note_fetch : DownloadInfo → Work S → Work S
  unfolding flush with_entry
  note_fetch info w =
      let m = w.entry in
      flush (
        with_entry
          (revised m m.bunny_video_id m.status m.error m.started_at
            (some (record { title = title_of info m; at = svc.now w.host })) m.attempts)
          w)

  -- Bunny has the video; this is saved before anything else.
  unfoldable pub note_created : Text → Work S → Work S
  unfolding flush with_entry
  note_created id w =
      let m = w.entry in
      flush (with_entry (revised m (some id) processing m.error m.started_at none m.attempts) w)

  unfoldable pub forget_fetch : Work S → Work S
  unfolding with_entry
  forget_fetch w =
      let m = w.entry in
      with_entry (revised m m.bunny_video_id m.status m.error m.started_at none m.attempts) w

  unfoldable pub fetch_refused : FetchResult → Work S → Result (Fault E) Text × Work S
  unfolding forget_fetch
  fetch_refused r w =
      if svc.video_aborted w.host
      then (thrown aborted, w)
      else if r.indeterminate
      then (thrown (fetch_failed r.error), w)
      else (thrown (fetch_failed r.error), forget_fetch w)

  unfoldable pub fetch_created : Text → Work S → Result (Fault E) Text × Work S
  unfolding note_created
  fetch_created id w =
      let w' = note_created id w in
      if svc.video_aborted w'.host then (thrown aborted, w') else (ok id, w')

  unfoldable pub after_fetch : Work S → Result E FetchResult × S → Result (Fault E) Text × Work S
  unfolding fetch_refused fetch_created with_host
  after_fetch w (thrown e, s) = (thrown (service e), with_host s w)
  after_fetch w (ok r, s) =
      if r.success && truthy r.video_id
      then fetch_created (text_or_empty r.video_id) (with_host s w)
      else fetch_refused r (with_host s w)

  -- A download that was found.
  unfoldable pub fetch_from : DownloadInfo → Work S → Result (Fault E) Text × Work S
  unfolding after_fetch note_fetch
  fetch_from info w =
      if not (svc.valid_url info.url)
      then (thrown invalid_url, w)
      else if svc.run_aborted w.host
      then (thrown aborted, w)
      else (let w' = note_fetch info w in
          after_fetch w'
            (svc.fetch_video info (title_of info w.entry) w.entry.bunny_collection_id w'.host))

  unfoldable pub after_info :
      Work S → Result E (Option DownloadInfo) × S → Result (Fault E) Text × Work S
  unfolding fetch_from with_host with_notes
  after_info w (thrown e, s) = (thrown (service e), with_host s w)
  after_info w (ok none, s) =
      if svc.video_aborted s || svc.run_aborted s
      then (thrown aborted, with_host s w)
      else (thrown no_download, with_host s w)
  after_info w (ok (some info), s) =
      if svc.video_aborted s || svc.run_aborted s
      then (thrown aborted, with_host s w)
      else fetch_from info (with_notes (noted info w.notes) (with_host s w))

  unfoldable pub start_fetch : Work S → Result (Fault E) Text × Work S
  unfolding after_info begin_fetch
  start_fetch w =
      let w' = begin_fetch w in after_info w' (svc.download_info w'.entry.source_video_id w'.host)

  unfoldable pub after_delete : Work S → Result E Unit × S → Result (Fault E) Unit × Work S
  unfolding with_host
  after_delete w (thrown e, s) = (thrown (service e), with_host s w)
  after_delete w (ok _, s) = (ok tt, with_host s w)

  unfoldable pub delete_copies : List Text → Work S → Result (Fault E) Unit × Work S
  unfolding after_delete
  delete_copies [] w = (ok tt, w)
  delete_copies (g ∷ gs) w =
      let (r, w') = after_delete w (svc.delete_video g w.host) in
      continue r (λ u. delete_copies gs) w'

  abbrev pub copies_of : Option (List Text) → List Text
  copies_of none = []
  copies_of (some gs) = gs

  unfoldable pub delete_dead_copies : Work S → Result (Fault E) Unit × Work S
  unfolding delete_copies without_copies
  delete_dead_copies w =
      let key = svc.dedup_key w.entry.source_video_id in
      let (r, w') = delete_copies (copies_of (get key w.dead_copies)) w in
      continue r (λ u w''. (ok tt, without_copies key w'')) w'

  -- The video to tag: the one that an interrupted run left, or a new one.
  unfoldable pub find_video : Bool → Work S → Result (Fault E) Text × Work S
  unfolding start_fetch delete_dead_copies
  find_video true w = (ok (text_or_empty w.entry.bunny_video_id), w)
  find_video false w =
      let (r, w') = if clean_failed then delete_dead_copies w else (ok tt, w) in
      continue r (λ u. start_fetch) w'

  unfoldable pub tag_video : Text → Work S → Result (Fault E) Unit × Work S
  unfolding after_delete
  tag_video id w =
      after_delete w (svc.set_metadata id (svc.dedup_key w.entry.source_video_id) w.notes w.host)

  unfoldable pub put_back : Work S → Work S
  unfolding flush with_entry
  put_back w =
      let m = w.entry in
      flush
        (with_entry (revised m m.bunny_video_id pending m.error none m.pending_fetch m.attempts) w)

  unfoldable pub mark_failed : Fault E → Work S → Work S
  unfolding flush with_entry
  mark_failed f w =
      let m = w.entry in
      flush (
        with_entry
          (revised m m.bunny_video_id failed (some (svc.describe f)) m.started_at m.pending_fetch
            m.attempts)
          w)

  unfoldable pub is_untouched : Entry → Bool
  is_untouched m =
      not (truthy m.bunny_video_id) && elim m.pending_fetch [ none ↦ true | some p ↦ false ]

  -- The end of the `try`, and its `catch`.
  unfoldable pub settle : Result (Fault E) Unit × Work S → Work S
  unfolding put_back mark_failed is_untouched flush
  settle (ok _, w) = if svc.video_aborted w.host then w else flush w
  settle (thrown f, w) =
      if svc.video_aborted w.host
      then w
      else if svc.run_aborted w.host && is_untouched w.entry
      then put_back w
      else mark_failed f w

  unfoldable pub is_resumed : Entry → Bool
  is_resumed m = elim m.status [ processing ↦ truthy m.bunny_video_id | _ ↦ false ]

  unfoldable pub queue_video : Work S → Work S
  unfolding find_video tag_video settle is_resumed
  queue_video w =
      let (r, w') = find_video (is_resumed w.entry) w in settle (continue r tag_video w')
