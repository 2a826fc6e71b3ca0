-- ===== src/StreamImport/Foretold.antt =====
-- What a summary calls new is what a fresh run queues.
use bunny_cli_fork.Common.{
  Bool, true, false, not, ◌&&◌, Option, none, some, Text, is_empty, Option-cases, Bool-cases, ◌≡◌,
  refl, sym, subst, inl, inr, arith,
}
use bunny_cli_fork.Common.Exec.{Result, ok, thrown}
use bunny_cli_fork.Common.Dict.{get}
use bunny_cli_fork.StreamImport.Videos.{
  Video, Health, video_health, is_failed, is_permanent_failure, is_stalled,
}
use bunny_cli_fork.StreamImport.Videos
use bunny_cli_fork.StreamImport.Entries.{
  Entry, SourceVideo, entry_of, is_tagged, needs_queueing, processing_untagged,
  status_needs_queueing,
}
use bunny_cli_fork.StreamImport.Reconcile.{
  Library, set_again, default_stalled_after_ms, stalled_now, reconcile_processing, reconcile_with,
  reconcile_existing, reconcile_entry,
}
use bunny_cli_fork.StreamImport.Summary.{
  Standing, new_video, stalled_here, standing_by, standing, existing_of,
}
use bunny_cli_fork.StreamImport.Tagged.{get-is_tagged}

abbrev pub is_new : Standing → Bool
is_new (new_video again) = true
is_new st = false

Bool-swap : (a b : Bool) → (a && b) ≡ (b && a)
Bool-swap a b = ground arith

module _ {E S : Type 0} (lib : Library E S) (clean_failed retry_stalled : Bool) where
  -- Where a reconciliation is not stopped, its entry is queued exactly as foretold.
  abbrev Foretells : Result E Entry × S → Bool → Type 0
  Foretells (ok m, s) b = needs_queueing lib.index m ≡ b
  Foretells (thrown e, s) b = Unit

  again-Foretells :
      (r : Result E Unit × S) (m : Entry) (next : Entry)
      → needs_queueing lib.index next ≡ true
      → Foretells (elim (r.0) [ ok _ ↦ (ok next, r.1) | thrown e ↦ (thrown e, r.1) ]) true
  again-Foretells (ok _, s) m next h = h
  again-Foretells (thrown e, s) m next h = tt

  same_stall :
      (v : Video)
      → (stalled_here lib clean_failed retry_stalled (some v) && retry_stalled)
        ≡ stalled_now lib clean_failed retry_stalled v
  unfolding stalled_here stalled_now
  same_stall v =
      Bool-swap (is_stalled lib.parse_date v lib.now_ms default_stalled_after_ms none) retry_stalled

  reconcile_processing-Foretells :
      (guid : Text) (v : Video) (m : Entry) (s : S)
      → is_empty guid ≡ false
      → is_tagged lib.index guid ≡ true
      → is_permanent_failure v ≡ false
      → Foretells
          (reconcile_processing lib clean_failed retry_stalled guid v m s)
          (is_new (standing_by lib clean_failed retry_stalled v Videos.processing))
  unfolding reconcile_processing standing_by
  reconcile_processing-Foretells guid v m s g t p =
      rw (same_stall v) (elim (Bool-cases (stalled_now lib clean_failed retry_stalled v)) [
        | inl h ↦ rw h (
            rw p (
              again-Foretells (lib.delete_video guid s) m (set_again m)
                (unfold needs_queueing status_needs_queueing in refl)))
        | inr h ↦
            rw h
              (unfold needs_queueing status_needs_queueing processing_untagged in rw g (rw t refl))
      ])

  reconcile_with-Foretells :
      (guid : Text) (v : Video) (h : Health) (m : Entry) (s : S)
      → h ≡ video_health v
      → is_empty guid ≡ false
      → is_tagged lib.index guid ≡ true
      → Foretells
          (reconcile_with lib clean_failed retry_stalled guid v h m s)
          (is_new (standing_by lib clean_failed retry_stalled v h))
  unfolding reconcile_with
  reconcile_with-Foretells guid v Videos.finished m s e g t =
      unfold standing_by needs_queueing status_needs_queueing in refl
  reconcile_with-Foretells guid v Videos.processing m s e g t =
      reconcile_processing-Foretells guid v m s g t (unfold is_permanent_failure in rw (← e) refl)
  reconcile_with-Foretells guid v Videos.failed m s e g t =
      elim (Bool-cases (is_permanent_failure v && not clean_failed)) [
        | inl p ↦ rw p (unfold standing_by needs_queueing status_needs_queueing in rw p refl)
        | inr p ↦ rw p (unfold standing_by needs_queueing status_needs_queueing in rw p refl)
      ]

  reconcile_existing-Foretells :
      (guid : Text) (v : Video) (m : Entry) (s : S)
      → v.guid ≡ some guid
      → is_empty guid ≡ false
      → is_tagged lib.index guid ≡ true
      → Foretells
          (reconcile_existing lib clean_failed retry_stalled v v.guid m s)
          (is_new (standing lib clean_failed retry_stalled (some v)))
  unfolding reconcile_existing standing
  reconcile_existing-Foretells guid v m s e g t =
      subst
        (λ o.
          Foretells (reconcile_existing lib clean_failed retry_stalled v o m s)
            (is_new (standing lib clean_failed retry_stalled (some v))))
        (sym e) (rw g (reconcile_with-Foretells guid v (video_health v) m s refl g t))

  fresh-Foretells :
      (video : SourceVideo) (folder collection : Option Text) (s : S)
      → ((v : Video)
          → get (lib.dedup_key video.source_id) lib.index ≡ some v
          → (g : Text) × (v.guid ≡ some g) × (is_empty g ≡ false))
      → Foretells
          (reconcile_entry lib clean_failed retry_stalled (entry_of video folder collection) s)
          (is_new (
            standing lib clean_failed retry_stalled
              (existing_of lib clean_failed retry_stalled video)))
  unfolding reconcile_entry existing_of
  fresh-Foretells video folder collection s known =
      elim (Option-cases (get (lib.dedup_key video.source_id) lib.index)) [
        | inl e ↦ rw e (unfold standing needs_queueing status_needs_queueing in refl)
        | inr (v, e) ↦
            let (g, h, k) = known v e in
            rw e (
              reconcile_existing-Foretells g v (entry_of video folder collection) s h k
                (get-is_tagged lib.index (lib.dedup_key video.source_id) g v e h))
      ]

  -- With the same index, clock and options, and where the copies in the index have an identifier: a
  -- video that the summary lists as new is queued by a fresh run once its entry is reconciled, and one
  -- that it lists otherwise is not.
  pub standing-foretells :
      (video : SourceVideo) (folder collection : Option Text) (s : S)
      → ((v : Video)
          → get (lib.dedup_key video.source_id) lib.index ≡ some v
          → (g : Text) × (v.guid ≡ some g) × (is_empty g ≡ false))
      → (m : Entry) (s' : S)
      → reconcile_entry lib clean_failed retry_stalled (entry_of video folder collection) s
        ≡ (ok m, s')
      → needs_queueing lib.index m
        ≡ is_new (
            standing lib clean_failed retry_stalled
              (existing_of lib clean_failed retry_stalled video))
  standing-foretells video folder collection s known m s' e =
      subst
        (λ x. Foretells x (
          is_new (
            standing lib clean_failed retry_stalled
              (existing_of lib clean_failed retry_stalled video))))
        e (fresh-Foretells video folder collection s known)
