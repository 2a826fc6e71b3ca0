-- ===== src/StreamImport/Settled.antt =====
-- What `reconcileWithBunny` leaves to be queued.
use bunny_cli_fork.Common.{
  Bool, true, false, not, ◌&&◌, ◌||◌, Option, none, some, List, [], ◌∷◌, Text, is_empty, All,
  All-imp, Bool-cases, Option-cases, ◌≡◌, ◌≢◌, refl, sym, subst, ap, ◌∙◌, inl, inr, arith,
}
use bunny_cli_fork.Common.Exec.{Result, ok, thrown, run_cases}
use bunny_cli_fork.Common.Dict.{get}
use bunny_cli_fork.StreamImport.Videos.{
  Video, Health, video_health, is_failed, truthy, is_permanent_failure,
}
use bunny_cli_fork.StreamImport.Videos
use bunny_cli_fork.StreamImport.Entries.{
  Entry, EntryStatus, is_completed, is_failure, is_tagged, needs_queueing, processing_untagged,
  status_needs_queueing,
}
use bunny_cli_fork.StreamImport.Entries
use bunny_cli_fork.StreamImport.Kept.{reconcile_entry-id}
use bunny_cli_fork.StreamImport.Tagged.{get-is_tagged}
use bunny_cli_fork.StreamImport.Reconcile.{
  Library, stalled_now, reconcile_processing, reconcile_with, reconcile_existing, reconcile_entry,
  reconcile_with_bunny,
}

module _ {E S : Type 0} (lib : Library E S) (clean_failed retry_stalled : Bool) where
  -- A video that Bunny has finished or is working on, and that this run does not give up as stalled.
  record IsLive (v : Video) : Type 0 where
    pub guid : Text
    pub has_guid : v.guid ≡ some guid
    pub filled : is_empty guid ≡ false
    pub not_failed : video_health v ≢ Videos.failed
    pub not_stalled : stalled_now lib clean_failed retry_stalled v ≡ false

  -- An entry is left alone when Bunny has a live video under its key.
  abbrev LeftAlone : Entry → Type 0
  LeftAlone m =
      (v : Video)
      → get (lib.dedup_key m.source_video_id) lib.index ≡ some v
      → IsLive v
      → needs_queueing lib.index m ≡ false

  done_not_queued :
      (m : Entry)
      → (is_completed m.status || is_failure m.status) ≡ true
      → needs_queueing lib.index m ≡ false
  unfolding needs_queueing status_needs_queueing
  done_not_queued m h = of m.status h
    where
      of :
          (t : EntryStatus)
          → (is_completed t || is_failure t) ≡ true
          → status_needs_queueing lib.index t m.bunny_video_id ≡ false
      of Entries.completed h = refl
      of Entries.failed h = refl
      of Entries.pending h = cc h
      of Entries.fetching h = cc h
      of Entries.processing h = cc h

  -- The entry that a result holds is not queued.
  abbrev NotQueued : Result E Entry × S → Type 0
  NotQueued (ok m', s) = needs_queueing lib.index m' ≡ false
  NotQueued (thrown e, s) = Unit

  reconcile_with_live :
      (m : Entry) (v : Video) (health : Health) (s : S) (live : IsLive v)
      → is_tagged lib.index live.guid ≡ true
      → health ≢ Videos.failed
      → NotQueued (reconcile_with lib clean_failed retry_stalled live.guid v health m s)
  unfolding reconcile_with reconcile_processing needs_queueing status_needs_queueing
      processing_untagged
  reconcile_with_live m v Videos.finished s live tagged nf = refl
  reconcile_with_live m v Videos.processing s live tagged nf =
      rw live.not_stalled (rw (tagged, live.filled) refl)
  reconcile_with_live m v Videos.failed s live tagged nf = absurd (nf refl)

  reconcile_existing_live :
      (m : Entry) (v : Video) (s : S) (live : IsLive v)
      → is_tagged lib.index live.guid ≡ true
      → NotQueued (reconcile_existing lib clean_failed retry_stalled v v.guid m s)
  unfolding reconcile_existing
  reconcile_existing_live m v s live tagged =
      subst (λ o. NotQueued (reconcile_existing lib clean_failed retry_stalled v o m s))
        (sym live.has_guid)
        (rw live.filled (reconcile_with_live m v (video_health v) s live tagged live.not_failed))

  reconcile_entry_live :
      (m : Entry) (v : Video) (s : S)
      → get (lib.dedup_key m.source_video_id) lib.index ≡ some v
      → IsLive v
      → NotQueued (reconcile_entry lib clean_failed retry_stalled m s)
  unfolding reconcile_entry
  reconcile_entry_live m v s found live =
      elim (Bool-cases (is_completed m.status || is_failure m.status)) [
        | inl over ↦ rw (over, reconcile_entry) (done_not_queued m over)
        | inr queued ↦
            rw (queued, reconcile_entry)
              (rw found (
                reconcile_existing_live m v s live
                  (get-is_tagged lib.index _ live.guid v found live.has_guid)))
      ]

  reconcile_entry-Settled :
      (m m' : Entry) (s s' : S)
      → reconcile_entry lib clean_failed retry_stalled m s ≡ (ok m', s')
      → LeftAlone m'
  reconcile_entry-Settled m m' s s' h v found live =
      let same = sym (rw h at (reconcile_entry-id lib clean_failed retry_stalled m s)) in
      rw h at (
        reconcile_entry_live m v s
          (subst (λ id. get (lib.dedup_key id) lib.index ≡ some v) (sym same) found) live)

  -- The entries of a run that no error stopped are settled.
  abbrev AllSettled : Option E × List Entry × S → Type 0
  AllSettled (none, ms, s) = All LeftAlone ms
  AllSettled (some e, ms, s) = Unit

  settled_before :
      (m' : Entry)
      → LeftAlone m'
      → (x : Option E × List Entry × S) → AllSettled x
      → AllSettled (let (e, ms', s'') = x in (e, m' ∷ ms', s''))
  settled_before m' h (none, ms', s'') k = (h, k)
  settled_before m' h (some e, ms', s'') k = tt

  -- The loop goes on from the result of one entry.
  abbrev proceed : Entry → List Entry → Result E Entry × S → Option E × List Entry × S
  proceed m ms x = elim (x.0) [
    | thrown e ↦ (some e, m ∷ ms, x.1)
    | ok m' ↦
        (let (e, ms', s'') = reconcile_with_bunny lib clean_failed retry_stalled ms (x.1) in
          (e, m' ∷ ms', s''))
  ]

  reconcile_with_bunny-proceed :
      (m : Entry) (ms : List Entry) (s : S)
      → reconcile_with_bunny lib clean_failed retry_stalled (m ∷ ms) s
        ≡ proceed m ms (reconcile_entry lib clean_failed retry_stalled m s)
  unfolding reconcile_with_bunny
  reconcile_with_bunny-proceed m ms s = refl

  reconcile_with_bunny-AllSettled :
      (ms : List Entry) (s : S)
      → AllSettled (reconcile_with_bunny lib clean_failed retry_stalled ms s)
  unfolding reconcile_with_bunny
  reconcile_with_bunny-AllSettled [] s = tt
  reconcile_with_bunny-AllSettled (m ∷ ms) s =
      elim (run_cases (reconcile_entry lib clean_failed retry_stalled m s)) [
        | inr (e, s', ran) ↦
            subst AllSettled (sym (reconcile_with_bunny-proceed m ms s ∙ ap (proceed m ms) ran)) tt
        | inl (m', s', ran) ↦
            subst AllSettled (sym (reconcile_with_bunny-proceed m ms s ∙ ap (proceed m ms) ran)) (
              settled_before m' (reconcile_entry-Settled m m' s s' ran)
                (reconcile_with_bunny lib clean_failed retry_stalled ms s')
                (reconcile_with_bunny-AllSettled ms s'))
      ]

  -- A video that Bunny has finished or is working on, and that this run does not delete as stalled.
  abbrev pub is_live : Video → Bool
  is_live v =
      truthy v.guid
      && not (is_failed (video_health v))
      && not (stalled_now lib clean_failed retry_stalled v)

  abbrev pub is_live_found : Option Video → Bool
  is_live_found none = false
  is_live_found (some v) = is_live v

  -- The index has a live video for the entry.
  abbrev pub has_live : Entry → Bool
  has_live m = is_live_found (get (lib.dedup_key m.source_video_id) lib.index)

  and_false : (a b : Bool) → a ≡ false → (a && b) ≡ false
  and_false a b h = ground arith

  false_and : (a b : Bool) → b ≡ false → (a && b) ≡ false
  false_and a b h = ground arith

  IsLive-holds : (v : Video) → is_live v ≡ true → IsLive v
  IsLive-holds v h = elim (Option-cases v.guid) [
    | inl absent ↦ cc (
        subst
          (λ o.
            (truthy o
              && not (is_failed (video_health v))
              && not (stalled_now lib clean_failed retry_stalled v))
            ≡ true)
          absent h)
    | inr (guid, e) ↦
        let h' =
          subst
            (λ o.
              (truthy o
                && not (is_failed (video_health v))
                && not (stalled_now lib clean_failed retry_stalled v))
              ≡ true)
            e h in
        record {
          guid = guid;
          has_guid = e;
          filled = ground (arith, h');
          not_failed = λ f. clash (video_health v) f (ground (arith, h'));
          not_stalled = ground (arith, h');
        }
  ]
    where
      clash : (k : Health) → k ≡ Videos.failed → is_failed k ≡ false → ⊥
      clash k f n = cc (rw f at n)

  -- No entry is queued for which the index has a live video.
  abbrev pub Settled : Entry → Type 0
  Settled m = (has_live m && needs_queueing lib.index m) ≡ false

  LeftAlone-Settled : (m : Entry) → LeftAlone m → Settled m
  LeftAlone-Settled m h = elim (Option-cases (get (lib.dedup_key m.source_video_id) lib.index)) [
    | inl absent ↦ and_false _ _ (ap is_live_found absent)
    | inr (v, found) ↦ elim (Bool-cases (is_live v)) [
      | inl live ↦ false_and _ _ (h v found (IsLive-holds v live))
      | inr dead ↦ and_false _ _ (ap is_live_found found ∙ dead)
    ]
  ]

  -- Where no deletion throws, after `reconcileWithBunny` no entry is queued whose video Bunny has
  -- finished or is still working on, the ones deleted as stalled aside.
  pub reconcile_with_bunny-Settled :
      (ms ms' : List Entry) (s s' : S)
      → reconcile_with_bunny lib clean_failed retry_stalled ms s ≡ (none, ms', s')
      → All Settled ms'
  reconcile_with_bunny-Settled ms ms' s s' ran =
      All-imp LeftAlone Settled LeftAlone-Settled ms'
        (subst AllSettled ran (reconcile_with_bunny-AllSettled ms s))
