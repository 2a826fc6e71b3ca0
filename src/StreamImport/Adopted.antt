-- ===== src/StreamImport/Adopted.antt =====
-- The entries that a new run takes over hold videos that are still in Bunny, each of them once.
use bunny_cli_fork.Common.{
  ℕ, true, false, Option, none, some, List, [], ◌∷◌, Text, All, Bool-cases, ◌≡◌, refl, inl, inr,
  arith,
}
use bunny_cli_fork.Common.Dict.{get}
use bunny_cli_fork.StreamImport.Videos.{Video, truthy}
use bunny_cli_fork.StreamImport.Entries.{Entry, is_tagged, processing}
use bunny_cli_fork.StreamImport.Recover.{
  member, Candidate, cons_guid, claimed_guids, ambiguous_titles, find_lost_fetch,
}
use bunny_cli_fork.StreamImport.Guids.{
  NoRepeat, Sub, Spread, Sub-tail, NoRepeat-tail, Sub-there, Sub-refl, give_guid, take_guid,
  Spread-cons, cons_guid_full,
}
use bunny_cli_fork.StreamImport.Claims.{find_pending-fresh}
use bunny_cli_fork.StreamImport.Orphans.{
  RunState, Identity, matches_run, is_there, is_orphan, adopted, candidate_guid, adopt_entry,
  adopt_entries, adopt_orphans,
}

module _ (parse_date : Text → Option ℕ) (untagged : List Candidate) (index : List (Text × Video))
    (known : List Text) (dedup_key : Text → Text) where
  -- An adopted entry goes on at its tag, for a video that is in the library and has no tagged copy.
  abbrev pub IsAdopted : Entry → Type 0
  IsAdopted m =
      (g : Text) × (m.bunny_video_id ≡ some g)
      × (m.status ≡ processing)
      × (member g known ≡ true)
      × (is_tagged index g ≡ false)
      × (is_there (get (dedup_key m.source_video_id) index) ≡ false)

  is_orphan-IsAdopted :
      (m : Entry) (g : Text)
      → is_orphan parse_date untagged index known dedup_key m g ≡ true
      → IsAdopted (adopted m g)
  unfolding is_orphan
  is_orphan-IsAdopted m g h =
      (g, refl, refl, ground (arith, h), ground (arith, h), ground (arith, h))

  is_orphan-full :
      (m : Entry) (g : Text)
      → is_orphan parse_date untagged index known dedup_key m g ≡ true
      → truthy (some g) ≡ true
  unfolding is_orphan
  is_orphan-full m g h = ground (arith, h)

  adopt_entries-IsAdopted :
      (ambiguous : List Text) (ms : List Entry) (claimed : List Text)
      → All IsAdopted (adopt_entries parse_date untagged index known dedup_key ambiguous ms claimed)
  unfolding adopt_entries
  adopt_entries-IsAdopted ambiguous [] claimed = tt
  adopt_entries-IsAdopted ambiguous (m ∷ ms) claimed =
      by_guid
        (candidate_guid parse_date untagged index known dedup_key m m.bunny_video_id claimed
          ambiguous)
        _ _ (adopt_entries-IsAdopted ambiguous ms claimed)
        (λ guid. adopt_entries-IsAdopted ambiguous ms (guid ∷ claimed))
    where
      by_guid :
          (o : Option Text) (skipped : List Entry) (taken : Text → List Entry)
          → All IsAdopted skipped
          → ((guid : Text) → All IsAdopted (taken guid))
          → All IsAdopted (adopt_entry parse_date untagged index known dedup_key m skipped taken o)
      by_guid none skipped taken h k = unfold adopt_entry in h
      by_guid (some guid) skipped taken h k =
          unfold adopt_entry in
          elim (Bool-cases (is_orphan parse_date untagged index known dedup_key m guid)) [
            | inl e ↦ rw e (is_orphan-IsAdopted m guid e, k guid)
            | inr e ↦ rw e h
          ]

  -- No guid twice, and each an old one or unclaimed.
  abbrev Fresh : List Text → List Text → List Entry → Type 0
  Fresh base claimed ms = NoRepeat (claimed_guids ms) × Spread base claimed (claimed_guids ms)

  passed_over :
      (b : Option Text) (base claimed : List Text) (ms : List Entry)
      → Fresh base claimed ms
      → Fresh (cons_guid b base) claimed ms
  passed_over b base claimed ms (n, s) = (n, Spread-cons b base claimed (claimed_guids ms) s)

  -- An entry that has its video.
  kept-Fresh :
      (m : Entry) (g : Text) (base claimed : List Text) (skipped : List Entry)
      (taken : Text → List Entry)
      → NoRepeat (cons_guid (some g) base)
      → Fresh base claimed skipped
      → Fresh base (g ∷ claimed) (taken g)
      → Fresh
          (cons_guid (some g) base)
          claimed
          (adopt_entry parse_date untagged index known dedup_key m skipped taken (some g))
  unfolding adopt_entry claimed_guids
  kept-Fresh m g base claimed skipped taken n h (k, spread) =
      elim (Bool-cases (is_orphan parse_date untagged index known dedup_key m g)) [
        | inl e ↦
            let full = cons_guid_full g base (is_orphan-full m g e) in
            rw e (
              rw (full, cons_guid_full g (claimed_guids (taken g)) (is_orphan-full m g e))
                (take_guid g base claimed (claimed_guids (taken g)) ((rw full at n).0) k spread))
        | inr e ↦ rw e (passed_over (some g) base claimed skipped h)
      ]

  -- An entry whose video was found again.
  found-Fresh :
      (m : Entry) (g : Text) (base claimed : List Text) (skipped : List Entry)
      (taken : Text → List Entry)
      → member g claimed ≡ false
      → Sub base claimed
      → Fresh base claimed skipped
      → Fresh base (g ∷ claimed) (taken g)
      → Fresh base claimed
          (adopt_entry parse_date untagged index known dedup_key m skipped taken (some g))
  unfolding adopt_entry claimed_guids cons_guid
  found-Fresh m g base claimed skipped taken new sub h (k, spread) =
      elim (Bool-cases (is_orphan parse_date untagged index known dedup_key m g)) [
        | inl e ↦ rw e (
            rw (cons_guid_full g (claimed_guids (taken g)) (is_orphan-full m g e))
              (give_guid g none base claimed (claimed_guids (taken g)) new sub k spread))
        | inr e ↦ rw e h
      ]

  round-Fresh :
      (ambiguous : List Text) (m : Entry) (b : Option Text) (base claimed : List Text)
      (skipped : List Entry) (taken : Text → List Entry)
      → NoRepeat (cons_guid b base)
      → Sub base claimed
      → Fresh base claimed skipped
      → ((g : Text) → Fresh base (g ∷ claimed) (taken g))
      → Fresh (cons_guid b base) claimed (
          adopt_entry parse_date untagged index known dedup_key m skipped taken
            (candidate_guid parse_date untagged index known dedup_key m b claimed ambiguous))
  unfolding candidate_guid
  round-Fresh ambiguous m (some g) base claimed skipped taken n sub h k =
      kept-Fresh m g base claimed skipped taken n h (k g)
  round-Fresh ambiguous m none base claimed skipped taken n sub h k =
      by_find (find_lost_fetch parse_date untagged m claimed ambiguous) refl
    where
      by_find :
          (o : Option Text)
          → find_lost_fetch parse_date untagged m claimed ambiguous ≡ o
          → Fresh
              (cons_guid none base)
              claimed
              (adopt_entry parse_date untagged index known dedup_key m skipped taken o)
      by_find none e = unfold adopt_entry cons_guid in h
      by_find (some g) e =
          unfold cons_guid in
          found-Fresh m g base claimed skipped taken
            ((find_pending-fresh parse_date untagged m.pending_fetch claimed ambiguous g
              (unfold find_lost_fetch in e)).0)
            sub h (k g)

  adopt_entries-Fresh :
      (ambiguous : List Text) (ms : List Entry) (claimed : List Text)
      → NoRepeat (claimed_guids ms)
      → Sub (claimed_guids ms) claimed
      → Fresh
          (claimed_guids ms)
          claimed
          (adopt_entries parse_date untagged index known dedup_key ambiguous ms claimed)
  unfolding adopt_entries claimed_guids
  adopt_entries-Fresh ambiguous [] claimed n s = (tt, tt)
  adopt_entries-Fresh ambiguous (m ∷ ms) claimed n s =
      let base = claimed_guids ms in
      let sub = Sub-tail m.bunny_video_id base claimed s in
      let alone = NoRepeat-tail m.bunny_video_id base n in
      round-Fresh ambiguous m m.bunny_video_id base claimed _ _ n sub
        (adopt_entries-Fresh ambiguous ms claimed alone sub)
        (λ g. adopt_entries-Fresh ambiguous ms (g ∷ claimed) alone (Sub-there g base claimed sub))

  -- Where no two entries of a saved run hold one video of Bunny's, a fresh run that takes over its
  -- orphans has no video twice either, and each entry goes on at its tag, for a video that is in the
  -- library untagged and has no tagged copy.
  pub adopt_orphans-NoRepeat :
      (self : Identity) (saved : RunState)
      → NoRepeat (claimed_guids saved.video_migrations)
      → let entries =
          adopt_orphans parse_date untagged index known dedup_key self [] (some saved) in
        NoRepeat (claimed_guids entries) × All IsAdopted entries
  unfolding adopt_orphans
  adopt_orphans-NoRepeat self saved n = elim (Bool-cases (matches_run self saved)) [
    | inl e ↦ rw e (
      (adopt_entries-Fresh (ambiguous_titles saved.video_migrations) saved.video_migrations
          (claimed_guids saved.video_migrations) n
          (Sub-refl (claimed_guids saved.video_migrations))).0,
      adopt_entries-IsAdopted (ambiguous_titles saved.video_migrations) saved.video_migrations
          (claimed_guids saved.video_migrations),
    )
    | inr e ↦ rw e (unfold claimed_guids in (tt, tt))
  ]
