-- ===== src/StreamImport/Claims.antt =====
-- No video is given to two entries when lost fetches are recovered.
use bunny_cli_fork.Common.{
  ℕ, Bool, true, false, Option, none, some, List, [], ◌∷◌, filter, Text, All, Bool-cases, ◌≡◌, ◌⊎◌,
  refl, subst, inl, inr, arith,
}
use bunny_cli_fork.StreamImport.Videos.{truthy, text_or_empty}
use bunny_cli_fork.StreamImport.Entries.{Entry, PendingFetch}
use bunny_cli_fork.StreamImport.Recover.{
  member, Candidate, claimed_guids, ambiguous_titles, is_match, only_guid, find_pending,
  find_lost_fetch, recover_found, recover_pending, recover_entry, recover_entries,
  recover_lost_fetches,
}
use bunny_cli_fork.StreamImport.Guids.{
  NoRepeat, Sub, Spread, Sub-tail, NoRepeat-tail, keep_option, give_guid, Sub-there, Sub-refl,
  cons_guid_full,
}

filter-All : {A : Type 0} (p : A → Bool) (xs : List A) → All (λ x. p x ≡ true) (filter p xs)
filter-All p [] = tt
filter-All p (x ∷ xs) = elim (Bool-cases (p x)) [
  | inl e ↦ rw e (e, filter-All p xs)
  | inr e ↦ rw e (filter-All p xs)
]

only_guid-one :
    (parse_date : Text → Option ℕ) (untagged cs : List Candidate) (p : Candidate → Bool) (g : Text)
    → All (λ c. p c ≡ true) cs
    → only_guid parse_date untagged cs ≡ some g
    → (c : Candidate) × (p c ≡ true) × (c.video.guid ≡ some g)
only_guid-one parse_date untagged [] p g h e = cc e
only_guid-one parse_date untagged (c ∷ []) p g (h, _) e = (c, h, e)
only_guid-one parse_date untagged (c ∷ d ∷ cs) p g h e = cc e

module _ (parse_date : Text → Option ℕ) (untagged : List Candidate) where
  match_fresh :
      (pending : PendingFetch) (claimed : List Text) (c : Candidate) (g : Text)
      → is_match parse_date untagged pending claimed c ≡ true
      → c.video.guid ≡ some g
      → (member g claimed ≡ false) × (truthy (some g) ≡ true)
  unfolding is_match
  match_fresh pending claimed c g matched has =
      let full : truthy c.video.guid ≡ true = ground arith in
      let new : member (text_or_empty c.video.guid) claimed ≡ false = ground arith in
      (
        subst (λ o. member (text_or_empty o) claimed ≡ false) has new,
        subst (λ o. truthy o ≡ true) has full,
      )

  pub find_pending-fresh :
      (p : Option PendingFetch) (claimed ambiguous : List Text) (g : Text)
      → find_pending parse_date untagged p claimed ambiguous ≡ some g
      → (member g claimed ≡ false) × (truthy (some g) ≡ true)
  unfolding find_pending
  find_pending-fresh none claimed ambiguous g h = absurd (clash h)
    where
      clash : none ≡ some g → ⊥
      clash e = cc e
  find_pending-fresh (some pending) claimed ambiguous g h =
      elim (Bool-cases (member pending.title ambiguous)) [
        | inl twin ↦ absurd (clash (rw twin at h))
        | inr alone ↦
            let (c, matched, has) =
              only_guid-one parse_date untagged
                (filter (is_match parse_date untagged pending claimed) untagged)
                (is_match parse_date untagged pending claimed) g (filter-All _ untagged)
                (rw alone at h) in
            match_fresh pending claimed c g matched has
      ]
    where
      clash : none ≡ some g → ⊥
      clash e = cc e

  -- What a round does to the guid and the claims.
  abbrev Keeps : Entry → List Text → Entry × List Text → Type 0
  Keeps m claimed (m', claimed') = (m'.bunny_video_id ≡ m.bunny_video_id) × (claimed' ≡ claimed)

  abbrev Gives : Entry → List Text → Entry × List Text → Type 0
  Gives m claimed (m', claimed') =
      (g : Text) × (m'.bunny_video_id ≡ some g)
      × (truthy (some g) ≡ true)
      × (member g claimed ≡ false)
      × (claimed' ≡ g ∷ claimed)

  recover_found-cases :
      (m : Entry) (claimed : List Text) (o : Option Text)
      → ((g : Text) → o ≡ some g → (member g claimed ≡ false) × (truthy (some g) ≡ true))
      → Keeps m claimed (recover_found parse_date untagged m claimed o)
        ⊎ Gives m claimed (recover_found parse_date untagged m claimed o)
  unfolding recover_found
  recover_found-cases m claimed none fresh = inl (refl, refl)
  recover_found-cases m claimed (some g) fresh =
      let (new, full) = fresh g refl in inr (g, refl, full, new, refl)

  recover_pending-cases :
      (ambiguous : List Text) (m : Entry) (claimed : List Text) (p : Option PendingFetch)
      → Keeps m claimed (recover_pending parse_date untagged ambiguous m claimed p)
        ⊎ Gives m claimed (recover_pending parse_date untagged ambiguous m claimed p)
  unfolding recover_pending find_lost_fetch
  recover_pending-cases ambiguous m claimed none = inl (refl, refl)
  recover_pending-cases ambiguous m claimed (some pending) =
      elim (Bool-cases (truthy m.bunny_video_id)) [
        | inl has ↦ rw has (inl (refl, refl))
        | inr lost ↦ rw lost (
            recover_found-cases m claimed
              (find_pending parse_date untagged m.pending_fetch claimed ambiguous)
              (find_pending-fresh m.pending_fetch claimed ambiguous))
      ]

  recover_entry-cases :
      (ambiguous : List Text) (m : Entry) (claimed : List Text)
      → Keeps m claimed (recover_entry parse_date untagged ambiguous m claimed)
        ⊎ Gives m claimed (recover_entry parse_date untagged ambiguous m claimed)
  unfolding recover_entry
  recover_entry-cases ambiguous m claimed =
      recover_pending-cases ambiguous m claimed m.pending_fetch

  recover_entries-NoRepeat :
      (ambiguous : List Text) (ms : List Entry) (claimed : List Text)
      → NoRepeat (claimed_guids ms)
      → Sub (claimed_guids ms) claimed
      → NoRepeat (claimed_guids (recover_entries parse_date untagged ambiguous ms claimed))
        × Spread
            (claimed_guids ms)
            claimed
            (claimed_guids (recover_entries parse_date untagged ambiguous ms claimed))
  unfolding recover_entries claimed_guids
  recover_entries-NoRepeat ambiguous [] claimed n s = (tt, tt)
  recover_entries-NoRepeat ambiguous (m ∷ ms) claimed n s =
      let base = claimed_guids ms in
      elim (recover_entry-cases ambiguous m claimed) [
        | inl (id, same) ↦
            let (nr, spread) =
              recover_entries-NoRepeat ambiguous ms claimed (NoRepeat-tail _ base n)
                (Sub-tail _ base claimed s) in
            rw (id, same) (keep_option m.bunny_video_id base claimed _ n s nr spread)
        | inr (g, id, full, new, same) ↦
            let sub = Sub-tail _ base claimed s in
            let (nr, spread) =
              recover_entries-NoRepeat ambiguous ms (g ∷ claimed) (NoRepeat-tail _ base n)
                (Sub-there g base claimed sub) in
            rw (id, same, cons_guid_full g _ full)
              (give_guid g m.bunny_video_id base claimed _ new sub nr spread)
      ]

  -- Where no two entries hold one video of Bunny's, none do after the lost fetches are recovered.
  pub recover_lost_fetches-NoRepeat :
      (entries : List Entry)
      → NoRepeat (claimed_guids entries)
      → NoRepeat (claimed_guids (recover_lost_fetches parse_date untagged entries))
  unfolding recover_lost_fetches
  recover_lost_fetches-NoRepeat entries n =
      (recover_entries-NoRepeat (ambiguous_titles entries) entries (claimed_guids entries) n
        (Sub-refl (claimed_guids entries))).0
