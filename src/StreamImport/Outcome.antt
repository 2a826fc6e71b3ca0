-- ===== src/StreamImport/Outcome.antt =====
-- The status of a run, and the failures that a resume retries.
use bunny_cli_fork.Common.{
  Bool, true, false, not, ◌&&◌, ◌||◌, List, [], ◌∷◌, any, All, Bool-cases, ◌≡◌, ◌↔◌, refl, ◌⊎◌, ◌<◌,
  none, &&-split, &&-join, if◌then◌else◌, ap, ◌∙◌, inl, inr, arith,
}
use bunny_cli_fork.StreamImport.Videos.{truthy}
use bunny_cli_fork.StreamImport.Entries.{
  Entry, EntryStatus, pending, fetching, processing, completed, failed, run_completed, is_completed,
  is_failure, overall_status, given_up, requeue_entry, requeue_failed,
}

completed_of : (s : EntryStatus) → is_completed s ≡ true → s ≡ completed
completed_of completed h = refl
completed_of pending h = cc h
completed_of fetching h = cc h
completed_of processing h = cc h
completed_of failed h = cc h

All-completed :
    (ms : List Entry)
    → any (λ (m : Entry). not (is_completed m.status)) ms ≡ false
    → All (λ (m : Entry). m.status ≡ completed) ms
All-completed [] h = tt
All-completed (m ∷ ms) h =
    (completed_of m.status (ground (arith, h)), All-completed ms (ground (arith, h)))

none_open :
    (ms : List Entry)
    → All (λ (m : Entry). m.status ≡ completed) ms
    → (any (λ (m : Entry). is_failure m.status) ms ≡ false)
      × (any (λ (m : Entry). not (is_completed m.status)) ms ≡ false)
none_open [] h = (refl, refl)
none_open (m ∷ ms) (e, h) =
    let (a, b) = none_open ms h in
    (
      ap (λ s. is_failure s || any (λ (m : Entry). is_failure m.status) ms) e ∙ a,
      ap (λ s. not (is_completed s) || any (λ (m : Entry). not (is_completed m.status)) ms) e ∙ b,
    )

-- A run counts as completed exactly when every entry is.
pub overall_status_iff :
    (ms : List Entry)
    → (overall_status ms ≡ run_completed) ↔ All (λ (m : Entry). m.status ≡ completed) ms
unfolding overall_status
overall_status_iff ms = (to, from)
  where
    to : overall_status ms ≡ run_completed → All (λ (m : Entry). m.status ≡ completed) ms
    to h = elim (Bool-cases (any (λ (m : Entry). is_failure m.status) ms)) [
      | inl e ↦ cc (rw (e, overall_status) at h)
      | inr e ↦ elim (Bool-cases (any (λ (m : Entry). not (is_completed m.status)) ms)) [
        | inl o ↦ cc (rw (e, o, overall_status) at h)
        | inr o ↦ All-completed ms o
      ]
    ]

    from : All (λ (m : Entry). m.status ≡ completed) ms → overall_status ms ≡ run_completed
    from h = let (a, b) = none_open ms h in rw (a, b, overall_status) refl

-- A failure that a resume takes up again: in its scope, and not permanent with less than three
-- attempts, unless failures are cleaned.
abbrev pub ToRetry : Bool → (Entry → Bool) → Entry → Type 0
ToRetry clean_failed in_scope m =
    (m.status ≡ failed)
    × (in_scope m ≡ true)
    × ((clean_failed ≡ true) ⊎ ((m.permanent ≡ false) × m.attempts < 3))

-- What becomes of an entry: a failure to retry goes on, without its error, with the video that it has
-- in Bunny or from the start; every other entry stays as it is.
abbrev pub Fate : Bool → (Entry → Bool) → Entry → Entry → Type 0
Fate clean_failed in_scope m r =
    (ToRetry clean_failed in_scope m
      × (r.error ≡ none)
      × (r.source_video_id ≡ m.source_video_id)
      × (r.bunny_video_id ≡ m.bunny_video_id)
      × (r.attempts ≡ m.attempts)
      × (((truthy m.bunny_video_id ≡ true) × (r.status ≡ processing))
          ⊎ ((truthy m.bunny_video_id ≡ false) × (r.status ≡ pending))))
    ⊎ ((ToRetry clean_failed in_scope m → ⊥) × (r ≡ m))

abbrev pub Fates : Bool → (Entry → Bool) → List Entry → List Entry → Type 0
Fates clean_failed in_scope [] [] = Unit
Fates clean_failed in_scope (m ∷ ms) (r ∷ rs) =
    Fate clean_failed in_scope m r × Fates clean_failed in_scope ms rs
Fates clean_failed in_scope _ _ = ⊥

failed_of : (s : EntryStatus) → is_failure s ≡ true → s ≡ failed
failed_of failed h = refl
failed_of pending h = cc h
failed_of fetching h = cc h
failed_of processing h = cc h
failed_of completed h = cc h

abbrev retries : Bool → (Entry → Bool) → Entry → Bool
retries clean_failed in_scope m = is_failure m.status && in_scope m && not (given_up clean_failed m)

spare_tries :
    (clean_failed : Bool) (m : Entry)
    → not (given_up clean_failed m) ≡ true
    → (clean_failed ≡ true) ⊎ ((m.permanent ≡ false) × m.attempts < 3)
unfolding given_up
spare_tries true m h = inl refl
spare_tries false m h = inr (ground arith, ground arith)

given_up_spare :
    (clean_failed : Bool) (m : Entry)
    → (clean_failed ≡ true) ⊎ ((m.permanent ≡ false) × m.attempts < 3)
    → not (given_up clean_failed m) ≡ true
unfolding given_up
given_up_spare clean_failed m (inl e) = rw e refl
given_up_spare clean_failed m (inr (p, a)) = ground arith

retries-ToRetry :
    (clean_failed : Bool) (in_scope : Entry → Bool) (m : Entry)
    → retries clean_failed in_scope m ≡ true
    → ToRetry clean_failed in_scope m
retries-ToRetry clean_failed in_scope m h =
    let here = &&-split (is_failure m.status && in_scope m) (not (given_up clean_failed m)) h in
    let first = &&-split (is_failure m.status) (in_scope m) here.0 in
    (failed_of m.status first.0, first.1, spare_tries clean_failed m here.1)

ToRetry-retries :
    (clean_failed : Bool) (in_scope : Entry → Bool) (m : Entry)
    → ToRetry clean_failed in_scope m
    → retries clean_failed in_scope m ≡ true
ToRetry-retries clean_failed in_scope m (e, scope, tries) =
    &&-join (is_failure m.status && in_scope m) (not (given_up clean_failed m))
      (&&-join (is_failure m.status) (in_scope m) (ap is_failure e) scope)
      (given_up_spare clean_failed m tries)

retried-status :
    (b : Bool)
    → ((b ≡ true) × ((if b then processing else pending) ≡ processing))
      ⊎ ((b ≡ false) × ((if b then processing else pending) ≡ pending))
retried-status true = inl (refl, refl)
retried-status false = inr (refl, refl)

requeue_entry-Fate :
    (clean_failed : Bool) (in_scope : Entry → Bool) (m : Entry)
    → Fate clean_failed in_scope m (requeue_entry clean_failed in_scope m)
unfolding requeue_entry
requeue_entry-Fate clean_failed in_scope m = elim (Bool-cases (retries clean_failed in_scope m)) [
  | inl h ↦ rw h (
      inl (
        retries-ToRetry clean_failed in_scope m h,
        refl,
        refl,
        refl,
        refl,
        retried-status (truthy m.bunny_video_id),
      ))
  | inr h ↦ rw h (
      inr (
        λ (t : ToRetry clean_failed in_scope m). cc (h, ToRetry-retries clean_failed in_scope m t),
        refl,
      ))
]

-- After a resume the entries stand as before, but that each failure in its scope that is not permanent
-- and had less than three attempts (or any failure in its scope, where failures are cleaned) goes on,
-- without its error and with the video that it may have; every other entry is unchanged.
pub requeue_failed-settled :
    (clean_failed : Bool) (in_scope : Entry → Bool) (ms : List Entry)
    → Fates clean_failed in_scope ms (requeue_failed clean_failed in_scope ms)
unfolding requeue_failed
requeue_failed-settled clean_failed in_scope [] = tt
requeue_failed-settled clean_failed in_scope (m ∷ ms) =
    (requeue_entry-Fate clean_failed in_scope m, requeue_failed-settled clean_failed in_scope ms)
