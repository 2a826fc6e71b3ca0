-- ===== src/StreamImport/Recorded.antt =====
-- A video that Bunny created is in the journal, or the journal knows that its fetch was sent.
use bunny_cli_fork.Common.{
  ℕ, Bool, true, false, ◌&&◌, Option, some, List, [], ◌∷◌, Text, Bool-cases, if_both, ◌≡◌, ◌⊎◌,
  refl, ap, ◌∙◌, inl, inr,
}
use bunny_cli_fork.Common.Exec.{Result, ok, thrown, continue}
use bunny_cli_fork.Common.Dict.{get}
use bunny_cli_fork.StreamImport.Videos.{truthy, text_or_empty}
use bunny_cli_fork.StreamImport.Entries.{Entry, EntryStatus, PendingFetch}
use bunny_cli_fork.StreamImport.Work.{
  Notes, FetchResult, Fault, Work, Services, revised, with_entry, with_host, with_notes,
  without_copies, flush,
}
use bunny_cli_fork.StreamImport.Queue.{
  note_created, forget_fetch, fetch_refused, fetch_created, after_fetch, after_delete,
  delete_copies, copies_of, delete_dead_copies,
}

module _ {S : Type 0} (created : S → List Text) (before : List Text) where
  -- Nothing was created since, or what was is recorded, or a fetch is noted as sent.
  abbrev pub Recorded : Entry → S → Type 0
  Recorded m s =
      (created s ≡ before)
      ⊎ (((g : Text) × (created s ≡ g ∷ before) × (m.bunny_video_id ≡ some g))
          ⊎ ((p : PendingFetch) × (m.pending_fetch ≡ some p)))

  -- In memory as in the journal.
  abbrev pub Kept : Work S → Type 0
  Kept w =
      (created w.host ≡ before)
      ⊎ (((g : Text) × (created w.host ≡ g ∷ before)
            × (w.entry.bunny_video_id ≡ some g)
            × (w.journal.bunny_video_id ≡ some g))
          ⊎ (((p : PendingFetch) × (w.entry.pending_fetch ≡ some p))
              × ((p : PendingFetch) × (w.journal.pending_fetch ≡ some p))))

  pub Kept-Recorded : (w : Work S) → Kept w → Recorded w.journal w.host
  Kept-Recorded w (inl e) = inl e
  Kept-Recorded w (inr (inl (g, e, a, b))) = inr (inl (g, e, b))
  Kept-Recorded w (inr (inr (a, b))) = inr (inr b)

  pub Kept-host : (w : Work S) (s : S) → created s ≡ created w.host → Kept w → Kept (with_host s w)
  unfolding with_host
  Kept-host w s h (inl e) = inl (h ∙ e)
  Kept-host w s h (inr (inl (g, e, a, b))) = inr (inl (g, h ∙ e, a, b))
  Kept-host w s h (inr (inr k)) = inr (inr k)

  pub Kept-flush : (w : Work S) → Kept w → Kept (flush w)
  unfolding flush
  Kept-flush w (inl e) = inl e
  Kept-flush w (inr (inl (g, e, a, b))) = inr (inl (g, e, a, a))
  Kept-flush w (inr (inr (a, b))) = inr (inr (a, a))

  -- A change of the entry that leaves its video and its fetch alone.
  pub Kept-revised :
      (w : Work S) (status : EntryStatus) (error started : Option Text) (attempts : ℕ)
      → Kept w
      → Kept (
          with_entry
            (revised w.entry w.entry.bunny_video_id status error started w.entry.pending_fetch
              attempts)
            w)
  unfolding with_entry
  Kept-revised w status error started attempts k = k

  Kept-notes : (n : Notes) (w : Work S) → Kept w → Kept (with_notes n w)
  unfolding with_notes
  Kept-notes n w k = k

  Kept-copies : (key : Text) (w : Work S) → Kept w → Kept (without_copies key w)
  unfolding without_copies
  Kept-copies key w k = k

module _ {E S : Type 0} (created : S → List Text) where
  -- An honest answer: a fetch that succeeded made its video, and one that certainly failed made none.
  abbrev pub Honest : S → Result E FetchResult × S → Type 0
  Honest s (thrown e, s') = Unit
  Honest s (ok r, s') =
      ((r.success && truthy r.video_id) ≡ true → created s' ≡ text_or_empty r.video_id ∷ created s)
      × ((r.success && truthy r.video_id) ≡ false
          → r.indeterminate ≡ false
          → created s' ≡ created s)

module _ {E S : Type 0} (svc : Services E S) (clean_failed : Bool) (created : S → List Text)
    (before : List Text)
    (deletes : (g : Text) (s : S) → created ((svc.delete_video g s).1) ≡ created s)
    (tags : (id key : Text) (n : Notes) (s : S)
      → created ((svc.set_metadata id key n s).1) ≡ created s) where
  pub after_delete-Kept :
      (w : Work S) (x : Result E Unit × S)
      → created (x.1) ≡ created w.host
      → Kept created before w
      → Kept created before ((after_delete svc clean_failed w x).1)
  unfolding after_delete
  after_delete-Kept w (thrown e, s) h k = Kept-host created before w s h k
  after_delete-Kept w (ok _, s) h k = Kept-host created before w s h k

  pub continue-Kept :
      {A B : Type 0} (f : A → Work S → Result (Fault E) B × Work S)
      (x : Result (Fault E) A × Work S)
      → Kept created before (x.1)
      → ((a : A) (w : Work S) → Kept created before w → Kept created before ((f a w).1))
      → Kept created before ((continue (x.0) f (x.1)).1)
  continue-Kept f (ok a, w) k next = next a w k
  continue-Kept f (thrown e, w) k next = k

  after_delete-created :
      (w : Work S) (x : Result E Unit × S)
      → created (((after_delete svc clean_failed w x).1).host) ≡ created (x.1)
  unfolding after_delete with_host
  after_delete-created w (thrown e, s) = refl
  after_delete-created w (ok _, s) = refl

  pub continue-created :
      {A B : Type 0} (f : A → Work S → Result (Fault E) B × Work S)
      (x : Result (Fault E) A × Work S)
      → created ((x.1).host) ≡ before
      → ((a : A) (w : Work S) → created w.host ≡ before → created (((f a w).1).host) ≡ before)
      → created (((continue (x.0) f (x.1)).1).host) ≡ before
  continue-created f (ok a, w) k next = next a w k
  continue-created f (thrown e, w) k next = k

  delete_copies-created :
      (gs : List Text) (w : Work S)
      → created w.host ≡ before
      → created (((delete_copies svc clean_failed gs w).1).host) ≡ before
  unfolding delete_copies
  delete_copies-created [] w k = k
  delete_copies-created (g ∷ gs) w k =
      continue-created (λ u. delete_copies svc clean_failed gs)
        (after_delete svc clean_failed w (svc.delete_video g w.host))
        (after_delete-created w (svc.delete_video g w.host) ∙ deletes g w.host ∙ k)
        (λ u v. delete_copies-created gs v)

  pub delete_dead_copies-created :
      (w : Work S)
      → created w.host ≡ before
      → created (((delete_dead_copies svc clean_failed w).1).host) ≡ before
  unfolding delete_dead_copies without_copies
  delete_dead_copies-created w k =
      let key = svc.dedup_key w.entry.source_video_id in
      let gs = copies_of svc clean_failed (get key w.dead_copies) in
      continue-created (λ u v. (ok tt, without_copies key v)) (delete_copies svc clean_failed gs w)
        (delete_copies-created gs w k) (λ u v h. h)

  -- The fetch is noted, in memory and in the journal.
  abbrev pub Noted : Work S → Type 0
  Noted w =
      ((p : PendingFetch) × (w.entry.pending_fetch ≡ some p))
      × ((p : PendingFetch) × (w.journal.pending_fetch ≡ some p))

  fetch_created-Kept :
      (id : Text) (w : Work S)
      → created w.host ≡ id ∷ before
      → Kept created before ((fetch_created svc clean_failed id w).1)
  unfolding fetch_created note_created flush with_entry
  fetch_created-Kept id w h =
      if_both (λ (x : Result (Fault E) Text × Work S). Kept created before (x.1))
        (svc.video_aborted (note_created svc clean_failed id w).host) _ _
        (inr (inl (id, h, refl, refl))) (inr (inl (id, h, refl, refl)))

  fetch_refused-Kept :
      (r : FetchResult) (w : Work S)
      → Noted w
      → (r.indeterminate ≡ false → created w.host ≡ before)
      → Kept created before ((fetch_refused svc clean_failed r w).1)
  unfolding fetch_refused forget_fetch with_entry
  fetch_refused-Kept r w n h =
      if_both (λ (x : Result (Fault E) Text × Work S). Kept created before (x.1))
        (svc.video_aborted w.host) _ _ (inr (inr n))
        (elim (Bool-cases r.indeterminate) [
          | inl e ↦ rw e (inr (inr n))
          | inr e ↦ rw e (inl (h e))
        ])

  pub after_fetch-Kept :
      (w : Work S) (x : Result E FetchResult × S)
      → created w.host ≡ before
      → Noted w
      → Honest created w.host x
      → Kept created before ((after_fetch svc clean_failed w x).1)
  unfolding after_fetch with_host
  after_fetch-Kept w (thrown e, s) h n t = inr (inr n)
  after_fetch-Kept w (ok r, s) h n (made, unmade) =
      elim (Bool-cases (r.success && truthy r.video_id)) [
        | inl e ↦ rw e (
            fetch_created-Kept (text_or_empty r.video_id) (with_host s w)
              (made e ∙ ap (λ gs. text_or_empty r.video_id ∷ gs) h))
        | inr e ↦ rw e (fetch_refused-Kept r (with_host s w) n (λ i. unmade e i ∙ h))
      ]
