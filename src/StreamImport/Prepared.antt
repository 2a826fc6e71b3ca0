-- ===== src/StreamImport/Prepared.antt =====
-- The entries that a run prepares for the videos found at the source.
use bunny_cli_fork.Common.{
  true, false, ◌||◌, Option, none, some, List, [], ◌∷◌, ◌++◌, Text, text_eq, text_eq_refl,
  append_assoc, append-nil, All, All-imp, Bool-cases, ◌≡◌, refl, sym, ap, ◌∙◌, inl, inr, arith,
}
use bunny_cli_fork.StreamImport.Entries.{
  Entry, SourceVideo, FolderMapping, has_entry, entry_of, add_entry, add_entries, collection_of,
  add_folders, prepare_entries,
}

-- No two entries are for one video.
abbrev pub Distinct : List Entry → Type 0
Distinct [] = Unit
Distinct (m ∷ ms) = (has_entry ms m.source_video_id ≡ false) × Distinct ms

text_eq_sym : (s t : Text) → text_eq s t ≡ text_eq t s
unfolding text_eq
text_eq_sym [] [] = refl
text_eq_sym [] (b ∷ t) = refl
text_eq_sym (a ∷ s) [] = refl
text_eq_sym (a ∷ s) (b ∷ t) = ground (arith, text_eq_sym s t)

has_entry-append :
    (xs ys : List Entry) (id : Text)
    → has_entry (xs ++ ys) id ≡ (has_entry xs id || has_entry ys id)
unfolding has_entry
has_entry-append [] ys id = refl
has_entry-append (x ∷ xs) ys id = ground (arith, has_entry-append xs ys id)

Distinct-snoc :
    (ms : List Entry) (m : Entry)
    → Distinct ms
    → has_entry ms m.source_video_id ≡ false
    → Distinct (ms ++ m ∷ [])
Distinct-snoc [] m d h = (unfold has_entry in refl, tt)
Distinct-snoc (x ∷ xs) m (e, d) h = (
  rw (has_entry-append xs (m ∷ []) x.source_video_id)
      (unfold has_entry in ground (arith, text_eq_sym m.source_video_id x.source_video_id, e, h)),
  Distinct-snoc xs m d (unfold has_entry in ground (arith, h)),
)

-- What adding entries keeps: distinct entries stay distinct, none is lost or changed.
pub record Grows (before after : List Entry) : Type 0 where
  pub distinct : Distinct before → Distinct after
  pub more : List Entry
  pub kept : after ≡ before ++ more

Grows-refl : (ms : List Entry) → Grows ms ms
Grows-refl ms = record { distinct = λ d. d; more = []; kept = sym (append-nil ms) }

Grows-trans : (a b c : List Entry) → Grows a b → Grows b c → Grows a c
Grows-trans a b c g h = record {
  distinct = λ d. h.distinct (g.distinct d);
  more = g.more ++ h.more;
  kept = h.kept ∙ ap (λ l. l ++ h.more) g.kept ∙ append_assoc a g.more h.more;
}

Grows-has :
    (a b : List Entry) (id : Text) → Grows a b → has_entry a id ≡ true → has_entry b id ≡ true
Grows-has a b id g h = rw (g.kept, has_entry-append a g.more id, h) refl

add_entry-Grows :
    (v : SourceVideo) (folder collection : Option Text) (ms : List Entry)
    → Grows ms (add_entry v folder collection ms)
      × (has_entry (add_entry v folder collection ms) v.source_id ≡ true)
unfolding add_entry
add_entry-Grows v folder collection ms = elim (Bool-cases (has_entry ms v.source_id)) [
  | inl known ↦ rw known (Grows-refl ms, known)
  | inr new ↦ rw new (
    record {
      distinct = λ d. Distinct-snoc ms (entry_of v folder collection) d new;
      more = entry_of v folder collection ∷ [];
      kept = refl;
    },
    has_entry-append ms _ v.source_id
        ∙ rw new (unfold has_entry in (rw (text_eq_refl v.source_id) refl)),
  )
]

abbrev pub AllHave : List Entry → List SourceVideo → Type 0
AllHave ms vs = All (λ (v : SourceVideo). has_entry ms v.source_id ≡ true) vs

AllHave-Grows : (a b : List Entry) (vs : List SourceVideo) → Grows a b → AllHave a vs → AllHave b vs
AllHave-Grows a b vs g h =
    All-imp (λ (v : SourceVideo). has_entry a v.source_id ≡ true)
      (λ (v : SourceVideo). has_entry b v.source_id ≡ true) (λ v. Grows-has a b v.source_id g) vs h

add_entries-Grows :
    (vs : List SourceVideo) (folder collection : Option Text) (ms : List Entry)
    → Grows ms (add_entries vs folder collection ms)
      × AllHave (add_entries vs folder collection ms) vs
unfolding add_entries
add_entries-Grows [] folder collection ms = (Grows-refl ms, tt)
add_entries-Grows (v ∷ vs) folder collection ms =
    let (g, h) = add_entry-Grows v folder collection ms in
    let (g', hs) = add_entries-Grows vs folder collection (add_entry v folder collection ms) in
    (Grows-trans _ _ _ g g', (Grows-has _ _ v.source_id g' h, hs))

-- Every video of every folder has an entry.
abbrev pub FoldersHave : List Entry → List (Text × List SourceVideo) → Type 0
FoldersHave ms folders = All (λ (f : Text × List SourceVideo). AllHave ms (f.1)) folders

add_folders-Grows :
    (mappings : List FolderMapping) (folders : List (Text × List SourceVideo)) (ms : List Entry)
    → Grows ms (add_folders mappings folders ms)
      × FoldersHave (add_folders mappings folders ms) folders
unfolding add_folders
add_folders-Grows mappings [] ms = (Grows-refl ms, tt)
add_folders-Grows mappings ((folder, vs) ∷ folders) ms =
    let (g, h) = add_entries-Grows vs (some folder) (collection_of mappings folder) ms in
    let (g', hs) =
      add_folders-Grows mappings folders
        (add_entries vs (some folder) (collection_of mappings folder) ms) in
    (Grows-trans _ _ _ g g', (AllHave-Grows _ _ vs g' h, hs))

-- After `prepareEntries` every video found at the source has an entry, however often it is listed;
-- where no two of the entries before were for one video, no two are now; and the entries before
-- stand first, unchanged.
pub prepare_entries-Grows :
    (mappings : List FolderMapping) (videos : List (Text × List SourceVideo))
    (uncategorized : List SourceVideo) (entries : List Entry)
    → Grows entries (prepare_entries mappings videos uncategorized entries)
      × FoldersHave (prepare_entries mappings videos uncategorized entries) videos
      × AllHave (prepare_entries mappings videos uncategorized entries) uncategorized
unfolding prepare_entries
prepare_entries-Grows mappings videos uncategorized entries =
    let (g, h) = add_folders-Grows mappings videos entries in
    let (g', hs) =
      add_entries-Grows uncategorized none none (add_folders mappings videos entries) in
    (
      Grows-trans _ _ _ g g',
      All-imp (λ (f : Text × List SourceVideo). AllHave (add_folders mappings videos entries) (f.1))
          (λ (f : Text × List SourceVideo).
            AllHave (add_entries uncategorized none none (add_folders mappings videos entries))
              (f.1))
          (λ f. AllHave-Grows _ _ (f.1) g') videos h,
      hs,
    )
