-- ===== src/StreamImport/Tagged.antt =====
-- packages/stream-import/src/migration.ts: `isTagged` of the index's own videos.
use bunny_cli_fork.Common.{
  true, some, List, [], ◌∷◌, Text, text_eq, text_eq_refl, Bool-cases, Option-cases, ◌≡◌, refl, inl,
  inr, arith,
}
use bunny_cli_fork.Common.Dict.{get}
use bunny_cli_fork.StreamImport.Videos.{Video}
use bunny_cli_fork.StreamImport.Entries.{is_tagged}

is_tagged-here :
    (key guid : Text) (v : Video) (index : List (Text × Video))
    → v.guid ≡ some guid
    → is_tagged ((key, v) ∷ index) guid ≡ true
unfolding is_tagged
is_tagged-here key guid v index e = rw e (rw (text_eq_refl guid) refl)

is_tagged-later :
    (key guid : Text) (w : Video) (index : List (Text × Video))
    → is_tagged index guid ≡ true
    → is_tagged ((key, w) ∷ index) guid ≡ true
unfolding is_tagged
is_tagged-later key guid w index h = elim (Option-cases w.guid) [
  | inl e ↦ rw e h
  | inr (g, e) ↦ rw e (ground (arith, h))
]

-- A video of the index is tagged.
pub get-is_tagged :
    (index : List (Text × Video)) (key guid : Text) (v : Video)
    → get key index ≡ some v
    → v.guid ≡ some guid
    → is_tagged index guid ≡ true
unfolding get
get-is_tagged [] key guid v found e = cc found
get-is_tagged ((j, w) ∷ index) key guid v found e = elim (Bool-cases (text_eq j key)) [
  | inl here ↦ is_tagged-here j guid w index (cc (rw here at found, e))
  | inr other ↦
      is_tagged-later j guid w index (get-is_tagged index key guid v (rw other at found) e)
]
