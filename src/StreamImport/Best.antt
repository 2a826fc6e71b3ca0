-- ===== src/StreamImport/Best.antt =====
-- The healthiest of the videos with a key: what that is, and how health and keys compare.
use bunny_cli_fork.Common.{
  true, false, All, is_empty, ltb, ◌≢◌, ◌++◌, text_eq_refl, ℕ, Bool, Option, none, some, List, [],
  ◌∷◌, if◌then◌else◌, Text, text_eq, eq_of_text_eq, Bool-cases, Option-cases, ◌≡◌, ◌⊎◌, refl, sym,
  ap, ◌∙◌, inl, inr, arith,
}
use bunny_cli_fork.StreamImport.Videos.{
  Video, MetaTag, Health, finished, processing, failed, video_health, health_rank, tag_value,
  key_of,
}

-- The order of health, best first: finished, in processing, failed.
abbrev pub beats : Health → Health → Bool
beats finished processing = true
beats finished failed = true
beats processing failed = true
beats _ _ = false

-- The first tag with the property has the key for its value, and the key is not empty.
abbrev pub FirstTag : Text → Text → List MetaTag → Type 0
FirstTag property key [] = ⊥
FirstTag property key (t ∷ ts) =
    ((t.property ≡ some property) × (t.value ≡ some key))
    ⊎ ((t.property ≢ some property) × FirstTag property key ts)

abbrev pub HasKey : Text → Text → Video → Type 0
HasKey property key v = (key ≢ []) × FirstTag property key v.meta_tags

-- A video of the listing with the key, than which every earlier one with the key is less healthy, and
-- no later one is healthier.
pub record IsHealthiest (property key : Text) (videos : List Video) (v : Video) : Type 0 where
  pub earlier : List Video
  pub later : List Video
  pub listed : videos ≡ earlier ++ v ∷ later
  pub has_key : HasKey property key v
  pub beaten :
      All (λ w. HasKey property key w → beats (video_health v) (video_health w) ≡ true) earlier
  pub unbeaten :
      All (λ w. HasKey property key w → beats (video_health w) (video_health v) ≡ false) later

-- What is found under a key: the healthiest video with it, or nothing where no video has it.
abbrev pub Finds : Text → Text → List Video → Option Video → Type 0
Finds property key videos none = All (λ w. HasKey property key w → ⊥) videos
Finds property key videos (some v) = IsHealthiest property key videos v

pub rank-beats : (x y : Health) → ltb (health_rank x) (health_rank y) ≡ beats x y
rank-beats finished finished = refl
rank-beats finished processing = refl
rank-beats finished failed = refl
rank-beats processing finished = refl
rank-beats processing processing = refl
rank-beats processing failed = refl
rank-beats failed finished = refl
rank-beats failed processing = refl
rank-beats failed failed = refl

pub beaten_by_less : (x y z : Health) → beats x y ≡ true → beats x z ≡ false → beats y z ≡ false
beaten_by_less x y z h k =
    rank-to y z (
      less (health_rank x) (health_rank y) (health_rank z) (rank-beats x y ∙ h)
        (rank-beats x z ∙ k))
  where
    rank-to : (y z : Health) → ltb (health_rank y) (health_rank z) ≡ false → beats y z ≡ false
    rank-to y z e = sym (rank-beats y z) ∙ e

    less : (l m n : ℕ) → ltb l m ≡ true → ltb l n ≡ false → ltb m n ≡ false
    less l m n h k = ground arith

pub unbeaten_by_less : (x y z : Health) → beats y x ≡ false → beats x z ≡ false → beats y z ≡ false
unbeaten_by_less x y z h k =
    sym (rank-beats y z)
    ∙ less (health_rank x) (health_rank y) (health_rank z) (rank-beats y x ∙ h) (rank-beats x z ∙ k)
  where
    less : (l m n : ℕ) → ltb m l ≡ false → ltb l n ≡ false → ltb m n ≡ false
    less l m n h k = ground arith

property-cases : (o : Option Text) (property : Text) → (o ≡ some property) ⊎ (o ≢ some property)
property-cases none property = inr (λ e. cc e)
property-cases (some q) property = elim (Bool-cases (text_eq q property)) [
  | inl here ↦ inl (ap some (eq_of_text_eq q property here))
  | inr other ↦ inr (λ e. differs other e)
]
  where
    same : {q : Text} → some q ≡ some property → q ≡ property
    same e = cc e

    differs : {q : Text} → text_eq q property ≡ false → some q ≡ some property → ⊥
    differs other e = cc (other, ap (λ t. text_eq t property) (same e), text_eq_refl property)

tag_value-here :
    (property : Text) (t : MetaTag) (ts : List MetaTag)
    → t.property ≡ some property
    → tag_value property (t ∷ ts) ≡ t.value
unfolding tag_value
tag_value-here property t ts e = rw (e, tag_value) (rw (text_eq_refl property) refl)

tag_value-past :
    (property : Text) (t : MetaTag) (ts : List MetaTag)
    → t.property ≢ some property
    → tag_value property (t ∷ ts) ≡ tag_value property ts
unfolding tag_value
tag_value-past property t ts h = elim (Option-cases t.property) [
  | inl missing ↦ rw (missing, tag_value) refl
  | inr (q, e) ↦ elim (Bool-cases (text_eq q property)) [
    | inl here ↦ absurd (h (e ∙ ap some (eq_of_text_eq q property here)))
    | inr other ↦ rw (e, tag_value) (rw other refl)
  ]
]

tag_value-FirstTag :
    (property key : Text) (ts : List MetaTag)
    → tag_value property ts ≡ some key
    → FirstTag property key ts
tag_value-FirstTag property key [] h = unfold tag_value in cc h
tag_value-FirstTag property key (t ∷ ts) h = elim (property-cases t.property property) [
  | inl here ↦ inl (here, sym (tag_value-here property t ts here) ∙ h)
  | inr past ↦
      inr (past, tag_value-FirstTag property key ts (sym (tag_value-past property t ts past) ∙ h))
]

FirstTag-tag_value :
    (property key : Text) (ts : List MetaTag)
    → FirstTag property key ts
    → tag_value property ts ≡ some key
FirstTag-tag_value property key [] h = elim h [ ]
FirstTag-tag_value property key (t ∷ ts) (inl (e, k)) = tag_value-here property t ts e ∙ k
FirstTag-tag_value property key (t ∷ ts) (inr (past, h)) =
    tag_value-past property t ts past ∙ FirstTag-tag_value property key ts h

pub key_of-HasKey :
    (property key : Text) (v : Video) → key_of property v ≡ some key → HasKey property key v
unfolding key_of
key_of-HasKey property key v e = elim (Option-cases (tag_value property v.meta_tags)) [
  | inl none_such ↦ cc (rw (none_such, key_of) at e)
  | inr (k, found) ↦ named k found (rw (found, key_of) at e)
]
  where
    named :
        (k : Text)
        → tag_value property v.meta_tags ≡ some k
        → (if is_empty k then none else some k) ≡ some key
        → HasKey property key v
    named [] found h = cc h
    named (c ∷ k) found h =
        (λ (q : key ≡ []). cc (h, q), tag_value-FirstTag property key v.meta_tags (found ∙ h))

pub HasKey-key_of :
    (property key : Text) (v : Video) → HasKey property key v → key_of property v ≡ some key
unfolding key_of
HasKey-key_of property [] v (named, h) = absurd (named refl)
HasKey-key_of property (c ∷ key) v (named, h) =
    rw (FirstTag-tag_value property (c ∷ key) v.meta_tags h, key_of) refl
