-- ===== src/StreamImport/Index.antt =====
-- What the index of the tagged videos holds.
use bunny_cli_fork.Common.{
  true, false, All, All-imp, All-append, text_eq_refl, Option, none, some, List, [], ◌∷◌,
  if◌then◌else◌, Text, text_eq, eq_of_text_eq, Bool-cases, Option-cases, ◌≡◌, ◌⊎◌, refl, sym, subst,
  ap, ◌∙◌, inl, inr, arith,
}
use bunny_cli_fork.Common.Dict.{get, get-set, get-set_other}
use bunny_cli_fork.StreamImport.Videos.{
  Video, video_health, key_of, healthier, index_video, index_videos, build_source_index,
}
use bunny_cli_fork.StreamImport.Best.{
  beats, HasKey, IsHealthiest, Finds, rank-beats, beaten_by_less, unbeaten_by_less, key_of-HasKey,
  HasKey-key_of,
}

healthier-beats : (a b : Video) → healthier a b ≡ beats (video_health a) (video_health b)
unfolding healthier
healthier-beats a b = rank-beats (video_health a) (video_health b)

-- Of two finds the healthier, and the first of equals.
unfoldable prefer : Option Video → Option Video → Option Video
prefer none o = o
prefer (some a) none = some a
prefer (some a) (some b) = if healthier b a then some b else some a

-- The find for a key in one video.
unfoldable find_in : Text → Text → Video → Option Video
find_in property key v = elim (key_of property v) [
  | none ↦ none
  | some k ↦ if text_eq k key then some v else none
]

-- The first of the healthiest videos with a key.
unfoldable healthiest : Text → Text → List Video → Option Video
healthiest property key [] = none
healthiest property key (v ∷ vs) = prefer (find_in property key v) (healthiest property key vs)

prefer-none : (a : Option Video) → prefer a none ≡ a
unfolding prefer
prefer-none none = refl
prefer-none (some a) = refl

prefer_assoc : (a b c : Option Video) → prefer (prefer a b) c ≡ prefer a (prefer b c)
unfolding prefer healthier
prefer_assoc none b c = refl
prefer_assoc (some a) none c = refl
prefer_assoc (some a) (some b) none = prefer-none (if healthier b a then some b else some a)
prefer_assoc (some a) (some b) (some c) = ground arith

find_in-none :
    (property key : Text) (v : Video) → key_of property v ≡ none → find_in property key v ≡ none
unfolding find_in
find_in-none property key v e = rw (e, find_in) refl

find_in-some :
    (property key k : Text) (v : Video)
    → key_of property v ≡ some k
    → find_in property key v ≡ (if text_eq k key then some v else none)
unfolding find_in
find_in-some property key k v e = rw (e, find_in) refl

index_video-none :
    (property : Text) (v : Video) (index : List (Text × Video))
    → key_of property v ≡ none
    → index_video property v index ≡ index
unfolding index_video
index_video-none property v index e = rw (e, index_video) refl

-- A round puts the preferred of the two under the video's key, or changes nothing.
index_video-some :
    (property k : Text) (v : Video) (index : List (Text × Video))
    → key_of property v ≡ some k
    → (get k (index_video property v index) ≡ prefer (get k index) (some v))
      × ((j : Text) → text_eq k j ≡ false → get j (index_video property v index) ≡ get j index)
unfolding prefer index_video
index_video-some property k v index e = elim (Option-cases (get k index)) [
  | inl absent ↦
      rw (e, index_video)
        (rw (absent, prefer) (get-set k v index, λ j h. get-set_other k j v index h))
  | inr (current, found) ↦ elim (Bool-cases (healthier v current)) [
    | inl better ↦
        rw (e, index_video)
          (rw (found, prefer) (rw better (get-set k v index, λ j h. get-set_other k j v index h)))
    | inr worse ↦ rw (e, index_video) (rw (found, prefer) (rw worse (found, λ j h. refl)))
  ]
]

get-index_video :
    (property key : Text) (v : Video) (index : List (Text × Video))
    → get key (index_video property v index) ≡ prefer (get key index) (find_in property key v)
get-index_video property key v index = elim (Option-cases (key_of property v)) [
  | inl none_such ↦
      rw (index_video-none property v index none_such, find_in-none property key v none_such)
        (sym (prefer-none (get key index)))
  | inr (k, e) ↦
      let (same, others) = index_video-some property k v index e in
      elim (Bool-cases (text_eq k key)) [
        | inl here ↦
            rw (find_in-some property key k v e, here)
              (subst (λ t. get t (index_video property v index) ≡ prefer (get t index) (some v))
                (eq_of_text_eq k key here) same)
        | inr other ↦
            rw (find_in-some property key k v e, other)
              (others key other ∙ sym (prefer-none (get key index)))
      ]
]

get-index_videos :
    (property key : Text) (vs : List Video) (index : List (Text × Video))
    → get key (index_videos property vs index) ≡ prefer (get key index) (healthiest property key vs)
unfolding index_videos healthiest
get-index_videos property key [] index = sym (prefer-none (get key index))
get-index_videos property key (v ∷ vs) index =
    get-index_videos property key vs (index_video property v index)
    ∙ ap (λ o. prefer o (healthiest property key vs)) (get-index_video property key v index)
    ∙ prefer_assoc (get key index) (find_in property key v) (healthiest property key vs)

find_in-cases :
    (property key : Text) (v : Video)
    → ((find_in property key v ≡ none) × (HasKey property key v → ⊥))
      ⊎ ((find_in property key v ≡ some v) × HasKey property key v)
find_in-cases property key v = elim (Option-cases (key_of property v)) [
  | inl none_such ↦ inl (
    find_in-none property key v none_such,
    λ (h : HasKey property key v). cc (none_such, HasKey-key_of property key v h),
  )
  | inr (k, e) ↦ elim (Bool-cases (text_eq k key)) [
    | inl here ↦ inr (
      find_in-some property key k v e ∙ (rw here refl),
      key_of-HasKey property key v (e ∙ ap some (eq_of_text_eq k key here)),
    )
    | inr other ↦ inl (
      find_in-some property key k v e ∙ (rw other refl),
      λ (h : HasKey property key v). differs k other (sym e ∙ HasKey-key_of property key v h),
    )
  ]
]
  where
    differs : (k : Text) → text_eq k key ≡ false → some k ≡ some key → ⊥
    differs k other e = cc (other, e, text_eq_refl key)

module _ (property key : Text) where
  -- A video without the key changes nothing.
  Finds-skip :
      (v : Video) (vs : List Video) (o : Option Video)
      → (HasKey property key v → ⊥)
      → Finds property key vs o
      → Finds property key (v ∷ vs) o
  Finds-skip v vs none h k = (h, k)
  Finds-skip v vs (some w) h k = record {
    earlier = v ∷ k.earlier;
    later = k.later;
    listed = ap (λ t. v ∷ t) k.listed;
    has_key = k.has_key;
    beaten = (λ q. absurd (h q), k.beaten);
    unbeaten = k.unbeaten;
  }

  -- One that the best of the others does not beat is the best.
  Finds-first :
      (v w : Video) (vs : List Video)
      → HasKey property key v
      → beats (video_health w) (video_health v) ≡ false
      → IsHealthiest property key vs w
      → IsHealthiest property key (v ∷ vs) v
  Finds-first v w vs h worse k =
      let P =
        λ (u : Video). HasKey property key u → beats (video_health u) (video_health v) ≡ false in
      record {
        earlier = [];
        later = vs;
        listed = refl;
        has_key = h;
        beaten = tt;
        unbeaten = subst (All P) (sym k.listed) (
            All-append P k.earlier (w ∷ k.later)
              (All-imp
                (λ (u : Video).
                  HasKey property key u → beats (video_health w) (video_health u) ≡ true)
                P
                (λ u b q.
                  beaten_by_less (video_health w) (video_health u) (video_health v) (b q) worse)
                k.earlier k.beaten)
              (
                λ q. worse,
                All-imp
                    (λ (u : Video).
                      HasKey property key u → beats (video_health u) (video_health w) ≡ false)
                    P
                    (λ u b q.
                      unbeaten_by_less (video_health w) (video_health u) (video_health v) (b q)
                        worse)
                    k.later k.unbeaten,
              ));
      }

  Finds-prefer :
      (v : Video) (vs : List Video) (o : Option Video)
      → HasKey property key v
      → Finds property key vs o
      → Finds property key (v ∷ vs) (prefer (some v) o)
  unfolding prefer
  Finds-prefer v vs none h k = record {
    earlier = [];
    later = vs;
    listed = refl;
    has_key = h;
    beaten = tt;
    unbeaten =
        All-imp (λ (u : Video). HasKey property key u → ⊥)
          (λ (u : Video). HasKey property key u → beats (video_health u) (video_health v) ≡ false)
          (λ u absent q. absurd (absent q)) vs k;
  }
  Finds-prefer v vs (some w) h k = elim (Bool-cases (healthier w v)) [
    | inl better ↦ rw better (record {
      earlier = v ∷ k.earlier;
      later = k.later;
      listed = ap (λ t. v ∷ t) k.listed;
      has_key = k.has_key;
      beaten = (λ q. sym (healthier-beats w v) ∙ better, k.beaten);
      unbeaten = k.unbeaten;
    })
    | inr worse ↦ rw worse (Finds-first v w vs h (sym (healthier-beats w v) ∙ worse) k)
  ]

  healthiest-Finds : (vs : List Video) → Finds property key vs (healthiest property key vs)
  unfolding healthiest prefer
  healthiest-Finds [] = tt
  healthiest-Finds (v ∷ vs) = elim (find_in-cases property key v) [
    | inl (nothing, absent) ↦
        rw nothing (Finds-skip v vs (healthiest property key vs) absent (healthiest-Finds vs))
    | inr (found, h) ↦
        rw found (Finds-prefer v vs (healthiest property key vs) h (healthiest-Finds vs))
  ]

-- Under every key the index holds the first of the healthiest videos with that tag (every earlier
-- one with the tag is less healthy, and no later one is healthier, where finished is healthier than
-- processing, and processing than failed), and nothing where no video has it: a dead copy never
-- hides a working one.
pub build_source_index-healthiest :
    (videos : List Video) (property key : Text)
    → Finds property key videos (get key (build_source_index videos property))
unfolding build_source_index prefer get
build_source_index-healthiest videos property key =
    subst (Finds property key videos) (sym (get-index_videos property key videos []))
      (healthiest-Finds property key videos)
