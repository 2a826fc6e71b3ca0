-- ===== src/StreamImport/Videos.antt =====
-- packages/stream-import/src/source-index.ts, bunny-types.ts, time.ts and the stall test of status.ts.
use bunny_cli_fork.Common.{
  ℕ, ◌+◌, Bool, true, false, not, ◌&&◌, ◌||◌, Option, none, some, List, [], ◌∷◌, ◌++◌, map, any,
  filter, reverse, ◌==◌, ltb, if◌then◌else◌, Text, codes, text_eq, is_empty, is_digit, join,
}
use bunny_cli_fork.Common.Dict.{get, set}

pub record TranscodingMessage : Type 0 where
  pub level : Option ℕ
  pub message : Option Text
  pub issue_code : Option ℕ

pub record MetaTag : Type 0 where
  pub property : Option Text
  pub value : Option Text

-- The fields of the generated `VideoModel` that the import reads; a missing list is empty.
pub record Video : Type 0 where
  pub guid : Option Text
  pub status : Option ℕ
  pub encode_progress : Option ℕ
  pub storage_size : Option ℕ
  pub date_uploaded : Option Text
  pub meta_tags : List MetaTag
  pub messages : List TranscodingMessage

pub data Health : Type 0 where
  finished processing failed : Health

-- A number of the interface that may be missing, compared with a literal.
abbrev pub is_number : Option ℕ → ℕ → Bool
is_number none n = false
is_number (some m) n = m == n

unfoldable pub video_health : Video → Health
video_health v =
    if is_number v.status 4 || is_number v.status 8
    then finished
    else if is_number v.status 5 || is_number v.status 6
    then failed
    else processing

abbrev pub is_failed : Health → Bool
is_failed failed = true
is_failed h = false

abbrev pub is_processing : Health → Bool
is_processing processing = true
is_processing h = false

-- Whether a string is there and not empty, as a condition reads it.
abbrev pub truthy : Option Text → Bool
truthy none = false
truthy (some s) = not (is_empty s)

abbrev pub text_or_empty : Option Text → Text
text_or_empty none = []
text_or_empty (some s) = s

unfoldable pub failure_reason : Video → Text
failure_reason v =
    let generic =
      if is_number v.status 6
      then codes "Bunny could not fetch the file from the source"
      else codes "Bunny could not encode the video" in
    let messages =
      map (λ (m : TranscodingMessage). text_or_empty m.message)
        (filter (λ (m : TranscodingMessage). is_number m.level 3 && truthy m.message) v.messages) in
    if is_empty messages then generic else generic ++ codes ": " ++ join (codes "; ") messages

unfoldable pub is_permanent_code : Option ℕ → Bool
is_permanent_code c =
    is_number c 3 || is_number c 4 || is_number c 5 || is_number c 6 || is_number c 7

unfoldable pub is_permanent_failure : Video → Bool
is_permanent_failure v =
    is_failed (video_health v)
    && any (λ (m : TranscodingMessage). is_number m.level 3 && is_permanent_code m.issue_code)
        v.messages

-- HEALTH_RANK
abbrev pub health_rank : Health → ℕ
health_rank finished = 0
health_rank processing = 1
health_rank failed = 2

-- The value of the first tag with the property.
unfoldable pub tag_value : Text → List MetaTag → Option Text
tag_value property [] = none
tag_value property (t ∷ ts) =
    let later = tag_value property ts in
    elim t.property [ none ↦ later | some p ↦ if text_eq p property then t.value else later ]

-- The key of a video in the index: its tag where that is not empty.
unfoldable pub key_of : Text → Video → Option Text
key_of property v = elim (tag_value property v.meta_tags) [
  | none ↦ none
  | some key ↦ if is_empty key then none else some key
]

unfoldable pub healthier : Video → Video → Bool
healthier a b = ltb (health_rank (video_health a)) (health_rank (video_health b))

-- One round of `buildSourceIndex`.
unfoldable pub index_video : Text → Video → List (Text × Video) → List (Text × Video)
index_video property v index = elim (key_of property v) [
  | none ↦ index
  | some key ↦ elim (get key index) [
    | none ↦ set key v index
    | some current ↦ if healthier v current then set key v index else index
  ]
]

unfoldable pub index_videos : Text → List Video → List (Text × Video) → List (Text × Video)
index_videos property [] index = index
index_videos property (v ∷ vs) index = index_videos property vs (index_video property v index)

unfoldable pub build_source_index : List Video → Text → List (Text × Video)
build_source_index videos property = index_videos property videos []

-- /(?:[zZ]|[+-]\d\d:?\d\d)$/ on the reversed text.
unfoldable pub ends_in_zone : Text → Bool
ends_in_zone (c ∷ d ∷ e ∷ f ∷ g ∷ h ∷ _) =
    c == b'z'
    || c == b'Z'
    || (is_digit c && is_digit d && is_digit e && is_digit f && (g == b'+' || g == b'-'))
    || (is_digit c
        && is_digit d
        && e == b':'
        && is_digit f
        && is_digit g
        && (h == b'+' || h == b'-'))
ends_in_zone (c ∷ d ∷ e ∷ f ∷ g ∷ []) =
    c == b'z'
    || c == b'Z'
    || (is_digit c && is_digit d && is_digit e && is_digit f && (g == b'+' || g == b'-'))
ends_in_zone (c ∷ _) = c == b'z' || c == b'Z'
ends_in_zone [] = false

-- `Date.parse` in milliseconds is a parameter, `none` for NaN.
module _ (parse_date : Text → Option ℕ) where
  unfoldable pub parse_bunny_date : Text → Option ℕ
  parse_bunny_date value =
      if is_empty value
      then none
      else parse_date (if ends_in_zone (reverse value) then value else value ++ b'Z' ∷ [])

  unfoldable pub older_than : Option Text → ℕ → ℕ → Bool
  older_than none now after = false
  older_than (some since) now after = elim (parse_bunny_date since) [
    | none ↦ false
    | some t ↦ ltb (t + after) now
  ]

  abbrev pub is_zero_size : Option ℕ → Bool
  is_zero_size none = true
  is_zero_size (some n) = n == 0

  abbrev pub or_else : Option Text → Option Text → Option Text
  or_else none fallback = fallback
  or_else (some s) fallback = some s

  unfoldable pub is_stalled : Video → ℕ → ℕ → Option Text → Bool
  is_stalled v now after fallback =
      let since = or_else v.date_uploaded fallback in
      is_processing (video_health v)
      && truthy since
      && is_zero_size v.storage_size
      && older_than since now after
