-- ===== src/SqlSplit/Trigger.antt =====
-- packages/database-shell/src/parser.ts: `stripQuoted` and `inBlockBody`. The regular expressions
-- are written out as functions; a match of `\b(?:WORD)\b` is a maximal run of word units.
use bunny_cli_fork.Common.{
  ℕ, ◌+◌, Bool, false, not, ◌&&◌, ◌||◌, Option, none, some, List, [], ◌∷◌, ◌++◌, ltb, ◌==◌,
  if◌then◌else◌, Text, codes, text_eq, lower, to_lower, is_space, is_word, trim, trim_start,
}

-- The unit that opens a quoted value, and the one that closes it.
unfoldable pub is_opener : ℕ → Bool
is_opener c = c == b'\'' || c == b'"' || c == b'`' || c == b'['

unfoldable pub terminator : ℕ → ℕ
terminator c = if c == b'[' then b']' else c

-- Only a bracket is not escaped by doubling.
unfoldable pub doubles : ℕ → Bool
doubles q = not (q == b']')

-- The loop of `stripQuoted`; `none` is a loop outside quotes.
unfoldable pub strip_quoted : Option ℕ → Text → Text
unfolding is_opener terminator doubles
strip_quoted q [] = []
strip_quoted none (c ∷ s) =
    let opened = 32 ∷ strip_quoted (some (terminator c)) s in
    let plain = c ∷ strip_quoted none s in if is_opener c then opened else plain
strip_quoted (some q) (c ∷ []) = []
strip_quoted (some q) (c ∷ d ∷ s) =
    let inside = strip_quoted (some q) (d ∷ s) in
    let doubled = strip_quoted (some q) s in
    let closed = strip_quoted none (d ∷ s) in
    if not (c == q) then inside else if doubles q && d == q then doubled else closed

-- A word of the pattern at the head of the text, whatever its case; what follows it.
unfoldable pub eat_word : Text → Text → Option Text
eat_word [] s = some s
eat_word (w ∷ ws) [] = none
eat_word (w ∷ ws) (c ∷ s) = let rest = eat_word ws s in if lower c == w then rest else none

-- \s+
unfoldable pub eat_spaces : Text → Option Text
eat_spaces [] = none
eat_spaces (c ∷ s) = if is_space c then some (trim_start s) else none

unfoldable pub starts_word : Text → Bool
starts_word [] = false
starts_word (c ∷ s) = is_word c

-- WORD\s+
unfoldable pub eat_word_spaces : Text → Text → Option Text
unfolding eat_word eat_spaces
eat_word_spaces w s = elim (eat_word w s) [ none ↦ none | some r ↦ eat_spaces r ]

-- (?:TEMP\s+|TEMPORARY\s+)?
unfoldable pub skip_temp : Text → Text
unfolding eat_word_spaces
skip_temp s = elim (eat_word_spaces (codes "temp") s) [
  | some r ↦ r
  | none ↦ elim (eat_word_spaces (codes "temporary") s) [ some r ↦ r | none ↦ s ]
]

-- BLOCK_BODY_START.test
unfoldable pub block_body_start : Text → Bool
unfolding eat_word_spaces skip_temp starts_word
block_body_start s = elim (eat_word_spaces (codes "create") s) [
  | none ↦ false
  | some r ↦ elim (eat_word (codes "trigger") (skip_temp r)) [
    | none ↦ false
    | some after ↦ not (starts_word after)
  ]
]

-- The maximal runs of word units.
unfoldable pub words : Text → Text → List Text
words w [] = w ∷ []
words w (c ∷ s) =
    let longer = words (w ++ c ∷ []) s in
    let next = w ∷ words [] s in if is_word c then longer else next

unfoldable pub count_words : (Text → Bool) → List Text → ℕ
count_words p [] = 0
count_words p (w ∷ ws) = if p (to_lower w) then count_words p ws + 1 else count_words p ws

unfoldable pub in_block_body : Text → Bool
unfolding block_body_start strip_quoted words count_words
in_block_body current =
    let trimmed = trim current in
    let bare = words [] (strip_quoted none trimmed) in
    let openers = count_words (λ w. text_eq w (codes "begin") || text_eq w (codes "case")) bare in
    let closers = count_words (λ w. text_eq w (codes "end")) bare in
    if block_body_start trimmed then ltb closers openers else false
