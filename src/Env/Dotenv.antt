-- ===== src/Env/Dotenv.antt =====
-- packages/cli/src/core/env.ts: reading dotenv text. The inner loop over the lines of a quoted value
-- is a mode of the loop over lines.
use bunny_cli_fork.Common.{
  ℕ, suc, ◌+◌, Bool, false, not, ◌&&◌, ◌||◌, Option, none, some, List, [], ◌∷◌, ◌++◌, ◌==◌,
  if◌then◌else◌, Text, codes, starts_with, index_of, take, drop, split, trim, trim_start, is_empty,
  is_space, is_word, is_digit, all,
}

-- ENV_KEY_PATTERN
unfoldable pub is_env_key : Text → Bool
is_env_key [] = false
is_env_key (c ∷ s) = is_word c && not (is_digit c) && all is_word s

pub record DotenvEntry : Type 0 where
  pub key : Text
  pub value : Text

pub record DotenvParse : Type 0 where
  pub entries : List DotenvEntry
  pub unterminated : List Text

-- A line without the carriage return at its end.
unfoldable pub chomp : Text → Text
chomp [] = []
chomp (c ∷ []) = if c == 13 then [] else c ∷ []
chomp (c ∷ d ∷ s) = c ∷ chomp (d ∷ s)

unfoldable pub chomp_all : List Text → List Text
chomp_all [] = []
chomp_all (l ∷ []) = l ∷ []
chomp_all (l ∷ m ∷ ls) = chomp l ∷ chomp_all (m ∷ ls)

-- text.split(/\r?\n/)
unfoldable pub lines_of : Text → List Text
lines_of text = chomp_all (split 10 text)

-- ESCAPES[ch] ?? whole
unfoldable pub escape_of : ℕ → Text
escape_of c =
    if c == b'n'
    then 10 ∷ []
    else if c == b'r'
    then 13 ∷ []
    else if c == b't'
    then 9 ∷ []
    else if c == b'\\' || c == b'"'
    then c ∷ []
    else b'\\' ∷ c ∷ []

-- What `.` does not match.
unfoldable pub is_line_end : ℕ → Bool
is_line_end c = c == 10 || c == 13 || c == 0x2028 || c == 0x2029

unfoldable pub expand_escapes : Text → Text
expand_escapes [] = []
expand_escapes (c ∷ []) = c ∷ []
expand_escapes (c ∷ d ∷ s) =
    let behind = expand_escapes s in
    let next = expand_escapes (d ∷ s) in
    if c == b'\\' && not (is_line_end d) then escape_of d ++ behind else c ∷ next

unfoldable pub before_spaced_hash : Text → Text
before_spaced_hash [] = []
before_spaced_hash (c ∷ []) = c ∷ []
before_spaced_hash (c ∷ d ∷ s) =
    let rest = before_spaced_hash (d ∷ s) in if is_space c && d == b'#' then [] else c ∷ rest

unfoldable pub strip_comment : Text → Text
strip_comment value = trim (if starts_with value (b'#' ∷ []) then [] else before_spaced_hash value)

abbrev pub past : ℕ → Option ℕ → Option ℕ
past n none = none
past n (some i) = some (n + i)

-- A backslash in double quotes hides the unit behind it.
unfoldable pub closing_quote : ℕ → Text → Option ℕ
closing_quote q [] = none
closing_quote q (c ∷ []) = if q == b'"' && c == b'\\' then none else if c == q then some 0 else none
closing_quote q (c ∷ d ∷ s) =
    let behind = past 2 (closing_quote q s) in
    let next = past 1 (closing_quote q (d ∷ s)) in
    if q == b'"' && c == b'\\' then behind else if c == q then some 0 else next

pub data Mode : Type 0 where
  outside : Mode
  inside : Text → ℕ → Text → Mode

unfoldable pub push_entry : Text → Text → DotenvParse → DotenvParse
push_entry key value st = record {
  entries = st.entries ++ record { key = key; value = value } ∷ [];
  unterminated = st.unterminated;
}

unfoldable pub push_unterminated : Text → DotenvParse → DotenvParse
push_unterminated key st = record {
  entries = st.entries;
  unterminated = st.unterminated ++ key ∷ [];
}

unfoldable pub quoted_value : ℕ → Text → Text
quoted_value q raw = if q == b'"' then expand_escapes raw else raw

unfoldable pub close_or_wait : Text → ℕ → Text → DotenvParse → Mode × DotenvParse
close_or_wait key q quoted st = elim (closing_quote q quoted) [
  | none ↦ (inside key q quoted, st)
  | some i ↦ (outside, push_entry key (quoted_value q (take i quoted)) st)
]

unfoldable pub open_value : Text → Text → DotenvParse → Mode × DotenvParse
open_value key [] st = (outside, push_entry key (strip_comment []) st)
open_value key (c ∷ s) st =
    if c == b'"' || c == b'\''
    then close_or_wait key c s st
    else (outside, push_entry key (strip_comment (c ∷ s)) st)

unfoldable pub starts_space : Text → Bool
starts_space [] = false
starts_space (c ∷ s) = is_space c

-- line.replace(/^export\s+/, "")
unfoldable pub strip_export : Text → Text
strip_export line =
    if starts_with line (codes "export") && starts_space (drop 6 line)
    then trim_start (drop 6 line)
    else line

unfoldable pub open_body : Text → DotenvParse → Mode × DotenvParse
open_body body st = elim (index_of b'=' body) [
  | none ↦ (outside, st)
  | some eq ↦
      let key = trim (take eq body) in
      if is_env_key key then open_value key (trim_start (drop (suc eq) body)) st else (outside, st)
]

unfoldable pub open_line : Text → DotenvParse → Mode × DotenvParse
open_line line st =
    if is_empty line || starts_with line (b'#' ∷ [])
    then (outside, st)
    else open_body (strip_export line) st

unfoldable pub line_step : Text → Mode → DotenvParse → Mode × DotenvParse
line_step l outside st = open_line (trim l) st
line_step l (inside key q quoted) st = close_or_wait key q (quoted ++ 10 ∷ l) st

unfoldable pub parse_lines : List Text → Mode → DotenvParse → DotenvParse
parse_lines [] outside st = st
parse_lines [] (inside key q quoted) st = push_unterminated key st
parse_lines (l ∷ ls) mode st = let (mode', st') = line_step l mode st in parse_lines ls mode' st'

unfoldable pub parse_dotenv_entries : Text → DotenvParse
parse_dotenv_entries text =
    parse_lines (lines_of text) outside (record { entries = []; unterminated = [] })
