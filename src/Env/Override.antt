-- ===== src/Env/Override.antt =====
-- Pairs are read back, and override the file.
use bunny_cli_fork.Common.{
  ℕ, Bool, true, false, ◌&&◌, Option, none, some, List, [], ◌∷◌, ◌++◌, ◌==◌, if◌then◌else◌, Text,
  codes, text_eq, eq_of_text_eq, take-append, drop_past, is_empty, is_word, is_digit, is_lower,
  is_upper, all, Bool-cases, &&-split, if_both, ◌≡◌, refl, sym, subst, ap, ◌∙◌, inl, inr, arith,
}
use bunny_cli_fork.Common.Find.{Lacks, index_of-append}
use bunny_cli_fork.Common.Dict.{get, set, get-set, get-set_other}
use bunny_cli_fork.Common.Exec.{ok}
use bunny_cli_fork.Env.Dotenv.{is_env_key, DotenvEntry, parse_dotenv_entries}
use bunny_cli_fork.Env.Collect.{split_pair, assign, assign_entries, assign_pairs, collect_env}

word_not_equals : (c : ℕ) → is_word c ≡ true → (c == b'=') ≡ false
unfolding is_word is_digit is_lower is_upper
word_not_equals c h = ground arith

words-Lacks : (s : Text) → all is_word s ≡ true → Lacks b'=' s
words-Lacks [] h = tt
words-Lacks (c ∷ s) h = (word_not_equals c (ground arith), words-Lacks s (ground arith))

key-Lacks : (key : Text) → is_env_key key ≡ true → Lacks b'=' key
unfolding is_env_key
key-Lacks [] h = tt
key-Lacks (c ∷ s) h = (word_not_equals c (ground arith), words-Lacks s (ground arith))

-- A legal key and any value, which may hold an equals sign, are read back from their pair.
pub split_pair-join :
    (key value : Text) → is_env_key key ≡ true → split_pair (key ++ b'=' ∷ value) ≡ ok (key, value)
unfolding split_pair
split_pair-join key value h =
    rw (index_of-append b'=' key value (key-Lacks key h), split_pair)
      (rw (take-append key (b'=' ∷ value), drop_past key b'=' value) (rw h refl))

-- The value that a key has last in a list of pairs.
unfoldable pub last_value : Text → Option Text → List (Text × Text) → Option Text
last_value key o [] = o
last_value key o ((k, v) ∷ ps) = last_value key (if text_eq k key then some v else o) ps

abbrev pub written : List DotenvEntry → List (Text × Text)
written [] = []
written (e ∷ es) = (e.key, e.value) ∷ written es

-- The text of a pair.
abbrev pub pair_text : Text × Text → Text
pair_text (k, v) = k ++ b'=' ∷ v

abbrev pub pair_texts : List (Text × Text) → List Text
pair_texts [] = []
pair_texts (p ∷ ps) = pair_text p ∷ pair_texts ps

abbrev pub legal : List (Text × Text) → Bool
legal [] = true
legal ((k, v) ∷ ps) = is_env_key k && legal ps

get-assign :
    (key k v : Text) (env : List (Text × Text))
    → text_eq key (codes "__proto__") ≡ false
    → get key (assign k v env) ≡ (if text_eq k key then some v else get key env)
unfolding assign
get-assign key k v env h = elim (Bool-cases (text_eq k key)) [
  | inl same ↦
      let fresh =
        subst (λ t. text_eq t (codes "__proto__") ≡ false) (sym (eq_of_text_eq k key same)) h in
      rw (fresh, same)
        (subst (λ t. get t (set k v env) ≡ some v) (eq_of_text_eq k key same) (get-set k v env))
  | inr other ↦ rw other (
      if_both (λ d. get key d ≡ get key env) (text_eq k (codes "__proto__")) env (set k v env) refl
        (get-set_other k key v env other))
]

get-assign_entries :
    (key : Text) (es : List DotenvEntry) (env : List (Text × Text))
    → text_eq key (codes "__proto__") ≡ false
    → get key (assign_entries es env) ≡ last_value key (get key env) (written es)
unfolding assign_entries last_value
get-assign_entries key [] env h = refl
get-assign_entries key (e ∷ es) env h =
    get-assign_entries key es (assign e.key e.value env) h
    ∙ ap (λ o. last_value key o (written es)) (get-assign key e.key e.value env h)

-- Legal pairs are all assigned.
get-assign_pairs :
    (key : Text) (ps env : List (Text × Text))
    → text_eq key (codes "__proto__") ≡ false
    → legal ps ≡ true
    → (after : List (Text × Text)) × (assign_pairs (pair_texts ps) env ≡ ok after)
      × (get key after ≡ last_value key (get key env) ps)
unfolding last_value assign_pairs
get-assign_pairs key [] env h l = (env, refl, refl)
get-assign_pairs key ((k, v) ∷ ps) env h l =
    let (k_legal, ps_legal) = &&-split _ _ l in
    let (after, ran, e) = get-assign_pairs key ps (assign k v env) h ps_legal in
    (
      after,
      rw (split_pair-join k v k_legal, assign_pairs) ran,
      e ∙ ap (λ o. last_value key o ps) (get-assign key k v env h),
    )

last_value-append :
    (key : Text) (o : Option Text) (ps qs : List (Text × Text))
    → last_value key o (ps ++ qs) ≡ last_value key (last_value key o ps) qs
unfolding last_value
last_value-append key o [] qs = refl
last_value-append key o ((k, v) ∷ ps) qs =
    last_value-append key (if text_eq k key then some v else o) ps qs

-- With a dotenv file that closes its quotes and pairs of legal keys, the variables are collected, and
-- each key but `__proto__` has the last value that the file and then the pairs give it.
pub collect_env-last :
    (key text : Text) (ps : List (Text × Text))
    → text_eq key (codes "__proto__") ≡ false
    → is_empty (parse_dotenv_entries text).unterminated ≡ true
    → legal ps ≡ true
    → (env : List (Text × Text)) × (collect_env (pair_texts ps) (some text) ≡ ok env)
      × (get key env ≡ last_value key none (written (parse_dotenv_entries text).entries ++ ps))
unfolding collect_env get last_value
collect_env-last key text ps h closed l =
    let es = (parse_dotenv_entries text).entries in
    let (env, ran, e) = get-assign_pairs key ps (assign_entries es []) h l in
    (
      env,
      rw closed ran,
      e
          ∙ ap (λ o. last_value key o ps) (get-assign_entries key es [] h)
          ∙ sym (last_value-append key none (written es) ps),
    )
