-- ===== src/Rest/Auth/Cookies.antt =====
-- Which value a Cookie header has under a name.
use bunny_cli_fork.Common.{
  ℕ, false, Option, none, some, List, [], ◌∷◌, ◌++◌, Text, text_eq, text_eq_refl, eq_of_text_eq,
  index_of, take, take-append, drop_past, split, trim, is_empty, length, Bool-cases, Option-cases,
  ◌≡◌, ◌⊎◌, refl, sym, ap, ◌∙◌, inl, inr,
}
use bunny_cli_fork.Common.Find.{Lacks, index_of-Cut, index_of-append}
use bunny_cli_fork.Rest.Auth.{find_cookie, extract_cookie}

-- The pair is `name=content`, with white space round it, where the name holds no equals sign.
abbrev pub Assigns : Text → Text → Text → Type 0
Assigns pair name content = Lacks b'=' name × (trim pair ≡ name ++ b'=' ∷ content)

-- The first pair with the name has the content.
abbrev pub FirstPair : Text → Text → List Text → Type 0
FirstPair name content [] = ⊥
FirstPair name content (pair ∷ pairs) =
    Assigns pair name content
    ⊎ (((other : Text) → Assigns pair name other → ⊥) × FirstPair name content pairs)

-- The header's pairs stand between semicolons; an empty header has none.
abbrev pub Sends : Option Text → Text → Text → Type 0
Sends none name content = ⊥
Sends (some header) name content =
    (is_empty header ≡ false) × FirstPair name content (split b';' header)

find_here :
    (name content pair : Text) (pairs : List Text)
    → Assigns pair name content
    → find_cookie name (pair ∷ pairs) ≡ some content
unfolding find_cookie
find_here name content pair pairs (one_word, e) =
    rw (e, find_cookie)
      (rw (index_of-append b'=' name content one_word, find_cookie)
        (rw (e, take-append name (b'=' ∷ content), drop_past name b'=' content, text_eq_refl name)
          refl))

find_cases :
    (name pair : Text) (pairs : List Text)
    → ((content : Text) × Assigns pair name content
        × (find_cookie name (pair ∷ pairs) ≡ some content))
      ⊎ (((content : Text) → Assigns pair name content → ⊥)
          × (find_cookie name (pair ∷ pairs) ≡ find_cookie name pairs))
unfolding find_cookie
find_cases name pair pairs = elim (Option-cases (index_of b'=' (trim pair))) [
  | inl no_sign ↦ inr (
    λ content (one_word, e).
        cc (no_sign, ap (index_of b'=') e, index_of-append b'=' name content one_word),
    rw (no_sign, find_cookie) refl,
  )
  | inr (i, found) ↦
      let k = index_of-Cut b'=' (trim pair) i found in
      elim (Bool-cases (text_eq (take i (trim pair)) name)) [
        | inl here ↦
            let same : k.before ≡ name = sym k.taken ∙ eq_of_text_eq _ _ here in
            inl (
              k.after,
              (rw same at k.first, k.whole ∙ ap (λ t. t ++ b'=' ∷ k.after) same),
              rw (found, find_cookie) (rw here (ap some k.dropped)),
            )
        | inr other ↦ inr (
          λ content (one_word, e). other_name content i one_word e found other,
          rw (found, find_cookie) (rw other refl),
        )
      ]
]
  where
    some_eq : {i j : ℕ} → some i ≡ some j → i ≡ j
    some_eq e = cc e

    other_name :
        (content : Text) (i : ℕ)
        → Lacks b'=' name
        → trim pair ≡ name ++ b'=' ∷ content
        → index_of b'=' (trim pair) ≡ some i
        → text_eq (take i (trim pair)) name ≡ false
        → ⊥
    other_name content i one_word e found other =
        let at_end : i ≡ length name =
          some_eq (sym found ∙ ap (index_of b'=') e ∙ index_of-append b'=' name content one_word) in
        let word : take i (trim pair) ≡ name =
          ap (λ n. take n (trim pair)) at_end
          ∙ ap (take (length name)) e
          ∙ take-append name (b'=' ∷ content) in
        cc (other, ap (λ t. text_eq t name) word, text_eq_refl name)

find_cookie-FirstPair :
    (name content : Text) (pairs : List Text)
    → find_cookie name pairs ≡ some content
    → FirstPair name content pairs
find_cookie-FirstPair name content [] h = unfold find_cookie in cc h
find_cookie-FirstPair name content (pair ∷ pairs) h = elim (find_cases name pair pairs) [
  | inl (value, assigns, found) ↦
      inl (assigns.0, assigns.1 ∙ ap (λ t. name ++ b'=' ∷ t) (some_eq (sym found ∙ h)))
  | inr (absent, later) ↦ inr (absent, find_cookie-FirstPair name content pairs (sym later ∙ h))
]
  where
    some_eq : {s t : Text} → some s ≡ some t → s ≡ t
    some_eq e = cc e

FirstPair-find_cookie :
    (name content : Text) (pairs : List Text)
    → FirstPair name content pairs
    → find_cookie name pairs ≡ some content
FirstPair-find_cookie name content [] h = elim h [ ]
FirstPair-find_cookie name content (pair ∷ pairs) (inl here) =
    find_here name content pair pairs here
FirstPair-find_cookie name content (pair ∷ pairs) (inr (absent, later)) =
    elim (find_cases name pair pairs) [
      | inl (value, assigns, found) ↦ absurd (absent value assigns)
      | inr (_, skips) ↦ skips ∙ FirstPair-find_cookie name content pairs later
    ]

pub extract_cookie-Sends :
    (header : Option Text) (name content : Text)
    → extract_cookie header name ≡ some content
    → Sends header name content
unfolding extract_cookie
extract_cookie-Sends none name content h = cc h
extract_cookie-Sends (some header) name content h = elim (Bool-cases (is_empty header)) [
  | inl nothing ↦ cc (rw (nothing, extract_cookie) at h)
  | inr there ↦ (
    there,
    find_cookie-FirstPair name content (split b';' header) (rw (there, extract_cookie) at h),
  )
]

pub Sends-extract_cookie :
    (header : Option Text) (name content : Text)
    → Sends header name content
    → extract_cookie header name ≡ some content
unfolding extract_cookie
Sends-extract_cookie none name content h = elim h [ ]
Sends-extract_cookie (some header) name content (there, h) =
    rw there (FirstPair-find_cookie name content (split b';' header) h)
