-- ===== src/Rest/Neutral.antt =====
-- How SQL reads placeholders: a `?` counts outside quotation marks only. A text is neutral with `n`
-- if reading it from outside leads back outside and meets `n` of them.
use bunny_cli_fork.Common.{
  ℕ, ◌+◌, ◌*◌, Bool, true, false, not, ◌&&◌, List, [], ◌∷◌, ◌++◌, map, ◌==◌, if◌then◌else◌, Text,
  join, length, all, ◌≡◌, refl, ap, ◌∙◌, arith,
}
use bunny_cli_fork.Rest.Sql.{double_quotes, quote_identifier}

-- Whether the reader is inside quotation marks after the text.
unfoldable pub inside : Bool → Text → Bool
inside q [] = q
inside q (c ∷ s) = inside (if c == b'"' then not q else q) s

-- The placeholders that the reader meets.
unfoldable pub holes : Bool → Text → ℕ
holes q [] = 0
holes q (c ∷ s) =
    let later = holes (if c == b'"' then not q else q) s in
    if c == b'?' && not q then later + 1 else later

pub record Neutral (s : Text) (n : ℕ) : Type 0 where
  pub outside : inside false s ≡ false
  pub count : holes false s ≡ n

inside-append : (q : Bool) (s t : Text) → inside q (s ++ t) ≡ inside (inside q s) t
unfolding inside
inside-append q [] t = refl
inside-append q (c ∷ s) t = inside-append (if c == b'"' then not q else q) s t

holes-append : (q : Bool) (s t : Text) → holes q (s ++ t) ≡ holes q s + holes (inside q s) t
unfolding holes inside
holes-append q [] t = omega arith
holes-append q (c ∷ s) t = ground (arith, holes-append (if c == b'"' then not q else q) s t)

pub Neutral-append : (s t : Text) (m n : ℕ) → Neutral s m → Neutral t n → Neutral (s ++ t) (m + n)
Neutral-append s t m n h k = record {
  outside = inside-append false s t ∙ ap (λ q. inside q t) h.outside ∙ k.outside;
  count =
      holes-append false s t
      ∙ ap (λ q. holes false s + holes q t) h.outside
      ∙ omega (arith, h.count, k.count);
}

pub Neutral_cast : (s : Text) (m n : ℕ) → Neutral s m → m ≡ n → Neutral s n
Neutral_cast s m n h e = record { outside = h.outside; count = h.count ∙ e }

doubled-inside : (s : Text) → inside true (double_quotes s) ≡ true
unfolding inside double_quotes
doubled-inside [] = refl
doubled-inside (c ∷ s) = ground (arith, doubled-inside s)

doubled-holes : (s : Text) → holes true (double_quotes s) ≡ 0
unfolding holes double_quotes
doubled-holes [] = refl
doubled-holes (c ∷ s) = ground (arith, doubled-holes s)

-- Whatever the name.
pub quote_identifier-Neutral : (name : Text) → Neutral (quote_identifier name) 0
unfolding quote_identifier holes inside
quote_identifier-Neutral name = record {
  outside =
      inside-append true (double_quotes name) (b'"' ∷ [])
      ∙ ap (λ q. inside q (b'"' ∷ [])) (doubled-inside name);
  count =
      holes-append true (double_quotes name) (b'"' ∷ [])
      ∙ ap (λ q. holes true (double_quotes name) + holes q (b'"' ∷ [])) (doubled-inside name)
      ∙ omega (arith, doubled-holes name);
}

pub inert-Neutral :
    (s : Text) → all (λ c. not (c == b'"') && not (c == b'?')) s ≡ true → Neutral s 0
unfolding holes inside
inert-Neutral [] h = record { outside = refl; count = refl }
inert-Neutral (c ∷ s) h =
    let later = inert-Neutral s (ground arith) in
    record { outside = ground (arith, later.outside); count = ground (arith, later.count) }

-- The joined texts of a list, of which each is neutral with `n` placeholders.
module _ {ℓ} {A : Type ℓ} (f : A → Text) (n : ℕ) (sep : Text) where
  pub join-Neutral :
      (xs : List A)
      → Neutral sep 0
      → ((a : A) → Neutral (f a) n)
      → Neutral (join sep (map f xs)) (length xs * n)
  unfolding join
  join-Neutral [] k h = unfold inside holes in record { outside = refl; count = omega arith }
  join-Neutral (x ∷ []) k h = Neutral_cast (f x) n (1 * n) (h x) (omega arith)
  join-Neutral (x ∷ y ∷ xs) k h =
      Neutral_cast _ (n + (0 + length (y ∷ xs) * n)) _
        (Neutral-append (f x) _ n _ (h x) (Neutral-append sep _ 0 _ k (join-Neutral (y ∷ xs) k h)))
        (grind arith)
