-- ===== src/Cli/Edits.antt =====
-- Edits of one text into another, their number, and the least number of edits by recursion.
use bunny_cli_fork.Common.{
  ℕ, suc, ◌+◌, ◌≤◌, [], ◌∷◌, ◌++◌, reverse, reverse-append, append-nil, ◌==◌, leb, Text, length,
  ◌≡◌, ◌⊎◌, refl, sym, subst, Bool-cases, inl, inr, arith, ==→eq,
}
use bunny_cli_fork.Cli.Distance.{least_of, cost}

-- A text turned into another by so many single-unit deletions, insertions and replacements.
pub data Edits : Text → Text → ℕ → Type 0 where
  finished : Edits [] [] 0
  keep : {c : ℕ} {s t : Text} {n : ℕ} → Edits s t n → Edits (c ∷ s) (c ∷ t) n
  delete : {c : ℕ} {s t : Text} {n : ℕ} → Edits s t n → Edits (c ∷ s) t (suc n)
  insert : {c : ℕ} {s t : Text} {n : ℕ} → Edits s t n → Edits s (c ∷ t) (suc n)
  replace : {c d : ℕ} {s t : Text} {n : ℕ} → Edits s t n → Edits (c ∷ s) (d ∷ t) (suc n)

-- The least number, by the first units of the two texts.
unfoldable pub least : Text → Text → ℕ
unfolding least_of cost
least [] t = length t
least (c ∷ s) [] = suc (length s)
least (c ∷ s) (d ∷ t) = least_of (least s (d ∷ t) + 1) (least (c ∷ s) t + 1) (least s t + cost c d)

least_of-lower : (a b c : ℕ) → (least_of a b c ≤ a) × (least_of a b c ≤ b) × (least_of a b c ≤ c)
unfolding least_of
least_of-lower a b c = (ground arith, ground arith, ground arith)

least-left_empty : (s : Text) → least s [] ≡ length s
unfolding least
least-left_empty [] = refl
least-left_empty (c ∷ s) = refl

least-keep : (c : ℕ) (s t : Text) → least (c ∷ s) (c ∷ t) ≤ least s t
unfolding least cost
least-keep c s t =
    let (x, y, z) =
      least_of-lower (least s (c ∷ t) + 1) (least (c ∷ s) t + 1) (least s t + cost c c) in
    ground (arith, z)

least-replace : (c d : ℕ) (s t : Text) → least (c ∷ s) (d ∷ t) ≤ suc (least s t)
unfolding least cost
least-replace c d s t =
    let (x, y, z) =
      least_of-lower (least s (d ∷ t) + 1) (least (c ∷ s) t + 1) (least s t + cost c d) in
    ground (arith, z)

least-delete : (c : ℕ) (s t : Text) → least (c ∷ s) t ≤ suc (least s t)
unfolding least
least-delete c s [] = omega (arith, least-left_empty s)
least-delete c s (d ∷ t) =
    let (x, y, z) =
      least_of-lower (least s (d ∷ t) + 1) (least (c ∷ s) t + 1) (least s t + cost c d) in
    omega (arith, x)

least-insert : (d : ℕ) (s t : Text) → least s (d ∷ t) ≤ suc (least s t)
unfolding least
least-insert d [] t = omega arith
least-insert d (c ∷ s) t =
    let (x, y, z) =
      least_of-lower (least s (d ∷ t) + 1) (least (c ∷ s) t + 1) (least s t + cost c d) in
    omega (arith, y)

-- No sequence of edits is shorter.
pub least-below : (s t : Text) (n : ℕ) → Edits s t n → least s t ≤ n
least-below _ _ _ finished = unfold least in omega arith
least-below _ _ _ (keep {c = c} {s = s} {t = t} e) =
    omega (arith, least-keep c s t, least-below s t _ e)
least-below _ _ _ (delete {c = c} {s = s} {t = t} e) =
    omega (arith, least-delete c s t, least-below s t _ e)
least-below _ _ _ (insert {c = c} {s = s} {t = t} e) =
    omega (arith, least-insert c s t, least-below s t _ e)
least-below _ _ _ (replace {c = c} {d = d} {s = s} {t = t} e) =
    omega (arith, least-replace c d s t, least-below s t _ e)

least_of-cases : (a b c : ℕ) → (least_of a b c ≡ a) ⊎ ((least_of a b c ≡ b) ⊎ (least_of a b c ≡ c))
unfolding least_of
least_of-cases a b c = elim (Bool-cases (leb a b)) [
  | inl h ↦
      rw h (elim (Bool-cases (leb a c)) [ inl k ↦ rw k (inl refl) | inr k ↦ rw k (inr (inr refl)) ])
  | inr h ↦ rw h (elim (Bool-cases (leb b c)) [
    | inl k ↦ rw k (inr (inl refl))
    | inr k ↦ rw k (inr (inr refl))
  ])
]

insert_all : (t : Text) → Edits [] t (length t)
insert_all [] = finished
insert_all (c ∷ t) = insert (insert_all t)

delete_all : (s : Text) → Edits s [] (length s)
delete_all [] = finished
delete_all (c ∷ s) = delete (delete_all s)

diagonal : (c d : ℕ) (s t : Text) (n : ℕ) → Edits s t n → Edits (c ∷ s) (d ∷ t) (n + cost c d)
unfolding cost
diagonal c d s t n e = elim (Bool-cases (c == d)) [
  | inl h ↦ rw h (
      subst (λ (m : ℕ). Edits (c ∷ s) (d ∷ t) m) (omega arith)
        (subst (λ x. Edits (c ∷ s) (x ∷ t) n) (==→eq c d h) (keep e)))
  | inr h ↦ rw h (subst (λ (m : ℕ). Edits (c ∷ s) (d ∷ t) m) (omega arith) (replace e))
]

-- The least number is that of a sequence of edits.
pub least-Edits : (s t : Text) → Edits s t (least s t)
unfolding least
least-Edits [] t = insert_all t
least-Edits (c ∷ s) [] = delete_all (c ∷ s)
least-Edits (c ∷ s) (d ∷ t) =
    let across = least-Edits s t in
    let down = least-Edits s (d ∷ t) in
    let along = least-Edits (c ∷ s) t in
    elim (least_of-cases (least s (d ∷ t) + 1) (least (c ∷ s) t + 1) (least s t + cost c d)) [
      | inl e ↦ subst (λ m. Edits (c ∷ s) (d ∷ t) m) (omega (arith, e)) (delete {c = c} down)
      | inr f ↦ elim f [
        | inl e ↦ subst (λ m. Edits (c ∷ s) (d ∷ t) m) (omega (arith, e)) (insert {c = d} along)
        | inr e ↦ subst (λ m. Edits (c ∷ s) (d ∷ t) m) (sym e) (diagonal c d s t (least s t) across)
      ]
    ]

Edits-append :
    (s t u v : Text) (m n : ℕ) → Edits s t m → Edits u v n → Edits (s ++ u) (t ++ v) (m + n)
Edits-append _ _ u v _ n finished k = subst (λ x. Edits u v x) (omega arith) k
Edits-append _ _ u v _ n (keep {s = s} {t = t} e) k = keep (Edits-append s t u v _ n e k)
Edits-append _ _ u v _ n (delete {c = c} {s = s} {t = t} {n = m} e) k =
    subst (λ x. Edits (c ∷ s ++ u) (t ++ v) x) (omega arith)
      (delete {c = c} (Edits-append s t u v m n e k))
Edits-append _ _ u v _ n (insert {c = c} {s = s} {t = t} {n = m} e) k =
    subst (λ x. Edits (s ++ u) (c ∷ t ++ v) x) (omega arith)
      (insert {c = c} (Edits-append s t u v m n e k))
Edits-append _ _ u v _ n (replace {c = c} {d = d} {s = s} {t = t} {n = m} e) k =
    subst (λ x. Edits (c ∷ s ++ u) (d ∷ t ++ v) x) (omega arith)
      (replace {c = c} {d = d} (Edits-append s t u v m n e k))

reverse_first : (c : ℕ) (s : Text) → reverse s ++ c ∷ [] ≡ reverse (c ∷ s)
reverse_first c s = sym (reverse-append (c ∷ []) s)

-- A last unit that is edited by itself.
Edits-last :
    (a b s t : Text) (m n p : ℕ)
    → n + m ≡ p
    → Edits (reverse s) (reverse t) n
    → Edits a b m
    → Edits (reverse s ++ a) (reverse t ++ b) p
Edits-last a b s t m n p h e k =
    subst (λ x. Edits (reverse s ++ a) (reverse t ++ b) x) h
      (Edits-append (reverse s) (reverse t) a b n m e k)

-- The edits in the opposite order.
pub Edits-reverse : (s t : Text) (n : ℕ) → Edits s t n → Edits (reverse s) (reverse t) n
Edits-reverse _ _ _ finished = finished
Edits-reverse _ _ _ (keep {c = c} {s = s} {t = t} {n = n} e) =
    rw (← reverse_first c s, ← reverse_first c t)
      (Edits-last (c ∷ []) (c ∷ []) s t 0 n n (omega arith) (Edits-reverse s t n e) (keep finished))
Edits-reverse _ _ _ (delete {c = c} {s = s} {t = t} {n = n} e) =
    subst (λ x. Edits x (reverse t) (suc n)) (reverse_first c s)
      (subst (λ x. Edits (reverse s ++ c ∷ []) x (suc n)) (append-nil (reverse t))
        (Edits-last (c ∷ []) [] s t 1 n (suc n) (omega arith) (Edits-reverse s t n e)
          (delete finished)))
Edits-reverse _ _ _ (insert {c = c} {s = s} {t = t} {n = n} e) =
    subst (λ x. Edits (reverse s) x (suc n)) (reverse_first c t)
      (subst (λ x. Edits x (reverse t ++ c ∷ []) (suc n)) (append-nil (reverse s))
        (Edits-last [] (c ∷ []) s t 1 n (suc n) (omega arith) (Edits-reverse s t n e)
          (insert finished)))
Edits-reverse _ _ _ (replace {c = c} {d = d} {s = s} {t = t} {n = n} e) =
    rw (← reverse_first c s, ← reverse_first d t)
      (Edits-last (c ∷ []) (d ∷ []) s t 1 n (suc n) (omega arith) (Edits-reverse s t n e)
        (replace finished))
