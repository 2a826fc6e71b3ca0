-- ===== src/StreamImport/Guids.antt =====
-- Lists of guids without repetition, and what a round of the recovery adds to them.
use bunny_cli_fork.Common.{
  true, false, Option, none, some, List, [], ◌∷◌, Text, text_eq, text_eq_refl, eq_of_text_eq,
  is_empty, All, All-imp, if_both, Bool-cases, ◌≡◌, ◌⊎◌, refl, subst, inl, inr, arith,
}
use bunny_cli_fork.StreamImport.Videos.{truthy}
use bunny_cli_fork.StreamImport.Recover.{member, cons_guid}

abbrev pub NoRepeat : List Text → Type 0
NoRepeat [] = Unit
NoRepeat (g ∷ gs) = (member g gs ≡ false) × NoRepeat gs

-- A member of a list differs from what is no member.
differs :
    (g h : Text) (gs : List Text) → member g gs ≡ true → member h gs ≡ false → text_eq g h ≡ false
differs g h gs m n = elim (Bool-cases (text_eq g h)) [
  | inl e ↦ cc (subst (λ t. member t gs ≡ true) (eq_of_text_eq g h e) m, n)
  | inr e ↦ e
]

-- Nothing in a list is the text.
member-none : (t : Text) (gs : List Text) → All (λ g. text_eq g t ≡ false) gs → member t gs ≡ false
unfolding member
member-none t [] h = refl
member-none t (g ∷ gs) (e, h) = ground (arith, member-none t gs h)

member-here : (g : Text) (gs : List Text) → member g (g ∷ gs) ≡ true
unfolding member
member-here g gs = rw (text_eq_refl g) refl

member-there : (t g : Text) (gs : List Text) → member t gs ≡ true → member t (g ∷ gs) ≡ true
unfolding member
member-there t g gs h = ground (arith, h)

member-not_there : (t g : Text) (gs : List Text) → member t (g ∷ gs) ≡ false → member t gs ≡ false
unfolding member
member-not_there t g gs h = ground (arith, h)

-- Every text of the first list is in the second.
abbrev pub Sub : List Text → List Text → Type 0
Sub gs claimed = All (λ g. member g claimed ≡ true) gs

-- Every text is an old one, or was not claimed.
abbrev pub Spread : List Text → List Text → List Text → Type 0
Spread base claimed gs = All (λ g. (member g base ≡ true) ⊎ (member g claimed ≡ false)) gs

-- A text in a list, and one that is not.
apart :
    (g h : Text) (gs : List Text) → member g gs ≡ true → member h gs ≡ false → text_eq h g ≡ false
apart g h gs m n = elim (Bool-cases (text_eq h g)) [
  | inl e ↦ cc (subst (λ t. member t gs ≡ false) (eq_of_text_eq h g e) n, m)
  | inr e ↦ e
]

pub Sub-tail :
    (o : Option Text) (base claimed : List Text) → Sub (cons_guid o base) claimed → Sub base claimed
unfolding cons_guid
Sub-tail none base claimed h = h
Sub-tail (some g) base claimed h = elim (Bool-cases (is_empty g)) [
  | inl e ↦ rw e at h
  | inr e ↦ (rw e at h).1
]

pub NoRepeat-tail :
    (o : Option Text) (base : List Text) → NoRepeat (cons_guid o base) → NoRepeat base
unfolding cons_guid
NoRepeat-tail none base h = h
NoRepeat-tail (some g) base h = elim (Bool-cases (is_empty g)) [
  | inl e ↦ rw e at h
  | inr e ↦ (rw e at h).1
]

member-cons_guid :
    (o : Option Text) (base : List Text) (t : Text)
    → member t base ≡ true
    → member t (cons_guid o base) ≡ true
unfolding cons_guid
member-cons_guid none base t h = h
member-cons_guid (some g) base t h =
    if_both (λ l. member t l ≡ true) (is_empty g) base (g ∷ base) h (member-there t g base h)

Sub-member :
    (base claimed : List Text) (t : Text)
    → Sub base claimed
    → member t base ≡ true
    → member t claimed ≡ true
unfolding member
Sub-member [] claimed t s h = cc h
Sub-member (g ∷ base) claimed t (k, s) h = elim (Bool-cases (text_eq g t)) [
  | inl e ↦ subst (λ u. member u claimed ≡ true) (eq_of_text_eq g t e) k
  | inr e ↦ Sub-member base claimed t s (ground (arith, h, e))
]

-- A kept guid in front.
keep_guid :
    (g : Text) (base claimed gs : List Text)
    → member g base ≡ false
    → member g claimed ≡ true
    → NoRepeat gs
    → Spread base claimed gs
    → NoRepeat (g ∷ gs) × Spread (g ∷ base) claimed (g ∷ gs)
keep_guid g base claimed gs alone known nr spread = (
  (
    member-none g gs (
        All-imp (λ h. (member h base ≡ true) ⊎ (member h claimed ≡ false))
          (λ h. text_eq h g ≡ false)
          (λ h k. elim k [
            | inl old ↦ differs h g base old alone
            | inr new ↦ apart g h claimed known new
          ])
          gs spread),
    nr,
  ),
  (
    inl (member-here g base),
    All-imp (λ h. (member h base ≡ true) ⊎ (member h claimed ≡ false))
        (λ h. (member h (g ∷ base) ≡ true) ⊎ (member h claimed ≡ false))
        (λ h k. elim k [ inl old ↦ inl (member-there h g base old) | inr new ↦ inr new ]) gs spread,
  ),
)

pub keep_option :
    (o : Option Text) (base claimed gs : List Text)
    → NoRepeat (cons_guid o base)
    → Sub (cons_guid o base) claimed
    → NoRepeat gs
    → Spread base claimed gs
    → NoRepeat (cons_guid o gs) × Spread (cons_guid o base) claimed (cons_guid o gs)
unfolding cons_guid
keep_option none base claimed gs n s nr spread = (nr, spread)
keep_option (some g) base claimed gs n s nr spread = elim (Bool-cases (is_empty g)) [
  | inl e ↦ rw e (nr, spread)
  | inr e ↦ rw e (keep_guid g base claimed gs ((rw e at n).0) ((rw e at s).0) nr spread)
]

-- A new guid in front.
pub give_guid :
    (g : Text) (o : Option Text) (base claimed gs : List Text)
    → member g claimed ≡ false
    → Sub base claimed
    → NoRepeat gs
    → Spread base (g ∷ claimed) gs
    → NoRepeat (g ∷ gs) × Spread (cons_guid o base) claimed (g ∷ gs)
give_guid g o base claimed gs new sub nr spread = (
  (
    member-none g gs (
        All-imp (λ h. (member h base ≡ true) ⊎ (member h (g ∷ claimed) ≡ false))
          (λ h. text_eq h g ≡ false)
          (λ h k. elim k [
            | inl old ↦ differs h g claimed (Sub-member base claimed h sub old) new
            | inr fresh ↦ apart g h (g ∷ claimed) (member-here g claimed) fresh
          ])
          gs spread),
    nr,
  ),
  (
    inr new,
    All-imp (λ h. (member h base ≡ true) ⊎ (member h (g ∷ claimed) ≡ false))
        (λ h. (member h (cons_guid o base) ≡ true) ⊎ (member h claimed ≡ false))
        (λ h k. elim k [
          | inl old ↦ inl (member-cons_guid o base h old)
          | inr fresh ↦ inr (member-not_there h g claimed fresh)
        ])
        gs spread,
  ),
)

pub Sub-there : (g : Text) (base claimed : List Text) → Sub base claimed → Sub base (g ∷ claimed)
Sub-there g base claimed s =
    All-imp (λ h. member h claimed ≡ true) (λ h. member h (g ∷ claimed) ≡ true)
      (λ h k. member-there h g claimed k) base s

pub Sub-refl : (gs : List Text) → Sub gs gs
Sub-refl [] = tt
Sub-refl (g ∷ gs) = (member-here g gs, Sub-there g gs gs (Sub-refl gs))

pub cons_guid_full :
    (g : Text) (gs : List Text) → truthy (some g) ≡ true → cons_guid (some g) gs ≡ g ∷ gs
unfolding cons_guid
cons_guid_full g gs h = elim (Bool-cases (is_empty g)) [
  | inl e ↦ absurd (clash (rw e at h))
  | inr e ↦ rw e refl
]
  where
    clash : false ≡ true → ⊥
    clash e = cc e

-- A guid of the base, taken and claimed once more.
pub take_guid :
    (g : Text) (base claimed gs : List Text)
    → member g base ≡ false
    → NoRepeat gs
    → Spread base (g ∷ claimed) gs
    → NoRepeat (g ∷ gs) × Spread (g ∷ base) claimed (g ∷ gs)
take_guid g base claimed gs alone nr spread = (
  (
    member-none g gs (
        All-imp (λ h. (member h base ≡ true) ⊎ (member h (g ∷ claimed) ≡ false))
          (λ h. text_eq h g ≡ false)
          (λ h k. elim k [
            | inl old ↦ differs h g base old alone
            | inr fresh ↦ apart g h (g ∷ claimed) (member-here g claimed) fresh
          ])
          gs spread),
    nr,
  ),
  (
    inl (member-here g base),
    All-imp (λ h. (member h base ≡ true) ⊎ (member h (g ∷ claimed) ≡ false))
        (λ h. (member h (g ∷ base) ≡ true) ⊎ (member h claimed ≡ false))
        (λ h k. elim k [
          | inl old ↦ inl (member-there h g base old)
          | inr fresh ↦ inr (member-not_there h g claimed fresh)
        ])
        gs spread,
  ),
)

-- A guid that is passed over.
pub Spread-cons :
    (o : Option Text) (base claimed gs : List Text)
    → Spread base claimed gs
    → Spread (cons_guid o base) claimed gs
Spread-cons o base claimed gs spread =
    All-imp (λ h. (member h base ≡ true) ⊎ (member h claimed ≡ false))
      (λ h. (member h (cons_guid o base) ≡ true) ⊎ (member h claimed ≡ false))
      (λ h k. elim k [ inl old ↦ inl (member-cons_guid o base h old) | inr new ↦ inr new ]) gs
      spread
