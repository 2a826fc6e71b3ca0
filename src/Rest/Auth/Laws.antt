-- ===== src/Rest/Auth/Laws.antt =====
-- Who gets past `requireAuth`.
use bunny_cli_fork.Common.{
  ℕ, zero, suc, true, false, not, Option, none, some, List, [], ◌∷◌, ◌++◌, Text, codes, text_eq,
  text_eq_refl, eq_of_text_eq, index_of, trim, to_lower, is_empty, take-append, drop_past,
  Bool-cases, &&-split, &&-join, ◌≡◌, ◌≢◌, ◌⊎◌, ◌↔◌, refl, sym, ap, ◌∙◌, inl, inr, arith,
}
use bunny_cli_fork.Common.Find.{Lacks, index_of-Cut, index_of-append}
use bunny_cli_fork.Rest.Auth.Cookies.{Sends, extract_cookie-Sends, Sends-extract_cookie}
use bunny_cli_fork.Rest.Auth.{
  Credentials, RequireAuthOptions, extract_cookie, safe_equal, bearer_ok, header_ok,
  cookie_value_ok, cookie_ok, public_ok, require_auth,
}

module _ (bytes : Text → List ℕ) where
  -- The header is `Bearer <token>` in any case, with white space round the token, and the token's
  -- bytes are the secret's.
  pub record IsBearer (token header : Text) : Type 0 where
    pub scheme : Text
    pub rest : Text
    pub whole : header ≡ scheme ++ 32 ∷ rest
    pub one_word : Lacks 32 scheme
    pub bearer : to_lower scheme ≡ codes "bearer"
    pub present : trim rest ≢ []
    pub secret : bytes (trim rest) ≡ bytes token

  -- The header's first cookie of the configured name has the secret's bytes.
  pub record IsCookie (options : RequireAuthOptions) (header : Option Text) : Type 0 where
    pub name : Text
    pub named : options.cookie_name ≡ some name
    pub set : name ≢ []
    pub content : Text
    pub sent : Sends header name content
    pub present : content ≢ []
    pub secret : bytes content ≡ bytes options.token

  -- The three ways in.
  abbrev pub Admitted : RequireAuthOptions → Credentials → Type 0
  Admitted options req =
      (public_ok bytes options req.pathname ≡ true)
      ⊎ ((header : Text) × (req.authorization ≡ some header) × IsBearer options.token header)
      ⊎ IsCookie options req.cookie

  not_empty : (s : Text) → not (is_empty s) ≡ true → s ≢ []
  not_empty [] h = cc h
  not_empty (c ∷ s) h = λ e. cc e

  is_not_empty : (s : Text) → s ≢ [] → is_empty s ≡ false
  is_not_empty [] h = absurd (h refl)
  is_not_empty (c ∷ s) h = refl

  safe_equal-eq : (a b : Text) → safe_equal bytes a b ≡ true → bytes a ≡ bytes b
  unfolding safe_equal
  safe_equal-eq a b h = eq_of_text_eq (bytes a) (bytes b) (ground arith)

  safe_equal_of_eq : (a b : Text) → bytes a ≡ bytes b → safe_equal bytes a b ≡ true
  unfolding safe_equal
  safe_equal_of_eq a b e = rw e (ground (arith, text_eq_refl (bytes b)))

  IsBearer-sound :
      (token header : Text) → bearer_ok bytes token header ≡ true → IsBearer token header
  unfolding bearer_ok
  IsBearer-sound token header h = go (index_of 32 header) refl
    where
      go : (o : Option ℕ) → index_of 32 header ≡ o → IsBearer token header
      go none e = cc (rw (e, bearer_ok) at h)
      go (some zero) e = cc (rw (e, bearer_ok) at h)
      go (some (suc i)) e =
          let k = index_of-Cut 32 header (suc i) e in
          let tests = rw (e, bearer_ok) at h in
          let outer = &&-split _ _ tests in
          let inner = &&-split _ _ outer.0 in
          record {
            scheme = k.before;
            rest = k.after;
            whole = k.whole;
            one_word = k.first;
            bearer = ap to_lower (sym k.taken) ∙ eq_of_text_eq _ _ inner.0;
            present = rw (← k.dropped) (not_empty _ inner.1);
            secret = rw (← k.dropped) (safe_equal-eq _ _ outer.1);
          }

  no_scheme : to_lower [] ≢ codes "bearer"
  unfolding to_lower
  no_scheme e = cc e

  bearer_complete :
      (token scheme rest : Text)
      → Lacks 32 scheme
      → to_lower scheme ≡ codes "bearer"
      → trim rest ≢ []
      → bytes (trim rest) ≡ bytes token
      → bearer_ok bytes token (scheme ++ 32 ∷ rest) ≡ true
  unfolding bearer_ok text_eq safe_equal
  bearer_complete token [] rest w b n e = absurd (no_scheme b)
  bearer_complete token (a ∷ s) rest w b n e =
      rw (index_of-append 32 (a ∷ s) rest w, bearer_ok)
        (rw
          (
            take-append (a ∷ s) (32 ∷ rest),
            drop_past (a ∷ s) 32 rest,
            b,
            is_not_empty (trim rest) n,
          )
          (&&-join _ _ refl (safe_equal_of_eq (trim rest) token e)))

  header_iff :
      (token : Text) (header : Option Text)
      → (header_ok bytes token header ≡ true) ↔ ((h : Text) × (header ≡ some h) × IsBearer token h)
  unfolding header_ok
  header_iff token none = (λ h. cc h, λ (h, e, k). cc e)
  header_iff token (some header) = (
    λ h. (header, refl, IsBearer-sound token header h),
    λ (h, e, k).
        let same : header ≡ h = cc e in
        rw (same, k.whole)
          (bearer_complete token k.scheme k.rest k.one_word k.bearer k.present k.secret),
  )

  IsCookie-sound :
      (options : RequireAuthOptions) (header : Option Text) (name : Option Text)
      → options.cookie_name ≡ name
      → cookie_ok bytes options header ≡ true
      → IsCookie options header
  unfolding cookie_ok cookie_value_ok
  IsCookie-sound options header none n h = cc (rw (n, cookie_ok) at h)
  IsCookie-sound options header (some name) n h = elim (Bool-cases (is_empty name)) [
    | inl e ↦ cc (rw (n, e, cookie_ok) at h)
    | inr e ↦ go (extract_cookie header name) refl (rw (n, e, cookie_ok) at h)
  ]
    where
      go :
          (o : Option Text)
          → extract_cookie header name ≡ o
          → cookie_value_ok bytes options.token (extract_cookie header name) ≡ true
          → IsCookie options header
      go none e h' = cc (rw (e, cookie_value_ok) at h')
      go (some v) e h' =
          let tests = &&-split _ _ (rw (e, cookie_value_ok) at h') in
          record {
            name = name;
            named = n;
            set = not_empty name (ground arith);
            content = v;
            sent = extract_cookie-Sends header name v e;
            present = not_empty v tests.0;
            secret = safe_equal-eq v options.token tests.1;
          }

  cookie_complete :
      (options : RequireAuthOptions) (header : Option Text)
      → IsCookie options header
      → cookie_ok bytes options header ≡ true
  unfolding cookie_ok cookie_value_ok
  cookie_complete options header k =
      rw (k.named, cookie_ok)
        (rw
          (
            is_not_empty k.name k.set,
            Sends-extract_cookie header k.name k.content k.sent,
            cookie_value_ok,
          )
          (rw (is_not_empty k.content k.present)
            (safe_equal_of_eq k.content options.token k.secret)))

  -- The wrapped handler is called exactly for a public path, for a bearer token whose bytes are the
  -- secret's, and where the first cookie with the configured name has those bytes and is not empty;
  -- every other request is refused.
  pub require_auth_iff :
      {R : Type 0} (handler : Credentials → R) (options : RequireAuthOptions) (req : Credentials)
      → (require_auth bytes handler options req ≡ some (handler req)) ↔ Admitted options req
  unfolding require_auth
  require_auth_iff handler options req = elim (Bool-cases (public_ok bytes options req.pathname)) [
    | inl a ↦ (λ _. inl a, λ _. rw (a, require_auth))
    | inr a ↦ elim (Bool-cases (header_ok bytes options.token req.authorization)) [
      | inl b ↦ (
        λ _. inr (inl ((header_iff options.token req.authorization).0 b)),
        λ _. rw (a, b, require_auth),
      )
      | inr b ↦ elim (Bool-cases (cookie_ok bytes options req.cookie)) [
        | inl c ↦ (
          λ _. inr (inr (IsCookie-sound options req.cookie options.cookie_name refl c)),
          λ _. rw (a, b, c, require_auth),
        )
        | inr c ↦ (
          λ h. cc (rw (a, b, c, require_auth) at h),
          λ (m : Admitted options req). elim m [
            | inl a' ↦ cc (a, a')
            | inr (inl k) ↦ cc (b, (header_iff options.token req.authorization).1 k)
            | inr (inr k) ↦ cc (c, cookie_complete options req.cookie k)
          ],
        )
      ]
    ]
  ]
