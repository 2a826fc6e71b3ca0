-- ===== src/Rest/Auth.antt =====
-- packages/database-rest/src/auth.ts. `Buffer.from` and `timingSafeEqual` are Node's: the bytes of a
-- text are a parameter, and two byte sequences compare as they stand.
pub mod Cookies
pub mod Laws
use bunny_cli_fork.Common.{
  ℕ, zero, suc, Bool, true, false, not, ◌&&◌, Option, none, some, List, [], ◌∷◌, ◌==◌,
  if◌then◌else◌, Text, codes, text_eq, index_of, take, drop, split, trim, to_lower, is_empty,
  length,
}

pub record Credentials : Type 0 where
  pub pathname : Text
  pub authorization : Option Text
  pub cookie : Option Text

pub record RequireAuthOptions : Type 0 where
  pub token : Text
  pub cookie_name : Option Text
  pub is_public : Option (Text → Bool)

-- The loop of `extractCookie` over the pairs of the header.
unfoldable pub find_cookie : Text → List Text → Option Text
find_cookie name [] = none
find_cookie name (pair ∷ pairs) =
    let trimmed = trim pair in
    let later = find_cookie name pairs in
    elim (index_of b'=' trimmed) [
      | none ↦ later
      | some eq ↦ if text_eq (take eq trimmed) name then some (drop (suc eq) trimmed) else later
    ]

unfoldable pub extract_cookie : Option Text → Text → Option Text
extract_cookie none name = none
extract_cookie (some header) name =
    if is_empty header then none else find_cookie name (split b';' header)

module _ (bytes : Text → List ℕ) where
  unfoldable pub safe_equal : Text → Text → Bool
  safe_equal a b =
      if not (length (bytes a) == length (bytes b)) then false else text_eq (bytes a) (bytes b)

  -- The header behind `if (authHeader)`.
  unfoldable pub bearer_ok : Text → Text → Bool
  bearer_ok token header = elim (index_of 32 header) [
    | none ↦ false
    | some zero ↦ false
    | some (suc i) ↦
        let presented = trim (drop (suc (suc i)) header) in
        text_eq (to_lower (take (suc i) header)) (codes "bearer")
        && not (is_empty presented)
        && safe_equal presented token
  ]

  unfoldable pub header_ok : Text → Option Text → Bool
  header_ok token none = false
  header_ok token (some header) = bearer_ok token header

  unfoldable pub cookie_value_ok : Text → Option Text → Bool
  cookie_value_ok token none = false
  cookie_value_ok token (some v) = not (is_empty v) && safe_equal v token

  unfoldable pub cookie_ok : RequireAuthOptions → Option Text → Bool
  cookie_ok options header = elim options.cookie_name [
    | none ↦ false
    | some name ↦
        if is_empty name then false else cookie_value_ok options.token (extract_cookie header name)
  ]

  unfoldable pub public_ok : RequireAuthOptions → Text → Bool
  public_ok options pathname = elim options.is_public [ none ↦ false | some f ↦ f pathname ]

  -- `none` is `unauthorized()`.
  unfoldable pub require_auth :
      {R : Type 0} → (Credentials → R) → RequireAuthOptions → Credentials → Option R
  require_auth handler options req =
      if public_ok options req.pathname
      then some (handler req)
      else if header_ok options.token req.authorization
      then some (handler req)
      else if cookie_ok options req.cookie
      then some (handler req)
      else none
