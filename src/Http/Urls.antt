-- ===== src/Http/Urls.antt =====
-- packages/stream-import/src/sanitize.ts, trimTrailingSlashes, and the address that http.ts builds.
use bunny_cli_fork.Common.{
  ℕ, zero, suc, Bool, true, false, ◌&&◌, not, Option, none, some, List, [], ◌∷◌, ◌++◌,
  if◌then◌else◌, ◌==◌, Text, codes, to_lower, starts_with, take, length,
}

-- input[i]
unfoldable pub unit_at : ℕ → Text → Option ℕ
unit_at i [] = none
unit_at zero (a ∷ s) = some a
unit_at (suc i) (a ∷ s) = unit_at i s

unfoldable pub is_slash_unit : Option ℕ → Bool
is_slash_unit none = false
is_slash_unit (some c) = c == b'/'

-- input[i] === "/"
unfoldable pub is_slash_at : ℕ → Text → Bool
unfolding unit_at is_slash_unit
is_slash_at i s = is_slash_unit (unit_at i s)

-- Where the loop stops that goes down from `end`.
unfoldable pub slash_end : ℕ → Text → ℕ
unfolding is_slash_at
slash_end zero s = zero
slash_end (suc end) s =
    let earlier = slash_end end s in if is_slash_at end s then earlier else suc end

unfoldable pub trim_trailing_slashes : Text → Text
unfolding slash_end
trim_trailing_slashes s = take (slash_end (length s) s) s

-- /^https?:\/\//i
unfoldable pub is_absolute : Text → Bool
unfolding starts_with to_lower
is_absolute path =
    let l = to_lower path in
    if starts_with l (codes "https://") then true else starts_with l (codes "http://")

-- The text that `new URL` is given.
unfoldable pub address : Text → Text → Text
unfolding is_absolute trim_trailing_slashes
address base path =
    if is_absolute path
    then path
    else trim_trailing_slashes base
      ++ ((if not (is_empty_path path) && not (starts_with path (codes "/")) then codes "/" else [])
          ++ path)
  where
    is_empty_path : Text → Bool
    is_empty_path [] = true
    is_empty_path (c ∷ s) = false

-- The query parameters that are not undefined; `set` stands for `url.searchParams.set`.
unfoldable pub with_params {ℓ} :
    {U : Type ℓ} → (Text → Text → U → U) → List (Text × Option Text) → U → U
with_params set [] url = url
with_params set ((k, none) ∷ ps) url = with_params set ps url
with_params set ((k, some v) ∷ ps) url = with_params set ps (set k v url)
