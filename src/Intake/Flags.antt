-- ===== src/Intake/Flags.antt =====
-- The review flags on new skill categories (internal/intake/flags.go: hasSharedToken, isCrowded,
-- the collecting loop of crowdedBatchCategories, categoryIsNew). A Go map used as a set is the list
-- of the keys put into it.
pub mod Shared
use role_model.Prelude.{
  ℕ, Bool, true, false, ◌&&◌, ◌||◌, List, [], ◌∷◌, ◌++◌, map, any, ltb, if◌then◌else◌, length,
}
use role_model.GoText.{Str, str_eq, byte_len, is_empty, Unicode, to_lower, trim_space, equal_fold}
use role_model.Intake.Collisions.{token_bag, sort}

abbrev pub crowded_category_limit : ℕ
crowded_category_limit = 8

abbrev pub is_seen : List Str → Str → Bool
is_seen seen token = any (λ s. str_eq s token) seen

-- The inner loop of hasSharedToken: whether it returns true, and what it has put into `seen`.
unfoldable pub scan_tokens : List Str → List Str → List Str → Bool × List Str
scan_tokens local seen [] = (false, seen)
scan_tokens local seen (token ∷ tokens) =
    let skipped = scan_tokens local seen tokens in
    let taken = scan_tokens (token ∷ local) (token ∷ seen) tokens in
    if ltb (byte_len token) 4 || is_seen local token
    then skipped
    else if is_seen seen token
    then (true, seen)
    else taken

module _ ⦃u : Unicode⦄ where
  unfoldable pub shared_from : List Str → List Str → Bool
  shared_from seen [] = false
  shared_from seen (name ∷ names) =
      let (found, seen') = scan_tokens [] seen (token_bag name) in
      let rest = shared_from seen' names in if found then true else rest

  unfoldable pub has_shared_token : List Str → Bool
  has_shared_token names = shared_from [] names

  unfoldable pub is_crowded : List Str → Bool
  is_crowded proposed = ltb crowded_category_limit (length proposed) || has_shared_token proposed

  -- The loop over the categories of the skills of a batch: `known` is `have` with `seen`.
  unfoldable pub propose : List Str → List Str → List Str
  propose known [] = []
  propose known (category ∷ categories) =
      let name = trim_space category in
      let key = to_lower name in
      let passed = propose known categories in
      let added = name ∷ propose (key ∷ known) categories in
      if is_empty name || is_seen known key then passed else added

  -- Every new category of the batch if they are crowded, sorted; otherwise none.
  unfoldable pub crowded_categories : List Str → List Str → List Str
  crowded_categories existing categories =
      let proposed = propose (map (λ c. to_lower (trim_space c)) existing) categories in
      if is_crowded proposed then sort proposed else []

  unfoldable pub category_is_new : Str → List Str → Bool
  category_is_new name existing =
      if is_empty name then false else if any (λ c. equal_fold c name) existing then false else true
