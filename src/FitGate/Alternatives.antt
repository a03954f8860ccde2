-- ===== src/FitGate/Alternatives.antt =====
-- Interchangeable alternatives in one entry of a posting, and entries that restate a part of
-- another (internal/fitgate/scorer.go: splitAlternatives, collapseSubsumed, isSubset).
-- A Go map used as a set is the list of its distinct keys.
pub mod RoundTrip
pub mod Reference
pub mod Collapse
use role_model.Prelude.{
  ℕ, suc, Bool, true, false, not, ◌&&◌, ◌||◌, List, [], ◌∷◌, ltb, ◌==◌, if◌then◌else◌, length, any,
  all, map,
}
use role_model.GoText.{Str, codes, str_eq, is_empty, split, Unicode, to_lower, trim_space}

abbrev pub alternatives_delimiter : Str
alternatives_delimiter = codes " | "

abbrev pub has : List Str → Str → Bool
has keys k = any (λ j. str_eq j k) keys

abbrev pub add_key : Str → List Str → List Str
add_key k keys = if has keys k then keys else k ∷ keys

unfoldable pub key_set : List Str → List Str
key_set [] = []
key_set (k ∷ ks) = add_key k (key_set ks)

unfoldable pub is_subset : List Str → List Str → Bool
is_subset a b = all (λ k. has b k) a

-- The inner loop of collapseSubsumed: `j` counts the groups that it has passed.
unfoldable pub subsumed_from : ℕ → List Str → ℕ → List (List Str) → Bool
subsumed_from i g j [] = false
subsumed_from i g j (h ∷ hs) =
    (not (i == j) && ltb (length g) (length h) && is_subset g h) || subsumed_from i g (suc j) hs

module _ ⦃u : Unicode⦄ where
  unfoldable pub trim_parts : List Str → List Str
  trim_parts [] = []
  trim_parts (part ∷ parts) =
      let trimmed = trim_space part in
      if is_empty trimmed then trim_parts parts else trimmed ∷ trim_parts parts

  unfoldable pub split_alternatives : Str → List Str
  unfolding trim_parts
  split_alternatives entry = trim_parts (split entry alternatives_delimiter)

  -- groups[i]: the lower-cased alternatives of an entry.
  unfoldable pub group_of : Str → List Str
  group_of entry = key_set (map to_lower (split_alternatives entry))

  unfoldable pub collapse_from : List (List Str) → ℕ → List Str → List Str
  unfolding subsumed_from
  collapse_from groups i [] = []
  collapse_from groups i (e ∷ es) =
      let g = group_of e in
      let rest = collapse_from groups (suc i) es in
      if length g == 0 then rest else if subsumed_from i g 0 groups then rest else e ∷ rest

  unfoldable pub collapse_subsumed : List Str → List Str
  unfolding collapse_from
  collapse_subsumed entries = collapse_from (map group_of entries) 0 entries
