-- ===== src/Intake/Collisions.antt =====
-- Preference labels that fire on the same posting (internal/intake/collision.go).
-- sort.Strings compares bytes, which for UTF-8 is comparing runes.
pub mod Bags
pub mod Symmetry
pub mod Runs
use role_model.Prelude.{
  ℕ, zero, suc, Bool, true, false, not, ◌&&◌, ◌||◌, List, [], ◌∷◌, ltb, leb, ◌==◌, if◌then◌else◌,
  length, Option, none, some,
}
use role_model.GoText.{Str, str_eq, fields_func, Unicode, to_lower}

pub data CollisionReason : Type 0 where
  same_label same_words contained : CollisionReason

pub record PreferenceCollision : Type 0 where
  pub existing : Str
  pub reason : CollisionReason

-- Runs of different lengths differ where the shorter one ends.
unfoldable pub equal_runs : List Str → List Str → Bool
equal_runs [] [] = true
equal_runs [] (t ∷ ts) = false
equal_runs (s ∷ ss) [] = false
equal_runs (s ∷ ss) (t ∷ ts) = if str_eq s t then equal_runs ss ts else false

unfoldable pub str_leb : Str → Str → Bool
str_leb [] t = true
str_leb (a ∷ s) [] = false
str_leb (a ∷ s) (b ∷ t) = ltb a b || (a == b && str_leb s t)

unfoldable pub insert : Str → List Str → List Str
insert s [] = s ∷ []
insert s (t ∷ ts) = if str_leb s t then s ∷ t ∷ ts else t ∷ insert s ts

-- sort.Strings: any sorting gives this list, since the order is total.
unfoldable pub sort : List Str → List Str
sort [] = []
sort (s ∷ ss) = insert s (sort ss)

unfoldable pub equal_bags : List Str → List Str → Bool
equal_bags a b = if not (length a == length b) then false else equal_runs (sort a) (sort b)

-- The inner loop of containsRun, from one position on.
unfoldable pub match_at : List Str → List Str → Bool
match_at haystack [] = true
match_at [] (n ∷ needle) = false
match_at (h ∷ haystack) (n ∷ needle) = if str_eq h n then match_at haystack needle else false

-- The outer loop: `i+len(needle) <= len(haystack)`.
unfoldable pub match_from : List Str → List Str → Bool
match_from [] needle = false
match_from (h ∷ haystack) needle =
    let rest = match_from haystack needle in
    if leb (length needle) (length (h ∷ haystack))
    then (if match_at (h ∷ haystack) needle then true else rest)
    else false

unfoldable pub contains_run : List Str → List Str → Bool
contains_run haystack needle =
    if length needle == 0 || ltb (length haystack) (length needle)
    then false
    else match_from haystack needle

-- The reason to report a label with these tokens, if there is one.
unfoldable pub collision_reason : List Str → List Str → Option CollisionReason
collision_reason bag other =
    if length other == 0
    then none
    else if equal_runs bag other
    then some same_label
    else if equal_bags bag other
    then some same_words
    else if contains_run bag other || contains_run other bag
    then some contained
    else none

module _ ⦃u : Unicode⦄ where
  unfoldable pub token_bag : Str → List Str
  token_bag s = fields_func (λ r. not (u.is_letter r) && not (u.is_digit r)) (to_lower s)

  unfoldable pub collisions_with : List Str → List Str → List PreferenceCollision
  collisions_with bag [] = []
  collisions_with bag (other ∷ existing) = elim (collision_reason bag (token_bag other)) [
    | none ↦ collisions_with bag existing
    | some reason ↦ record { existing = other; reason = reason } ∷ collisions_with bag existing
  ]

  unfoldable pub check_preference_label : Str → List Str → List PreferenceCollision
  check_preference_label label existing =
      let bag = token_bag label in if length bag == 0 then [] else collisions_with bag existing
