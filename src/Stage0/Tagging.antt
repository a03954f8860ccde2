-- ===== src/Stage0/Tagging.antt =====
-- The tags that a model names, among the tags there are (internal/stage0/service.go:
-- resolveSuggestedTags).
pub mod Picks
use role_model.Prelude.{
  ℕ, ◌≡◌, refl, Bool, true, false, List, [], ◌∷◌, ◌++◌, map, any, Option, none, some, ◌==◌,
  if◌then◌else◌,
}
use role_model.GoText.{Str, Unicode, to_lower, trim_space}
use role_model.GoText.Maps.{lookup, assign}
use role_model.Intake.Store.{Tag}
use role_model.Stage0.{SuggestedTag}

abbrev pub suggestion : Tag → SuggestedTag
suggestion t = record { tag_id = t.id; name = t.name; category = t.category }

-- `seen[t.ID]`: the tags seen are those of `out`.
abbrev pub is_picked : ℕ → List SuggestedTag → Bool
is_picked id out = any (λ s. s.tag_id == id) out

abbrev pub pick : Option Tag → List SuggestedTag → List SuggestedTag
pick none out = out
pick (some t) out = if is_picked t.id out then out else out ++ suggestion t ∷ []

unfoldable pub pick_all : List (Str × Tag) → List Str → List SuggestedTag → List SuggestedTag
unfolding lookup
pick_all by_name [] out = out
pick_all by_name (key ∷ keys) out = pick_all by_name keys (pick (lookup key by_name) out)

module _ ⦃u : Unicode⦄ where
  abbrev pub tag_key : Str → Str
  tag_key name = to_lower (trim_space name)

  -- A later tag replaces an earlier one of the same key.
  unfoldable pub tags_by_name : List Tag → List (Str × Tag) → List (Str × Tag)
  unfolding assign
  tags_by_name [] by_name = by_name
  tags_by_name (t ∷ tags) by_name = tags_by_name tags (assign (tag_key t.name) t by_name)

  unfoldable pub resolve_suggested_tags : List Tag → List Str → List SuggestedTag
  unfolding pick_all tags_by_name
  resolve_suggested_tags available names =
      pick_all (tags_by_name available []) (map tag_key names) []
