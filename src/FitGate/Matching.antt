-- ===== src/FitGate/Matching.antt =====
-- Matching a term or a label against text (internal/fitgate/scorer.go: matchesTerm, matchesSignal,
-- preferenceMatches).
use role_model.Prelude.{Bool, true, false, ◌||◌, List, [], ◌∷◌, if◌then◌else◌}
use role_model.GoText.{Str, is_empty, Unicode, trim_space}
use role_model.FitGate.Tokens.{contains_phrase}
use role_model.FitGate.Signals.{Preference}

module _ ⦃u : Unicode⦄ where
  -- One direction: a term answers the tag when the tag contains it.
  unfoldable pub matches_term : List Str → Str → Bool
  matches_term [] tag = false
  matches_term (term ∷ terms) tag =
      if is_empty term
      then matches_term terms tag
      else if contains_phrase term tag
      then true
      else matches_term terms tag

  -- Both directions, over every field that is not empty.
  unfoldable pub matches_signal : Str → List Str → Bool
  matches_signal label [] = false
  matches_signal label (f ∷ fields) =
      if is_empty f
      then matches_signal label fields
      else if contains_phrase f label || contains_phrase label f
      then true
      else matches_signal label fields

  unfoldable pub any_alias_matches : List Str → List Str → Bool
  any_alias_matches [] fields = false
  any_alias_matches (alias ∷ aliases) fields =
      if is_empty (trim_space alias)
      then any_alias_matches aliases fields
      else if matches_signal alias fields
      then true
      else any_alias_matches aliases fields

  unfoldable pub preference_matches : Preference → List Str → Bool
  unfolding any_alias_matches
  preference_matches p fields =
      if matches_signal p.label fields then true else any_alias_matches p.aliases fields
