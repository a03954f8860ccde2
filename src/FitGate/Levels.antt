-- ===== src/FitGate/Levels.antt =====
-- The scale of depths (internal/fitgate/scorer.go: LevelScale, NewLevelScale, defaultLevelScale,
-- Rank, requiredLevelFor, strongestProficiency; internal/vocabulary/defaults.go).
-- The Go map is the list of its writes, the latest first; a missing key reads as 0.
pub mod Precedence
pub mod Strongest
use role_model.Prelude.{Bool, true, false, List, [], ◌∷◌, if◌then◌else◌}
use role_model.Prelude.Int.{ℤ, pos, ltb_ℤ, is_zero}
use role_model.GoText.{Str, codes, str_eq, is_empty, Unicode, to_lower, equal_fold, trim_space}
use role_model.FitGate.Signals.{SkillLevel, ProficiencyLevel, SkillTerm}

abbrev pub LevelScale : Type 0
LevelScale = List (Str × ℤ)

unfoldable pub read : Str → LevelScale → ℤ
read k [] = pos 0
read k ((j, v) ∷ scale) = if str_eq j k then v else read k scale

-- scale[key] = rank, unless the key is empty.
unfoldable pub write : Str → ℤ → LevelScale → LevelScale
write key rank scale = if is_empty key then scale else (key, rank) ∷ scale

abbrev pub level_row : Str → ℤ → List Str → ProficiencyLevel
level_row value rank aliases = record { value = value; rank = rank; aliases = aliases }

unfoldable pub default_proficiency_levels : List ProficiencyLevel
default_proficiency_levels =
    level_row (codes "novice") (pos 1)
      (codes "beginner" ∷ codes "familiarity" ∷ codes "exposure" ∷ codes "awareness" ∷ [])
    ∷ level_row (codes "proficient") (pos 2)
        (codes "working knowledge" ∷ codes "solid" ∷ codes "competent" ∷ [])
    ∷ level_row (codes "expert") (pos 3)
        (codes "deep expertise" ∷ codes "advanced" ∷ codes "mastery" ∷ codes "authority" ∷ [])
    ∷ []

module _ ⦃u : Unicode⦄ where
  -- strings.ToLower(strings.TrimSpace(s))
  unfoldable pub level_key : Str → Str
  level_key s = to_lower (trim_space s)

  unfoldable pub write_aliases : ℤ → List Str → LevelScale → LevelScale
  write_aliases rank [] scale = scale
  write_aliases rank (alias ∷ aliases) scale =
      write_aliases rank aliases (write (level_key alias) rank scale)

  unfoldable pub write_all_aliases : List ProficiencyLevel → LevelScale → LevelScale
  write_all_aliases [] scale = scale
  write_all_aliases (r ∷ rows) scale = write_all_aliases rows (write_aliases r.rank r.aliases scale)

  unfoldable pub write_values : List ProficiencyLevel → LevelScale → LevelScale
  write_values [] scale = scale
  write_values (r ∷ rows) scale = write_values rows (write (level_key r.value) r.rank scale)

  unfoldable pub new_level_scale : List ProficiencyLevel → LevelScale
  new_level_scale rows = write_values rows (write_all_aliases rows [])

  -- defaultLevelScale lowers its keys only.
  unfoldable pub default_aliases : ℤ → List Str → LevelScale → LevelScale
  default_aliases rank [] scale = scale
  default_aliases rank (alias ∷ aliases) scale =
      default_aliases rank aliases ((to_lower alias, rank) ∷ scale)

  unfoldable pub default_all_aliases : List ProficiencyLevel → LevelScale → LevelScale
  unfolding default_aliases
  default_all_aliases [] scale = scale
  default_all_aliases (r ∷ rows) scale =
      default_all_aliases rows (default_aliases r.rank r.aliases scale)

  unfoldable pub default_values : List ProficiencyLevel → LevelScale → LevelScale
  default_values [] scale = scale
  default_values (r ∷ rows) scale = default_values rows ((to_lower r.value, r.rank) ∷ scale)

  unfoldable pub default_level_scale : LevelScale
  unfolding default_all_aliases default_values default_proficiency_levels
  default_level_scale =
      default_values default_proficiency_levels (default_all_aliases default_proficiency_levels [])

  -- len(s) == 0 falls back to the default scale.
  abbrev pub or_default : LevelScale → LevelScale
  or_default [] = default_level_scale
  or_default (w ∷ scale) = w ∷ scale

  unfoldable pub rank : LevelScale → Str → ℤ
  rank scale level = read (level_key level) (or_default scale)

  -- The stated level and the posting's words for it; both empty when no depth was stated.
  unfoldable pub required_level_for : Str → List SkillLevel → LevelScale → Str × Str
  required_level_for entry [] levels = ([], [])
  required_level_for entry (sl ∷ stated) levels =
      let later = required_level_for entry stated levels in
      if equal_fold (trim_space sl.requirement) (trim_space entry)
      then (if is_zero (rank levels sl.level) then ([], []) else (sl.level, sl.signal))
      else later

  unfoldable pub strongest_from : Str → List SkillTerm → LevelScale → Str
  strongest_from best [] levels = best
  strongest_from best (s ∷ evidence) levels =
      strongest_from
        (if ltb_ℤ (rank levels best) (rank levels s.proficiency) then s.proficiency else best)
        evidence levels

  unfoldable pub strongest_proficiency : List SkillTerm → LevelScale → Str
  unfolding strongest_from
  strongest_proficiency evidence levels = strongest_from [] evidence levels
