-- ===== src/Generation/Ladder.antt =====
-- How much is written and at what altitude: the levers of a posting's seniority
-- (internal/generation/generate.go: seniorityLevers, pickCareerLevel, defaultCareerLevelRows).
-- Reading the signals may fail, and so may the listing of the levels.
pub mod Choice
use role_model.Prelude.{
  Bool, true, false, ◌||◌, List, [], ◌∷◌, any, Option, none, some, if◌then◌else◌,
}
use role_model.Prelude.Results.{Result, ok, err, ◌>>=◌}
use role_model.GoText.{Str, str_eq, is_empty, Unicode}
use role_model.FitGate.Signals.{JdSignals}
use role_model.FitGate.Levels.{level_key}
use role_model.Vocabulary.{CareerLevel, Framings, default_career_levels}

pub data LeverError : Type 0 where
  bad_signals list_failed : LeverError
  no_level : Str → LeverError

unfoldable pub first_level : (CareerLevel → Bool) → List CareerLevel → Option CareerLevel
first_level p [] = none
first_level p (l ∷ levels) = if p l then some l else first_level p levels

abbrev pub or_else : Option CareerLevel → Option CareerLevel → Option CareerLevel
or_else none other = other
or_else (some l) other = some l

abbrev pub fallback_level : List CareerLevel → Option CareerLevel
fallback_level levels = first_level (λ l. l.is_fallback) levels

module _ ⦃u : Unicode⦄ where
  abbrev pub has_name : Str → CareerLevel → Bool
  has_name want l = str_eq (level_key l.value) want

  abbrev pub has_alias : Str → CareerLevel → Bool
  has_alias want l = any (λ alias. str_eq (level_key alias) want) l.aliases

  unfoldable pub pick_career_level : List CareerLevel → Str → Option CareerLevel
  unfolding first_level
  pick_career_level levels seniority =
      let want = level_key seniority in
      if is_empty want
      then fallback_level levels
      else or_else (first_level (has_name want) levels)
          (or_else (first_level (has_alias want) levels) (fallback_level levels))

  -- The seniority of signals that may be missing (`none`) or unreadable (`some none`).
  abbrev pub stated_seniority : Option (Option JdSignals) → Result LeverError Str
  stated_seniority none = ok []
  stated_seniority (some none) = err bad_signals
  stated_seniority (some (some signals)) = ok signals.seniority

  abbrev pub listed_levels : Option (List CareerLevel) → Result LeverError (List CareerLevel)
  listed_levels none = err list_failed
  listed_levels (some levels) = ok levels

  abbrev pub levers_of : Str → Option CareerLevel → Result LeverError (Str × Str)
  levers_of seniority none = err (no_level seniority)
  levers_of seniority (some l) = ok (l.length_budget, l.framing_guidance)

  -- The account's ladder, or else the shipped one.
  abbrev pub chosen_level : Framings → List CareerLevel → Str → Option CareerLevel
  chosen_level framing levels seniority =
      or_else (pick_career_level levels seniority)
        (pick_career_level (default_career_levels framing) seniority)

  unfoldable pub seniority_levers :
      Framings
      → Option (Option JdSignals)
      → Option (List CareerLevel)
      → Result LeverError (Str × Str)
  unfolding pick_career_level
  seniority_levers framing raw listing = stated_seniority raw >>= λ seniority.
      listed_levels listing >>= λ levels.
      levers_of seniority (chosen_level framing levels seniority)
