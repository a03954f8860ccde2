-- ===== src/FitGate/Preferences.antt =====
-- How a posting lines up with the preferences of a profile (internal/fitgate/scorer.go:
-- ScorePreferenceFit, prefFieldsFor, preferenceAnswered, corePracticeAnswered).
pub mod Lists
pub mod CorePractice
pub mod Stability
use role_model.Prelude.{Bool, true, false, not, List, [], ◌∷◌, ◌++◌, if◌then◌else◌}
use role_model.GoText.{Str, codes, str_eq, Unicode}
use role_model.FitGate.Signals.{JdSignals, Preference}
use role_model.FitGate.Alternatives.{split_alternatives, collapse_subsumed}
use role_model.FitGate.Capability.{alternatives_of}
use role_model.FitGate.Matching.{preference_matches}

-- The four results of ScorePreferenceFit.
pub record PreferenceFit : Type 0 where
  pub matches : List Preference
  pub gaps : List Preference
  pub conflicts : List Preference
  pub gate_hits : List Preference

abbrev pub nothing_found : PreferenceFit
nothing_found = record { matches = []; gaps = []; conflicts = []; gate_hits = [] }

module _ ⦃u : Unicode⦄ where
  unfoldable pub pref_fields_for : Str → JdSignals → List Str
  unfolding str_eq
  pref_fields_for pref_type signals =
      let screening = signals.screening_summary in
      if str_eq pref_type (codes "domain")
      then screening.industry ∷ signals.core_competencies
      else if str_eq pref_type (codes "role_shape")
      then signals.culture_signals ++ signals.core_competencies
      else if str_eq pref_type (codes "culture")
      then (screening.work_arrangement ∷ signals.culture_signals) ++ signals.core_competencies
      else if str_eq pref_type (codes "core_practice")
      then collapse_subsumed signals.core_practice
      else (screening.industry ∷ screening.work_arrangement ∷ signals.culture_signals)
        ++ alternatives_of signals.required_skills

  -- Every alternative of the entry is answered.
  unfoldable pub answers_all : Preference → List Str → Bool
  answers_all p [] = true
  answers_all p (alt ∷ alts) =
      if not (preference_matches p (alt ∷ [])) then false else answers_all p alts

  unfoldable pub core_practice_answered : Preference → List Str → Bool
  core_practice_answered p [] = false
  core_practice_answered p (entry ∷ entries) = elim (split_alternatives entry) [
    | [] ↦ core_practice_answered p entries
    | alt ∷ alts ↦ if answers_all p (alt ∷ alts) then true else core_practice_answered p entries
  ]

  unfoldable pub preference_answered : Preference → JdSignals → Bool
  preference_answered p signals =
      let fields = pref_fields_for p.preference_type signals in
      if str_eq p.preference_type (codes "core_practice")
      then core_practice_answered p fields
      else preference_matches p fields

  -- One round of the loop over the preferences.
  unfoldable pub place : JdSignals → Preference → PreferenceFit → PreferenceFit
  place signals p fit =
      let matched = preference_answered p signals in
      if p.is_hard_gate
      then (if matched then record fit { gate_hits = fit.gate_hits ++ p ∷ [] } else fit)
      else if str_eq p.sentiment (codes "positive")
      then (if matched
          then record fit { matches = fit.matches ++ p ∷ [] }
          else record fit { gaps = fit.gaps ++ p ∷ [] })
      else if str_eq p.sentiment (codes "negative")
      then (if matched then record fit { conflicts = fit.conflicts ++ p ∷ [] } else fit)
      else fit

  unfoldable pub place_all : JdSignals → List Preference → PreferenceFit → PreferenceFit
  place_all signals [] fit = fit
  place_all signals (p ∷ prefs) fit = place_all signals prefs (place signals p fit)

  unfoldable pub score_preference_fit : List Preference → JdSignals → PreferenceFit
  score_preference_fit prefs signals = place_all signals prefs nothing_found
