-- ===== src/FitGate/Preferences/Stability.antt =====
-- Preference matching when a posting or a row changes (internal/fitgate/scorer.go:
-- ScorePreferenceFit, prefFieldsFor).
use role_model.Prelude.{
  ◌≡◌, refl, ap, ◌∙◌, true, List, [], ◌∷◌, ◌++◌, Bool-cases, inl, inr, all, all_of_mem, all_intro,
  arith,
}
use role_model.GoText.{Str, codes, str_eq, Unicode}
use role_model.FitGate.Signals.{JdSignals, SkillLevel, Preference}
use role_model.FitGate.Alternatives.{split_alternatives}
use role_model.FitGate.Matching.{any_alias_matches, preference_matches}
use role_model.FitGate.Preferences.{
  PreferenceFit, nothing_found, pref_fields_for, preference_answered, place, place_all,
  score_preference_fit,
}
use role_model.FitGate.Preferences.CorePractice.{refuses, entries-answered_iff}

module _ ⦃u : Unicode⦄ where
  -- The same posting with other optional mentions: nice-to-have skills, stated depths, seniority.
  abbrev pub with_optional : JdSignals → List Str → List SkillLevel → Str → JdSignals
  with_optional signals preferred stated seniority = record signals {
    preferred_skills = preferred;
    skill_levels = stated;
    seniority = seniority;
  }

  place-optional :
      (signals : JdSignals) (preferred : List Str) (stated : List SkillLevel) (seniority : Str)
      (p : Preference) (fit : PreferenceFit)
      → place (with_optional signals preferred stated seniority) p fit ≡ place signals p fit
  unfolding place preference_answered pref_fields_for
  place-optional signals preferred stated seniority p fit = refl

  place_all-optional :
      (signals : JdSignals) (preferred : List Str) (stated : List SkillLevel) (seniority : Str)
      (prefs : List Preference) (fit : PreferenceFit)
      → place_all (with_optional signals preferred stated seniority) prefs fit
        ≡ place_all signals prefs fit
  unfolding place_all
  place_all-optional signals preferred stated seniority [] fit = refl
  place_all-optional signals preferred stated seniority (p ∷ prefs) fit =
      ap (place_all (with_optional signals preferred stated seniority) prefs)
        (place-optional signals preferred stated seniority p fit)
      ∙ place_all-optional signals preferred stated seniority prefs (place signals p fit)

  -- The preference lists of a posting do not depend on its preferred skills, its stated depths or
  -- its seniority.
  pub score_preference_fit_optional :
      (prefs : List Preference) (signals : JdSignals) (preferred : List Str)
      (stated : List SkillLevel) (seniority : Str)
      → score_preference_fit prefs (with_optional signals preferred stated seniority)
        ≡ score_preference_fit prefs signals
  unfolding score_preference_fit
  score_preference_fit_optional prefs signals preferred stated seniority =
      place_all-optional signals preferred stated seniority prefs nothing_found

  -- The row with more vocabulary.
  abbrev pub with_aliases : Preference → List Str → Preference
  with_aliases p more = record p { aliases = p.aliases ++ more }

  any_alias_matches-append :
      (aliases more fields : List Str)
      → any_alias_matches aliases fields ≡ true
      → any_alias_matches (aliases ++ more) fields ≡ true
  unfolding any_alias_matches
  any_alias_matches-append [] more fields h = cc
  any_alias_matches-append (a ∷ aliases) more fields h =
      ground (arith, any_alias_matches-append aliases more fields)

  preference_matches_mono :
      (p : Preference) (more fields : List Str)
      → preference_matches p fields ≡ true
      → preference_matches (with_aliases p more) fields ≡ true
  unfolding preference_matches
  preference_matches_mono p more fields h =
      ground (arith, any_alias_matches-append p.aliases more fields)

  refuses_mono :
      (p : Preference) (more : List Str) (entry : Str)
      → refuses p entry ≡ true
      → refuses (with_aliases p more) entry ≡ true
  refuses_mono p more entry h =
      let before : all (λ alt. preference_matches p (alt ∷ [])) (split_alternatives entry) ≡ true =
        ground arith in
      let after =
        all_intro (λ alt. preference_matches (with_aliases p more) (alt ∷ []))
          (split_alternatives entry)
          (λ alt m.
            preference_matches_mono p more (alt ∷ [])
              (all_of_mem (λ b. preference_matches p (b ∷ [])) alt _ before m)) in
      ground arith

  -- More vocabulary only widens a preference: a row that a posting answers is still answered when
  -- the row is given more aliases, a core practice included.
  pub preference_answered_mono :
      (p : Preference) (more : List Str) (signals : JdSignals)
      → preference_answered p signals ≡ true
      → preference_answered (with_aliases p more) signals ≡ true
  unfolding preference_answered
  preference_answered_mono p more signals h =
      let fields = pref_fields_for p.preference_type signals in
      elim (Bool-cases (str_eq p.preference_type (codes "core_practice"))) [
        | inl practice ↦
            let (entry, m, whole) = (entries-answered_iff p fields).0 (rw practice at h) in
            rw practice (
              (entries-answered_iff (with_aliases p more) fields).1
                (entry, m, refuses_mono p more entry whole))
        | inr other ↦ rw other (preference_matches_mono p more fields (rw other at h))
      ]
