-- ===== src/FitGate/Capability/Unlevelled.antt =====
-- Postings that state no depth (internal/fitgate/scorer.go: ScoreCapabilityFit).
use role_model.Prelude.{
  ℕ, ◌+◌, ◌*◌, ◌≤◌, ◌≡◌, refl, sym, ◌∙◌, ◌≢◌, List, [], ◌∷◌, ◌++◌, Memᴰ, keep, length, Option-cases,
  inl, inr, arith,
}
use role_model.GoText.{Str, Unicode}
use role_model.FitGate.Signals.{JdSignals, SkillTerm}
use role_model.FitGate.Levels.{LevelScale, required_level_for}
use role_model.FitGate.Skills.{Answer, satisfies}
use role_model.FitGate.Skills.Layers.{satisfies_mono}
use role_model.FitGate.Capability.{
  MatchOrigin, required, preferred, competency, Tally, no_points, met, plain_match, award,
  score_required, score_others, tally_of, competencies_of, points_possible, score_capability_fit,
}
use role_model.FitGate.Capability.Filing.{answered, score-answered, score-unanswered}
use role_model.FitGate.Capability.Points.{score_capability_fit-eq, score_capability_fit_points}

module _ ⦃u : Unicode⦄ where
  award-unlevelled :
      (levels : LevelScale) (entry : Str) (full : ℕ) (origin : MatchOrigin) (a : Answer) (t : Tally)
      → award levels [] entry full origin a t ≡ met t full (plain_match entry origin a)
  unfolding award required_level_for
  award-unlevelled levels entry full origin a t = refl

  module _ (skills : List SkillTerm) (levels : LevelScale) where
    -- Full points for each answered entry, and nothing partial.
    record Counts (points : ℕ) (t t' : Tally) : Type 0 where
      earned_grows : t'.earned ≡ t.earned + points
      partial_same : t'.partial ≡ t.partial

    score_others-Counts :
        (origin : MatchOrigin) (entries : List Str) (t : Tally)
        → Counts
            (length (keep (answered skills) entries) * 2)
            t
            (score_others skills levels [] origin entries t)
    unfolding score_others
    score_others-Counts origin [] t = record { earned_grows = omega arith; partial_same = refl }
    score_others-Counts origin (entry ∷ entries) t = elim (Option-cases (satisfies skills entry)) [
      | inl e ↦
          rw (e, score-unanswered skills levels [] entry 2 origin t e)
            (score_others-Counts origin entries t)
      | inr (a, e) ↦
          let rest = score_others-Counts origin entries (met t 2 (plain_match entry origin a)) in
          rw
            (
              e,
              score-answered skills levels [] entry 2 origin t a e,
              award-unlevelled levels entry 2 origin a t,
            )
            (record {
              earned_grows = omega (arith, rest.earned_grows);
              partial_same = rest.partial_same;
            })
    ]

    score_required-Counts :
        (entries : List Str) (t : Tally)
        → Counts
            (length (keep (answered skills) entries) * 4)
            t
            (score_required skills levels [] entries t)
    unfolding score_required
    score_required-Counts [] t = record { earned_grows = omega arith; partial_same = refl }
    score_required-Counts (entry ∷ entries) t = elim (Option-cases (satisfies skills entry)) [
      | inl e ↦
          let rest = score_required-Counts entries (record t { gaps = t.gaps ++ entry ∷ [] }) in
          rw (e, score-unanswered skills levels [] entry 4 required t e)
            (record { earned_grows = rest.earned_grows; partial_same = rest.partial_same })
      | inr (a, e) ↦
          let rest = score_required-Counts entries (met t 4 (plain_match entry required a)) in
          rw
            (
              e,
              score-answered skills levels [] entry 4 required t a e,
              award-unlevelled levels entry 4 required a t,
            )
            (record {
              earned_grows = omega (arith, rest.earned_grows);
              partial_same = rest.partial_same;
            })
    ]

  -- Half points for every entry that is answered.
  abbrev pub answered_points : List SkillTerm → JdSignals → ℕ
  answered_points skills signals =
      length (keep (answered skills) signals.required_skills) * 4
      + length (keep (answered skills) signals.preferred_skills) * 2
      + length (keep (answered skills) (competencies_of signals)) * 2

  tally_of-unlevelled :
      (skills : List SkillTerm) (signals : JdSignals) (levels : LevelScale)
      → signals.skill_levels ≡ []
      → let t = tally_of skills signals levels (competencies_of signals) in
        (t.earned ≡ answered_points skills signals) × (t.partial ≡ [])
  unfolding tally_of
  tally_of-unlevelled skills signals levels none_stated =
      let first = score_required-Counts skills levels signals.required_skills no_points in
      let t = score_required skills levels [] signals.required_skills no_points in
      let second = score_others-Counts skills levels preferred signals.preferred_skills t in
      let t' = score_others skills levels [] preferred signals.preferred_skills t in
      let third = score_others-Counts skills levels competency (competencies_of signals) t' in
      rw none_stated (
        omega (arith, first.earned_grows, second.earned_grows, third.earned_grows),
        third.partial_same ∙ second.partial_same ∙ first.partial_same,
      )

  -- A posting that states no depth has no partial match, and its score counts each answered
  -- requirement at its full worth.
  pub score_capability_fit_unlevelled :
      (skills : List SkillTerm) (signals : JdSignals) (levels : LevelScale)
      → points_possible signals ≢ 0
      → signals.skill_levels ≡ []
      → let fit = score_capability_fit skills signals levels in
        (fit.partial ≡ []) × (fit.score.num ≡ answered_points skills signals * 100)
  score_capability_fit_unlevelled skills signals levels asked none_stated =
      let (earned, partial) = tally_of-unlevelled skills signals levels none_stated in
      rw (score_capability_fit-eq skills signals levels asked) (partial, rw earned refl)

  length-keep_mono :
      (skills more : List SkillTerm) (entries : List Str)
      → ((s : SkillTerm) → Memᴰ s skills → Memᴰ s more)
      → length (keep (answered skills) entries) ≤ length (keep (answered more) entries)
  length-keep_mono skills more [] sub = omega arith
  length-keep_mono skills more (e ∷ entries) sub =
      ground (arith, satisfies_mono skills more e sub, length-keep_mono skills more entries sub)

  -- For a posting that states no depth, a profile that has every skill of another scores at least as
  -- high, over the same denominator.
  pub score_capability_fit_mono :
      (skills more : List SkillTerm) (signals : JdSignals) (levels : LevelScale)
      → points_possible signals ≢ 0
      → signals.skill_levels ≡ []
      → ((s : SkillTerm) → Memᴰ s skills → Memᴰ s more)
      → let fit = score_capability_fit skills signals levels in
        let fit' = score_capability_fit more signals levels in
        (fit.score.num ≤ fit'.score.num) × (fit.score.den ≡ fit'.score.den)
  score_capability_fit_mono skills more signals levels asked none_stated sub =
      let less = (score_capability_fit_unlevelled skills signals levels asked none_stated).1 in
      let greater = (score_capability_fit_unlevelled more signals levels asked none_stated).1 in
      let reqs = length-keep_mono skills more signals.required_skills sub in
      let prefs = length-keep_mono skills more signals.preferred_skills sub in
      let comps = length-keep_mono skills more (competencies_of signals) sub in
      (
        rw (less, greater) (omega arith),
        (score_capability_fit_points skills signals levels asked).2
            ∙ sym (score_capability_fit_points more signals levels asked).2,
      )
