-- ===== src/FitGate/Capability/Points.antt =====
-- The points behind the score (internal/fitgate/scorer.go: ScoreCapabilityFit).
use role_model.Prelude.{
  ℕ, ◌+◌, ◌*◌, ◌/◌, ◌≤◌, ◌≡◌, refl, ◌≢◌, Bool, true, false, List, [], ◌∷◌, ◌++◌, ltb, ◌==◌,
  if◌then◌else◌, length, Bool-cases, Option-cases, inl, inr, arith,
}
use role_model.Prelude.Int.{ltb_ℤ}
use role_model.GoText.{Str, is_empty, Unicode}
use role_model.FitGate.Signals.{JdSignals, SkillLevel, SkillTerm}
use role_model.FitGate.Levels.{LevelScale, rank, required_level_for, strongest_proficiency}
use role_model.FitGate.Skills.{Answer, satisfies}
use role_model.FitGate.Capability.{
  MatchOrigin, required, preferred, competency, SkillMatch, Tally, no_points, clamp_score, award,
  score, score_required, score_others, met, short, plain_match, levelled_match, tally_of,
  competencies_of, points_possible, score_capability_fit,
}

-- The half points of a requirement that is met in full.
abbrev pub worth : MatchOrigin → ℕ
worth required = 4
worth preferred = 2
worth competency = 2

unfoldable pub full_points : List SkillMatch → ℕ
full_points [] = 0
full_points (m ∷ ms) = worth m.origin + full_points ms

unfoldable pub half_points : List SkillMatch → ℕ
half_points [] = 0
half_points (m ∷ ms) = worth m.origin / 2 + half_points ms

full_points-snoc :
    (ms : List SkillMatch) (m : SkillMatch)
    → full_points (ms ++ m ∷ []) ≡ full_points ms + worth m.origin
unfolding full_points
full_points-snoc [] m = omega arith
full_points-snoc (n ∷ ms) m = omega (arith, full_points-snoc ms m)

half_points-snoc :
    (ms : List SkillMatch) (m : SkillMatch)
    → half_points (ms ++ m ∷ []) ≡ half_points ms + worth m.origin / 2
unfolding half_points
half_points-snoc [] m = omega arith
half_points-snoc (n ∷ ms) m = omega (arith, half_points-snoc ms m)

-- What is earned is what the lists are worth, and no more than `cap`.
record IsSound (cap : ℕ) (t : Tally) : Type 0 where
  accounted : t.earned ≡ full_points t.matches + half_points t.partial
  bounded : t.earned ≤ cap

IsSound-weaken : (a b : ℕ) (t : Tally) → a ≤ b → IsSound a t → IsSound b t
IsSound-weaken a b t le s = omega arith

gap-IsSound :
    (limit : ℕ) (t : Tally) (matched : Bool) (gaps : List Str)
    → IsSound limit t
    → IsSound limit (if matched then t else record t { gaps = gaps })
gap-IsSound limit t true gaps s = s
gap-IsSound limit t false gaps s = omega arith

lt_false : (a b : ℕ) → b ≤ a → ltb a b ≡ false
lt_false a b h = ground arith

met-IsSound :
    (limit : ℕ) (t : Tally) (m : SkillMatch)
    → IsSound limit t
    → IsSound (limit + worth m.origin) (met t (worth m.origin) m)
met-IsSound limit t m s = omega (arith, full_points-snoc t.matches m)

short-IsSound :
    (limit : ℕ) (t : Tally) (m : SkillMatch)
    → IsSound limit t
    → IsSound (limit + worth m.origin) (short t (worth m.origin) m)
short-IsSound limit t m s = omega (arith, half_points-snoc t.partial m)

module _ ⦃u : Unicode⦄ where
  award-IsSound :
      (levels : LevelScale) (stated : List SkillLevel) (entry : Str) (origin : MatchOrigin)
      (a : Answer) (t : Tally) (limit : ℕ)
      → IsSound limit t
      → IsSound (limit + worth origin) (award levels stated entry (worth origin) origin a t)
  unfolding award
  award-IsSound levels stated entry origin a t limit s =
      let wanted = (required_level_for entry stated levels).0 in
      let held = strongest_proficiency a.evidence levels in
      let levelled = levelled_match levels stated entry origin a in
      elim (Bool-cases (is_empty wanted)) [
        | inl e ↦ rw e (met-IsSound limit t (plain_match entry origin a) s)
        | inr e ↦ elim (Bool-cases (ltb_ℤ (rank levels held) (rank levels wanted))) [
          | inl low ↦ rw (e, low) (short-IsSound limit t levelled s)
          | inr high ↦ rw (e, high) (met-IsSound limit t levelled s)
        ]
      ]

  module _ (skills : List SkillTerm) (levels : LevelScale) (stated : List SkillLevel) where
    score-IsSound :
        (entry : Str) (origin : MatchOrigin) (t : Tally) (limit : ℕ)
        → IsSound limit t
        → IsSound
            (limit + worth origin)
            (score skills levels stated entry (worth origin) origin t).0
    unfolding score
    score-IsSound entry origin t limit s = elim (Option-cases (satisfies skills entry)) [
      | inl e ↦ rw (e, score) (record { accounted = s.accounted; bounded = omega arith })
      | inr (a, e) ↦ rw (e, score) (award-IsSound levels stated entry origin a t limit s)
    ]

    score_others-IsSound :
        (origin : MatchOrigin) (entries : List Str) (t : Tally) (limit : ℕ)
        → worth origin ≡ 2
        → IsSound limit t
        → IsSound (limit + length entries * 2) (score_others skills levels stated origin entries t)
    unfolding score_others
    score_others-IsSound origin [] t limit w s = omega arith
    score_others-IsSound origin (entry ∷ entries) t limit w s =
        let next = score-IsSound entry origin t limit s in
        let next' : IsSound (limit + 2) (score skills levels stated entry 2 origin t).0 =
          rw w at next in
        let rest = score_others-IsSound origin entries _ (limit + 2) w next' in
        IsSound-weaken _ _ _ (omega arith) rest

    score_required-IsSound :
        (entries : List Str) (t : Tally) (limit : ℕ)
        → IsSound limit t
        → IsSound (limit + length entries * 4) (score_required skills levels stated entries t)
    unfolding score_required
    score_required-IsSound [] t limit s = omega arith
    score_required-IsSound (entry ∷ entries) t limit s =
        let next = score-IsSound entry required t limit s in
        let (t', matched) = score skills levels stated entry 4 required t in
        let filed : Tally = if matched then t' else record t' { gaps = t'.gaps ++ entry ∷ [] } in
        let next' : IsSound (limit + 4) filed = gap-IsSound (limit + 4) t' matched _ next in
        IsSound-weaken _ _ _ (omega arith) (score_required-IsSound entries filed (limit + 4) next')

  tally_of-IsSound :
      (skills : List SkillTerm) (signals : JdSignals) (levels : LevelScale)
      (competencies : List Str)
      → IsSound
          (length signals.required_skills * 4
            + length signals.preferred_skills * 2
            + length competencies * 2)
          (tally_of skills signals levels competencies)
  unfolding tally_of
  tally_of-IsSound skills signals levels competencies =
      let stated = signals.skill_levels in
      let none_yet : IsSound 0 no_points = unfold full_points half_points in omega arith in
      let first =
        score_required-IsSound skills levels stated signals.required_skills no_points 0 none_yet in
      let second =
        score_others-IsSound skills levels stated preferred signals.preferred_skills _ _ refl
          first in
      IsSound-weaken _ _ _ (omega arith)
        (score_others-IsSound skills levels stated competency competencies _ _ refl second)

  -- The result for a posting that states some requirement: the clamp never changes the score.
  pub score_capability_fit-eq :
      (skills : List SkillTerm) (signals : JdSignals) (levels : LevelScale)
      → points_possible signals ≢ 0
      → let t = tally_of skills signals levels (competencies_of signals) in
        score_capability_fit skills signals levels ≡ record {
          score = record { num = t.earned * 100; den = points_possible signals * 2 };
          scored = true;
          gaps = t.gaps;
          matches = t.matches;
          partial = t.partial;
        }
  unfolding score_capability_fit clamp_score
  score_capability_fit-eq skills signals levels asked =
      let sound = tally_of-IsSound skills signals levels (competencies_of signals) in
      let stated : (points_possible signals == 0) ≡ false = ground arith in
      let earned = (tally_of skills signals levels (competencies_of signals)).earned in
      let inside : ltb (100 * (points_possible signals * 2)) (earned * 100) ≡ false =
        lt_false _ _ (omega (arith, sound)) in
      rw (stated, inside) refl

  -- The score of a posting that states some requirement is a hundred times what the reported lists
  -- are worth over what the requirements are worth (in half points: 4 for a required skill, 2 for a
  -- preferred one or a competency, and half of that for a partial match). It is at most 100, so the
  -- clamp never changes it.
  pub score_capability_fit_points :
      (skills : List SkillTerm) (signals : JdSignals) (levels : LevelScale)
      → points_possible signals ≢ 0
      → let fit = score_capability_fit skills signals levels in
        (fit.scored ≡ true)
        × (fit.score.num ≡ (full_points fit.matches + half_points fit.partial) * 100)
        × (fit.score.den ≡ points_possible signals * 2)
        × (fit.score.num ≤ 100 * fit.score.den)
  score_capability_fit_points skills signals levels asked =
      let sound = tally_of-IsSound skills signals levels (competencies_of signals) in
      rw (score_capability_fit-eq skills signals levels asked)
        (refl, rw sound.accounted refl, refl, omega (arith, sound))
