-- ===== src/FitGate/Capability.antt =====
-- Scoring how a profile covers the requirements of a posting (internal/fitgate/scorer.go:
-- ScoreCapabilityFit, dedupeCompetencies, SkillMatch, CapabilityFit, clampScore).
-- The source adds up multiples of 0.5 in a float64; the model counts half points, so that a required
-- skill is worth 4 and a preferred one 2. The final division is kept as an exact fraction; the
-- rounding of the float64 quotient is not modelled.
pub mod Points
pub mod Filing
pub mod Unlevelled
pub mod Competencies
use role_model.Prelude.{
  ℕ, ◌+◌, ◌*◌, ◌/◌, Bool, true, false, ◌||◌, not, List, [], ◌∷◌, ◌++◌, none, some, ltb, ◌==◌,
  if◌then◌else◌, length,
}
use role_model.Prelude.Int.{ltb_ℤ}
use role_model.GoText.{Str, is_empty, Unicode, trim_space}
use role_model.FitGate.Signals.{JdSignals, SkillLevel, SkillTerm}
use role_model.FitGate.Levels.{LevelScale, rank, required_level_for, strongest_proficiency}
use role_model.FitGate.Alternatives.{split_alternatives}
use role_model.FitGate.Matching.{matches_signal}
use role_model.FitGate.Skills.{MatchKind, Answer, evidence_names, satisfies}

pub data MatchOrigin : Type 0 where
  required preferred competency : MatchOrigin

pub record SkillMatch : Type 0 where
  pub requirement : Str
  pub kind : MatchKind
  pub category : Str
  pub evidence : List Str
  pub origin : MatchOrigin
  pub required_level : Str
  pub evidence_level : Str
  pub level_signal : Str

-- A quotient of natural numbers.
pub record Fraction : Type 0 where
  pub num : ℕ
  pub den : ℕ

pub record CapabilityFit : Type 0 where
  pub score : Fraction
  pub scored : Bool
  pub gaps : List Str
  pub matches : List SkillMatch
  pub partial : List SkillMatch

-- The variables that the closure `score` assigns: `earned` is in half points.
pub record Tally : Type 0 where
  pub earned : ℕ
  pub gaps : List Str
  pub matches : List SkillMatch
  pub partial : List SkillMatch

abbrev pub no_points : Tally
no_points = record { earned = 0; gaps = []; matches = []; partial = [] }

-- Full points and a place among the matches.
abbrev pub met : Tally → ℕ → SkillMatch → Tally
met t full m = record t { earned = t.earned + full; matches = t.matches ++ m ∷ [] }

-- Half the points and a place among the partial matches.
abbrev pub short : Tally → ℕ → SkillMatch → Tally
short t full m = record t { earned = t.earned + full / 2; partial = t.partial ++ m ∷ [] }

-- A negative score cannot be formed from points, so the first test of the source never holds.
unfoldable pub clamp_score : Fraction → Fraction
clamp_score v = if ltb (100 * v.den) v.num then record { num = 100; den = 1 } else v

module _ ⦃u : Unicode⦄ where
  unfoldable pub alternatives_of : List Str → List Str
  alternatives_of [] = []
  alternatives_of (entry ∷ entries) = split_alternatives entry ++ alternatives_of entries

  -- The alternatives of all entries of all lists, in order.
  unfoldable pub named_alternatives : List (List Str) → List Str
  named_alternatives [] = []
  named_alternatives (list ∷ lists) = alternatives_of list ++ named_alternatives lists

  unfoldable pub drop_named : List Str → List Str → List Str
  drop_named named [] = []
  drop_named named (comp ∷ comps) =
      if is_empty (trim_space comp)
      then drop_named named comps
      else if matches_signal comp named
      then drop_named named comps
      else comp ∷ drop_named named comps

  unfoldable pub dedupe_competencies : List Str → List (List Str) → List Str
  unfolding named_alternatives alternatives_of drop_named
  dedupe_competencies competencies skill_lists =
      drop_named (named_alternatives skill_lists) competencies

  abbrev pub plain_match : Str → MatchOrigin → Answer → SkillMatch
  plain_match entry origin a = record {
    requirement = entry;
    kind = a.kind;
    category = a.category;
    evidence = evidence_names a.evidence;
    origin = origin;
    required_level = [];
    evidence_level = [];
    level_signal = [];
  }

  abbrev pub levelled_match : LevelScale → List SkillLevel → Str → MatchOrigin → Answer → SkillMatch
  levelled_match levels stated entry origin a =
      let (wanted, signal) = required_level_for entry stated levels in
      record (plain_match entry origin a) {
        required_level = wanted;
        evidence_level = strongest_proficiency a.evidence levels;
        level_signal = signal;
      }

  -- What `score` does with an entry that is answered.
  unfoldable pub award :
      LevelScale → List SkillLevel → Str → ℕ → MatchOrigin → Answer → Tally → Tally
  award levels stated entry full origin a t =
      let wanted = (required_level_for entry stated levels).0 in
      let held = strongest_proficiency a.evidence levels in
      if is_empty wanted
      then met t full (plain_match entry origin a)
      else if not (ltb_ℤ (rank levels held) (rank levels wanted))
      then met t full (levelled_match levels stated entry origin a)
      else short t full (levelled_match levels stated entry origin a)

  module _ (skills : List SkillTerm) (levels : LevelScale) (stated : List SkillLevel) where
    unfoldable pub score : Str → ℕ → MatchOrigin → Tally → Tally × Bool
    score entry full origin t = elim (satisfies skills entry) [
      | none ↦ (t, false)
      | some a ↦ (award levels stated entry full origin a t, true)
    ]

    -- The loop over the required skills: an entry that nothing answers is a gap.
    unfoldable pub score_required : List Str → Tally → Tally
    score_required [] t = t
    score_required (req ∷ reqs) t =
        let (t', matched) = score req 4 required t in
        score_required reqs (if matched then t' else record t' { gaps = t'.gaps ++ req ∷ [] })

    -- The loops over the preferred skills and the competencies ignore the result.
    unfoldable pub score_others : MatchOrigin → List Str → Tally → Tally
    score_others origin [] t = t
    score_others origin (entry ∷ entries) t = score_others origin entries (score entry 2 origin t).0

  unfoldable pub tally_of : List SkillTerm → JdSignals → LevelScale → List Str → Tally
  unfolding score_required score_others
  tally_of skills signals levels competencies =
      let stated = signals.skill_levels in
      let t = score_required skills levels stated signals.required_skills no_points in
      let t' = score_others skills levels stated preferred signals.preferred_skills t in
      score_others skills levels stated competency competencies t'

  abbrev pub competencies_of : JdSignals → List Str
  competencies_of signals =
      dedupe_competencies signals.core_competencies
        (signals.required_skills ∷ signals.preferred_skills ∷ [])

  -- In points, as in the source.
  abbrev pub points_possible : JdSignals → ℕ
  points_possible signals =
      length signals.required_skills * 2
      + length signals.preferred_skills
      + length (competencies_of signals)

  unfoldable pub score_capability_fit : List SkillTerm → JdSignals → LevelScale → CapabilityFit
  score_capability_fit skills signals levels =
      let t = tally_of skills signals levels (competencies_of signals) in
      if points_possible signals == 0
      then record {
        score = record { num = 0; den = 1 };
        scored = false;
        gaps = [];
        matches = [];
        partial = [];
      }
      else record {
        score = clamp_score (record { num = t.earned * 100; den = points_possible signals * 2 });
        scored = true;
        gaps = t.gaps;
        matches = t.matches;
        partial = t.partial;
      }
