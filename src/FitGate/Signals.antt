-- ===== src/FitGate/Signals.antt =====
-- The data that the fit gate reads: the signals of a posting (internal/generation/extractor.go) and
-- the rows of the profile (internal/db/models.go), with the fields that scoring looks at.
use role_model.Prelude.{Bool, List}
use role_model.Prelude.Int.{ℤ}
use role_model.GoText.{Str}

-- A depth that the posting states for one requirement.
pub record SkillLevel : Type 0 where
  pub requirement : Str
  pub level : Str
  pub signal : Str

pub record ScreeningSummary : Type 0 where
  pub industry : Str
  pub work_arrangement : Str

pub record JdSignals : Type 0 where
  pub required_skills : List Str
  pub preferred_skills : List Str
  pub core_competencies : List Str
  pub core_practice : List Str
  pub skill_levels : List SkillLevel
  pub seniority : Str
  pub culture_signals : List Str
  pub priority_skills : List Str
  pub screening_summary : ScreeningSummary

-- A row of proficiency_levels. The rank is an int32 with no constraint on its sign.
pub record ProficiencyLevel : Type 0 where
  pub value : Str
  pub rank : ℤ
  pub aliases : List Str

-- A row of preferences.
pub record Preference : Type 0 where
  pub preference_type : Str
  pub label : Str
  pub sentiment : Str
  pub is_hard_gate : Bool
  pub aliases : List Str

-- An active skill as the matcher sees it.
pub record SkillTerm : Type 0 where
  pub name : Str
  pub aliases : List Str
  pub category : Str
  pub category_aliases : List Str
  pub proficiency : Str
