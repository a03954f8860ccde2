-- ===== src/Vocabulary.antt =====
-- The levels and sections that a new account starts with (internal/vocabulary/defaults.go; the rows
-- of career_levels and resume_sections in internal/db/models.go, with the fields that the program
-- reads). The default scale of depths stands in FitGate.Levels.
use role_model.Prelude.{Bool, true, false, List, [], ◌∷◌}
use role_model.Prelude.Int.{ℤ, pos}
use role_model.GoText.{Str, codes}

pub record CareerLevel : Type 0 where
  pub value : Str
  pub label : Str
  pub rank : ℤ
  pub aliases : List Str
  pub length_budget : Str
  pub framing_guidance : Str
  pub is_fallback : Bool

pub record ResumeSection : Type 0 where
  pub key : Str
  pub heading : Str
  pub sort_order : ℤ
  pub hidden : Bool

-- The two texts of framing guidance, which the program hands on unread.
pub record Framings : Type 0 where
  pub work : Str
  pub ownership : Str

abbrev pub budget_short : Str
budget_short =
    codes "Target 1 page (~8-10 bullets total across ALL positions and projects combined)."

abbrev pub budget_medium : Str
budget_medium =
    codes "Target 1-2 pages (~12-15 bullets total across ALL positions and projects combined)."

abbrev pub budget_long : Str
budget_long =
    codes "Target 2 pages (~15-18 bullets total across ALL positions and projects combined)."

unfoldable pub default_career_levels : Framings → List CareerLevel
default_career_levels framing =
    record {
      value = codes "entry";
      label = codes "Entry";
      rank = pos 1;
      aliases =
          codes "junior"
          ∷ codes "entry level"
          ∷ codes "entry-level"
          ∷ codes "associate"
          ∷ codes "assistant"
          ∷ codes "apprentice"
          ∷ codes "trainee"
          ∷ [];
      length_budget = budget_short;
      framing_guidance = framing.work;
      is_fallback = false;
    }
    ∷ record {
      value = codes "experienced";
      label = codes "Experienced";
      rank = pos 2;
      aliases =
          codes "mid"
          ∷ codes "mid level"
          ∷ codes "mid-level"
          ∷ codes "intermediate"
          ∷ codes "journeyman"
          ∷ [];
      length_budget = budget_medium;
      framing_guidance = framing.work;
      is_fallback = true;
    }
    ∷ record {
      value = codes "senior";
      label = codes "Senior";
      rank = pos 3;
      aliases =
          codes "lead"
          ∷ codes "principal"
          ∷ codes "staff"
          ∷ codes "head"
          ∷ codes "chief"
          ∷ codes "supervising"
          ∷ [];
      length_budget = budget_long;
      framing_guidance = framing.ownership;
      is_fallback = false;
    }
    ∷ []

abbrev shown_section : Str → Str → ℤ → ResumeSection
shown_section key heading sort_order = record {
  key = key;
  heading = heading;
  sort_order = sort_order;
  hidden = false;
}

unfoldable pub default_resume_sections : List ResumeSection
default_resume_sections =
    shown_section (codes "summary") (codes "SUMMARY") (pos 1)
    ∷ shown_section (codes "skills") (codes "SKILLS") (pos 2)
    ∷ shown_section (codes "experience") (codes "EXPERIENCE") (pos 3)
    ∷ shown_section (codes "projects") (codes "PROJECTS") (pos 4)
    ∷ shown_section (codes "education") (codes "EDUCATION") (pos 5)
    ∷ shown_section (codes "credentials") (codes "CREDENTIALS") (pos 6)
    ∷ []
