-- ===== src/Generation/Witnesses.antt =====
-- What generation keeps, at small documents (internal/generation).
use role_model.Prelude.{
  ◌≡◌, refl, ◌≢◌, ◌↔◌, Bool, true, false, not, List, [], ◌∷◌, map, keep, all, Memᴰ, none, some,
  if◌then◌else◌,
}
use role_model.Prelude.Int.{pos}
use role_model.GoText.{
  Str, codes, str_eq, rune_len, byte_len, equal_fold, trim_left, trim_right, trim_space, to_lower,
  starts_with,
}
use role_model.GoText.Ascii.{ascii}
use role_model.GoText.Maps.{lookup, assign}
use role_model.FitGate.Signals.{JdSignals}
use role_model.FitGate.Levels.{level_key}
use role_model.Vocabulary.{
  CareerLevel, Framings, ResumeSection, default_career_levels, default_resume_sections,
}
use role_model.Generation.Words.{find, named_from, named_in, named_in_any}
use role_model.Generation.Words.Occurrence.{StandsIn, named_in_iff}
use role_model.Generation.Reconcile.{
  SkillView, DocumentJson, Fields, collect_skills, entries_of, encode_ordered, collect_bullet_text,
  skill_already_listed, add_skill, add_skills, reconcile_skills,
}
use role_model.Generation.Ladder.{first_level, pick_career_level, seniority_levers}
use role_model.Generation.Ladder.Choice.{Reason, pick_career_level_reason}
use role_model.Generation.Sections.{declared, fallback_sections, fallback_sections-eq}

unfoldable unfold_words : Unit {0}
unfolding str_eq rune_len byte_len equal_fold trim_left trim_right trim_space to_lower starts_with
    find named_from named_in named_in_any
unfold_words = tt

-- Inside "MySQL" there is no "SQL"; after it there is.
second_match : named_in (codes "MySQL, SQL") (codes "sql") ≡ true
unfolding unfold_words
second_match = refl

no_word : named_in (codes "Django") (codes "Go") ≡ false
unfolding unfold_words
no_word = refl

named_in_iff_example :
    (named_in (codes "MySQL, SQL") (codes "sql") ≡ true)
    ↔ ((codes "sql" ≢ []) × StandsIn (to_lower (codes "sql")) [] (to_lower (codes "MySQL, SQL")))
named_in_iff_example = named_in_iff (codes "MySQL, SQL") (codes "sql")

-- A document of these samples has the skills "Cloud: AWS" and one bullet.
instance abbrev documents : DocumentJson
documents = record {
  read_skills = λ raw. some ((codes "Cloud", codes "AWS" ∷ []) ∷ []);
  read_employers = λ raw. some (((raw ∷ []) ∷ []) ∷ []);
  read_projects = λ raw. none;
  write_skills = λ entries. codes "written";
}

abbrev document : Fields
document =
    (codes "skills", codes "read") ∷ (codes "experience", codes "Built it in Go on AWS.") ∷ []

abbrev skill : Str → SkillView
skill name = record {
  name = name;
  category = codes "Languages";
  proficiency = codes "expert";
  years_experience = none;
}

abbrev claimed : List SkillView
claimed = skill (codes "Go") ∷ skill (codes "AWS") ∷ skill (codes "Rust") ∷ []

unfoldable unfold_reconcile : Unit {0}
unfolding unfold_words lookup assign collect_skills entries_of encode_ordered collect_bullet_text
    skill_already_listed add_skill add_skills reconcile_skills
unfold_reconcile = tt

-- Go is named and missing, AWS is listed already, Rust is not named.
go_added :
    (add_skills (codes "Built it in Go on AWS." ∷ []) claimed (record {
      order = codes "Cloud" ∷ [];
      by_category = (codes "Cloud", codes "AWS" ∷ []) ∷ [];
      added = false;
    })).by_category
    ≡ (codes "Cloud", codes "AWS" ∷ []) ∷ (codes "Languages", codes "Go" ∷ []) ∷ []
unfolding unfold_reconcile
go_added = refl

abbrev reconciled : Fields
reconciled =
    (codes "skills", codes "written") ∷ (codes "experience", codes "Built it in Go on AWS.") ∷ []

abbrev framing : Framings
framing = record { work = codes "work"; ownership = codes "ownership" }

abbrev signals : JdSignals
signals = record {
  priority_skills = [];
  required_skills = [];
  preferred_skills = [];
  core_competencies = [];
  culture_signals = [];
  core_practice = [];
  skill_levels = [];
  seniority = codes " Staff ";
  screening_summary = record { industry = []; work_arrangement = [] };
}

unfoldable unfold_ladder : Unit {0}
unfolding unfold_words default_career_levels level_key first_level pick_career_level
    seniority_levers
unfold_ladder = tt

abbrev senior : CareerLevel
senior = record {
  value = codes "senior";
  label = codes "Senior";
  rank = pos 3;
  aliases = codes "staff" ∷ [];
  length_budget = codes "long";
  framing_guidance = codes "own";
  is_fallback = false;
}

-- "Staff" is an alias of the level.
pick_career_level_reason_example :
    Memᴰ senior (senior ∷ []) × Reason (senior ∷ []) (level_key (codes " Staff ")) senior
unfolding unfold_ladder
pick_career_level_reason_example =
    pick_career_level_reason (senior ∷ []) (codes " Staff ") senior refl

abbrev section : Bool → ResumeSection
section hidden = record {
  key = codes "skills";
  heading = codes "SKILLS";
  sort_order = pos 1;
  hidden = hidden;
}

-- One row, which is hidden, gives all the default sections.
fallback_sections-eq_example : fallback_sections (section true ∷ []) ≡ (
    if all (λ r. r.hidden) (section true ∷ [])
    then map declared default_resume_sections
    else map declared (keep (λ r. not r.hidden) (section true ∷ [])))
fallback_sections-eq_example = fallback_sections-eq (section true ∷ [])
