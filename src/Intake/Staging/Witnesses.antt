-- ===== src/Intake/Staging/Witnesses.antt =====
-- A small career, planned and staged (internal/intake/extract.go, internal/intake/flags.go).
use role_model.Prelude.{◌-◌, ◌≡◌, refl, List, [], ◌∷◌, none, some, arith}
use role_model.Prelude.Results.{ok}
use role_model.GoText.{Str, codes, starts_with, ends_with, trim_space}
use role_model.GoText.Ascii.{ascii}
use role_model.GoText.Maps.{lookup, assign}
use role_model.GoText.Splitting.{join, split_at_first}
use role_model.Vocabulary.{default_career_levels}
use role_model.FitGate.Levels.{default_proficiency_levels}
use role_model.Intake.Payloads.{unknown_ref}
use role_model.Intake.Ordering.{EntityDraft, BatchOrder, topo_order}
use role_model.Intake.Store.{World, Action, run, create_entity_draft, set_draft_flags}
use role_model.Intake.Samples.{
  documents, steady, steady-IsListing, world_of, unfold_labels, pending_draft,
}
use role_model.Intake.Extraction.{
  CareerExtraction, PlannedDraft, JsonWriter, Planning, plan_each, add, plan_employer,
  plan_position, plan_contribution, plan_skill, plan_preference, plan_education, plan_credential,
  plan_drafts,
}
use role_model.Intake.Extraction.Plan.{PlanOf, plan_drafts-PlanOf}
use role_model.Intake.Extraction.Outcomes.{IsTotal, is_ok, plannable}
use role_model.Intake.Extraction.Checks.{plan_drafts-is_ok}
use role_model.Intake.Staging.{
  Model, quote_join, trim_suffix, strip_fence, skill_categories, is_new_category,
  crowded_batch_categories, flags_of, store_flags, flag_draft, create_drafts, flag_drafts,
  stage_drafts, plan_next, extract_text, extract_career,
}
use role_model.Intake.Staging.Rollback.{extract_career_rollback}
use role_model.Intake.Staging.Rows.{Staged, stage_drafts_ok}
use role_model.Intake.Staging.Order.{of_batch, stage_drafts-resolvable}

-- A payload is written as the field that `documents` reads back.
instance abbrev writers : JsonWriter
writers = record {
  write_employer = λ p. some p.name;
  write_position = λ p. some p.title;
  write_contribution = λ p. some p.summary;
  write_skill = λ p. some p.category;
  write_preference = λ p. some p.label;
  write_education = λ p. some p.institution;
  write_credential = λ p. some p.name;
}

writers-IsTotal : IsTotal writers
writers-IsTotal = record {
  employer = λ p. (p.name, refl);
  position = λ p. (p.title, refl);
  contribution = λ p. (p.summary, refl);
  skill = λ p. (p.category, refl);
  preference = λ p. (p.label, refl);
  education = λ p. (p.institution, refl);
  credential = λ p. (p.name, refl);
}

-- An employer "e" with a position, and a skill of a new category.
abbrev career_of : Str → CareerExtraction
career_of employer_ref = record {
  employers = record { ref = codes "e"; name = codes "Acme"; industry = none } ∷ [];
  positions =
      record {
        ref = codes "p";
        employer_ref = employer_ref;
        title = codes "Engineer";
        industry_role = none;
        industry_level = none;
        location = none;
        started_on = codes "2020-02";
        ended_on = none;
        context_narrative = none;
      }
      ∷ [];
  contributions = [];
  skills =
      record {
        category = codes "Cloud";
        tag = codes "Go";
        proficiency = codes "expert";
        years_experience = none;
      }
      ∷ [];
  preferences = [];
  education = [];
  credentials = [];
}

abbrev career : CareerExtraction
career = career_of (codes "e")

-- The model answers every text with a career whose position names the answer as its employer.
instance abbrev model : Model
model = record {
  render_prompt = λ text values levels. some text;
  complete = λ prompt text limit. some text;
  read_extraction = λ raw. some (career_of (trim_space raw));
  write_flags = λ flags. some (codes "flagged");
  framings = record { work = codes "work"; ownership = codes "ownership" };
}

unfoldable unfold_staging : Unit {0}
unfolding unfold_labels starts_with ends_with lookup assign join split_at_first
    default_career_levels default_proficiency_levels plan_each add plan_employer plan_position
    plan_contribution plan_skill plan_preference plan_education plan_credential plan_drafts
    quote_join trim_suffix strip_fence skill_categories is_new_category crowded_batch_categories
    flags_of store_flags flag_draft create_drafts flag_drafts stage_drafts plan_next extract_text
    extract_career create_entity_draft set_draft_flags
unfold_staging = tt

abbrev planned : List PlannedDraft
planned =
    record { id = 100; kind = codes "employer"; payload = codes "Acme"; depends_on = [] }
    ∷ record {
      id = 101;
      kind = codes "position";
      payload = codes "Engineer";
      depends_on = 100 ∷ [];
    }
    ∷ record { id = 102; kind = codes "skill"; payload = codes "Cloud"; depends_on = [] }
    ∷ []

abbrev planning : Planning
planning = record {
  employer_ids = (codes "e", 100) ∷ [];
  position_ids = (codes "p", 101) ∷ [];
  out = planned;
  issued = 3;
}

career_planned : plan_drafts career 0 ≡ ok planning
unfolding unfold_staging
career_planned = refl

plan_drafts-PlanOf_example : PlanOf career 0 planned
unfolding unfold_staging
plan_drafts-PlanOf_example = plan_drafts-PlanOf career 0 planning refl

plan_drafts-is_ok_example : is_ok (plan_drafts career 0) ≡ plannable career
plan_drafts-is_ok_example = plan_drafts-is_ok writers-IsTotal career 0

-- The world after an action.
abbrev after : {A : Type 0} → Action A → World
after m = (run m (world_of [])).1

-- The position names an employer that the extraction does not have.
extract_career_rollback_example :
    (after (extract_career 1 (codes "my career"))).store ≡ (world_of []).store
unfolding unfold_staging
extract_career_rollback_example =
    extract_career_rollback 1 (codes "my career") (world_of [])
      (after (extract_career 1 (codes "my career")))
      (unknown_ref (codes "Engineer") (codes "my career")) refl

-- The new category is flagged, and kept with the draft.
abbrev staged_rows : List EntityDraft
staged_rows =
    pending_draft 100 "employer" "Acme" []
    ∷ pending_draft 101 "position" "Engineer" (100 ∷ [])
    ∷ record (pending_draft 102 "skill" "Cloud" []) { flags = some (codes "flagged") }
    ∷ []

career_staged : (run (stage_drafts 1 planned) (world_of [])).0 ≡ ok staged_rows
unfolding unfold_staging
career_staged = refl

-- A fenced answer is read without its fence.
fence_stripped : (run (extract_career 1 (codes "```\ne\n```")) (world_of [])).0 ≡ ok staged_rows
unfolding unfold_staging
fence_stripped = refl

stage_drafts_ok_example :
    Staged 1 planned (world_of []).store (after (stage_drafts 1 planned)).store
unfolding unfold_staging
stage_drafts_ok_example =
    stage_drafts_ok 1 planned (world_of []) (after (stage_drafts 1 planned)) staged_rows refl

stage_drafts-resolvable_example :
    (order : BatchOrder) × (topo_order
        (steady.arrange_drafts (of_batch 1 (after (stage_drafts 1 planned)).store.drafts))
        []
      ≡ some order)
    × (order.stuck ≡ [])
unfolding unfold_staging
stage_drafts-resolvable_example =
    stage_drafts-resolvable (λ id. id - 100) (λ n. omega arith) steady-IsListing 1 career 0 planning
      (world_of []) (after (stage_drafts 1 planned)) staged_rows refl refl refl
