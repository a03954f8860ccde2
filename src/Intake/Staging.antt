-- ===== src/Intake/Staging.antt =====
-- Staging the drafts of an extraction, with their review flags (internal/intake/flags.go:
-- FlagDraft, categoryIsNew, crowdedBatchCategories; internal/intake/extract.go: StageDrafts;
-- internal/intake/career_extraction.go: ExtractCareer, quoteJoin, stripFence). The language model,
-- the prompt's template and the JSON of flags and of an extraction are an interface.
pub mod Rollback
pub mod Order
pub mod Rows
mod Witnesses
use role_model.Prelude.{
  ℕ, ◌+◌, ◌-◌, Bool, true, false, ◌&&◌, List, [], ◌∷◌, ◌++◌, map, any, Option, none, some, ◌==◌,
  if◌then◌else◌, take, length,
}
use role_model.Prelude.Results.{Result, ok, err}
use role_model.GoText.{Str, codes, str_eq, is_empty, starts_with, ends_with, Unicode, trim_space}
use role_model.GoText.Splitting.{join, split_at_first}
use role_model.Vocabulary.{Framings, default_career_levels}
use role_model.FitGate.Levels.{default_proficiency_levels}
use role_model.Intake.Collisions.{PreferenceCollision, check_preference_label}
use role_model.Intake.Flags.{category_is_new, crowded_categories}
use role_model.Intake.Payloads.{
  DraftError, database_failed, draft_not_found, blank_text, prompt_failed, model_failed,
  bad_response, marshal_failed, Kind, kind_preference, kind_skill, kind_named, Json, is_blank,
}
use role_model.Intake.Ordering.{EntityDraft, holds}
use role_model.Intake.Store.{
  World, Outside, Action, act, ◌>>=◌, ◌>>◌, pure, lift, list_tag_categories, list_preferences,
  list_proficiency_levels, list_career_levels, create_entity_draft, set_draft_flags,
}
use role_model.Intake.Resolvers.{payload_of}
use role_model.Intake.Approval.{in_transaction, get_draft}
use role_model.Intake.Extraction.{CareerExtraction, PlannedDraft, JsonWriter, Planning, plan_drafts}

-- The parameters of the INSERT.
abbrev pub staged : ℕ → PlannedDraft → EntityDraft
staged batch_id p = record {
  id = p.id;
  batch_id = batch_id;
  kind = p.kind;
  payload = some p.payload;
  status = codes "pending";
  depends_on = p.depends_on;
  resolved_id = none;
  flags = none;
}

pub record DraftFlags : Type 0 where
  pub preference_collisions : List PreferenceCollision
  pub new_categories : List Str
  pub crowded_categories : List Str

abbrev pub no_flags : DraftFlags
no_flags = record { preference_collisions = []; new_categories = []; crowded_categories = [] }

abbrev pub none_of {ℓ} : {A : Type ℓ} → List A → Bool
none_of [] = true
none_of (x ∷ xs) = false

abbrev pub nothing_flagged : DraftFlags → Bool
nothing_flagged flags =
    none_of flags.preference_collisions
    && (none_of flags.new_categories && none_of flags.crowded_categories)

-- The language model and its prompt, and the JSON of flags and of an extraction.
pub record Model : Type 0 where
  pub render_prompt : Str → Str → Str → Option Str
  pub complete : Str → Str → ℕ → Option Str
  pub read_extraction : Str → Option CareerExtraction
  pub write_flags : DraftFlags → Option Str
  pub framings : Framings

abbrev pub career_extraction_max_tokens : ℕ
career_extraction_max_tokens = 16384

abbrev pub or_error {ℓ} : {A : Type ℓ} → DraftError → Option A → Result DraftError A
or_error e none = err e
or_error e (some a) = ok a

-- Quoted, with a comma and a space between.
unfoldable pub quote_join : List Str → Str
unfolding join
quote_join vals = join (codes ", ") (map (λ v. b'"' ∷ (v ++ b'"' ∷ [])) vals)

-- strings.TrimSuffix
unfoldable pub trim_suffix : Str → Str → Str
trim_suffix suffix s = if ends_with suffix s then take (length s - length suffix) s else s

abbrev pub or_default : List Str → List Str → List Str
or_default [] defaults = defaults
or_default (v ∷ vals) defaults = v ∷ vals

abbrev pub after_plan :
    World → Result DraftError Planning → Result DraftError (List PlannedDraft) × World
after_plan world (err e) = (err e, world)
after_plan world (ok st) = (ok st.out, record world { issued = st.issued })

-- The text after the first line break, or all of it.
abbrev pub after_line : Str → Option (Str × Str) → Str
after_line s none = s
after_line s (some (line, rest)) = rest

module _ ⦃u : Unicode⦄ where
  unfoldable pub strip_fence : Str → Str
  unfolding split_at_first trim_suffix
  strip_fence s =
      let trimmed = trim_space s in
      if starts_with (codes "```") trimmed
      then trim_suffix (codes "```") (trim_space (after_line trimmed (split_at_first 10 trimmed)))
      else trimmed

  module _ ⦃j : Json⦄ where
    -- The categories of the skills among the drafts.
    unfoldable pub skill_categories : List EntityDraft → Result DraftError (List Str)
    skill_categories [] = ok []
    skill_categories (row ∷ batch) =
        if str_eq row.kind (codes "skill")
        then (elim (payload_of j.read_skill row.payload) [
          | err e ↦ err e
          | ok p ↦ elim (skill_categories batch) [
            | err e ↦ err e
            | ok categories ↦ ok (p.category ∷ categories)
          ]
        ])
        else skill_categories batch

    module _ ⦃o : Outside⦄ where
      -- `categoryIsNew`, which asks nothing for a name that is empty.
      unfoldable pub is_new_category : Str → Action Bool
      is_new_category name =
          if is_empty name
          then pure false
          else list_tag_categories >>= λ categories.
              pure (category_is_new name (map (λ c. c.name) categories))

      unfoldable pub crowded_batch_categories : List EntityDraft → Action (List Str)
      unfolding skill_categories
      crowded_batch_categories batch = do
        existing ← list_tag_categories
        categories ← lift (skill_categories batch)
        pure (crowded_categories (map (λ c. c.name) existing) categories)

      abbrev pub flag_new_category : List EntityDraft → Str → Bool → Action DraftFlags
      flag_new_category batch category false = pure no_flags
      flag_new_category batch category true = do
        crowded ← crowded_batch_categories batch
        pure (record no_flags { new_categories = category ∷ []; crowded_categories = crowded })

      -- `switch d.Kind`
      unfoldable pub flags_of : Kind → Option Str → List EntityDraft → Action DraftFlags
      unfolding is_new_category crowded_batch_categories
      flags_of kind_preference payload batch = do
        p ← lift (payload_of j.read_preference payload)
        existing ← list_preferences
        pure (record no_flags {
          preference_collisions = check_preference_label p.label (map (λ e. e.label) existing);
        })
      flags_of kind_skill payload batch = do
        p ← lift (payload_of j.read_skill payload)
        is_new ← is_new_category p.category
        flag_new_category batch p.category is_new
      flags_of kind payload batch = pure no_flags

      module _ ⦃m : Model⦄ where
        unfoldable pub store_flags : ℕ → DraftFlags → Action DraftFlags
        store_flags id flags =
            if nothing_flagged flags
            then pure flags
            else (lift (or_error marshal_failed (m.write_flags flags)) >>= λ raw.
                set_draft_flags id raw >>= λ _. pure flags)

        unfoldable pub flag_draft : EntityDraft → List EntityDraft → Action DraftFlags
        unfolding flags_of store_flags
        flag_draft d batch = flags_of (kind_named d.kind) d.payload batch >>= store_flags d.id

        unfoldable pub create_drafts : ℕ → List PlannedDraft → Action (List EntityDraft)
        create_drafts batch_id [] = pure []
        create_drafts batch_id (p ∷ planned) = do
          row ← create_entity_draft (staged batch_id p)
          rows ← create_drafts batch_id planned
          pure (row ∷ rows)

        -- The second loop of StageDrafts: `out` is the rows before and from the current one on.
        unfoldable pub flag_drafts : List EntityDraft → List EntityDraft → Action (List EntityDraft)
        unfolding flag_draft
        flag_drafts before [] = pure before
        flag_drafts before (row ∷ rows) = do
          flags ← flag_draft row (before ++ row ∷ rows)
          refreshed ← get_draft row.id
          flag_drafts (before ++ refreshed ∷ []) rows

        unfoldable pub stage_drafts : ℕ → List PlannedDraft → Action (List EntityDraft)
        unfolding create_drafts flag_drafts
        stage_drafts batch_id planned =
            in_transaction (create_drafts batch_id planned >>= flag_drafts [])

        module _ ⦃w : JsonWriter⦄ where
          -- PlanDrafts, which takes ids as it goes.
          unfoldable pub plan_next : CareerExtraction → Action (List PlannedDraft)
          plan_next x = act λ world. after_plan world (plan_drafts x world.issued)

          -- Past the check of the text.
          unfoldable pub extract_text : ℕ → Str → Action (List EntityDraft)
          unfolding quote_join strip_fence stage_drafts plan_next
          extract_text batch_id career_text = do
            prof_levels ← list_proficiency_levels
            career_levels ← list_career_levels
            let prof_values =
                or_default (map (λ l. l.value) prof_levels)
                  (map (λ l. l.value) default_proficiency_levels)
            let level_values =
                or_default (map (λ l. l.value) career_levels)
                  (map (λ l. l.value) (default_career_levels m.framings))
            prompt ← lift (
                or_error prompt_failed
                  (m.render_prompt career_text (quote_join prof_values) (quote_join level_values)))
            raw ←
                lift (
                  or_error model_failed
                    (m.complete prompt career_text career_extraction_max_tokens))
            x ← lift (or_error bad_response (m.read_extraction (strip_fence raw)))
            planned ← plan_next x
            stage_drafts batch_id planned

          unfoldable pub extract_career : ℕ → Str → Action (List EntityDraft)
          unfolding extract_text
          extract_career batch_id career_text =
              if is_blank career_text
              then lift (err blank_text)
              else extract_text batch_id career_text
