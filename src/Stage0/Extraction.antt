-- ===== src/Stage0/Extraction.antt =====
-- The import of a batch (internal/stage0/service.go: RunExtraction, insertDrafts, RunEnrichment).
pub mod Steps
pub mod Finish
use role_model.Prelude.{ℕ, List, [], ◌∷◌, map, ◌||◌, not, none, if◌then◌else◌}
use role_model.Prelude.Results.{err}
use role_model.GoText.{Str, codes, str_eq, is_empty, Unicode}
use role_model.Stage0.{
  Stage0Error, batch_not_pending, prompt_failed, marshal_failed, bad_response, missing_names,
  ImportBatch, ContributionDraft, ExtractedEntry, Outside, Action, ◌>>=◌, ◌>>◌, pure, lift,
  or_error, on_error, log_error, get_batch, list_tags, set_status, fail, ask, new_id,
  create_contribution_draft, update_draft_enrichment, in_transaction,
}
use role_model.Stage0.Tagging.{resolve_suggested_tags}

abbrev pub extraction_max_tokens : ℕ
extraction_max_tokens = 4096

abbrev pub enrichment_max_tokens : ℕ
enrichment_max_tokens = 2048

-- The row that the INSERT returns: pending, not yet enriched.
abbrev pub draft_of : ℕ → ExtractedEntry → ℕ → ContributionDraft
draft_of batch_id e id = record {
  id = id;
  batch_id = batch_id;
  employer_name = e.employer_name;
  position_title = e.position_title;
  summary = e.summary;
  full_description = e.full_description;
  outcomes = e.outcomes;
  scale_context = e.scale_context;
  status = codes "pending";
  flags = [];
  suggested_tags = [];
}

module _ ⦃o : Outside⦄ where
  unfoldable pub insert_each : ℕ → List ExtractedEntry → Action (List ContributionDraft)
  insert_each batch_id [] = pure []
  insert_each batch_id (e ∷ entries) =
      if is_empty e.employer_name || is_empty e.position_title
      then lift (err missing_names)
      else new_id >>= λ id. create_contribution_draft (draft_of batch_id e id) >>= λ d.
          insert_each batch_id entries >>= λ drafts. pure (d ∷ drafts)

  unfoldable pub insert_drafts : ℕ → List ExtractedEntry → Action (List ContributionDraft)
  unfolding insert_each
  insert_drafts batch_id entries = in_transaction (insert_each batch_id entries)

  unfoldable pub read_batch : Str → Action (List ExtractedEntry)
  read_batch raw_text = do
    prompt ← lift (or_error prompt_failed o.extraction_prompt)
    raw ← ask prompt raw_text extraction_max_tokens
    lift (or_error bad_response (o.read_entries raw))

  module _ ⦃u : Unicode⦄ where
    unfoldable pub run_enrichment : ContributionDraft → Action (Unit {0})
    unfolding resolve_suggested_tags
    run_enrichment draft = do
      prompt ← lift (or_error prompt_failed o.enrichment_prompt)
      tags ← list_tags
      let options = map (λ t. (t.name, t.category)) tags
      input ← lift (or_error marshal_failed (o.write_input draft options))
      raw ← ask prompt input enrichment_max_tokens
      result ← lift (or_error bad_response (o.read_enrichment raw))
      let resolved = resolve_suggested_tags tags result.suggested_tags
      update_draft_enrichment draft.id result.flags resolved

    -- A draft whose enrichment fails is only logged.
    unfoldable pub enrich_all : List ContributionDraft → Action (Unit {0})
    unfolding run_enrichment
    enrich_all [] = pure tt
    enrich_all (d ∷ drafts) = log_error (run_enrichment d) >> enrich_all drafts

    -- Past the check of the status.
    unfoldable pub extract_batch : ℕ → Str → Action (Unit {0})
    unfolding read_batch insert_drafts enrich_all
    extract_batch batch_id raw_text = do
      set_status batch_id (codes "extracting") none
      entries ← on_error (read_batch raw_text) (fail batch_id)
      drafts ← on_error (insert_drafts batch_id entries) (fail batch_id)
      set_status batch_id (codes "enriching") none
      enrich_all drafts
      set_status batch_id (codes "review") none

    unfoldable pub run_extraction : ℕ → Action (Unit {0})
    unfolding extract_batch
    run_extraction batch_id = do
      batch ← get_batch batch_id
      if not (str_eq batch.status (codes "pending"))
          then lift (err batch_not_pending)
          else extract_batch batch_id batch.raw_text
