-- ===== src/Stage0/Witnesses.antt =====
-- A small import and what approving its drafts does (internal/stage0/service.go).
use role_model.Prelude.{ℕ, ◌+◌, ◌≡◌, refl, true, false, [], ◌∷◌, map, any, All, none, some}
use role_model.GoText.{
  codes, str_eq, rune_len, byte_len, trim_left, trim_right, trim_space, to_lower,
}
use role_model.GoText.Ascii.{ascii}
use role_model.GoText.Maps.{lookup, assign}
use role_model.Intake.Store.{Tag, Contribution}
use role_model.Stage0.{
  tag_not_found, ImportBatch, ContributionDraft, Store, World, Outside, Action, run, ◌>>=◌, ◌>>◌,
  pure, lift, on_error, log_error, first_with, statement, new_id, ask, set_status, fail,
  in_transaction,
}
use role_model.Stage0.Outcomes.{Ended}
use role_model.Stage0.Tagging.{is_picked, pick_all, tag_key, tags_by_name, resolve_suggested_tags}
use role_model.Stage0.Tagging.Picks.{
  Distinct, is_tag, IsSuggestion, last_tag, resolve_suggested_tags_iff,
}
use role_model.Stage0.Approval.{
  check_draft, verify_tags, assign_tags, write_contribution, approve_draft,
}
use role_model.Stage0.Approval.Effect.{Approved, approve_draft_effect, approve_draft_unchanged}
use role_model.Stage0.Extraction.{
  insert_each, insert_drafts, read_batch, run_enrichment, enrich_all, extract_batch, run_extraction,
}
use role_model.Stage0.Extraction.Finish.{Reviewed, Failed, run_extraction_settles}

abbrev go_tag : Tag
go_tag = record { id = 7; name = codes "Go"; category = codes "Languages" }

-- The answer to the first question is a list of one entry, to later ones the tags of a draft.
instance abbrev steady : Outside
steady = record {
  uuid_new = λ n. 100 + n;
  fails = λ n. false;
  arrange_tags = λ tags. tags;
  extraction_prompt = some (codes "extract");
  enrichment_prompt = some (codes "enrich");
  complete = λ asked prompt content limit. some content;
  read_entries = λ raw. some (
      record {
        employer_name = codes "Acme";
        position_title = codes "Lead";
        summary = some raw;
        full_description = none;
        outcomes = none;
        scale_context = none;
      }
      ∷ []);
  read_enrichment = λ raw.
      some (record { flags = codes "vague" ∷ []; suggested_tags = codes " go" ∷ codes "C" ∷ [] });
  write_input = λ d options. some d.employer_name;
}

abbrev pending_batch : ImportBatch
pending_batch = record {
  id = 1;
  raw_text = codes "I wrote Go.";
  status = codes "pending";
  error_text = none;
}

abbrev draft : ContributionDraft
draft = record {
  id = 3;
  batch_id = 9;
  employer_name = codes "Acme";
  position_title = codes "Engineer";
  summary = some (codes "Wrote Go");
  full_description = some (codes "Wrote Go at Acme");
  outcomes = none;
  scale_context = none;
  status = codes "pending";
  flags = [];
  suggested_tags = [];
}

abbrev store : Store
store = record {
  batches = pending_batch ∷ [];
  drafts = draft ∷ [];
  positions =
      record {
        id = 5;
        employer_id = 4;
        title = codes "Engineer";
        industry_level = none;
        industry_role = none;
        location = none;
        started_on = record { year = 2020; month = 2; day = 1 };
        ended_on = none;
        context_narrative = none;
      }
      ∷ [];
  tags = go_tag ∷ [];
  contributions = [];
  contribution_tags = [];
}

abbrev start : World
start = record { store = store; calls = 0; issued = 0; asked = 0 }

unfoldable unfold_stage0 : Unit {0}
unfolding str_eq rune_len byte_len trim_left trim_right trim_space to_lower lookup assign ◌>>=◌ ◌>>◌
    pure lift on_error log_error first_with statement new_id ask set_status fail in_transaction
    pick_all tags_by_name resolve_suggested_tags check_draft verify_tags assign_tags
    write_contribution approve_draft insert_each insert_drafts read_batch run_enrichment enrich_all
    extract_batch run_extraction
unfold_stage0 = tt

-- The world after an action.
abbrev after : {A : Type 0} → Action A → World
after m = (run m start).1

resolve_suggested_tags_iff_example :
    ((id : ℕ)
      → is_picked id (resolve_suggested_tags (go_tag ∷ []) (codes " go" ∷ codes "C" ∷ []))
        ≡ any
            (λ key. is_tag id (last_tag key (go_tag ∷ [])))
            (map tag_key (codes " go" ∷ codes "C" ∷ [])))
    × Distinct (resolve_suggested_tags (go_tag ∷ []) (codes " go" ∷ codes "C" ∷ []))
    × All
        (IsSuggestion (go_tag ∷ []))
        (resolve_suggested_tags (go_tag ∷ []) (codes " go" ∷ codes "C" ∷ []))
resolve_suggested_tags_iff_example =
    resolve_suggested_tags_iff (go_tag ∷ []) (codes " go" ∷ codes "C" ∷ [])

abbrev contribution : Contribution
contribution = record {
  id = 100;
  position_id = 5;
  summary = codes "Wrote Go";
  full_description = codes "Wrote Go at Acme";
  outcomes = none;
  scale_context = none;
  is_active = true;
}

-- A tag that is given twice is linked once.
linked_once : (after (approve_draft 3 5 (7 ∷ 7 ∷ []))).store.contribution_tags ≡ (100, 7) ∷ []
unfolding unfold_stage0
linked_once = refl

approve_draft_effect_example :
    Approved 3 5 (7 ∷ 7 ∷ []) store contribution (after (approve_draft 3 5 (7 ∷ 7 ∷ []))).store
unfolding unfold_stage0
approve_draft_effect_example =
    approve_draft_effect 3 5 (7 ∷ 7 ∷ []) start (after (approve_draft 3 5 (7 ∷ 7 ∷ [])))
      contribution refl

-- The second tag does not exist.
approve_draft_unchanged_example : (after (approve_draft 3 5 (7 ∷ 8 ∷ []))).store ≡ store
unfolding unfold_stage0
approve_draft_unchanged_example =
    approve_draft_unchanged 3 5 (7 ∷ 8 ∷ []) start (after (approve_draft 3 5 (7 ∷ 8 ∷ [])))
      tag_not_found refl

-- The draft that was added is enriched, the other is not.
enriched :
    map (λ d. d.flags) (after (run_extraction 1)).store.drafts ≡ [] ∷ (codes "vague" ∷ []) ∷ []
unfolding unfold_stage0
enriched = refl

tag_suggested :
    resolve_suggested_tags (go_tag ∷ []) (codes " go" ∷ codes "C" ∷ codes "GO" ∷ [])
    ≡ record { tag_id = 7; name = codes "Go"; category = codes "Languages" } ∷ []
unfolding unfold_stage0
tag_suggested = refl

run_extraction_settles_example :
    Ended (λ a t. Reviewed 1 store t) (Failed 1 store) (run (run_extraction 1) start)
unfolding first_with
run_extraction_settles_example = run_extraction_settles (λ n. refl) 1 start pending_batch refl refl
