-- ===== src/Intake/Samples.antt =====
-- Small batches, how they are ordered and what approving them does.
use Prim.Native.String.{String}
use role_model.Prelude.{ℕ, ◌+◌, ◌≡◌, refl, true, false, List, [], ◌∷◌, none, some}
use role_model.Prelude.Int.{pos}
use role_model.Prelude.Results.{ok, err}
use role_model.GoText.{
  codes, str_eq, rune_len, byte_len, equal_fold, trim_left, trim_right, trim_space,
}
use role_model.GoText.Ascii.{ascii}
use role_model.GoText.{fields_from, fields_func, to_lower}
use role_model.Intake.Collisions.{
  same_words, equal_runs, str_leb, insert, sort, equal_bags, match_at, match_from, contains_run,
  collision_reason, token_bag, collisions_with, check_preference_label,
}
use role_model.Intake.Flags.{
  scan_tokens, shared_from, has_shared_token, is_crowded, propose, crowded_categories,
  category_is_new,
}
use role_model.Intake.Dates.{
  digits_from, is_leap, days_in, check_date, parse_day, parse_month, parse_date, optional_date,
}
use role_model.Intake.Payloads.{
  dependency_not_resolved, required, kind_named, Json, end_date, validate_employer,
  validate_position, validate_skill, validate_preference, validate_kind, validate_payload,
}
use role_model.Intake.Store.{
  Store, World, Outside, run, ◌>>=◌, ◌>>◌, pure, lift, query, execute, new_id, mark_resolved,
}
use role_model.Intake.TagVocabulary.{
  next_sort, find_tag, category_named, max_sort, create_tag_category, create_tag, resolve_category,
  create_missing_tag, resolve_or_create_tag,
}
use role_model.Intake.Resolvers.Kinds.{IsListing}
use role_model.Intake.Resolvers.{
  row_of, parent_of, find_employer, create_employer, write_employer, create_position,
  write_position, scan_years, create_skill, write_skill, create_preference, write_preference,
  resolve_kind, resolve_one,
}
use role_model.Intake.Approval.{
  seed_resolved, describe_dependency, check_dependencies, find_draft, found_draft, in_transaction,
  get_draft, resolve_and_mark, resolve_all, resolve_ordered, resolve_batch, approve_pending,
  approve_draft,
}
use role_model.Intake.Ordering.{
  EntityDraft, missing, cycle, put, collect_pending, visit, pass, rounds, in_cycle, unresolved,
  classify, final_state, topo_order,
}

abbrev pub draft : ℕ → List ℕ → EntityDraft
draft id depends_on = record {
  id = id;
  batch_id = 1;
  payload = none;
  kind = codes "position";
  status = codes "pending";
  depends_on = depends_on;
  resolved_id = none;
  flags = none;
}

-- A contribution (3) to a position (2) at an employer (1), listed backwards.
abbrev pub backwards : List EntityDraft
backwards = draft 3 (2 ∷ []) ∷ draft 2 (1 ∷ []) ∷ draft 1 [] ∷ []

unfoldable pub unfold_order : Unit {0}
unfolding str_eq put collect_pending visit pass rounds in_cycle unresolved classify final_state
    topo_order
unfold_order = tt

three_rounds :
    topo_order backwards []
    ≡ some (record { order = draft 1 [] ∷ draft 2 (1 ∷ []) ∷ draft 3 (2 ∷ []) ∷ []; stuck = [] })
unfolding unfold_order
three_rounds = refl

-- Draft 1 names 9, which is not there; draft 2 names 1. Nothing is circular, and yet draft 2 is
-- reported as part of a cycle.
chain_reported_as_cycle :
    topo_order (draft 1 (9 ∷ []) ∷ draft 2 (1 ∷ []) ∷ []) []
    ≡ some (record { order = []; stuck = (1, missing (9 ∷ [])) ∷ (2, cycle (1 ∷ [])) ∷ [] })
unfolding unfold_order
chain_reported_as_cycle = refl

-- A document of these samples is the text of one field; package encoding/json reads it into that
-- field and leaves the others at fixed values.
instance abbrev pub documents : Json
documents = record {
  read_employer = λ raw. some (record { name = raw; industry = none; notes = none });
  read_position = λ raw. some (record {
    employer_draft = some 1;
    title = raw;
    industry_level = none;
    industry_role = none;
    location = none;
    started_on = codes "2020-02";
    ended_on = none;
    context_narrative = none;
  });
  read_contribution = λ raw. none;
  read_skill = λ raw. some (record {
    category = raw;
    tag = codes "Go";
    proficiency = codes "expert";
    years_experience = none;
  });
  read_preference = λ raw. some (record {
    preference_type = codes "culture";
    label = raw;
    aliases = [];
    sentiment = codes "positive";
    weight = pos 1;
    is_hard_gate = false;
    notes = none;
  });
  read_education = λ raw. none;
  read_credential = λ raw. none;
  only_known = λ kind raw. true;
}

-- Ids count up from 100 and no statement fails.
instance abbrev pub steady : Outside
steady = record {
  uuid_new = λ n. 100 + n;
  fails = λ n. false;
  arrange_employers = λ rows. rows;
  arrange_drafts = λ rows. rows;
  arrange_tags = λ rows. rows;
  arrange_categories = λ rows. rows;
  arrange_preferences = λ rows. rows;
  arrange_career_levels = λ rows. rows;
  arrange_proficiency_levels = λ rows. rows;
  arrange_sections = λ rows. rows;
  scan_numeric = λ text. some text;
}

pub steady-IsListing : IsListing steady
steady-IsListing = record { employers = λ rows e m. m; drafts = λ rows d. (λ m. m, λ m. m) }

abbrev pub pending_draft : ℕ → String → String → List ℕ → EntityDraft
pending_draft id kind raw depends_on = record {
  id = id;
  batch_id = 1;
  kind = codes kind;
  payload = some (codes raw);
  status = codes "pending";
  depends_on = depends_on;
  resolved_id = none;
  flags = none;
}

-- A position (2) at an employer (1), and a preference (3) that hangs on nothing there.
abbrev pub two_jobs : List EntityDraft
two_jobs =
    pending_draft 2 "position" "Engineer" (1 ∷ [])
    ∷ pending_draft 1 "employer" "Acme" []
    ∷ pending_draft 3 "preference" "remote" (9 ∷ [])
    ∷ []

-- A kind that no resolver knows, after one that would resolve.
abbrev pub bad_batch : List EntityDraft
bad_batch =
    record (pending_draft 1 "employer" "Acme" []) { batch_id = 2 }
    ∷ record (pending_draft 2 "award" "best" []) { batch_id = 2 }
    ∷ []

abbrev pub empty_store : Store
empty_store = record {
  employers = [];
  positions = [];
  contributions = [];
  contribution_tags = [];
  tag_categories = [];
  tags = [];
  skills = [];
  preferences = [];
  educations = [];
  credentials = [];
  drafts = [];
  career_levels = [];
  proficiency_levels = [];
  resume_sections = [];
}

abbrev pub world_of : List EntityDraft → World
world_of drafts = record { store = record empty_store { drafts = drafts }; calls = 0; issued = 0 }

unfoldable pub unfold_approval : Unit {0}
unfolding unfold_order rune_len byte_len equal_fold trim_left trim_right trim_space digits_from
    is_leap days_in check_date parse_day parse_month parse_date optional_date kind_named end_date
    validate_employer validate_position validate_skill validate_preference validate_kind
    validate_payload ◌>>=◌ ◌>>◌ pure lift query execute new_id mark_resolved next_sort find_tag
    category_named max_sort create_tag_category create_tag resolve_category create_missing_tag
    resolve_or_create_tag row_of parent_of find_employer create_employer write_employer
    create_position write_position scan_years create_skill write_skill create_preference
    write_preference resolve_kind resolve_one seed_resolved describe_dependency check_dependencies
    find_draft found_draft in_transaction get_draft resolve_and_mark resolve_all resolve_ordered
    resolve_batch approve_pending approve_draft
unfold_approval = tt

-- A position cannot be approved before its employer.
employer_first :
    (run (approve_draft 2) (world_of two_jobs)).0
    ≡ err (dependency_not_resolved 1 (some (codes "employer", codes "pending")))
unfolding unfold_approval
employer_first = refl

-- The batch is resolved but for the preference, whose dependency is not there.
batch_but_one :
    (run (resolve_batch 1) (world_of two_jobs)).0
    ≡ ok (record {
      resolved = (2, 101) ∷ (1, 100) ∷ [];
      unresolved = (3, missing (9 ∷ [])) ∷ [];
      complete = false;
    })
unfolding unfold_approval
batch_but_one = refl

-- The edit-time check accepts a skill with a blank category, which the resolver then refuses.
blank_category_accepted : validate_payload (codes "skill") (codes " ") ≡ ok tt
unfolding unfold_approval
blank_category_accepted = refl

blank_category_refused :
    (run (resolve_one (pending_draft 1 "skill" " " []) []) (world_of [])).0
    ≡ err (required (codes "category and name"))
unfolding unfold_approval
blank_category_refused = refl

unfoldable pub unfold_labels : Unit {0}
unfolding unfold_approval fields_from fields_func to_lower equal_runs str_leb insert sort equal_bags
    match_at match_from contains_run collision_reason token_bag collisions_with
    check_preference_label scan_tokens shared_from has_shared_token is_crowded propose
    crowded_categories category_is_new
unfold_labels = tt

-- "X over Y" is reported against "Y over X".
swapped_label :
    check_preference_label (codes "Product over Platform") (codes "platform over product" ∷ [])
    ≡ record { existing = codes "platform over product"; reason = same_words } ∷ []
unfolding unfold_labels
swapped_label = refl

two_improvements :
    crowded_categories [] (codes "Quality Improvement" ∷ codes "Process Improvement" ∷ [])
    ≡ codes "Process Improvement" ∷ codes "Quality Improvement" ∷ []
unfolding unfold_labels
two_improvements = refl

known_category : category_is_new (codes "cloud") (codes "Cloud" ∷ []) ≡ false
unfolding unfold_labels
known_category = refl
