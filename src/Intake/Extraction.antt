-- ===== src/Intake/Extraction.antt =====
-- What a career extraction becomes (internal/intake/extract.go: CareerExtraction, PlanDrafts).
-- json.Marshal of each payload is an interface. The closure `add` is a function of the variables
-- that the source's closure captures, which are the record Planning.
pub mod Loops
pub mod Entries
pub mod Plan
pub mod Outcomes
pub mod Checks
pub mod Order
use role_model.Prelude.{
  ℕ, ◌+◌, Bool, true, false, ◌||◌, List, [], ◌∷◌, ◌++◌, Option, none, some, if◌then◌else◌,
}
use role_model.Prelude.Int.{ℤ}
use role_model.Prelude.Results.{Result, ok, err, ◌>>=◌}
use role_model.GoText.{Str, codes, Unicode}
use role_model.GoText.Maps.{lookup, assign}
use role_model.Intake.Payloads.{
  DraftError, marshal_failed, no_field, ref_twice, unknown_ref, TagRef, EmployerPayload,
  PositionPayload, ContributionPayload, SkillPayload, PreferencePayload, EducationPayload,
  CredentialPayload, is_blank,
}
use role_model.Intake.Store.{Outside}

pub record ExtractedEmployer : Type 0 where
  pub ref : Str
  pub name : Str
  pub industry : Option Str

pub record ExtractedPosition : Type 0 where
  pub ref : Str
  pub employer_ref : Str
  pub title : Str
  pub industry_role : Option Str
  pub industry_level : Option Str
  pub location : Option Str
  pub started_on : Str
  pub ended_on : Option Str
  pub context_narrative : Option Str

pub record ExtractedContribution : Type 0 where
  pub position_ref : Str
  pub summary : Str
  pub full_description : Str
  pub outcomes : Option Str
  pub scale_context : Option Str
  pub tags : List TagRef

pub record ExtractedSkill : Type 0 where
  pub category : Str
  pub tag : Str
  pub proficiency : Str
  pub years_experience : Option Str

pub record ExtractedPreference : Type 0 where
  pub preference_type : Str
  pub label : Str
  pub aliases : List Str
  pub sentiment : Str
  pub weight : ℤ
  pub is_hard_gate : Bool
  pub notes : Option Str

pub record ExtractedEducation : Type 0 where
  pub institution : Str
  pub degree : Option Str
  pub field_of_study : Option Str
  pub started_on : Option Str
  pub ended_on : Option Str
  pub notes : Option Str

pub record ExtractedCredential : Type 0 where
  pub name : Str
  pub issuer : Option Str
  pub issued_on : Option Str
  pub expires_on : Option Str
  pub credential_url : Option Str

pub record CareerExtraction : Type 0 where
  pub employers : List ExtractedEmployer
  pub positions : List ExtractedPosition
  pub contributions : List ExtractedContribution
  pub skills : List ExtractedSkill
  pub preferences : List ExtractedPreference
  pub education : List ExtractedEducation
  pub credentials : List ExtractedCredential

pub record PlannedDraft : Type 0 where
  pub id : ℕ
  pub kind : Str
  pub payload : Str
  pub depends_on : List ℕ

-- json.Marshal of a payload of each type.
pub record JsonWriter : Type 0 where
  pub write_employer : EmployerPayload → Option Str
  pub write_position : PositionPayload → Option Str
  pub write_contribution : ContributionPayload → Option Str
  pub write_skill : SkillPayload → Option Str
  pub write_preference : PreferencePayload → Option Str
  pub write_education : EducationPayload → Option Str
  pub write_credential : CredentialPayload → Option Str

-- The variables of PlanDrafts, and how many ids have been issued.
pub record Planning : Type 0 where
  pub employer_ids : List (Str × ℕ)
  pub position_ids : List (Str × ℕ)
  pub out : List PlannedDraft
  pub issued : ℕ

abbrev pub start_planning : ℕ → Planning
start_planning issued = record { employer_ids = []; position_ids = []; out = []; issued = issued }

abbrev pub present : Option ℕ → Bool
present none = false
present (some id) = true

-- `_, ok := ids[ref]`
abbrev pub has_key : Str → List (Str × ℕ) → Bool
has_key ref ids = present (lookup ref ids)

-- `id, ok := m[ref]; if !ok { return ... }`
abbrev pub known : DraftError → Option ℕ → Result DraftError ℕ
known e none = err e
known e (some id) = ok id

abbrev pub employer_payload : ExtractedEmployer → EmployerPayload
employer_payload e = record { name = e.name; industry = e.industry; notes = none }

abbrev pub position_payload : ExtractedPosition → ℕ → PositionPayload
position_payload p employer_id = record {
  employer_draft = some employer_id;
  title = p.title;
  industry_level = p.industry_level;
  industry_role = p.industry_role;
  location = p.location;
  started_on = p.started_on;
  ended_on = p.ended_on;
  context_narrative = p.context_narrative;
}

abbrev pub contribution_payload : ExtractedContribution → ℕ → ContributionPayload
contribution_payload c position_id = record {
  position_draft = some position_id;
  summary = c.summary;
  full_description = c.full_description;
  outcomes = c.outcomes;
  scale_context = c.scale_context;
  tags = c.tags;
}

abbrev pub skill_payload : ExtractedSkill → SkillPayload
skill_payload s = record {
  category = s.category;
  tag = s.tag;
  proficiency = s.proficiency;
  years_experience = s.years_experience;
}

abbrev pub preference_payload : ExtractedPreference → PreferencePayload
preference_payload p = record {
  preference_type = p.preference_type;
  label = p.label;
  aliases = p.aliases;
  sentiment = p.sentiment;
  weight = p.weight;
  is_hard_gate = p.is_hard_gate;
  notes = p.notes;
}

abbrev pub education_payload : ExtractedEducation → EducationPayload
education_payload e = record {
  institution = e.institution;
  degree = e.degree;
  field_of_study = e.field_of_study;
  started_on = e.started_on;
  ended_on = e.ended_on;
  notes = e.notes;
}

abbrev pub credential_payload : ExtractedCredential → CredentialPayload
credential_payload c = record {
  name = c.name;
  issuer = c.issuer;
  issued_on = c.issued_on;
  expires_on = c.expires_on;
  credential_url = c.credential_url;
}

-- `for _, x := range xs { ... }` with a return on an error.
unfoldable pub plan_each :
    {A : Type 0}
    → (A → Planning → Result DraftError Planning)
    → List A
    → Planning
    → Result DraftError Planning
plan_each plan [] st = ok st
plan_each plan (x ∷ xs) st = plan x st >>= plan_each plan xs

module _ ⦃o : Outside⦄ where
  -- The next id, which the draft that `add` appends takes.
  abbrev pub next_id : Planning → ℕ
  next_id st = o.uuid_new st.issued

  unfoldable pub add : Str → Option Str → List ℕ → Planning → Result DraftError Planning
  add kind none deps st = err marshal_failed
  add kind (some raw) deps st = ok (record st {
    out = st.out ++ record { id = next_id st; kind = kind; payload = raw; depends_on = deps } ∷ [];
    issued = st.issued + 1;
  })

  module _ ⦃u : Unicode⦄ ⦃j : JsonWriter⦄ where
    unfoldable pub plan_employer : ExtractedEmployer → Planning → Result DraftError Planning
    unfolding add
    plan_employer e st =
        if is_blank e.name
        then err (no_field (codes "employer") e.ref)
        else if has_key e.ref st.employer_ids
        then err (ref_twice e.ref)
        else add (codes "employer") (j.write_employer (employer_payload e)) []
            (record st { employer_ids = assign e.ref (next_id st) st.employer_ids })

    unfoldable pub plan_position : ExtractedPosition → Planning → Result DraftError Planning
    unfolding add
    plan_position p st = do
      let parent = lookup p.employer_ref st.employer_ids
      employer_id ← known (unknown_ref p.title p.employer_ref) parent
      let noted = record st { position_ids = assign p.ref (next_id st) st.position_ids }
      if has_key p.ref st.position_ids
          then err (ref_twice p.ref)
          else add (codes "position") (j.write_position (position_payload p employer_id))
              (employer_id ∷ []) noted

    unfoldable pub plan_contribution : ExtractedContribution → Planning → Result DraftError Planning
    unfolding add
    plan_contribution c st = do
      let parent = lookup c.position_ref st.position_ids
      position_id ← known (unknown_ref c.summary c.position_ref) parent
      add (codes "contribution") (j.write_contribution (contribution_payload c position_id))
          (position_id ∷ []) st

    unfoldable pub plan_skill : ExtractedSkill → Planning → Result DraftError Planning
    unfolding add
    plan_skill s st =
        if is_blank s.tag || is_blank s.category
        then err (no_field (codes "skill") s.tag)
        else add (codes "skill") (j.write_skill (skill_payload s)) [] st

    unfoldable pub plan_preference : ExtractedPreference → Planning → Result DraftError Planning
    unfolding add
    plan_preference p st =
        if is_blank p.label
        then err (no_field (codes "preference") p.preference_type)
        else add (codes "preference") (j.write_preference (preference_payload p)) [] st

    unfoldable pub plan_education : ExtractedEducation → Planning → Result DraftError Planning
    unfolding add
    plan_education e st =
        if is_blank e.institution
        then err (no_field (codes "education") [])
        else add (codes "education") (j.write_education (education_payload e)) [] st

    unfoldable pub plan_credential : ExtractedCredential → Planning → Result DraftError Planning
    unfolding add
    plan_credential c st =
        if is_blank c.name
        then err (no_field (codes "credential") [])
        else add (codes "credential") (j.write_credential (credential_payload c)) [] st

    -- The drafts are the field `out`; `issued` is the number of ids issued before the call.
    unfoldable pub plan_drafts : CareerExtraction → ℕ → Result DraftError Planning
    unfolding plan_each plan_employer plan_position plan_contribution plan_skill plan_preference
        plan_education plan_credential
    plan_drafts x issued = do
      st ← plan_each plan_employer x.employers (start_planning issued)
      st ← plan_each plan_position x.positions st
      st ← plan_each plan_contribution x.contributions st
      st ← plan_each plan_skill x.skills st
      st ← plan_each plan_preference x.preferences st
      st ← plan_each plan_education x.education st
      plan_each plan_credential x.credentials st
