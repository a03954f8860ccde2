-- ===== src/Intake/Payloads.antt =====
-- The payload of each kind of draft and what makes it usable (internal/intake/resolve.go: the
-- payload types, their validate methods and ValidatePayload).
-- The text of a payload is one JSON document. Package encoding/json is an interface: a reader for
-- each payload type, and the test that DisallowUnknownFields makes on top of it.
use role_model.Prelude.{ℕ, Bool, ◌||◌, List, Option, none, some, if◌then◌else◌}
use role_model.Prelude.Int.{ℤ}
use role_model.Prelude.Results.{Result, ok, err, ◌>>=◌, ◌>>◌}
use role_model.GoText.{Str, codes, str_eq, is_empty, Unicode, trim_space}
use role_model.Intake.Dates.{Date, parse_date, optional_date}

-- Why a draft does not become a row.
pub data DraftError : Type 0 where
  database_failed no_payload bad_payload draft_not_found draft_not_pending commit_failed
        err_unresolved :
      DraftError
  required bad_date : Str → DraftError
  no_resolver : Str → DraftError
  not_resolved : Str → ℕ → DraftError
  dependency_not_resolved : ℕ → Option (Str × Str) → DraftError
  blank_text prompt_failed model_failed bad_response marshal_failed : DraftError
  -- What an extraction lacks: a field of an entry, a reference of its own, a parent.
  no_field : Str → Str → DraftError
  ref_twice : Str → DraftError
  unknown_ref : Str → Str → DraftError

-- The kinds of draft that the resolver knows, and any other.
pub data Kind : Type 0 where
  kind_employer kind_position kind_contribution kind_skill : Kind
  kind_preference kind_education kind_credential kind_other : Kind

-- The cases of `switch kind`, in order.
unfoldable pub kind_named : Str → Kind
kind_named kind =
    if str_eq kind (codes "employer")
    then kind_employer
    else if str_eq kind (codes "position")
    then kind_position
    else if str_eq kind (codes "contribution")
    then kind_contribution
    else if str_eq kind (codes "skill")
    then kind_skill
    else if str_eq kind (codes "preference")
    then kind_preference
    else if str_eq kind (codes "education")
    then kind_education
    else if str_eq kind (codes "credential")
    then kind_credential
    else kind_other

pub record EmployerPayload : Type 0 where
  pub name : Str
  pub industry : Option Str
  pub notes : Option Str

pub record PositionPayload : Type 0 where
  pub employer_draft : Option ℕ
  pub title : Str
  pub industry_level : Option Str
  pub industry_role : Option Str
  pub location : Option Str
  pub started_on : Str
  pub ended_on : Option Str
  pub context_narrative : Option Str

pub record TagRef : Type 0 where
  pub category : Str
  pub name : Str

pub record ContributionPayload : Type 0 where
  pub position_draft : Option ℕ
  pub summary : Str
  pub full_description : Str
  pub outcomes : Option Str
  pub scale_context : Option Str
  pub tags : List TagRef

-- The years are kept as "%.1f" prints them.
pub record SkillPayload : Type 0 where
  pub category : Str
  pub tag : Str
  pub proficiency : Str
  pub years_experience : Option Str

pub record PreferencePayload : Type 0 where
  pub preference_type : Str
  pub label : Str
  pub aliases : List Str
  pub sentiment : Str
  pub weight : ℤ
  pub is_hard_gate : Bool
  pub notes : Option Str

pub record EducationPayload : Type 0 where
  pub institution : Str
  pub degree : Option Str
  pub field_of_study : Option Str
  pub started_on : Option Str
  pub ended_on : Option Str
  pub notes : Option Str

pub record CredentialPayload : Type 0 where
  pub name : Str
  pub issuer : Option Str
  pub issued_on : Option Str
  pub expires_on : Option Str
  pub credential_url : Option Str

-- json.Unmarshal into each payload type, and whether a document for a kind has no unknown field.
pub record Json : Type 0 where
  pub read_employer : Str → Option EmployerPayload
  pub read_position : Str → Option PositionPayload
  pub read_contribution : Str → Option ContributionPayload
  pub read_skill : Str → Option SkillPayload
  pub read_preference : Str → Option PreferencePayload
  pub read_education : Str → Option EducationPayload
  pub read_credential : Str → Option CredentialPayload
  pub only_known : Str → Str → Bool

abbrev pub Checked : Type 0
Checked = Result DraftError (Unit {0})

module _ ⦃u : Unicode⦄ where
  abbrev pub is_blank : Str → Bool
  is_blank s = is_empty (trim_space s)

  abbrev pub require : Str → Str → Checked
  require field s = if is_blank s then err (required field) else ok tt

  -- `fmt.Errorf("started_on: %w", err)`
  abbrev pub date_field {ℓ} : {A : Type ℓ} → Str → Result Str A → Result DraftError A
  date_field field (ok a) = ok a
  date_field field (err t) = err (bad_date field)

  -- The end of a position: only an absent or an empty text is no date.
  unfoldable pub end_date : Option Str → Result DraftError (Option Date)
  end_date none = ok none
  end_date (some s) =
      if is_empty s then ok none else elim (date_field (codes "ended_on") (parse_date s)) [
        | ok d ↦ ok (some d)
        | err e ↦ err e
      ]

  unfoldable pub validate_employer : EmployerPayload → Checked
  validate_employer p = require (codes "name") p.name

  unfoldable pub validate_position : PositionPayload → Checked
  unfolding end_date
  validate_position p = date_field (codes "started_on") (parse_date p.started_on) >>= λ _.
      end_date p.ended_on >>= λ _. ok tt

  unfoldable pub validate_contribution : ContributionPayload → Checked
  validate_contribution p =
      if is_blank p.summary || is_blank p.full_description
      then err (required (codes "summary and full_description"))
      else ok tt

  unfoldable pub validate_skill : SkillPayload → Checked
  validate_skill p = require (codes "proficiency") p.proficiency

  unfoldable pub validate_preference : PreferencePayload → Checked
  validate_preference p = require (codes "label") p.label

  unfoldable pub validate_education : EducationPayload → Checked
  validate_education p = do
    require (codes "institution") p.institution
    started ← date_field (codes "started_on") (optional_date p.started_on)
    ended ← date_field (codes "ended_on") (optional_date p.ended_on)
    ok tt

  unfoldable pub validate_credential : CredentialPayload → Checked
  validate_credential p = do
    require (codes "name") p.name
    issued ← date_field (codes "issued_on") (optional_date p.issued_on)
    expires ← date_field (codes "expires_on") (optional_date p.expires_on)
    ok tt

  module _ ⦃j : Json⦄ where
    -- `decode` of ValidatePayload, then the check.
    abbrev pub decode_then {ℓ} : {A : Type ℓ} → Str → Str → Option A → (A → Checked) → Checked
    decode_then kind raw none check = err bad_payload
    decode_then kind raw (some p) check = if j.only_known kind raw then check p else err bad_payload

    unfoldable pub validate_kind : Kind → Str → Str → Checked
    validate_kind kind_employer kind raw =
        decode_then kind raw (j.read_employer raw) validate_employer
    validate_kind kind_position kind raw =
        decode_then kind raw (j.read_position raw) validate_position
    validate_kind kind_contribution kind raw =
        decode_then kind raw (j.read_contribution raw) validate_contribution
    validate_kind kind_skill kind raw = decode_then kind raw (j.read_skill raw) validate_skill
    validate_kind kind_preference kind raw =
        decode_then kind raw (j.read_preference raw) validate_preference
    validate_kind kind_education kind raw =
        decode_then kind raw (j.read_education raw) validate_education
    validate_kind kind_credential kind raw =
        decode_then kind raw (j.read_credential raw) validate_credential
    validate_kind kind_other kind raw = err (no_resolver kind)

    unfoldable pub validate_payload : Str → Str → Checked
    validate_payload kind raw = validate_kind (kind_named kind) kind raw
