-- ===== src/Intake/Resolvers.antt =====
-- One draft turned into one row (internal/intake/resolve.go: payloadOf, parentOf, the resolvers of
-- the seven kinds, resolveOne).
pub mod Rows
pub mod Kinds
pub mod Validity
pub mod Sufficiency
use role_model.Prelude.{
  ℕ, Bool, true, false, List, [], ◌∷◌, ◌++◌, Option, none, some, ◌==◌, if◌then◌else◌,
}
use role_model.Prelude.Results.{Result, ok, err}
use role_model.GoText.{Str, codes, str_eq, Unicode, equal_fold}
use role_model.Intake.Dates.{Date, parse_date, optional_date}
use role_model.Intake.Payloads.{
  DraftError, no_payload, bad_payload, required, not_resolved, bad_date, no_resolver, TagRef, Kind,
  kind_employer, kind_position, kind_contribution, kind_skill, kind_preference, kind_education,
  kind_credential, kind_other, kind_named, EmployerPayload, PositionPayload, ContributionPayload,
  SkillPayload, PreferencePayload, EducationPayload, CredentialPayload, Json, date_field, end_date,
  validate_employer, validate_contribution, validate_skill, validate_preference, validate_education,
  validate_credential,
}
use role_model.Intake.Ordering.{EntityDraft}
use role_model.Intake.Store.{
  Employer, Outside, Action, ◌>>=◌, ◌>>◌, pure, lift, execute, new_id, get_employers, assign_tag,
}
use role_model.Intake.TagVocabulary.{resolve_or_create_tag}

-- json.Unmarshal of the draft's payload, which may be NULL.
abbrev pub payload_of {ℓ} : {P : Type ℓ} → (Str → Option P) → Option Str → Result DraftError P
payload_of read none = err no_payload
payload_of read (some raw) = elim (read raw) [ none ↦ err bad_payload | some p ↦ ok p ]

-- A Go map from draft ids to row ids: the latest entry of a key is the first.
abbrev pub Resolved : Type 0
Resolved = List (ℕ × ℕ)

unfoldable pub row_of : Resolved → ℕ → Option ℕ
row_of [] id = none
row_of ((k, row) ∷ resolved) id = if k == id then some row else row_of resolved id

unfoldable pub parent_of : Str → Option ℕ → Resolved → Result DraftError ℕ
parent_of field none resolved = err (required field)
parent_of field (some id) resolved = elim (row_of resolved id) [
  | some row ↦ ok row
  | none ↦ err (not_resolved field id)
]

module _ ⦃u : Unicode⦄ where
  unfoldable pub find_employer : Str → List Employer → Option ℕ
  find_employer name [] = none
  find_employer name (e ∷ es) = if equal_fold e.name name then some e.id else find_employer name es

  module _ ⦃o : Outside⦄ where
    unfoldable pub create_employer : EmployerPayload → Action ℕ
    create_employer p = do
      id ← new_id
      execute (λ s. record s {
        employers =
            s.employers
            ++ record { id = id; name = p.name; industry = p.industry; notes = p.notes } ∷ [];
      })
      pure id

    unfoldable pub write_employer : EmployerPayload → Action ℕ
    write_employer p = do
      lift (validate_employer p)
      existing ← get_employers
      elim (find_employer p.name existing) [ some id ↦ pure id | none ↦ create_employer p ]

    unfoldable pub create_position : PositionPayload → ℕ → Date → Option Date → Action ℕ
    create_position p employer_id started ended = do
      id ← new_id
      execute (λ s. record s {
        positions =
            s.positions
            ++ record {
              id = id;
              employer_id = employer_id;
              title = p.title;
              industry_level = p.industry_level;
              industry_role = p.industry_role;
              location = p.location;
              started_on = started;
              ended_on = ended;
              context_narrative = p.context_narrative;
            }
              ∷ [];
      })
      pure id

    unfoldable pub write_position : Resolved → PositionPayload → Action ℕ
    write_position resolved p = do
      employer_id ← lift (parent_of (codes "employer_draft") p.employer_draft resolved)
      started ← lift (date_field (codes "started_on") (parse_date p.started_on))
      ended ← lift (end_date p.ended_on)
      create_position p employer_id started ended

    unfoldable pub create_contribution : ContributionPayload → ℕ → Action ℕ
    create_contribution p position_id = do
      id ← new_id
      execute (λ s. record s {
        contributions =
            s.contributions
            ++ record {
              id = id;
              position_id = position_id;
              summary = p.summary;
              full_description = p.full_description;
              outcomes = p.outcomes;
              scale_context = p.scale_context;
              is_active = true;
            }
              ∷ [];
      })
      pure id

    unfoldable pub tag_contribution : ℕ → List TagRef → Action (Unit {0})
    tag_contribution id [] = pure tt
    tag_contribution id (ref ∷ refs) = do
      tag ← resolve_or_create_tag ref.category ref.name
      assign_tag id tag.id
      tag_contribution id refs

    unfoldable pub write_contribution : Resolved → ContributionPayload → Action ℕ
    write_contribution resolved p = do
      position_id ← lift (parent_of (codes "position_draft") p.position_draft resolved)
      lift (validate_contribution p)
      id ← create_contribution p position_id
      tag_contribution id p.tags
      pure id

    -- years.Scan of the printed number
    unfoldable pub scan_years : Option Str → Result DraftError (Option Str)
    scan_years none = ok none
    scan_years (some text) = elim (o.scan_numeric text) [
      | some n ↦ ok (some n)
      | none ↦ err (required (codes "years_experience"))
    ]

    unfoldable pub create_skill : SkillPayload → ℕ → Option Str → Action ℕ
    create_skill p tag_id years = do
      id ← new_id
      execute (λ s. record s {
        skills =
            s.skills
            ++ record {
              id = id;
              tag_id = tag_id;
              proficiency = p.proficiency;
              years_experience = years;
              is_active = true;
            }
              ∷ [];
      })
      pure id

    unfoldable pub write_skill : SkillPayload → Action ℕ
    write_skill p = do
      tag ← resolve_or_create_tag p.category p.tag
      lift (validate_skill p)
      years ← lift (scan_years p.years_experience)
      create_skill p tag.id years

    unfoldable pub create_preference : PreferencePayload → Action ℕ
    create_preference p = do
      id ← new_id
      execute (λ s. record s {
        preferences =
            s.preferences
            ++ record {
              id = id;
              preference_type = p.preference_type;
              label = p.label;
              sentiment = p.sentiment;
              weight = p.weight;
              is_hard_gate = p.is_hard_gate;
              notes = p.notes;
              aliases = p.aliases;
            }
              ∷ [];
      })
      pure id

    unfoldable pub write_preference : PreferencePayload → Action ℕ
    write_preference p = do lift (validate_preference p); create_preference p

    unfoldable pub create_education : EducationPayload → Option Date → Option Date → Action ℕ
    create_education p started ended = do
      id ← new_id
      execute (λ s. record s {
        educations =
            s.educations
            ++ record {
              id = id;
              institution = p.institution;
              degree = p.degree;
              field_of_study = p.field_of_study;
              started_on = started;
              ended_on = ended;
              notes = p.notes;
            }
              ∷ [];
      })
      pure id

    unfoldable pub write_education : EducationPayload → Action ℕ
    write_education p = do
      lift (validate_education p)
      started ← lift (date_field (codes "started_on") (optional_date p.started_on))
      ended ← lift (date_field (codes "ended_on") (optional_date p.ended_on))
      create_education p started ended

    unfoldable pub create_credential : CredentialPayload → Option Date → Option Date → Action ℕ
    create_credential p issued expires = do
      id ← new_id
      execute (λ s. record s {
        credentials =
            s.credentials
            ++ record {
              id = id;
              name = p.name;
              issuer = p.issuer;
              issued_on = issued;
              expires_on = expires;
              credential_url = p.credential_url;
            }
              ∷ [];
      })
      pure id

    unfoldable pub write_credential : CredentialPayload → Action ℕ
    write_credential p = do
      lift (validate_credential p)
      issued ← lift (date_field (codes "issued_on") (optional_date p.issued_on))
      expires ← lift (date_field (codes "expires_on") (optional_date p.expires_on))
      create_credential p issued expires

    module _ ⦃j : Json⦄ where
      unfoldable pub resolve_kind : Kind → EntityDraft → Resolved → Action ℕ
      resolve_kind kind_employer d resolved =
          lift (payload_of j.read_employer d.payload) >>= write_employer
      resolve_kind kind_position d resolved =
          lift (payload_of j.read_position d.payload) >>= write_position resolved
      resolve_kind kind_contribution d resolved =
          lift (payload_of j.read_contribution d.payload) >>= write_contribution resolved
      resolve_kind kind_skill d resolved = lift (payload_of j.read_skill d.payload) >>= write_skill
      resolve_kind kind_preference d resolved =
          lift (payload_of j.read_preference d.payload) >>= write_preference
      resolve_kind kind_education d resolved =
          lift (payload_of j.read_education d.payload) >>= write_education
      resolve_kind kind_credential d resolved =
          lift (payload_of j.read_credential d.payload) >>= write_credential
      resolve_kind kind_other d resolved = lift (err (no_resolver d.kind))

      unfoldable pub resolve_one : EntityDraft → Resolved → Action ℕ
      resolve_one d resolved = resolve_kind (kind_named d.kind) d resolved
