-- ===== src/Intake/Extraction/Entries.antt =====
-- The entries of each kind, planned one at a time (internal/intake/extract.go: PlanDrafts).
use role_model.Prelude.{
  ℕ, ◌≡◌, ◌∙◌, ◌||◌, List, [], ◌∷◌, append-nil, some, Bool-cases, Option-cases, inl, inr,
}
use role_model.Prelude.Results.{ok}
use role_model.GoText.{Str, codes, Unicode}
use role_model.GoText.Maps.{lookup, assign}
use role_model.Intake.Payloads.{is_blank}
use role_model.Intake.Store.{Outside}
use role_model.Intake.Extraction.{
  ExtractedEmployer, ExtractedPosition, ExtractedContribution, ExtractedSkill, ExtractedPreference,
  ExtractedEducation, ExtractedCredential, PlannedDraft, JsonWriter, Planning, has_key,
  employer_payload, position_payload, contribution_payload, skill_payload, preference_payload,
  education_payload, credential_payload, plan_employer, plan_position, plan_contribution,
  plan_skill, plan_preference, plan_education, plan_credential,
}
use role_model.Intake.Extraction.Loops.{
  assign_new, Step, IsDraft, unnamed, employer_name, position_name, add-Step,
}

module _ ⦃o : Outside⦄ where
  module _ ⦃u : Unicode⦄ ⦃j : JsonWriter⦄ where
    abbrev pub EmployerRow : ExtractedEmployer → ℕ → PlannedDraft → Type 0
    EmployerRow e = IsDraft (codes "employer") (j.write_employer (employer_payload e)) []

    -- The parent is the draft of the employer with the reference.
    abbrev pub PositionRow : List (Str × ℕ) → ExtractedPosition → ℕ → PlannedDraft → Type 0
    PositionRow ids p n d =
        (parent : ℕ) × (lookup p.employer_ref ids ≡ some parent)
        × IsDraft (codes "position") (j.write_position (position_payload p parent)) (parent ∷ []) n
            d

    abbrev pub ContributionRow : List (Str × ℕ) → ExtractedContribution → ℕ → PlannedDraft → Type 0
    ContributionRow ids c n d =
        (parent : ℕ) × (lookup c.position_ref ids ≡ some parent)
        × IsDraft (codes "contribution") (j.write_contribution (contribution_payload c parent))
            (parent ∷ []) n d

    abbrev pub SkillRow : ExtractedSkill → ℕ → PlannedDraft → Type 0
    SkillRow s = IsDraft (codes "skill") (j.write_skill (skill_payload s)) []

    abbrev pub PreferenceRow : ExtractedPreference → ℕ → PlannedDraft → Type 0
    PreferenceRow p = IsDraft (codes "preference") (j.write_preference (preference_payload p)) []

    abbrev pub EducationRow : ExtractedEducation → ℕ → PlannedDraft → Type 0
    EducationRow e = IsDraft (codes "education") (j.write_education (education_payload e)) []

    abbrev pub CredentialRow : ExtractedCredential → ℕ → PlannedDraft → Type 0
    CredentialRow c = IsDraft (codes "credential") (j.write_credential (credential_payload c)) []

    abbrev pub Any : Planning → Type 0
    Any st = Unit

    pub plan_employer-Step :
        (e : ExtractedEmployer) (st st' : Planning)
        → Any st
        → plan_employer e st ≡ ok st'
        → Step employer_name unnamed Any EmployerRow e st st'
    unfolding plan_employer
    plan_employer-Step e st st' i h = elim (Bool-cases (is_blank e.name)) [
      | inl blank ↦ cc (rw blank at h)
      | inr named ↦ elim (Bool-cases (has_key e.ref st.employer_ids)) [
        | inl twice ↦ cc (rw (named, twice) at h)
        | inr fresh ↦
            let noted = assign e.ref (o.uuid_new st.issued) st.employer_ids in
            let s =
              add-Step Any EmployerRow e _ _ _ (record st { employer_ids = noted }) st' (λ out. tt)
                (λ d f. f) (rw (named, fresh) at h) in
            record {
              keeps = tt;
              draft = s.draft;
              out = s.out;
              issued = s.issued;
              employer_ids =
                  s.employer_ids
                  ∙ append-nil noted
                  ∙ assign_new e.ref (o.uuid_new st.issued) st.employer_ids fresh;
              position_ids = s.position_ids;
              fits = s.fits;
            }
      ]
    ]

    pub plan_position-Step :
        (ids : List (Str × ℕ)) (p : ExtractedPosition) (st st' : Planning)
        → st.employer_ids ≡ ids
        → plan_position p st ≡ ok st'
        → Step unnamed position_name (λ s. s.employer_ids ≡ ids) (PositionRow ids) p st st'
    unfolding plan_position
    plan_position-Step ids p st st' i h =
        elim (Option-cases (lookup p.employer_ref st.employer_ids)) [
          | inl unknown ↦ cc (rw unknown at h)
          | inr (parent, found) ↦ elim (Bool-cases (has_key p.ref st.position_ids)) [
            | inl twice ↦ cc (rw (found, twice) at h)
            | inr fresh ↦
                let noted = assign p.ref (o.uuid_new st.issued) st.position_ids in
                let s =
                  add-Step (λ s. s.employer_ids ≡ ids) (PositionRow ids) p _ _ _
                    (record st { position_ids = noted }) st' (λ out. i)
                    (λ d f. (parent, (rw i at found), f)) (rw (found, fresh) at h) in
                record {
                  keeps = s.keeps;
                  draft = s.draft;
                  out = s.out;
                  issued = s.issued;
                  employer_ids = s.employer_ids;
                  position_ids =
                      s.position_ids
                      ∙ append-nil noted
                      ∙ assign_new p.ref (o.uuid_new st.issued) st.position_ids fresh;
                  fits = s.fits;
                }
          ]
        ]

    pub plan_contribution-Step :
        (ids : List (Str × ℕ)) (c : ExtractedContribution) (st st' : Planning)
        → st.position_ids ≡ ids
        → plan_contribution c st ≡ ok st'
        → Step unnamed unnamed (λ s. s.position_ids ≡ ids) (ContributionRow ids) c st st'
    unfolding plan_contribution
    plan_contribution-Step ids c st st' i h =
        elim (Option-cases (lookup c.position_ref st.position_ids)) [
          | inl unknown ↦ cc (rw unknown at h)
          | inr (parent, found) ↦
              add-Step (λ s. s.position_ids ≡ ids) (ContributionRow ids) c _ _ _ st st' (λ out. i)
                (λ d f. (parent, (rw i at found), f)) (rw found at h)
        ]

    pub plan_skill-Step :
        (s : ExtractedSkill) (st st' : Planning)
        → Any st
        → plan_skill s st ≡ ok st'
        → Step unnamed unnamed Any SkillRow s st st'
    unfolding plan_skill
    plan_skill-Step s st st' i h = elim (Bool-cases (is_blank s.tag || is_blank s.category)) [
      | inl e ↦ cc (rw e at h)
      | inr e ↦ add-Step Any SkillRow s _ _ _ st st' (λ out. tt) (λ d f. f) (rw e at h)
    ]

    pub plan_preference-Step :
        (p : ExtractedPreference) (st st' : Planning)
        → Any st
        → plan_preference p st ≡ ok st'
        → Step unnamed unnamed Any PreferenceRow p st st'
    unfolding plan_preference
    plan_preference-Step p st st' i h = elim (Bool-cases (is_blank p.label)) [
      | inl b ↦ cc (rw b at h)
      | inr b ↦ add-Step Any PreferenceRow p _ _ _ st st' (λ out. tt) (λ d f. f) (rw b at h)
    ]

    pub plan_education-Step :
        (e : ExtractedEducation) (st st' : Planning)
        → Any st
        → plan_education e st ≡ ok st'
        → Step unnamed unnamed Any EducationRow e st st'
    unfolding plan_education
    plan_education-Step e st st' i h = elim (Bool-cases (is_blank e.institution)) [
      | inl b ↦ cc (rw b at h)
      | inr b ↦ add-Step Any EducationRow e _ _ _ st st' (λ out. tt) (λ d f. f) (rw b at h)
    ]

    pub plan_credential-Step :
        (c : ExtractedCredential) (st st' : Planning)
        → Any st
        → plan_credential c st ≡ ok st'
        → Step unnamed unnamed Any CredentialRow c st st'
    unfolding plan_credential
    plan_credential-Step c st st' i h = elim (Bool-cases (is_blank c.name)) [
      | inl b ↦ cc (rw b at h)
      | inr b ↦ add-Step Any CredentialRow c _ _ _ st st' (λ out. tt) (λ d f. f) (rw b at h)
    ]
