-- ===== src/Intake/Extraction/Plan.antt =====
-- The plan of a career extraction, draft by draft (internal/intake/extract.go: PlanDrafts).
use mathlib.Core.Path.{subst, subst₂}
use role_model.Prelude.{ℕ, ◌+◌, ◌≡◌, refl, ap, ap₂, ◌∙◌, List, [], ◌∷◌, ◌++◌, length, arith}
use role_model.Prelude.Results.{ok, first-ok}
use role_model.GoText.{Str, Unicode}
use role_model.Intake.Store.{Outside}
use role_model.Intake.Extraction.{
  CareerExtraction, PlannedDraft, JsonWriter, Planning, start_planning, plan_each, plan_employer,
  plan_position, plan_contribution, plan_skill, plan_preference, plan_education, plan_credential,
  plan_drafts,
}
use role_model.Intake.Extraction.Loops.{
  Rows, gather, Steps, plan_each-Steps, unnamed, employer_name, position_name,
}
use role_model.Intake.Extraction.Entries.{
  EmployerRow, PositionRow, ContributionRow, SkillRow, PreferenceRow, EducationRow, CredentialRow,
  Any, plan_employer-Step, plan_position-Step, plan_contribution-Step, plan_skill-Step,
  plan_preference-Step, plan_education-Step, plan_credential-Step,
}

module _ ⦃o : Outside⦄ where
  module _ ⦃u : Unicode⦄ ⦃j : JsonWriter⦄ where
    abbrev pub employer_names : CareerExtraction → ℕ → List (Str × ℕ)
    employer_names x n = gather employer_name n x.employers

    abbrev pub position_names : CareerExtraction → ℕ → List (Str × ℕ)
    position_names x n = gather position_name (n + length x.employers) x.positions

    -- The drafts of a plan, one for each entry of the extraction, with ids issued one after another
    -- from the n-th.
    pub record PlanOf (x : CareerExtraction) (n : ℕ) (out : List PlannedDraft) : Type 0 where
      pub employers : List PlannedDraft
      pub positions : List PlannedDraft
      pub contributions : List PlannedDraft
      pub skills : List PlannedDraft
      pub preferences : List PlannedDraft
      pub education : List PlannedDraft
      pub credentials : List PlannedDraft
      pub all_drafts :
          out
          ≡ (((((employers ++ positions) ++ contributions) ++ skills) ++ preferences) ++ education)
            ++ credentials
      pub employer_rows : Rows EmployerRow n x.employers employers
      pub position_rows :
          Rows (PositionRow (employer_names x n)) (n + length x.employers) x.positions positions
      pub contribution_rows :
          Rows
            (ContributionRow (position_names x n))
            (n + length x.employers + length x.positions)
            x.contributions
            contributions
      pub skill_rows :
          Rows SkillRow
            (n + length x.employers + length x.positions + length x.contributions)
            x.skills
            skills
      pub preference_rows :
          Rows PreferenceRow
            (n + length x.employers + length x.positions + length x.contributions + length x.skills)
            x.preferences
            preferences
      pub education_rows :
          Rows EducationRow
            (n
              + length x.employers
              + length x.positions
              + length x.contributions
              + length x.skills
              + length x.preferences)
            x.education
            education
      pub credential_rows :
          Rows CredentialRow
            (n
              + length x.employers
              + length x.positions
              + length x.contributions
              + length x.skills
              + length x.preferences
              + length x.education)
            x.credentials
            credentials

    gather-unnamed : {A : Type 0} (n : ℕ) (xs : List A) → gather unnamed n xs ≡ []
    unfolding gather
    gather-unnamed n [] = refl
    gather-unnamed n (y ∷ ys) = gather-unnamed (n + 1) ys

    -- The states between the seven loops.
    module _ (x : CareerExtraction) (n : ℕ) (s1 s2 s3 s4 s5 s6 st : Planning) where
      abbrev Loops : Type 0
      Loops =
          Steps employer_name unnamed Any EmployerRow x.employers (start_planning n) s1
          × Steps unnamed position_name (λ s. s.employer_ids ≡ s1.employer_ids)
              (PositionRow s1.employer_ids) x.positions s1 s2
          × Steps unnamed unnamed (λ s. s.position_ids ≡ s2.position_ids)
              (ContributionRow s2.position_ids) x.contributions s2 s3
          × Steps unnamed unnamed Any SkillRow x.skills s3 s4
          × Steps unnamed unnamed Any PreferenceRow x.preferences s4 s5
          × Steps unnamed unnamed Any EducationRow x.education s5 s6
          × Steps unnamed unnamed Any CredentialRow x.credentials s6 st

      Loops-PlanOf : Loops → PlanOf x n st.out
      Loops-PlanOf (es, ps, cs, ss, prs, eds, crs) =
          let at1 = es.issued in
          let at2 : s2.issued ≡ n + length x.employers + length x.positions =
            omega (arith, at1, ps.issued) in
          let at3 : s3.issued
              ≡ n + length x.employers + length x.positions + length x.contributions =
            omega (arith, at2, cs.issued) in
          let at4 = ss.issued ∙ ap (λ m. m + length x.skills) at3 in
          let at5 = prs.issued ∙ ap (λ m. m + length x.preferences) at4 in
          let at6 = eds.issued ∙ ap (λ m. m + length x.education) at5 in
          let named : s2.position_ids ≡ position_names x n =
            ps.position_ids
            ∙ ap₂ (λ l m. l ++ gather position_name m x.positions)
                (es.position_ids ∙ gather-unnamed n x.employers) at1 in
          record {
            employers = es.drafts;
            positions = ps.drafts;
            contributions = cs.drafts;
            skills = ss.drafts;
            preferences = prs.drafts;
            education = eds.drafts;
            credentials = crs.drafts;
            all_drafts =
                crs.out
                ∙ ap (λ l. l ++ crs.drafts)
                    (eds.out
                      ∙ ap (λ l. l ++ eds.drafts)
                          (prs.out
                            ∙ ap (λ l. l ++ prs.drafts)
                                (ss.out
                                  ∙ ap (λ l. l ++ ss.drafts)
                                      (cs.out
                                        ∙ ap (λ l. l ++ cs.drafts)
                                            (ps.out ∙ ap (λ l. l ++ ps.drafts) es.out)))));
            employer_rows = es.rows;
            position_rows =
                subst₂ (λ l m. Rows (PositionRow l) m x.positions ps.drafts) es.employer_ids at1
                  ps.rows;
            contribution_rows =
                subst₂ (λ l m. Rows (ContributionRow l) m x.contributions cs.drafts) named at2
                  cs.rows;
            skill_rows = subst (λ m. Rows SkillRow m x.skills ss.drafts) at3 ss.rows;
            preference_rows =
                subst (λ m. Rows PreferenceRow m x.preferences prs.drafts) at4 prs.rows;
            education_rows = subst (λ m. Rows EducationRow m x.education eds.drafts) at5 eds.rows;
            credential_rows =
                subst (λ m. Rows CredentialRow m x.credentials crs.drafts) at6 crs.rows;
          }

    -- A planning that succeeds gives one draft for each entry of the extraction, in its order and of
    -- its kind, with ids issued one after another; a position depends on the draft of the employer
    -- that it names and a contribution on the draft of its position, and the others on nothing.
    pub plan_drafts-PlanOf :
        (x : CareerExtraction) (n : ℕ) (st : Planning) → plan_drafts x n ≡ ok st → PlanOf x n st.out
    unfolding plan_drafts
    plan_drafts-PlanOf x n st h =
        let (s1, h1, t1) =
          first-ok (plan_each plan_employer x.employers (start_planning n)) _ st h in
        let (s2, h2, t2) = first-ok (plan_each plan_position x.positions s1) _ st t1 in
        let (s3, h3, t3) = first-ok (plan_each plan_contribution x.contributions s2) _ st t2 in
        let (s4, h4, t4) = first-ok (plan_each plan_skill x.skills s3) _ st t3 in
        let (s5, h5, t5) = first-ok (plan_each plan_preference x.preferences s4) _ st t4 in
        let (s6, h6, h7) = first-ok (plan_each plan_education x.education s5) _ st t5 in
        Loops-PlanOf x n s1 s2 s3 s4 s5 s6 st (
          plan_each-Steps employer_name unnamed Any EmployerRow plan_employer plan_employer-Step
              x.employers (start_planning n) s1 tt h1,
          plan_each-Steps unnamed position_name (λ s. s.employer_ids ≡ s1.employer_ids)
              (PositionRow s1.employer_ids) plan_position (plan_position-Step s1.employer_ids)
              x.positions s1 s2 refl h2,
          plan_each-Steps unnamed unnamed (λ s. s.position_ids ≡ s2.position_ids)
              (ContributionRow s2.position_ids) plan_contribution
              (plan_contribution-Step s2.position_ids) x.contributions s2 s3 refl h3,
          plan_each-Steps unnamed unnamed Any SkillRow plan_skill plan_skill-Step x.skills s3 s4 tt
              h4,
          plan_each-Steps unnamed unnamed Any PreferenceRow plan_preference plan_preference-Step
              x.preferences s4 s5 tt h5,
          plan_each-Steps unnamed unnamed Any EducationRow plan_education plan_education-Step
              x.education s5 s6 tt h6,
          plan_each-Steps unnamed unnamed Any CredentialRow plan_credential plan_credential-Step
              x.credentials s6 st tt h7,
        )
