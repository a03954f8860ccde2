-- ===== src/Intake/Extraction/Checks.antt =====
-- Which extractions can be planned (internal/intake/extract.go: the errors of PlanDrafts).
use role_model.Prelude.{
  ℕ, ◌+◌, ◌≡◌, refl, sym, ap, ◌∙◌, true, false, not, ◌&&◌, ◌||◌, List, [], ◌∷◌, map, all, Option,
  some, Bool-cases, Option-cases, inl, inr, arith,
}
use role_model.GoText.{Str, Unicode, str_eq}
use role_model.GoText.Maps.{lookup, assign}
use role_model.Intake.Payloads.{is_blank}
use role_model.Intake.Store.{Outside}
use role_model.Intake.Extraction.{
  ExtractedEmployer, ExtractedPosition, ExtractedContribution, ExtractedSkill, ExtractedPreference,
  ExtractedEducation, ExtractedCredential, CareerExtraction, JsonWriter, Planning, start_planning,
  PlannedDraft, present, has_key, plan_each, add, plan_employer, plan_position, plan_contribution,
  plan_skill, plan_preference, plan_education, plan_credential, plan_drafts,
}
use role_model.Intake.Extraction.Outcomes.{
  among, distinct, plannable, IsTotal, Outcome, is_ok, Outcome-is_ok, Outcome-bind, Outcome-map,
  Outcome-eq, has_key-assign, all-ext, and_true, or_false, tests_each, names_each,
}

module _ ⦃o : Outside⦄ where
  add-Outcome :
      (F : Planning → Type 0) (kind : Str) (raw : Option Str) (deps : List ℕ) (st : Planning)
      → (t : Str) × (raw ≡ some t)
      → ((out : List PlannedDraft) → F (record st { out = out; issued = st.issued + 1 }))
      → Outcome true F (add kind raw deps st)
  unfolding add
  add-Outcome F kind raw deps st (t, e) f = rw e (refl, f _)

  module _ ⦃u : Unicode⦄ ⦃j : JsonWriter⦄ (total : IsTotal j) where
    abbrev Any : Planning → Type 0
    Any st = Unit

    -- The references of the employers, and no position yet.
    abbrev EmployersKnown : List Str → Planning → Type 0
    EmployersKnown refs s = (r : Str) → has_key r s.employer_ids ≡ among refs r

    abbrev PositionsKnown : List Str → Planning → Type 0
    PositionsKnown refs s = (r : Str) → has_key r s.position_ids ≡ among refs r

    employer-Outcome :
        (e : ExtractedEmployer) (st : Planning)
        → PositionsKnown [] st
        → Outcome
            (not (is_blank e.name) && not (has_key e.ref st.employer_ids))
            (λ s.
              PositionsKnown [] s
              × ((r : Str)
                  → has_key r s.employer_ids ≡ (among (e.ref ∷ []) r || has_key r st.employer_ids)))
            (plan_employer e st)
    unfolding plan_employer
    employer-Outcome e st i = elim (Bool-cases (is_blank e.name)) [
      | inl blank ↦ rw blank refl
      | inr named ↦ elim (Bool-cases (has_key e.ref st.employer_ids)) [
        | inl twice ↦ rw (named, twice) refl
        | inr new ↦
            rw (named, new) (add-Outcome _ _ _ _ _ (total.employer _) (λ out. (i, (λ r. keys r))))
      ]
    ]
      where
        keys :
            (r : Str)
            → has_key r (assign e.ref (o.uuid_new st.issued) st.employer_ids)
              ≡ ((str_eq e.ref r || false) || has_key r st.employer_ids)
        keys r = ground (arith, has_key-assign e.ref r (o.uuid_new st.issued) st.employer_ids)

    position-Outcome :
        (refs : List Str) (p : ExtractedPosition) (st : Planning)
        → EmployersKnown refs st
        → Outcome
            (among refs p.employer_ref && not (has_key p.ref st.position_ids))
            (λ s.
              EmployersKnown refs s
              × ((r : Str)
                  → has_key r s.position_ids ≡ (among (p.ref ∷ []) r || has_key r st.position_ids)))
            (plan_position p st)
    unfolding plan_position
    position-Outcome refs p st i = elim (Option-cases (lookup p.employer_ref st.employer_ids)) [
      | inl unknown ↦
          let no_key : among refs p.employer_ref ≡ false =
            sym (i p.employer_ref) ∙ ap present unknown in
          rw (unknown, no_key) refl
      | inr (parent, found) ↦
          let key : among refs p.employer_ref ≡ true = sym (i p.employer_ref) ∙ ap present found in
          elim (Bool-cases (has_key p.ref st.position_ids)) [
            | inl twice ↦ rw (found, key, twice) refl
            | inr new ↦
                rw (found, key, new)
                  (add-Outcome _ _ _ _ _ (total.position _) (λ out. (i, (λ r. keys r))))
          ]
    ]
      where
        keys :
            (r : Str)
            → has_key r (assign p.ref (o.uuid_new st.issued) st.position_ids)
              ≡ ((str_eq p.ref r || false) || has_key r st.position_ids)
        keys r = ground (arith, has_key-assign p.ref r (o.uuid_new st.issued) st.position_ids)

    contribution-Outcome :
        (refs : List Str) (c : ExtractedContribution) (st : Planning)
        → PositionsKnown refs st
        → Outcome (among refs c.position_ref) (PositionsKnown refs) (plan_contribution c st)
    unfolding plan_contribution
    contribution-Outcome refs c st i = elim (Option-cases (lookup c.position_ref st.position_ids)) [
      | inl unknown ↦
          let no_key : among refs c.position_ref ≡ false =
            sym (i c.position_ref) ∙ ap present unknown in
          rw (unknown, no_key) refl
      | inr (parent, found) ↦
          let key : among refs c.position_ref ≡ true = sym (i c.position_ref) ∙ ap present found in
          rw (found, key) (add-Outcome _ _ _ _ _ (total.contribution _) (λ out. i))
    ]

    skill-Outcome :
        (s : ExtractedSkill) (st : Planning)
        → Any st
        → Outcome (not (is_blank s.tag || is_blank s.category)) Any (plan_skill s st)
    unfolding plan_skill
    skill-Outcome s st i = elim (Bool-cases (is_blank s.tag || is_blank s.category)) [
      | inl b ↦ rw b refl
      | inr b ↦ rw b (add-Outcome Any _ _ _ _ (total.skill _) (λ out. tt))
    ]

    preference-Outcome :
        (p : ExtractedPreference) (st : Planning)
        → Any st
        → Outcome (not (is_blank p.label)) Any (plan_preference p st)
    unfolding plan_preference
    preference-Outcome p st i = elim (Bool-cases (is_blank p.label)) [
      | inl b ↦ rw b refl
      | inr b ↦ rw b (add-Outcome Any _ _ _ _ (total.preference _) (λ out. tt))
    ]

    education-Outcome :
        (e : ExtractedEducation) (st : Planning)
        → Any st
        → Outcome (not (is_blank e.institution)) Any (plan_education e st)
    unfolding plan_education
    education-Outcome e st i = elim (Bool-cases (is_blank e.institution)) [
      | inl b ↦ rw b refl
      | inr b ↦ rw b (add-Outcome Any _ _ _ _ (total.education _) (λ out. tt))
    ]

    credential-Outcome :
        (c : ExtractedCredential) (st : Planning)
        → Any st
        → Outcome (not (is_blank c.name)) Any (plan_credential c st)
    unfolding plan_credential
    credential-Outcome c st i = elim (Bool-cases (is_blank c.name)) [
      | inl b ↦ rw b refl
      | inr b ↦ rw b (add-Outcome Any _ _ _ _ (total.credential _) (λ out. tt))
    ]

    -- The loops over employers and over positions, from maps that hold nothing yet.
    employers-Outcome :
        (es : List ExtractedEmployer) (n : ℕ)
        → Outcome
            (all (λ e. not (is_blank e.name)) es && distinct (map (λ e. e.ref) es))
            (λ s. PositionsKnown [] s × EmployersKnown (map (λ e. e.ref) es) s)
            (plan_each plan_employer es (start_planning n))
    unfolding lookup
    employers-Outcome es n =
        let refs = map (λ (e : ExtractedEmployer). e.ref) es in
        let loop =
          names_each plan_employer (λ e. e.ref) (λ s. s.employer_ids) (PositionsKnown [])
            (λ e. not (is_blank e.name)) employer-Outcome es (start_planning n) (λ r. refl) in
        Outcome-eq _ _ _ _
          (ap (λ b. b && distinct refs) (all-ext _ _ es (λ e. and_true (not (is_blank e.name)))))
          (Outcome-map _ _ (λ s. PositionsKnown [] s × EmployersKnown refs s) _ loop
            (λ s k. (k.0, (λ r. k.1 r ∙ or_false (among refs r)))))

    positions-Outcome :
        (refs : List Str) (ps : List ExtractedPosition) (st : Planning)
        → PositionsKnown [] st × EmployersKnown refs st
        → Outcome
            (all (λ p. among refs p.employer_ref) ps && distinct (map (λ p. p.ref) ps))
            (PositionsKnown (map (λ p. p.ref) ps))
            (plan_each plan_position ps st)
    positions-Outcome refs ps st (none_yet, knows) =
        let own = map (λ (p : ExtractedPosition). p.ref) ps in
        let loop =
          names_each plan_position (λ p. p.ref) (λ s. s.position_ids) (EmployersKnown refs)
            (λ p. among refs p.employer_ref) (position-Outcome refs) ps st knows in
        Outcome-eq _ _ _ _
          (ap (λ b. b && distinct own)
            (all-ext _ _ ps (λ p.
              ap (λ b. among refs p.employer_ref && not b) (none_yet p.ref)
              ∙ and_true (among refs p.employer_ref))))
          (Outcome-map _ _ (PositionsKnown own) _ loop
            (λ s k r. k.1 r ∙ ap (λ b. among own r || b) (none_yet r) ∙ or_false (among own r)))

-- If JSON encoding does not fail, planning an extraction succeeds exactly when every employer,
-- preference, education and credential has its name and every skill its tag and category, no two
-- employers and no two positions share a reference, and every position names an employer and every
-- contribution a position of the extraction.
pub plan_drafts-is_ok :
    ⦃o : Outside⦄ ⦃u : Unicode⦄ ⦃j : JsonWriter⦄
    → IsTotal j
    → (x : CareerExtraction) (n : ℕ) → is_ok (plan_drafts x n) ≡ plannable x
unfolding plan_drafts plannable
plan_drafts-is_ok ⦃o⦄ ⦃u⦄ ⦃j⦄ total x n = Outcome-is_ok _ (Any total) _ (
    Outcome-bind _ _ _ (Any total) _ _ (employers-Outcome total x.employers n) (λ s1 k1.
      Outcome-bind _ _ _ (Any total) _ _ (positions-Outcome total _ x.positions s1 k1) (λ s2 k2.
        Outcome-bind _ _ _ (Any total) _ _
          (tests_each plan_contribution _ _ (contribution-Outcome total _) x.contributions s2 k2)
          (λ s3 k3.
            Outcome-bind _ _ _ (Any total) _ _
              (tests_each plan_skill (Any total) _ (skill-Outcome total) x.skills s3 tt)
              (λ s4 k4.
                Outcome-bind _ _ _ (Any total) _ _
                  (tests_each plan_preference (Any total) _ (preference-Outcome total) x.preferences
                    s4 tt)
                  (λ s5 k5.
                    Outcome-bind _ _ _ (Any total) _ _
                      (tests_each plan_education (Any total) _ (education-Outcome total) x.education
                        s5 tt)
                      (λ s6 k6.
                        tests_each plan_credential (Any total) _ (credential-Outcome total)
                          x.credentials s6 tt)))))))
