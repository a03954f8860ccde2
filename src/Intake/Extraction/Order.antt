-- ===== src/Intake/Extraction/Order.antt =====
-- The plan of an extraction can be resolved in one pass (internal/intake/extract.go: PlanDrafts;
-- internal/intake/resolve.go: topoOrder).
use mathlib.Core.Path.{subst}
use role_model.Prelude.{
  ℕ, ◌+◌, ◌≤◌, ◌<◌, ◌≡◌, refl, sym, ◌∙◌, List, [], ◌∷◌, ◌++◌, Memᴰ, mem-append_left,
  mem-append_right, mem-append_cases, Option, some, some_eq, Bool-cases, inl, inr, length, arith,
}
use role_model.GoText.{Str, str_eq, Unicode}
use role_model.GoText.Maps.{lookup}
use role_model.Intake.Store.{Outside}
use role_model.Intake.Extraction.{CareerExtraction, PlannedDraft, JsonWriter}
use role_model.Intake.Extraction.Loops.{Rows, gather, IsDraft}
use role_model.Intake.Extraction.Plan.{employer_names, position_names, PlanOf}

module _ ⦃o : Outside⦄ where
  -- A reference that a list of names resolves is that of a draft of the loop.
  named_row :
      {A : Type 0} (ref : A → Str) (Q : A → ℕ → PlannedDraft → Type 0)
      → ((x : A) (n : ℕ) (d : PlannedDraft) → Q x n d → d.id ≡ o.uuid_new n)
      → (r : Str) (id n : ℕ) (xs : List A) (ds : List PlannedDraft) → Rows Q n xs ds
      → lookup r (gather (λ x m. (ref x, o.uuid_new m) ∷ []) n xs) ≡ some id
      → (k : ℕ) × (id ≡ o.uuid_new k)
        × (k < n + length xs)
        × (d : PlannedDraft) × Memᴰ d ds
        × (d.id ≡ id)
  unfolding gather lookup
  named_row ref Q own r id n [] ds rows h = cc
  named_row ref Q own r id n (x ∷ xs) [] rows h = elim rows [ ]
  named_row ref Q own r id n (x ∷ xs) (d ∷ ds) rows h = elim (Bool-cases (str_eq (ref x) r)) [
    | inl e ↦
        let same = some_eq (rw e at h) in
        (n, sym same, omega arith, d, Memᴰ.head refl, own x n d rows.0 ∙ same)
    | inr e ↦
        let (k, f, low, d', m, g) = named_row ref Q own r id (n + 1) xs ds rows.1 (rw e at h) in
        (k, f, omega arith, d', Memᴰ.tail m, g)
  ]

  -- The draft has an id of its own, and depends on drafts of the plan with earlier ids.
  abbrev pub Placed : List PlannedDraft → PlannedDraft → Type 0
  Placed out d =
      (i : ℕ) × (d.id ≡ o.uuid_new i)
      × ((dep : ℕ)
          → Memᴰ dep d.depends_on
          → (k : ℕ) × (dep ≡ o.uuid_new k)
            × (k < i)
            × (f : PlannedDraft) × Memᴰ f out
            × (f.id ≡ dep))

  Rows-Placed :
      {A : Type 0} (Q : A → ℕ → PlannedDraft → Type 0) (out : List PlannedDraft) (m : ℕ)
      → ((x : A) (n : ℕ) (d : PlannedDraft) → m ≤ n → Q x n d → Placed out d)
      → (n : ℕ) (xs : List A) (ds : List PlannedDraft) → m ≤ n
      → Rows Q n xs ds
      → (d : PlannedDraft) → Memᴰ d ds
      → Placed out d
  Rows-Placed Q out m own n xs [] le rows d i = elim i [ ]
  Rows-Placed Q out m own n [] (f ∷ ds) le rows d i = elim rows [ ]
  Rows-Placed Q out m own n (x ∷ xs) (f ∷ ds) le rows d (Memᴰ.head e) =
      subst (Placed out) (sym e) (own x n f le rows.0)
  Rows-Placed Q out m own n (x ∷ xs) (f ∷ ds) le rows d (Memᴰ.tail i) =
      Rows-Placed Q out m own (n + 1) xs ds (omega arith) rows.1 d i

  -- No parent.
  root-Placed :
      (kind : Str) (raw : Option Str) (out : List PlannedDraft) (n : ℕ) (d : PlannedDraft)
      → IsDraft kind raw [] n d
      → Placed out d
  root-Placed kind raw out n d (e, k, r, deps) =
      (n, e, λ dep i. let i' : Memᴰ dep [] = subst (Memᴰ dep) deps i in elim i' [ ])

  child-Placed :
      (kind : Str) (raw : Option Str) (out : List PlannedDraft) (n parent : ℕ) (d : PlannedDraft)
      → (k : ℕ) × (parent ≡ o.uuid_new k)
        × (k < n)
        × (f : PlannedDraft) × Memᴰ f out
        × (f.id ≡ parent)
      → IsDraft kind raw (parent ∷ []) n d
      → Placed out d
  child-Placed kind raw out n parent d (k, p, low, f, m, g) (e, _, r, deps) =
      (n, e, λ dep i. only dep (subst (Memᴰ dep) deps i))
    where
      only :
          (dep : ℕ)
          → Memᴰ dep (parent ∷ [])
          → (k : ℕ) × (dep ≡ o.uuid_new k)
            × (k < n)
            × (f : PlannedDraft) × Memᴰ f out
            × (f.id ≡ dep)
      only dep (Memᴰ.head same) = (k, same ∙ p, low, f, m, g ∙ sym same)
      only dep (Memᴰ.tail none_left) = elim none_left [ ]

  -- The first part holds what is claimed of the drafts of the whole.
  module _ (P : PlannedDraft → Type 0) (xs ys : List PlannedDraft) where
    on_append :
        ((d : PlannedDraft) → Memᴰ d xs → P d)
        → ((d : PlannedDraft) → Memᴰ d ys → P d)
        → (d : PlannedDraft) → Memᴰ d (xs ++ ys)
        → P d
    on_append f g d m = elim (mem-append_cases d xs ys m) [ inl l ↦ f d l | inr r ↦ g d r ]

  widen :
      (out : List PlannedDraft) (ds : List PlannedDraft) (n parent : ℕ)
      → ((d : PlannedDraft) → Memᴰ d ds → Memᴰ d out)
      → (k : ℕ) × (parent ≡ o.uuid_new k)
        × (k < n)
        × (f : PlannedDraft) × Memᴰ f ds
        × (f.id ≡ parent)
      → (k : ℕ) × (parent ≡ o.uuid_new k)
        × (k < n)
        × (f : PlannedDraft) × Memᴰ f out
        × (f.id ≡ parent)
  widen out ds n parent sub (k, e, low, f, m, g) = (k, e, low, f, sub f m, g)

  module _ ⦃u : Unicode⦄ ⦃j : JsonWriter⦄ where
    abbrev parts : (es ps cs ss prs eds crs : List PlannedDraft) → List PlannedDraft
    parts es ps cs ss prs eds crs = (((((es ++ ps) ++ cs) ++ ss) ++ prs) ++ eds) ++ crs

    -- Each draft of a plan is placed.
    pub PlanOf-Placed :
        (x : CareerExtraction) (n : ℕ) (out : List PlannedDraft)
        → PlanOf x n out
        → (d : PlannedDraft) → Memᴰ d out
        → Placed out d
    PlanOf-Placed x n out plan d m =
        on_append (Placed out) _ plan.credentials
          (on_append (Placed out) _ plan.education
            (on_append (Placed out) _ plan.preferences
              (on_append (Placed out) _ plan.skills
                (on_append (Placed out) _ plan.contributions
                  (on_append (Placed out) plan.employers plan.positions
                    (Rows-Placed _ out 0 (λ e k. λ f le. root-Placed _ _ out k f) n x.employers _
                      (omega arith) plan.employer_rows)
                    (Rows-Placed _ out (n + length x.employers)
                      (λ p k f le r.
                        child-Placed _ _ out k _ f
                          (widen out plan.employers k _ in_es (employer_of _ k _ le r.1)) r.2)
                      _ x.positions _ (omega arith) plan.position_rows))
                  (Rows-Placed _ out (n + length x.employers + length x.positions)
                    (λ p k f le r.
                      child-Placed _ _ out k _ f
                        (widen out plan.positions k _ in_ps (position_of _ k _ le r.1)) r.2)
                    _ x.contributions _ (omega arith) plan.contribution_rows))
                (Rows-Placed _ out 0 (λ e k f le. root-Placed _ _ out k f) _ x.skills _
                  (omega arith) plan.skill_rows))
              (Rows-Placed _ out 0 (λ e k f le. root-Placed _ _ out k f) _ x.preferences _
                (omega arith) plan.preference_rows))
            (Rows-Placed _ out 0 (λ e k f le. root-Placed _ _ out k f) _ x.education _ (omega arith)
              plan.education_rows))
          (Rows-Placed _ out 0 (λ e k f le. root-Placed _ _ out k f) _ x.credentials _ (omega arith)
            plan.credential_rows)
          d (subst (Memᴰ d) plan.all_drafts m)
      where
        lift_in :
            (a b c e f g : List PlannedDraft) (d : PlannedDraft)
            → Memᴰ d a
            → Memᴰ d (((((a ++ b) ++ c) ++ e) ++ f) ++ g)
        lift_in a b c e f g d m = mem-append_left d _ g (
            mem-append_left d _ f
              (mem-append_left d _ e (mem-append_left d _ c (mem-append_left d a b m))))

        in_es : (d : PlannedDraft) → Memᴰ d plan.employers → Memᴰ d out
        in_es d m =
            subst (Memᴰ d) (sym plan.all_drafts)
              (lift_in (plan.employers ++ plan.positions) _ _ _ _ _ d (mem-append_left d _ _ m))

        in_ps : (d : PlannedDraft) → Memᴰ d plan.positions → Memᴰ d out
        in_ps d m =
            subst (Memᴰ d) (sym plan.all_drafts)
              (lift_in (plan.employers ++ plan.positions) _ _ _ _ _ d (mem-append_right d _ _ m))

        employer_of :
            (r : Str) (k id : ℕ)
            → n + length x.employers ≤ k
            → lookup r (employer_names x n) ≡ some id
            → (i : ℕ) × (id ≡ o.uuid_new i)
              × (i < k)
              × (f : PlannedDraft) × Memᴰ f plan.employers
              × (f.id ≡ id)
        employer_of r k id le h =
            let (i, e, low, f, m, g) =
              named_row (λ e. e.ref) _ (λ x n d q. q.0) r id n x.employers plan.employers
                plan.employer_rows h in
            (i, e, omega arith, f, m, g)

        position_of :
            (r : Str) (k id : ℕ)
            → n + length x.employers + length x.positions ≤ k
            → lookup r (position_names x n) ≡ some id
            → (i : ℕ) × (id ≡ o.uuid_new i)
              × (i < k)
              × (f : PlannedDraft) × Memᴰ f plan.positions
              × (f.id ≡ id)
        position_of r k id le h =
            let (i, e, low, f, m, g) =
              named_row (λ p. p.ref) _ (λ x n d q. q.2.0) r id (n + length x.employers) x.positions
                plan.positions plan.position_rows h in
            (i, e, omega arith, f, m, g)
