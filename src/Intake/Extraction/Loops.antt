-- ===== src/Intake/Extraction/Loops.antt =====
-- A loop of PlanDrafts, entry by entry (internal/intake/extract.go: PlanDrafts, the closure add).
use mathlib.Core.Path.{subst}
use role_model.Prelude.{
  ℕ, ◌+◌, ◌≡◌, refl, sym, ap, ap₂, ◌∙◌, false, List, [], ◌∷◌, ◌++◌, append-nil, append_assoc,
  Option, none, some, length, arith,
}
use role_model.Prelude.Results.{Result, ok, first-ok}
use role_model.GoText.{Str}
use role_model.GoText.Maps.{lookup, assign}
use role_model.Intake.Payloads.{DraftError}
use role_model.Intake.Store.{Outside}
use role_model.Intake.Extraction.{
  ExtractedEmployer, ExtractedPosition, PlannedDraft, Planning, has_key, plan_each, add,
}

-- One draft for each entry, in order, the first with the id that was issued `n`-th.
abbrev pub Rows :
    {A : Type 0} → (A → ℕ → PlannedDraft → Type 0) → ℕ → List A → List PlannedDraft → Type 0
Rows Q n [] [] = Unit {0}
Rows Q n [] (d ∷ ds) = ⊥
Rows Q n (x ∷ xs) [] = ⊥
Rows Q n (x ∷ xs) (d ∷ ds) = Q x n d × Rows Q (n + 1) xs ds

-- A key that is new goes to the end.
pub assign_new :
    (k : Str) (v : ℕ) (m : List (Str × ℕ)) → has_key k m ≡ false → assign k v m ≡ m ++ (k, v) ∷ []
unfolding assign lookup
assign_new k v [] h = refl
assign_new k v ((j, w) ∷ m) h = ground (arith, assign_new k v m)

-- What an entry adds to a map of references.
abbrev pub Naming : Type 0 → Type 0
Naming A = A → ℕ → List (Str × ℕ)

unfoldable pub gather : {A : Type 0} → Naming A → ℕ → List A → List (Str × ℕ)
gather names n [] = []
gather names n (x ∷ xs) = names x n ++ gather names (n + 1) xs

module _ {A : Type 0} (employers positions : Naming A) (Inv : Planning → Type 0)
    (Q : A → ℕ → PlannedDraft → Type 0) where
  -- One entry, planned.
  pub record Step (x : A) (st st' : Planning) : Type 0 where
    pub keeps : Inv st'
    pub draft : PlannedDraft
    pub out : st'.out ≡ st.out ++ draft ∷ []
    pub issued : st'.issued ≡ st.issued + 1
    pub employer_ids : st'.employer_ids ≡ st.employer_ids ++ employers x st.issued
    pub position_ids : st'.position_ids ≡ st.position_ids ++ positions x st.issued
    pub fits : Q x st.issued draft

  pub record Steps (xs : List A) (st st' : Planning) : Type 0 where
    pub keeps : Inv st'
    pub drafts : List PlannedDraft
    pub out : st'.out ≡ st.out ++ drafts
    pub issued : st'.issued ≡ st.issued + length xs
    pub employer_ids : st'.employer_ids ≡ st.employer_ids ++ gather employers st.issued xs
    pub position_ids : st'.position_ids ≡ st.position_ids ++ gather positions st.issued xs
    pub rows : Rows Q st.issued xs drafts

  Steps-cons :
      {x : A} {xs : List A} {st mid st' : Planning}
      → Step x st mid
      → Steps xs mid st'
      → Steps (x ∷ xs) st st'
  unfolding gather
  Steps-cons {x} {xs} {st} {mid} {st'} s r = record {
    keeps = r.keeps;
    drafts = s.draft ∷ r.drafts;
    out = r.out ∙ ap (λ l. l ++ r.drafts) s.out ∙ append_assoc st.out (s.draft ∷ []) r.drafts;
    issued = omega (arith, r.issued, s.issued);
    employer_ids =
        r.employer_ids
        ∙ ap₂ (λ l n. l ++ gather employers n xs) s.employer_ids s.issued
        ∙ append_assoc st.employer_ids (employers x st.issued)
            (gather employers (st.issued + 1) xs);
    position_ids =
        r.position_ids
        ∙ ap₂ (λ l n. l ++ gather positions n xs) s.position_ids s.issued
        ∙ append_assoc st.position_ids (positions x st.issued)
            (gather positions (st.issued + 1) xs);
    rows = (s.fits, subst (λ n. Rows Q n xs r.drafts) s.issued r.rows);
  }

  pub plan_each-Steps :
      (plan : A → Planning → Result DraftError Planning)
      → ((x : A) (st st' : Planning) → Inv st → plan x st ≡ ok st' → Step x st st')
      → (xs : List A) (st st' : Planning) → Inv st
      → plan_each plan xs st ≡ ok st'
      → Steps xs st st'
  unfolding plan_each gather
  plan_each-Steps plan step [] st st' i h =
      let e : st ≡ st' = cc in
      subst (Steps [] st) e (record {
        keeps = i;
        drafts = [];
        out = sym (append-nil _);
        issued = omega arith;
        employer_ids = sym (append-nil _);
        position_ids = sym (append-nil _);
        rows = tt;
      })
  plan_each-Steps plan step (x ∷ xs) st st' i h =
      let (mid, first, rest) = first-ok (plan x st) (plan_each plan xs) st' h in
      let s = step x st mid i first in
      Steps-cons s (plan_each-Steps plan step xs mid st' s.keeps rest)

module _ ⦃o : Outside⦄ where
  -- The n-th id, the kind, the payload as JSON and the dependencies.
  abbrev pub IsDraft : Str → Option Str → List ℕ → ℕ → PlannedDraft → Type 0
  IsDraft kind raw deps n d =
      (d.id ≡ o.uuid_new n) × (d.kind ≡ kind) × (raw ≡ some d.payload) × (d.depends_on ≡ deps)

  abbrev pub unnamed : {A : Type 0} → Naming A
  unnamed x n = []

  abbrev pub employer_name : Naming ExtractedEmployer
  employer_name e n = (e.ref, o.uuid_new n) ∷ []

  abbrev pub position_name : Naming ExtractedPosition
  position_name p n = (p.ref, o.uuid_new n) ∷ []

  add-ok :
      (kind : Str) (raw : Option Str) (deps : List ℕ) (st st' : Planning)
      → add kind raw deps st ≡ ok st'
      → (text : Str) × (raw ≡ some text)
        × (st' ≡ record st {
          out =
              st.out
              ++ record {
                id = o.uuid_new st.issued;
                kind = kind;
                payload = text;
                depends_on = deps;
              }
                ∷ [];
          issued = st.issued + 1;
        })
  unfolding add
  add-ok kind none deps st st' h = cc
  add-ok kind (some text) deps st st' h = (text, refl, cc)

  -- A draft that adds no name.
  pub add-Step :
      {A : Type 0} (Inv : Planning → Type 0) (Q : A → ℕ → PlannedDraft → Type 0) (x : A)
      (kind : Str) (raw : Option Str) (deps : List ℕ) (st st' : Planning)
      → ((out : List PlannedDraft) → Inv (record st { out = out; issued = st.issued + 1 }))
      → ((d : PlannedDraft) → IsDraft kind raw deps st.issued d → Q x st.issued d)
      → add kind raw deps st ≡ ok st'
      → Step unnamed unnamed Inv Q x st st'
  add-Step Inv Q x kind raw deps st st' keep fit h =
      let (text, e, e') = add-ok kind raw deps st st' h in
      subst (Step unnamed unnamed Inv Q x st) (sym e') (record {
        keeps = keep _;
        draft = record {
          id = o.uuid_new st.issued;
          kind = kind;
          payload = text;
          depends_on = deps;
        };
        out = refl;
        issued = refl;
        employer_ids = sym (append-nil _);
        position_ids = sym (append-nil _);
        fits = fit _ (refl, refl, e, refl);
      })
