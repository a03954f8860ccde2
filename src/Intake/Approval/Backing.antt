-- ===== src/Intake/Approval/Backing.antt =====
-- Approved drafts and their rows (internal/intake/resolve.go: ResolveBatch, ApproveDraft).
use mathlib.Core.Path.{subst}
use role_model.Prelude.{
  ℕ, ◌≡◌, refl, sym, ap, ◌∙◌, true, some, ◌==◌, arith, Bool-cases, Option-cases, inl, inr, Memᴰ,
  mem-map_inv, mem-keep, some_eq,
}
use role_model.Prelude.Results.{Result, ok, err}
use role_model.GoText.{Unicode, codes, str_eq}
use role_model.GoText.Equality.{eq_of_str_eq}
use role_model.Intake.Payloads.{DraftError, kind_named, Json}
use role_model.Intake.Ordering.{EntityDraft}
use role_model.Intake.Ordering.Account.{DistinctIds}
use role_model.Intake.Store.{Store, World, Outside, run, resolved_to}
use role_model.Intake.Store.Growth.{has_row}
use role_model.Intake.Resolvers.{row_of}
use role_model.Intake.Resolvers.Kinds.{IsListing}
use role_model.Intake.Approval.{approved_row, BatchReport, resolve_batch, approve_draft}
use role_model.Intake.Approval.Marking.{GrowsRows, has_row-GrowsRows, Marked}
use role_model.Intake.Approval.Settling.{DistinctIds-eq}
use role_model.Intake.Approval.Single.{approve_draft_ok}
use role_model.Intake.Approval.Report.{Settled, resolve_batch_ok}
use role_model.Intake.Approval.Rollback.{approve_draft_rollback, resolve_batch-Kept}

-- Every draft that is marked approved names a row, and this row is in the table of its kind.
abbrev pub IsBacked : Store → Type 0
IsBacked s =
    (d : EntityDraft)
    → Memᴰ d s.drafts
    → d.status ≡ codes "approved"
    → (row : ℕ) × (d.resolved_id ≡ some row) × (has_row (kind_named d.kind) row s ≡ true)

-- A row that a draft names, of its kind.
abbrev Backing : Store → EntityDraft → Type 0
Backing s d = (row : ℕ) × (d.resolved_id ≡ some row) × (has_row (kind_named d.kind) row s ≡ true)

Backing-grown : (s s' : Store) (d : EntityDraft) → GrowsRows s s' → Backing s d → Backing s' d
Backing-grown s s' d g (row, e, h) = (row, e, has_row-GrowsRows (kind_named d.kind) row s s' g h)

resolved_to-Backing :
    (s : Store) (d x : EntityDraft) (row : ℕ)
    → d ≡ resolved_to row x
    → has_row (kind_named x.kind) row s ≡ true
    → Backing s d
resolved_to-Backing s d x row e h = subst (Backing s) (sym e) (row, refl, h)

-- A draft with an approved row is approved and names it.
approved_row-some :
    (d : EntityDraft) (row : ℕ)
    → approved_row d ≡ some row
    → (d.status ≡ codes "approved") × (d.resolved_id ≡ some row)
approved_row-some d row h = elim (Bool-cases (str_eq d.status (codes "approved"))) [
  | inl y ↦ (eq_of_str_eq d.status (codes "approved") y, rw y at h)
  | inr n ↦ cc (rw n at h)
]

Marked-IsBacked :
    (c : EntityDraft) (s s' : Store) (row : ℕ)
    → DistinctIds s.drafts
    → Memᴰ c s.drafts
    → Marked c s row s'
    → IsBacked s
    → IsBacked s'
Marked-IsBacked c s s' row distinct i m b d k approved =
    let (x, j, q) = mem-map_inv _ d s.drafts (subst (Memᴰ d) m.marked k) in
    elim (Bool-cases (x.id == c.id)) [
      | inl y ↦
          let same : x ≡ c = DistinctIds-eq s.drafts x c distinct j i (ground arith) in
          resolved_to-Backing s' d x row (q ∙ rw y refl)
            (subst (λ e. has_row (kind_named e.kind) row s' ≡ true) (sym same) m.backed)
      | inr y ↦
          let same : d ≡ x = q ∙ rw y refl in
          subst (Backing s') (sym same)
            (Backing-grown s s' x m.grown (b x j (ap (λ e. e.status) (sym same) ∙ approved)))
    ]

Settled-IsBacked :
    (batch_id : ℕ) (s s' : Store) (report : BatchReport)
    → Settled batch_id s report s'
    → IsBacked s
    → IsBacked s'
Settled-IsBacked batch_id s s' report t b d k approved =
    let (x, j, q) = mem-map_inv _ d s.drafts (subst (Memᴰ d) t.marked k) in
    let unchanged : d ≡ x → Backing s' d = λ same.
      subst (Backing s') (sym same)
        (Backing-grown s s' x t.grown (b x j (ap (λ e. e.status) (sym same) ∙ approved))) in
    elim (Bool-cases (x.batch_id == batch_id)) [
      | inr y ↦ unchanged (q ∙ rw y refl)
      | inl y ↦ elim (Option-cases (row_of report.resolved x.id)) [
        | inl z ↦ unchanged (q ∙ rw (y, z) refl)
        | inr (row, z) ↦
            resolved_to-Backing s' d x row (q ∙ rw (y, z) refl)
              (elim (t.backed x row (mem-keep _ x s.drafts j y) z) [
                | inr a ↦ a
                | inl a ↦
                    let (status, own) = approved_row-some x row a in
                    let (n, named, there) = Backing-grown s s' x t.grown (b x j status) in
                    subst (λ r. has_row (kind_named x.kind) r s' ≡ true) (some_eq (sym named ∙ own))
                      there
              ])
      ]
    ]

module _ ⦃o : Outside⦄ ⦃u : Unicode⦄ ⦃j : Json⦄ where
  approved-IsBacked :
      (listing : IsListing o) (id : ℕ) (w : World)
      → DistinctIds w.store.drafts
      → IsBacked w.store
      → (r : Result DraftError ℕ) (w' : World) → run (approve_draft id) w ≡ (r, w')
      → IsBacked w'.store
  approved-IsBacked listing id w distinct b (ok row) w' e =
      let a = approve_draft_ok listing id row w w' e in
      Marked-IsBacked a.draft w.store w'.store row distinct a.found a.written b
  approved-IsBacked listing id w distinct b (err x) w' e =
      subst IsBacked (sym (approve_draft_rollback id w w' x e)) b

  -- After approving a draft, whether it succeeds or fails, every draft that is marked approved names
  -- a row and this row is in the table of its kind, if that held before, the ids of the drafts are
  -- distinct and listings show what is there, in whatever order.
  pub approve_draft-IsBacked :
      (listing : IsListing o) (id : ℕ) (w : World)
      → DistinctIds w.store.drafts
      → IsBacked w.store
      → IsBacked (run (approve_draft id) w).1.store
  approve_draft-IsBacked listing id w distinct b =
      approved-IsBacked listing id w distinct b _ _ refl

  batch-IsBacked :
      (listing : IsListing o) (batch_id : ℕ) (w : World)
      → DistinctIds w.store.drafts
      → IsBacked w.store
      → (r : Result DraftError BatchReport) (w' : World) → run (resolve_batch batch_id) w ≡ (r, w')
      → IsBacked w'.store
  batch-IsBacked listing batch_id w distinct b (ok report) w' e =
      Settled-IsBacked batch_id w.store w'.store report
        (resolve_batch_ok listing batch_id report w w' distinct e) b
  batch-IsBacked listing batch_id w distinct b (err x) w' e =
      subst IsBacked (sym (resolve_batch-Kept batch_id w w' x e)) b

  -- After resolving a batch, whether it succeeds or fails, every draft that is marked approved names
  -- a row and this row is in the table of its kind, if that held before, the ids of the drafts are
  -- distinct and listings show what is there, in whatever order.
  pub resolve_batch-IsBacked :
      (listing : IsListing o) (batch_id : ℕ) (w : World)
      → DistinctIds w.store.drafts
      → IsBacked w.store
      → IsBacked (run (resolve_batch batch_id) w).1.store
  resolve_batch-IsBacked listing batch_id w distinct b =
      batch-IsBacked listing batch_id w distinct b _ _ refl
