-- ===== src/Intake/Approval/Report.antt =====
-- What the report of a successful resolution says of the drafts (internal/intake/resolve.go:
-- ResolveBatch).
use mathlib.Core.Path.{subst}
use role_model.Prelude.{
  ℕ, ◌≡◌, ◌≢◌, refl, sym, ap, ap₂, ◌∙◌, ◌⊎◌, true, ◌&&◌, ◌||◌, List, [], ◌∷◌, map, none, some, ◌==◌,
  if◌then◌else◌, arith, Bool-cases, Option-cases, inl, inr, Memᴰ, All-mem, mem-keep_inv, some_eq,
}
use role_model.Prelude.Results.{ok}
use role_model.GoText.{Unicode}
use role_model.Intake.Payloads.{kind_named, Json}
use role_model.Intake.Ordering.{EntityDraft, holds, is_pending}
use role_model.Intake.Ordering.Account.{DistinctIds, is_pending_id}
use role_model.Intake.Ordering.Result.{topo_order-IsOrdered, topo_order_accounts, is_stuck}
use role_model.Intake.Store.{Store, World, Outside, run}
use role_model.Intake.Store.Steps.{Yields-ok}
use role_model.Intake.Store.Growth.{has_row}
use role_model.Intake.Resolvers.{row_of}
use role_model.Intake.Resolvers.Kinds.{IsListing}
use role_model.Intake.Approval.{
  seed_resolved, resolved_ids, BatchReport, no_stuck, resolve_batch, approved_row,
}
use role_model.Intake.Approval.Marking.{GrowsRows}
use role_model.Intake.Approval.Loop.{entries, IsBackedBy}
use role_model.Intake.Approval.Parents.{seed_resolved-IsApproved}
use role_model.Intake.Approval.Settling.{
  settled, mark_entries-eq-map, row_of-append, row_of-entries, row_of-entries_some, DistinctIds-eq,
  resolved_to_own,
}
use role_model.Prelude.{mem_of_any, any_of_mem}
use role_model.Intake.Approval.Batch.{batch_of, Passed, resolve_batch-Passed}

pub record Settled (batch_id : ℕ) (s : Store) (report : BatchReport) (s' : Store) : Type 0 where
  pub grown : GrowsRows s s'
  pub marked :
      s'.drafts
      ≡ map
          (λ d. if d.batch_id == batch_id then settled (row_of report.resolved d.id) d else d)
          s.drafts
  pub accounted :
      (d : EntityDraft)
      → Memᴰ d (batch_of batch_id s.drafts)
      → is_pending d ≡ true
      → (row_of report.resolved d.id ≢ none) ⊎ (is_stuck report.unresolved d.id ≡ true)
  pub backed :
      (d : EntityDraft) (row : ℕ)
      → Memᴰ d (batch_of batch_id s.drafts)
      → row_of report.resolved d.id ≡ some row
      → (approved_row d ≡ some row) ⊎ (has_row (kind_named d.kind) row s' ≡ true)
  pub complete : report.complete ≡ no_stuck report.unresolved

map_eq :
    {A B : Type 0} (f g : A → B) (xs : List A)
    → ((x : A) → Memᴰ x xs → f x ≡ g x)
    → map f xs ≡ map g xs
map_eq f g [] h = refl
map_eq f g (x ∷ xs) h =
    ap₂ (λ y l. y ∷ l) (h x (Memᴰ.head refl)) (map_eq f g xs (λ y m. h y (Memᴰ.tail m)))

module _ (batch_id : ℕ) (s : Store) (report : BatchReport) (s' : Store) where
  batch-mem :
      (d : EntityDraft)
      → Memᴰ d (batch_of batch_id s.drafts)
      → Memᴰ d s.drafts × ((d.batch_id == batch_id) ≡ true)
  batch-mem d m = mem-keep_inv _ d s.drafts m

  module _ (p : Passed batch_id s report s') (distinct : DistinctIds s.drafts) where
    order-batch : (d : EntityDraft) → Memᴰ d p.order → Memᴰ d (batch_of batch_id s.drafts)
    order-batch d m =
        let (b, e, _, _, a) = topo_order-IsOrdered p.listed _ in
        let same = some_eq (sym e ∙ p.ordered) in
        (p.members d).0 (All-mem _ b.order d a (subst (λ o. Memᴰ d o.order) (sym same) m))

    -- An entry of the pass is that of a draft of the batch.
    entry-draft :
        (d : EntityDraft) (row : ℕ)
        → Memᴰ d s.drafts
        → row_of (entries (p.loop).done) d.id ≡ some row
        → Memᴰ (d, row) (p.loop).done × ((d.batch_id == batch_id) ≡ true)
    entry-draft d row i h =
        let (f, m, q) = row_of-entries (p.loop).done d.id row h in
        let (k, b) = batch-mem f (order-batch f ((p.loop).only (f, row) m)) in
        let same = DistinctIds-eq s.drafts f d distinct k i q in
        (
          subst (λ x. Memᴰ (x, row) (p.loop).done) same m,
          subst (λ x. (x.batch_id == batch_id) ≡ true) same b,
        )

    row_of-report :
        (id : ℕ)
        → row_of report.resolved id ≡ elim (row_of (entries (p.loop).done) id) [
          | some row ↦ some row
          | none ↦ row_of (seed_resolved p.listed []) id
        ]
    row_of-report id = ap (λ r. row_of r id) (p.loop).noted ∙ row_of-append _ _ id

    -- A draft that this pass did not resolve is as the earlier passes left it.
    seed-settled :
        (d : EntityDraft)
        → Memᴰ d s.drafts
        → settled (row_of (seed_resolved p.listed []) d.id) d ≡ d
    seed-settled d i = elim (Option-cases (row_of (seed_resolved p.listed []) d.id)) [
      | inl n ↦ rw n refl
      | inr (row, y) ↦
          let a = seed_resolved-IsApproved p.listed d.id row y in
          let (k, _) = batch-mem a.parent ((p.members a.parent).0 a.listed) in
          let same = DistinctIds-eq s.drafts a.parent d distinct k i a.named in
          rw y (resolved_to_own d row (subst (λ x. approved_row x ≡ some row) same a.approved))
    ]

    entry-settled :
        (d : EntityDraft)
        → Memᴰ d s.drafts
        → settled (row_of (entries (p.loop).done) d.id) d
          ≡ (if d.batch_id == batch_id then settled (row_of report.resolved d.id) d else d)
    entry-settled d i = elim (Option-cases (row_of (entries (p.loop).done) d.id)) [
      | inr (row, y) ↦
          let r : row_of report.resolved d.id ≡ some row = row_of-report d.id ∙ rw y refl in
          rw (y, (entry-draft d row i y).1, r) refl
      | inl n ↦
          let r = row_of-report d.id in
          elim (Bool-cases (d.batch_id == batch_id)) [
            | inl b ↦ rw (n, b, r, n) (sym (seed-settled d i))
            | inr b ↦ rw (n, b) refl
          ]
    ]

    order-holds :
        (d : EntityDraft)
        → Memᴰ d (batch_of batch_id s.drafts)
        → holds p.order d.id ≡ true
        → row_of report.resolved d.id ≢ none
    order-holds d i h =
        let (f, m, q) = mem_of_any (λ x. x.id == d.id) p.order h in
        let (row, k) = (p.loop).covers f m in
        let same =
          DistinctIds-eq s.drafts f d distinct (batch-mem f (order-batch f m)).0 (batch-mem d i).0
            (ground arith) in
        let some_row =
          row_of-entries_some (p.loop).done d row
            (subst (λ x. Memᴰ (x, row) (p.loop).done) same k) in
        elim (Option-cases (row_of (entries (p.loop).done) d.id)) [
          | inl n ↦ absurd (some_row n)
          | inr (r, y) ↦
              λ z. let q' : some r ≡ none = sym (row_of-report d.id ∙ rw y refl) ∙ z in cc
        ]

    pending-accounted :
        (d : EntityDraft)
        → Memᴰ d (batch_of batch_id s.drafts)
        → is_pending d ≡ true
        → (row_of report.resolved d.id ≢ none) ⊎ (is_stuck report.unresolved d.id ≡ true)
    pending-accounted d i y =
        let (b, e, c, _) =
          topo_order_accounts p.listed (resolved_ids (seed_resolved p.listed [])) d.id in
        let same = some_eq (sym e ∙ p.ordered) in
        let listed : is_pending_id p.listed d.id ≡ true =
          any_of_mem (λ x. is_pending x && x.id == d.id) d _ ((p.members d).1 i) (ground arith) in
        let both =
          subst (λ x. (holds x.order d.id || is_stuck x.stuck d.id) ≡ is_pending_id p.listed d.id)
            same c in
        elim (Bool-cases (holds p.order d.id)) [
          | inl h ↦ inl (order-holds d i h)
          | inr h ↦ inr (ground arith)
        ]

    row-backed :
        (d : EntityDraft) (row : ℕ)
        → Memᴰ d (batch_of batch_id s.drafts)
        → row_of report.resolved d.id ≡ some row
        → (approved_row d ≡ some row) ⊎ (has_row (kind_named d.kind) row s' ≡ true)
    row-backed d row i h =
        let k = (batch-mem d i).0 in
        elim (Option-cases (row_of (entries (p.loop).done) d.id)) [
          | inr (r, z) ↦
              let q : r ≡ row = some_eq (sym (row_of-report d.id ∙ rw z refl) ∙ h) in
              let m = (entry-draft d r k z).0 in
              inr (
                subst (λ n. has_row (kind_named d.kind) n s' ≡ true) q
                  (All-mem (IsBackedBy s') (p.loop).done (d, r) (p.loop).backed m))
          | inl n ↦
              let seed = sym (row_of-report d.id ∙ rw n refl) ∙ h in
              let a = seed_resolved-IsApproved p.listed d.id row seed in
              let same =
                DistinctIds-eq s.drafts a.parent d distinct
                  (batch-mem a.parent ((p.members a.parent).0 a.listed)).0 k a.named in
              inl (subst (λ x. approved_row x ≡ some row) same a.approved)
        ]

    Passed-Settled : Settled batch_id s report s'
    Passed-Settled = record {
      grown = (p.loop).grown;
      marked = (p.loop).marked ∙ mark_entries-eq-map _ s.drafts ∙ map_eq _ _ s.drafts entry-settled;
      accounted = pending-accounted;
      backed = row-backed;
      complete = p.complete;
    }

module _ ⦃o : Outside⦄ ⦃u : Unicode⦄ ⦃j : Json⦄ where
  -- When resolving a batch succeeds, in a store whose drafts have distinct ids and whose listings
  -- show what is there, in whatever order: rows have been added and none changed; each draft of the
  -- batch that the report gives a row is approved with that row, and every other draft is as it was;
  -- each draft that was pending has a row in the report or is reported as stuck; a row of the report
  -- is the one that an approved draft of the batch had before, or it is in the table of the draft's
  -- kind; and the report counts as complete exactly if nothing is stuck.
  pub resolve_batch_ok :
      (listing : IsListing o) (batch_id : ℕ) (report : BatchReport) (w w' : World)
      → DistinctIds w.store.drafts
      → run (resolve_batch batch_id) w ≡ (ok report, w')
      → Settled batch_id w.store report w'.store
  resolve_batch_ok listing batch_id report w w' distinct e =
      Passed-Settled batch_id w.store report w'.store
        (Yields-ok _ (resolve_batch batch_id) w (resolve_batch-Passed listing batch_id w) report w'
          e)
        distinct
