-- ===== src/Intake/Approval/Batch.antt =====
-- What a successful resolution of a batch has done (internal/intake/resolve.go: ResolveBatch).
use mathlib.Core.Path.{subst}
use role_model.Prelude.{◌↔◌, Memᴰ, ℕ, ◌≡◌, refl, sym, ap, ◌∙◌, List, [], keep, some, ◌==◌}
use role_model.GoText.{Unicode}
use role_model.Intake.Payloads.{Json}
use role_model.Intake.Ordering.{EntityDraft, BatchOrder, topo_order}
use role_model.Intake.Ordering.Result.{topo_order-IsOrdered}
use role_model.Intake.Store.{Store, World, Outside}
use role_model.Intake.Store.Steps.{Yields, Yields-pure, Yields-bind, Yields-map, Yields-query}
use role_model.Intake.Resolvers.{Resolved}
use role_model.Intake.Resolvers.Kinds.{IsListing}
use role_model.Intake.Approval.{
  seed_resolved, resolved_ids, BatchReport, no_stuck, resolve_all, resolve_ordered, resolve_batch,
}
use role_model.Intake.Approval.Loop.{Resolves, in_transaction-Yields, resolve_all-Resolves}

abbrev pub batch_of : ℕ → List EntityDraft → List EntityDraft
batch_of batch_id drafts = keep (λ d. d.batch_id == batch_id) drafts

-- The pass that a report tells of.
pub record Passed (batch_id : ℕ) (s : Store) (report : BatchReport) (s' : Store) : Type 0 where
  pub listed : List EntityDraft
  pub members : (d : EntityDraft) → Memᴰ d listed ↔ Memᴰ d (batch_of batch_id s.drafts)
  pub order : List EntityDraft
  pub ordered :
      topo_order listed (resolved_ids (seed_resolved listed []))
      ≡ some (record { order = order; stuck = report.unresolved })
  pub complete : report.complete ≡ no_stuck report.unresolved
  pub loop : Resolves order (seed_resolved listed []) s report.resolved s'

module _ ⦃o : Outside⦄ ⦃u : Unicode⦄ ⦃j : Json⦄ (listing : IsListing o) where
  resolve_ordered-Resolves :
      (batch : BatchOrder) (resolved : Resolved) (w : World)
      → Yields
          (λ report s'.
            (report.unresolved ≡ batch.stuck)
            × (report.complete ≡ no_stuck batch.stuck)
            × Resolves batch.order resolved w.store report.resolved s')
          (resolve_ordered (some batch) resolved)
          w
  unfolding resolve_ordered
  resolve_ordered-Resolves batch resolved w =
      Yields-bind (Resolves batch.order resolved w.store) _ _ _ w
        (in_transaction-Yields _ _ w λ w1 e.
          subst
            (λ s. Yields (Resolves batch.order resolved s) (resolve_all batch.order resolved) w1) e
            (resolve_all-Resolves listing batch.order resolved w1))
        λ resolved' w1 r. Yields-pure _ _ w1 (refl, refl, r)

  pub resolve_batch-Passed :
      (batch_id : ℕ) (w : World) → Yields (Passed batch_id w.store) (resolve_batch batch_id) w
  unfolding resolve_batch
  resolve_batch-Passed batch_id w =
      Yields-bind
        (λ ds s.
          (s ≡ w.store)
          × ((d : EntityDraft) → Memᴰ d ds ↔ Memᴰ d (batch_of batch_id w.store.drafts)))
        _ _ _ w (Yields-query _ _ w (refl, listing.drafts (batch_of batch_id w.store.drafts)))
        λ ds w1 h.
          let (b, e, _, _, _) = topo_order-IsOrdered ds (resolved_ids (seed_resolved ds [])) in
          rw e (
            Yields-map _ _ _ w1 (resolve_ordered-Resolves b (seed_resolved ds []) w1) λ report s' r.
              record {
                listed = ds;
                members = h.1;
                order = b.order;
                ordered = e ∙ ap (λ k. some (record { order = b.order; stuck = k })) (sym r.0);
                complete = r.1 ∙ ap no_stuck (sym r.0);
                loop =
                    subst (λ s. Resolves b.order (seed_resolved ds []) s report.resolved s') h.0
                      r.2;
              })
