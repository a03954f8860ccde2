-- ===== src/Intake/Approval/Single.antt =====
-- What a successful approval of one draft has done (internal/intake/resolve.go: ApproveDraft).
use mathlib.Core.Path.{subst}
use role_model.Prelude.{
  ◌↔◌, ℕ, ◌≡◌, refl, sym, ◌∙◌, true, List, [], ◌∷◌, keep, Option, none, some, ◌==◌, Bool-cases, inl,
  inr, All, Memᴰ,
}
use role_model.Prelude.Results.{ok}
use role_model.GoText.{Unicode}
use role_model.Intake.Payloads.{Json}
use role_model.Intake.Ordering.{EntityDraft, is_pending}
use role_model.Intake.Store.{Store, World, Outside, run}
use role_model.Intake.Store.Steps.{
  Yields, Yields-ok, Yields-pure, Yields-bind, Yields->>, Yields-map, Yields-query, Yields-lift,
}
use role_model.Intake.Resolvers.Kinds.{IsListing}
use role_model.Intake.Approval.{
  seed_resolved, check_dependencies, find_draft, found_draft, get_draft, approve_pending,
  approve_draft,
}
use role_model.Intake.Approval.Marking.{Marked, resolve_and_mark-Marked}
use role_model.Intake.Approval.Loop.{in_transaction-Yields}
use role_model.Intake.Approval.Parents.{
  IsApproved, IsApproved-within, find_draft-mem, seed_resolved-IsApproved, check_dependencies-All,
}

-- Every dependency is a draft of the batch that has been approved with a row.
abbrev pub HasParents : Store → EntityDraft → Type 0
HasParents s d =
    All (λ dep. (row : ℕ) × IsApproved (keep (λ x. x.batch_id == d.batch_id) s.drafts) dep row)
      d.depends_on

pub record Approved (id : ℕ) (s : Store) (row : ℕ) (s' : Store) : Type 0 where
  pub draft : EntityDraft
  pub found : Memᴰ draft s.drafts
  pub named : draft.id ≡ id
  pub pending : is_pending draft ≡ true
  pub parents : HasParents s draft
  pub written : Marked draft s row s'

All-map :
    {A : Type 0} {P Q : A → Type 0} (xs : List A) → ((x : A) → P x → Q x) → All P xs → All Q xs
All-map [] k a = tt
All-map (x ∷ xs) k a = (k x a.0, All-map xs k a.1)

module _ ⦃o : Outside⦄ where
  found_draft-eq :
      (found : Option EntityDraft) (w : World)
      → Yields (λ d s. (s ≡ w.store) × (found ≡ some d)) (found_draft found) w
  unfolding found_draft
  found_draft-eq none w = Yields-lift _ _ w λ a e. cc
  found_draft-eq (some d) w = Yields-pure _ d w (refl, refl)

  get_draft-eq :
      (id : ℕ) (w : World)
      → Yields (λ d s. (s ≡ w.store) × (find_draft id w.store.drafts ≡ some d)) (get_draft id) w
  unfolding get_draft
  get_draft-eq id w =
      Yields-bind (λ f s. (s ≡ w.store) × (f ≡ find_draft id w.store.drafts)) _ _ found_draft w
        (Yields-query _ _ w (refl, refl))
        λ f w1 h.
          Yields-map _ _ (found_draft f) w1 (found_draft-eq f w1)
            λ d s g. (g.0 ∙ h.0, sym h.1 ∙ g.1)

  module _ ⦃u : Unicode⦄ ⦃j : Json⦄ (listing : IsListing o) where
    approve_pending-Marked :
        (d : EntityDraft) (w : World)
        → Yields (λ row s'. HasParents w.store d × Marked d w.store row s') (approve_pending d) w
    unfolding approve_pending
    approve_pending-Marked d w =
        Yields-bind
          (λ ds s.
            (s ≡ w.store)
            × ((x : EntityDraft)
                → Memᴰ x ds ↔ Memᴰ x (keep (λ x. x.batch_id == d.batch_id) w.store.drafts)))
          _ _ _ w
          (Yields-query _ _ w
            (refl, listing.drafts (keep (λ x. x.batch_id == d.batch_id) w.store.drafts)))
          λ ds w1 h.
            Yields->>
              (λ t s.
                (s ≡ w.store) × (check_dependencies d.depends_on ds (seed_resolved ds []) ≡ ok tt))
              _ _ _ w1 (Yields-lift _ _ w1 λ a e. (h.0, e))
              λ t w2 g. in_transaction-Yields _ _ w2 λ w3 e3.
                Yields-map _ _ _ w3 (resolve_and_mark-Marked listing _ d w3) λ row s' m. (
                  All-map d.depends_on
                      (λ dep p. (
                        p.0,
                        IsApproved-within ds _ dep p.0 (λ x. (h.1 x).0)
                            (seed_resolved-IsApproved ds dep p.0 p.1),
                      ))
                      (check_dependencies-All d.depends_on ds _ g.1),
                  subst (λ s. Marked d s row s') (e3 ∙ g.0) m,
                )

    approve_draft-Approved :
        (id : ℕ) (w : World) → Yields (Approved id w.store) (approve_draft id) w
    unfolding approve_draft
    approve_draft-Approved id w = Yields-bind _ _ _ _ w (get_draft-eq id w) λ d w1 h.
        elim (Bool-cases (is_pending d)) [
          | inr n ↦ rw n (Yields-lift (Approved id w.store) _ w1 λ a e. cc)
          | inl y ↦ rw y (
              Yields-map _ _ _ w1 (approve_pending-Marked d w1) λ row s' m.
                let (i, q) = find_draft-mem id w.store.drafts d h.1 in
                record {
                  draft = d;
                  found = i;
                  named = q;
                  pending = y;
                  parents = subst (λ s. HasParents s d) h.0 m.0;
                  written = subst (λ s. Marked d s row s') h.0 m.1;
                })
        ]

    -- If listings show what is there, in whatever order, approving a draft succeeds only for a
    -- pending draft whose every dependency is a draft of its batch that was approved with a row. It
    -- then adds rows, changes none, marks the draft and no other as approved with the row that it
    -- reports, and this row is in the table of the draft's kind.
    pub approve_draft_ok :
        (id row : ℕ) (w w' : World)
        → run (approve_draft id) w ≡ (ok row, w')
        → Approved id w.store row w'.store
    approve_draft_ok id row w w' e =
        Yields-ok _ (approve_draft id) w (approve_draft-Approved id w) row w' e
