-- ===== src/Intake/Approval/Rollback.antt =====
-- Approvals that fail (internal/intake/resolve.go: ResolveBatch, ApproveDraft,
-- `defer tx.Rollback(ctx)`).
use mathlib.Core.Path.{subst}
use role_model.Prelude.{
  ℕ, ◌≢◌, sym, some_eq, ◌≡◌, refl, ◌∙◌, [], Option, none, some, Bool-cases, inl, inr,
}
use role_model.Prelude.Results.{Result, ok, err}
use role_model.GoText.{Unicode}
use role_model.Intake.Payloads.{DraftError, err_unresolved, Json}
use role_model.Intake.Ordering.{EntityDraft, BatchOrder, is_pending}
use role_model.Intake.Store.{
  Store, World, Outside, Action, run, follow, ◌>>=◌, ◌>>◌, pure, lift, query,
}
use role_model.Intake.Resolvers.{Resolved}
use role_model.Intake.Approval.{
  seed_resolved, rolled_back, in_transaction, find_draft, found_draft, get_draft, resolve_ordered,
  resolve_batch, approve_pending, approve_draft, report_of, BatchReport, batch_error,
}

-- The store after an error.
abbrev pub Kept : {A : Type 0} → Store → Result DraftError A × World → Type 0
Kept s (ok a, w) = Unit {0}
Kept s (err e, w) = w.store ≡ s

unfoldable pub Spares : {A : Type 0} → Action A → World → Type 0
Spares m w = Kept w.store (run m w)

module _ {A B : Type 0} where
  Kept-follow :
      (f : A → Action B) (s : Store) (r : Result DraftError A × World)
      → r.1.store ≡ s
      → ((a : A) (w : World) → Spares (f a) w)
      → Kept s (follow f r)
  unfolding Spares
  Kept-follow f s (ok a, w) e k = subst (λ t. Kept t (run (f a) w)) e (k a w)
  Kept-follow f s (err x, w) e k = e

  -- A step that writes nothing comes first.
  pub Spares-bind :
      (m : Action A) (f : A → Action B) (w : World)
      → (run m w).1.store ≡ w.store
      → ((a : A) (w' : World) → Spares (f a) w')
      → Spares (m >>= f) w
  unfolding Spares ◌>>=◌
  Spares-bind m f w e k = Kept-follow f w.store (run m w) e k

  pub Spares->> :
      (m : Action A) (k : Action B) (w : World)
      → (run m w).1.store ≡ w.store
      → ((w' : World) → Spares k w')
      → Spares (m >> k) w
  unfolding ◌>>◌
  Spares->> m k w e h = Spares-bind m (λ _. k) w e (λ _ w'. h w')

  Kept-pure :
      (f : A → B) (s : Store) (r : Result DraftError A × World)
      → Kept s r
      → Kept s (follow (λ a. pure (f a)) r)
  unfolding pure
  Kept-pure f s (ok a, w) k = tt
  Kept-pure f s (err x, w) k = k

  pub Spares-pure :
      (m : Action A) (f : A → B) (w : World) → Spares m w → Spares (m >>= λ a. pure (f a)) w
  unfolding Spares ◌>>=◌
  Spares-pure m f w h = Kept-pure f w.store (run m w) h

pub lift-store :
    {A : Type 0} (r : Result DraftError A) (w : World) → (run (lift r) w).1.store ≡ w.store
unfolding lift
lift-store r w = refl

found_draft-store :
    (found : Option EntityDraft) (w : World) → (run (found_draft found) w).1.store ≡ w.store
unfolding found_draft lift pure
found_draft-store (some d) w = refl
found_draft-store none w = refl

pub follow-store :
    {A B : Type 0} (f : A → Action B) (r : Result DraftError A × World) (s : Store)
    → r.1.store ≡ s
    → ((a : A) (w : World) → (run (f a) w).1.store ≡ w.store)
    → (follow f r).1.store ≡ s
follow-store f (ok a, w) s e k = k a w ∙ e
follow-store f (err x, w) s e k = e

Kept-rolled_back :
    {A : Type 0} (s : Store) (r : Result DraftError A × World) → Kept s (rolled_back s r)
Kept-rolled_back s (ok a, w) = tt
Kept-rolled_back s (err e, w) = refl

pub Spares-lift : {A : Type 0} (r : Result DraftError A) (w : World) → Spares (lift r) w
unfolding Spares lift
Spares-lift (ok a) w = tt
Spares-lift (err e) w = refl

module _ ⦃o : Outside⦄ where
  pub query-store : {A : Type 0} (f : Store → A) (w : World) → (run (query f) w).1.store ≡ w.store
  unfolding query
  query-store f w = elim (Bool-cases (o.fails w.calls)) [ inl e ↦ rw e refl | inr e ↦ rw e refl ]

  module _ ⦃u : Unicode⦄ where
    pub in_transaction-Spares :
        {A : Type 0} (m : Action A) (w : World) → Spares (in_transaction m) w
    unfolding Spares in_transaction
    in_transaction-Spares m w = Kept-rolled_back w.store _

    pub get_draft-store : (id : ℕ) (w : World) → (run (get_draft id) w).1.store ≡ w.store
    unfolding get_draft ◌>>=◌
    get_draft-store id w =
        follow-store found_draft (run (query (λ s. find_draft id s.drafts)) w) w.store
          (query-store _ w) found_draft-store

    module _ ⦃j : Json⦄ where
      resolve_ordered-Spares :
          (batch : Option BatchOrder) (resolved : Resolved) (w : World)
          → Spares (resolve_ordered batch resolved) w
      unfolding resolve_ordered
      resolve_ordered-Spares none resolved w = Spares-lift _ w
      resolve_ordered-Spares (some b) resolved w =
          Spares-pure _ (report_of b.stuck) w (in_transaction-Spares _ w)

      resolve_batch-Spares : (batch_id : ℕ) (w : World) → Spares (resolve_batch batch_id) w
      unfolding resolve_batch
      resolve_batch-Spares batch_id w =
          Spares-bind _ _ w (query-store _ w)
            λ drafts w1. resolve_ordered-Spares _ (seed_resolved drafts []) w1

      approve_pending-Spares : (d : EntityDraft) (w : World) → Spares (approve_pending d) w
      unfolding approve_pending
      approve_pending-Spares d w =
          Spares-bind _ _ w (query-store _ w)
            λ siblings w1. Spares->> _ _ w1 (lift-store _ w1) λ w2. in_transaction-Spares _ w2

      approve_draft-Spares : (id : ℕ) (w : World) → Spares (approve_draft id) w
      unfolding approve_draft
      approve_draft-Spares id w = Spares-bind _ _ w (get_draft-store id w) λ d w1.
          elim (Bool-cases (is_pending d)) [
            | inl e ↦ rw e (approve_pending-Spares d w1)
            | inr e ↦ rw e (Spares-lift _ w1)
          ]

      -- When approving a draft fails, for whatever reason and at whatever statement, the store is
      -- as it was before.
      pub approve_draft_rollback :
          (id : ℕ) (w w' : World) (e : DraftError)
          → run (approve_draft id) w ≡ (err e, w')
          → w'.store ≡ w.store
      unfolding Spares
      approve_draft_rollback id w w' e h = subst (Kept w.store) h (approve_draft-Spares id w)

      pub resolve_batch-Kept :
          (batch_id : ℕ) (w w' : World) (e : DraftError)
          → run (resolve_batch batch_id) w ≡ (err e, w')
          → w'.store ≡ w.store
      unfolding Spares
      resolve_batch-Kept batch_id w w' e h =
          subst (Kept w.store) h (resolve_batch-Spares batch_id w)

      Kept-batch_error :
          (s : Store) (r : Result DraftError BatchReport × World) (e : DraftError)
          → Kept s r
          → batch_error r.0 ≡ some e
          → e ≢ err_unresolved
          → r.1.store ≡ s
      Kept-batch_error s (err x, w) e k h n = k
      Kept-batch_error s (ok report, w) e k h n = elim (Bool-cases report.complete) [
        | inl y ↦ cc (rw y at h)
        | inr y ↦ absurd (n (sym (some_eq (rw y at h))))
      ]

      -- When resolving a batch returns an error other than ErrUnresolved, which goes with the drafts
      -- that were left and comes after the commit, the store is as it was before, whatever the
      -- reason and whatever the statement.
      pub resolve_batch_rollback :
          (batch_id : ℕ) (w : World) (e : DraftError)
          → batch_error (run (resolve_batch batch_id) w).0 ≡ some e
          → e ≢ err_unresolved
          → (run (resolve_batch batch_id) w).1.store ≡ w.store
      unfolding Spares
      resolve_batch_rollback batch_id w e h n =
          Kept-batch_error w.store _ e (resolve_batch-Spares batch_id w) h n
