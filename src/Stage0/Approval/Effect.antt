-- ===== src/Stage0/Approval/Effect.antt =====
-- What approving a draft does to the store (internal/stage0/service.go: ApproveDraft).
use mathlib.Core.Path.{subst}
use role_model.Prelude.{
  ℕ, ◌≡◌, refl, ap, ◌∙◌, true, ◌||◌, ◌&&◌, List, [], ◌∷◌, ◌++◌, any, some, ◌==◌,
}
use role_model.Prelude.Results.{ok, err}
use role_model.GoText.{Str, codes}
use role_model.Intake.Store.{Contribution}
use role_model.Stage0.{
  Stage0Error, ContributionDraft, Store, World, Outside, run, first_with, set_draft_status,
  is_tagged, get_contribution_draft, get_position, create_contribution, update_draft_status, new_id,
  lift, in_transaction,
}
use role_model.Stage0.Outcomes.{
  Ended, Ends, Ends-map, Ends-pure, Ends-lift, Ends-bind, Ends-then, Ends-read, Ends-new_id,
  Ends-write, Ends-update, Ends-in_transaction, first_with-any,
}
use role_model.Stage0.Approval.{
  check_draft, contribution_of, has_tag_id, verify_tags, assign_tags, write_contribution,
  approve_draft,
}
use role_model.Stage0.Approval.Guards.{IsComplete, check_draft-ok, Known, verify_tags-Ends}
use role_model.Stage0.Approval.Links.{Linked, assign_tags-Ends}

pub record Approved (draft_id position_id : ℕ) (tag_ids : List ℕ) (s : Store) (c : Contribution)
    (t : Store) : Type 0 where
  pub draft : ContributionDraft
  pub content : Str × Str
  pub stored : first_with (λ d. d.id == draft_id) s.drafts ≡ some draft
  pub complete : IsComplete draft content
  pub position : any (λ p. p.id == position_id) s.positions ≡ true
  pub tags : (id : ℕ) → has_tag_id id tag_ids ≡ true → any (λ t. t.id == id) s.tags ≡ true
  pub row : c ≡ record {
    id = c.id;
    position_id = position_id;
    summary = content.0;
    full_description = content.1;
    outcomes = draft.outcomes;
    scale_context = draft.scale_context;
    is_active = true;
  }
  pub contributions : t.contributions ≡ s.contributions ++ c ∷ []
  pub drafts : t.drafts ≡ set_draft_status draft_id (codes "approved") s.drafts
  pub links :
      (k i : ℕ)
      → is_tagged k i t.contribution_tags
        ≡ (is_tagged k i s.contribution_tags || ((c.id == k) && has_tag_id i tag_ids))
  pub others :
      record t {
        contributions = s.contributions;
        drafts = s.drafts;
        contribution_tags = s.contribution_tags;
      }
      ≡ s

module _ ⦃o : Outside⦄ where
  -- The store after the statements of the transaction.
  abbrev written : ℕ → Contribution → Store → Store
  written draft_id c s = record s {
    contributions = s.contributions ++ c ∷ [];
    drafts = set_draft_status draft_id (codes "approved") s.drafts;
  }

  abbrev Wrote :
      ℕ → ContributionDraft → Str × Str → ℕ → List ℕ → Store → Contribution → Store → Type 0
  Wrote draft_id d content position_id unique s c t =
      (c ≡ contribution_of d content position_id c.id) × Linked c.id unique (written draft_id c s) t

  write_contribution-Ends :
      (draft_id position_id : ℕ) (d : ContributionDraft) (content : Str × Str) (unique : List ℕ)
      (s : Store) (w : World)
      → w.store ≡ s
      → Ends
          (Wrote draft_id d content position_id unique s)
          (λ e t. Unit {0})
          (write_contribution draft_id d content position_id unique)
          w
  unfolding write_contribution
  write_contribution-Ends draft_id position_id d content unique s w at_s =
      Ends-bind _ _ _ new_id _ w (Ends-new_id s w at_s _) (λ id w1 at_s1.
        let c = contribution_of d content position_id id in
        Ends-then _ _ _ (create_contribution c) _ w1
          (Ends-write s w1 at_s1 _ (λ e. tt) _ tt
            (λ t. record t { contributions = t.contributions ++ c ∷ [] }))
          (λ a w2 (u, at_s2).
            Ends-then _ _ _ (update_draft_status draft_id (codes "approved")) _ w2
              (Ends-update _ w2 at_s2 _ (λ e. tt) _ (λ t. any (λ d. d.id == draft_id) t.drafts)
                (λ t. record t { drafts = set_draft_status draft_id (codes "approved") t.drafts }))
              (λ b w3 at_s3.
                Ends-then _ _ _ (assign_tags id unique) _ w3
                  (assign_tags-Ends id unique (written draft_id c s) w3 at_s3)
                  (λ v w4 linked. Ends-pure _ _ c w4 (refl, linked)))))

  approve_draft-Ends :
      (draft_id position_id : ℕ) (tag_ids : List ℕ) (w : World)
      → Ends
          (Approved draft_id position_id tag_ids w.store)
          (λ e t. t ≡ w.store)
          (approve_draft draft_id position_id tag_ids)
          w
  unfolding approve_draft
  approve_draft-Ends draft_id position_id tag_ids w =
      let s = w.store in
      Ends-bind _ _ _ (get_contribution_draft draft_id) _ w
        (Ends-read s w refl _ (λ t. first_with (λ d. d.id == draft_id) t.drafts))
        (λ d w1 (stored, at1).
          Ends-bind _ _ (λ content t. (check_draft d ≡ ok content) × (t ≡ s)) (lift (check_draft d))
            _ w1 (Ends-lift _ _ (check_draft d) w1 (λ content e. (e, at1)) (λ e. at1))
            (λ content w2 (checked, at2).
              Ends-bind _ _ _ (get_position position_id) _ w2
                (Ends-read s w2 at2 _ (λ t. first_with (λ p. p.id == position_id) t.positions))
                (λ p w3 (here, at3).
                  Ends-bind _ _ _ (verify_tags tag_ids []) _ w3
                    (verify_tags-Ends s tag_ids [] w3 at3 (λ id h. cc))
                    (λ unique w4 (at4, (same, known)).
                      Ends-map _ _ _ _ (in_transaction _) w4
                        (Ends-in_transaction (λ e t. t ≡ s) _ _ w4
                          (λ w5 at5.
                            write_contribution-Ends draft_id position_id d content unique s w5
                              (at5 ∙ at4))
                          (λ e. at4))
                        (λ c t (row, (e, links)).
                          approved d content c t stored checked
                            (first_with-any (λ p. p.id == position_id) s.positions p here) unique
                            same known row e links)
                        (λ e t h. h)))))
    where
      approved :
          (d : ContributionDraft) (content : Str × Str) (c : Contribution) (t : Store)
          → first_with (λ d. d.id == draft_id) w.store.drafts ≡ some d
          → check_draft d ≡ ok content
          → any (λ p. p.id == position_id) w.store.positions ≡ true
          → (unique : List ℕ) → ((i : ℕ) → has_tag_id i unique ≡ has_tag_id i tag_ids)
          → Known w.store unique
          → c ≡ contribution_of d content position_id c.id
          → t ≡ record (written draft_id c w.store) { contribution_tags = t.contribution_tags }
          → ((k i : ℕ)
              → is_tagged k i t.contribution_tags
                ≡ (is_tagged k i w.store.contribution_tags || ((c.id == k) && has_tag_id i unique)))
          → Approved draft_id position_id tag_ids w.store c t
      approved d content c t stored checked position unique same known row e links = record {
        draft = d;
        content = content;
        stored = stored;
        complete = check_draft-ok d content checked;
        position = position;
        tags = λ id h. known id (same id ∙ h);
        row = row;
        contributions = ap (λ (u : Store). u.contributions) e;
        drafts = ap (λ (u : Store). u.drafts) e;
        links = λ k i.
            links k i
            ∙ ap (λ b. is_tagged k i w.store.contribution_tags || ((c.id == k) && b)) (same i);
        others =
            ap
              (λ (u : Store). record u {
                contributions = w.store.contributions;
                drafts = w.store.drafts;
                contribution_tags = w.store.contribution_tags;
              })
              e;
      }

  -- Approving a draft that succeeds: the draft was pending with both texts filled, the position and
  -- every tag are of the account, and what changes is that the contribution is added at the end,
  -- with the fields of the draft, that it is linked to exactly the tags given, however often each
  -- is given, and that the draft is approved.
  pub approve_draft_effect :
      (draft_id position_id : ℕ) (tag_ids : List ℕ) (w w' : World) (c : Contribution)
      → run (approve_draft draft_id position_id tag_ids) w ≡ (ok c, w')
      → Approved draft_id position_id tag_ids w.store c w'.store
  unfolding Ends
  approve_draft_effect draft_id position_id tag_ids w w' c e =
      subst (Ended (Approved draft_id position_id tag_ids w.store) (λ e t. t ≡ w.store)) e
        (approve_draft-Ends draft_id position_id tag_ids w)

  -- When approving a draft fails, by a guard or at whatever statement, the store is as it was.
  pub approve_draft_unchanged :
      (draft_id position_id : ℕ) (tag_ids : List ℕ) (w w' : World) (e : Stage0Error)
      → run (approve_draft draft_id position_id tag_ids) w ≡ (err e, w')
      → w'.store ≡ w.store
  unfolding Ends
  approve_draft_unchanged draft_id position_id tag_ids w w' e h =
      subst (Ended (Approved draft_id position_id tag_ids w.store) (λ e t. t ≡ w.store)) h
        (approve_draft-Ends draft_id position_id tag_ids w)
