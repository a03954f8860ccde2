-- ===== src/Stage0/Approval.antt =====
-- Approving a draft of a contribution (internal/stage0/service.go: ApproveDraft).
pub mod Guards
pub mod Links
pub mod Effect
use role_model.Prelude.{
  ℕ, Bool, true, List, [], ◌∷◌, ◌++◌, any, Option, none, some, ◌==◌, not, if◌then◌else◌,
}
use role_model.Prelude.Results.{Result, ok, err}
use role_model.GoText.{Str, codes, str_eq, is_empty}
use role_model.Intake.Store.{Contribution}
use role_model.Stage0.{
  Stage0Error, draft_not_pending, draft_incomplete, ContributionDraft, Outside, Action, ◌>>=◌, ◌>>◌,
  pure, lift, get_contribution_draft, get_position, get_tag, create_contribution,
  update_draft_status, assign_tag, new_id, in_transaction,
}

-- A text that must be there and not be empty.
abbrev pub filled_text : Option Str → Result Stage0Error Str
filled_text none = err draft_incomplete
filled_text (some text) = if is_empty text then err draft_incomplete else ok text

abbrev pub both : Result Stage0Error Str → Result Stage0Error Str → Result Stage0Error (Str × Str)
both (err e) other = err e
both (ok text) (err e) = err e
both (ok text) (ok other) = ok (text, other)

-- The guards on the draft itself, which give its two texts.
unfoldable pub check_draft : ContributionDraft → Result Stage0Error (Str × Str)
check_draft d =
    if not (str_eq d.status (codes "pending"))
    then err draft_not_pending
    else both (filled_text d.summary) (filled_text d.full_description)

abbrev pub contribution_of : ContributionDraft → Str × Str → ℕ → ℕ → Contribution
contribution_of d content position_id id = record {
  id = id;
  position_id = position_id;
  summary = content.0;
  full_description = content.1;
  outcomes = d.outcomes;
  scale_context = d.scale_context;
  is_active = true;
}

abbrev pub has_tag_id : ℕ → List ℕ → Bool
has_tag_id id ids = any (λ i. i == id) ids

module _ ⦃o : Outside⦄ where
  -- The loop over tagIDs; a tag is seen when it is among the unique ones.
  unfoldable pub verify_tags : List ℕ → List ℕ → Action (List ℕ)
  verify_tags [] unique = pure unique
  verify_tags (id ∷ ids) unique =
      if has_tag_id id unique
      then verify_tags ids unique
      else get_tag id >>= λ tag. verify_tags ids (unique ++ id ∷ [])

  unfoldable pub assign_tags : ℕ → List ℕ → Action (Unit {0})
  assign_tags contribution [] = pure tt
  assign_tags contribution (id ∷ ids) = assign_tag contribution id >> assign_tags contribution ids

  unfoldable pub write_contribution :
      ℕ → ContributionDraft → Str × Str → ℕ → List ℕ → Action Contribution
  unfolding assign_tags
  write_contribution draft_id draft content position_id unique = do
    id ← new_id
    let c = contribution_of draft content position_id id
    create_contribution c
    update_draft_status draft_id (codes "approved")
    assign_tags id unique
    pure c

  unfoldable pub approve_draft : ℕ → ℕ → List ℕ → Action Contribution
  unfolding verify_tags write_contribution
  approve_draft draft_id position_id tag_ids = do
    draft ← get_contribution_draft draft_id
    content ← lift (check_draft draft)
    position ← get_position position_id
    unique ← verify_tags tag_ids []
    in_transaction (write_contribution draft_id draft content position_id unique)
