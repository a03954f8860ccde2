-- ===== src/Intake/Staging/Rollback.antt =====
-- Extractions that fail (internal/intake/career_extraction.go: ExtractCareer;
-- internal/intake/extract.go: StageDrafts, `defer tx.Rollback(ctx)`).
use mathlib.Core.Path.{subst}
use role_model.Prelude.{ℕ, ◌≡◌, refl, List, Bool-cases, inl, inr}
use role_model.Prelude.Results.{Result, ok, err}
use role_model.GoText.{Str, Unicode}
use role_model.Intake.Payloads.{DraftError, Json, is_blank}
use role_model.Intake.Store.{World, Outside, run}
use role_model.Intake.Approval.Rollback.{
  Kept, Spares, Spares-bind, Spares-lift, lift-store, query-store, in_transaction-Spares,
}
use role_model.Intake.Extraction.{CareerExtraction, PlannedDraft, JsonWriter, Planning, plan_drafts}
use role_model.Intake.Staging.{
  Model, stage_drafts, after_plan, plan_next, extract_text, extract_career,
}

module _ ⦃o : Outside⦄ ⦃u : Unicode⦄ ⦃j : Json⦄ ⦃m : Model⦄ ⦃jw : JsonWriter⦄ where
  after_plan-store :
      (w : World) (r : Result DraftError Planning) → (after_plan w r).1.store ≡ w.store
  after_plan-store w (ok st) = refl
  after_plan-store w (err e) = refl

  plan_next-store : (x : CareerExtraction) (w : World) → (run (plan_next x) w).1.store ≡ w.store
  unfolding plan_next
  plan_next-store x w = after_plan-store w (plan_drafts x w.issued)

  stage_drafts-Spares :
      (batch_id : ℕ) (planned : List PlannedDraft) (w : World)
      → Spares (stage_drafts batch_id planned) w
  unfolding stage_drafts
  stage_drafts-Spares batch_id planned w = in_transaction-Spares _ w

  extract_text-Spares :
      (batch_id : ℕ) (text : Str) (w : World) → Spares (extract_text batch_id text) w
  unfolding extract_text
  extract_text-Spares batch_id text w = Spares-bind _ _ w (query-store _ w) λ levels w1.
      Spares-bind _ _ w1 (query-store _ w1) λ ladder w2.
        Spares-bind _ _ w2 (lift-store _ w2) λ prompt w3.
          Spares-bind _ _ w3 (lift-store _ w3) λ raw w4.
            Spares-bind _ _ w4 (lift-store _ w4) λ x w5.
              Spares-bind _ _ w5 (plan_next-store x w5)
                λ planned w6. stage_drafts-Spares batch_id planned w6

  -- When extracting a career fails, for whatever reason and at whatever statement, the store is as
  -- it was before: no draft of the career is staged.
  pub extract_career_rollback :
      (batch_id : ℕ) (text : Str) (w w' : World) (e : DraftError)
      → run (extract_career batch_id text) w ≡ (err e, w')
      → w'.store ≡ w.store
  unfolding Spares
  extract_career_rollback batch_id text w w' e h =
      subst (Kept w.store) h (elim (Bool-cases (is_blank text)) [
        | inl b ↦ unfold extract_career in rw b (Spares-lift _ w)
        | inr b ↦ unfold extract_career in rw b (extract_text-Spares batch_id text w)
      ])
