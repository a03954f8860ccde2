-- ===== src/Intake/Approval.antt =====
-- Approving drafts, one or a whole batch, in one transaction (internal/intake/resolve.go:
-- ResolveBatch, ApproveDraft, describeDependency).
-- A transaction works on the store and is rolled back when it is left before its commit.
pub mod Marking
pub mod Loop
pub mod Parents
pub mod Single
pub mod Settling
pub mod Batch
pub mod Report
pub mod Backing
pub mod Rollback
use role_model.Prelude.{
  ℕ, ◌+◌, Bool, true, false, not, ◌&&◌, List, [], ◌∷◌, ◌++◌, map, Option, none, some, ◌==◌,
  if◌then◌else◌,
}
use role_model.Prelude.Results.{Result, ok, err}
use role_model.GoText.{Str, codes, str_eq, Unicode}
use role_model.Intake.Payloads.{
  DraftError, err_unresolved, database_failed, draft_not_found, draft_not_pending,
  dependency_not_resolved, Json,
}
use role_model.Intake.Ordering.{EntityDraft, StuckReason, BatchOrder, is_pending, topo_order}
use role_model.Intake.Store.{
  Store, World, Outside, Action, act, run, ◌>>=◌, ◌>>◌, pure, lift, query, list_drafts,
  mark_resolved,
}
use role_model.Intake.Resolvers.{Resolved, row_of, resolve_one}

-- d.Status == "approved" && d.ResolvedID != nil
abbrev pub approved_row : EntityDraft → Option ℕ
approved_row d = if str_eq d.status (codes "approved") then d.resolved_id else none

abbrev pub note_row : ℕ → Option ℕ → Resolved → Resolved
note_row id none resolved = resolved
note_row id (some row) resolved = (id, row) ∷ resolved

-- The drafts that an earlier pass resolved.
unfoldable pub seed_resolved : List EntityDraft → Resolved → Resolved
seed_resolved [] resolved = resolved
seed_resolved (d ∷ drafts) resolved = seed_resolved drafts (note_row d.id (approved_row d) resolved)

abbrev pub resolved_ids : Resolved → List ℕ
resolved_ids resolved = map (λ entry. entry.0) resolved

-- The kind and the status of a dependency, `none` if it is not in the batch.
unfoldable pub describe_dependency : ℕ → List EntityDraft → Option (Str × Str)
describe_dependency dep [] = none
describe_dependency dep (d ∷ siblings) =
    if d.id == dep then some (d.kind, d.status) else describe_dependency dep siblings

unfoldable pub check_dependencies :
    List ℕ → List EntityDraft → Resolved → Result DraftError (Unit {0})
check_dependencies [] siblings resolved = ok tt
check_dependencies (dep ∷ deps) siblings resolved = elim (row_of resolved dep) [
  | some row ↦ check_dependencies deps siblings resolved
  | none ↦ err (dependency_not_resolved dep (describe_dependency dep siblings))
]

unfoldable pub find_draft : ℕ → List EntityDraft → Option EntityDraft
find_draft id [] = none
find_draft id (d ∷ drafts) = if d.id == id then some d else find_draft id drafts

-- The result of ResolveBatch; `complete = false` goes with ErrUnresolved (batch_error).
pub record BatchReport : Type 0 where
  pub resolved : Resolved
  pub unresolved : List (ℕ × StuckReason)
  pub complete : Bool

abbrev pub no_stuck : List (ℕ × StuckReason) → Bool
no_stuck [] = true
no_stuck (s ∷ ss) = false

-- The error that ResolveBatch returns: one that stopped it, or ErrUnresolved, which goes with the
-- result after the commit.
abbrev pub batch_error : Result DraftError BatchReport → Option DraftError
batch_error (err e) = some e
batch_error (ok report) = if report.complete then none else some err_unresolved

abbrev pub rolled_back :
    {A : Type 0} → Store → Result DraftError A × World → Result DraftError A × World
rolled_back s (ok a, w) = (ok a, w)
rolled_back s (err e, w) = (err e, record w { store = s })

-- No row is pgx.ErrNoRows.
unfoldable pub found_draft : Option EntityDraft → Action EntityDraft
found_draft none = lift (err draft_not_found)
found_draft (some d) = pure d

module _ ⦃o : Outside⦄ where
  -- BEGIN and COMMIT may fail as any statement.
  abbrev pub begin_tx : Action (Unit {0})
  begin_tx = query (λ s. tt)

  abbrev pub commit_tx : Action (Unit {0})
  commit_tx = query (λ s. tt)

  -- `defer tx.Rollback(ctx)`: an error takes the store back to where the transaction began.
  unfoldable pub in_transaction : {A : Type 0} → Action A → Action A
  in_transaction body =
      act λ w. rolled_back w.store (run (begin_tx >> body >>= λ a. commit_tx >> pure a) w)

  unfoldable pub get_draft : ℕ → Action EntityDraft
  get_draft id = query (λ s. find_draft id s.drafts) >>= found_draft

  module _ ⦃u : Unicode⦄ ⦃j : Json⦄ where
    unfoldable pub resolve_and_mark : Resolved → EntityDraft → Action ℕ
    resolve_and_mark resolved d = do row ← resolve_one d resolved; mark_resolved d.id row; pure row

    -- The loop of ResolveBatch over the order.
    unfoldable pub resolve_all : List EntityDraft → Resolved → Action Resolved
    resolve_all [] resolved = pure resolved
    resolve_all (d ∷ order) resolved = do
      row ← resolve_and_mark resolved d
      resolve_all order ((d.id, row) ∷ resolved)

    abbrev pub report_of : List (ℕ × StuckReason) → Resolved → BatchReport
    report_of stuck resolved = record {
      resolved = resolved;
      unresolved = stuck;
      complete = no_stuck stuck;
    }

    -- topo_order always gives an order; its `none` stands for a loop that does not end.
    unfoldable pub resolve_ordered : Option BatchOrder → Resolved → Action BatchReport
    resolve_ordered none resolved = lift (err database_failed)
    resolve_ordered (some batch) resolved = do
      resolved' ← in_transaction (resolve_all batch.order resolved)
      pure (report_of batch.stuck resolved')

    unfoldable pub resolve_batch : ℕ → Action BatchReport
    resolve_batch batch_id = do
      drafts ← list_drafts batch_id
      let resolved = seed_resolved drafts []
      resolve_ordered (topo_order drafts (resolved_ids resolved)) resolved

    -- ApproveDraft once the draft has been read.
    unfoldable pub approve_pending : EntityDraft → Action ℕ
    approve_pending d = do
      siblings ← list_drafts d.batch_id
      let resolved = seed_resolved siblings []
      lift (check_dependencies d.depends_on siblings resolved)
      in_transaction (resolve_and_mark resolved d)

    unfoldable pub approve_draft : ℕ → Action ℕ
    approve_draft id = do
      d ← get_draft id
      if is_pending d then approve_pending d else lift (err draft_not_pending)
