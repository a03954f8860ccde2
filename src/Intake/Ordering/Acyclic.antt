-- ===== src/Intake/Ordering/Acyclic.antt =====
-- Batches without circular dependencies (internal/intake/resolve.go: topoOrder).
use role_model.Prelude.{
  ℕ, zero, suc, ◌<◌, ◌≡◌, refl, ap, true, ◌||◌, List, [], ◌∷◌, Memᴰ, map, All-mem, some, ◌==◌,
  mem_of_all-false, mem_of_any, arith,
}
use role_model.Intake.Ordering.{
  EntityDraft, has_id, is_pending, holds, Progress, classify, StuckReason, BatchOrder, final_state,
  topo_order,
}
use role_model.Intake.Ordering.Rounds.{final_state_total}
use role_model.Intake.Ordering.Account.{is_pending_id, final_state-IsAccount}
use role_model.Intake.Ordering.Result.{result_of, topo_order-final, left_over}

-- Every dependency of a pending draft was resolved before or is a pending draft of the batch, and
-- `depth` falls along dependencies.
module _ (drafts : List EntityDraft) (resolved : List ℕ) (depth : ℕ → ℕ) where
  abbrev pub IsWithinReach : Type 0
  IsWithinReach =
      (d : EntityDraft) (dep : ℕ)
      → Memᴰ d drafts
      → is_pending d ≡ true
      → Memᴰ dep d.depends_on
      → (depth dep < depth d.id) × ((has_id resolved dep || is_pending_id drafts dep) ≡ true)

  none_left :
      (st : Progress)
      → final_state drafts resolved ≡ some st
      → IsWithinReach
      → (k : ℕ) (d : EntityDraft) → Memᴰ d st.pending
      → depth d.id < k
      → ⊥
  none_left st e reach zero d m low = elim low [ ]
  none_left st e reach (suc k) d m low =
      let account = final_state-IsAccount drafts resolved st e in
      let (i, p) =
        All-mem (λ x. Memᴰ x drafts × (is_pending x ≡ true)) st.pending d account.waiting m in
      let (dep, j, unmet) =
        mem_of_all-false (has_id st.satisfied) d.depends_on (left_over drafts resolved st e d m) in
      let (falls, found) = reach d dep i p j in
      let waiting : holds st.pending dep ≡ true =
        ground (arith, account.met dep, account.covered dep) in
      let (f, l, same) = mem_of_any (λ x. x.id == dep) st.pending waiting in
      let same' : f.id ≡ dep = ground arith in none_left st e reach k f l (rw same' (omega arith))

  none_at_all :
      (st : Progress)
      → final_state drafts resolved ≡ some st
      → IsWithinReach
      → (ds : List EntityDraft) → ((d : EntityDraft) → Memᴰ d ds → Memᴰ d st.pending)
      → ds ≡ []
  none_at_all st e reach [] sub = refl
  none_at_all st e reach (d ∷ ds) sub =
      absurd (none_left st e reach (suc (depth d.id)) d (sub d (Memᴰ.head refl)) (omega arith))

-- If the dependencies of the pending drafts were resolved before or are pending drafts of the batch,
-- and are not circular (some depth falls along them), nothing is stuck.
pub topo_order_complete :
    (drafts : List EntityDraft) (resolved : List ℕ) (depth : ℕ → ℕ)
    → ((d : EntityDraft) (dep : ℕ)
        → Memᴰ d drafts
        → is_pending d ≡ true
        → Memᴰ dep d.depends_on
        → (depth dep < depth d.id) × ((has_id resolved dep || is_pending_id drafts dep) ≡ true))
    → (o : BatchOrder) × (topo_order drafts resolved ≡ some o) × (o.stuck ≡ [])
topo_order_complete drafts resolved depth reach =
    let (st, e) = final_state_total drafts resolved in
    let gone = none_at_all drafts resolved depth st e reach st.pending (λ d m. m) in
    (
      result_of st,
      topo_order-final drafts resolved st e,
      ap (map {B = ℕ × StuckReason} (λ d. (d.id, classify st d))) gone,
    )
