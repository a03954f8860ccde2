-- ===== src/Intake/Ordering/Result.antt =====
-- The result of topoOrder (internal/intake/resolve.go).
use role_model.Prelude.{
  ℕ, ◌≡◌, refl, ◌≢◌, Bool, true, false, ◌&&◌, ◌||◌, List, [], ◌∷◌, Memᴰ, map, any, all, All,
  All-mem, some, ◌==◌, any_of_mem, arith,
}
use role_model.Intake.Ordering.{
  EntityDraft, has_id, is_pending, holds, Progress, is_ready, StuckReason, unreachable, in_cycle,
  unresolved, classify, reason_of, BatchOrder, final_state, topo_order,
}
use role_model.Intake.Ordering.Rounds.{final_state_total, final_state-idle}
use role_model.Intake.Ordering.Prefix.{IsOrdered, final_state-IsOrdered}
use role_model.Intake.Ordering.Account.{DistinctIds, is_pending_id, final_state-IsAccount}

abbrev pub result_of : Progress → BatchOrder
result_of st = record { order = st.order; stuck = map (λ d. (d.id, classify st d)) st.pending }

pub topo_order-final :
    (drafts : List EntityDraft) (resolved : List ℕ) (st : Progress)
    → final_state drafts resolved ≡ some st
    → topo_order drafts resolved ≡ some (result_of st)
unfolding topo_order
topo_order-final drafts resolved st e = rw (e, topo_order) refl

-- Ordering a batch always ends, and gives an order in which each draft depends only on drafts that
-- were resolved before the pass or that stand before it; no draft of the batch stands in it twice.
pub topo_order-IsOrdered :
    (drafts : List EntityDraft) (resolved : List ℕ)
    → (o : BatchOrder) × (topo_order drafts resolved ≡ some o)
      × IsOrdered resolved o.order
      × DistinctIds o.order
      × All (λ d. Memᴰ d drafts) o.order
topo_order-IsOrdered drafts resolved =
    let (st, e) = final_state_total drafts resolved in
    let account = final_state-IsAccount drafts resolved st e in
    (
      result_of st,
      topo_order-final drafts resolved st e,
      final_state-IsOrdered drafts resolved st e,
      account.distinct,
      account.from_batch,
    )

-- The id is reported as stuck.
abbrev pub is_stuck : List (ℕ × StuckReason) → ℕ → Bool
is_stuck stuck id = any (λ s. s.0 == id) stuck

is_stuck-eq-holds :
    (st : Progress) (ds : List EntityDraft) (id : ℕ)
    → is_stuck (map (λ d. (d.id, classify st d)) ds) id ≡ holds ds id
is_stuck-eq-holds st [] id = refl
is_stuck-eq-holds st (d ∷ ds) id = rw (is_stuck-eq-holds st ds id) refl

-- Each pending draft is either ordered or reported as stuck, never both, and nothing else is.
pub topo_order_accounts :
    (drafts : List EntityDraft) (resolved : List ℕ) (id : ℕ)
    → (o : BatchOrder) × (topo_order drafts resolved ≡ some o)
      × ((holds o.order id || is_stuck o.stuck id) ≡ is_pending_id drafts id)
      × ((holds o.order id && is_stuck o.stuck id) ≡ false)
topo_order_accounts drafts resolved id =
    let (st, e) = final_state_total drafts resolved in
    let account = final_state-IsAccount drafts resolved st e in
    (
      result_of st,
      topo_order-final drafts resolved st e,
      rw (is_stuck-eq-holds st st.pending id) (account.covered id),
      rw (is_stuck-eq-holds st st.pending id) (account.apart id),
    )

reason_of-unreachable : (ms cs : List ℕ) → reason_of ms cs ≡ unreachable → (ms ≡ []) × (cs ≡ [])
reason_of-unreachable [] [] h = (refl, refl)
reason_of-unreachable [] (c ∷ cs) h = cc
reason_of-unreachable (m ∷ ms) cs h = cc

-- Without an unmet dependency under either heading, all are met.
all-met :
    (satisfied : List ℕ) (pending : List EntityDraft) (deps : List ℕ)
    → unresolved satisfied pending deps ≡ []
    → in_cycle satisfied pending deps ≡ []
    → all (has_id satisfied) deps ≡ true
unfolding unresolved in_cycle
all-met satisfied pending [] h k = refl
all-met satisfied pending (dep ∷ deps) h k = ground (arith, all-met satisfied pending deps)

classify-reached :
    (st : Progress) (d : EntityDraft)
    → is_ready st.satisfied d ≡ false
    → classify st d ≢ unreachable
unfolding classify
classify-reached st d h e =
    let (ms, cs) = reason_of-unreachable _ _ e in
    let met = all-met st.satisfied st.pending d.depends_on ms cs in cc

-- A pending draft that is left over was not ready.
pub left_over :
    (drafts : List EntityDraft) (resolved : List ℕ) (st : Progress)
    → final_state drafts resolved ≡ some st
    → (d : EntityDraft) → Memᴰ d st.pending
    → is_ready st.satisfied d ≡ false
left_over drafts resolved st e d m =
    let account = final_state-IsAccount drafts resolved st e in
    let (i, _) =
      All-mem (λ x. Memᴰ x drafts × (is_pending x ≡ true)) st.pending d account.waiting m in
    let here = any_of_mem (λ x. x.id == d.id) d st.pending m (ground arith) in
    let idle = final_state-idle drafts resolved st e d i in ground arith

reasons :
    (st : Progress) (ds : List EntityDraft)
    → ((d : EntityDraft) → Memᴰ d ds → is_ready st.satisfied d ≡ false)
    → All (λ (s : ℕ × StuckReason). s.1 ≢ unreachable) (map (λ d. (d.id, classify st d)) ds)
reasons st [] h = tt
reasons st (d ∷ ds) h =
    (classify-reached st d (h d (Memᴰ.head refl)), reasons st ds (λ x m. h x (Memᴰ.tail m)))

-- Every stuck draft is reported with a dependency that holds it up: the case that the code calls
-- impossible does not occur.
pub topo_order_reasons :
    (drafts : List EntityDraft) (resolved : List ℕ)
    → (o : BatchOrder) × (topo_order drafts resolved ≡ some o)
      × All (λ (s : ℕ × StuckReason). s.1 ≢ unreachable) o.stuck
topo_order_reasons drafts resolved =
    let (st, e) = final_state_total drafts resolved in
    (
      result_of st,
      topo_order-final drafts resolved st e,
      reasons st st.pending (left_over drafts resolved st e),
    )
