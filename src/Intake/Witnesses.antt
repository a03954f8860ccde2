-- ===== src/Intake/Witnesses.antt =====
-- The theorems about intake at the sample batches.
use role_model.Intake.Dates.{Date, parse_date}
use role_model.Intake.Dates.RoundTrip.{print_date, IsDate, parse_date-print}
use role_model.Intake.TagVocabulary.{resolve_or_create_tag}
use mathlib.Core.List.{Permᴰ}
use role_model.Prelude.{◌↔◌}
use role_model.Intake.Collisions.{equal_bags}
use role_model.Intake.Collisions.Bags.{equal_bags_iff}
use mathlib.Core.List.Memᴰ
use role_model.Prelude.Results.{ok}
use role_model.GoText.{codes}
use role_model.GoText.Ascii.{ascii}
use role_model.Intake.Payloads.{dependency_not_resolved, no_resolver, validate_payload, kind_named}
use role_model.Intake.Store.Growth.{has_row}
use role_model.Intake.Store.{World, Action, run}
use role_model.Intake.Resolvers.{resolve_one}
use role_model.Intake.Resolvers.Validity.{resolve_one-valid}
use role_model.Intake.Resolvers.Sufficiency.{validate_payload_suffices}
use role_model.Intake.Approval.{approve_draft, resolve_batch}
use role_model.Intake.Approval.Rollback.{approve_draft_rollback, resolve_batch_rollback}
use role_model.Intake.Approval.Single.{Approved, approve_draft_ok}
use role_model.Intake.Approval.Report.{Settled, resolve_batch_ok}
use role_model.Intake.Approval.Backing.{IsBacked, approve_draft-IsBacked, resolve_batch-IsBacked}
use role_model.Intake.Samples.{
  documents, steady, steady-IsListing, pending_draft, two_jobs, bad_batch, world_of,
  unfold_approval,
}
use role_model.Prelude.{ap, inl, inr, sym, ◌∙◌, ◌≢◌}
use role_model.Intake.Ordering.{missing}
use role_model.Prelude.{
  ℕ, ◌≡◌, refl, true, false, ◌&&◌, ◌||◌, List, [], ◌∷◌, Memᴰ, ◌<◌, All, All-mem, some, arith,
}
use role_model.Intake.Ordering.{EntityDraft, has_id, holds, BatchOrder, topo_order}
use role_model.Intake.Ordering.Prefix.{IsOrdered}
use role_model.Intake.Ordering.Account.{DistinctIds, is_pending_id}
use role_model.Intake.Ordering.Result.{is_stuck, topo_order-IsOrdered, topo_order_accounts}
use role_model.Intake.Ordering.Acyclic.{topo_order_complete}
use role_model.Intake.Samples.{draft, backwards, unfold_order}

topo_order-IsOrdered_example :
    (o : BatchOrder) × (topo_order backwards [] ≡ some o)
    × IsOrdered [] o.order
    × DistinctIds o.order
    × All (λ d. Memᴰ d backwards) o.order
topo_order-IsOrdered_example = topo_order-IsOrdered backwards []

topo_order_accounts_example :
    (o : BatchOrder) × (topo_order backwards [] ≡ some o)
    × ((holds o.order 2 || is_stuck o.stuck 2) ≡ is_pending_id backwards 2)
    × ((holds o.order 2 && is_stuck o.stuck 2) ≡ false)
topo_order_accounts_example = topo_order_accounts backwards [] 2

abbrev circular : List EntityDraft
circular = draft 1 (2 ∷ []) ∷ draft 2 (1 ∷ []) ∷ []

abbrev Reaches : EntityDraft → ℕ → Type 0
Reaches d dep = (dep < d.id) × ((has_id [] dep || is_pending_id backwards dep) ≡ true)

abbrev ReachesAll : EntityDraft → Type 0
ReachesAll d = All (Reaches d) d.depends_on

backwards-ReachesAll : All ReachesAll backwards
unfolding unfold_order
backwards-ReachesAll = ((((omega arith), refl), tt), ((((omega arith), refl), tt), (tt, tt)))

topo_order_complete_example : (o : BatchOrder) × (topo_order backwards [] ≡ some o) × (o.stuck ≡ [])
topo_order_complete_example =
    topo_order_complete backwards [] (λ id. id)
      (λ d dep m p i.
        All-mem (Reaches d) d.depends_on dep (All-mem ReachesAll backwards d backwards-ReachesAll m)
          i)

-- The world after an action.
abbrev after : {A : Type 0} → Action A → World → World
after m w = (run m w).1

approve_draft_rollback_example :
    (after (approve_draft 2) (world_of two_jobs)).store ≡ (world_of two_jobs).store
unfolding unfold_approval
approve_draft_rollback_example =
    approve_draft_rollback 2 (world_of two_jobs) (after (approve_draft 2) (world_of two_jobs))
      (dependency_not_resolved 1 (some (codes "employer", codes "pending"))) refl

resolve_batch_rollback_example :
    (after (resolve_batch 2) (world_of bad_batch)).store ≡ (world_of bad_batch).store
unfolding unfold_approval
resolve_batch_rollback_example =
    resolve_batch_rollback 2 (world_of bad_batch) (no_resolver (codes "award")) refl (λ h. cc)

approve_draft_ok_example :
    Approved 1 (world_of two_jobs).store 100 (after (approve_draft 1) (world_of two_jobs)).store
unfolding unfold_approval
approve_draft_ok_example =
    approve_draft_ok steady-IsListing 1 100 (world_of two_jobs)
      (after (approve_draft 1) (world_of two_jobs)) refl

resolve_batch_ok_example :
    Settled 1
      (world_of two_jobs).store
      (record {
        resolved = (2, 101) ∷ (1, 100) ∷ [];
        unresolved = (3, missing (9 ∷ [])) ∷ [];
        complete = false;
      })
      (after (resolve_batch 1) (world_of two_jobs)).store
unfolding unfold_approval
resolve_batch_ok_example =
    resolve_batch_ok steady-IsListing 1
      (record {
        resolved = (2, 101) ∷ (1, 100) ∷ [];
        unresolved = (3, missing (9 ∷ [])) ∷ [];
        complete = false;
      })
      (world_of two_jobs) (after (resolve_batch 1) (world_of two_jobs)) (refl, (refl, (refl, tt)))
      refl

pending-approved : codes "pending" ≢ codes "approved"
pending-approved h = cc

-- Nothing has been approved yet.
two_jobs-IsBacked : IsBacked (world_of two_jobs).store
two_jobs-IsBacked d m h = elim (Memᴰ.cases_cons m) [
  | inl e ↦ let q = ap (λ x. x.status) e in absurd (pending-approved (sym q ∙ h))
  | inr m' ↦ elim (Memᴰ.cases_cons m') [
    | inl e ↦ let q = ap (λ x. x.status) e in absurd (pending-approved (sym q ∙ h))
    | inr m'' ↦ elim (Memᴰ.cases_cons m'') [
      | inl e ↦ let q = ap (λ x. x.status) e in absurd (pending-approved (sym q ∙ h))
      | inr n ↦ elim n [ ]
    ]
  ]
]

approve_draft-IsBacked_example : IsBacked (run (approve_draft 1) (world_of two_jobs)).1.store
approve_draft-IsBacked_example =
    approve_draft-IsBacked steady-IsListing 1 (world_of two_jobs) (refl, (refl, (refl, tt)))
      two_jobs-IsBacked

resolve_batch-IsBacked_example : IsBacked (run (resolve_batch 1) (world_of two_jobs)).1.store
resolve_batch-IsBacked_example =
    resolve_batch-IsBacked steady-IsListing 1 (world_of two_jobs) (refl, (refl, (refl, tt)))
      two_jobs-IsBacked

resolve_one-valid_example : validate_payload (codes "position") (codes "Engineer") ≡ ok tt
unfolding unfold_approval
resolve_one-valid_example =
    resolve_one-valid (pending_draft 2 "position" "Engineer" []) (codes "Engineer") ((1, 7) ∷ [])
      100 (world_of [])
      (after (resolve_one (pending_draft 2 "position" "Engineer" []) ((1, 7) ∷ [])) (world_of []))
      refl refl refl

validate_payload_suffices_example :
    (row : ℕ) × (w : World) × (run
        (resolve_one (pending_draft 1 "preference" "remote" []) [])
        (world_of [])
      ≡ (ok row, w))
    × (has_row (kind_named (codes "preference")) row w.store ≡ true)
unfolding unfold_approval
validate_payload_suffices_example =
    validate_payload_suffices (λ n. refl) steady-IsListing
      (pending_draft 1 "preference" "remote" []) (codes "remote") [] (world_of []) refl refl refl

equal_bags_iff_example :
    (equal_bags
        (codes "a" ∷ codes "over" ∷ codes "b" ∷ [])
        (codes "b" ∷ codes "over" ∷ codes "a" ∷ [])
      ≡ true)
    ↔ Permᴰ (codes "a" ∷ codes "over" ∷ codes "b" ∷ []) (codes "b" ∷ codes "over" ∷ codes "a" ∷ [])
equal_bags_iff_example = equal_bags_iff _ _

-- A store with the tag Go.
abbrev with_go : World
with_go = after (resolve_or_create_tag (codes "Backend") (codes "Go")) (world_of [])

abbrev leap_day : Date
leap_day = record { year = 2024; month = 2; day = 29 }

leap_day-IsDate : IsDate leap_day
unfolding unfold_approval
leap_day-IsDate = record {
  year = omega arith;
  month = (omega arith, omega arith);
  day = (omega arith, omega arith);
}

parse_date-print_example : parse_date (print_date leap_day) ≡ ok leap_day
parse_date-print_example = parse_date-print (λ c h. ground arith) refl leap_day leap_day-IsDate
