-- ===== src/Intake/Approval/Parents.antt =====
-- The rows that earlier passes made, and the check of a draft's dependencies
-- (internal/intake/resolve.go: ResolveBatch, ApproveDraft).
use role_model.Prelude.{
  ℕ, ◌≡◌, refl, sym, ap, ◌∙◌, ◌⊎◌, List, [], ◌∷◌, Option, none, some, ◌==◌, arith, Bool-cases,
  Option-cases, inl, inr, All, Memᴰ, some_eq,
}
use role_model.Prelude.Results.{ok}
use role_model.Intake.Ordering.{EntityDraft}
use role_model.Intake.Resolvers.{Resolved, row_of}
use role_model.Intake.Approval.{
  approved_row, note_row, seed_resolved, check_dependencies, find_draft,
}

pub find_draft-mem :
    (id : ℕ) (ds : List EntityDraft) (d : EntityDraft)
    → find_draft id ds ≡ some d
    → Memᴰ d ds × (d.id ≡ id)
unfolding find_draft
find_draft-mem id [] d h = cc
find_draft-mem id (e ∷ ds) d h = elim (Bool-cases (e.id == id)) [
  | inl y ↦
      let q : e ≡ d = some_eq (rw y at h) in
      (Memᴰ.head (sym q), ap (λ x. x.id) (sym q) ∙ ground arith)
  | inr n ↦ let (m, q) = find_draft-mem id ds d (rw n at h) in (Memᴰ.tail m, q)
]

-- A draft of the list that has been approved with this row.
pub record IsApproved (ds : List EntityDraft) (id row : ℕ) : Type 0 where
  pub parent : EntityDraft
  pub listed : Memᴰ parent ds
  pub named : parent.id ≡ id
  pub approved : approved_row parent ≡ some row

IsApproved-tail :
    (d : EntityDraft) (ds : List EntityDraft) (id row : ℕ)
    → IsApproved ds id row
    → IsApproved (d ∷ ds) id row
IsApproved-tail d ds id row a = record {
  parent = a.parent;
  listed = Memᴰ.tail a.listed;
  named = a.named;
  approved = a.approved;
}

-- Of a part of a list, of the list.
pub IsApproved-within :
    (ds es : List EntityDraft) (id row : ℕ)
    → ((d : EntityDraft) → Memᴰ d ds → Memᴰ d es)
    → IsApproved ds id row
    → IsApproved es id row
IsApproved-within ds es id row sub a = record {
  parent = a.parent;
  listed = sub a.parent a.listed;
  named = a.named;
  approved = a.approved;
}

noted :
    (d : EntityDraft) (ds : List EntityDraft) (resolved : Resolved) (id row : ℕ) (o : Option ℕ)
    → approved_row d ≡ o
    → row_of (note_row d.id o resolved) id ≡ some row
    → IsApproved (d ∷ ds) id row ⊎ (row_of resolved id ≡ some row)
unfolding row_of
noted d ds resolved id row none e h = inr h
noted d ds resolved id row (some r) e h = elim (Bool-cases (d.id == id)) [
  | inl y ↦ inl (record {
    parent = d;
    listed = Memᴰ.head refl;
    named = ground arith;
    approved = e ∙ rw y at h;
  })
  | inr n ↦ inr (rw n at h)
]

-- What the map holds was there, or stems from an approved draft.
pub seed_resolved-inv :
    (ds : List EntityDraft) (resolved : Resolved) (id row : ℕ)
    → row_of (seed_resolved ds resolved) id ≡ some row
    → IsApproved ds id row ⊎ (row_of resolved id ≡ some row)
unfolding seed_resolved
seed_resolved-inv [] resolved id row h = inr h
seed_resolved-inv (d ∷ ds) resolved id row h =
    elim (seed_resolved-inv ds (note_row d.id (approved_row d) resolved) id row h) [
      | inl a ↦ inl (IsApproved-tail d ds id row a)
      | inr r ↦ noted d ds resolved id row (approved_row d) refl r
    ]

pub seed_resolved-IsApproved :
    (ds : List EntityDraft) (id row : ℕ)
    → row_of (seed_resolved ds []) id ≡ some row
    → IsApproved ds id row
unfolding row_of
seed_resolved-IsApproved ds id row h = elim (seed_resolved-inv ds [] id row h) [
  | inl a ↦ a
  | inr n ↦ cc
]

pub check_dependencies-All :
    (deps : List ℕ) (siblings : List EntityDraft) (resolved : Resolved)
    → check_dependencies deps siblings resolved ≡ ok tt
    → All (λ dep. (row : ℕ) × (row_of resolved dep ≡ some row)) deps
unfolding check_dependencies
check_dependencies-All [] siblings resolved h = tt
check_dependencies-All (dep ∷ deps) siblings resolved h =
    elim (Option-cases (row_of resolved dep)) [
      | inl n ↦ let q = rw (n, check_dependencies) at h in cc
      | inr (row, y) ↦ (
        (row, y),
        check_dependencies-All deps siblings resolved (rw (y, check_dependencies) at h),
      )
    ]
