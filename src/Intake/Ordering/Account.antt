-- ===== src/Intake/Ordering/Account.antt =====
-- Where the pending drafts go (internal/intake/resolve.go: topoOrder).
use role_model.Prelude.{
  ℕ, ◌≡◌, refl, sym, ◌∙◌, Bool, true, false, not, ◌&&◌, ◌||◌, List, [], ◌∷◌, ◌++◌, Memᴰ, any, All,
  some, ◌==◌, Bool-cases, inl, inr, arith,
}
use mathlib.Core.Path.{subst}
use role_model.Intake.Ordering.{
  EntityDraft, has_id, is_pending, put, holds, remove, collect_pending, Progress, settle, visit,
  start, final_state,
}
use role_model.Intake.Ordering.Rounds.{fires, visit-fires, visit-idle, rounds_inv}

-- No two drafts of the list share an id.
abbrev pub DistinctIds : List EntityDraft → Type 0
DistinctIds [] = Unit
DistinctIds (d ∷ ds) = (holds ds d.id ≡ false) × DistinctIds ds

holds-snoc :
    (ds : List EntityDraft) (d : EntityDraft) (id : ℕ)
    → holds (ds ++ d ∷ []) id ≡ holds ds id || d.id == id
holds-snoc [] d id = ground arith
holds-snoc (e ∷ ds) d id = ground (arith, holds-snoc ds d id)

holds-remove :
    (k : ℕ) (ds : List EntityDraft) (id : ℕ) → holds (remove k ds) id ≡ holds ds id && not (k == id)
holds-remove k [] id = refl
holds-remove k (e ∷ ds) id = ground (arith, holds-remove k ds id)

DistinctIds-snoc :
    (ds : List EntityDraft) (d : EntityDraft)
    → DistinctIds ds
    → holds ds d.id ≡ false
    → DistinctIds (ds ++ d ∷ [])
DistinctIds-snoc [] d h n = (refl, tt)
DistinctIds-snoc (e ∷ ds) d h n =
    (ground (arith, holds-snoc ds d e.id, h.0), DistinctIds-snoc ds d h.1 (ground arith))

module _ (P : EntityDraft → Type 0) where
  All-snoc : (ds : List EntityDraft) (d : EntityDraft) → All P ds → P d → All P (ds ++ d ∷ [])
  All-snoc [] d a p = (p, tt)
  All-snoc (e ∷ ds) d a p = (a.0, All-snoc ds d a.1 p)

  All-remove : (k : ℕ) (ds : List EntityDraft) → All P ds → All P (remove k ds)
  All-remove k [] a = tt
  All-remove k (d ∷ ds) a = elim (Bool-cases (d.id == k)) [
    | inl e ↦ rw e (All-remove k ds a.1)
    | inr e ↦ rw e (a.0, All-remove k ds a.1)
  ]

  All-put : (d : EntityDraft) (ds : List EntityDraft) → P d → All P ds → All P (put d ds)
  unfolding put
  All-put d [] p a = (p, tt)
  All-put d (e ∷ ds) p a = elim (Bool-cases (e.id == d.id)) [
    | inl same ↦ rw same (p, a.1)
    | inr other ↦ rw other (a.0, All-put d ds p a.1)
  ]

-- Some pending draft of the batch has the id.
abbrev pub is_pending_id : List EntityDraft → ℕ → Bool
is_pending_id drafts id = any (λ d. is_pending d && d.id == id) drafts

holds-put :
    (d : EntityDraft) (ds : List EntityDraft) (id : ℕ)
    → holds (put d ds) id ≡ d.id == id || holds ds id
unfolding put
holds-put d [] id = ground arith
holds-put d (e ∷ ds) id = ground (arith, holds-put d ds id)

holds-collect_pending :
    (drafts pending : List EntityDraft) (id : ℕ)
    → holds (collect_pending drafts pending) id ≡ holds pending id || is_pending_id drafts id
unfolding collect_pending
holds-collect_pending [] pending id = ground arith
holds-collect_pending (d ∷ drafts) pending id = elim (Bool-cases (is_pending d)) [
  | inl e ↦
      rw e (
        holds-collect_pending drafts (put d pending) id
        ∙ rw (holds-put d pending id) (ground arith))
  | inr e ↦ rw e (holds-collect_pending drafts pending id)
]

-- What holds between two visits.
pub record IsAccount (drafts : List EntityDraft) (resolved : List ℕ) (st : Progress) : Type 0 where
  pub apart : (id : ℕ) → (holds st.order id && holds st.pending id) ≡ false
  pub covered : (id : ℕ) → (holds st.order id || holds st.pending id) ≡ is_pending_id drafts id
  pub distinct : DistinctIds st.order
  pub met : (id : ℕ) → has_id st.satisfied id ≡ has_id resolved id || holds st.order id
  pub from_batch : All (λ d. Memᴰ d drafts) st.order
  pub waiting : All (λ d. Memᴰ d drafts × (is_pending d ≡ true)) st.pending

settle-IsAccount :
    (drafts : List EntityDraft) (resolved : List ℕ) (d : EntityDraft) (st : Progress)
    → Memᴰ d drafts
    → holds st.pending d.id ≡ true
    → IsAccount drafts resolved st
    → IsAccount drafts resolved (settle d st)
settle-IsAccount drafts resolved d st m h a = record {
  apart =
      λ id. ground (arith, holds-snoc st.order d id, holds-remove d.id st.pending id, a.apart id);
  covered =
      λ id. ground (arith, holds-snoc st.order d id, holds-remove d.id st.pending id, a.covered id);
  distinct = DistinctIds-snoc st.order d a.distinct (ground (arith, a.apart d.id));
  met = λ id. ground (arith, holds-snoc st.order d id, a.met id);
  from_batch = All-snoc _ st.order d a.from_batch m;
  waiting = All-remove _ d.id st.pending a.waiting;
}

visit-IsAccount :
    (drafts : List EntityDraft) (resolved : List ℕ) (d : EntityDraft) (st : Progress)
    → Memᴰ d drafts
    → IsAccount drafts resolved st
    → IsAccount drafts resolved (visit d st)
visit-IsAccount drafts resolved d st m a = elim (Bool-cases (fires st d)) [
  | inr idle ↦ subst (IsAccount drafts resolved) (sym (visit-idle d st idle)) a
  | inl busy ↦
      subst (IsAccount drafts resolved) (sym (visit-fires d st busy))
        (settle-IsAccount drafts resolved d st m (ground arith) a)
]

collect_pending-All :
    (P : EntityDraft → Type 0) (drafts pending : List EntityDraft)
    → ((d : EntityDraft) → Memᴰ d drafts → is_pending d ≡ true → P d)
    → All P pending
    → All P (collect_pending drafts pending)
unfolding collect_pending
collect_pending-All P [] pending h a = a
collect_pending-All P (d ∷ drafts) pending h a =
    let later = λ (e : EntityDraft) (m : Memᴰ e drafts). h e (Memᴰ.tail m) in
    elim (Bool-cases (is_pending d)) [
      | inl e ↦ rw e (
          collect_pending-All P drafts (put d pending) later
            (All-put P d pending (h d (Memᴰ.head refl) e) a))
      | inr e ↦ rw e (collect_pending-All P drafts pending later a)
    ]

start-IsAccount :
    (drafts : List EntityDraft) (resolved : List ℕ)
    → IsAccount drafts resolved (start drafts resolved)
start-IsAccount drafts resolved = record {
  apart = λ id. refl;
  covered = λ id. holds-collect_pending drafts [] id;
  distinct = tt;
  met = λ id. ground arith;
  from_batch = tt;
  waiting =
      collect_pending-All (λ d. Memᴰ d drafts × (is_pending d ≡ true)) drafts [] (λ d m p. (m, p))
        tt;
}

pub final_state-IsAccount :
    (drafts : List EntityDraft) (resolved : List ℕ) (st : Progress)
    → final_state drafts resolved ≡ some st
    → IsAccount drafts resolved st
unfolding final_state
final_state-IsAccount drafts resolved st e =
    rounds_inv (IsAccount drafts resolved) drafts _ (start drafts resolved) st
      (λ d s m h. visit-IsAccount drafts resolved d s m h)
      (λ s a. record {
        apart = a.apart;
        covered = a.covered;
        distinct = a.distinct;
        met = a.met;
        from_batch = a.from_batch;
        waiting = a.waiting;
      })
      e (start-IsAccount drafts resolved)
