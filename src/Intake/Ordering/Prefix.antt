-- ===== src/Intake/Ordering/Prefix.antt =====
-- A draft and what stands before it in the order (internal/intake/resolve.go: topoOrder).
use role_model.Prelude.{
  ℕ, ◌≡◌, refl, sym, ap, ◌∙◌, true, List, [], ◌∷◌, ◌++◌, some, Bool-cases, inl, inr, arith,
}
use mathlib.Core.Path.{subst}
use role_model.Intake.Ordering.{EntityDraft, Progress, is_ready, visit, start, final_state}
use role_model.Intake.Ordering.Rounds.{fires, visit-fires, visit-idle, rounds_inv}

-- The ids that count as satisfied after the drafts.
abbrev pub grow : List ℕ → List EntityDraft → List ℕ
grow satisfied [] = satisfied
grow satisfied (d ∷ ds) = grow (d.id ∷ satisfied) ds

-- Each draft depends only on what is satisfied before it.
abbrev pub IsOrdered : List ℕ → List EntityDraft → Type 0
IsOrdered satisfied [] = Unit
IsOrdered satisfied (d ∷ ds) = (is_ready satisfied d ≡ true) × IsOrdered (d.id ∷ satisfied) ds

grow-snoc :
    (satisfied : List ℕ) (ds : List EntityDraft) (d : EntityDraft)
    → grow satisfied (ds ++ d ∷ []) ≡ d.id ∷ grow satisfied ds
grow-snoc satisfied [] d = refl
grow-snoc satisfied (e ∷ ds) d = grow-snoc (e.id ∷ satisfied) ds d

IsOrdered-snoc :
    (satisfied : List ℕ) (ds : List EntityDraft) (d : EntityDraft)
    → IsOrdered satisfied ds
    → is_ready (grow satisfied ds) d ≡ true
    → IsOrdered satisfied (ds ++ d ∷ [])
IsOrdered-snoc satisfied [] d o r = (r, tt)
IsOrdered-snoc satisfied (e ∷ ds) d o r = (o.0, IsOrdered-snoc (e.id ∷ satisfied) ds d o.1 r)

abbrev Behind : List ℕ → Progress → Type 0
Behind resolved st = IsOrdered resolved st.order × (st.satisfied ≡ grow resolved st.order)

visit-Behind :
    (resolved : List ℕ) (d : EntityDraft) (st : Progress)
    → Behind resolved st
    → Behind resolved (visit d st)
visit-Behind resolved d st (ordered, same) = elim (Bool-cases (fires st d)) [
  | inr idle ↦ subst (Behind resolved) (sym (visit-idle d st idle)) (ordered, same)
  | inl busy ↦
      let ready : is_ready st.satisfied d ≡ true = ground arith in
      subst (Behind resolved) (sym (visit-fires d st busy)) (
        IsOrdered-snoc resolved st.order d ordered (subst (λ s. is_ready s d ≡ true) same ready),
        ap (λ s. d.id ∷ s) same ∙ sym (grow-snoc resolved st.order d),
      )
]

pub final_state-IsOrdered :
    (drafts : List EntityDraft) (resolved : List ℕ) (st : Progress)
    → final_state drafts resolved ≡ some st
    → IsOrdered resolved st.order
unfolding final_state
final_state-IsOrdered drafts resolved st e =
    (rounds_inv (Behind resolved) drafts _ (start drafts resolved) st
      (λ d s m h. visit-Behind resolved d s h) (λ s h. h) e (tt, refl)).0
