-- ===== src/Intake/Approval/Settling.antt =====
-- Marks made one after the other, and looking drafts up among them
-- (internal/intake/resolve.go: ResolveBatch).
use mathlib.Core.List.Memᴰ
use role_model.Prelude.{
  ℕ, ◌≡◌, ◌≢◌, refl, sym, ap, ap₂, ◌∙◌, true, false, List, [], ◌∷◌, ◌++◌, map, Option, none, some,
  ◌==◌, if◌then◌else◌, arith, Bool-cases, inl, inr, Memᴰ, any_of_mem, some_eq,
}
use role_model.GoText.{codes, str_eq}
use role_model.GoText.Equality.{eq_of_str_eq}
use role_model.Intake.Ordering.{EntityDraft, holds}
use role_model.Intake.Ordering.Account.{DistinctIds}
use role_model.Intake.Store.{resolved_to, mark_in}
use role_model.Intake.Resolvers.{Resolved, row_of}
use role_model.Intake.Approval.{approved_row}
use role_model.Intake.Approval.Loop.{Done, entries, mark_entries}

-- A draft with the row that was found for it.
abbrev pub settled : Option ℕ → EntityDraft → EntityDraft
settled none d = d
settled (some row) d = resolved_to row d

mark_settled :
    (o : Option ℕ) (k row : ℕ) (d : EntityDraft)
    → (if (settled o d).id == k then resolved_to row (settled o d) else settled o d)
      ≡ settled (if k == d.id then some row else o) d
mark_settled none k row d = elim (Bool-cases (d.id == k)) [
  | inl e ↦ let e' : (k == d.id) ≡ true = ground arith in rw (e, e') refl
  | inr e ↦ let e' : (k == d.id) ≡ false = ground arith in rw (e, e') refl
]
mark_settled (some r) k row d = elim (Bool-cases (d.id == k)) [
  | inl e ↦ let e' : (k == d.id) ≡ true = ground arith in rw (e, e') refl
  | inr e ↦ let e' : (k == d.id) ≡ false = ground arith in rw (e, e') refl
]

mark_in-settled :
    (es : Resolved) (k row : ℕ) (ds : List EntityDraft)
    → mark_in k row (map (λ d. settled (row_of es d.id) d) ds)
      ≡ map (λ d. settled (row_of ((k, row) ∷ es) d.id) d) ds
unfolding row_of
mark_in-settled es k row [] = refl
mark_in-settled es k row (d ∷ ds) =
    ap₂ (λ x l. x ∷ l) (mark_settled (row_of es d.id) k row d) (mark_in-settled es k row ds)

pub mark_entries-eq-map :
    (es : Resolved) (ds : List EntityDraft)
    → mark_entries es ds ≡ map (λ d. settled (row_of es d.id) d) ds
unfolding mark_entries row_of
mark_entries-eq-map [] ds = map_none ds
  where
    map_none : (ds : List EntityDraft) → ds ≡ map (λ d. settled (row_of [] d.id) d) ds
    map_none [] = refl
    map_none (d ∷ ds) = ap (λ l. d ∷ l) (map_none ds)
mark_entries-eq-map ((k, row) ∷ es) ds =
    ap (mark_in k row) (mark_entries-eq-map es ds) ∙ mark_in-settled es k row ds

pub row_of-append :
    (xs ys : Resolved) (id : ℕ)
    → row_of (xs ++ ys) id ≡ elim (row_of xs id) [ some row ↦ some row | none ↦ row_of ys id ]
unfolding row_of
row_of-append [] ys id = refl
row_of-append ((k, row) ∷ xs) ys id = elim (Bool-cases (k == id)) [
  | inl e ↦ rw e refl
  | inr e ↦ rw e (row_of-append xs ys id)
]

-- Ids name drafts.
pub DistinctIds-eq :
    (ds : List EntityDraft) (d e : EntityDraft)
    → DistinctIds ds
    → Memᴰ d ds
    → Memᴰ e ds
    → d.id ≡ e.id
    → d ≡ e
DistinctIds-eq [] d e h i j q = elim i [ ]
DistinctIds-eq (x ∷ ds) d e h i j q = elim (Memᴰ.cases_cons i) [
  | inl di ↦ elim (Memᴰ.cases_cons j) [
    | inl ej ↦ di ∙ sym ej
    | inr ej ↦
        let t : holds ds x.id ≡ true =
          any_of_mem (λ y. y.id == x.id) e ds ej (same (sym q ∙ ap (λ y. y.id) di)) in
        cc
  ]
  | inr di ↦ elim (Memᴰ.cases_cons j) [
    | inl ej ↦
        let t : holds ds x.id ≡ true =
          any_of_mem (λ y. y.id == x.id) d ds di (same (q ∙ ap (λ y. y.id) ej)) in
        cc
    | inr ej ↦ DistinctIds-eq ds d e h.1 di ej q
  ]
]
  where
    same : {a b : ℕ} → a ≡ b → (a == b) ≡ true
    same s = ground arith

-- An entry is what was done for some draft.
pub row_of-entries :
    (done : Done) (id row : ℕ)
    → row_of (entries done) id ≡ some row
    → (d : EntityDraft) × Memᴰ (d, row) done × (d.id ≡ id)
unfolding row_of
row_of-entries [] id row h = cc
row_of-entries ((d, r) ∷ done) id row h = elim (Bool-cases (d.id == id)) [
  | inl e ↦ (d, Memᴰ.head (ap (λ n. (d, n)) (sym (some_eq (rw e at h)))), ground arith)
  | inr e ↦ let (f, m, q) = row_of-entries done id row (rw e at h) in (f, Memᴰ.tail m, q)
]

pub row_of-entries_some :
    (done : Done) (d : EntityDraft) (row : ℕ)
    → Memᴰ (d, row) done
    → row_of (entries done) d.id ≢ none
unfolding row_of
row_of-entries_some [] d row m h = elim m [ ]
row_of-entries_some ((e, r) ∷ done) d row m h = elim (Bool-cases (e.id == d.id)) [
  | inl y ↦ let q = rw y at h in cc
  | inr n ↦ elim (Memᴰ.cases_cons m) [
    | inl q ↦ let s : d.id ≡ e.id = ap (λ x. x.0.id) q in ground arith
    | inr m' ↦ row_of-entries_some done d row m' (rw n at h)
  ]
]

-- Marking an approved draft with its own row changes nothing.
pub resolved_to_own :
    (d : EntityDraft) (row : ℕ) → approved_row d ≡ some row → resolved_to row d ≡ d
resolved_to_own d row h = elim (Bool-cases (str_eq d.status (codes "approved"))) [
  | inl e ↦
      let s = eq_of_str_eq d.status (codes "approved") e in
      let r : d.resolved_id ≡ some row = rw e at h in
      ap₂ (λ x y. record d { status = x; resolved_id = y }) (sym s) (sym r)
  | inr e ↦ let q : none ≡ some row = rw e at h in cc
]
