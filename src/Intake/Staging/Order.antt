-- ===== src/Intake/Staging/Order.antt =====
-- The drafts of a staged career can be ordered (internal/intake/extract.go: PlanDrafts, StageDrafts;
-- internal/intake/resolve.go: topoOrder).
use mathlib.Core.Path.{subst}
use role_model.Prelude.{
  ℕ, ◌<◌, ◌≡◌, refl, sym, ap, ap₂, ◌∙◌, true, ◌&&◌, ◌||◌, List, [], ◌∷◌, ◌++◌, map, Memᴰ, mem-map,
  mem-map_inv, any_of_mem, mem_of_any, keep, keep-append, some, Bool-cases, inl, inr, arith, ◌==◌,
}
use role_model.Prelude.Results.{ok}
use role_model.GoText.{Str, codes, str_eq, Unicode}
use role_model.Intake.Payloads.{Json}
use role_model.Intake.Ordering.{EntityDraft, BatchOrder, topo_order, is_pending, has_id}
use role_model.Intake.Ordering.Account.{is_pending_id}
use role_model.Intake.Ordering.Acyclic.{topo_order_complete}
use role_model.Intake.Store.{World, Outside, run}
use role_model.Intake.Resolvers.Kinds.{IsListing}
use role_model.Intake.Extraction.{CareerExtraction, PlannedDraft, JsonWriter, Planning, plan_drafts}
use role_model.Intake.Extraction.Plan.{plan_drafts-PlanOf}
use role_model.Intake.Extraction.Order.{Placed, PlanOf-Placed}
use role_model.Intake.Staging.{Model, staged, stage_drafts}
use role_model.Intake.Staging.Rows.{unflagged, stage_drafts_ok}

abbrev pub of_batch : ℕ → List EntityDraft → List EntityDraft
of_batch batch_id drafts = keep (λ d. d.batch_id == batch_id) drafts

unflagged-of_batch :
    (b : ℕ) (ds : List EntityDraft) → map unflagged (of_batch b ds) ≡ of_batch b (map unflagged ds)
unflagged-of_batch b [] = refl
unflagged-of_batch b (d ∷ ds) = elim (Bool-cases (d.batch_id == b)) [
  | inl e ↦ rw (e, unflagged-of_batch b ds) refl
  | inr e ↦ rw (e, unflagged-of_batch b ds) refl
]

of_batch-staged :
    (b : ℕ) (ps : List PlannedDraft) → of_batch b (map (staged b) ps) ≡ map (staged b) ps
of_batch-staged b [] = refl
of_batch-staged b (p ∷ ps) = ground (arith, of_batch-staged b ps)

pending_and :
    {a : Str} {n k : ℕ}
    → a ≡ codes "pending"
    → n ≡ k
    → (str_eq a (codes "pending") && n == k) ≡ true
unfolding str_eq
pending_and e f = rw (e, f) (ground arith)

-- What is pending in a list is so in every list that has its members.
pending_listed :
    (ds es : List EntityDraft) (id : ℕ)
    → ((d : EntityDraft) → Memᴰ d ds → Memᴰ d es)
    → (has_id [] id || is_pending_id ds id) ≡ true
    → (has_id [] id || is_pending_id es id) ≡ true
pending_listed ds es id sub h =
    let (d, m, p) = mem_of_any (λ x. is_pending x && x.id == id) ds h in
    any_of_mem (λ x. is_pending x && x.id == id) d es (sub d m) p

module _ ⦃o : Outside⦄ (index_of : ℕ → ℕ) (issued_once : (n : ℕ) → index_of (o.uuid_new n) ≡ n)
    (b : ℕ) (out : List PlannedDraft) (rows : List EntityDraft)
    (same : map unflagged rows ≡ map (staged b) out) where
  -- The planned draft behind a row.
  planned_row :
      (d : EntityDraft) → Memᴰ d rows → (p : PlannedDraft) × Memᴰ p out × (unflagged d ≡ staged b p)
  planned_row d m =
      mem-map_inv (staged b) (unflagged d) out
        (subst (Memᴰ (unflagged d)) same (mem-map unflagged d rows m))

  -- The row of a planned draft is pending.
  row_of_planned : (p : PlannedDraft) → Memᴰ p out → is_pending_id rows p.id ≡ true
  row_of_planned p m =
      let (d, i, e) =
        mem-map_inv unflagged (staged b p) rows
          (subst (Memᴰ (staged b p)) (sym same) (mem-map (staged b) p out m)) in
      any_of_mem _ d rows i (pending d e)
    where
      pending : (d : EntityDraft) → staged b p ≡ unflagged d → (is_pending d && d.id == p.id) ≡ true
      pending d e =
          pending_and (ap (λ (x : EntityDraft). x.status) (sym e))
            (ap (λ (x : EntityDraft). x.id) (sym e))

  within :
      ((p : PlannedDraft) → Memᴰ p out → Placed out p)
      → (d : EntityDraft) (dep : ℕ) → Memᴰ d rows
      → is_pending d ≡ true
      → Memᴰ dep d.depends_on
      → (index_of dep < index_of d.id) × ((has_id [] dep || is_pending_id rows dep) ≡ true)
  within placed d dep m pending i =
      let (p, j, e) = planned_row d m in
      let (n, own, deps) = placed p j in
      let (k, is, low, f, l, g) =
        deps dep (subst (Memᴰ dep) (ap (λ (x : EntityDraft). x.depends_on) e) i) in
      let at_dep = ap index_of is ∙ issued_once k in
      let at_row = ap index_of (ap (λ (x : EntityDraft). x.id) e ∙ own) ∙ issued_once n in
      let waiting = subst (λ q. is_pending_id rows q ≡ true) g (row_of_planned f l) in
      (omega (arith, low, at_dep, at_row), waiting)

-- The drafts of a career that was planned and then staged into a batch that had no draft can be
-- ordered with nothing stuck, in whatever order they are listed, if uuid.New never gives an id
-- twice.
pub stage_drafts-resolvable :
    ⦃o : Outside⦄ ⦃u : Unicode⦄ ⦃j : Json⦄ ⦃m : Model⦄ ⦃jw : JsonWriter⦄ (index_of : ℕ → ℕ)
    → ((n : ℕ) → index_of (o.uuid_new n) ≡ n)
    → IsListing o
    → (b : ℕ) (x : CareerExtraction) (n : ℕ) (st : Planning) (w w' : World)
      (rows : List EntityDraft)
    → plan_drafts x n ≡ ok st
    → of_batch b w.store.drafts ≡ []
    → run (stage_drafts b st.out) w ≡ (ok rows, w')
    → (order : BatchOrder) × (topo_order (o.arrange_drafts (of_batch b w'.store.drafts)) []
        ≡ some order)
      × (order.stuck ≡ [])
stage_drafts-resolvable ⦃o⦄ index_of issued_once listing b x n st w w' rows plan empty run_ok =
    let written = stage_drafts_ok b st.out w w' rows run_ok in
    let drafts = of_batch b w'.store.drafts in
    let same : map unflagged drafts ≡ map (staged b) st.out =
      unflagged-of_batch b w'.store.drafts
      ∙ ap (of_batch b) written.drafts
      ∙ keep-append (λ d. d.batch_id == b) (map unflagged w.store.drafts) (map (staged b) st.out)
      ∙ ap₂ ◌++◌ (sym (unflagged-of_batch b w.store.drafts) ∙ ap (map unflagged) empty)
          (of_batch-staged b st.out) in
    let placed = PlanOf-Placed x n st.out (plan_drafts-PlanOf x n st plan) in
    topo_order_complete (o.arrange_drafts drafts) [] index_of (λ d dep m pending i.
      let (low, reached) =
        within index_of issued_once b st.out drafts same placed d dep
          ((listing.drafts drafts d).0 m) pending i in
      (
        low,
        pending_listed drafts (o.arrange_drafts drafts) dep (λ d. (listing.drafts drafts d).1)
            reached,
      ))
