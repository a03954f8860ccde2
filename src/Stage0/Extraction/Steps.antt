-- ===== src/Stage0/Extraction/Steps.antt =====
-- The steps of an import and what each leaves (internal/stage0/service.go: insertDrafts,
-- RunEnrichment and the reading of a batch).
use mathlib.Core.Path.{subst}
use role_model.Prelude.{
  ℕ, ◌≡◌, refl, sym, ap, ◌∙◌, Bool, true, false, ◌||◌, List, [], ◌∷◌, ◌++◌, map, any, append_assoc,
  append-nil, All, some_eq, ◌==◌, Bool-cases, inl, inr,
}
use role_model.GoText.{Str, codes, is_empty, Unicode}
use role_model.Stage0.{
  Stage0Error, ContributionDraft, ExtractedEntry, SuggestedTag, Store, World, Outside, lift,
  log_error, set_enrichment, ask, new_id, list_tags, create_contribution_draft,
  update_draft_enrichment,
}
use role_model.Stage0.Outcomes.{
  Ends, Ends-map, Ends-pure, Ends-lift, Ends-bind, Ends-then, Ends-log_error, Ends-statement,
  Ends-ask, Ends-new_id, Ends-write, Ends-update,
}
use role_model.Stage0.Tagging.{resolve_suggested_tags}
use role_model.Stage0.Extraction.{draft_of, insert_each, read_batch, run_enrichment, enrich_all}

-- All but the batches and the drafts is as it was.
abbrev pub Elsewhere : Store → Store → Type 0
Elsewhere s t = record t { batches = s.batches; drafts = s.drafts } ≡ s

-- A draft without what enrichment sets.
abbrev pub plain : ContributionDraft → ContributionDraft
plain d = record d { flags = []; suggested_tags = [] }

-- A draft of the batch that waits for a person, with its two names.
abbrev pub IsNew : ℕ → ContributionDraft → Type 0
IsNew batch_id d =
    (d.batch_id ≡ batch_id)
    × (d.status ≡ codes "pending")
    × (is_empty d.employer_name ≡ false)
    × (is_empty d.position_title ≡ false)

plain-set_enrichment :
    (id : ℕ) (flags : List Str) (tags : List SuggestedTag) (drafts : List ContributionDraft)
    → map plain (set_enrichment id flags tags drafts) ≡ map plain drafts
plain-set_enrichment id flags tags [] = refl
plain-set_enrichment id flags tags (d ∷ drafts) = elim (Bool-cases (d.id == id)) [
  | inl e ↦ rw (e, plain-set_enrichment id flags tags drafts) refl
  | inr e ↦ rw (e, plain-set_enrichment id flags tags drafts) refl
]

neither : (a b : Bool) → (a || b) ≡ false → (a ≡ false) × (b ≡ false)
neither true b h = cc
neither false b h = (refl, h)

-- Enriching leaves the batches, and the drafts but for what it sets.
abbrev pub Enriched : Store → Store → Type 0
Enriched s t = (t.batches ≡ s.batches) × (map plain t.drafts ≡ map plain s.drafts) × Elsewhere s t

Enriched-trans : (s t r : Store) → Enriched s t → Enriched t r → Enriched s r
Enriched-trans s t r (b, d, e) (b', d', e') =
    (b' ∙ b, d' ∙ d, ap (λ (q : Store). record q { batches = s.batches; drafts = s.drafts }) e' ∙ e)

module _ ⦃o : Outside⦄ where
  -- Reading the batch does not touch the store.
  pub read_batch-Ends :
      (raw_text : Str) (s : Store) (w : World)
      → w.store ≡ s
      → Ends (λ entries t. t ≡ s) (λ e t. t ≡ s) (read_batch raw_text) w
  unfolding read_batch
  read_batch-Ends raw_text s w at_s =
      Ends-bind _ _ (λ p t. t ≡ s) (lift _) _ w (Ends-lift _ _ _ w (λ p e. at_s) (λ e. at_s))
        (λ prompt w1 at1.
          Ends-bind _ _ (λ r t. t ≡ s) (ask prompt raw_text _) _ w1
            (Ends-ask _ (λ t. t ≡ s) prompt raw_text _ w1 at1 (λ e. at1))
            (λ raw w2 at2. Ends-lift _ _ _ w2 (λ x e. at2) (λ e. at2)))

  abbrev pub Inserted : ℕ → Store → List ContributionDraft → Store → Type 0
  Inserted id s drafts t = (t ≡ record s { drafts = s.drafts ++ drafts }) × All (IsNew id) drafts

  pub insert_each-Ends :
      (id : ℕ) (entries : List ExtractedEntry) (s : Store) (w : World)
      → w.store ≡ s
      → Ends (Inserted id s) (λ e t. Unit {0}) (insert_each id entries) w
  unfolding insert_each
  insert_each-Ends id [] s w at_s =
      Ends-pure _ _ [] w
        (at_s ∙ ap (λ ds. record s { drafts = ds }) (sym (append-nil s.drafts)), tt)
  insert_each-Ends id (e ∷ entries) s w at_s =
      elim (Bool-cases (is_empty e.employer_name || is_empty e.position_title)) [
        | inl unnamed ↦ rw unnamed (Ends-lift _ _ _ w (λ x h. cc) (λ e. tt))
        | inr named ↦ rw named (
            Ends-bind _ _ _ new_id _ w (Ends-new_id s w at_s _) (λ n w1 at1.
              let d = draft_of id e n in
              Ends-bind _ _ _ (create_contribution_draft d) _ w1
                (Ends-write s w1 at1 _ (λ e. tt) _ d
                  (λ t. record t { drafts = t.drafts ++ d ∷ [] }))
                (λ row w2 (own, at2).
                  Ends-bind _ _ _ (insert_each id entries) _ w2
                    (insert_each-Ends id entries (record s { drafts = s.drafts ++ d ∷ [] }) w2 at2)
                    (λ drafts w3 (at3, new). Ends-pure _ _ (row ∷ drafts) w3 (
                      at3
                          ∙ ap (λ ds. record s { drafts = ds })
                              (append_assoc s.drafts (d ∷ []) drafts
                                ∙ ap (λ r. s.drafts ++ r ∷ drafts) (sym own)),
                      (
                        subst (IsNew id) (sym own)
                            (refl, refl, (neither _ _ named).0, (neither _ _ named).1),
                        new,
                      ),
                    )))))
      ]

  module _ ⦃u : Unicode⦄ where
    run_enrichment-Ends :
        (d : ContributionDraft) (s : Store) (w : World)
        → w.store ≡ s
        → Ends (λ a t. Enriched s t) (λ e t. Enriched s t) (run_enrichment d) w
    unfolding run_enrichment
    run_enrichment-Ends d s w at_s =
        Ends-bind _ _ (λ p t. t ≡ s) (lift _) _ w
          (Ends-lift _ _ _ w (λ p e. at_s) (λ e. same w at_s))
          (λ prompt w1 at1.
            Ends-bind _ _ (λ p t. t ≡ s) list_tags _ w1
              (Ends-statement _ _ _ _ w1 (same w1 at1) (λ n. same w1 at1)
                (λ tags t e. sym (ap (λ p. p.1) (some_eq e)) ∙ at1))
              (λ tags w2 at2.
                Ends-bind _ _ (λ p t. t ≡ s) (lift _) _ w2
                  (Ends-lift _ _ _ w2 (λ p e. at2) (λ e. same w2 at2))
                  (λ input w3 at3.
                    Ends-bind _ _ (λ p t. t ≡ s) (ask prompt input _) _ w3
                      (Ends-ask _ (λ t. t ≡ s) prompt input _ w3 at3 (λ e. same w3 at3))
                      (λ raw w4 at4.
                        Ends-bind _ _ (λ p t. t ≡ s) (lift _) _ w4
                          (Ends-lift _ _ _ w4 (λ p e. at4) (λ e. same w4 at4))
                          (λ result w5 at5.
                            let resolved = resolve_suggested_tags tags result.suggested_tags in
                            Ends-map _ _ _ _ (update_draft_enrichment d.id result.flags resolved) w5
                              (Ends-update s w5 at5 (λ e t. Enriched s t) (λ e. same w5 at5) _
                                (λ t. any (λ c. c.id == d.id) t.drafts)
                                (λ t. record t {
                                  drafts = set_enrichment d.id result.flags resolved t.drafts;
                                }))
                              (λ a t e. subst (Enriched s) (sym e) (
                                refl,
                                plain-set_enrichment d.id result.flags resolved s.drafts,
                                refl,
                              ))
                              (λ e t h. h))))))
      where
        same : (w : World) → w.store ≡ s → Enriched s w.store
        same w e = subst (Enriched s) (sym e) (refl, refl, refl)

    pub enrich_all-Ends :
        (E : Stage0Error → Store → Type 0) (drafts : List ContributionDraft) (s : Store) (w : World)
        → Enriched s w.store
        → Ends (λ a t. Enriched s t) E (enrich_all drafts) w
    unfolding enrich_all
    enrich_all-Ends E [] s w h = Ends-pure _ _ tt w h
    enrich_all-Ends E (d ∷ drafts) s w h =
        Ends-then _ _ (λ a t. Enriched s t) (log_error (run_enrichment d)) (enrich_all drafts) w
          (Ends-log_error E (λ a t. Enriched s t) (λ t. Enriched s t) (run_enrichment d) w
            (Ends-map _ _ _ _ (run_enrichment d) w (run_enrichment-Ends d w.store w refl)
              (λ a t. Enriched-trans s w.store t h) (λ e t. Enriched-trans s w.store t h)))
          (λ a w1 h1. enrich_all-Ends E drafts s w1 h1)
