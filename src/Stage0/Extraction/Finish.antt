-- ===== src/Stage0/Extraction/Finish.antt =====
-- Where the import of a batch ends (internal/stage0/service.go: RunExtraction).
use mathlib.Core.Path.{subst}
use mathlib.Core.List.{map-append}
use role_model.Prelude.{
  ℕ, ◌≡◌, refl, sym, ap, ◌∙◌, false, List, [], ◌∷◌, ◌++◌, map, All, Option, none, some, ◌==◌,
  Bool-cases, inl, inr,
}
use role_model.Prelude.Results.{err}
use role_model.GoText.{Str, codes, Unicode}
use role_model.GoText.Equality.{str_eq_refl}
use role_model.Stage0.{
  Stage0Error, ImportBatch, ContributionDraft, ExtractedEntry, Store, World, Outside, run, lift,
  on_error, first_with, with_status, set_batch, found, updated, get_batch, set_status, fail,
}
use role_model.Stage0.Outcomes.{
  Ended, Ends, Ends-map, Ends-bind, Ends-then, Ends-on_error, Ends-log_error, Ends-steady,
  Ends-in_transaction, first_with-any,
}
use role_model.Stage0.Extraction.{
  insert_each, insert_drafts, read_batch, enrich_all, extract_batch, run_extraction,
}
use role_model.Stage0.Extraction.Steps.{
  Elsewhere, plain, IsNew, Enriched, read_batch-Ends, insert_each-Ends, enrich_all-Ends,
}

-- The batch, its status and its error.
abbrev pub Stands : ℕ → Str → Option Stage0Error → Store → Type 0
Stands id status error s =
    (b : ImportBatch) × (first_with (λ b. b.id == id) s.batches ≡ some b)
    × (b.status ≡ status)
    × (b.error_text ≡ error)

-- The batch is up for review, and new drafts stand after the others.
pub record Reviewed (id : ℕ) (s t : Store) : Type 0 where
  pub batch : Stands id (codes "review") none t
  pub added : List ContributionDraft
  pub all_new : All (IsNew id) added
  pub drafts : map plain t.drafts ≡ map plain s.drafts ++ map plain added
  pub elsewhere : Elsewhere s t

-- The batch has failed with the error, and there is no draft that was not there before.
pub record Failed (id : ℕ) (s : Store) (e : Stage0Error) (t : Store) : Type 0 where
  pub batch : Stands id (codes "failed") (some e) t
  pub drafts : t.drafts ≡ s.drafts
  pub elsewhere : Elsewhere s t

first_with-set_batch :
    (id : ℕ) (status : Str) (error : Option Stage0Error) (batches : List ImportBatch)
    (b : ImportBatch)
    → first_with (λ b. b.id == id) batches ≡ some b
    → first_with (λ b. b.id == id) (set_batch id status error batches)
      ≡ some (with_status status error b)
unfolding first_with
first_with-set_batch id status error [] b h = cc
first_with-set_batch id status error (c ∷ batches) b h = elim (Bool-cases (c.id == id)) [
  | inl e ↦ rw (e, e) (ap (λ o. with_each o) (rw e at h))
  | inr e ↦ rw (e, e) (first_with-set_batch id status error batches b (rw e at h))
]
  where
    with_each : Option ImportBatch → Option ImportBatch
    with_each none = none
    with_each (some b) = some (with_status status error b)

module _ ⦃o : Outside⦄ where
  module _ ⦃u : Unicode⦄ where
    module _ (steady : (n : ℕ) → o.fails n ≡ false) (id : ℕ) where
      -- A status can be set while the batch is there.
      set_status-Ends :
          (E : Stage0Error → Store → Type 0) (status : Str) (error : Option Stage0Error)
          (b : ImportBatch) (w : World)
          → first_with (λ b. b.id == id) w.store.batches ≡ some b
          → Ends
              (λ a t. t ≡ record w.store { batches = set_batch id status error w.store.batches })
              E
              (set_status id status error)
              w
      unfolding set_status
      set_status-Ends E status error b w there =
          Ends-steady E _ _ _ w tt _ (steady w.calls)
            (ap
              (λ c.
                updated c (record w.store { batches = set_batch id status error w.store.batches }))
              (first_with-any (λ b. b.id == id) w.store.batches b there))
            refl

      fail-Ends :
          {A : Type 0} (P : A → Store → Type 0) (cause : Stage0Error) (b : ImportBatch) (s : Store)
          (w : World)
          → first_with (λ b. b.id == id) w.store.batches ≡ some b
          → w.store.drafts ≡ s.drafts
          → Elsewhere s w.store
          → Ends P (Failed id s) (fail id cause) w
      unfolding fail Ends lift
      fail-Ends P cause b s w there drafts elsewhere =
          Ends-then (Failed id s) P failed _ (lift (err cause)) w
            (Ends-log_error _ failed (failed tt) (set_status id (codes "failed") (some cause)) w
              (set_status-Ends _ (codes "failed") (some cause) b w there))
            (λ a w1 e. subst (Failed id s cause) (sym e) (record {
              batch = (
                with_status (codes "failed") (some cause) b,
                first_with-set_batch id (codes "failed") (some cause) w.store.batches b there,
                refl,
                refl,
              );
              drafts = drafts;
              elsewhere = elsewhere;
            }))
        where
          failed : Unit {0} → Store → Type 0
          failed a t = t ≡ record w.store {
            batches = set_batch id (codes "failed") (some cause) w.store.batches;
          }

      module _ (s : Store) where
        -- The batch as it is before any draft is kept, and with the drafts that were added.
        abbrev At : ImportBatch → Store → Type 0
        At b t =
            (first_with (λ b. b.id == id) t.batches ≡ some b)
            × (t.drafts ≡ s.drafts)
            × Elsewhere s t

        abbrev Going : ImportBatch → List ContributionDraft → Store → Type 0
        Going b added t =
            (first_with (λ b. b.id == id) t.batches ≡ some b)
            × (map plain t.drafts ≡ map plain s.drafts ++ map plain added)
            × All (IsNew id) added
            × Elsewhere s t

        -- A step of the status.
        step-At :
            (E : Stage0Error → Store → Type 0) (status : Str) (b : ImportBatch) (w : World)
            → At b w.store
            → Ends (λ a t. At (with_status status none b) t) E (set_status id status none) w
        step-At E status b w (there, drafts, elsewhere) =
            Ends-map E _ _ E (set_status id status none) w (set_status-Ends E status none b w there)
              (λ a t e.
                subst (At (with_status status none b)) (sym e)
                  (first_with-set_batch id status none w.store.batches b there, drafts, elsewhere))
              (λ e t h. h)

        step-Going :
            (E : Stage0Error → Store → Type 0) (status : Str) (b : ImportBatch)
            (added : List ContributionDraft) (w : World)
            → Going b added w.store
            → Ends
                (λ a t. Going (with_status status none b) added t)
                E
                (set_status id status none)
                w
        step-Going E status b added w (there, drafts, new, elsewhere) =
            Ends-map E _ _ E (set_status id status none) w (set_status-Ends E status none b w there)
              (λ a t e. subst (Going (with_status status none b) added) (sym e) (
                first_with-set_batch id status none w.store.batches b there,
                drafts,
                new,
                elsewhere,
              ))
              (λ e t h. h)

        insert_drafts-Ends :
            (entries : List ExtractedEntry) (b : ImportBatch) (w : World)
            → At b w.store
            → Ends (λ drafts t. Going b drafts t) (λ e t. At b t) (insert_drafts id entries) w
        unfolding insert_drafts
        insert_drafts-Ends entries b w (there, drafts, elsewhere) =
            Ends-in_transaction (λ e t. At b t) (Going b) (insert_each id entries) w
              (λ w1 at1.
                Ends-map _ _ _ _ (insert_each id entries) w1
                  (insert_each-Ends id entries w.store w1 at1)
                  (λ added t (e, new). subst (Going b added) (sym e) (
                    there,
                    ap (λ ds. map plain (ds ++ added)) drafts ∙ map-append plain s.drafts added,
                    new,
                    elsewhere,
                  ))
                  (λ e t h. tt))
              (λ e. (there, drafts, elsewhere))

        Enriched-Going :
            (b : ImportBatch) (added : List ContributionDraft) (r t : Store)
            → Going b added r
            → Enriched r t
            → Going b added t
        Enriched-Going b added r t (there, drafts, new, elsewhere) (same, plains, e) = (
          ap (λ bs. first_with (λ b. b.id == id) bs) same ∙ there,
          plains ∙ drafts,
          new,
          ap (λ (q : Store). record q { batches = s.batches; drafts = s.drafts }) e ∙ elsewhere,
        )

        extract_batch-Ends :
            (raw_text : Str) (b : ImportBatch) (w : World)
            → At b w.store
            → Ends (λ a t. Reviewed id s t) (Failed id s) (extract_batch id raw_text) w
        unfolding extract_batch
        extract_batch-Ends raw_text b w start =
            let b1 = with_status (codes "extracting") none b in
            let b2 = with_status (codes "enriching") none b1 in
            Ends-then _ _ _ (set_status id (codes "extracting") none) _ w (step-At _ _ b w start)
              (λ a w1 at1.
                Ends-bind _ _ (λ entries t. At b1 t) (on_error (read_batch raw_text) (fail id)) _ w1
                  (Ends-on_error _ _ (λ e t. At b1 t) (read_batch raw_text) (fail id) w1
                    (Ends-map _ _ _ _ (read_batch raw_text) w1
                      (read_batch-Ends raw_text w1.store w1 refl)
                      (λ x t e. subst (At b1) (sym e) at1) (λ x t e. subst (At b1) (sym e) at1))
                    (λ e w2 (there, drafts, elsewhere).
                      fail-Ends _ e b1 s w2 there drafts elsewhere))
                  (λ entries w2 at2.
                    Ends-bind _ _ (λ added t. Going b1 added t)
                      (on_error (insert_drafts id entries) (fail id)) _ w2
                      (Ends-on_error _ _ (λ e t. At b1 t) (insert_drafts id entries) (fail id) w2
                        (insert_drafts-Ends entries b1 w2 at2)
                        (λ e w3 (there, drafts, elsewhere).
                          fail-Ends _ e b1 s w3 there drafts elsewhere))
                      (λ added w3 at3.
                        Ends-then _ _ _ (set_status id (codes "enriching") none) _ w3
                          (step-Going _ _ b1 added w3 at3)
                          (λ c w4 at4.
                            Ends-then _ _ (λ u t. Going b2 added t) (enrich_all added) _ w4
                              (Ends-map _ _ _ _ (enrich_all added) w4
                                (enrich_all-Ends _ added w4.store w4 (refl, refl, refl))
                                (λ u t. Enriched-Going b2 added w4.store t at4) (λ e t h. h))
                              (λ u w5 at5.
                                Ends-map _ _ _ _ (set_status id (codes "review") none) w5
                                  (step-Going _ _ b2 added w5 at5)
                                  (λ v t at6. reviewed added b2 t at6) (λ e t h. h))))))
          where
            reviewed :
                (added : List ContributionDraft) (b : ImportBatch) (t : Store)
                → Going (with_status (codes "review") none b) added t
                → Reviewed id s t
            reviewed added b t (there, drafts, new, elsewhere) = record {
              batch = (with_status (codes "review") none b, there, refl, refl);
              added = added;
              all_new = new;
              drafts = drafts;
              elsewhere = elsewhere;
            }

      -- If no statement fails, running the extraction of a pending batch ends with the batch up for
      -- review, its new drafts pending after the others; or it returns an error, and the batch has
      -- failed with that error and no draft was added. Whatever the model answers, no other table
      -- changes, so no contribution is written.
      pub run_extraction_settles :
          (w : World) (b : ImportBatch)
          → first_with (λ b. b.id == id) w.store.batches ≡ some b
          → b.status ≡ codes "pending"
          → Ended (λ a t. Reviewed id w.store t) (Failed id w.store) (run (run_extraction id) w)
      unfolding run_extraction Ends
      run_extraction_settles w b there pending =
          Ends-bind _ _ (λ c t. (c ≡ b) × (t ≡ w.store)) (get_batch id) _ w
            (Ends-steady _ _ _ _ w b w.store (steady w.calls) (ap (found w.store) there)
              (refl, refl))
            (λ c w1 (same, at1).
              rw (same, pending, str_eq_refl (codes "pending"))
                (extract_batch-Ends w.store b.raw_text b w1
                  (subst (At w.store b) (sym at1) (there, refl, refl))))
