-- ===== src/Intake/Staging/Rows.antt =====
-- What staging writes (internal/intake/extract.go: StageDrafts; internal/intake/flags.go: FlagDraft).
use mathlib.Core.Path.{subst}
use mathlib.Core.List.{map-append}
use role_model.Prelude.{
  ℕ, ◌≡◌, refl, sym, ap, ap₂, ◌∙◌, Bool, true, false, List, [], ◌∷◌, ◌++◌, append_assoc, append-nil,
  map, Option, none, Bool-cases, inl, inr, ◌==◌, ◌||◌,
}
use role_model.Prelude.Results.{Result, ok, err}
use role_model.GoText.{Str, is_empty, Unicode}
use role_model.Intake.Payloads.{
  DraftError, Json, Kind, kind_employer, kind_position, kind_contribution, kind_skill,
  kind_preference, kind_education, kind_credential, kind_other, kind_named,
}
use role_model.Intake.Ordering.{EntityDraft, holds}
use role_model.Intake.Store.{
  Store, World, Outside, Action, run, follow, ◌>>=◌, pure, lift, query, flag_in,
  create_entity_draft, set_draft_flags,
}
use role_model.Intake.Store.Steps.{Yields, Yielded, Yields-bind, Yields-pure, Yields-map, Yields-ok}
use role_model.Intake.Approval.Loop.{in_transaction-Yields}
use role_model.Intake.Approval.Rollback.{lift-store, query-store, get_draft-store}
use role_model.Intake.Extraction.{PlannedDraft}
use role_model.Intake.Staging.{
  staged, DraftFlags, Model, nothing_flagged, is_new_category, crowded_batch_categories,
  flag_new_category, flags_of, store_flags, flag_draft, create_drafts, flag_drafts, stage_drafts,
}

abbrev pub unflagged : EntityDraft → EntityDraft
unflagged d = record d { flags = none }

-- The same rows, but for the flags of drafts.
pub record Alike (s t : Store) : Type 0 where
  pub drafts : map unflagged t.drafts ≡ map unflagged s.drafts
  pub others : record t { drafts = s.drafts } ≡ s

Alike-refl : (s : Store) → Alike s s
Alike-refl s = record { drafts = refl; others = refl }

Alike-eq : {s t : Store} → t ≡ s → Alike s t
Alike-eq {s} e = subst (Alike s) (sym e) (Alike-refl s)

Alike-trans : (s t v : Store) → Alike s t → Alike t v → Alike s v
Alike-trans s t v a b = record {
  drafts = b.drafts ∙ a.drafts;
  others = ap (λ (x : Store). record x { drafts = s.drafts }) b.others ∙ a.others;
}

abbrev Calm : {A : Type 0} → Action A → World → Type 0
Calm m w = Alike w.store (run m w).1.store

module _ {A B : Type 0} where
  Alike-follow :
      (f : A → Action B) (s : Store) (r : Result DraftError A × World)
      → Alike s r.1.store
      → ((a : A) (w : World) → Calm (f a) w)
      → Alike s (follow f r).1.store
  Alike-follow f s (ok a, w) h k = Alike-trans s w.store _ h (k a w)
  Alike-follow f s (err e, w) h k = h

  Calm-bind :
      (m : Action A) (f : A → Action B) (w : World)
      → Calm m w
      → ((a : A) (w' : World) → Calm (f a) w')
      → Calm (m >>= f) w
  unfolding ◌>>=◌
  Calm-bind m f w h k = Alike-follow f w.store (run m w) h k

Calm-pure : {A : Type 0} (a : A) (w : World) → Calm (pure a) w
unfolding pure
Calm-pure a w = Alike-refl w.store

Calm-lift : {A : Type 0} (r : Result DraftError A) (w : World) → Calm (lift r) w
Calm-lift r w = Alike-eq (lift-store r w)

unflagged-flag_in :
    (id : ℕ) (raw : Str) (drafts : List EntityDraft)
    → map unflagged (flag_in id raw drafts) ≡ map unflagged drafts
unflagged-flag_in id raw [] = refl
unflagged-flag_in id raw (d ∷ drafts) = elim (Bool-cases (d.id == id)) [
  | inl e ↦ rw (e, unflagged-flag_in id raw drafts) refl
  | inr e ↦ rw (e, unflagged-flag_in id raw drafts) refl
]

module _ ⦃o : Outside⦄ where
  Calm-query : {A : Type 0} (f : Store → A) (w : World) → Calm (query f) w
  Calm-query f w = Alike-eq (query-store f w)

  set_draft_flags-Calm : (id : ℕ) (raw : Str) (w : World) → Calm (set_draft_flags id raw) w
  unfolding set_draft_flags
  set_draft_flags-Calm id raw w = elim (Bool-cases (o.fails w.calls)) [
    | inl e ↦ rw e (Alike-refl w.store)
    | inr e ↦ elim (Bool-cases (holds w.store.drafts id)) [
      | inl h ↦
          rw (e, h) (record { drafts = unflagged-flag_in id raw w.store.drafts; others = refl })
      | inr h ↦ rw (e, h) (Alike-refl w.store)
    ]
  ]

  module _ ⦃u : Unicode⦄ ⦃j : Json⦄ where
    is_new_category-Calm : (name : Str) (w : World) → Calm (is_new_category name) w
    unfolding is_new_category
    is_new_category-Calm name w = elim (Bool-cases (is_empty name)) [
      | inl e ↦ rw e (Calm-pure false w)
      | inr e ↦ rw e (Calm-bind _ _ w (Calm-query _ w) (λ c w'. Calm-pure _ w'))
    ]

    crowded-Calm : (batch : List EntityDraft) (w : World) → Calm (crowded_batch_categories batch) w
    unfolding crowded_batch_categories
    crowded-Calm batch w =
        Calm-bind _ _ w (Calm-query _ w)
          λ existing w1. Calm-bind _ _ w1 (Calm-lift _ w1) λ categories w2. Calm-pure _ w2

    flag_new_category-Calm :
        (batch : List EntityDraft) (category : Str) (is_new : Bool) (w : World)
        → Calm (flag_new_category batch category is_new) w
    flag_new_category-Calm batch category false w = Calm-pure _ w
    flag_new_category-Calm batch category true w =
        Calm-bind _ _ w (crowded-Calm batch w) (λ crowded w'. Calm-pure _ w')

    flags_of-Calm :
        (kind : Kind) (payload : Option Str) (batch : List EntityDraft) (w : World)
        → Calm (flags_of kind payload batch) w
    unfolding flags_of
    flags_of-Calm kind_preference payload batch w =
        Calm-bind _ _ w (Calm-lift _ w)
          λ p w1. Calm-bind _ _ w1 (Calm-query _ w1) λ existing w2. Calm-pure _ w2
    flags_of-Calm kind_skill payload batch w = Calm-bind _ _ w (Calm-lift _ w) λ p w1.
        Calm-bind _ _ w1 (is_new_category-Calm p.category w1)
          λ is_new w2. flag_new_category-Calm batch p.category is_new w2
    flags_of-Calm kind_employer payload batch w = Calm-pure _ w
    flags_of-Calm kind_position payload batch w = Calm-pure _ w
    flags_of-Calm kind_contribution payload batch w = Calm-pure _ w
    flags_of-Calm kind_education payload batch w = Calm-pure _ w
    flags_of-Calm kind_credential payload batch w = Calm-pure _ w
    flags_of-Calm kind_other payload batch w = Calm-pure _ w

    module _ ⦃m : Model⦄ where
      store_flags-Calm : (id : ℕ) (flags : DraftFlags) (w : World) → Calm (store_flags id flags) w
      unfolding store_flags
      store_flags-Calm id flags w = elim (Bool-cases (nothing_flagged flags)) [
        | inl e ↦ rw e (Calm-pure flags w)
        | inr e ↦ rw e (
            Calm-bind _ _ w (Calm-lift _ w) λ raw w1.
              Calm-bind _ _ w1 (set_draft_flags-Calm id raw w1) λ t w2. Calm-pure flags w2)
      ]

      flag_drafts-Calm :
          (before rows : List EntityDraft) (w : World) → Calm (flag_drafts before rows) w
      unfolding flag_drafts flag_draft
      flag_drafts-Calm before [] w = Calm-pure before w
      flag_drafts-Calm before (row ∷ rows) w =
          Calm-bind _ _ w
            (Calm-bind _ _ w
              (flags_of-Calm (kind_named row.kind) row.payload (before ++ row ∷ rows) w)
              λ flags w1. store_flags-Calm row.id flags w1)
            λ flags w2.
              Calm-bind _ _ w2 (Alike-eq (get_draft-store row.id w2))
                λ refreshed w3. flag_drafts-Calm (before ++ refreshed ∷ []) rows w3

      -- The rows at the end of the table, before anything is flagged.
      abbrev Created : ℕ → List PlannedDraft → Store → List EntityDraft → Store → Type 0
      Created batch_id planned s rows t =
          t ≡ record s { drafts = s.drafts ++ map (staged batch_id) planned }

      create_entity_draft-Yields :
          (d : EntityDraft) (w : World)
          → Yields
              (λ row t. t ≡ record w.store { drafts = w.store.drafts ++ d ∷ [] })
              (create_entity_draft d)
              w
      unfolding Yields create_entity_draft
      create_entity_draft-Yields d w =
          elim (Bool-cases (o.fails w.calls || holds w.store.drafts d.id)) [
            | inl e ↦ rw e tt
            | inr e ↦ rw e refl
          ]

      create_drafts-Yields :
          (batch_id : ℕ) (planned : List PlannedDraft) (w : World)
          → Yields (Created batch_id planned w.store) (create_drafts batch_id planned) w
      unfolding create_drafts
      create_drafts-Yields batch_id [] w =
          Yields-pure _ [] w
            (ap (λ l. record w.store { drafts = l }) (sym (append-nil w.store.drafts)))
      create_drafts-Yields batch_id (p ∷ planned) w =
          Yields-bind _ _ _ _ w (create_entity_draft-Yields (staged batch_id p) w) λ row w1 e1.
            Yields-bind _ _ _ _ w1 (create_drafts-Yields batch_id planned w1) λ rows w2 e2.
              Yields-pure _ (row ∷ rows) w2 (
                e2
                ∙ ap
                    (λ (s : Store). record s { drafts = s.drafts ++ map (staged batch_id) planned })
                    e1
                ∙ ap (λ l. record w.store { drafts = l })
                    (append_assoc w.store.drafts (staged batch_id p ∷ [])
                      (map (staged batch_id) planned)))

      Alike-Yielded :
          {A : Type 0} (s : Store) (r : Result DraftError A × World)
          → Alike s r.1.store
          → Yielded (λ a t. Alike s t) r
      Alike-Yielded s (ok a, w) h = h
      Alike-Yielded s (err e, w) h = tt

      Calm-Yields :
          (rows : List EntityDraft) (w : World)
          → Yields (λ a t. Alike w.store t) (flag_drafts [] rows) w
      unfolding Yields
      Calm-Yields rows w = Alike-Yielded w.store _ (flag_drafts-Calm [] rows w)

      -- The store with the drafts of the plan after its own, pending, and some drafts flagged.
      pub record Staged (batch_id : ℕ) (planned : List PlannedDraft) (s t : Store) : Type 0 where
        pub drafts :
            map unflagged t.drafts ≡ map unflagged s.drafts ++ map (staged batch_id) planned
        pub others : record t { drafts = s.drafts } ≡ s

      stage_drafts-Yields :
          (batch_id : ℕ) (planned : List PlannedDraft) (w : World)
          → Yields (λ rows t. Staged batch_id planned w.store t) (stage_drafts batch_id planned) w
      unfolding stage_drafts
      stage_drafts-Yields batch_id planned w = in_transaction-Yields _ _ w λ w0 e0.
          Yields-bind _ _ _ _ w0 (create_drafts-Yields batch_id planned w0) λ rows w1 e1.
            Yields-map (λ a t. Alike w1.store t) (λ a t. Staged batch_id planned w.store t) _ w1
              (Calm-Yields rows w1) λ a t alike. staged_of w0.store w1.store t e0 e1 alike
        where
          unflagged-staged :
              (ps : List PlannedDraft)
              → map unflagged (map (staged batch_id) ps) ≡ map (staged batch_id) ps
          unflagged-staged [] = refl
          unflagged-staged (p ∷ ps) = ap (λ l. staged batch_id p ∷ l) (unflagged-staged ps)

          staged_of :
              (s0 s1 t : Store)
              → s0 ≡ w.store
              → s1 ≡ record s0 { drafts = s0.drafts ++ map (staged batch_id) planned }
              → Alike s1 t
              → Staged batch_id planned w.store t
          staged_of s0 s1 t e0 e1 a = record {
            drafts =
                a.drafts
                ∙ ap (λ (s : Store). map unflagged s.drafts) e1
                ∙ map-append unflagged s0.drafts (map (staged batch_id) planned)
                ∙ ap₂ (λ (s : Store) l. map unflagged s.drafts ++ l) e0 (unflagged-staged planned);
            others =
                ap (λ (s : Store). record t { drafts = s.drafts }) (sym e0)
                ∙ ap (λ (s : Store). record s { drafts = s0.drafts }) (a.others ∙ e1)
                ∙ e0;
          }

      -- Staging drafts that succeeds adds the planned drafts, pending, at the end of the drafts, in
      -- order and with the dependencies of the plan; it may set flags of drafts and changes nothing
      -- else of the store.
      pub stage_drafts_ok :
          (batch_id : ℕ) (planned : List PlannedDraft) (w w' : World) (rows : List EntityDraft)
          → run (stage_drafts batch_id planned) w ≡ (ok rows, w')
          → Staged batch_id planned w.store w'.store
      stage_drafts_ok batch_id planned w w' rows e =
          Yields-ok (λ a t. Staged batch_id planned w.store t) _ w
            (stage_drafts-Yields batch_id planned w) rows w' e
