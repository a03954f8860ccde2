-- ===== src/Stage0.antt =====
-- Package stage0: pasted text becomes drafts of contributions, which a person approves
-- (internal/stage0/service.go; the rows of import_batches and contribution_drafts in
-- internal/db/models.go). The store holds the rows of one account. The language model, JSON, the
-- ids of uuid.New and which statement fails are outside.
pub mod Outcomes
pub mod Tagging
pub mod Approval
pub mod Extraction
mod Witnesses
use role_model.Prelude.{
  ℕ, ◌+◌, Bool, true, false, not, ◌&&◌, ◌||◌, List, [], ◌∷◌, ◌++◌, map, any, Option, none, some,
  ◌==◌, if◌then◌else◌,
}
use role_model.Prelude.Results.{Result, ok, err}
use role_model.GoText.{Str, codes, str_eq, is_empty, Unicode, to_lower, trim_space}
use role_model.Intake.Store.{Position, Contribution, Tag}

pub data Stage0Error : Type 0 where
  database_failed draft_not_found draft_not_pending draft_incomplete position_not_found
        tag_not_found batch_not_found batch_not_pending prompt_failed model_failed bad_response
        marshal_failed missing_names :
      Stage0Error

pub record ImportBatch : Type 0 where
  pub id : ℕ
  pub raw_text : Str
  pub status : Str
  pub error_text : Option Stage0Error

pub record SuggestedTag : Type 0 where
  pub tag_id : ℕ
  pub name : Str
  pub category : Str

pub record ContributionDraft : Type 0 where
  pub id : ℕ
  pub batch_id : ℕ
  pub employer_name : Str
  pub position_title : Str
  pub summary : Option Str
  pub full_description : Option Str
  pub outcomes : Option Str
  pub scale_context : Option Str
  pub status : Str
  pub flags : List Str
  pub suggested_tags : List SuggestedTag

pub record ExtractedEntry : Type 0 where
  pub employer_name : Str
  pub position_title : Str
  pub summary : Option Str
  pub full_description : Option Str
  pub outcomes : Option Str
  pub scale_context : Option Str

pub record EnrichmentResult : Type 0 where
  pub flags : List Str
  pub suggested_tags : List Str

pub record Store : Type 0 where
  pub batches : List ImportBatch
  pub drafts : List ContributionDraft
  pub positions : List Position
  pub tags : List Tag
  pub contributions : List Contribution
  pub contribution_tags : List (ℕ × ℕ)

-- The store, with the number of statements run, of ids issued and of calls of the language model.
pub record World : Type 0 where
  pub store : Store
  pub calls : ℕ
  pub issued : ℕ
  pub asked : ℕ

pub record Outside : Type 0 where
  pub uuid_new : ℕ → ℕ
  pub fails : ℕ → Bool
  pub arrange_tags : List Tag → List Tag
  -- The two prompts, when they can be loaded, and the answers of the model.
  pub extraction_prompt : Option Str
  pub enrichment_prompt : Option Str
  pub complete : ℕ → Str → Str → ℕ → Option Str
  pub read_entries : Str → Option (List ExtractedEntry)
  pub read_enrichment : Str → Option EnrichmentResult
  -- json.Marshal of a draft with the tags that there are.
  pub write_input : ContributionDraft → List (Str × Str) → Option Str

abbrev pub Outcome : Type 0 → Type 0
Outcome A = Result Stage0Error A × World

pub data Action (A : Type 0) : Type 0 where
  act : (World → Outcome A) → Action A

abbrev pub run : {A : Type 0} → Action A → World → Outcome A
run (act f) = f

abbrev pub follow : {A B : Type 0} → (A → Action B) → Outcome A → Outcome B
follow f (ok a, w) = run (f a) w
follow f (err e, w) = (err e, w)

infixl 5 ◌>>=◌ ◌>>◌
unfoldable pub ◌>>=◌ : {A B : Type 0} → Action A → (A → Action B) → Action B
m >>= f = act λ w. follow f (run m w)

unfoldable pub ◌>>◌ : {A B : Type 0} → Action A → Action B → Action B
unfolding ◌>>=◌
m >> k = m >>= λ _. k

unfoldable pub pure : {A : Type 0} → A → Action A
pure a = act λ w. (ok a, w)

unfoldable pub lift : {A : Type 0} → Result Stage0Error A → Action A
lift r = act λ w. (r, w)

abbrev pub or_error : {A : Type 0} → Stage0Error → Option A → Result Stage0Error A
or_error e none = err e
or_error e (some a) = ok a

-- A handler that goes on with another action on an error, and a call whose error is only logged.
abbrev pub recovered : {A : Type 0} → (Stage0Error → Action A) → Outcome A → Outcome A
recovered handle (ok a, w) = (ok a, w)
recovered handle (err e, w) = run (handle e) w

unfoldable pub on_error : {A : Type 0} → Action A → (Stage0Error → Action A) → Action A
on_error m handle = act λ w. recovered handle (run m w)

abbrev pub logged : {A : Type 0} → Outcome A → Outcome (Unit {0})
logged (ok a, w) = (ok tt, w)
logged (err e, w) = (ok tt, w)

unfoldable pub log_error : {A : Type 0} → Action A → Action (Unit {0})
log_error m = act λ w. logged (run m w)

abbrev pub rolled_back : {A : Type 0} → Store → Outcome A → Outcome A
rolled_back s (ok a, w) = (ok a, w)
rolled_back s (err e, w) = (err e, record w { store = s })

abbrev pub with_status : Str → Option Stage0Error → ImportBatch → ImportBatch
with_status status error b = record b { status = status; error_text = error }

abbrev pub set_batch : ℕ → Str → Option Stage0Error → List ImportBatch → List ImportBatch
set_batch id status error batches =
    map (λ b. if b.id == id then with_status status error b else b) batches

abbrev pub set_draft_status : ℕ → Str → List ContributionDraft → List ContributionDraft
set_draft_status id status drafts =
    map (λ d. if d.id == id then record d { status = status } else d) drafts

abbrev pub set_enrichment :
    ℕ → List Str → List SuggestedTag → List ContributionDraft → List ContributionDraft
set_enrichment id flags tags drafts =
    map (λ d. if d.id == id then record d { flags = flags; suggested_tags = tags } else d) drafts

unfoldable pub first_with : {A : Type 0} → (A → Bool) → List A → Option A
first_with p [] = none
first_with p (x ∷ xs) = if p x then some x else first_with p xs

abbrev pub is_tagged : ℕ → ℕ → List (ℕ × ℕ) → Bool
is_tagged contribution tag links = any (λ link. (link.0 == contribution) && (link.1 == tag)) links

module _ ⦃o : Outside⦄ where
  -- A statement on the store; `none` is no row.
  unfoldable pub statement : {A : Type 0} → Stage0Error → (Store → Option (A × Store)) → Action A
  statement no_row f = act λ w.
      let next = record w { calls = w.calls + 1 } in
      if o.fails w.calls then (err database_failed, next) else (elim (f w.store) [
        | none ↦ (err no_row, next)
        | some (a, s) ↦ (ok a, record next { store = s })
      ])

  unfoldable pub new_id : Action ℕ
  new_id = act λ w. (ok (o.uuid_new w.issued), record w { issued = w.issued + 1 })

  unfoldable pub ask : Str → Str → ℕ → Action Str
  ask prompt content max_tokens = act λ w. (
    or_error model_failed (o.complete w.asked prompt content max_tokens),
    record w { asked = w.asked + 1 },
  )

  -- A row that is read.
  abbrev pub found : {A : Type 0} → Store → Option A → Option (A × Store)
  found s none = none
  found s (some a) = some (a, s)

  abbrev pub get_batch : ℕ → Action ImportBatch
  get_batch id = statement batch_not_found (λ s. found s (first_with (λ b. b.id == id) s.batches))

  abbrev pub get_contribution_draft : ℕ → Action ContributionDraft
  get_contribution_draft id =
      statement draft_not_found (λ s. found s (first_with (λ d. d.id == id) s.drafts))

  abbrev pub get_position : ℕ → Action Position
  get_position id =
      statement position_not_found (λ s. found s (first_with (λ p. p.id == id) s.positions))

  abbrev pub get_tag : ℕ → Action Tag
  get_tag id = statement tag_not_found (λ s. found s (first_with (λ t. t.id == id) s.tags))

  abbrev pub list_tags : Action (List Tag)
  list_tags = statement database_failed (λ s. some (o.arrange_tags s.tags, s))

  -- UPDATE ... RETURNING: no row is an error.
  abbrev pub updated : Bool → Store → Option (Unit {0} × Store)
  updated true s = some (tt, s)
  updated false s = none

  unfoldable pub set_status : ℕ → Str → Option Stage0Error → Action (Unit {0})
  set_status id status error = statement batch_not_found (λ s.
      updated (any (λ b. b.id == id) s.batches)
        (record s { batches = set_batch id status error s.batches }))

  -- Marks the batch failed, and returns the cause whether that worked or not.
  unfoldable pub fail : {A : Type 0} → ℕ → Stage0Error → Action A
  unfolding set_status
  fail id cause = log_error (set_status id (codes "failed") (some cause)) >> lift (err cause)

  abbrev pub touch : Action (Unit {0})
  touch = statement database_failed (λ s. some (tt, s))

  -- BEGIN, the body, COMMIT; `defer tx.Rollback(ctx)`.
  unfoldable pub in_transaction : {A : Type 0} → Action A → Action A
  in_transaction body =
      act λ w. rolled_back w.store (run (touch >> body >>= λ a. touch >> pure a) w)

  abbrev pub create_contribution : Contribution → Action (Unit {0})
  create_contribution c =
      statement database_failed
        (λ s. some (tt, record s { contributions = s.contributions ++ c ∷ [] }))

  abbrev pub create_contribution_draft : ContributionDraft → Action ContributionDraft
  create_contribution_draft d =
      statement database_failed (λ s. some (d, record s { drafts = s.drafts ++ d ∷ [] }))

  abbrev pub update_draft_status : ℕ → Str → Action (Unit {0})
  update_draft_status id status = statement draft_not_found (λ s.
      updated (any (λ d. d.id == id) s.drafts)
        (record s { drafts = set_draft_status id status s.drafts }))

  abbrev pub update_draft_enrichment : ℕ → List Str → List SuggestedTag → Action (Unit {0})
  update_draft_enrichment id flags tags = statement draft_not_found (λ s.
      updated (any (λ d. d.id == id) s.drafts)
        (record s { drafts = set_enrichment id flags tags s.drafts }))

  -- ON CONFLICT DO NOTHING
  abbrev pub assign_tag : ℕ → ℕ → Action (Unit {0})
  assign_tag contribution tag = statement database_failed (λ s. some (
    tt,
    if is_tagged contribution tag s.contribution_tags
        then s
        else record s { contribution_tags = s.contribution_tags ++ (contribution, tag) ∷ [] },
  ))
