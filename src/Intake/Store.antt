-- ===== src/Intake/Store.antt =====
-- The tables that the intake resolver reads and writes, and its statements (internal/db/queries:
-- employers, positions, contributions, tags, skills, preferences, education, credentials,
-- entity_drafts, levels and resume_sections; internal/db/models.go). Every statement is filtered by the user, so the store
-- holds the rows of one account, each table in the order of insertion.
-- Outside the model: which ids uuid.New gives, which statement fails and for what reason (a lost
-- connection or a constraint), the order of a listing, and the reading of a numeric.
pub mod Steps
pub mod Growth
use role_model.Prelude.{
  ℕ, ◌+◌, Bool, true, false, ◌&&◌, ◌||◌, List, [], ◌∷◌, ◌++◌, map, keep, any, Option, none, some,
  ◌==◌, if◌then◌else◌,
}
use role_model.Prelude.Int.{ℤ}
use role_model.Prelude.Results.{Result, ok, err}
use role_model.GoText.{Str, codes}
use role_model.FitGate.Signals.{ProficiencyLevel}
use role_model.Vocabulary.{CareerLevel, ResumeSection}
use role_model.Intake.Dates.{Date}
use role_model.Intake.Payloads.{DraftError, database_failed, draft_not_found}
use role_model.Intake.Ordering.{EntityDraft, holds}

pub record Employer : Type 0 where
  pub id : ℕ
  pub name : Str
  pub industry : Option Str
  pub notes : Option Str

pub record Position : Type 0 where
  pub id : ℕ
  pub employer_id : ℕ
  pub title : Str
  pub industry_level : Option Str
  pub industry_role : Option Str
  pub location : Option Str
  pub started_on : Date
  pub ended_on : Option Date
  pub context_narrative : Option Str

pub record Contribution : Type 0 where
  pub id : ℕ
  pub position_id : ℕ
  pub summary : Str
  pub full_description : Str
  pub outcomes : Option Str
  pub scale_context : Option Str
  pub is_active : Bool

pub record TagCategory : Type 0 where
  pub id : ℕ
  pub name : Str
  pub sort_order : ℤ

pub record Tag : Type 0 where
  pub id : ℕ
  pub name : Str
  pub category : Str

pub record Skill : Type 0 where
  pub id : ℕ
  pub tag_id : ℕ
  pub proficiency : Str
  pub years_experience : Option Str
  pub is_active : Bool

pub record PreferenceRow : Type 0 where
  pub id : ℕ
  pub preference_type : Str
  pub label : Str
  pub sentiment : Str
  pub weight : ℤ
  pub is_hard_gate : Bool
  pub notes : Option Str
  pub aliases : List Str

pub record Education : Type 0 where
  pub id : ℕ
  pub institution : Str
  pub degree : Option Str
  pub field_of_study : Option Str
  pub started_on : Option Date
  pub ended_on : Option Date
  pub notes : Option Str

pub record Credential : Type 0 where
  pub id : ℕ
  pub name : Str
  pub issuer : Option Str
  pub issued_on : Option Date
  pub expires_on : Option Date
  pub credential_url : Option Str

pub record Store : Type 0 where
  pub employers : List Employer
  pub positions : List Position
  pub contributions : List Contribution
  pub contribution_tags : List (ℕ × ℕ)
  pub tag_categories : List TagCategory
  pub tags : List Tag
  pub skills : List Skill
  pub preferences : List PreferenceRow
  pub educations : List Education
  pub credentials : List Credential
  pub drafts : List EntityDraft
  pub career_levels : List CareerLevel
  pub proficiency_levels : List ProficiencyLevel
  pub resume_sections : List ResumeSection

-- The store, with the number of statements run and of ids issued.
pub record World : Type 0 where
  pub store : Store
  pub calls : ℕ
  pub issued : ℕ

pub record Outside : Type 0 where
  pub uuid_new : ℕ → ℕ
  pub fails : ℕ → Bool
  pub arrange_employers : List Employer → List Employer
  pub arrange_drafts : List EntityDraft → List EntityDraft
  pub arrange_tags : List Tag → List Tag
  pub arrange_categories : List TagCategory → List TagCategory
  pub arrange_preferences : List PreferenceRow → List PreferenceRow
  pub arrange_career_levels : List CareerLevel → List CareerLevel
  pub arrange_proficiency_levels : List ProficiencyLevel → List ProficiencyLevel
  pub arrange_sections : List ResumeSection → List ResumeSection
  pub scan_numeric : Str → Option Str

pub data Action (A : Type 0) : Type 0 where
  act : (World → Result DraftError A × World) → Action A

abbrev pub run : {A : Type 0} → Action A → World → Result DraftError A × World
run (act f) = f

abbrev pub follow :
    {A B : Type 0} → (A → Action B) → Result DraftError A × World → Result DraftError B × World
follow f (ok a, w) = run (f a) w
follow f (err e, w) = (err e, w)

infixl 5 ◌>>=◌ ◌>>◌
unfoldable pub ◌>>=◌ : {A B : Type 0} → Action A → (A → Action B) → Action B
m >>= f = act λ w. follow f (run m w)

unfoldable pub ◌>>◌ : {A B : Type 0} → Action A → Action B → Action B
unfolding ◌>>=◌
m >> k = m >>= λ _. k

unfoldable pub pure : {A : Type 0} → A → Action A
pure a = act λ w. (ok a, w)

-- A step that touches nothing outside.
unfoldable pub lift : {A : Type 0} → Result DraftError A → Action A
lift r = act λ w. (r, w)

abbrev pub resolved_to : ℕ → EntityDraft → EntityDraft
resolved_to row d = record d { status = codes "approved"; resolved_id = some row }

abbrev pub mark_in : ℕ → ℕ → List EntityDraft → List EntityDraft
mark_in id row drafts = map (λ d. if d.id == id then resolved_to row d else d) drafts

abbrev pub flag_in : ℕ → Str → List EntityDraft → List EntityDraft
flag_in id raw drafts = map (λ d. if d.id == id then record d { flags = some raw } else d) drafts

module _ ⦃o : Outside⦄ where
  unfoldable pub query : {A : Type 0} → (Store → A) → Action A
  query f = act λ w.
      if o.fails w.calls
      then (err database_failed, record w { calls = w.calls + 1 })
      else (ok (f w.store), record w { calls = w.calls + 1 })

  unfoldable pub execute : (Store → Store) → Action (Unit {0})
  execute f = act λ w.
      if o.fails w.calls
      then (err database_failed, record w { calls = w.calls + 1 })
      else (ok tt, record w { store = f w.store; calls = w.calls + 1 })

  unfoldable pub new_id : Action ℕ
  new_id = act λ w. (ok (o.uuid_new w.issued), record w { issued = w.issued + 1 })

  abbrev pub get_employers : Action (List Employer)
  get_employers = query (λ s. o.arrange_employers s.employers)

  abbrev pub list_tags : Action (List Tag)
  list_tags = query (λ s. o.arrange_tags s.tags)

  abbrev pub list_tag_categories : Action (List TagCategory)
  list_tag_categories = query (λ s. o.arrange_categories s.tag_categories)

  abbrev pub list_preferences : Action (List PreferenceRow)
  list_preferences = query (λ s. o.arrange_preferences s.preferences)

  abbrev pub list_career_levels : Action (List CareerLevel)
  list_career_levels = query (λ s. o.arrange_career_levels s.career_levels)

  abbrev pub list_proficiency_levels : Action (List ProficiencyLevel)
  list_proficiency_levels = query (λ s. o.arrange_proficiency_levels s.proficiency_levels)

  abbrev pub list_resume_sections : Action (List ResumeSection)
  list_resume_sections = query (λ s. o.arrange_sections s.resume_sections)

  -- ON CONFLICT DO NOTHING
  abbrev pub assign_tag : ℕ → ℕ → Action (Unit {0})
  assign_tag contribution tag = execute (λ s.
      if any (λ link. (link.0 == contribution) && (link.1 == tag)) s.contribution_tags
      then s
      else record s { contribution_tags = s.contribution_tags ++ (contribution, tag) ∷ [] })

  -- The listing of a batch, pending and resolved drafts alike. Its order, by created_at and then
  -- by id, is that of random ids among the drafts of one transaction, so it is left open.
  abbrev pub list_drafts : ℕ → Action (List EntityDraft)
  list_drafts batch = query (λ s. o.arrange_drafts (keep (λ d. d.batch_id == batch) s.drafts))

  -- UPDATE ... RETURNING: no row is an error.
  unfoldable pub mark_resolved : ℕ → ℕ → Action (Unit {0})
  mark_resolved id row = act λ w.
      if o.fails w.calls
      then (err database_failed, record w { calls = w.calls + 1 })
      else if holds w.store.drafts id
      then (
        ok tt,
        record w {
          store = record w.store { drafts = mark_in id row w.store.drafts };
          calls = w.calls + 1;
        },
      )
      else (err draft_not_found, record w { calls = w.calls + 1 })

  -- The id is the primary key.
  unfoldable pub create_entity_draft : EntityDraft → Action EntityDraft
  create_entity_draft d = act λ w.
      if o.fails w.calls || holds w.store.drafts d.id
      then (err database_failed, record w { calls = w.calls + 1 })
      else (
        ok d,
        record w {
          store = record w.store { drafts = w.store.drafts ++ d ∷ [] };
          calls = w.calls + 1;
        },
      )

  -- UPDATE ... RETURNING: no row is an error.
  unfoldable pub set_draft_flags : ℕ → Str → Action (Unit {0})
  set_draft_flags id raw = act λ w.
      if o.fails w.calls
      then (err database_failed, record w { calls = w.calls + 1 })
      else if holds w.store.drafts id
      then (
        ok tt,
        record w {
          store = record w.store { drafts = flag_in id raw w.store.drafts };
          calls = w.calls + 1;
        },
      )
      else (err draft_not_found, record w { calls = w.calls + 1 })
