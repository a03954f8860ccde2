-- ===== src/Generation/Reconcile.antt =====
-- Claimed skills that a bullet names and the Skills section left out are added to it
-- (internal/generation/reconcile.go: reconcileSkills, decodeOrderedSkills, encodeOrderedSkills,
-- collectBulletText, skillAlreadyListed). The document is a Go map from field names to JSON texts.
-- Package encoding/json is an interface, which gives the fields of the skills object in their order.
pub mod Listing
pub mod Ordering
pub mod Additions
pub mod Document
use role_model.Prelude.{
  ℕ, Bool, true, false, not, ◌&&◌, ◌||◌, List, [], ◌∷◌, ◌++◌, map, any, Option, none, some,
  if◌then◌else◌,
}
use role_model.Prelude.Results.{Result, ok, err, ◌>>=◌}
use role_model.GoText.{Str, codes, is_empty, Unicode}
use role_model.GoText.Maps.{lookup, assign}
use role_model.Generation.Words.{named_in_any}

pub record SkillView : Type 0 where
  pub name : Str
  pub category : Str
  pub proficiency : Str
  pub years_experience : Option Str

pub data ReconcileError : Type 0 where
  bad_skills bad_experience bad_projects : ReconcileError

-- The readers for a skills object, for the bullets of employers by position, and for those of
-- projects, and the writer of a skills object.
pub record DocumentJson : Type 0 where
  pub read_skills : Str → Option (List (Str × List Str))
  pub read_employers : Str → Option (List (List (List Str)))
  pub read_projects : Str → Option (List (List Str))
  pub write_skills : List (Str × List Str) → Str

abbrev pub Fields : Type 0
Fields = List (Str × Str)

abbrev pub Categories : Type 0
Categories = List (Str × List Str)

-- The local variables of reconcileSkills.
pub record Skills : Type 0 where
  pub order : List Str
  pub by_category : Categories
  pub added : Bool

abbrev pub start_skills : Skills
start_skills = record { order = []; by_category = []; added = false }

-- Categories are read in order; a name that comes again overwrites its entries.
unfoldable pub collect_skills : Categories → Skills → Skills
collect_skills [] s = s
collect_skills ((key, values) ∷ fields) s =
    collect_skills fields
      (record s { order = s.order ++ key ∷ []; by_category = assign key values s.by_category })

-- byCategory[category], nil if it is missing.
abbrev pub entries_or_nil : Option (List Str) → List Str
entries_or_nil none = []
entries_or_nil (some values) = values

unfoldable pub entries_of : Str → Categories → List Str
unfolding lookup
entries_of category by_category = entries_or_nil (lookup category by_category)

abbrev pub is_known : Option (List Str) → Bool
is_known none = false
is_known (some values) = true

unfoldable pub encode_ordered : List Str → Categories → Categories
encode_ordered order by_category =
    map (λ category. (category, entries_of category by_category)) order

abbrev pub flatten_all {ℓ} : {A : Type ℓ} → List (List A) → List A
flatten_all [] = []
flatten_all (xs ∷ rest) = xs ++ flatten_all rest

-- `raw, ok := doc[field]; ok && len(raw) > 0`
abbrev pub filled : Option Str → Option Str
filled none = none
filled (some raw) = if is_empty raw then none else some raw

module _ ⦃j : DocumentJson⦄ where
  abbrev pub experience_bullets : Option Str → Result ReconcileError (List Str)
  experience_bullets none = ok []
  experience_bullets (some raw) = elim (j.read_employers raw) [
    | none ↦ err bad_experience
    | some employers ↦ ok (flatten_all (map flatten_all employers))
  ]

  abbrev pub project_bullets : Option Str → Result ReconcileError (List Str)
  project_bullets none = ok []
  project_bullets (some raw) = elim (j.read_projects raw) [
    | none ↦ err bad_projects
    | some projects ↦ ok (flatten_all projects)
  ]

  unfoldable pub collect_bullet_text : Fields → Result ReconcileError (List Str)
  unfolding lookup
  collect_bullet_text doc = experience_bullets (filled (lookup (codes "experience") doc)) >>= λ own.
      project_bullets (filled (lookup (codes "projects") doc)) >>= λ others. ok (own ++ others)

  abbrev pub decode_ordered_skills : Str → Result ReconcileError Skills
  decode_ordered_skills raw = elim (j.read_skills raw) [
    | none ↦ err bad_skills
    | some fields ↦ ok (collect_skills fields start_skills)
  ]

module _ ⦃u : Unicode⦄ where
  unfoldable pub skill_already_listed : Categories → Str → Bool
  skill_already_listed by_category name = any (λ entry. named_in_any entry.1 name) by_category

  abbrev pub is_missing : List Str → SkillView → Skills → Bool
  is_missing bullets skill s =
      not (skill_already_listed s.by_category skill.name) && named_in_any bullets skill.name

  abbrev pub append_skill : SkillView → Skills → Skills
  append_skill skill s = record {
    order =
        if is_known (lookup skill.category s.by_category)
        then s.order
        else s.order ++ skill.category ∷ [];
    by_category =
        assign skill.category (entries_of skill.category s.by_category ++ skill.name ∷ [])
          s.by_category;
    added = true;
  }

  -- The body of the loop over the claimed skills.
  unfoldable pub add_skill : List Str → SkillView → Skills → Skills
  unfolding skill_already_listed
  add_skill bullets skill s = if is_missing bullets skill s then append_skill skill s else s

  unfoldable pub add_skills : List Str → List SkillView → Skills → Skills
  unfolding add_skill
  add_skills bullets [] s = s
  add_skills bullets (skill ∷ claimed) s = add_skills bullets claimed (add_skill bullets skill s)

  module _ ⦃j : DocumentJson⦄ where
    abbrev pub store_skills : Fields → Skills → Fields
    store_skills doc s =
        if s.added
        then assign (codes "skills") (j.write_skills (encode_ordered s.order s.by_category)) doc
        else doc

    abbrev pub reconcile_section :
        Fields → List SkillView → Option Str → Result ReconcileError Fields
    reconcile_section doc claimed none = ok doc
    reconcile_section doc claimed (some raw) = decode_ordered_skills raw >>= λ s.
        collect_bullet_text doc >>= λ bullets. ok (store_skills doc (add_skills bullets claimed s))

    unfoldable pub reconcile_skills : Fields → List SkillView → Result ReconcileError Fields
    unfolding collect_skills encode_ordered collect_bullet_text add_skills
    reconcile_skills doc claimed =
        reconcile_section doc claimed (filled (lookup (codes "skills") doc))
