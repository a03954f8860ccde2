-- ===== src/Generation/Sections.antt =====
-- The sections that a document declares (internal/generation/generate.go: projectSections,
-- fallbackSections).
use role_model.Prelude.{
  ◌≡◌, refl, ap₂, ◌∙◌, not, List, [], ◌∷◌, map, keep, all, if◌then◌else◌, Bool-cases, inl, inr,
}
use role_model.GoText.{Str}
use role_model.Vocabulary.{ResumeSection, default_resume_sections}

pub record DocumentSection : Type 0 where
  pub key : Str
  pub heading : Str

abbrev pub declared : ResumeSection → DocumentSection
declared r = record { key = r.key; heading = r.heading }

unfoldable pub project_sections : List ResumeSection → List DocumentSection
project_sections [] = []
project_sections (r ∷ rows) =
    if r.hidden then project_sections rows else declared r ∷ project_sections rows

abbrev pub or_sections : List DocumentSection → List DocumentSection → List DocumentSection
or_sections [] other = other
or_sections (s ∷ out) other = s ∷ out

unfoldable pub fallback_sections : List ResumeSection → List DocumentSection
unfolding project_sections
fallback_sections rows =
    or_sections (project_sections rows) (project_sections default_resume_sections)

project_sections-eq :
    (rows : List ResumeSection)
    → project_sections rows ≡ map declared (keep (λ r. not r.hidden) rows)
unfolding project_sections
project_sections-eq [] = refl
project_sections-eq (r ∷ rows) = elim (Bool-cases r.hidden) [
  | inl e ↦ rw (e, project_sections-eq rows) refl
  | inr e ↦ rw (e, project_sections-eq rows) refl
]

all_hidden :
    (rows : List ResumeSection) (other : List DocumentSection)
    → or_sections (project_sections rows) other
      ≡ (if all (λ r. r.hidden) rows then other else project_sections rows)
unfolding project_sections
all_hidden [] other = refl
all_hidden (r ∷ rows) other = elim (Bool-cases r.hidden) [
  | inl e ↦ rw e (all_hidden rows other)
  | inr e ↦ rw e refl
]

defaults_shown : project_sections default_resume_sections ≡ map declared default_resume_sections
unfolding project_sections default_resume_sections
defaults_shown = refl

-- A document declares the rows that are not hidden, in their order; if every row is hidden, and not
-- only if there is none, it declares all six sections of the shipped manifest.
pub fallback_sections-eq :
    (rows : List ResumeSection)
    → fallback_sections rows ≡ (
        if all (λ r. r.hidden) rows
        then map declared default_resume_sections
        else map declared (keep (λ r. not r.hidden) rows))
unfolding fallback_sections
fallback_sections-eq rows =
    all_hidden rows (project_sections default_resume_sections)
    ∙ ap₂ (λ a b. if all (λ r. r.hidden) rows then a else b) defaults_shown
        (project_sections-eq rows)
