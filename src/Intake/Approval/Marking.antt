-- ===== src/Intake/Approval/Marking.antt =====
-- The rows that an approval adds and the drafts that it marks (internal/intake/resolve.go: the
-- loop of ResolveBatch, ApproveDraft).
use mathlib.Core.Path.{subst}
use role_model.Prelude.{ℕ, ◌≡◌, refl, sym, ap, ◌∙◌, true, List, Bool-cases, inl, inr}
use role_model.GoText.{Unicode}
use role_model.Intake.Payloads.{
  Kind, kind_employer, kind_position, kind_contribution, kind_skill, kind_preference,
  kind_education, kind_credential, kind_other, kind_named, Json,
}
use role_model.Intake.Ordering.{EntityDraft, holds}
use role_model.Intake.Store.{Store, World, Outside, mark_in, mark_resolved}
use role_model.Intake.Store.Steps.{Yields, Yields-pure, Yields-bind, Yields->>}
use role_model.Intake.Store.Growth.{Grows, Grows-trans, added, has_row, has_row-Grows}
use role_model.Intake.Resolvers.{Resolved}
use role_model.Intake.Resolvers.Kinds.{IsListing, resolve_one-Wrote}
use role_model.Intake.Approval.{resolve_and_mark}

-- The tables without the drafts.
abbrev pub with_drafts : List EntityDraft → Store → Store
with_drafts ds s = record s { drafts = ds }

pub has_row-with_drafts :
    (k : Kind) (row : ℕ) (ds : List EntityDraft) (s : Store)
    → has_row k row (with_drafts ds s) ≡ has_row k row s
unfolding has_row
has_row-with_drafts kind_employer row ds s = refl
has_row-with_drafts kind_position row ds s = refl
has_row-with_drafts kind_contribution row ds s = refl
has_row-with_drafts kind_skill row ds s = refl
has_row-with_drafts kind_preference row ds s = refl
has_row-with_drafts kind_education row ds s = refl
has_row-with_drafts kind_credential row ds s = refl
has_row-with_drafts kind_other row ds s = refl

-- Rows may have been added; nothing is said of the drafts.
abbrev pub GrowsRows : Store → Store → Type 0
GrowsRows s s' = Grows s (with_drafts s.drafts s')

pub GrowsRows-refl : (s : Store) → GrowsRows s s
GrowsRows-refl s = search added

pub GrowsRows-trans : (s t v : Store) → GrowsRows s t → GrowsRows t v → GrowsRows s v
GrowsRows-trans s t v g h = Grows-trans g (rebased h)
  where
    rebased :
        Grows t (with_drafts t.drafts v) → Grows (with_drafts s.drafts t) (with_drafts s.drafts v)
    rebased h = record {
      employers = h.employers;
      positions = h.positions;
      contributions = h.contributions;
      contribution_tags = h.contribution_tags;
      tag_categories = h.tag_categories;
      tags = h.tags;
      skills = h.skills;
      preferences = h.preferences;
      educations = h.educations;
      credentials = h.credentials;
      drafts = refl;
    }

pub has_row-GrowsRows :
    (k : Kind) (row : ℕ) (s s' : Store)
    → GrowsRows s s'
    → has_row k row s ≡ true
    → has_row k row s' ≡ true
has_row-GrowsRows k row s s' g h =
    sym (has_row-with_drafts k row s.drafts s') ∙ has_row-Grows k row g h

pub record Marked (d : EntityDraft) (s : Store) (row : ℕ) (s' : Store) : Type 0 where
  pub grown : GrowsRows s s'
  pub marked : s'.drafts ≡ mark_in d.id row s.drafts
  pub backed : has_row (kind_named d.kind) row s' ≡ true

module _ ⦃o : Outside⦄ where
  mark_resolved-eq :
      (id row : ℕ) (w : World)
      → Yields
          (λ t s'. s' ≡ with_drafts (mark_in id row w.store.drafts) w.store)
          (mark_resolved id row)
          w
  unfolding mark_resolved Yields
  mark_resolved-eq id row w = elim (Bool-cases (o.fails w.calls)) [
    | inl e ↦ rw e tt
    | inr e ↦ elim (Bool-cases (holds w.store.drafts id)) [
      | inl h ↦ rw (e, h) refl
      | inr h ↦ rw (e, h) tt
    ]
  ]

  module _ ⦃u : Unicode⦄ ⦃j : Json⦄ (listing : IsListing o) where
    Marked-intro :
        (d : EntityDraft) (s s1 : Store) (row : ℕ)
        → Grows s s1
        → has_row (kind_named d.kind) row s1 ≡ true
        → Marked d s row (with_drafts (mark_in d.id row s1.drafts) s1)
    Marked-intro d s s1 row g h = record {
      grown = subst (λ ds. Grows s (with_drafts ds s1)) g.drafts g;
      marked = ap (mark_in d.id row) g.drafts;
      backed = has_row-with_drafts (kind_named d.kind) row _ s1 ∙ h;
    }

    pub resolve_and_mark-Marked :
        (resolved : Resolved) (d : EntityDraft) (w : World)
        → Yields (Marked d w.store) (resolve_and_mark resolved d) w
    unfolding resolve_and_mark
    resolve_and_mark-Marked resolved d w =
        Yields-bind _ _ _ _ w (resolve_one-Wrote listing d resolved w) λ row w1 h.
          Yields->> (λ t s'. s' ≡ with_drafts (mark_in d.id row w1.store.drafts) w1.store) _ _ _ w1
            (mark_resolved-eq d.id row w1)
            λ t w2 e.
              Yields-pure _ row w2
                (subst (Marked d w.store row) (sym e) (Marked-intro d w.store w1.store row h.0 h.1))
