-- ===== src/Intake/Store/Growth.antt =====
-- Stores that differ by rows added at the end of tables, and the rows of a kind (for the
-- resolvers of internal/intake/resolve.go).
use mathlib.Core.Path.{subst}
use role_model.Prelude.{
  ℕ, ◌≡◌, refl, sym, ap, ◌∙◌, Bool, true, false, List, [], ◌∷◌, ◌++◌, any, ◌==◌, arith,
  append_assoc, append-nil, Memᴰ, mem-append_left,
}
use role_model.Intake.Payloads.{
  Kind, kind_employer, kind_position, kind_contribution, kind_skill, kind_preference,
  kind_education, kind_credential, kind_other,
}
use role_model.Intake.Store.{Store}

-- The second list starts with the first.
pub data Extends {A : Type 0} (xs ys : List A) : Type 0 where
  adding : (more : List A) → ys ≡ xs ++ more → Extends xs ys

module _ {A : Type 0} where
  pub Extends-refl : (xs : List A) → Extends xs xs
  Extends-refl xs = adding [] (sym (append-nil xs))

  pub Extends-one : (xs : List A) (x : A) → Extends xs (xs ++ x ∷ [])
  Extends-one xs x = adding (x ∷ []) refl

  pub Extends-trans : {xs ys zs : List A} → Extends xs ys → Extends ys zs → Extends xs zs
  Extends-trans {xs} (adding m e) (adding n f) =
      adding (m ++ n) (f ∙ ap (λ l. l ++ n) e ∙ append_assoc xs m n)

  pub Extends-mem : {xs ys : List A} (x : A) → Extends xs ys → Memᴰ x xs → Memᴰ x ys
  Extends-mem {xs} x (adding m e) i = subst (Memᴰ x) (sym e) (mem-append_left x xs m i)

  pub Extends-any :
      {xs ys : List A} (p : A → Bool) → Extends xs ys → any p xs ≡ true → any p ys ≡ true
  Extends-any {xs} p (adding m e) h = subst (λ l. any p l ≡ true) (sym e) (any_left xs h)
    where
      any_left : (l : List A) → any p l ≡ true → any p (l ++ m) ≡ true
      any_left [] h = cc
      any_left (x ∷ l) h = ground (arith, any_left l)

-- Rows are only added, and the drafts stay as they are.
pub record Grows (s s' : Store) : Type 0 where
  pub employers : Extends s.employers s'.employers
  pub positions : Extends s.positions s'.positions
  pub contributions : Extends s.contributions s'.contributions
  pub contribution_tags : Extends s.contribution_tags s'.contribution_tags
  pub tag_categories : Extends s.tag_categories s'.tag_categories
  pub tags : Extends s.tags s'.tags
  pub skills : Extends s.skills s'.skills
  pub preferences : Extends s.preferences s'.preferences
  pub educations : Extends s.educations s'.educations
  pub credentials : Extends s.credentials s'.credentials
  pub drafts : s'.drafts ≡ s.drafts

pub Grows-refl : (s : Store) → Grows s s
Grows-refl s = record {
  employers = Extends-refl _;
  positions = Extends-refl _;
  contributions = Extends-refl _;
  contribution_tags = Extends-refl _;
  tag_categories = Extends-refl _;
  tags = Extends-refl _;
  skills = Extends-refl _;
  preferences = Extends-refl _;
  educations = Extends-refl _;
  credentials = Extends-refl _;
  drafts = refl;
}

-- One row added, or none.
pub ruleset added = (Extends-refl, Extends-one)

pub Grows-trans : {s t v : Store} → Grows s t → Grows t v → Grows s v
Grows-trans g h = record {
  employers = Extends-trans g.employers h.employers;
  positions = Extends-trans g.positions h.positions;
  contributions = Extends-trans g.contributions h.contributions;
  contribution_tags = Extends-trans g.contribution_tags h.contribution_tags;
  tag_categories = Extends-trans g.tag_categories h.tag_categories;
  tags = Extends-trans g.tags h.tags;
  skills = Extends-trans g.skills h.skills;
  preferences = Extends-trans g.preferences h.preferences;
  educations = Extends-trans g.educations h.educations;
  credentials = Extends-trans g.credentials h.credentials;
  drafts = h.drafts ∙ g.drafts;
}

-- The table of a kind has a row with this id.
unfoldable pub has_row : Kind → ℕ → Store → Bool
has_row kind_employer id s = any (λ r. r.id == id) s.employers
has_row kind_position id s = any (λ r. r.id == id) s.positions
has_row kind_contribution id s = any (λ r. r.id == id) s.contributions
has_row kind_skill id s = any (λ r. r.id == id) s.skills
has_row kind_preference id s = any (λ r. r.id == id) s.preferences
has_row kind_education id s = any (λ r. r.id == id) s.educations
has_row kind_credential id s = any (λ r. r.id == id) s.credentials
has_row kind_other id s = false

pub has_row-Grows :
    (kind : Kind) (id : ℕ) {s s' : Store}
    → Grows s s'
    → has_row kind id s ≡ true
    → has_row kind id s' ≡ true
unfolding has_row
has_row-Grows kind_employer id g = Extends-any _ g.employers
has_row-Grows kind_position id g = Extends-any _ g.positions
has_row-Grows kind_contribution id g = Extends-any _ g.contributions
has_row-Grows kind_skill id g = Extends-any _ g.skills
has_row-Grows kind_preference id g = Extends-any _ g.preferences
has_row-Grows kind_education id g = Extends-any _ g.educations
has_row-Grows kind_credential id g = Extends-any _ g.credentials
has_row-Grows kind_other id g = λ h. h
