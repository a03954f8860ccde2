-- ===== src/Generation/Reconcile/Additions.antt =====
-- What the loop over the claimed skills adds, and that it drops nothing
-- (internal/generation/reconcile.go: the loop of reconcileSkills).
use mathlib.Core.List.{Sublistᴰ}
use role_model.Prelude.{
  ◌≡◌, refl, sym, ap, ◌∙◌, Bool, true, false, not, ◌&&◌, ◌||◌, List, [], ◌∷◌, ◌++◌, append-nil,
  append_assoc, map, keep, All, Memᴰ, Bool-cases, inl, inr, arith,
}
use role_model.GoText.{Str, str_eq, Unicode}
use role_model.GoText.Maps.{lookup, lookup-assign}
use role_model.GoText.Equality.{eq_of_str_eq}
use role_model.Generation.Words.{named_in_any}
use role_model.Generation.Reconcile.{
  SkillView, Skills, entries_or_nil, entries_of, skill_already_listed, is_missing, append_skill,
  add_skill, add_skills,
}
use role_model.Generation.Reconcile.Listing.{listed_after}
use role_model.Generation.Reconcile.Ordering.{knows, new_categories, order-append_skill}

abbrev pub in_category : Str → SkillView → Bool
in_category category skill = str_eq skill.category category

abbrev pub names_in : Str → List SkillView → List Str
names_in category skills = map (λ s. s.name) (keep (in_category category) skills)

missing_parts : (x y : Bool) → (not x && y) ≡ true → (x ≡ false) × (y ≡ true)
missing_parts true y h = cc
missing_parts false y h = (refl, h)

abbrev pub any_added : List SkillView → Bool
any_added [] = false
any_added (k ∷ ks) = true

or_none : (b : Bool) → b ≡ (b || false)
or_none true = refl
or_none false = refl

some_more : (b c : Bool) → (true || c) ≡ (b || true)
some_more true c = refl
some_more false c = refl

module _ ⦃u : Unicode⦄ where
  -- The skills that were added, in the order of the claims, each a claimed skill that some bullet
  -- names and that no entry listed, stand after what each category held, and the categories that
  -- were not known stand after those that were, in the order of their first skills.
  pub record Added (bullets : List Str) (claimed : List SkillView) (s t : Skills) : Type 0 where
    pub skills : List SkillView
    pub in_order : Sublistᴰ skills claimed
    pub from_claims :
        All
          (λ k.
            Memᴰ k claimed
            × (named_in_any bullets k.name ≡ true)
            × (skill_already_listed s.by_category k.name ≡ false))
          skills
    pub entries :
        (category : Str)
        → entries_of category t.by_category
          ≡ entries_of category s.by_category ++ names_in category skills
    pub flagged : t.added ≡ (s.added || any_added skills)
    pub ordered : t.order ≡ s.order ++ new_categories (knows s.by_category) skills

  entries_of-append_skill :
      (skill : SkillView) (s : Skills) (category : Str)
      → entries_of category (append_skill skill s).by_category
        ≡ entries_of category s.by_category ++ names_in category (skill ∷ [])
  unfolding entries_of
  entries_of-append_skill skill s category = elim (Bool-cases (str_eq skill.category category)) [
    | inl e ↦
        rw
          (
            lookup-assign skill.category category
                (entries_or_nil (lookup skill.category s.by_category) ++ skill.name ∷ [])
                s.by_category,
            e,
          )
          (ap (λ k. entries_or_nil (lookup k s.by_category) ++ skill.name ∷ [])
            (eq_of_str_eq skill.category category e))
    | inr e ↦
        rw
          (
            lookup-assign skill.category category
                (entries_or_nil (lookup skill.category s.by_category) ++ skill.name ∷ [])
                s.by_category,
            e,
          )
          (sym (append-nil _))
  ]

  names_in-cons :
      (category : Str) (k : SkillView) (ks : List SkillView)
      → names_in category (k ∷ ks) ≡ names_in category (k ∷ []) ++ names_in category ks
  names_in-cons category k ks = ground arith

  -- What was not listed after an addition was not listed before it.
  unlisted_before :
      (skill : SkillView) (s : Skills) (name : Str)
      → skill_already_listed (append_skill skill s).by_category name ≡ false
      → skill_already_listed s.by_category name ≡ false
  unlisted_before skill s name h =
      ground (arith, listed_after skill.category skill.name name s.by_category)

  abbrev Claim : List Str → List SkillView → Skills → SkillView → Type 0
  Claim bullets claimed s k =
      Memᴰ k claimed
      × (named_in_any bullets k.name ≡ true)
      × (skill_already_listed s.by_category k.name ≡ false)

  later_claims :
      (bullets : List Str) (c : SkillView) (claimed : List SkillView) (s t : Skills)
      → ((name : Str)
          → skill_already_listed t.by_category name ≡ false
          → skill_already_listed s.by_category name ≡ false)
      → (ks : List SkillView) → All (Claim bullets claimed t) ks
      → All (Claim bullets (c ∷ claimed) s) ks
  later_claims bullets c claimed s t back [] h = tt
  later_claims bullets c claimed s t back (k ∷ ks) h =
      ((Memᴰ.tail h.0.0, h.0.1, back k.name h.0.2), later_claims bullets c claimed s t back ks h.1)

  pub add_skills-Added :
      (bullets : List Str) (claimed : List SkillView) (s : Skills)
      → Added bullets claimed s (add_skills bullets claimed s)
  unfolding add_skills add_skill
  add_skills-Added bullets [] s = record {
    skills = [];
    in_order = Sublistᴰ.slnil;
    from_claims = tt;
    entries = λ category. sym (append-nil _);
    flagged = or_none s.added;
    ordered = sym (append-nil s.order);
  }
  add_skills-Added bullets (c ∷ claimed) s = elim (Bool-cases (is_missing bullets c s)) [
    | inl e ↦
        let rest = add_skills-Added bullets claimed (append_skill c s) in
        let (listed, named) = missing_parts _ _ e in
        rw e (record {
          skills = c ∷ rest.skills;
          in_order = Sublistᴰ.cons-cons refl rest.in_order;
          from_claims = (
            (Memᴰ.head refl, named, listed),
            later_claims bullets c claimed s (append_skill c s) (λ name. unlisted_before c s name)
                rest.skills rest.from_claims,
          );
          entries = λ category.
              rest.entries category
              ∙ ap (λ (l : List Str). l ++ names_in category rest.skills)
                  (entries_of-append_skill c s category)
              ∙ append_assoc (entries_of category s.by_category) (names_in category (c ∷ [])) _
              ∙ ap (λ (l : List Str). entries_of category s.by_category ++ l)
                  (sym (names_in-cons category c rest.skills));
          flagged = rest.flagged ∙ some_more s.added (any_added rest.skills);
          ordered = rest.ordered ∙ order-append_skill c rest.skills s;
        })
    | inr e ↦
        let rest = add_skills-Added bullets claimed s in
        rw e (record {
          skills = rest.skills;
          in_order = Sublistᴰ.cons rest.in_order;
          from_claims =
              later_claims bullets c claimed s s (λ name h. h) rest.skills rest.from_claims;
          entries = rest.entries;
          flagged = rest.flagged;
          ordered = rest.ordered;
        })
  ]
