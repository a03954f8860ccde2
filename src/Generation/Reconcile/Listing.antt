-- ===== src/Generation/Reconcile/Listing.antt =====
-- Every claimed skill that a bullet names is listed afterwards
-- (internal/generation/reconcile.go: the loop of reconcileSkills).
use mathlib.Core.Path.{subst}
use role_model.Prelude.{
  ◌≡◌, refl, sym, ap, ◌∙◌, ◌≢◌, Bool, true, false, ◌||◌, List, [], ◌∷◌, ◌++◌, append-nil, Memᴰ,
  Bool-cases, inl, inr, arith,
}
use role_model.GoText.{Str, str_eq, Unicode, to_lower}
use role_model.GoText.Maps.{lookup, assign}
use role_model.Generation.Words.{named_in, named_in_any}
use role_model.Generation.Words.Occurrence.{named_in_iff}
use role_model.Generation.Reconcile.{
  SkillView, Categories, Skills, entries_of, skill_already_listed, is_missing, add_skill,
  add_skills,
}

or_assoc : (x y z : Bool) → (x || (y || z)) ≡ ((x || y) || z)
or_assoc true y z = refl
or_assoc false y z = refl

or_nothing : (b : Bool) → (b || false) ≡ b
or_nothing true = refl
or_nothing false = refl

or_true : (b : Bool) → (b || true) ≡ true
or_true true = refl
or_true false = refl

module _ ⦃u : Unicode⦄ where
  -- A name that is not empty names itself.
  named_in_self : (name : Str) → name ≢ [] → named_in name name ≡ true
  named_in_self name h =
      (named_in_iff name name).1 (h, ([], [], sym (append-nil (to_lower name)), refl, refl))

  named_in-ne_nil : (text name : Str) → named_in text name ≡ true → name ≢ []
  named_in-ne_nil text name h = ((named_in_iff text name).0 h).0

  named_in_any-ne_nil : (texts : List Str) (name : Str) → named_in_any texts name ≡ true → name ≢ []
  unfolding named_in_any
  named_in_any-ne_nil [] name h = cc
  named_in_any-ne_nil (t ∷ texts) name h = elim (Bool-cases (named_in t name)) [
    | inl e ↦ named_in-ne_nil t name e
    | inr e ↦ named_in_any-ne_nil texts name (rw e at h)
  ]

  named_in_any-snoc :
      (values : List Str) (added name : Str)
      → named_in_any (values ++ added ∷ []) name ≡ (named_in_any values name || named_in added name)
  unfolding named_in_any
  named_in_any-snoc [] added name = ground arith
  named_in_any-snoc (v ∷ values) added name = ground (arith, named_in_any-snoc values added name)

  shuffle : (x y z : Bool) → ((x || z) || y) ≡ ((x || y) || z)
  shuffle true y z = refl
  shuffle false true true = refl
  shuffle false true false = refl
  shuffle false false true = refl
  shuffle false false false = refl

  nil_named : (category name : Str) → named_in_any (entries_of category []) name ≡ false
  unfolding named_in_any entries_of
  nil_named category name = refl

  pub entries_of-here :
      (category c : Str) (values : List Str) (m : Categories)
      → str_eq c category ≡ true
      → entries_of category ((c, values) ∷ m) ≡ values
  unfolding entries_of lookup
  entries_of-here category c values m e = rw e refl

  pub entries_of-later :
      (category c : Str) (values : List Str) (m : Categories)
      → str_eq c category ≡ false
      → entries_of category ((c, values) ∷ m) ≡ entries_of category m
  unfolding entries_of lookup
  entries_of-later category c values m e = rw e refl

  -- A category that gets other entries, which name what its entries named and perhaps more.
  listed_assign :
      (category name : Str) (new : List Str) (more : Bool) (m : Categories)
      → named_in_any new name ≡ (named_in_any (entries_of category m) name || more)
      → skill_already_listed (assign category new m) name ≡ (skill_already_listed m name || more)
  unfolding skill_already_listed assign
  listed_assign category name new more [] h =
      ap (λ b. b || false) (h ∙ ap (λ x. x || more) (nil_named category name)) ∙ or_nothing more
  listed_assign category name new more ((c, values) ∷ m) h = elim (Bool-cases (str_eq c category)) [
    | inl e ↦
        let here : named_in_any new name ≡ (named_in_any values name || more) =
          h ∙ ap (λ l. named_in_any l name || more) (entries_of-here category c values m e) in
        rw e (
          ap (λ b. b || skill_already_listed m name) here
          ∙ shuffle (named_in_any values name) (skill_already_listed m name) more)
    | inr e ↦
        let later : named_in_any new name ≡ (named_in_any (entries_of category m) name || more) =
          h ∙ ap (λ l. named_in_any l name || more) (entries_of-later category c values m e) in
        rw e (
          ap (λ b. named_in_any values name || b) (listed_assign category name new more m later)
          ∙ or_assoc (named_in_any values name) (skill_already_listed m name) more)
  ]

  -- A category that takes on a name.
  pub listed_after :
      (category added name : Str) (m : Categories)
      → skill_already_listed (assign category (entries_of category m ++ added ∷ []) m) name
        ≡ (skill_already_listed m name || named_in added name)
  listed_after category added name m =
      listed_assign category name (entries_of category m ++ added ∷ []) (named_in added name) m
        (named_in_any-snoc (entries_of category m) added name)

  -- Once a name is listed it stays listed.
  add_skill-keeps :
      (bullets : List Str) (skill : SkillView) (s : Skills) (name : Str)
      → skill_already_listed s.by_category name ≡ true
      → skill_already_listed (add_skill bullets skill s).by_category name ≡ true
  unfolding add_skill
  add_skill-keeps bullets skill s name h = elim (Bool-cases (is_missing bullets skill s)) [
    | inl e ↦ rw e (
        listed_after skill.category skill.name name s.by_category
        ∙ ap (λ b. b || named_in skill.name name) h)
    | inr e ↦ rw e h
  ]

  add_skills-keeps :
      (bullets : List Str) (claimed : List SkillView) (s : Skills) (name : Str)
      → skill_already_listed s.by_category name ≡ true
      → skill_already_listed (add_skills bullets claimed s).by_category name ≡ true
  unfolding add_skills
  add_skills-keeps bullets [] s name h = h
  add_skills-keeps bullets (c ∷ claimed) s name h =
      add_skills-keeps bullets claimed (add_skill bullets c s) name
        (add_skill-keeps bullets c s name h)

  -- The skill that the loop looks at is listed afterwards.
  add_skill-lists :
      (bullets : List Str) (skill : SkillView) (s : Skills)
      → named_in_any bullets skill.name ≡ true
      → skill_already_listed (add_skill bullets skill s).by_category skill.name ≡ true
  unfolding add_skill
  add_skill-lists bullets skill s h =
      elim (Bool-cases (skill_already_listed s.by_category skill.name)) [
        | inl e ↦ rw (e, e) refl
        | inr e ↦
            rw (e, h)
              (listed_after skill.category skill.name skill.name s.by_category
                ∙ ap (λ b. skill_already_listed s.by_category skill.name || b)
                    (named_in_self skill.name (named_in_any-ne_nil bullets skill.name h))
                ∙ or_true (skill_already_listed s.by_category skill.name))
      ]

  -- Every claimed skill that some bullet names is listed after the loop.
  pub add_skills-lists :
      (bullets : List Str) (claimed : List SkillView) (s : Skills) (skill : SkillView)
      → Memᴰ skill claimed
      → named_in_any bullets skill.name ≡ true
      → skill_already_listed (add_skills bullets claimed s).by_category skill.name ≡ true
  unfolding add_skills
  add_skills-lists bullets [] s skill m h = elim m [ ]
  add_skills-lists bullets (c ∷ claimed) s skill (Memᴰ.head e) h =
      add_skills-keeps bullets claimed (add_skill bullets c s) skill.name (
        subst (λ k. skill_already_listed (add_skill bullets k s).by_category skill.name ≡ true) e
          (add_skill-lists bullets skill s h))
  add_skills-lists bullets (c ∷ claimed) s skill (Memᴰ.tail m) h =
      add_skills-lists bullets claimed (add_skill bullets c s) skill m h
