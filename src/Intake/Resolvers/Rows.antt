-- ===== src/Intake/Resolvers/Rows.antt =====
-- The store after an insertion and after a tag is resolved (internal/intake/resolve.go: the
-- resolvers of the seven kinds; internal/intake/tags.go).
use mathlib.Core.Path.{subst}
use role_model.Prelude.{
  ℕ, ◌≡◌, refl, sym, ap, Bool, true, false, ◌||◌, List, [], ◌∷◌, ◌++◌, any, Option, none, some,
  ◌==◌, if◌then◌else◌, arith, Bool-cases, inl, inr, Memᴰ, any_of_mem, mem-append_right,
}
use role_model.Prelude.Int.{ℤ}
use role_model.GoText.{Str, is_empty, Unicode, trim_space}
use role_model.Intake.Dates.{Date}
use role_model.Intake.Payloads.{
  Kind, kind_employer, kind_position, kind_contribution, kind_skill, kind_preference,
  kind_education, kind_credential, TagRef, EmployerPayload, PositionPayload, ContributionPayload,
  SkillPayload, PreferencePayload, EducationPayload, CredentialPayload,
}
use role_model.Intake.Store.{
  TagCategory, Tag, Store, World, Outside, assign_tag, Action, ◌>>=◌, ◌>>◌, pure, execute, new_id,
}
use role_model.Intake.Store.Steps.{
  Yields, Yields-pure, Yields-bind, Yields->>, Yields-map, Yields-lift, Yields-query,
  Yields-execute, Yields-new_id,
}
use role_model.Intake.Store.Growth.{added, Grows, Grows-refl, Grows-trans, has_row}
use role_model.Intake.TagVocabulary.{
  create_tag_category, create_tag, resolve_category, create_missing_tag, resolve_or_create_tag,
  find_tag, category_named,
}
use role_model.Intake.Resolvers.{
  create_employer, create_position, create_contribution, tag_contribution, create_skill,
  create_preference, create_education, create_credential,
}

pub any_last :
    {A : Type 0} (p : A → Bool) (xs : List A) (x : A) → p x ≡ true → any p (xs ++ x ∷ []) ≡ true
any_last p xs x h = any_of_mem p x _ (mem-append_right x xs _ (Memᴰ.head refl)) h

eq_self : (n : ℕ) → (n == n) ≡ true
eq_self n = ground arith

-- The store has grown and holds the row.
abbrev pub Wrote : Kind → Store → ℕ → Store → Type 0
Wrote k s id s' = Grows s s' × (has_row k id s' ≡ true)

module _ ⦃u : Unicode⦄ ⦃o : Outside⦄ where
  -- An insertion with a new id.
  Yields-created :
      (Q : ℕ → Store → Type 0) (add : ℕ → Store → Store) (w : World)
      → ((id : ℕ) → Q id (add id w.store))
      → Yields Q (new_id >>= λ id. execute (add id) >> pure id) w
  Yields-created Q add w h =
      Yields-bind (λ id s. s ≡ w.store) Q _ _ w (Yields-new_id _ w λ id. refl)
        λ id w' e.
          Yields->> (λ t s. s ≡ add id w.store) Q _ _ w' (Yields-execute _ _ w' (ap (add id) e))
            λ t w'' e'. Yields-pure Q id w'' (subst (Q id) (sym e') (h id))

  pub create_employer-Wrote :
      (p : EmployerPayload) (w : World) → Yields (Wrote kind_employer w.store) (create_employer p) w
  unfolding create_employer has_row
  create_employer-Wrote p w = Yields-created _ _ w λ id. search (added, any_last, eq_self)

  pub create_position-Wrote :
      (p : PositionPayload) (e : ℕ) (d : Date) (d' : Option Date) (w : World)
      → Yields (Wrote kind_position w.store) (create_position p e d d') w
  unfolding create_position has_row
  create_position-Wrote p e d d' w = Yields-created _ _ w λ id. search (added, any_last, eq_self)

  pub create_contribution-Wrote :
      (p : ContributionPayload) (i : ℕ) (w : World)
      → Yields (Wrote kind_contribution w.store) (create_contribution p i) w
  unfolding create_contribution has_row
  create_contribution-Wrote p i w = Yields-created _ _ w λ id. search (added, any_last, eq_self)

  pub create_skill-Wrote :
      (p : SkillPayload) (i : ℕ) (y : Option Str) (w : World)
      → Yields (Wrote kind_skill w.store) (create_skill p i y) w
  unfolding create_skill has_row
  create_skill-Wrote p i y w = Yields-created _ _ w λ id. search (added, any_last, eq_self)

  pub create_preference-Wrote :
      (p : PreferencePayload) (w : World)
      → Yields (Wrote kind_preference w.store) (create_preference p) w
  unfolding create_preference has_row
  create_preference-Wrote p w = Yields-created _ _ w λ id. search (added, any_last, eq_self)

  pub create_education-Wrote :
      (p : EducationPayload) (d d' : Option Date) (w : World)
      → Yields (Wrote kind_education w.store) (create_education p d d') w
  unfolding create_education has_row
  create_education-Wrote p d d' w = Yields-created _ _ w λ id. search (added, any_last, eq_self)

  pub create_credential-Wrote :
      (p : CredentialPayload) (d d' : Option Date) (w : World)
      → Yields (Wrote kind_credential w.store) (create_credential p d d') w
  unfolding create_credential has_row
  create_credential-Wrote p d d' w = Yields-created _ _ w λ id. search (added, any_last, eq_self)

  create_tag_category-Grows :
      (name : Str) (n : ℤ) (w : World)
      → Yields (λ c s. Grows w.store s) (create_tag_category name n) w
  unfolding create_tag_category
  create_tag_category-Grows name n w =
      Yields-bind (λ id s. s ≡ w.store) _ _ _ w (Yields-new_id _ w λ id. refl)
        λ id w' e.
          Yields->> (λ t s. Grows w.store s) _ _ _ w' (Yields-execute _ _ w' (rw e (search added)))
            λ t w'' g. Yields-pure _ _ w'' g

  create_tag-Grows :
      (name category : Str) (w : World)
      → Yields (λ t s. Grows w.store s) (create_tag name category) w
  unfolding create_tag
  create_tag-Grows name category w =
      Yields-bind (λ id s. s ≡ w.store) _ _ _ w (Yields-new_id _ w λ id. refl)
        λ id w' e.
          Yields->> (λ t s. Grows w.store s) _ _ _ w' (Yields-execute _ _ w' (rw e (search added)))
            λ t w'' g. Yields-pure _ _ w'' g

  -- From an earlier store.
  abbrev pub Grew : {A : Type 0} → Store → A → Store → Type 0
  Grew s a s' = Grows s s'

  pub Grew-later :
      {A : Type 0} {s : Store} (m : Action A) (w : World)
      → Grows s w.store
      → Yields (Grew w.store) m w
      → Yields (Grew s) m w
  Grew-later m w g h = Yields-map _ _ m w h λ a s' g'. Grows-trans g g'

  pub Wrote-later :
      {s : Store} (k : Kind) (m : Action ℕ) (w : World)
      → Grows s w.store
      → Yields (Wrote k w.store) m w
      → Yields (Wrote k s) m w
  Wrote-later k m w g h = Yields-map _ _ m w h λ a s' r. (Grows-trans g r.0, r.1)

  resolve_category-Grows :
      (category : Str) (categories : List TagCategory) (w : World)
      → Yields (Grew w.store) (resolve_category category categories) w
  unfolding resolve_category
  resolve_category-Grows category categories w =
      elim (Bool-cases (is_empty (category_named [] category categories))) [
        | inl e ↦ rw e (create_tag_category-Grows _ _ w)
        | inr e ↦ rw e (Yields-pure (Grew w.store) _ w (Grows-refl _))
      ]

  create_missing_tag-Grows :
      (category name : Str) (w : World) → Yields (Grew w.store) (create_missing_tag category name) w
  unfolding create_missing_tag
  create_missing_tag-Grows category name w =
      Yields-bind (Grew w.store) _ _ _ w (Yields-query _ _ w (Grows-refl _)) λ cs w1 g1.
        Yields-bind (Grew w.store) _ _ _ w1
          (Grew-later _ w1 g1 (resolve_category-Grows category cs w1))
          λ c w2 g2. Grew-later _ w2 g2 (create_tag-Grows name c w2)

  tag_or_missing :
      (category name : Str) (found : Option Tag) (w : World)
      → Yields
          (Grew w.store)
          (elim found [ some t ↦ pure t | none ↦ create_missing_tag category name ])
          w
  tag_or_missing category name none w = create_missing_tag-Grows category name w
  tag_or_missing category name (some t) w = Yields-pure _ t w (Grows-refl _)

  pub resolve_or_create_tag-Grows :
      (category name : Str) (w : World)
      → Yields (Grew w.store) (resolve_or_create_tag category name) w
  unfolding resolve_or_create_tag
  resolve_or_create_tag-Grows category name w =
      elim (Bool-cases (is_empty (trim_space category) || is_empty (trim_space name))) [
        | inl e ↦ rw e (Yields-lift (Grew w.store) _ w λ a h. cc)
        | inr e ↦ rw e (
            Yields-bind (Grew w.store) _ _ _ w (Yields-query _ _ w (Grows-refl _)) λ tags w1 g1.
              Grew-later _ w1 g1 (tag_or_missing _ _ (find_tag (trim_space name) tags) w1))
      ]

  assign_tag-Grows : (i j : ℕ) (w : World) → Yields (Grew w.store) (assign_tag i j) w
  assign_tag-Grows i j w = Yields-execute _ _ w (assigned w.store (any _ w.store.contribution_tags))
    where
      assigned :
          (s : Store) (b : Bool)
          → Grows s
              (if b then s else record s { contribution_tags = s.contribution_tags ++ (i, j) ∷ [] })
      assigned s true = Grows-refl s
      assigned s false = search added

  pub tag_contribution-Grows :
      (id : ℕ) (refs : List TagRef) (w : World) → Yields (Grew w.store) (tag_contribution id refs) w
  unfolding tag_contribution
  tag_contribution-Grows id [] w = Yields-pure _ _ w (Grows-refl _)
  tag_contribution-Grows id (r ∷ refs) w =
      Yields-bind (Grew w.store) _ _ _ w (resolve_or_create_tag-Grows _ _ w) λ t w1 g1.
        Yields->> (Grew w.store) _ _ _ w1 (Grew-later _ w1 g1 (assign_tag-Grows id t.id w1))
          λ _ w2 g2. Grew-later _ w2 g2 (tag_contribution-Grows id refs w2)
