-- ===== src/Intake/Resolvers/Kinds.antt =====
-- The store after a draft of each kind (internal/intake/resolve.go: resolveOne).
use mathlib.Core.Path.{subst}
use role_model.Prelude.{
  ◌↔◌, ℕ, ◌≡◌, refl, sym, ap, ◌∙◌, List, [], ◌∷◌, none, some, arith, Bool-cases, Option-cases, inl,
  inr, Memᴰ, any_of_mem,
}
use role_model.Prelude.Results.{Result}
use role_model.GoText.{Str, Unicode, equal_fold}
use role_model.Intake.Payloads.{
  DraftError, Kind, kind_employer, kind_position, kind_contribution, kind_skill, kind_preference,
  kind_education, kind_credential, kind_other, kind_named, Json, EmployerPayload, PositionPayload,
  ContributionPayload, SkillPayload, PreferencePayload, EducationPayload, CredentialPayload,
}
use role_model.Intake.Ordering.{EntityDraft}
use role_model.Intake.Store.{Employer, Store, World, Outside, Action, ◌>>=◌, ◌>>◌, pure, lift}
use role_model.Intake.Store.Steps.{
  Yields, Yields-pure, Yields-bind, Yields->>, Yields-lift, Yields-query,
}
use role_model.Intake.Store.Growth.{Grows-refl, Grows-trans, has_row, has_row-Grows}
use role_model.Intake.Resolvers.{
  Resolved, find_employer, create_employer, write_employer, write_position, write_contribution,
  write_skill, write_preference, write_education, write_credential, resolve_kind, resolve_one,
}
use role_model.Intake.Resolvers.Rows.{
  Wrote, Wrote-later, Grew, create_employer-Wrote, create_position-Wrote, create_contribution-Wrote,
  create_skill-Wrote, create_preference-Wrote, create_education-Wrote, create_credential-Wrote,
  resolve_or_create_tag-Grows, tag_contribution-Grows,
}

-- A listing of employers shows no row that is not there, and one of drafts exactly those that are,
-- in whatever order.
pub record IsListing (o : Outside) : Type 0 where
  pub employers :
      (rows : List Employer) (e : Employer) → Memᴰ e (o.arrange_employers rows) → Memᴰ e rows
  pub drafts :
      (rows : List EntityDraft) (d : EntityDraft) → Memᴰ d (o.arrange_drafts rows) ↔ Memᴰ d rows

module _ ⦃u : Unicode⦄ ⦃o : Outside⦄ where
  find_employer-mem :
      (name : Str) (es : List Employer) (id : ℕ)
      → find_employer name es ≡ some id
      → (e : Employer) × Memᴰ e es × (e.id ≡ id)
  unfolding find_employer
  find_employer-mem name [] id h = cc
  find_employer-mem name (e ∷ es) id h = elim (Bool-cases (equal_fold e.name name)) [
    | inl y ↦ (e, Memᴰ.head refl, ground arith)
    | inr n ↦ let (f, m, q) = find_employer-mem name es id (rw n at h) in (f, Memᴰ.tail m, q)
  ]

  at_store :
      {s : Store} (k : Kind) (m : Action ℕ) (w : World)
      → w.store ≡ s
      → Yields (Wrote k w.store) m w
      → Yields (Wrote k s) m w
  at_store k m w e h = subst (λ s. Yields (Wrote k s) m w) e h

  -- A step that only computes.
  after_lift :
      {A : Type 0} (k : Kind) (r : Result DraftError A) (f : A → Action ℕ) (w : World)
      → ((a : A) (w' : World) → Yields (Wrote k w'.store) (f a) w')
      → Yields (Wrote k w.store) (lift r >>= f) w
  after_lift k r f w h =
      Yields-bind (λ a s. s ≡ w.store) _ _ f w (Yields-lift _ r w λ a e. refl)
        λ a w' e. at_store k _ w' e (h a w')

  after_check :
      {A : Type 0} (k : Kind) (r : Result DraftError A) (m : Action ℕ) (w : World)
      → ((w' : World) → Yields (Wrote k w'.store) m w')
      → Yields (Wrote k w.store) (lift r >> m) w
  after_check k r m w h =
      Yields->> (λ a s. s ≡ w.store) _ _ m w (Yields-lift _ r w λ a e. refl)
        λ a w' e. at_store k _ w' e (h w')

  write_position-Wrote :
      (resolved : Resolved) (p : PositionPayload) (w : World)
      → Yields (Wrote kind_position w.store) (write_position resolved p) w
  unfolding write_position
  write_position-Wrote resolved p w = after_lift _ _ _ w λ e w1.
      after_lift _ _ _ w1 λ d w2. after_lift _ _ _ w2 λ d' w3. create_position-Wrote p e d d' w3

  write_preference-Wrote :
      (p : PreferencePayload) (w : World)
      → Yields (Wrote kind_preference w.store) (write_preference p) w
  unfolding write_preference
  write_preference-Wrote p w = after_check _ _ _ w λ w1. create_preference-Wrote p w1

  write_education-Wrote :
      (p : EducationPayload) (w : World)
      → Yields (Wrote kind_education w.store) (write_education p) w
  unfolding write_education
  write_education-Wrote p w = after_check _ _ _ w λ w1.
      after_lift _ _ _ w1 λ d w2. after_lift _ _ _ w2 λ d' w3. create_education-Wrote p d d' w3

  write_credential-Wrote :
      (p : CredentialPayload) (w : World)
      → Yields (Wrote kind_credential w.store) (write_credential p) w
  unfolding write_credential
  write_credential-Wrote p w = after_check _ _ _ w λ w1.
      after_lift _ _ _ w1 λ d w2. after_lift _ _ _ w2 λ d' w3. create_credential-Wrote p d d' w3

  write_skill-Wrote :
      (p : SkillPayload) (w : World) → Yields (Wrote kind_skill w.store) (write_skill p) w
  unfolding write_skill
  write_skill-Wrote p w =
      Yields-bind (Grew w.store) _ _ _ w (resolve_or_create_tag-Grows _ _ w) λ t w1 g.
        Wrote-later _ _ w1 g
          (after_check _ _ _ w1 λ w2. after_lift _ _ _ w2 λ y w3. create_skill-Wrote p t.id y w3)

  write_contribution-Wrote :
      (resolved : Resolved) (p : ContributionPayload) (w : World)
      → Yields (Wrote kind_contribution w.store) (write_contribution resolved p) w
  unfolding write_contribution
  write_contribution-Wrote resolved p w = after_lift _ _ _ w λ i w1. after_check _ _ _ w1 λ w2.
      Yields-bind (Wrote kind_contribution w2.store) _ _ _ w2 (create_contribution-Wrote p i w2)
        λ id w3 h.
          Yields->> (Grew w3.store) _ _ _ w3 (tag_contribution-Grows id p.tags w3) λ _ w4 g.
            Yields-pure _ id w4 (Grows-trans h.0 g, has_row-Grows kind_contribution id g h.1)

  module _ (listing : IsListing o) where
    reused :
        (name : Str) (p : EmployerPayload) (rows : List Employer) (w : World)
        → rows ≡ o.arrange_employers w.store.employers
        → Yields
            (Wrote kind_employer w.store)
            (elim (find_employer name rows) [ some id ↦ pure id | none ↦ create_employer p ])
            w
    unfolding has_row
    reused name p rows w e = elim (Option-cases (find_employer name rows)) [
      | inl n ↦ rw n (create_employer-Wrote p w)
      | inr (id, y) ↦ rw y (
          let (r, m, q) = find_employer-mem name rows id y in
          Yields-pure _ id w (
            Grows-refl _,
            any_of_mem _ r _ (listing.employers _ r (subst (Memᴰ r) e m)) (ground arith),
          ))
    ]

    write_employer-Wrote :
        (p : EmployerPayload) (w : World)
        → Yields (Wrote kind_employer w.store) (write_employer p) w
    unfolding write_employer
    write_employer-Wrote p w = after_check _ _ _ w λ w1.
        Yields-bind (λ rows s. (s ≡ w1.store) × (rows ≡ o.arrange_employers w1.store.employers)) _ _
          _ w1 (Yields-query _ _ w1 (refl, refl))
          λ rows w2 h.
            at_store _ _ w2 h.0
              (reused p.name p rows w2 (h.1 ∙ ap (λ s. o.arrange_employers s.employers) (sym h.0)))

    module _ ⦃j : Json⦄ where
      pub resolve_kind-Wrote :
          (k : Kind) (d : EntityDraft) (resolved : Resolved) (w : World)
          → Yields (Wrote k w.store) (resolve_kind k d resolved) w
      unfolding resolve_kind
      resolve_kind-Wrote kind_employer d r w = after_lift _ _ _ w λ p w1. write_employer-Wrote p w1
      resolve_kind-Wrote kind_position d r w =
          after_lift _ _ _ w λ p w1. write_position-Wrote r p w1
      resolve_kind-Wrote kind_contribution d r w =
          after_lift _ _ _ w λ p w1. write_contribution-Wrote r p w1
      resolve_kind-Wrote kind_skill d r w = after_lift _ _ _ w λ p w1. write_skill-Wrote p w1
      resolve_kind-Wrote kind_preference d r w =
          after_lift _ _ _ w λ p w1. write_preference-Wrote p w1
      resolve_kind-Wrote kind_education d r w =
          after_lift _ _ _ w λ p w1. write_education-Wrote p w1
      resolve_kind-Wrote kind_credential d r w =
          after_lift _ _ _ w λ p w1. write_credential-Wrote p w1
      resolve_kind-Wrote kind_other d r w = Yields-lift (Wrote kind_other w.store) _ w λ a e. cc

      -- Resolving one draft changes no row that is there and no draft, and the id it gives is that
      -- of a row in the table of the draft's kind.
      pub resolve_one-Wrote :
          (d : EntityDraft) (resolved : Resolved) (w : World)
          → Yields (Wrote (kind_named d.kind) w.store) (resolve_one d resolved) w
      unfolding resolve_one
      resolve_one-Wrote d resolved w = resolve_kind-Wrote (kind_named d.kind) d resolved w
