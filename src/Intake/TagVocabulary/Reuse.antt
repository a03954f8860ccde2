-- ===== src/Intake/TagVocabulary/Reuse.antt =====
-- Asking for a tag again (internal/intake/tags.go: ResolveOrCreateTag).
use mathlib.Core.Path.{subst}
use mathlib.Core.List.Memᴰ
use role_model.Prelude.{
  ◌≡◌, refl, sym, ◌∙◌, ◌↔◌, true, ◌||◌, List, [], ◌∷◌, map, some, Bool-cases, Option-cases, inl,
  inr, Memᴰ, mem-append_right, some_eq,
}
use role_model.Prelude.Results.{ok}
use role_model.GoText.{Str, is_empty, Unicode, equal_fold, trim_space}
use role_model.GoText.Equality.{eq_of_str_eq, str_eq_refl, str_eq_of_eq}
use role_model.Intake.Store.{Tag, Store, World, Outside, run, ◌>>=◌, pure, lift, query}
use role_model.Intake.Store.Steps.{
  Yields, Yields-ok, Yields-pure, Yields-bind, Yields->>, Yields-lift, Yields-query, Yields-execute,
  Yields-const,
}
use role_model.Intake.TagVocabulary.{
  find_tag, create_tag, create_missing_tag, resolve_or_create_tag,
}

-- A listing shows the rows that are there.
abbrev pub IsTagListing : Outside → Type 0
IsTagListing o = (rows : List Tag) (t : Tag) → Memᴰ t (o.arrange_tags rows) ↔ Memᴰ t rows

module _ ⦃u : Unicode⦄ where
  equal_fold_refl : (s : Str) → equal_fold s s ≡ true
  unfolding equal_fold
  equal_fold_refl s = str_eq_refl (map u.fold s)

  equal_fold_trans :
      (s t v : Str) → equal_fold s t ≡ true → equal_fold t v ≡ true → equal_fold s v ≡ true
  unfolding equal_fold
  equal_fold_trans s t v h k =
      str_eq_of_eq (map u.fold s) (map u.fold v) (
        eq_of_str_eq (map u.fold s) (map u.fold t) h ∙ eq_of_str_eq (map u.fold t) (map u.fold v) k)

  find_tag-some :
      (name : Str) (tags : List Tag) (t : Tag)
      → find_tag name tags ≡ some t
      → Memᴰ t tags × (equal_fold t.name name ≡ true)
  unfolding find_tag
  find_tag-some name [] t h = cc
  find_tag-some name (x ∷ tags) t h = elim (Bool-cases (equal_fold x.name name)) [
    | inl y ↦
        let q : x ≡ t = some_eq (rw y at h) in
        (Memᴰ.head (sym q), subst (λ v. equal_fold v.name name ≡ true) q y)
    | inr n ↦ let (m, e) = find_tag-some name tags t (rw n at h) in (Memᴰ.tail m, e)
  ]

  find_tag-found :
      (name : Str) (tags : List Tag) (t : Tag)
      → Memᴰ t tags
      → equal_fold t.name name ≡ true
      → (v : Tag) × (find_tag name tags ≡ some v)
  unfolding find_tag
  find_tag-found name [] t m e = elim m [ ]
  find_tag-found name (x ∷ tags) t m e = elim (Bool-cases (equal_fold x.name name)) [
    | inl y ↦ (x, rw y refl)
    | inr n ↦ elim (Memᴰ.cases_cons m) [
      | inl q ↦ let c = subst (λ v. equal_fold v.name name ≡ true) q e in cc
      | inr m' ↦ let (v, f) = find_tag-found name tags t m' e in (v, rw n f)
    ]
  ]

  -- The tag is there, under some spelling of the name.
  abbrev pub Has : Str → Tag → Store → Type 0
  Has name t s = Memᴰ t s.tags × (equal_fold t.name name ≡ true)

  module _ ⦃o : Outside⦄ (listing : IsTagListing o) where
    create_tag-Has :
        (name category : Str) (w : World) → Yields (Has name) (create_tag name category) w
    unfolding create_tag
    create_tag-Has name category w =
        Yields-bind (λ id s. Unit {0}) _ _ _ w (Yields-const _ _ w tt)
          λ id w1 _.
            Yields->> (λ _ s. Memᴰ (record { id = id; name = name; category = category }) s.tags) _
              _ _ w1 (Yields-execute _ _ w1 (mem-append_right _ w1.store.tags _ (Memᴰ.head refl)))
              λ _ w2 m. Yields-pure _ _ w2 (m, equal_fold_refl name)

    create_missing_tag-Has :
        (category name : Str) (w : World) → Yields (Has name) (create_missing_tag category name) w
    unfolding create_missing_tag
    create_missing_tag-Has category name w =
        Yields-bind (λ _ s. Unit {0}) _ _ _ w (Yields-const _ _ w tt)
          λ cs w1 _.
            Yields-bind (λ _ s. Unit {0}) _ _ _ w1 (Yields-const _ _ w1 tt)
              λ c w2 _. create_tag-Has name c w2

    resolve_or_create_tag-Has :
        (category name : Str) (w : World)
        → Yields (Has (trim_space name)) (resolve_or_create_tag category name) w
    unfolding resolve_or_create_tag
    resolve_or_create_tag-Has category name w =
        elim (Bool-cases (is_empty (trim_space category) || is_empty (trim_space name))) [
          | inl e ↦ rw e (Yields-lift (Has (trim_space name)) _ w λ a h. cc)
          | inr e ↦ rw e (
              Yields-bind (λ tags s. tags ≡ o.arrange_tags s.tags) _ _ _ w (Yields-query _ _ w refl)
                λ tags w1 q. elim (Option-cases (find_tag (trim_space name) tags)) [
                  | inl n ↦ rw n (create_missing_tag-Has _ _ w1)
                  | inr (t, y) ↦ rw y (
                      let (m, f) = find_tag-some (trim_space name) tags t y in
                      Yields-pure _ t w1 ((listing w1.store.tags t).0 (subst (Memᴰ t) q m), f))
                ])
        ]

    found_again :
        (category name : Str) (t : Tag) (w : World)
        → Has (trim_space name) t w.store
        → (run (resolve_or_create_tag category name) w).1.store ≡ w.store
    unfolding resolve_or_create_tag lift ◌>>=◌ pure query
    found_again category name t w h =
        elim (Bool-cases (is_empty (trim_space category) || is_empty (trim_space name))) [
          | inl e ↦ rw e refl
          | inr e ↦ elim (Bool-cases (o.fails w.calls)) [
            | inl f ↦ rw (e, f) refl
            | inr f ↦
                let (v, y) =
                  find_tag-found (trim_space name) (o.arrange_tags w.store.tags) t
                    ((listing w.store.tags t).1 h.0) h.1 in
                rw (e, f, y) refl
          ]
        ]

    -- Once a tag has been resolved, resolving it again writes nothing, in whatever case and with
    -- whatever outer space its name is spelled, and whatever category comes with it.
    pub resolve_or_create_tag_again :
        (category name again_category again : Str) (t : Tag) (w w' : World)
        → run (resolve_or_create_tag category name) w ≡ (ok t, w')
        → equal_fold (trim_space name) (trim_space again) ≡ true
        → (run (resolve_or_create_tag again_category again) w').1.store ≡ w'.store
    resolve_or_create_tag_again category name again_category again t w w' e same =
        let (m, f) =
          Yields-ok _ (resolve_or_create_tag category name) w
            (resolve_or_create_tag-Has category name w) t w' e in
        found_again again_category again t w' (m, equal_fold_trans t.name _ _ f same)
