-- ===== src/Generation/Reconcile/Ordering.antt =====
-- The order of the categories, and that it reaches every entry of the section
-- (internal/generation/reconcile.go: reconcileSkills, decodeOrderedSkills, encodeOrderedSkills).
use mathlib.Core.Path.{subst}
use role_model.Prelude.{
  ◌≡◌, refl, sym, ap, ◌∙◌, Bool, true, false, ◌||◌, List, [], ◌∷◌, ◌++◌, append_assoc, Memᴰ,
  mem-map, any_of_mem, Bool-cases, inl, inr, if◌then◌else◌,
}
use role_model.GoText.{Str, str_eq, Unicode}
use role_model.GoText.Equality.{eq_of_str_eq, str_eq_refl, str_eq_sym}
use role_model.GoText.Maps.{lookup, assign, lookup-assign}
use role_model.Generation.Words.{named_in_any}
use role_model.Generation.Reconcile.{
  SkillView, Categories, Skills, start_skills, collect_skills, is_known, entries_of, encode_ordered,
  skill_already_listed, is_missing, append_skill, add_skill, add_skills,
}
use role_model.Generation.Reconcile.Listing.{entries_of-here, entries_of-later}

-- The categories of the skills that are not known, in the order of their first skills.
abbrev pub new_categories : (Str → Bool) → List SkillView → List Str
new_categories known [] = []
new_categories known (k ∷ ks) =
    let later = new_categories (λ c. str_eq k.category c || known c) ks in
    if known k.category then later else k.category ∷ later

new_categories-ext :
    (f g : Str → Bool) (ks : List SkillView)
    → ((c : Str) → f c ≡ g c)
    → new_categories f ks ≡ new_categories g ks
new_categories-ext f g [] h = refl
new_categories-ext f g (k ∷ ks) h =
    let later =
      new_categories-ext (λ c. str_eq k.category c || f c) (λ c. str_eq k.category c || g c) ks
        (λ c. ap (λ b. str_eq k.category c || b) (h c)) in
    rw (h k.category, later) refl

abbrev pub knows : Categories → Str → Bool
knows m c = is_known (lookup c m)

knows-assign :
    (k c : Str) (values : List Str) (m : Categories)
    → knows (assign k values m) c ≡ (str_eq k c || knows m c)
knows-assign k c values m = elim (Bool-cases (str_eq k c)) [
  | inl e ↦ rw (lookup-assign k c values m, e) refl
  | inr e ↦ rw (lookup-assign k c values m, e) refl
]

knows-here : (k : Str) (values : List Str) (m : Categories) → knows ((k, values) ∷ m) k ≡ true
unfolding lookup
knows-here k values m = rw (str_eq_refl k) refl

knows-later :
    (c k : Str) (values : List Str) (m : Categories)
    → str_eq k c ≡ false
    → knows ((k, values) ∷ m) c ≡ knows m c
unfolding lookup
knows-later c k values m e = rw e refl

-- No key comes twice.
abbrev UniqueKeys : Categories → Type 0
UniqueKeys [] = Unit {0}
UniqueKeys ((k, values) ∷ m) = (knows m k ≡ false) × UniqueKeys m

UniqueKeys-assign :
    (k : Str) (values : List Str) (m : Categories) → UniqueKeys m → UniqueKeys (assign k values m)
unfolding assign lookup
UniqueKeys-assign k values [] h = (refl, tt)
UniqueKeys-assign k values ((j, w) ∷ m) h = elim (Bool-cases (str_eq j k)) [
  | inl e ↦ rw e (subst (λ i. knows m i ≡ false) refl h.0, h.1)
  | inr e ↦
      rw e
        (knows-assign k j values m ∙ rw (str_eq_sym k j, e) h.0, UniqueKeys-assign k values m h.1)
]

-- The order lists every category, and no category comes twice in the map.
record Whole (s : Skills) : Type 0 where
  unique : UniqueKeys s.by_category
  ordered : (c : Str) → knows s.by_category c ≡ true → Memᴰ c s.order

mem-append_left : (c : Str) (xs ys : List Str) → Memᴰ c xs → Memᴰ c (xs ++ ys)
mem-append_left c [] ys m = elim m [ ]
mem-append_left c (x ∷ xs) ys (Memᴰ.head e) = Memᴰ.head e
mem-append_left c (x ∷ xs) ys (Memᴰ.tail m) = Memᴰ.tail (mem-append_left c xs ys m)

mem-snoc : (c k : Str) (xs : List Str) → str_eq k c ≡ true → Memᴰ c (xs ++ k ∷ [])
mem-snoc c k [] e = Memᴰ.head (sym (eq_of_str_eq k c e))
mem-snoc c k (x ∷ xs) e = Memᴰ.tail (mem-snoc c k xs e)

-- A key that is assigned is added to the order, or was in it.
ordered-assign :
    (k : Str) (values : List Str) (m : Categories) (order order' : List Str)
    → ((c : Str) → knows m c ≡ true → Memᴰ c order')
    → (str_eq k k ≡ true → Memᴰ k order')
    → (c : Str) → knows (assign k values m) c ≡ true
    → Memᴰ c order'
ordered-assign k values m order order' old new c h = elim (Bool-cases (str_eq k c)) [
  | inl e ↦ subst (λ i. Memᴰ i order') (eq_of_str_eq k c e) (new (str_eq_refl k))
  | inr e ↦ old c (sym (rw e at (knows-assign k c values m)) ∙ h)
]

collect_skills-Whole :
    (fields : Categories) (s : Skills) → Whole s → Whole (collect_skills fields s)
unfolding collect_skills
collect_skills-Whole [] s w = w
collect_skills-Whole ((k, values) ∷ fields) s w = collect_skills-Whole fields _ (record {
  unique = UniqueKeys-assign k values s.by_category w.unique;
  ordered =
      ordered-assign k values s.by_category s.order (s.order ++ k ∷ [])
        (λ c h. mem-append_left c s.order (k ∷ []) (w.ordered c h)) (mem-snoc k k s.order);
})

start_skills-Whole : Whole start_skills
unfolding lookup
start_skills-Whole = record { unique = tt; ordered = λ c h. cc }

module _ ⦃u : Unicode⦄ where
  append_skill-Whole : (skill : SkillView) (s : Skills) → Whole s → Whole (append_skill skill s)
  append_skill-Whole skill s w =
      let k = skill.category in
      let values = entries_of k s.by_category ++ skill.name ∷ [] in
      record {
        unique = UniqueKeys-assign k values s.by_category w.unique;
        ordered = elim (Bool-cases (knows s.by_category k)) [
          | inl e ↦
              rw e (
                ordered-assign k values s.by_category s.order s.order w.ordered
                  (λ h. w.ordered k e))
          | inr e ↦ rw e (
              ordered-assign k values s.by_category s.order (s.order ++ k ∷ [])
                (λ c h. mem-append_left c s.order (k ∷ []) (w.ordered c h)) (mem-snoc k k s.order))
        ];
      }

  -- One skill is added: its category comes at the end unless it is known.
  pub order-append_skill :
      (skill : SkillView) (ks : List SkillView) (s : Skills)
      → (append_skill skill s).order ++ new_categories (knows (append_skill skill s).by_category) ks
        ≡ s.order ++ new_categories (knows s.by_category) (skill ∷ ks)
  order-append_skill skill ks s =
      let k = skill.category in
      let values = entries_of k s.by_category ++ skill.name ∷ [] in
      let later =
        new_categories-ext (knows (assign k values s.by_category))
          (λ c. str_eq k c || knows s.by_category c) ks
          (λ c. knows-assign k c values s.by_category) in
      elim (Bool-cases (knows s.by_category k)) [
        | inl e ↦ rw (e, later) refl
        | inr e ↦ rw (e, later) (append_assoc s.order (k ∷ []) _)
      ]

  add_skills-Whole :
      (bullets : List Str) (claimed : List SkillView) (s : Skills)
      → Whole s
      → Whole (add_skills bullets claimed s)
  unfolding add_skills add_skill
  add_skills-Whole bullets [] s w = w
  add_skills-Whole bullets (c ∷ claimed) s w = elim (Bool-cases (is_missing bullets c s)) [
    | inl e ↦ rw e (add_skills-Whole bullets claimed (append_skill c s) (append_skill-Whole c s w))
    | inr e ↦ rw e (add_skills-Whole bullets claimed s w)
  ]

  -- An entry that names a skill stands under its category.
  found_under :
      (m : Categories) (name : Str)
      → UniqueKeys m
      → skill_already_listed m name ≡ true
      → (c : Str) × (knows m c ≡ true) × (named_in_any (entries_of c m) name ≡ true)
  unfolding skill_already_listed
  found_under [] name unique h = cc
  found_under ((k, values) ∷ m) name unique h = elim (Bool-cases (named_in_any values name)) [
    | inl e ↦ (k, knows-here k values m, rw (entries_of-here k k values m (str_eq_refl k)) e)
    | inr e ↦
        let (c, known, named) = found_under m name unique.1 (rw e at h) in
        elim (Bool-cases (str_eq k c)) [
          | inl same ↦
              let no : knows m c ≡ false =
                subst (λ i. knows m i ≡ false) (eq_of_str_eq k c same) unique.0 in
              cc
          | inr apart ↦ (
            c,
            knows-later c k values m apart ∙ known,
            rw (entries_of-later c k values m apart) named,
          )
        ]
  ]

  -- What is listed by category is listed in the object that is written.
  listed-encode_ordered :
      (s : Skills) (name : Str)
      → Whole s
      → skill_already_listed s.by_category name ≡ true
      → skill_already_listed (encode_ordered s.order s.by_category) name ≡ true
  unfolding encode_ordered
  listed-encode_ordered s name w h =
      let (c, known, named) = found_under s.by_category name w.unique h in
      unfold skill_already_listed in
      any_of_mem (λ entry. named_in_any entry.1 name) (c, entries_of c s.by_category) _
        (mem-map (λ category. (category, entries_of category s.by_category)) c s.order
          (w.ordered c known))
        named

  -- What the loop lists, it lists in the object that is written.
  pub add_skills-listed :
      (fields : Categories) (bullets : List Str) (claimed : List SkillView) (name : Str)
      → let after = add_skills bullets claimed (collect_skills fields start_skills) in
        skill_already_listed after.by_category name ≡ true
        → skill_already_listed (encode_ordered after.order after.by_category) name ≡ true
  add_skills-listed fields bullets claimed name h =
      listed-encode_ordered _ name
        (add_skills-Whole bullets claimed _ (collect_skills-Whole fields _ start_skills-Whole)) h
