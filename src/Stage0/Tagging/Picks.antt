-- ===== src/Stage0/Tagging/Picks.antt =====
-- Which tags are suggested (internal/stage0/service.go: resolveSuggestedTags).
use mathlib.Core.Path.{subst}
use role_model.Prelude.{
  ℕ, ◌≡◌, refl, sym, ap, ◌∙◌, Bool, true, false, ◌||◌, List, [], ◌∷◌, ◌++◌, map, any, Option, none,
  some, ◌==◌, if◌then◌else◌, Memᴰ, All, any-snoc, or_assoc, or_drop, Bool-cases, Option-cases,
  some_eq, inl, inr, arith, ==_iff,
}
use role_model.GoText.{Str, str_eq, Unicode}
use role_model.GoText.Maps.{lookup, assign, lookup-assign}
use role_model.Intake.Store.{Tag}
use role_model.Stage0.{SuggestedTag}
use role_model.Stage0.Tagging.{
  suggestion, is_picked, pick, pick_all, tag_key, tags_by_name, resolve_suggested_tags,
}

-- No tag stands twice in a list of suggestions.
abbrev pub Distinct : List SuggestedTag → Type 0
Distinct [] = Unit
Distinct (s ∷ out) = (is_picked s.tag_id out ≡ false) × Distinct out

-- There is a tag, and it is the one with the id.
abbrev pub is_tag : ℕ → Option Tag → Bool
is_tag id none = false
is_tag id (some t) = t.id == id

abbrev pub IsSuggestion : List Tag → SuggestedTag → Type 0
IsSuggestion tags s = (t : Tag) × Memᴰ t tags × (s ≡ suggestion t)

is_picked-append :
    (id : ℕ) (out : List SuggestedTag) (s : SuggestedTag)
    → is_picked id (out ++ s ∷ []) ≡ (is_picked id out || s.tag_id == id)
is_picked-append id out s = any-snoc (λ t. t.tag_id == id) out s

is_picked-pick :
    (id : ℕ) (o : Option Tag) (out : List SuggestedTag)
    → is_picked id (pick o out) ≡ (is_picked id out || is_tag id o)
is_picked-pick id none out = sym (or_drop (is_picked id out) false refl)
is_picked-pick id (some t) out = elim (Bool-cases (is_picked t.id out)) [
  | inr new ↦ rw new (is_picked-append id out (suggestion t))
  | inl old ↦ rw old (elim (Bool-cases (t.id == id)) [
    | inr other ↦ sym (or_drop (is_picked id out) (t.id == id) other)
    | inl same ↦
        let at_id : is_picked id out ≡ true =
          subst (λ n. is_picked n out ≡ true) ((==_iff t.id id).0 same) old in
        rw at_id refl
  ])
]

Distinct-append :
    (out : List SuggestedTag) (s : SuggestedTag)
    → Distinct out
    → is_picked s.tag_id out ≡ false
    → Distinct (out ++ s ∷ [])
Distinct-append [] s d e = (refl, tt)
Distinct-append (t ∷ out) s (f, d) e = elim (Bool-cases (t.tag_id == s.tag_id)) [
  | inl same ↦ cc (rw same at e)
  | inr apart ↦
      let away : is_picked s.tag_id out ≡ false = rw apart at e in
      let flipped : s.tag_id == t.tag_id ≡ false = ground arith in
      (is_picked-append t.tag_id out s ∙ or_drop _ _ flipped ∙ f, Distinct-append out s d away)
]

Distinct-pick : (o : Option Tag) (out : List SuggestedTag) → Distinct out → Distinct (pick o out)
Distinct-pick none out d = d
Distinct-pick (some t) out d = elim (Bool-cases (is_picked t.id out)) [
  | inl old ↦ rw old d
  | inr new ↦ rw new (Distinct-append out (suggestion t) d new)
]

module _ (P : SuggestedTag → Type 0) where
  All-snoc : (out : List SuggestedTag) (s : SuggestedTag) → All P out → P s → All P (out ++ s ∷ [])
  All-snoc [] s a p = (p, tt)
  All-snoc (t ∷ out) s (q, a) p = (q, All-snoc out s a p)

  All-pick :
      (o : Option Tag) (out : List SuggestedTag)
      → All P out
      → ((t : Tag) → o ≡ some t → P (suggestion t))
      → All P (pick o out)
  All-pick none out a p = a
  All-pick (some t) out a p = elim (Bool-cases (is_picked t.id out)) [
    | inl old ↦ rw old a
    | inr new ↦ rw new (All-snoc out (suggestion t) a (p t refl))
  ]

module _ (by_name : List (Str × Tag)) where
  pick_all-Distinct :
      (keys : List Str) (out : List SuggestedTag)
      → Distinct out
      → Distinct (pick_all by_name keys out)
  unfolding pick_all
  pick_all-Distinct [] out d = d
  pick_all-Distinct (k ∷ keys) out d =
      pick_all-Distinct keys _ (Distinct-pick (lookup k by_name) out d)

  pick_all-All :
      (P : SuggestedTag → Type 0)
      → ((k : Str) (t : Tag) → lookup k by_name ≡ some t → P (suggestion t))
      → (keys : List Str) (out : List SuggestedTag) → All P out
      → All P (pick_all by_name keys out)
  unfolding pick_all
  pick_all-All P p [] out a = a
  pick_all-All P p (k ∷ keys) out a =
      pick_all-All P p keys _ (All-pick P (lookup k by_name) out a (p k))

  is_picked-pick_all :
      (id : ℕ) (keys : List Str) (out : List SuggestedTag)
      → is_picked id (pick_all by_name keys out)
        ≡ (is_picked id out || any (λ k. is_tag id (lookup k by_name)) keys)
  unfolding pick_all
  is_picked-pick_all id [] out = sym (or_drop (is_picked id out) false refl)
  is_picked-pick_all id (k ∷ keys) out =
      is_picked-pick_all id keys (pick (lookup k by_name) out)
      ∙ ap (λ b. b || any (λ k. is_tag id (lookup k by_name)) keys)
          (is_picked-pick id (lookup k by_name) out)
      ∙ or_assoc (is_picked id out) (is_tag id (lookup k by_name)) _

abbrev latest : Option Tag → Option Tag → Option Tag
latest none earlier = earlier
latest (some t) earlier = some t

module _ ⦃u : Unicode⦄ where
  -- The last tag whose name is the key, up to case and outer space.
  abbrev pub last_tag : Str → List Tag → Option Tag
  last_tag key [] = none
  last_tag key (t ∷ tags) =
      latest (last_tag key tags) (if str_eq (tag_key t.name) key then some t else none)

  last_tag-mem : (key : Str) (tags : List Tag) (t : Tag) → last_tag key tags ≡ some t → Memᴰ t tags
  last_tag-mem key [] t e = cc
  last_tag-mem key (s ∷ tags) t e = elim (Option-cases (last_tag key tags)) [
    | inr (l, f) ↦ Memᴰ.tail (last_tag-mem key tags t (f ∙ (rw f at e)))
    | inl f ↦ elim (Bool-cases (str_eq (tag_key s.name) key)) [
      | inl g ↦ Memᴰ.head (sym (some_eq (rw (f, g) at e)))
      | inr g ↦ cc (rw (f, g) at e)
    ]
  ]

  lookup-tags_by_name :
      (key : Str) (tags : List Tag) (m : List (Str × Tag))
      → lookup key (tags_by_name tags m) ≡ latest (last_tag key tags) (lookup key m)
  unfolding tags_by_name
  lookup-tags_by_name key [] m = refl
  lookup-tags_by_name key (t ∷ tags) m =
      lookup-tags_by_name key tags (assign (tag_key t.name) t m)
      ∙ ap (latest (last_tag key tags)) (lookup-assign (tag_key t.name) key t m)
      ∙ regroup (last_tag key tags) (str_eq (tag_key t.name) key)
    where
      regroup :
          (o : Option Tag) (b : Bool)
          → latest o (if b then some t else lookup key m)
            ≡ latest (latest o (if b then some t else none)) (lookup key m)
      regroup none true = refl
      regroup none false = refl
      regroup (some l) b = refl

  -- A tag is suggested exactly when some name of the model, up to case and outer space, is that of
  -- a tag of the account and this is the last such tag; none is suggested twice, and every
  -- suggestion carries the name and the category of a tag of the account.
  pub resolve_suggested_tags_iff :
      (available : List Tag) (names : List Str)
      → ((id : ℕ)
          → is_picked id (resolve_suggested_tags available names)
            ≡ any (λ key. is_tag id (last_tag key available)) (map tag_key names))
        × Distinct (resolve_suggested_tags available names)
        × All (IsSuggestion available) (resolve_suggested_tags available names)
  unfolding lookup resolve_suggested_tags
  resolve_suggested_tags_iff available names =
      let by_name = tags_by_name available [] in
      let keys = map tag_key names in
      (
        (λ id. is_picked-pick_all by_name id keys [] ∙ same id keys),
        pick_all-Distinct by_name keys [] tt,
        pick_all-All by_name (IsSuggestion available)
            (λ k t e. (t, last_tag-mem k available t (sym (at_key k) ∙ e), refl)) keys [] tt,
      )
    where
      at_key : (key : Str) → lookup key (tags_by_name available []) ≡ last_tag key available
      at_key key = lookup-tags_by_name key available [] ∙ no_earlier (last_tag key available)
        where
          no_earlier : (o : Option Tag) → latest o none ≡ o
          no_earlier none = refl
          no_earlier (some t) = refl

      same :
          (id : ℕ) (keys : List Str)
          → any (λ k. is_tag id (lookup k (tags_by_name available []))) keys
            ≡ any (λ k. is_tag id (last_tag k available)) keys
      same id [] = refl
      same id (k ∷ keys) = rw (at_key k, same id keys) refl
