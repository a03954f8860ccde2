-- ===== src/Intake/TagVocabulary.antt =====
-- Finding or creating a tag and its category (internal/intake/tags.go: ResolveOrCreateTag).
pub mod Reuse
use role_model.Prelude.{
  zero, suc, ◌+◌, ◌||◌, List, [], ◌∷◌, ◌++◌, Option, none, some, ◌==◌, if◌then◌else◌,
}
use role_model.Prelude.Int.{ℤ, pos, negsuc, ltb_ℤ}
use role_model.Prelude.Results.{err}
use role_model.GoText.{Str, codes, is_empty, Unicode, equal_fold, trim_space}
use role_model.Intake.Payloads.{required}
use role_model.Intake.Store.{
  TagCategory, Tag, Outside, Action, ◌>>=◌, ◌>>◌, pure, lift, execute, new_id, list_tags,
  list_tag_categories,
}

-- `maxSort + 1` on int32.
unfoldable pub next_sort : ℤ → ℤ
next_sort (pos n) = if n == 2147483647 then negsuc 2147483647 else pos (n + 1)
next_sort (negsuc zero) = pos 0
next_sort (negsuc (suc n)) = negsuc n

module _ ⦃u : Unicode⦄ where
  unfoldable pub find_tag : Str → List Tag → Option Tag
  find_tag name [] = none
  find_tag name (t ∷ tags) = if equal_fold t.name name then some t else find_tag name tags

  -- categoryName: the last category that spells the name, or empty.
  unfoldable pub category_named : Str → Str → List TagCategory → Str
  category_named best category [] = best
  category_named best category (c ∷ categories) =
      category_named (if equal_fold c.name category then c.name else best) category categories

  unfoldable pub max_sort : ℤ → List TagCategory → ℤ
  max_sort best [] = best
  max_sort best (c ∷ categories) =
      max_sort (if ltb_ℤ best c.sort_order then c.sort_order else best) categories

  module _ ⦃o : Outside⦄ where
    unfoldable pub create_tag_category : Str → ℤ → Action Str
    create_tag_category name sort_order = do
      id ← new_id
      execute (λ s. record s {
        tag_categories =
            s.tag_categories ++ record { id = id; name = name; sort_order = sort_order } ∷ [];
      })
      pure name

    unfoldable pub create_tag : Str → Str → Action Tag
    create_tag name category = do
      id ← new_id
      execute (λ s. record s {
        tags = s.tags ++ record { id = id; name = name; category = category } ∷ [];
      })
      pure (record { id = id; name = name; category = category })

    -- The name of the category as it is stored, which is created when it is missing.
    unfoldable pub resolve_category : Str → List TagCategory → Action Str
    resolve_category category categories =
        let found = category_named [] category categories in
        if is_empty found
        then create_tag_category category (next_sort (max_sort (pos 0) categories))
        else pure found

    unfoldable pub create_missing_tag : Str → Str → Action Tag
    create_missing_tag category name = do
      categories ← list_tag_categories
      category_name ← resolve_category category categories
      create_tag name category_name

    unfoldable pub resolve_or_create_tag : Str → Str → Action Tag
    resolve_or_create_tag category' name' =
        let category = trim_space category' in
        let name = trim_space name' in
        if is_empty category || is_empty name
        then lift (err (required (codes "category and name")))
        else list_tags >>= λ tags. elim (find_tag name tags) [
          | some t ↦ pure t
          | none ↦ create_missing_tag category name
        ]
