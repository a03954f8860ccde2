-- ===== src/Generation/Reconcile/Document.antt =====
-- What reconciliation does to the document (internal/generation/reconcile.go: reconcileSkills).
use role_model.Prelude.{◌≡◌, true, false, List, Memᴰ, some, if◌then◌else◌}
use role_model.Prelude.Results.{ok}
use role_model.GoText.{Str, codes, str_eq, Unicode}
use role_model.GoText.Maps.{lookup}
use role_model.Generation.Words.{named_in_any}
use role_model.Generation.Reconcile.{
  SkillView, DocumentJson, Fields, Skills, encode_ordered, collect_bullet_text,
  decode_ordered_skills, skill_already_listed,
}
use role_model.Generation.Reconcile.Additions.{any_added, Added}

module _ ⦃u : Unicode⦄ ⦃j : DocumentJson⦄ where
  -- The skills that the section of the document holds, with those that were added to it.
  pub record Reconciled (doc : Fields) (claimed : List SkillView) (raw : Str) (doc' : Fields)
      : Type 0 where
    pub before : Skills
    pub after : Skills
    pub bullets : List Str
    pub decoded : decode_ordered_skills raw ≡ ok before
    pub collected : collect_bullet_text doc ≡ ok bullets
    pub added : Added bullets claimed before after
    pub lists :
        (skill : SkillView)
        → Memᴰ skill claimed
        → named_in_any bullets skill.name ≡ true
        → skill_already_listed (encode_ordered after.order after.by_category) skill.name ≡ true
    pub stored : lookup (codes "skills") doc' ≡ (
        if any_added added.skills
        then some (j.write_skills (encode_ordered after.order after.by_category))
        else some raw)
    pub others :
        (field : Str) → str_eq (codes "skills") field ≡ false → lookup field doc' ≡ lookup field doc
