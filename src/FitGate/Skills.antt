-- ===== src/FitGate/Skills.antt =====
-- How the skills of a profile answer one requirement (internal/fitgate/scorer.go: satisfies,
-- appendUnique, evidenceNames, MatchKind).
-- The first two layers run one pair of loops with two tests; the third returns at its first hit.
pub mod Layers
pub mod Evidence
use role_model.Prelude.{
  Bool, true, false, ◌&&◌, not, List, [], ◌∷◌, ◌++◌, map, Option, none, some, if◌then◌else◌,
}
use role_model.GoText.{Str, str_eq, is_empty, Unicode}
use role_model.FitGate.Alternatives.{split_alternatives}
use role_model.FitGate.Signals.{SkillTerm}
use role_model.FitGate.Matching.{matches_term}

pub data MatchKind : Type 0 where
  direct alias category : MatchKind

pub record Answer : Type 0 where
  pub kind : MatchKind
  pub category : Str
  pub evidence : List SkillTerm

abbrev pub is_nil {ℓ} : {A : Type ℓ} → List A → Bool
is_nil [] = true
is_nil (x ∷ xs) = false

unfoldable pub named_in : List SkillTerm → SkillTerm → Bool
named_in [] v = false
named_in (s ∷ out) v = if str_eq s.name v.name then true else named_in out v

unfoldable pub append_unique : List SkillTerm → SkillTerm → List SkillTerm
append_unique out v = if named_in out v then out else out ++ v ∷ []

unfoldable pub evidence_names : List SkillTerm → List Str
evidence_names evidence = map (λ s. s.name) evidence

-- `for _, s := range skills { if test(s, alt) { evidence = appendUnique(evidence, s) } }`
unfoldable pub gather_skills : (SkillTerm → Bool) → List SkillTerm → List SkillTerm → List SkillTerm
gather_skills test [] evidence = evidence
gather_skills test (s ∷ skills) evidence =
    gather_skills test skills (if test s then append_unique evidence s else evidence)

unfoldable pub gather :
    (Str → SkillTerm → Bool) → List Str → List SkillTerm → List SkillTerm → List SkillTerm
gather test [] skills evidence = evidence
gather test (alt ∷ alts) skills evidence =
    gather test alts skills (gather_skills (test alt) skills evidence)

module _ ⦃u : Unicode⦄ where
  abbrev pub answers_by_name : Str → SkillTerm → Bool
  answers_by_name alt s = matches_term (s.name ∷ []) alt

  abbrev pub answers_by_alias : Str → SkillTerm → Bool
  answers_by_alias alt s = matches_term s.aliases alt

  abbrev pub answers_by_category : Str → SkillTerm → Bool
  answers_by_category alt s =
      not (is_empty s.category) && matches_term (s.category ∷ s.category_aliases) alt

  -- The first skill whose category answers the alternative.
  unfoldable pub first_category : Str → List SkillTerm → Option SkillTerm
  first_category alt [] = none
  first_category alt (s ∷ skills) =
      if answers_by_category alt s then some s else first_category alt skills

  unfoldable pub first_category_of : List Str → List SkillTerm → Option SkillTerm
  unfolding first_category
  first_category_of [] skills = none
  first_category_of (alt ∷ alts) skills = elim (first_category alt skills) [
    | some s ↦ some s
    | none ↦ first_category_of alts skills
  ]

  -- The evidence of a category: every skill in it.
  abbrev pub peers : Str → List SkillTerm → List SkillTerm
  peers c skills = gather_skills (λ peer. str_eq peer.category c) skills []

  -- `none` where the source returns ok = false.
  unfoldable pub satisfies : List SkillTerm → Str → Option Answer
  satisfies skills entry =
      let alts = split_alternatives entry in
      let by_name = gather answers_by_name alts skills [] in
      let by_alias = gather answers_by_alias alts skills [] in
      if not (is_nil by_name)
      then some (record { kind = direct; category = []; evidence = by_name })
      else if not (is_nil by_alias)
      then some (record { kind = alias; category = []; evidence = by_alias })
      else elim (first_category_of alts skills) [
        | none ↦ none
        | some s ↦
            some (record {
              kind = category;
              category = s.category;
              evidence = peers s.category skills;
            })
      ]
