-- ===== src/FitGate/Skills/Layers.antt =====
-- The three layers of satisfies (internal/fitgate/scorer.go).
use mathlib.Core.Option
use role_model.Prelude.{
  ◌≡◌, refl, ◌∙◌, Bool, true, false, ◌&&◌, ◌||◌, not, List, [], ◌∷◌, any, Option, none, some,
  Bool-cases, inl, inr, if◌then◌else◌, Memᴰ, mem_of_any, any_of_mem, arith,
}
use role_model.GoText.{Str, Unicode}
use role_model.FitGate.Alternatives.{split_alternatives}
use role_model.FitGate.Signals.{SkillTerm}
use role_model.FitGate.Skills.{
  MatchKind, direct, alias, category, is_nil, named_in, append_unique, gather_skills, gather,
  answers_by_name, answers_by_alias, answers_by_category, first_category, first_category_of,
  satisfies,
}

is_nil-append_unique : (out : List SkillTerm) (v : SkillTerm) → is_nil (append_unique out v) ≡ false
unfolding append_unique named_in
is_nil-append_unique [] v = refl
is_nil-append_unique (s ∷ out) v = ground arith

pub is_nil-gather_skills :
    (test : SkillTerm → Bool) (skills evidence : List SkillTerm)
    → is_nil (gather_skills test skills evidence) ≡ is_nil evidence && not (any test skills)
unfolding gather_skills
is_nil-gather_skills test [] evidence = ground arith
is_nil-gather_skills test (s ∷ skills) evidence = elim (Bool-cases (test s)) [
  | inl e ↦ rw e (
      is_nil-gather_skills test skills (append_unique evidence s)
      ∙ rw (is_nil-append_unique evidence s) (ground arith))
  | inr e ↦ rw e (is_nil-gather_skills test skills evidence)
]

-- Some alternative is answered by some skill.
abbrev pub any_pair : (Str → SkillTerm → Bool) → List Str → List SkillTerm → Bool
any_pair test alts skills = any (λ alt. any (test alt) skills) alts

is_nil-gather :
    (test : Str → SkillTerm → Bool) (alts : List Str) (skills evidence : List SkillTerm)
    → is_nil (gather test alts skills evidence) ≡ is_nil evidence && not (any_pair test alts skills)
unfolding gather
is_nil-gather test [] skills evidence = ground arith
is_nil-gather test (alt ∷ alts) skills evidence =
    is_nil-gather test alts skills (gather_skills (test alt) skills evidence)
    ∙ rw (is_nil-gather_skills (test alt) skills evidence) (ground arith)

module _ ⦃u : Unicode⦄ where
  abbrev pub is_some {ℓ} : {A : Type ℓ} → Option A → Bool
  is_some none = false
  is_some (some a) = true

  is_some-first_category :
      (alt : Str) (skills : List SkillTerm)
      → is_some (first_category alt skills) ≡ any (answers_by_category alt) skills
  unfolding first_category
  is_some-first_category alt [] = refl
  is_some-first_category alt (s ∷ skills) = ground (arith, is_some-first_category alt skills)

  is_some-first_category_of :
      (alts : List Str) (skills : List SkillTerm)
      → is_some (first_category_of alts skills) ≡ any_pair answers_by_category alts skills
  unfolding first_category_of
  is_some-first_category_of [] skills = refl
  is_some-first_category_of (alt ∷ alts) skills =
      ground (arith, is_some-first_category alt skills, is_some-first_category_of alts skills)

  -- The kind of the answer, described without the loops.
  abbrev pub kind_of : List SkillTerm → Str → Option MatchKind
  kind_of skills entry =
      let alts = split_alternatives entry in
      if any_pair answers_by_name alts skills
      then some direct
      else if any_pair answers_by_alias alts skills
      then some alias
      else if any_pair answers_by_category alts skills
      then some category
      else none

  -- A requirement is answered directly if some alternative is answered by a skill's own name, else
  -- by alias if some alternative is answered by a synonym, else by category if some alternative is
  -- answered by a category that a skill has, else not at all.
  pub satisfies-eq-kind_of :
      (skills : List SkillTerm) (entry : Str)
      → Option.map (λ a. a.kind) (satisfies skills entry) ≡ kind_of skills entry
  unfolding satisfies
  satisfies-eq-kind_of skills entry =
      let alts = split_alternatives entry in
      ground (
        arith,
        is_nil-gather answers_by_name alts skills [],
        is_nil-gather answers_by_alias alts skills [],
        is_some-first_category_of alts skills,
      )

  -- Whether a requirement is answered at all, without the loops.
  pub is_some-satisfies :
      (skills : List SkillTerm) (entry : Str)
      → is_some (satisfies skills entry)
        ≡ any_pair answers_by_name (split_alternatives entry) skills
          || any_pair answers_by_alias (split_alternatives entry) skills
          || any_pair answers_by_category (split_alternatives entry) skills
  unfolding satisfies
  is_some-satisfies skills entry =
      let alts = split_alternatives entry in
      ground (
        arith,
        is_nil-gather answers_by_name alts skills [],
        is_nil-gather answers_by_alias alts skills [],
        is_some-first_category_of alts skills,
      )

  any_pair_mono :
      (test : Str → SkillTerm → Bool) (alts : List Str) (skills more : List SkillTerm)
      → ((s : SkillTerm) → Memᴰ s skills → Memᴰ s more)
      → any_pair test alts skills ≡ true
      → any_pair test alts more ≡ true
  any_pair_mono test alts skills more sub h =
      let (alt, i, k) = mem_of_any (λ b. any (test b) skills) alts h in
      let (s, j, l) = mem_of_any (test alt) skills k in
      any_of_mem (λ b. any (test b) more) alt alts i (any_of_mem (test alt) s more (sub s j) l)

  -- A requirement that some skills answer is answered by every profile that has those skills.
  pub satisfies_mono :
      (skills more : List SkillTerm) (entry : Str)
      → ((s : SkillTerm) → Memᴰ s skills → Memᴰ s more)
      → is_some (satisfies skills entry) ≡ true
      → is_some (satisfies more entry) ≡ true
  satisfies_mono skills more entry sub h =
      let alts = split_alternatives entry in
      ground (
        arith,
        is_some-satisfies skills entry,
        is_some-satisfies more entry,
        any_pair_mono answers_by_name alts skills more sub,
        any_pair_mono answers_by_alias alts skills more sub,
        any_pair_mono answers_by_category alts skills more sub,
      )
