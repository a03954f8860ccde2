-- ===== src/FitGate/Skills/Evidence.antt =====
-- The evidence behind an answer (internal/fitgate/scorer.go: satisfies, appendUnique).
use mathlib.Core.Path.{subst}
use role_model.Prelude.{
  ◌≡◌, refl, sym, ◌∙◌, ◌≢◌, Bool, true, false, List, [], ◌∷◌, ◌++◌, Memᴰ, any, All, some,
  Bool-cases, Option-cases, inl, inr, any_of_mem, some_eq, arith,
}
use role_model.GoText.{Str, str_eq, Unicode}
use role_model.GoText.Equality.{str_eq_sym, str_eq_refl}
use role_model.FitGate.Alternatives.{split_alternatives}
use role_model.FitGate.Signals.{SkillTerm}
use role_model.FitGate.Skills.Layers.{is_nil-gather_skills}
use role_model.FitGate.Skills.{
  MatchKind, direct, alias, category, Answer, is_nil, named_in, append_unique, gather_skills,
  gather, answers_by_name, answers_by_alias, answers_by_category, first_category, first_category_of,
  peers, satisfies,
}

-- No two skills of the list share a name.
abbrev pub Distinct : List SkillTerm → Type 0
Distinct [] = Unit
Distinct (s ∷ out) = (named_in out s ≡ false) × Distinct out

named_in-snoc :
    (out : List SkillTerm) (v s : SkillTerm)
    → named_in out s ≡ false
    → str_eq v.name s.name ≡ false
    → named_in (out ++ v ∷ []) s ≡ false
unfolding named_in
named_in-snoc [] v s h k = rw k refl
named_in-snoc (t ∷ out) v s h k = ground (arith, named_in-snoc out v s)

Distinct-snoc :
    (out : List SkillTerm) (v : SkillTerm)
    → Distinct out
    → named_in out v ≡ false
    → Distinct (out ++ v ∷ [])
unfolding named_in
Distinct-snoc [] v d h = (refl, tt)
Distinct-snoc (s ∷ out) v d h =
    let other : str_eq s.name v.name ≡ false = ground arith in
    let rest : named_in out v ≡ false = ground arith in
    (named_in-snoc out v s d.0 (str_eq_sym v.name s.name ∙ other), Distinct-snoc out v d.1 rest)

append_unique-Distinct :
    (out : List SkillTerm) (v : SkillTerm) → Distinct out → Distinct (append_unique out v)
unfolding append_unique
append_unique-Distinct out v d = elim (Bool-cases (named_in out v)) [
  | inl e ↦ rw e d
  | inr e ↦ rw e (Distinct-snoc out v d e)
]

gather_skills-Distinct :
    (test : SkillTerm → Bool) (skills evidence : List SkillTerm)
    → Distinct evidence
    → Distinct (gather_skills test skills evidence)
unfolding gather_skills
gather_skills-Distinct test [] evidence d = d
gather_skills-Distinct test (s ∷ skills) evidence d = elim (Bool-cases (test s)) [
  | inl e ↦ rw e (gather_skills-Distinct test skills _ (append_unique-Distinct evidence s d))
  | inr e ↦ rw e (gather_skills-Distinct test skills evidence d)
]

gather-Distinct :
    (test : Str → SkillTerm → Bool) (alts : List Str) (skills evidence : List SkillTerm)
    → Distinct evidence
    → Distinct (gather test alts skills evidence)
unfolding gather
gather-Distinct test [] skills evidence d = d
gather-Distinct test (alt ∷ alts) skills evidence d =
    gather-Distinct test alts skills _ (gather_skills-Distinct (test alt) skills evidence d)

module _ (P : SkillTerm → Type 0) where
  All-snoc : (out : List SkillTerm) (v : SkillTerm) → All P out → P v → All P (out ++ v ∷ [])
  All-snoc [] v a p = (p, tt)
  All-snoc (s ∷ out) v a p = (a.0, All-snoc out v a.1 p)

  append_unique-All :
      (out : List SkillTerm) (v : SkillTerm) → All P out → P v → All P (append_unique out v)
  unfolding append_unique
  append_unique-All out v a p = elim (Bool-cases (named_in out v)) [
    | inl e ↦ rw e a
    | inr e ↦ rw e (All-snoc out v a p)
  ]

  gather_skills-All :
      (test : SkillTerm → Bool) (skills evidence : List SkillTerm)
      → ((s : SkillTerm) → Memᴰ s skills → test s ≡ true → P s)
      → All P evidence
      → All P (gather_skills test skills evidence)
  unfolding gather_skills
  gather_skills-All test [] evidence h a = a
  gather_skills-All test (s ∷ skills) evidence h a =
      let later = λ (t : SkillTerm) (m : Memᴰ t skills). h t (Memᴰ.tail m) in
      elim (Bool-cases (test s)) [
        | inl e ↦ rw e (
            gather_skills-All test skills _ later
              (append_unique-All evidence s a (h s (Memᴰ.head refl) e)))
        | inr e ↦ rw e (gather_skills-All test skills evidence later a)
      ]

  gather-All :
      (test : Str → SkillTerm → Bool) (alts : List Str) (skills evidence : List SkillTerm)
      → ((alt : Str) (s : SkillTerm) → Memᴰ alt alts → Memᴰ s skills → test alt s ≡ true → P s)
      → All P evidence
      → All P (gather test alts skills evidence)
  unfolding gather
  gather-All test [] skills evidence h a = a
  gather-All test (alt ∷ alts) skills evidence h a =
      gather-All test alts skills _ (λ b s i. h b s (Memᴰ.tail i))
        (gather_skills-All (test alt) skills evidence (λ s. h alt s (Memᴰ.head refl)) a)

module _ ⦃u : Unicode⦄ where
  -- Why a skill counts as evidence in each layer.
  abbrev pub Supports : List Str → MatchKind → Str → SkillTerm → Type 0
  Supports alts direct c s = any (λ alt. answers_by_name alt s) alts ≡ true
  Supports alts alias c s = any (λ alt. answers_by_alias alt s) alts ≡ true
  Supports alts category c s = str_eq s.category c ≡ true

  pub record IsEvidence (skills : List SkillTerm) (alts : List Str) (a : Answer) : Type 0 where
    pub some_skill : a.evidence ≢ []
    pub distinct : Distinct a.evidence
    pub sound : All (λ s. Memᴰ s skills × Supports alts a.kind a.category s) a.evidence

  is_nil-ne : (out : List SkillTerm) → is_nil out ≡ false → out ≢ []
  is_nil-ne [] h = cc
  is_nil-ne (s ∷ out) h = λ e. cc

  abbrev by_name : List SkillTerm → List Str → Answer
  by_name skills alts = record {
    kind = direct;
    category = [];
    evidence = gather answers_by_name alts skills [];
  }

  abbrev by_alias : List SkillTerm → List Str → Answer
  by_alias skills alts = record {
    kind = alias;
    category = [];
    evidence = gather answers_by_alias alts skills [];
  }

  abbrev by_category : List SkillTerm → SkillTerm → Answer
  by_category skills s = record {
    kind = category;
    category = s.category;
    evidence = peers s.category skills;
  }

  by_name-IsEvidence :
      (skills : List SkillTerm) (alts : List Str)
      → is_nil (gather answers_by_name alts skills []) ≡ false
      → IsEvidence skills alts (by_name skills alts)
  by_name-IsEvidence skills alts h = record {
    some_skill = is_nil-ne _ h;
    distinct = gather-Distinct answers_by_name alts skills [] tt;
    sound =
        gather-All (λ s. Memᴰ s skills × (any (λ alt. answers_by_name alt s) alts ≡ true))
          answers_by_name alts skills []
          (λ alt s i m k. (m, any_of_mem (λ b. answers_by_name b s) alt alts i k)) tt;
  }

  by_alias-IsEvidence :
      (skills : List SkillTerm) (alts : List Str)
      → is_nil (gather answers_by_alias alts skills []) ≡ false
      → IsEvidence skills alts (by_alias skills alts)
  by_alias-IsEvidence skills alts h = record {
    some_skill = is_nil-ne _ h;
    distinct = gather-Distinct answers_by_alias alts skills [] tt;
    sound =
        gather-All (λ s. Memᴰ s skills × (any (λ alt. answers_by_alias alt s) alts ≡ true))
          answers_by_alias alts skills []
          (λ alt s i m k. (m, any_of_mem (λ b. answers_by_alias b s) alt alts i k)) tt;
  }

  first_category-mem :
      (alt : Str) (skills : List SkillTerm) {s : SkillTerm}
      → first_category alt skills ≡ some s
      → Memᴰ s skills
  unfolding first_category
  first_category-mem alt [] h = cc
  first_category-mem alt (t ∷ skills) h = elim (Bool-cases (answers_by_category alt t)) [
    | inl e ↦ Memᴰ.head (sym (some_eq (rw e at h)))
    | inr e ↦ Memᴰ.tail (first_category-mem alt skills (rw e at h))
  ]

  first_category_of-mem :
      (alts : List Str) (skills : List SkillTerm) {s : SkillTerm}
      → first_category_of alts skills ≡ some s
      → Memᴰ s skills
  unfolding first_category_of
  first_category_of-mem [] skills h = cc
  first_category_of-mem (alt ∷ alts) skills h = elim (Option-cases (first_category alt skills)) [
    | inl e ↦ first_category_of-mem alts skills (rw (e, first_category_of) at h)
    | inr (t, e) ↦ first_category-mem alt skills (e ∙ (rw (e, first_category_of) at h))
  ]

  by_category-IsEvidence :
      (skills : List SkillTerm) (alts : List Str) (s : SkillTerm)
      → Memᴰ s skills
      → IsEvidence skills alts (by_category skills s)
  by_category-IsEvidence skills alts s m =
      let same = λ (t : SkillTerm). str_eq t.category s.category in
      record {
        some_skill = is_nil-ne _ (
            is_nil-gather_skills same skills []
            ∙ rw (any_of_mem same s skills m (str_eq_refl s.category)) refl);
        distinct = gather_skills-Distinct same skills [] tt;
        sound =
            gather_skills-All (λ t. Memᴰ t skills × (str_eq t.category s.category ≡ true)) same
              skills [] (λ t i k. (i, k)) tt;
      }

  -- The evidence behind an answer is never empty, repeats no name, and consists of skills of the
  -- profile that each answer some alternative in the answer's own layer (in the category layer:
  -- that lie in the answer's category).
  pub satisfies-IsEvidence :
      (skills : List SkillTerm) (entry : Str) (a : Answer)
      → satisfies skills entry ≡ some a
      → IsEvidence skills (split_alternatives entry) a
  unfolding satisfies
  satisfies-IsEvidence skills entry a h =
      let alts = split_alternatives entry in
      elim (Bool-cases (is_nil (gather answers_by_name alts skills []))) [
        | inr e ↦
            subst (IsEvidence skills alts) (some_eq (rw (e, satisfies) at h))
              (by_name-IsEvidence skills alts e)
        | inl e ↦ elim (Bool-cases (is_nil (gather answers_by_alias alts skills []))) [
          | inr e' ↦
              subst (IsEvidence skills alts) (some_eq (rw (e, e', satisfies) at h))
                (by_alias-IsEvidence skills alts e')
          | inl e' ↦ elim (Option-cases (first_category_of alts skills)) [
            | inl e'' ↦ cc
            | inr (s, e'') ↦
                subst (IsEvidence skills alts) (some_eq (rw (e, e', e'', satisfies) at h))
                  (by_category-IsEvidence skills alts s (first_category_of-mem alts skills e''))
          ]
        ]
      ]
