-- ===== src/Generation/Ladder/Choice.antt =====
-- Which level a seniority picks (internal/generation/generate.go: pickCareerLevel, seniorityLevers).
use role_model.Prelude.{
  ◌≡◌, refl, sym, ap, ◌∙◌, ◌⊎◌, Bool, true, false, List, [], ◌∷◌, any, Memᴰ, Option, none, some,
  some_eq, Bool-cases, Option-cases, inl, inr,
}
use role_model.Prelude.Results.{ok}
use role_model.GoText.{Str, is_empty, Unicode}
use role_model.FitGate.Signals.{JdSignals}
use role_model.FitGate.Levels.{level_key}
use role_model.Vocabulary.{CareerLevel, Framings, default_career_levels}
use role_model.Generation.Ladder.{
  first_level, or_else, fallback_level, has_name, has_alias, pick_career_level, levers_of,
  seniority_levers,
}

first_level-some :
    (p : CareerLevel → Bool) (levels : List CareerLevel) (k : CareerLevel)
    → first_level p levels ≡ some k
    → Memᴰ k levels × (p k ≡ true)
unfolding first_level
first_level-some p [] k h = cc
first_level-some p (l ∷ levels) k h = elim (Bool-cases (p l)) [
  | inl e ↦ let same : l ≡ k = some_eq (rw e at h) in (Memᴰ.head (sym same), ap p (sym same) ∙ e)
  | inr e ↦ let (m, q) = first_level-some p levels k (rw e at h) in (Memᴰ.tail m, q)
]

first_level-none :
    (p : CareerLevel → Bool) (levels : List CareerLevel)
    → first_level p levels ≡ none
    → any p levels ≡ false
unfolding first_level
first_level-none p [] h = refl
first_level-none p (l ∷ levels) h = elim (Bool-cases (p l)) [
  | inl e ↦ cc (rw e at h)
  | inr e ↦ rw e (first_level-none p levels (rw e at h))
]

-- Why a level was picked.
pub data Reason ⦃u : Unicode⦄ (levels : List CareerLevel) (want : Str) (k : CareerLevel)
    : Type 0 where
  by_name : has_name want k ≡ true → Reason levels want k
  by_alias : any (has_name want) levels ≡ false → has_alias want k ≡ true → Reason levels want k
  by_fallback :
      (is_empty want ≡ true)
        ⊎ ((any (has_name want) levels ≡ false) × (any (has_alias want) levels ≡ false))
      → k.is_fallback ≡ true
      → Reason levels want k

module _ ⦃u : Unicode⦄ where
  -- A seniority that is not blank.
  reason_of :
      (levels : List CareerLevel) (want : Str) (k : CareerLevel)
      → or_else
          (first_level (has_name want) levels)
          (or_else (first_level (has_alias want) levels) (fallback_level levels))
        ≡ some k
      → Memᴰ k levels × Reason levels want k
  reason_of levels want k h = elim (Option-cases (first_level (has_name want) levels)) [
    | inr (l, e) ↦
        let (m, q) = first_level-some (has_name want) levels k (e ∙ (rw e at h)) in (m, by_name q)
    | inl no_name ↦ elim (Option-cases (first_level (has_alias want) levels)) [
      | inr (l, e) ↦
          let (m, q) = first_level-some (has_alias want) levels k (e ∙ (rw (no_name, e) at h)) in
          (m, by_alias (first_level-none (has_name want) levels no_name) q)
      | inl no_alias ↦
          let (m, q) =
            first_level-some (λ l. l.is_fallback) levels k (rw (no_name, no_alias) at h) in
          (
            m,
            by_fallback
                (inr (
                  first_level-none (has_name want) levels no_name,
                  first_level-none (has_alias want) levels no_alias,
                ))
                q,
          )
    ]
  ]

  or_else_total :
      (o other : Option CareerLevel) (k : CareerLevel)
      → other ≡ some k
      → (l : CareerLevel) × (or_else o other ≡ some l)
  or_else_total none other k e = (k, e)
  or_else_total (some l) other k e = (l, refl)

  default_fallback :
      (framing : Framings)
      → (l : CareerLevel) × (fallback_level (default_career_levels framing) ≡ some l)
  unfolding first_level default_career_levels
  default_fallback framing = (_, refl)

  default_total :
      (framing : Framings) (seniority : Str)
      → (l : CareerLevel) × (pick_career_level (default_career_levels framing) seniority ≡ some l)
  unfolding pick_career_level
  default_total framing seniority =
      let (k, e) = default_fallback framing in
      let want = level_key seniority in
      let levels = default_career_levels framing in
      let (a, f) =
        or_else_total (first_level (has_alias want) levels) (fallback_level levels) k e in
      let (n, g) = or_else_total (first_level (has_name want) levels) _ a f in
      elim (Bool-cases (is_empty want)) [ inl b ↦ (k, rw b e) | inr b ↦ (n, rw b g) ]

  -- The level picked is one of the ladder: one whose own name is the seniority, up to case and outer
  -- space; or, if no level of the ladder has that name, one with such an alias; or, if the seniority
  -- is blank or no level has such a name or alias, one that is flagged as the fallback.
  pub pick_career_level_reason :
      (levels : List CareerLevel) (seniority : Str) (k : CareerLevel)
      → pick_career_level levels seniority ≡ some k
      → Memᴰ k levels × Reason levels (level_key seniority) k
  unfolding pick_career_level
  pick_career_level_reason levels seniority k h =
      elim (Bool-cases (is_empty (level_key seniority))) [
        | inl blank ↦
            let (m, f) = first_level-some (λ l. l.is_fallback) levels k (rw blank at h) in
            (m, by_fallback (inl blank) f)
        | inr stated ↦ reason_of levels (level_key seniority) k (rw stated at h)
      ]

  -- With its signals and its ladder read, a posting always gets its two levers, whatever the ladder
  -- of the account: the error for a missing level does not occur.
  pub seniority_levers_total :
      (framing : Framings) (levels : List CareerLevel) (signals : JdSignals)
      → (levers : Str × Str) × (seniority_levers framing (some (some signals)) (some levels)
          ≡ ok levers)
  unfolding seniority_levers
  seniority_levers_total framing levels signals =
      let (own, e) = default_total framing signals.seniority in
      let (l, f) = or_else_total (pick_career_level levels signals.seniority) _ own e in
      ((l.length_budget, l.framing_guidance), ap (levers_of signals.seniority) f)
