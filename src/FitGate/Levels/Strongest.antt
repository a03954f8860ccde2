-- ===== src/FitGate/Levels/Strongest.antt =====
-- The depth behind a match and the depth asked for (internal/fitgate/scorer.go:
-- strongestProficiency, requiredLevelFor).
use role_model.Prelude.{
  ◌≡◌, refl, ◌⊎◌, inl, inr, ◌≢◌, true, false, Bool-cases, List, [], ◌∷◌, Memᴰ, if◌then◌else◌, arith,
}
use role_model.Prelude.Int.{ltb_ℤ, ◌≤ℤ◌, is_zero}
use role_model.GoText.{Str, Unicode, equal_fold, trim_space}
use role_model.FitGate.Signals.{SkillLevel, SkillTerm}
use role_model.FitGate.Levels.{
  LevelScale, rank, strongest_from, strongest_proficiency, required_level_for,
}

module _ ⦃u : Unicode⦄ where
  -- One round of the loop.
  abbrev better : LevelScale → Str → SkillTerm → Str
  better levels best s =
      if ltb_ℤ (rank levels best) (rank levels s.proficiency) then s.proficiency else best

  better-ge :
      (levels : LevelScale) (best : Str) (s : SkillTerm)
      → (rank levels best ≤ℤ rank levels (better levels best s))
        × (rank levels s.proficiency ≤ℤ rank levels (better levels best s))
  better-ge levels best s =
      elim (Bool-cases (ltb_ℤ (rank levels best) (rank levels s.proficiency))) [
        | inl e ↦ rw e (ground arith, ground arith)
        | inr e ↦ rw e (ground arith, ground arith)
      ]

  strongest_from-ge :
      (best : Str) (evidence : List SkillTerm) (levels : LevelScale)
      → rank levels best ≤ℤ rank levels (strongest_from best evidence levels)
  unfolding strongest_from
  strongest_from-ge best [] levels = omega arith
  strongest_from-ge best (s ∷ evidence) levels =
      omega
        (arith, better-ge levels best s, strongest_from-ge (better levels best s) evidence levels)

  strongest_from-ge_mem :
      (best : Str) (evidence : List SkillTerm) (levels : LevelScale) (s : SkillTerm)
      → Memᴰ s evidence
      → rank levels s.proficiency ≤ℤ rank levels (strongest_from best evidence levels)
  unfolding strongest_from
  strongest_from-ge_mem best [] levels s m = elim m [ ]
  strongest_from-ge_mem best (t ∷ evidence) levels s (Memᴰ.head e) = rw e (
      omega
        (arith, better-ge levels best t, strongest_from-ge (better levels best t) evidence levels))
  strongest_from-ge_mem best (t ∷ evidence) levels s (Memᴰ.tail m) =
      strongest_from-ge_mem (better levels best t) evidence levels s m

  strongest_from-source :
      (best : Str) (evidence : List SkillTerm) (levels : LevelScale)
      → (strongest_from best evidence levels ≡ best)
        ⊎ ((s : SkillTerm) × Memᴰ s evidence
            × (strongest_from best evidence levels ≡ s.proficiency))
  unfolding strongest_from
  strongest_from-source best [] levels = inl refl
  strongest_from-source best (s ∷ evidence) levels =
      elim (Bool-cases (ltb_ℤ (rank levels best) (rank levels s.proficiency))) [
        | inl e ↦ rw e (elim (strongest_from-source s.proficiency evidence levels) [
          | inl same ↦ inr (s, Memᴰ.head refl, same)
          | inr (t, m, same) ↦ inr (t, Memᴰ.tail m, same)
        ])
        | inr e ↦ rw e (elim (strongest_from-source best evidence levels) [
          | inl same ↦ inl same
          | inr (t, m, same) ↦ inr (t, Memᴰ.tail m, same)
        ])
      ]

  -- The strongest proficiency is that of some skill of the evidence, or empty; no skill of the
  -- evidence ranks above it, and the empty level does not either.
  pub strongest_proficiency_max :
      (evidence : List SkillTerm) (levels : LevelScale) (s : SkillTerm)
      → Memᴰ s evidence
      → (rank levels s.proficiency ≤ℤ rank levels (strongest_proficiency evidence levels))
        × (rank levels [] ≤ℤ rank levels (strongest_proficiency evidence levels))
        × ((strongest_proficiency evidence levels ≡ [])
            ⊎ ((t : SkillTerm) × Memᴰ t evidence
                × (strongest_proficiency evidence levels ≡ t.proficiency)))
  unfolding strongest_proficiency
  strongest_proficiency_max evidence levels s m = (
    strongest_from-ge_mem [] evidence levels s m,
    strongest_from-ge [] evidence levels,
    strongest_from-source [] evidence levels,
  )

  -- A stated level that counts can be ranked, and stems from an entry of the table that names the
  -- requirement up to case and outer space.
  pub required_level_for_ranked :
      (entry : Str) (stated : List SkillLevel) (levels : LevelScale)
      → (required_level_for entry stated levels).0 ≢ []
      → (sl : SkillLevel) × Memᴰ sl stated
        × (equal_fold (trim_space sl.requirement) (trim_space entry) ≡ true)
        × (is_zero (rank levels sl.level) ≡ false)
        × (required_level_for entry stated levels ≡ (sl.level, sl.signal))
  unfolding required_level_for
  required_level_for_ranked entry [] levels h = absurd (h refl)
  required_level_for_ranked entry (sl ∷ stated) levels h =
      elim (Bool-cases (equal_fold (trim_space sl.requirement) (trim_space entry))) [
        | inl named ↦ elim (Bool-cases (is_zero (rank levels sl.level))) [
          | inl zero_rank ↦ absurd ((rw (named, zero_rank) at h) refl)
          | inr ranked ↦ (sl, Memᴰ.head refl, named, ranked, rw (named, ranked) refl)
        ]
        | inr other ↦
            let (t, m, e, r, same) =
              required_level_for_ranked entry stated levels (rw other at h) in
            (t, Memᴰ.tail m, e, r, rw other same)
      ]
