-- ===== src/FitGate/Capability/Filing.antt =====
-- The lists that requirements are filed in (internal/fitgate/scorer.go: ScoreCapabilityFit).
use mathlib.Core.List.Perm
use mathlib.Core.List.{Perm, perm_append_singleton, append-nil, append_assoc, map-append}
use role_model.Prelude.{
  ℕ, ◌≡◌, refl, sym, ap, ◌∙◌, ◌≢◌, Bool, true, false, not, List, [], ◌∷◌, ◌++◌, map, keep, none,
  some, ◌==◌, Bool-cases, Option-cases, inl, inr, arith,
}
use role_model.Prelude.Int.{ltb_ℤ}
use role_model.GoText.{Str, is_empty, Unicode}
use role_model.FitGate.Signals.{JdSignals, SkillLevel, SkillTerm}
use role_model.FitGate.Levels.{LevelScale, rank, required_level_for, strongest_proficiency}
use role_model.FitGate.Skills.{Answer, satisfies}
use role_model.FitGate.Skills.Layers.{is_some}
use role_model.FitGate.Capability.{
  MatchOrigin, required, preferred, competency, SkillMatch, Tally, no_points, plain_match,
  levelled_match, award, score, score_required, score_others, tally_of, competencies_of,
  points_possible, score_capability_fit,
}

-- The requirements that the two lists of matches record.
abbrev pub filed : List SkillMatch → List SkillMatch → List Str
filed matches partial = map (λ m. m.requirement) matches ++ map (λ m. m.requirement) partial

perm_into :
    (ms ps : List SkillMatch) (m : SkillMatch)
    → Perm (filed (ms ++ m ∷ []) ps) (filed ms ps ++ m.requirement ∷ [])
perm_into [] ps m = Perm.symm (perm_append_singleton m.requirement (map (λ n. n.requirement) ps))
perm_into (n ∷ ms) ps m = Perm.cons _ (perm_into ms ps m)

module _ ⦃u : Unicode⦄ where
  abbrev pub answered : List SkillTerm → Str → Bool
  answered skills entry = is_some (satisfies skills entry)

  -- An answered entry goes to one of the lists, and to no gap.
  award-filed :
      (levels : LevelScale) (stated : List SkillLevel) (entry : Str) (full : ℕ)
      (origin : MatchOrigin) (a : Answer) (t : Tally)
      → let t' = award levels stated entry full origin a t in
        (t'.gaps ≡ t.gaps)
        × Perm (filed t'.matches t'.partial) (filed t.matches t.partial ++ entry ∷ [])
  unfolding award
  award-filed levels stated entry full origin a t =
      let wanted = (required_level_for entry stated levels).0 in
      let held = strongest_proficiency a.evidence levels in
      let levelled = levelled_match levels stated entry origin a in
      elim (Bool-cases (is_empty wanted)) [
        | inl e ↦ rw e (refl, perm_into t.matches t.partial (plain_match entry origin a))
        | inr e ↦ elim (Bool-cases (ltb_ℤ (rank levels held) (rank levels wanted))) [
          | inl low ↦ rw (e, low) (refl, rw (map-append, ← append_assoc) (Perm.refl _))
          | inr high ↦ rw (e, high) (refl, perm_into t.matches t.partial levelled)
        ]
      ]

  module _ (skills : List SkillTerm) (levels : LevelScale) (stated : List SkillLevel) where
    -- What a loop does to the tally: `entries` are filed if they are answered, and `gaps` are new.
    record Files (gaps entries : List Str) (t t' : Tally) : Type 0 where
      gaps_grow : t'.gaps ≡ t.gaps ++ gaps
      filed_grow : Perm (filed t'.matches t'.partial) (filed t.matches t.partial ++ entries)

    Files-trans :
        (g g' e e' : List Str) (t t' t'' : Tally)
        → Files g e t t'
        → Files g' e' t' t''
        → Files (g ++ g') (e ++ e') t t''
    Files-trans g g' e e' t t' t'' f f' = record {
      gaps_grow = f'.gaps_grow ∙ ap (λ l. l ++ g') f.gaps_grow ∙ append_assoc t.gaps g g';
      filed_grow =
          rw (← append_assoc) (Perm.trans f'.filed_grow (Perm.append_right e' f.filed_grow));
    }

    pub score-unanswered :
        (entry : Str) (full : ℕ) (origin : MatchOrigin) (t : Tally)
        → satisfies skills entry ≡ none
        → score skills levels stated entry full origin t ≡ (t, false)
    unfolding score
    score-unanswered entry full origin t e = rw (e, score) refl

    pub score-answered :
        (entry : Str) (full : ℕ) (origin : MatchOrigin) (t : Tally) (a : Answer)
        → satisfies skills entry ≡ some a
        → score skills levels stated entry full origin t
          ≡ (award levels stated entry full origin a t, true)
    unfolding score
    score-answered entry full origin t a e = rw (e, score) refl

    score_others-Files :
        (origin : MatchOrigin) (entries : List Str) (t : Tally)
        → Files []
            (keep (answered skills) entries)
            t
            (score_others skills levels stated origin entries t)
    unfolding score_others
    score_others-Files origin [] t = record {
      gaps_grow = sym (append-nil t.gaps);
      filed_grow = rw append-nil (Perm.refl _);
    }
    score_others-Files origin (entry ∷ entries) t = elim (Option-cases (satisfies skills entry)) [
      | inl e ↦ rw (e, score-unanswered entry 2 origin t e) (score_others-Files origin entries t)
      | inr (a, e) ↦
          let (same, into) = award-filed levels stated entry 2 origin a t in
          let first : Files [] (entry ∷ []) t (award levels stated entry 2 origin a t) = record {
            gaps_grow = same ∙ sym (append-nil t.gaps);
            filed_grow = into;
          } in
          rw (e, score-answered entry 2 origin t a e)
            (Files-trans [] [] (entry ∷ []) _ t _ _ first (score_others-Files origin entries _))
    ]

    score_required-Files :
        (entries : List Str) (t : Tally)
        → Files
            (keep (λ e. not (answered skills e)) entries)
            (keep (answered skills) entries)
            t
            (score_required skills levels stated entries t)
    unfolding score_required
    score_required-Files [] t = record {
      gaps_grow = sym (append-nil t.gaps);
      filed_grow = rw append-nil (Perm.refl _);
    }
    score_required-Files (entry ∷ entries) t = elim (Option-cases (satisfies skills entry)) [
      | inl e ↦
          let first : Files (entry ∷ []) [] t (record t { gaps = t.gaps ++ entry ∷ [] }) = record {
            gaps_grow = refl;
            filed_grow = rw append-nil (Perm.refl _);
          } in
          rw (e, score-unanswered entry 4 required t e)
            (Files-trans (entry ∷ []) _ [] _ t _ _ first (score_required-Files entries _))
      | inr (a, e) ↦
          let (same, into) = award-filed levels stated entry 4 required a t in
          let first : Files [] (entry ∷ []) t (award levels stated entry 4 required a t) = record {
            gaps_grow = same ∙ sym (append-nil t.gaps);
            filed_grow = into;
          } in
          rw (e, score-answered entry 4 required t a e)
            (Files-trans [] _ (entry ∷ []) _ t _ _ first (score_required-Files entries _))
    ]

  -- For a posting that states some requirement: the gaps are exactly the required skills that
  -- nothing answers, in order, and the matches and partial matches record, each exactly as often as
  -- it is stated, the required skills, preferred skills and competencies that something answers.
  pub score_capability_fit_filing :
      (skills : List SkillTerm) (signals : JdSignals) (levels : LevelScale)
      → points_possible signals ≢ 0
      → let fit = score_capability_fit skills signals levels in
        (fit.gaps ≡ keep (λ e. not (answered skills e)) signals.required_skills)
        × Perm (filed fit.matches fit.partial) (
            keep (answered skills) signals.required_skills
            ++ (keep (answered skills) signals.preferred_skills
                ++ keep (answered skills) (competencies_of signals)))
  unfolding score_capability_fit tally_of
  score_capability_fit_filing skills signals levels asked =
      let stated = signals.skill_levels in
      let nonzero : (points_possible signals == 0) ≡ false = ground arith in
      let first = score_required-Files skills levels stated signals.required_skills no_points in
      let second = score_others-Files skills levels stated preferred signals.preferred_skills _ in
      let third = score_others-Files skills levels stated competency (competencies_of signals) _ in
      let later = Files-trans skills levels stated [] [] _ _ _ _ _ second third in
      let whole = Files-trans skills levels stated _ [] _ _ _ _ _ first later in
      rw nonzero (whole.gaps_grow ∙ append-nil _, whole.filed_grow)
