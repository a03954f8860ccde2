-- ===== src/FitGate/Witnesses.antt =====
-- The theorems about the fit gate at the sample profile and posting.
use mathlib.Core.List.{Perm}
use mathlib.Core.Option
use mathlib.Core.List.Memᴰ
use role_model.Prelude.{
  ◌+◌, ◌*◌, ◌≤◌, ◌≡◌, refl, ◌≢◌, ◌↔◌, true, ◌&&◌, not, [], ◌∷◌, ◌++◌, Memᴰ, keep, inl, inr, arith,
}
use role_model.Prelude.Int.{pos}
use role_model.GoText.{Str, codes}
use role_model.GoText.Ascii.{ascii}
use role_model.GoText.Splitting.{join}
use role_model.FitGate.Tokens.{tokenize, contains_phrase}
use role_model.FitGate.Tokens.Phrases.{IsRunOf, contains_phrase_iff}
use role_model.FitGate.Alternatives.{
  alternatives_delimiter, is_subset, split_alternatives, group_of, collapse_subsumed,
}
use role_model.FitGate.Alternatives.RoundTrip.{split_alternatives-join}
use role_model.FitGate.Alternatives.Reference.{survives, collapse_subsumed-eq-keep}
use role_model.FitGate.Alternatives.Collapse.{collapse_subsumed_covers}
use role_model.FitGate.Levels.{new_level_scale, rank}
use role_model.FitGate.Levels.Precedence.{rank-named}
use role_model.FitGate.Skills.{category, Answer, satisfies}
use role_model.FitGate.Skills.Layers.{kind_of, satisfies-eq-kind_of}
use role_model.FitGate.Skills.Evidence.{IsEvidence, satisfies-IsEvidence}
use role_model.FitGate.Capability.{competencies_of, points_possible, score_capability_fit}
use role_model.FitGate.Capability.Filing.{filed, answered, score_capability_fit_filing}
use role_model.FitGate.Capability.Points.{full_points, half_points, score_capability_fit_points}
use role_model.FitGate.Capability.Unlevelled.{score_capability_fit_mono}
use role_model.FitGate.Preferences.{preference_answered, score_preference_fit}
use role_model.FitGate.Preferences.Lists
use role_model.FitGate.Preferences.Lists.{is_positive, is_negative, score_preference_fit-eq}
use role_model.FitGate.Preferences.CorePractice.{refuses, core_practice_answered_iff}
use role_model.FitGate.Samples.{
  go, jenkins, profile, posting, plain_posting, novice, expert, python_gate, small_team,
  unfold_gate,
}

score_capability_fit_filing_example :
    let fit = score_capability_fit profile posting [] in
    (fit.gaps ≡ keep (λ e. not (answered profile e)) posting.required_skills)
    × Perm (filed fit.matches fit.partial) (
        keep (answered profile) posting.required_skills
        ++ (keep (answered profile) posting.preferred_skills
            ++ keep (answered profile) (competencies_of posting)))
score_capability_fit_filing_example = score_capability_fit_filing profile posting [] (omega arith)

score_capability_fit_points_example :
    let fit = score_capability_fit profile posting [] in
    (fit.scored ≡ true)
    × (fit.score.num ≡ (full_points fit.matches + half_points fit.partial) * 100)
    × (fit.score.den ≡ points_possible posting * 2)
    × (fit.score.num ≤ 100 * fit.score.den)
score_capability_fit_points_example = score_capability_fit_points profile posting [] (omega arith)

score_preference_fit-eq_example :
    let fit = score_preference_fit (small_team ∷ python_gate ∷ []) posting in
    let prefs = small_team ∷ python_gate ∷ [] in
    (fit.matches ≡ keep (λ p. is_positive p && Lists.answered posting p) prefs)
    × (fit.gaps ≡ keep (λ p. is_positive p && not (Lists.answered posting p)) prefs)
    × (fit.conflicts ≡ keep (λ p. is_negative p && Lists.answered posting p) prefs)
    × (fit.gate_hits ≡ keep (λ p. p.is_hard_gate && Lists.answered posting p) prefs)
score_preference_fit-eq_example = score_preference_fit-eq (small_team ∷ python_gate ∷ []) posting

core_practice_answered_iff_example : (preference_answered python_gate posting ≡ true) ↔ (
    (entry : Str) × Memᴰ entry posting.core_practice
    × (survives posting.core_practice entry ≡ true)
    × (refuses python_gate entry ≡ true))
core_practice_answered_iff_example = core_practice_answered_iff python_gate posting refl

satisfies-eq-kind_of_example :
    Option.map (λ a. a.kind) (satisfies profile (codes "CI/CD")) ≡ kind_of profile (codes "CI/CD")
satisfies-eq-kind_of_example = satisfies-eq-kind_of profile (codes "CI/CD")

abbrev delivery : Answer
delivery = record { kind = category; category = codes "Delivery"; evidence = jenkins ∷ [] }

satisfies-IsEvidence_example : IsEvidence profile (split_alternatives (codes "CI/CD")) delivery
unfolding unfold_gate
satisfies-IsEvidence_example = satisfies-IsEvidence profile (codes "CI/CD") delivery refl

score_capability_fit_mono_example :
    let fit = score_capability_fit (go ∷ []) plain_posting [] in
    let fit' = score_capability_fit profile plain_posting [] in
    (fit.score.num ≤ fit'.score.num) × (fit.score.den ≡ fit'.score.den)
score_capability_fit_mono_example =
    score_capability_fit_mono (go ∷ []) profile plain_posting [] (omega arith) refl
      (λ s m. elim (Memᴰ.cases_cons m) [ inl e ↦ Memᴰ.head e | inr m' ↦ elim m' [ ] ])

collapse_subsumed_covers_example :
    (s : Str) × Memᴰ s (collapse_subsumed posting.core_practice)
    × (is_subset (group_of (codes "Python")) (group_of s) ≡ true)
unfolding unfold_gate
collapse_subsumed_covers_example =
    collapse_subsumed_covers posting.core_practice (codes "Python") (Memᴰ.tail (Memᴰ.head refl))
      (omega arith)

collapse_subsumed-eq-keep_example :
    collapse_subsumed posting.core_practice
    ≡ keep (survives posting.core_practice) posting.core_practice
collapse_subsumed-eq-keep_example = collapse_subsumed-eq-keep posting.core_practice

split_alternatives-join_example :
    split_alternatives (join alternatives_delimiter (codes "CI/CD" ∷ codes "C#" ∷ []))
    ≡ codes "CI/CD" ∷ codes "C#" ∷ []
unfolding unfold_gate
split_alternatives-join_example =
    split_alternatives-join (codes "CI/CD") (codes "C#" ∷ [])
      (((λ e. cc), refl), (((λ e. cc), refl), tt)) (omega arith)

contains_phrase_iff_example : (contains_phrase (codes "Kafka") (codes "Apache Kafka") ≡ true) ↔ (
    tokenize (codes "Kafka") ≢ []
    × IsRunOf (tokenize (codes "Kafka")) (tokenize (codes "Apache Kafka")))
contains_phrase_iff_example = contains_phrase_iff (codes "Kafka") (codes "Apache Kafka")

rank-named_example : rank (new_level_scale (novice ∷ expert ∷ [])) (codes " Expert") ≡ pos 3
unfolding unfold_gate
rank-named_example = rank-named (novice ∷ []) expert [] (codes " Expert") refl tt refl
