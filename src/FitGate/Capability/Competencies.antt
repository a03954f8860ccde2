-- ===== src/FitGate/Capability/Competencies.antt =====
-- Competencies and the named skills of a posting (internal/fitgate/scorer.go:
-- dedupeCompetencies).
use role_model.Prelude.{
  ◌≡◌, refl, ◌≢◌, true, false, List, [], ◌∷◌, Memᴰ, Bool-cases, inl, inr, mem-append_left,
  mem-append_right, arith,
}
use mathlib.Core.List.Memᴰ
use mathlib.Core.Path.{subst}
use role_model.GoText.{Str, is_empty, Unicode, to_lower, fields_func, trim_space}
use role_model.FitGate.Signals.{JdSignals}
use role_model.FitGate.Tokens.{tokenize}
use role_model.FitGate.Tokens.Phrases.{contains_phrase_self}
use role_model.FitGate.Alternatives.{split_alternatives}
use role_model.FitGate.Matching.{matches_signal}
use role_model.FitGate.Capability.{
  alternatives_of, named_alternatives, drop_named, dedupe_competencies, competencies_of,
}

module _ ⦃u : Unicode⦄ where
  mem-alternatives_of :
      (a entry : Str) (entries : List Str)
      → Memᴰ entry entries
      → Memᴰ a (split_alternatives entry)
      → Memᴰ a (alternatives_of entries)
  unfolding alternatives_of
  mem-alternatives_of a entry [] m i = elim m [ ]
  mem-alternatives_of a entry (e ∷ entries) (Memᴰ.head same) i =
      mem-append_left a _ _ (subst (λ x. Memᴰ a (split_alternatives x)) same i)
  mem-alternatives_of a entry (e ∷ entries) (Memᴰ.tail m) i =
      mem-append_right a (split_alternatives e) _ (mem-alternatives_of a entry entries m i)

  tokenize-nil : tokenize [] ≡ []
  unfolding tokenize to_lower fields_func
  tokenize-nil = refl

  matches_signal_self :
      (label : Str) (fields : List Str)
      → Memᴰ label fields
      → tokenize label ≢ []
      → matches_signal label fields ≡ true
  unfolding matches_signal
  matches_signal_self label [] m some_token = elim m [ ]
  matches_signal_self [] (f ∷ fields) m some_token = absurd (some_token tokenize-nil)
  matches_signal_self (c ∷ s) (f ∷ fields) (Memᴰ.head same) some_token =
      let found = contains_phrase_self (c ∷ s) some_token in rw (← same) (rw found refl)
  matches_signal_self label (f ∷ fields) (Memᴰ.tail m) some_token =
      let rest = matches_signal_self label fields m some_token in ground arith

  drop_named-mem :
      (named : List Str) (comp : Str) (comps : List Str)
      → Memᴰ comp (drop_named named comps)
      → matches_signal comp named ≡ false
  unfolding drop_named
  drop_named-mem named comp [] m = elim m [ ]
  drop_named-mem named comp (c ∷ comps) m = elim (Bool-cases (is_empty (trim_space c))) [
    | inl blank ↦ drop_named-mem named comp comps (rw blank at m)
    | inr text ↦ elim (Bool-cases (matches_signal c named)) [
      | inl known ↦ drop_named-mem named comp comps (rw (text, known) at m)
      | inr new ↦ elim (Memᴰ.cases_cons (rw (text, new) at m)) [
        | inl same ↦ rw same new
        | inr m' ↦ drop_named-mem named comp comps m'
      ]
    ]
  ]

  -- A competency that is word for word an alternative of some required skill, and holds a token, is
  -- not scored as a competency.
  pub competencies_of_no_restatement :
      (signals : JdSignals) (comp entry : Str)
      → Memᴰ entry signals.required_skills
      → Memᴰ comp (split_alternatives entry)
      → tokenize comp ≢ []
      → ¬ Memᴰ comp (competencies_of signals)
  unfolding dedupe_competencies
  competencies_of_no_restatement signals comp entry m i some_token found =
      let named = named_alternatives (signals.required_skills ∷ signals.preferred_skills ∷ []) in
      let known =
        matches_signal_self comp named
          (mem-append_left comp _ _ (mem-alternatives_of comp entry _ m i)) some_token in
      let new = drop_named-mem named comp signals.core_competencies found in cc
