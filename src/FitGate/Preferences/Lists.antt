-- ===== src/FitGate/Preferences/Lists.antt =====
-- The four lists of ScorePreferenceFit (internal/fitgate/scorer.go).
use mathlib.Core.List.{append-nil, append_assoc}
use role_model.Prelude.{
  ◌≡◌, refl, sym, ◌∙◌, Bool, true, false, ◌&&◌, not, List, [], ◌∷◌, ◌++◌, ap, keep, keep-append,
  arith,
}
use role_model.GoText.{Str, codes, str_eq, Unicode}
use role_model.GoText.Equality.{eq_of_str_eq}
use role_model.FitGate.Signals.{JdSignals, Preference}
use role_model.FitGate.Preferences.{
  PreferenceFit, nothing_found, preference_answered, place, place_all, score_preference_fit,
}

abbrev pub is_positive : Preference → Bool
is_positive p = not p.is_hard_gate && str_eq p.sentiment (codes "positive")

abbrev pub is_negative : Preference → Bool
is_negative p = not p.is_hard_gate && str_eq p.sentiment (codes "negative")

not_both : (s : Str) → str_eq s (codes "positive") ≡ true → str_eq s (codes "negative") ≡ false
unfolding str_eq
not_both s h = rw (eq_of_str_eq s _ h) refl

module _ ⦃u : Unicode⦄ where
  module _ (signals : JdSignals) where
    abbrev pub answered : Preference → Bool
    answered p = preference_answered p signals

    -- The lists that the loop adds to.
    abbrev sorted : List Preference → PreferenceFit
    sorted prefs = record {
      matches = keep (λ p. is_positive p && answered p) prefs;
      gaps = keep (λ p. is_positive p && not (answered p)) prefs;
      conflicts = keep (λ p. is_negative p && answered p) prefs;
      gate_hits = keep (λ p. p.is_hard_gate && answered p) prefs;
    }

    abbrev join_fits : PreferenceFit → PreferenceFit → PreferenceFit
    join_fits a b = record {
      matches = a.matches ++ b.matches;
      gaps = a.gaps ++ b.gaps;
      conflicts = a.conflicts ++ b.conflicts;
      gate_hits = a.gate_hits ++ b.gate_hits;
    }

    place-eq :
        (p : Preference) (fit : PreferenceFit)
        → place signals p fit ≡ join_fits fit (sorted (p ∷ []))
    unfolding place
    place-eq p fit = ground (
      arith,
      append-nil fit.matches,
      append-nil fit.gaps,
      append-nil fit.conflicts,
      append-nil fit.gate_hits,
      not_both p.sentiment,
    )

    sorted-cons :
        (p : Preference) (prefs : List Preference)
        → sorted (p ∷ prefs) ≡ join_fits (sorted (p ∷ [])) (sorted prefs)
    sorted-cons p prefs i = record {
      matches = keep-append (λ q. is_positive q && answered q) (p ∷ []) prefs i;
      gaps = keep-append (λ q. is_positive q && not (answered q)) (p ∷ []) prefs i;
      conflicts = keep-append (λ q. is_negative q && answered q) (p ∷ []) prefs i;
      gate_hits = keep-append (λ q. q.is_hard_gate && answered q) (p ∷ []) prefs i;
    }

    join_fits_assoc :
        (a b c : PreferenceFit) → join_fits (join_fits a b) c ≡ join_fits a (join_fits b c)
    join_fits_assoc a b c i = record {
      matches = append_assoc a.matches b.matches c.matches i;
      gaps = append_assoc a.gaps b.gaps c.gaps i;
      conflicts = append_assoc a.conflicts b.conflicts c.conflicts i;
      gate_hits = append_assoc a.gate_hits b.gate_hits c.gate_hits i;
    }

    place_all-eq :
        (prefs : List Preference) (fit : PreferenceFit)
        → place_all signals prefs fit ≡ join_fits fit (sorted prefs)
    unfolding place_all
    place_all-eq [] fit = λ i. record {
      matches = sym (append-nil fit.matches) i;
      gaps = sym (append-nil fit.gaps) i;
      conflicts = sym (append-nil fit.conflicts) i;
      gate_hits = sym (append-nil fit.gate_hits) i;
    }
    place_all-eq (p ∷ prefs) fit =
        place_all-eq prefs (place signals p fit)
        ∙ ap (λ f. join_fits f (sorted prefs)) (place-eq p fit)
        ∙ join_fits_assoc fit (sorted (p ∷ [])) (sorted prefs)
        ∙ ap (join_fits fit) (sym (sorted-cons p prefs))

  -- Each preference goes to at most one list, in the order of the rows. A hard gate that the posting
  -- answers is a gate hit and nothing else; of the others, a positive one is a match if it is
  -- answered and a gap if not, and a negative one is a conflict if it is answered.
  pub score_preference_fit-eq :
      (prefs : List Preference) (signals : JdSignals)
      → let fit = score_preference_fit prefs signals in
        (fit.matches ≡ keep (λ p. is_positive p && answered signals p) prefs)
        × (fit.gaps ≡ keep (λ p. is_positive p && not (answered signals p)) prefs)
        × (fit.conflicts ≡ keep (λ p. is_negative p && answered signals p) prefs)
        × (fit.gate_hits ≡ keep (λ p. p.is_hard_gate && answered signals p) prefs)
  unfolding score_preference_fit
  score_preference_fit-eq prefs signals =
      let e = place_all-eq signals prefs nothing_found in
      (ap (λ f. f.matches) e, ap (λ f. f.gaps) e, ap (λ f. f.conflicts) e, ap (λ f. f.gate_hits) e)
