-- ===== src/FitGate/Alternatives/RoundTrip.antt =====
-- Reading the alternatives of an entry (internal/fitgate/scorer.go: splitAlternatives).
use role_model.Prelude.{◌≡◌, refl, ap, ◌≢◌, false, List, [], ◌∷◌, All, Bool-cases, inl, inr}
use role_model.GoText.{Str, is_empty, Unicode, trim_space}
use role_model.GoText.Trimming.{trim_space-trim_space}
use role_model.GoText.Splitting.{join, NoBar, split-join}
use role_model.FitGate.Alternatives.{alternatives_delimiter, trim_parts, split_alternatives}

module _ ⦃u : Unicode⦄ where
  -- An alternative as a posting should state it: some text, with no space round it.
  abbrev pub IsAlternative : Str → Type 0
  IsAlternative a = a ≢ [] × (trim_space a ≡ a)

  is_empty-ne : (a : Str) → is_empty a ≡ false → a ≢ []
  is_empty-ne [] h = cc
  is_empty-ne (c ∷ a) h = λ e. cc

  ne-is_empty : (a : Str) → a ≢ [] → is_empty a ≡ false
  ne-is_empty [] h = absurd (h refl)
  ne-is_empty (c ∷ a) h = refl

  trim_parts-All : (parts : List Str) → All IsAlternative (trim_parts parts)
  unfolding trim_parts
  trim_parts-All [] = tt
  trim_parts-All (p ∷ ps) = elim (Bool-cases (is_empty (trim_space p))) [
    | inl e ↦ rw e (trim_parts-All ps)
    | inr e ↦ rw e ((is_empty-ne _ e, trim_space-trim_space p), trim_parts-All ps)
  ]

  -- Every alternative that is read is some text with no space round it.
  pub split_alternatives-All : (entry : Str) → All IsAlternative (split_alternatives entry)
  unfolding split_alternatives
  split_alternatives-All entry = trim_parts-All _

  trim_parts_id : (parts : List Str) → All IsAlternative parts → trim_parts parts ≡ parts
  unfolding trim_parts
  trim_parts_id [] h = refl
  trim_parts_id (p ∷ ps) h =
      rw h.0.1 (rw (ne-is_empty p h.0.0) (ap (λ l. p ∷ l) (trim_parts_id ps h.1)))

  -- Alternatives that are not empty, have no space round them and hold no bar, written one after
  -- another with the delimiter between them, are read back one by one.
  pub split_alternatives-join :
      (a : Str) (rest : List Str)
      → All IsAlternative (a ∷ rest)
      → All NoBar (a ∷ rest)
      → split_alternatives (join alternatives_delimiter (a ∷ rest)) ≡ a ∷ rest
  unfolding split_alternatives
  split_alternatives-join a rest h n = rw (split-join a rest n) (trim_parts_id (a ∷ rest) h)
