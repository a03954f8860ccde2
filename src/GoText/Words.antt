-- ===== src/GoText/Words.antt =====
-- strings.FieldsFunc: the fields between separators.
use mathlib.Core.List.{flatten, append_assoc}
use role_model.Prelude.{
  ℕ, ◌≡◌, refl, ap, ◌∙◌, ◌≢◌, Bool, false, not, List, [], ◌∷◌, ◌++◌, Bool-cases, inl, inr, keep,
  All,
}
use role_model.GoText.{Str, flush, fields_from, fields_func}

module _ (sep : ℕ → Bool) where
  abbrev pub IsWord : Str → Type 0
  IsWord w = w ≢ [] × All (λ c. sep c ≡ false) w

  All-snoc :
      (w : Str) (c : ℕ)
      → All (λ d. sep d ≡ false) w
      → sep c ≡ false
      → All (λ d. sep d ≡ false) (w ++ c ∷ [])
  All-snoc [] c h k = (k, tt)
  All-snoc (d ∷ w) c h k = (h.0, All-snoc w c h.1 k)

  flush-All :
      (w : Str) (ws : List Str)
      → All (λ c. sep c ≡ false) w
      → All IsWord ws
      → All IsWord (flush w ws)
  flush-All [] ws h k = k
  flush-All (c ∷ w) ws h k = (((λ e. cc), h), k)

  fields_from-All : (w s : Str) → All (λ c. sep c ≡ false) w → All IsWord (fields_from sep w s)
  unfolding fields_from
  fields_from-All w [] h = flush-All w [] h tt
  fields_from-All w (c ∷ s) h = elim (Bool-cases (sep c)) [
    | inl e ↦ rw e (flush-All w _ h (fields_from-All [] s tt))
    | inr e ↦ rw e (fields_from-All (w ++ c ∷ []) s (All-snoc w c h e))
  ]

  -- Every field is not empty and holds no separator.
  pub fields_func-All : (s : Str) → All IsWord (fields_func sep s)
  unfolding fields_func
  fields_func-All s = fields_from-All [] s tt

  flatten-flush : (w : Str) (ws : List Str) → flatten (flush w ws) ≡ w ++ flatten ws
  unfolding flatten
  flatten-flush [] ws = refl
  flatten-flush (c ∷ w) ws = refl

  flatten-fields_from : (w s : Str) → flatten (fields_from sep w s) ≡ w ++ keep (λ c. not (sep c)) s
  unfolding fields_from flatten
  flatten-fields_from w [] = flatten-flush w []
  flatten-fields_from w (c ∷ s) = elim (Bool-cases (sep c)) [
    | inl e ↦ rw e (flatten-flush w _ ∙ ap (λ l. w ++ l) (flatten-fields_from [] s))
    | inr e ↦ rw e (flatten-fields_from (w ++ c ∷ []) s ∙ append_assoc w (c ∷ []) _)
  ]

  -- The fields, joined, are the text without its separators.
  pub flatten-fields_func : (s : Str) → flatten (fields_func sep s) ≡ keep (λ c. not (sep c)) s
  unfolding fields_func
  flatten-fields_func s = flatten-fields_from [] s
