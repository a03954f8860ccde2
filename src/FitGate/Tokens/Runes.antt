-- ===== src/FitGate/Tokens/Runes.antt =====
-- What tokens are made of (internal/fitgate/scorer.go: tokenize).
use mathlib.Core.List.{flatten}
use role_model.Prelude.{
  ℕ, Bool, ltb, not, ◌||◌, keep, ◌≡◌, refl, ◌≢◌, false, List, [], ◌∷◌, map, Bool-cases, inl, inr,
  All, arith,
}
use role_model.GoText.{
  Str, codes, str_eq, rune_len, byte_len, ends_with, fields_func, Unicode, to_lower,
}
use role_model.GoText.Words.{IsWord, fields_func-All, flatten-fields_func}
use role_model.FitGate.Tokens.{drop_last, fold_plural, is_separator, tokenize}

module _ {ℓ} (P : ℕ → Type ℓ) where
  drop_last-All : (t : Str) → All P t → All P (drop_last t)
  unfolding drop_last
  drop_last-All [] h = h
  drop_last-All (c ∷ []) h = tt
  drop_last-All (c ∷ d ∷ t) h = (h.0, drop_last-All (d ∷ t) h.1)

  fold_plural-All : (t : Str) → All P t → All P (fold_plural t)
  unfolding fold_plural
  fold_plural-All t h = elim (Bool-cases (ltb (byte_len t) 4 || not (ends_with (codes "s") t))) [
    | inl e ↦ rw e h
    | inr e ↦ rw e (elim (Bool-cases (ends_with (codes "ss") t)) [
      | inl e' ↦ rw e' h
      | inr e' ↦ rw e' (drop_last-All t h)
    ])
  ]

fold_plural-ne-nil : (t : Str) → t ≢ [] → fold_plural t ≢ []
unfolding fold_plural drop_last ends_with str_eq byte_len rune_len
fold_plural-ne-nil [] h = absurd (h refl)
fold_plural-ne-nil (c ∷ []) h = ground arith
fold_plural-ne-nil (c ∷ d ∷ t) h = ground arith

fold_plural-IsWord : (sep : ℕ → Bool) (t : Str) → IsWord sep t → IsWord sep (fold_plural t)
fold_plural-IsWord sep t (some_rune, h) =
    (fold_plural-ne-nil t some_rune, fold_plural-All (λ c. sep c ≡ false) t h)

map-IsWord :
    (sep : ℕ → Bool) (ts : List Str) → All (IsWord sep) ts → All (IsWord sep) (map fold_plural ts)
map-IsWord sep [] h = tt
map-IsWord sep (t ∷ ts) h = (fold_plural-IsWord sep t h.0, map-IsWord sep ts h.1)

-- Tokens are the folded maximal words of the text: the words, joined, are its lowered runes without
-- the separators, and no token is empty or holds a separator.
pub tokenize_words :
    ⦃u : Unicode⦄ (s : Str)
    → (words : List Str) × (tokenize s ≡ map fold_plural words)
      × (flatten words ≡ keep (λ c. not (is_separator c)) (to_lower s))
      × All (IsWord is_separator) (tokenize s)
unfolding tokenize
tokenize_words s = (
  fields_func is_separator (to_lower s),
  refl,
  flatten-fields_func is_separator (to_lower s),
  map-IsWord is_separator _ (fields_func-All is_separator (to_lower s)),
)
