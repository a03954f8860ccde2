-- ===== src/GoText/Trimming.antt =====
-- strings.TrimSpace.
use role_model.Prelude.{◌≡◌, refl, [], ◌∷◌, ◌&&◌, Bool-cases, inl, inr}
use role_model.GoText.{Str, is_empty, Unicode, trim_left, trim_right, trim_space}

module _ ⦃u : Unicode⦄ where
  trim_right-trim_right : (s : Str) → trim_right (trim_right s) ≡ trim_right s
  unfolding trim_right
  trim_right-trim_right [] = refl
  trim_right-trim_right (c ∷ s) = elim (Bool-cases (u.is_space c && is_empty (trim_right s))) [
    | inl e ↦ rw e refl
    | inr e ↦ rw e (rw (trim_right-trim_right s) (rw e refl))
  ]

  trim_left-trim_right-trim_left :
      (s : Str) → trim_left (trim_right (trim_left s)) ≡ trim_right (trim_left s)
  unfolding trim_left trim_right
  trim_left-trim_right-trim_left [] = refl
  trim_left-trim_right-trim_left (c ∷ s) = elim (Bool-cases (u.is_space c)) [
    | inl e ↦ rw e (trim_left-trim_right-trim_left s)
    | inr e ↦ rw (e, e, e) refl
  ]

  -- Trimming twice is trimming once.
  pub trim_space-trim_space : (s : Str) → trim_space (trim_space s) ≡ trim_space s
  unfolding trim_space
  trim_space-trim_space s =
      rw (trim_left-trim_right-trim_left s) (trim_right-trim_right (trim_left s))
