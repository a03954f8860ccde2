-- ===== src/FitGate/Tokens/Plurals.antt =====
-- Folded plurals (internal/fitgate/scorer.go: foldPlural).
use role_model.Prelude.{◌≡◌, true, [], ◌∷◌, arith}
use role_model.GoText.{Str, codes, str_eq, ends_with}
use role_model.FitGate.Tokens.{drop_last, fold_plural}

-- A token that still ends in "s" when its last rune is gone ended in "ss".
ends_with_twice :
    (t : Str)
    → ends_with (codes "s") t ≡ true
    → ends_with (codes "s") (drop_last t) ≡ true
    → ends_with (codes "ss") t ≡ true
unfolding ends_with str_eq drop_last
ends_with_twice [] h k = cc
ends_with_twice (c ∷ []) h k = cc
ends_with_twice (c ∷ d ∷ []) h k = ground arith
ends_with_twice (c ∷ d ∷ e ∷ s) h k = ground (arith, ends_with_twice (d ∷ e ∷ s))

-- Folding a token a second time changes nothing, so a folded token is its own normal form.
pub fold_plural-fold_plural : (t : Str) → fold_plural (fold_plural t) ≡ fold_plural t
unfolding fold_plural
fold_plural-fold_plural t = ground (arith, ends_with_twice t)
