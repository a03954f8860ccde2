-- ===== src/FitGate/Tokens.antt =====
-- Whole-word phrase matching (internal/fitgate/scorer.go: tokenize, foldPlural, containsPhrase).
pub mod Plurals
pub mod Phrases
pub mod Runes
use role_model.Prelude.{
  ℕ, zero, suc, ◌-◌, Bool, true, false, not, ◌&&◌, ◌||◌, List, [], ◌∷◌, map, ltb, leb, ◌==◌,
  if◌then◌else◌, length, take,
}
use role_model.GoText.{Str, codes, str_eq, byte_len, ends_with, fields_func, Unicode, to_lower}

-- slices.Equal on token runs.
unfoldable pub runs_eq : List Str → List Str → Bool
runs_eq [] [] = true
runs_eq [] (t ∷ ts) = false
runs_eq (s ∷ ss) [] = false
runs_eq (s ∷ ss) (t ∷ ts) = str_eq s t && runs_eq ss ts

-- s[:len(s)-1] where the last rune is one byte.
unfoldable pub drop_last : Str → Str
drop_last [] = []
drop_last (c ∷ []) = []
drop_last (c ∷ d ∷ s) = c ∷ drop_last (d ∷ s)

unfoldable pub fold_plural : Str → Str
fold_plural token =
    if ltb (byte_len token) 4 || not (ends_with (codes "s") token)
    then token
    else if ends_with (codes "ss") token
    then token
    else drop_last token

-- The loop of containsPhrase over the positions of the haystack. The needle is not empty.
unfoldable pub run_at : List Str → List Str → Bool
run_at n [] = false
run_at n (t ∷ h) =
    if leb (length n) (length (t ∷ h))
    then runs_eq (take (length n) (t ∷ h)) n || run_at n h
    else false

module _ ⦃u : Unicode⦄ where
  -- The runes that part two tokens.
  unfoldable pub is_separator : ℕ → Bool
  is_separator r = not (u.is_letter r) && not (u.is_digit r) && not (r == b'+') && not (r == b'#')

  unfoldable pub tokenize : Str → List Str
  tokenize s = map fold_plural (fields_func is_separator (to_lower s))

  unfoldable pub contains_phrase : Str → Str → Bool
  contains_phrase needle haystack =
      let n = tokenize needle in
      let h = tokenize haystack in
      if length n == 0 || ltb (length h) (length n) then false else run_at n h
