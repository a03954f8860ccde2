-- ===== src/GoText/Splitting.antt =====
-- strings.Split at the delimiter of alternatives, strings.Join, and cutting a text in two at a rune.
use role_model.Prelude.{
  ℕ, Option, none, some, ◌==◌, if◌then◌else◌, ◌≡◌, refl, ap, ◌∙◌, ◌≢◌, false, List, [], ◌∷◌, ◌++◌,
  All, arith,
}
use role_model.GoText.{Str, codes, starts_with, split}

-- strings.Join.
unfoldable pub join : Str → List Str → Str
join sep [] = []
join sep (a ∷ []) = a
join sep (a ∷ b ∷ rest) = a ++ (sep ++ join sep (b ∷ rest))

-- The text before the last occurrence of a rune and the text after it.
unfoldable pub split_at_last : ℕ → Str → Option (Str × Str)
split_at_last sep [] = none
split_at_last sep (c ∷ s) = elim (split_at_last sep s) [
  | some (before, after) ↦ some (c ∷ before, after)
  | none ↦ if c == sep then some ([], s) else none
]

-- The same for the first occurrence.
unfoldable pub split_at_first : ℕ → Str → Option (Str × Str)
split_at_first sep [] = none
split_at_first sep (c ∷ s) =
    let later = split_at_first sep s in
    if c == sep
    then some ([], s)
    else elim later [ some (before, after) ↦ some (c ∷ before, after) | none ↦ none ]

abbrev pub NoBar : Str → Type 0
NoBar a = All (λ c. c ≢ b'|') a

no_match_before :
    (c : ℕ) (a s : Str)
    → NoBar a
    → starts_with (codes " | ") (c ∷ (a ++ (codes " | " ++ s))) ≡ false
unfolding starts_with
no_match_before c [] s h = ground arith
no_match_before c (d ∷ a) s h = ground arith

no_match : (c : ℕ) (a : Str) → NoBar a → starts_with (codes " | ") (c ∷ a) ≡ false
unfolding starts_with
no_match c [] h = ground arith
no_match c (d ∷ a) h = ground arith

split-append :
    (a s : Str)
    → NoBar a
    → split (a ++ (codes " | " ++ s)) (codes " | ") ≡ a ∷ split s (codes " | ")
unfolding split starts_with
split-append [] s h = refl
split-append (c ∷ a) s h = rw (no_match_before c a s h.1) (rw (split-append a s h.1) refl)

split_last : (a : Str) → NoBar a → split a (codes " | ") ≡ a ∷ []
unfolding split
split_last [] h = refl
split_last (c ∷ a) h = rw (no_match c a h.1) (rw (split_last a h.1) refl)

-- Parts without a bar come back.
pub split-join :
    (a : Str) (rest : List Str)
    → All NoBar (a ∷ rest)
    → split (join (codes " | ") (a ∷ rest)) (codes " | ") ≡ a ∷ rest
unfolding join
split-join a [] h = split_last a h.0
split-join a (b ∷ rest) h =
    split-append a (join (codes " | ") (b ∷ rest)) h.0 ∙ ap (λ l. a ∷ l) (split-join b rest h.1)
