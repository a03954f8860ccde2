-- ===== src/Generation/Words.antt =====
-- Whether a text names a skill as a whole word (internal/generation/reconcile.go: namedIn,
-- isWordChar, lastRune, firstRune, namedInAny). A position in a text is kept as the text before it
-- and the text from it on; `offset = start + 1` steps one rune, since a match never starts inside
-- the bytes of a rune.
pub mod Occurrence
use role_model.Prelude.{
  ℕ, zero, suc, Bool, true, false, not, ◌&&◌, ◌||◌, List, [], ◌∷◌, ◌++◌, any, Option, none, some,
  if◌then◌else◌, take, drop, length,
}
use role_model.GoText.{Str, is_empty, starts_with, Unicode, to_lower}

abbrev pub past : ℕ → Option (Str × Str) → Option (Str × Str)
past c none = none
past c (some (skipped, after)) = some (c ∷ skipped, after)

-- strings.Index: the text before the first match and the text after it.
unfoldable pub find : Str → Str → Option (Str × Str)
unfolding starts_with
find name [] = if starts_with name [] then some ([], []) else none
find name (c ∷ s) =
    let later = find name s in
    if starts_with name (c ∷ s) then some ([], drop (length name) (c ∷ s)) else past c later

module _ ⦃u : Unicode⦄ where
  abbrev pub is_word_char : ℕ → Bool
  is_word_char r = u.is_letter r || u.is_digit r

  -- `start == 0 || !isWordChar(lastRune(text[:start]))`
  abbrev pub before_ok : Str → Bool
  before_ok [] = true
  before_ok (c ∷ []) = not (is_word_char c)
  before_ok (c ∷ d ∷ s) = before_ok (d ∷ s)

  -- `end == len(text) || !isWordChar(firstRune(text[end:]))`
  abbrev pub after_ok : Str → Bool
  after_ok [] = true
  after_ok (c ∷ s) = not (is_word_char c)

  -- The body of the loop; `again` searches on from the rune after the start of a match.
  abbrev pub judge : Str → Str → (Str → Str → Str → Option Bool) → Option (Str × Str) → Option Bool
  judge name before again none = some false
  judge name before again (some (skipped, after)) =
      let start = before ++ skipped in
      let from_next = drop 1 name ++ after in
      if before_ok start && after_ok after
      then some true
      else if is_empty from_next
      then some false
      else again name (start ++ take 1 name) from_next

  -- The loop of namedIn, `none` if the rounds given are too few.
  unfoldable pub named_from : ℕ → Str → Str → Str → Option Bool
  unfolding find
  named_from zero name before rest = none
  named_from (suc rounds) name before rest = judge name before (named_from rounds) (find name rest)

  abbrev pub or_false : Option Bool → Bool
  or_false none = false
  or_false (some b) = b

  unfoldable pub named_in : Str → Str → Bool
  unfolding named_from
  named_in text name =
      let lower_text = to_lower text in
      if is_empty name
      then false
      else or_false (named_from (suc (length lower_text)) (to_lower name) [] lower_text)

  unfoldable pub named_in_any : List Str → Str → Bool
  named_in_any texts name = any (λ text. named_in text name) texts
