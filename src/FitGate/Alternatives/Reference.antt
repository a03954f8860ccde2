-- ===== src/FitGate/Alternatives/Reference.antt =====
-- The loop of collapseSubsumed over positions and its plain description
-- (internal/fitgate/scorer.go).
use mathlib.Core.List.{map-append, append_assoc}
use native.Mathlib.Numerals.{add-one}
use role_model.Prelude.{
  ℕ, suc, ◌+◌, ◌<◌, ◌≡◌, refl, Bool, true, false, not, ◌&&◌, List, [], ◌∷◌, ◌++◌, map, keep, any,
  ltb, ◌==◌, length, length-append, length-map, sym, ◌∙◌, arith,
}
use role_model.GoText.{Str, Unicode}
use role_model.FitGate.Alternatives.{
  is_subset, subsumed_from, group_of, collapse_from, collapse_subsumed,
}

-- `h` offers everything that `g` offers, and more.
abbrev pub wider : List Str → List Str → Bool
wider g h = ltb (length g) (length h) && is_subset g h

passed-eq-any :
    (i : ℕ) (g : List Str) (j : ℕ) (hs : List (List Str))
    → i < j
    → subsumed_from i g j hs ≡ any (wider g) hs
unfolding subsumed_from
passed-eq-any i g j [] h = refl
passed-eq-any i g j (k ∷ hs) h =
    let far : (i == j) ≡ false = ground arith in
    rw far (rw (passed-eq-any i g (suc j) hs (omega arith)) refl)

-- The test that two positions differ is never decisive: a group is not wider than itself.
subsumed_from-eq-any :
    (i : ℕ) (g : List Str) (j : ℕ) (before after : List (List Str))
    → i ≡ j + length before
    → subsumed_from i g j (before ++ g ∷ after) ≡ any (wider g) (before ++ g ∷ after)
unfolding subsumed_from
subsumed_from-eq-any i g j [] after e =
    let own : ltb (length g) (length g) ≡ false = ground arith in
    let here : (i == j) ≡ true = ground arith in
    rw (own, here) (passed-eq-any i g (suc j) after (omega arith))
subsumed_from-eq-any i g j (k ∷ before) after e =
    let far : (i == j) ≡ false = ground arith in
    rw far (rw (subsumed_from-eq-any i g (suc j) before after (omega arith)) refl)

module _ ⦃u : Unicode⦄ where
  -- An entry survives if it offers something, and no entry offers more.
  abbrev pub survives : List Str → Str → Bool
  survives entries e =
      not (length (group_of e) == 0) && not (any (wider (group_of e)) (map group_of entries))

  subsumed-eq-any :
      (entries done es : List Str) (e : Str)
      → entries ≡ done ++ e ∷ es
      → subsumed_from (length done) (group_of e) 0 (map group_of entries)
        ≡ any (wider (group_of e)) (map group_of entries)
  subsumed-eq-any entries done es e split =
      rw (split, map-append)
        (subsumed_from-eq-any (length done) (group_of e) 0 (map group_of done) (map group_of es)
          (omega (arith, length-map group_of done)))

  collapse_from-eq-keep :
      (entries done es : List Str)
      → entries ≡ done ++ es
      → collapse_from (map group_of entries) (length done) es ≡ keep (survives entries) es
  unfolding collapse_from
  collapse_from-eq-keep entries done [] split = refl
  collapse_from-eq-keep entries done (e ∷ es) split =
      let rest =
        collapse_from-eq-keep entries (done ++ e ∷ []) es
          (split ∙ sym (append_assoc done (e ∷ []) es)) in
      let next : collapse_from (map group_of entries) (suc (length done)) es
          ≡ keep (survives entries) es =
        rw (length-append done (e ∷ []), add-one) at rest in
      rw (next, subsumed-eq-any entries done es e split) (ground arith)

  -- Collapsing keeps, in order, exactly the entries that offer some alternative and whose
  -- alternatives are not a strict part of another entry's.
  pub collapse_subsumed-eq-keep :
      (entries : List Str) → collapse_subsumed entries ≡ keep (survives entries) entries
  unfolding collapse_subsumed
  collapse_subsumed-eq-keep entries = collapse_from-eq-keep entries [] entries refl
