-- ===== src/Generation/Words/Occurrence.antt =====
-- What namedIn finds (internal/generation/reconcile.go).
use role_model.Prelude.{
  ℕ, zero, suc, ◌<◌, ◌≡◌, refl, sym, ap, ap₂, ◌∙◌, ◌↔◌, ◌≢◌, Bool, true, false, ◌&&◌, [], ◌∷◌, ◌++◌,
  append_assoc, append-nil, Option, none, some, some_eq, drop, length, length-append, Bool-cases,
  Option-cases, inl, inr, arith,
}
use role_model.GoText.{Str, is_empty, starts_with, Unicode, to_lower}
use role_model.Generation.Words.{past, find, before_ok, after_ok, named_from, or_false, named_in}

starts_with-append : (p t : Str) → starts_with p (p ++ t) ≡ true
unfolding starts_with
starts_with-append [] t = refl
starts_with-append (c ∷ p) t = ground (arith, starts_with-append p t)

starts_with_split : (p s : Str) → starts_with p s ≡ true → s ≡ p ++ drop (length p) s
unfolding starts_with
starts_with_split [] s h = refl
starts_with_split (c ∷ p) [] h = cc
starts_with_split (c ∷ p) (d ∷ s) h = ground (arith, starts_with_split p s)

pair_eq : {a b c d : Str} → ◌≡◌ {A = Str × Str} (a, b) (c, d) → (a ≡ c) × (b ≡ d)
pair_eq h = (ap (λ p. p.0) h, ap (λ p. p.1) h)

drop_nil : (n : ℕ) → drop {A = ℕ} n [] ≡ []
drop_nil zero = refl
drop_nil (suc n) = refl

past-some :
    (c : ℕ) (r : Option (Str × Str)) (skipped after : Str)
    → past c r ≡ some (skipped, after)
    → (k : Str) × (r ≡ some (k, after)) × (skipped ≡ c ∷ k)
past-some c none skipped after h = cc
past-some c (some (k, a)) skipped after h =
    let parts = pair_eq (some_eq h) in (k, ap (λ (x : Str). some (k, x)) parts.1, sym parts.0)

past-none : (c : ℕ) (r : Option (Str × Str)) → past c r ≡ none → r ≡ none
past-none c none h = refl
past-none c (some (k, a)) h = cc

-- What is found is a match.
find-match :
    (name rest skipped after : Str)
    → find name rest ≡ some (skipped, after)
    → rest ≡ skipped ++ (name ++ after)
unfolding find
find-match name [] skipped after h = elim (Bool-cases (starts_with name [])) [
  | inl e ↦
      let at_start = starts_with_split name [] e in
      let parts = pair_eq (some_eq (rw e at h)) in
      at_start ∙ ap₂ (λ (k a : Str). k ++ (name ++ a)) parts.0 (drop_nil (length name) ∙ parts.1)
  | inr e ↦ cc (rw e at h)
]
find-match name (c ∷ s) skipped after h = elim (Bool-cases (starts_with name (c ∷ s))) [
  | inl e ↦
      let parts = pair_eq (some_eq (rw e at h)) in
      starts_with_split name (c ∷ s) e ∙ ap₂ (λ (k a : Str). k ++ (name ++ a)) parts.0 parts.1
  | inr e ↦
      let (k, f, g) = past-some c (find name s) skipped after (rw e at h) in
      ap (λ (l : Str). c ∷ l) (find-match name s k after f)
      ∙ ap (λ (l : Str). l ++ (name ++ after)) (sym g)
]

cons_eq : {a b : ℕ} {s t : Str} → a ∷ s ≡ b ∷ t → (a ≡ b) × (s ≡ t)
cons_eq h = (cc, cc)

append_cancel : (k : Str) {s t : Str} → k ++ s ≡ k ++ t → s ≡ t
append_cancel [] h = h
append_cancel (d ∷ k) h = append_cancel k (cons_eq h).1

and_parts : (x y : Bool) → (x && y) ≡ true → (x ≡ true) × (y ≡ true)
and_parts true true h = (refl, refl)
and_parts true false h = cc
and_parts false y h = cc

not_empty : (l pre : Str) (c : ℕ) (s : Str) → is_empty l ≡ true → l ≡ pre ++ c ∷ s → ⊥
not_empty [] [] c s h e = cc
not_empty [] (d ∷ pre) c s h e = cc
not_empty (x ∷ l) pre c s h e = cc

-- A text that does not start with the name has an occurrence only later.
moved :
    (name : Str) (c : ℕ) (s pre post : Str)
    → starts_with name (c ∷ s) ≡ false
    → c ∷ s ≡ pre ++ (name ++ post)
    → (pre' : Str) × (pre ≡ c ∷ pre') × (s ≡ pre' ++ (name ++ post))
moved name c s [] post h e =
    let yes_it = starts_with-append name post in
    let no_it : starts_with name (name ++ post) ≡ false = rw (← e) h in cc
moved name c s (d ∷ pre) post h e =
    let (same, rest) = cons_eq e in (pre, ap (λ x. x ∷ pre) (sym same), rest)

-- It is the first one.
find-first :
    (name rest skipped after pre post : Str)
    → find name rest ≡ some (skipped, after)
    → rest ≡ pre ++ (name ++ post)
    → (more : Str) × (pre ≡ skipped ++ more)
unfolding find
find-first name [] skipped after pre post h e = elim (Bool-cases (starts_with name [])) [
  | inl f ↦ let parts = pair_eq (some_eq (rw f at h)) in (pre, ap (λ (k : Str). k ++ pre) parts.0)
  | inr f ↦ cc (rw f at h)
]
find-first name (c ∷ s) skipped after pre post h e = elim (Bool-cases (starts_with name (c ∷ s))) [
  | inl f ↦ let parts = pair_eq (some_eq (rw f at h)) in (pre, ap (λ (k : Str). k ++ pre) parts.0)
  | inr f ↦
      let (k, found, g) = past-some c (find name s) skipped after (rw f at h) in
      let (pre', p, q) = moved name c s pre post f e in
      let (more, r) = find-first name s k after pre' post found q in
      (more, p ∙ ap (λ (l : Str). c ∷ l) r ∙ ap (λ (l : Str). l ++ more) (sym g))
]

find-none : (name rest pre post : Str) → find name rest ≡ none → rest ≡ pre ++ (name ++ post) → ⊥
unfolding find
find-none name [] pre post h e = elim (Bool-cases (starts_with name [])) [
  | inl f ↦ cc (rw f at h)
  | inr f ↦ nowhere pre e f
]
  where
    nowhere : (pre : Str) → [] ≡ pre ++ (name ++ post) → starts_with name [] ≡ false → ⊥
    nowhere [] e f = let g = starts_with-append name post in cc (rw (← e) at g)
    nowhere (d ∷ pre) e f = cc
find-none name (c ∷ s) pre post h e = elim (Bool-cases (starts_with name (c ∷ s))) [
  | inl f ↦ cc (rw f at h)
  | inr f ↦
      let (pre', p, q) = moved name c s pre post f e in
      find-none name s pre' post (past-none c (find name s) (rw f at h)) q
]

module _ ⦃u : Unicode⦄ where
  -- The name stands in the text, with no letter or digit next to it.
  abbrev pub StandsIn : Str → Str → Str → Type 0
  StandsIn name before rest =
      (pre : Str) × (post : Str) × (rest ≡ pre ++ (name ++ post))
      × (before_ok (before ++ pre) ≡ true)
      × (after_ok post ≡ true)

  -- What the loop answers.
  abbrev Answers : Str → Str → Str → Option Bool → Type 0
  Answers name before rest none = ⊥
  Answers name before rest (some true) = StandsIn name before rest
  Answers name before rest (some false) = ¬ StandsIn name before rest

  module _ (c : ℕ) (n before rest k a : Str) (split : rest ≡ k ++ (c ∷ n ++ a)) where
    -- An occurrence after the start of a match that was refused, seen from the next rune.
    advance :
        (before_ok (before ++ k) && after_ok a) ≡ false
        → (pre post more : Str) → pre ≡ k ++ more
        → rest ≡ pre ++ (c ∷ n ++ post)
        → before_ok (before ++ pre) ≡ true
        → after_ok post ≡ true
        → StandsIn (c ∷ n) ((before ++ k) ++ c ∷ []) (n ++ a)
    advance refused pre post [] p e b o =
        let same : a ≡ post = append_cancel (c ∷ n) (
          append_cancel k
            (sym split ∙ e ∙ ap (λ (l : Str). l ++ (c ∷ n ++ post)) (p ∙ append-nil k))) in
        let b' : before_ok (before ++ k) ≡ true =
          ap (λ (l : Str). before_ok (before ++ l)) (sym (p ∙ append-nil k)) ∙ b in
        let o' : after_ok a ≡ true = ap after_ok same ∙ o in absurd (clash b' o' refused)
      where
        clash : {x y : Bool} → x ≡ true → y ≡ true → (x && y) ≡ false → ⊥
        clash p q r = cc (rw (p, q) at r)
    advance refused pre post (d ∷ m) p e b o =
        let tail : c ∷ n ++ a ≡ d ∷ m ++ (c ∷ n ++ post) = append_cancel k (
          sym split
          ∙ e
          ∙ ap (λ (l : Str). l ++ (c ∷ n ++ post)) p
          ∙ append_assoc k (d ∷ m) (c ∷ n ++ post)) in
        let (head, rest_eq) = cons_eq tail in
        (
          m,
          post,
          rest_eq,
          ap before_ok (
                append_assoc (before ++ k) (c ∷ []) m
                ∙ append_assoc before k (c ∷ m)
                ∙ ap (λ x. before ++ (k ++ x ∷ m)) head
                ∙ ap (λ (l : Str). before ++ l) (sym p))
              ∙ b,
          o,
        )

    retreat : StandsIn (c ∷ n) ((before ++ k) ++ c ∷ []) (n ++ a) → StandsIn (c ∷ n) before rest
    retreat (m, post, e, b, o) = (
      k ++ c ∷ m,
      post,
      split ∙ ap (λ (l : Str). k ++ c ∷ l) e ∙ sym (append_assoc k (c ∷ m) (c ∷ n ++ post)),
      ap before_ok (
            ap (λ (l : Str). l) (sym (append_assoc before k (c ∷ m)))
            ∙ sym (append_assoc (before ++ k) (c ∷ []) m))
          ∙ b,
      o,
    )

  Answers-iff :
      (name before rest before' rest' : Str) (r : Option Bool)
      → (StandsIn name before' rest' → StandsIn name before rest)
      → (StandsIn name before rest → StandsIn name before' rest')
      → Answers name before' rest' r
      → Answers name before rest r
  Answers-iff name before rest before' rest' none f g h = h
  Answers-iff name before rest before' rest' (some true) f g h = f h
  Answers-iff name before rest before' rest' (some false) f g h = λ s. h (g s)

  -- The loop ends with the rounds given, and answers whether the name stands in the rest.
  named_from-Answers :
      (f c : ℕ) (n before rest : Str)
      → length rest < f
      → Answers (c ∷ n) before rest (named_from f (c ∷ n) before rest)
  unfolding named_from
  named_from-Answers zero c n before rest low = absurd (omega arith)
  named_from-Answers (suc f) c n before rest low = elim (Option-cases (find (c ∷ n) rest)) [
    | inl lost ↦ rw lost (λ s. find-none (c ∷ n) rest s.0 s.1 lost s.2)
    | inr ((k, a), found) ↦
        let split = find-match (c ∷ n) rest k a found in
        let shorter : length (n ++ a) < f =
          omega (arith, low, ap length split, length-append k (c ∷ n ++ a)) in
        let later = named_from-Answers f c n ((before ++ k) ++ c ∷ []) (n ++ a) shorter in
        let onward =
          λ (no_match : (before_ok (before ++ k) && after_ok a) ≡ false)
              (s : StandsIn (c ∷ n) before rest).
            let (more, p) = find-first (c ∷ n) rest k a s.0 s.1 found s.2 in
            advance c n before rest k a split no_match s.0 s.1 more p s.2 s.3 s.4 in
        elim (Bool-cases (before_ok (before ++ k) && after_ok a)) [
          | inl good ↦ let (b, o) = and_parts _ _ good in rw (found, good) (k, a, split, b, o)
          | inr bad ↦ elim (Bool-cases (is_empty (n ++ a))) [
            | inl over ↦
                rw (found, bad, over)
                  (λ s. let t = onward bad s in not_empty (n ++ a) t.0 c (n ++ t.1) over t.2)
            | inr on ↦
                rw (found, bad, on)
                  (Answers-iff (c ∷ n) before rest ((before ++ k) ++ c ∷ []) (n ++ a) _
                    (retreat c n before rest k a split) (onward bad) later)
          ]
        ]
  ]

  answer_iff :
      (name before rest : Str) (r : Option Bool)
      → Answers name before rest r
      → (or_false r ≡ true) ↔ StandsIn name before rest
  answer_iff name before rest none h = absurd h
  answer_iff name before rest (some true) h = ((λ e. h), (λ s. refl))
  answer_iff name before rest (some false) h = ((λ e. cc), (λ s. absurd (h s)))

  -- A text names a skill exactly when the skill's name is not empty and stands in the text, both in
  -- lower case, with no letter or digit right before or right after it.
  pub named_in_iff :
      (text name : Str)
      → (named_in text name ≡ true) ↔ ((name ≢ []) × StandsIn (to_lower name) [] (to_lower text))
  unfolding named_in to_lower
  named_in_iff text [] = ((λ e. cc), (λ h. absurd (h.0 refl)))
  named_in_iff text (c ∷ n) =
      let lower_text = to_lower text in
      let loop = answer_iff (to_lower (c ∷ n)) [] lower_text _ (
        named_from-Answers (suc (length lower_text)) (u.rune_lower c) (to_lower n) [] lower_text
          (omega arith)) in
      ((λ e. ((λ f. cc), loop.0 e)), (λ h. loop.1 h.1))
