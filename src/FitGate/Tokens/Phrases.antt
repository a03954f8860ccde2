-- ===== src/FitGate/Tokens/Phrases.antt =====
-- Runs of tokens (internal/fitgate/scorer.go: containsPhrase).
use mathlib.Core.List.{append-nil, append_assoc}
use role_model.Prelude.{
  ◌≡◌, refl, sym, ap, ◌∙◌, ◌≢◌, ◌↔◌, inl, inr, true, List, [], ◌∷◌, ◌++◌, Bool-cases, length,
  length-append, length_pos, take, drop, take-append-drop, take-length_append, arith,
}
use role_model.GoText.{Str, Unicode}
use role_model.GoText.Equality.{eq_of_str_eq, str_eq_refl}
use role_model.FitGate.Tokens.{runs_eq, run_at, tokenize, contains_phrase}

eq_of_runs_eq : (ss ts : List Str) → runs_eq ss ts ≡ true → ss ≡ ts
unfolding runs_eq
eq_of_runs_eq [] [] h = refl
eq_of_runs_eq [] (t ∷ ts) h = cc
eq_of_runs_eq (s ∷ ss) [] h = cc
eq_of_runs_eq (s ∷ ss) (t ∷ ts) h = ground (arith, eq_of_str_eq s t, eq_of_runs_eq ss ts)

runs_eq_refl : (ts : List Str) → runs_eq ts ts ≡ true
unfolding runs_eq
runs_eq_refl [] = refl
runs_eq_refl (t ∷ ts) = ground (arith, str_eq_refl t, runs_eq_refl ts)

-- `n` stands in `h`, between what is before and what is after it.
pub record IsRunOf (n h : List Str) : Type 0 where
  pub before : List Str
  pub after : List Str
  pub split : h ≡ before ++ (n ++ after)

IsRunOf-cons : (n h : List Str) (t : Str) → IsRunOf n h → IsRunOf n (t ∷ h)
IsRunOf-cons n h t r = record {
  before = t ∷ r.before;
  after = r.after;
  split = ap (λ l. t ∷ l) r.split;
}

run_at-IsRunOf : (n h : List Str) → run_at n h ≡ true → IsRunOf n h
unfolding run_at
run_at-IsRunOf n [] e = cc
run_at-IsRunOf n (t ∷ h) e = elim (Bool-cases (runs_eq (take (length n) (t ∷ h)) n)) [
  | inl found ↦ record {
    before = [];
    after = drop (length n) (t ∷ h);
    split = cc (take-append-drop (length n) (t ∷ h), eq_of_runs_eq _ n found);
  }
  | inr other ↦ IsRunOf-cons n h t (run_at-IsRunOf n h (ground arith))
]

run_at-append : (n before after : List Str) → n ≢ [] → run_at n (before ++ (n ++ after)) ≡ true
unfolding run_at
run_at-append [] before after h = absurd (h refl)
run_at-append (s ∷ n) [] after h =
    rw (take-length_append n after) (ground (arith, runs_eq_refl (s ∷ n), length-append n after))
run_at-append (s ∷ n) (t ∷ before) after h = ground (
  arith,
  run_at-append (s ∷ n) before after h,
  length-append before (s ∷ n ++ after),
  length-append n after,
)

IsRunOf-trans : {n h k : List Str} → IsRunOf n h → IsRunOf h k → IsRunOf n k
IsRunOf-trans r s = record {
  before = s.before ++ r.before;
  after = r.after ++ s.after;
  split = s.split ∙ ap (λ l. s.before ++ (l ++ s.after)) r.split ∙ simp append_assoc;
}

module _ ⦃u : Unicode⦄ where
  contains_phrase-IsRunOf :
      (needle haystack : Str)
      → contains_phrase needle haystack ≡ true
      → tokenize needle ≢ [] × IsRunOf (tokenize needle) (tokenize haystack)
  unfolding contains_phrase
  contains_phrase-IsRunOf needle haystack h = (
    λ e. let none_left = ap length e in absurd (ground arith),
    run_at-IsRunOf (tokenize needle) (tokenize haystack) (ground arith),
  )

  IsRunOf-contains_phrase :
      (needle haystack : Str)
      → tokenize needle ≢ []
      → IsRunOf (tokenize needle) (tokenize haystack)
      → contains_phrase needle haystack ≡ true
  unfolding contains_phrase
  IsRunOf-contains_phrase needle haystack some_token r = ground (
    arith,
    run_at-append (tokenize needle) r.before r.after some_token,
    length_pos (tokenize needle) some_token,
    ap length r.split,
    length-append r.before (tokenize needle ++ r.after),
    length-append (tokenize needle) r.after,
  )

  -- A phrase is found exactly when its tokens, of which there is one at least, stand as a contiguous
  -- run among the tokens of the text.
  pub contains_phrase_iff :
      (needle haystack : Str)
      → (contains_phrase needle haystack ≡ true)
        ↔ (tokenize needle ≢ [] × IsRunOf (tokenize needle) (tokenize haystack))
  contains_phrase_iff needle haystack = (
    contains_phrase-IsRunOf needle haystack,
    λ (some_token, r). IsRunOf-contains_phrase needle haystack some_token r,
  )

  -- Phrase matching is transitive: what a phrase within a phrase answers, the wider text answers.
  pub contains_phrase_trans :
      (a b c : Str)
      → contains_phrase a b ≡ true
      → contains_phrase b c ≡ true
      → contains_phrase a c ≡ true
  contains_phrase_trans a b c ab bc =
      let (some_token, r) = contains_phrase-IsRunOf a b ab in
      let s = (contains_phrase-IsRunOf b c bc).1 in
      IsRunOf-contains_phrase a c some_token (IsRunOf-trans r s)

  pub contains_phrase_self : (a : Str) → tokenize a ≢ [] → contains_phrase a a ≡ true
  contains_phrase_self a some_token =
      IsRunOf-contains_phrase a a some_token
        (record { before = []; after = []; split = sym (append-nil (tokenize a)) })
