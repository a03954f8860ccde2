-- ===== src/Intake/Flags/Shared.antt =====
-- When category names count as redundant (internal/intake/flags.go: hasSharedToken).
use role_model.Prelude.{
  ◌≡◌, refl, ap, ◌∙◌, Bool, true, false, ◌&&◌, ◌||◌, List, [], ◌∷◌, ◌++◌, map, not, any, leb, ltb,
  arith, Bool-cases, inl, inr,
}
use role_model.GoText.{Str, str_eq, byte_len, Unicode}
use role_model.GoText.Equality.{eq_of_str_eq}
use role_model.Intake.Collisions.{token_bag}
use role_model.Intake.Flags.{is_seen, scan_tokens, shared_from, has_shared_token}

-- The tokens that count.
abbrev pub is_long : Str → Bool
is_long token = leb 4 (byte_len token)

-- Some long token of the first list is in the second.
abbrev pub meets : List Str → List Str → Bool
meets tokens seen = any (λ t. is_long t && is_seen seen t) tokens

-- Some two of the names share a long token.
abbrev pub redundant : List (List Str) → Bool
redundant [] = false
redundant (bag ∷ bags) = any (λ other. meets other bag) bags || redundant bags

any_eq : {A : Type 0} (f g : A → Bool) (xs : List A) → ((x : A) → f x ≡ g x) → any f xs ≡ any g xs
any_eq f g [] h = refl
any_eq f g (x ∷ xs) h = ground (arith, h x, any_eq f g xs h)

any_or :
    {A : Type 0} (f g : A → Bool) (xs : List A) → any (λ x. f x || g x) xs ≡ any f xs || any g xs
any_or f g [] = refl
any_or f g (x ∷ xs) = ground (arith, any_or f g xs)

any_none : {A : Type 0} (f : A → Bool) (xs : List A) → ((x : A) → f x ≡ false) → any f xs ≡ false
any_none f [] h = refl
any_none f (x ∷ xs) h = ground (arith, h x, any_none f xs h)

is_seen-append : (l m : List Str) (x : Str) → is_seen (l ++ m) x ≡ is_seen l x || is_seen m x
is_seen-append [] m x = refl
is_seen-append (y ∷ l) m x = ground (arith, is_seen-append l m x)

is_seen-eq : (l : List Str) (s t : Str) → str_eq s t ≡ true → is_seen l s ≡ is_seen l t
is_seen-eq l s t h = ap (is_seen l) (eq_of_str_eq s t h)

is_long-eq : (s t : Str) → str_eq s t ≡ true → is_long s ≡ is_long t
is_long-eq s t h = ap is_long (eq_of_str_eq s t h)

-- A long token that is not in `local` and is in `seen`.
abbrev fresh_hit : List Str → List Str → Str → Bool
fresh_hit local seen t = is_long t && (not (is_seen local t) && is_seen seen t)

fresh_hit-cons :
    (local seen : List Str) (token : Str)
    → is_seen seen token ≡ false
    → (t : Str) → fresh_hit (token ∷ local) seen t ≡ fresh_hit local seen t
fresh_hit-cons local seen token h t = elim (Bool-cases (str_eq token t)) [
  | inl e ↦ ground (arith, is_seen-eq seen token t e)
  | inr e ↦ ground arith
]

scan_tokens-found :
    (tokens local seen : List Str)
    → (scan_tokens local (local ++ seen) tokens).0 ≡ any (fresh_hit local seen) tokens
unfolding scan_tokens
scan_tokens-found [] local seen = refl
scan_tokens-found (t ∷ tokens) local seen =
    elim (Bool-cases (ltb (byte_len t) 4 || is_seen local t)) [
      | inl skip ↦ rw skip (scan_tokens-found tokens local seen ∙ ground (arith))
      | inr take ↦ elim (Bool-cases (is_seen (local ++ seen) t)) [
        | inl hit ↦ rw (take, hit) (ground (arith, is_seen-append local seen t))
        | inr miss ↦
            rw (take, miss)
              (scan_tokens-found tokens (t ∷ local) seen
                ∙ any_eq _ _ tokens
                    (fresh_hit-cons local seen t (ground (arith, is_seen-append local seen t)))
                ∙ ground (arith, is_seen-append local seen t))
      ]
    ]

scan_tokens-seen :
    (tokens local seen : List Str) (x : Str)
    → (scan_tokens local (local ++ seen) tokens).0 ≡ false
    → is_seen (scan_tokens local (local ++ seen) tokens).1 x
      ≡ is_seen (local ++ seen) x || (is_long x && is_seen tokens x)
unfolding scan_tokens
scan_tokens-seen [] local seen x h = ground arith
scan_tokens-seen (t ∷ tokens) local seen x h =
    elim (Bool-cases (ltb (byte_len t) 4 || is_seen local t)) [
      | inl skip ↦ rw skip (
          scan_tokens-seen tokens local seen x (rw skip at h) ∙ elim (Bool-cases (str_eq t x)) [
            | inl e ↦
                ground
                  (arith, is_seen-eq local t x e, is_long-eq t x e, is_seen-append local seen x)
            | inr e ↦ ground arith
          ])
      | inr take ↦ elim (Bool-cases (is_seen (local ++ seen) t)) [
        | inl hit ↦ let q : true ≡ false = rw (take, hit) at h in cc
        | inr miss ↦
            rw (take, miss)
              (scan_tokens-seen tokens (t ∷ local) seen x (rw (take, miss) at h)
                ∙ elim (Bool-cases (str_eq t x)) [
                  | inl e ↦ ground (arith, is_long-eq t x e)
                  | inr e ↦ ground arith
                ])
      ]
    ]

meets-seen :
    (tokens bag seen seen' : List Str)
    → ((x : Str) → is_seen seen' x ≡ is_seen seen x || (is_long x && is_seen bag x))
    → meets tokens seen' ≡ meets tokens seen || meets tokens bag
meets-seen tokens bag seen seen' h =
    any_eq _ (λ t. (is_long t && is_seen seen t) || (is_long t && is_seen bag t)) tokens
      (λ t. ground (arith, h t))
    ∙ any_or _ _ tokens

module _ ⦃u : Unicode⦄ where
  abbrev bags : List Str → List (List Str)
  bags names = map token_bag names

  shared_from-eq :
      (names seen : List Str)
      → shared_from seen names ≡ any (λ bag. meets bag seen) (bags names) || redundant (bags names)
  unfolding shared_from
  shared_from-eq [] seen = refl
  shared_from-eq (n ∷ names) seen =
      let bag = token_bag n in
      let found : (scan_tokens [] seen bag).0 ≡ meets bag seen =
        scan_tokens-found bag [] seen ∙ any_eq _ _ bag (λ t. ground arith) in
      elim (Bool-cases (scan_tokens [] seen bag).0) [
        | inl y ↦ rw y (ground (arith))
        | inr z ↦
            let later = shared_from-eq names (scan_tokens [] seen bag).1 in
            let split : any (λ other. meets other (scan_tokens [] seen bag).1) (bags names)
                ≡ any (λ other. meets other seen) (bags names)
                  || any (λ other. meets other bag) (bags names) =
              any_eq _ (λ other. meets other seen || meets other bag) (bags names)
                (λ other. meets-seen other bag seen _ (λ x. scan_tokens-seen bag [] seen x z))
              ∙ any_or (λ other. meets other seen) (λ other. meets other bag) (bags names) in
            rw z (ground (arith))
      ]

  -- A set of category names counts as redundant exactly if two of the names share a word of at least
  -- four bytes.
  pub has_shared_token-eq :
      (names : List Str) → has_shared_token names ≡ redundant (map token_bag names)
  unfolding has_shared_token
  has_shared_token-eq names =
      shared_from-eq names []
      ∙ rw (any_none (λ bag. meets bag []) (bags names) (λ bag. any_none _ bag (λ t. ground arith)))
          refl
