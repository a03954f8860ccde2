-- ===== src/GoText/Maps.antt =====
-- A Go map with keys of type string: one entry to a key, in the order of the first writes.
use role_model.Prelude.{
  ◌≡◌, refl, ◌∙◌, sym, List, [], ◌∷◌, Option, none, some, if◌then◌else◌, Bool, true, false,
  Bool-cases, inl, inr, arith, length, ◌≤◌, ◌+◌,
}
use role_model.GoText.{Str, str_eq}
use role_model.GoText.Equality.{eq_of_str_eq, str_eq_refl}

module _ {ℓ} {V : Type ℓ} where
  unfoldable pub lookup : Str → List (Str × V) → Option V
  lookup k [] = none
  lookup k ((j, v) ∷ m) = if str_eq j k then some v else lookup k m

  -- m[k] = v
  unfoldable pub assign : Str → V → List (Str × V) → List (Str × V)
  assign k v [] = (k, v) ∷ []
  assign k v ((j, w) ∷ m) = if str_eq j k then (j, v) ∷ m else (j, w) ∷ assign k v m

  pub lookup-assign :
      (k j : Str) (v : V) (m : List (Str × V))
      → lookup j (assign k v m) ≡ (if str_eq k j then some v else lookup j m)
  unfolding lookup assign
  lookup-assign k j v [] = refl
  lookup-assign k j v ((i, w) ∷ m) = elim (Bool-cases (str_eq i k)) [
    | inl e ↦ rw (e, eq_of_str_eq i k e) (again (str_eq k j))
    | inr e ↦
        rw (e, lookup-assign k j v m)
          (elim (Bool-cases (str_eq i j)) [
            | inl f ↦ rw f (elim (Bool-cases (str_eq k j)) [
              | inl g ↦ absurd (apart e f g)
              | inr g ↦ rw g refl
            ])
            | inr f ↦ rw f refl
          ])
  ]
    where
      again :
          (b : Bool)
          → (if b then some v else lookup j m)
            ≡ (if b then some v else (if b then some w else lookup j m))
      again true = refl
      again false = refl

      apart : str_eq i k ≡ false → str_eq i j ≡ true → str_eq k j ≡ true → ⊥
      apart e f g =
          let same : i ≡ k = eq_of_str_eq i j f ∙ sym (eq_of_str_eq k j g) in
          let h : str_eq k k ≡ false = rw same at e in cc (str_eq_refl k)

  pub lookup-assign_self : (k : Str) (v : V) (m : List (Str × V)) → lookup k (assign k v m) ≡ some v
  lookup-assign_self k v m = rw (lookup-assign k k v m, str_eq_refl k) refl

  pub length-assign : (k : Str) (v : V) (m : List (Str × V)) → length (assign k v m) ≤ length m + 1
  unfolding assign
  length-assign k v [] = ground arith
  length-assign k v ((j, w) ∷ m) = ground (arith, length-assign k v m)
