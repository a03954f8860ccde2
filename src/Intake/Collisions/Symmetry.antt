-- ===== src/Intake/Collisions/Symmetry.antt =====
-- A label and an existing one, seen from either side (internal/intake/collision.go:
-- CheckPreferenceLabel).
use role_model.Prelude.{
  ◌≡◌, refl, sym, ap, true, false, List, [], ◌∷◌, length, ◌==◌, map, if◌then◌else◌, arith,
  Bool-cases, inl, inr, Option, none, some,
}
use role_model.GoText.{Str, Unicode}
use role_model.GoText.Equality.{str_eq_sym}
use role_model.Intake.Collisions.{
  CollisionReason, PreferenceCollision, equal_runs, sort, equal_bags, collision_reason, token_bag,
  collisions_with, check_preference_label,
}

equal_runs_sym : (a b : List Str) → equal_runs a b ≡ equal_runs b a
unfolding equal_runs
equal_runs_sym [] [] = refl
equal_runs_sym [] (t ∷ b) = refl
equal_runs_sym (s ∷ a) [] = refl
equal_runs_sym (s ∷ a) (t ∷ b) = ground (arith, equal_runs_sym a b, str_eq_sym s t)

equal_bags_sym : (a b : List Str) → equal_bags a b ≡ equal_bags b a
unfolding equal_bags
equal_bags_sym a b = ground (arith, equal_runs_sym (sort a) (sort b))

collision_reason_sym :
    (a b : List Str)
    → (length a == 0) ≡ false
    → (length b == 0) ≡ false
    → collision_reason a b ≡ collision_reason b a
unfolding collision_reason
collision_reason_sym a b p q = ground (arith, equal_runs_sym a b, equal_bags_sym a b)

-- The reasons without the labels.
abbrev pub reasons : List PreferenceCollision → List CollisionReason
reasons found = map (λ c. c.reason) found

abbrev listed : Option CollisionReason → List CollisionReason
listed none = []
listed (some r) = r ∷ []

reason_none : (a b : List Str) → (length b == 0) ≡ true → collision_reason a b ≡ none
unfolding collision_reason
reason_none a b e = rw e refl

module _ ⦃u : Unicode⦄ where
  one_reason :
      (bag : List Str) (other : Str) (o : Option CollisionReason)
      → collision_reason bag (token_bag other) ≡ o
      → reasons (collisions_with bag (other ∷ [])) ≡ listed o
  unfolding collisions_with
  one_reason bag other none e = rw (e, collisions_with) refl
  one_reason bag other (some r) e = rw (e, collisions_with) refl

  reasons-one :
      (label other : Str)
      → reasons (check_preference_label label (other ∷ [])) ≡ (
          if length (token_bag label) == 0
          then []
          else listed (collision_reason (token_bag label) (token_bag other)))
  unfolding check_preference_label
  reasons-one label other = elim (Bool-cases (length (token_bag label) == 0)) [
    | inl e ↦ rw e refl
    | inr e ↦ rw e (one_reason (token_bag label) other _ refl)
  ]

  -- A drafted label collides with an existing one exactly as the existing one would collide with it
  -- if it were the draft, and for the same reason.
  pub check_preference_label_sym :
      (label other : Str)
      → reasons (check_preference_label label (other ∷ []))
        ≡ reasons (check_preference_label other (label ∷ []))
  check_preference_label_sym label other =
      rw (reasons-one label other, reasons-one other label)
        (sides (token_bag label) (token_bag other))
    where
      sides :
          (a b : List Str)
          → (if length a == 0 then [] else listed (collision_reason a b))
            ≡ (if length b == 0 then [] else listed (collision_reason b a))
      sides a b = elim (Bool-cases (length a == 0)) [
        | inl p ↦ elim (Bool-cases (length b == 0)) [
          | inl q ↦ rw (p, q) refl
          | inr q ↦ rw (p, q) (ap listed (sym (reason_none b a p)))
        ]
        | inr p ↦ elim (Bool-cases (length b == 0)) [
          | inl q ↦ rw (p, q) (ap listed (reason_none a b q))
          | inr q ↦ rw (p, q) (ap listed (collision_reason_sym a b p q))
        ]
      ]
