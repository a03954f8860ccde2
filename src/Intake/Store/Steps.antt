-- ===== src/Intake/Store/Steps.antt =====
-- What holds of the result of an action that ends well, one rule for each way to build an action
-- (internal/intake/resolve.go reads and writes through such actions).
use mathlib.Core.Path.{subst}
use role_model.Prelude.{ℕ, ◌≡◌, refl, Bool-cases, inl, inr}
use role_model.Prelude.Results.{Result, ok, err}
use role_model.Intake.Payloads.{DraftError}
use role_model.Intake.Store.{
  Store, World, Outside, Action, run, follow, ◌>>=◌, ◌>>◌, pure, query, execute, new_id, lift,
}

abbrev pub Yielded : {A : Type 0} → (A → Store → Type 0) → Result DraftError A × World → Type 0
Yielded Q (ok a, w) = Q a w.store
Yielded Q (err e, w) = Unit {0}

-- A value with its store, when there is one.
unfoldable pub Yields : {A : Type 0} → (A → Store → Type 0) → Action A → World → Type 0
Yields Q m w = Yielded Q (run m w)

module _ {A : Type 0} where
  pub Yields-ok :
      (Q : A → Store → Type 0) (m : Action A) (w : World)
      → Yields Q m w
      → (a : A) (w' : World) → run m w ≡ (ok a, w')
      → Q a w'.store
  unfolding Yields
  Yields-ok Q m w h a w' e = subst (Yielded Q) e h

  Yielded-map :
      (Q R : A → Store → Type 0) (r : Result DraftError A × World)
      → Yielded Q r
      → ((a : A) (s : Store) → Q a s → R a s)
      → Yielded R r
  Yielded-map Q R (ok a, w) h k = k a w.store h
  Yielded-map Q R (err e, w) h k = tt

  pub Yields-map :
      (Q R : A → Store → Type 0) (m : Action A) (w : World)
      → Yields Q m w
      → ((a : A) (s : Store) → Q a s → R a s)
      → Yields R m w
  unfolding Yields
  Yields-map Q R m w h k = Yielded-map Q R (run m w) h k

  Yielded-const : (P : Type 0) (r : Result DraftError A × World) → P → Yielded (λ a s. P) r
  Yielded-const P (ok a, w) p = p
  Yielded-const P (err e, w) p = tt

  -- What does not depend on the result.
  pub Yields-const : (P : Type 0) (m : Action A) (w : World) → P → Yields (λ a s. P) m w
  unfolding Yields
  Yields-const P m w p = Yielded-const P (run m w) p

  pub Yields-pure : (Q : A → Store → Type 0) (a : A) (w : World) → Q a w.store → Yields Q (pure a) w
  unfolding Yields pure
  Yields-pure Q a w h = h

  pub Yields-lift :
      (Q : A → Store → Type 0) (r : Result DraftError A) (w : World)
      → ((a : A) → r ≡ ok a → Q a w.store)
      → Yields Q (lift r) w
  unfolding Yields lift
  Yields-lift Q (ok a) w k = k a refl
  Yields-lift Q (err e) w k = tt

  module _ {B : Type 0} (Q : A → Store → Type 0) (R : B → Store → Type 0) where
    Yielded-follow :
        (f : A → Action B) (r : Result DraftError A × World)
        → Yielded Q r
        → ((a : A) (w : World) → Q a w.store → Yields R (f a) w)
        → Yielded R (follow f r)
    unfolding Yields
    Yielded-follow f (ok a, w) h k = k a w h
    Yielded-follow f (err e, w) h k = tt

    pub Yields-bind :
        (m : Action A) (f : A → Action B) (w : World)
        → Yields Q m w
        → ((a : A) (w' : World) → Q a w'.store → Yields R (f a) w')
        → Yields R (m >>= f) w
    unfolding Yields ◌>>=◌
    Yields-bind m f w h k = Yielded-follow f (run m w) h k

pub Yields->> :
    {A B : Type 0} (Q : A → Store → Type 0) (R : B → Store → Type 0) (m : Action A) (k : Action B)
    (w : World)
    → Yields Q m w
    → ((a : A) (w' : World) → Q a w'.store → Yields R k w')
    → Yields R (m >> k) w
unfolding ◌>>◌
Yields->> Q R m k w h c = Yields-bind Q R m (λ _. k) w h c

module _ ⦃o : Outside⦄ where
  pub Yields-query :
      {A : Type 0} (Q : A → Store → Type 0) (f : Store → A) (w : World)
      → Q (f w.store) w.store
      → Yields Q (query f) w
  unfolding Yields query
  Yields-query Q f w h = elim (Bool-cases (o.fails w.calls)) [ inl e ↦ rw e tt | inr e ↦ rw e h ]

  pub Yields-execute :
      (Q : Unit {0} → Store → Type 0) (f : Store → Store) (w : World)
      → Q tt (f w.store)
      → Yields Q (execute f) w
  unfolding Yields execute
  Yields-execute Q f w h = elim (Bool-cases (o.fails w.calls)) [ inl e ↦ rw e tt | inr e ↦ rw e h ]

  pub Yields-new_id :
      (Q : ℕ → Store → Type 0) (w : World) → ((id : ℕ) → Q id w.store) → Yields Q new_id w
  unfolding Yields new_id
  Yields-new_id Q w h = h _
