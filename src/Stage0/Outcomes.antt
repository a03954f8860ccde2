-- ===== src/Stage0/Outcomes.antt =====
-- What holds of both outcomes of an action on the store (internal/stage0/service.go), one rule for
-- each way to build an action.
use mathlib.Core.Path.{subst}
use role_model.Prelude.{
  List, [], ◌∷◌, any, ℕ, ◌≡◌, refl, sym, ap, some_eq, ◌∙◌, Bool, true, false, Bool-cases, inl, inr,
  Option, none, some, Option-cases,
}
use role_model.Prelude.Results.{Result, ok, err}
use role_model.GoText.{Str}
use role_model.Stage0.{
  first_with, Stage0Error, database_failed, Store, World, Outside, Outcome, Action, run, follow,
  ◌>>=◌, ◌>>◌, pure, lift, recovered, on_error, logged, log_error, rolled_back, statement, touch,
  ask, found, updated, new_id, in_transaction,
}

pub first_with-any :
    {A : Type 0} (p : A → Bool) (xs : List A) (x : A) → first_with p xs ≡ some x → any p xs ≡ true
unfolding first_with
first_with-any p [] x h = cc
first_with-any p (y ∷ xs) x h = elim (Bool-cases (p y)) [
  | inl e ↦ rw e refl
  | inr e ↦ rw e (first_with-any p xs x (rw e at h))
]

-- P on a result, E on an error, each with the store.
abbrev pub Ended :
    {A : Type 0} → (A → Store → Type 0) → (Stage0Error → Store → Type 0) → Outcome A → Type 0
Ended P E (ok a, w) = P a w.store
Ended P E (err e, w) = E e w.store

unfoldable pub Ends :
    {A : Type 0} → (A → Store → Type 0) → (Stage0Error → Store → Type 0) → Action A → World → Type 0
Ends P E m w = Ended P E (run m w)

module _ {A : Type 0} (E : Stage0Error → Store → Type 0) where
  Ended-map :
      (P Q : A → Store → Type 0) (F : Stage0Error → Store → Type 0) (r : Outcome A)
      → Ended P E r
      → ((a : A) (s : Store) → P a s → Q a s)
      → ((e : Stage0Error) (s : Store) → E e s → F e s)
      → Ended Q F r
  Ended-map P Q F (ok a, w) h k f = k a w.store h
  Ended-map P Q F (err e, w) h k f = f e w.store h

  pub Ends-map :
      (P Q : A → Store → Type 0) (F : Stage0Error → Store → Type 0) (m : Action A) (w : World)
      → Ends P E m w
      → ((a : A) (s : Store) → P a s → Q a s)
      → ((e : Stage0Error) (s : Store) → E e s → F e s)
      → Ends Q F m w
  unfolding Ends
  Ends-map P Q F m w h k f = Ended-map P Q F (run m w) h k f

  pub Ends-pure : (P : A → Store → Type 0) (a : A) (w : World) → P a w.store → Ends P E (pure a) w
  unfolding Ends pure
  Ends-pure P a w h = h

  pub Ends-lift :
      (P : A → Store → Type 0) (r : Result Stage0Error A) (w : World)
      → ((a : A) → r ≡ ok a → P a w.store)
      → ((e : Stage0Error) → E e w.store)
      → Ends P E (lift r) w
  unfolding Ends lift
  Ends-lift P (ok a) w h k = h a refl
  Ends-lift P (err e) w h k = k e

module _ {A B : Type 0} (E : Stage0Error → Store → Type 0) (P : B → Store → Type 0) where
  Ended-follow :
      (Q : A → Store → Type 0) (r : Outcome A) (k : A → Action B)
      → Ended Q E r
      → ((a : A) (w : World) → Q a w.store → Ended P E (run (k a) w))
      → Ended P E (follow k r)
  Ended-follow Q (ok a, w) k h next = next a w h
  Ended-follow Q (err e, w) k h next = h

  pub Ends-bind :
      (Q : A → Store → Type 0) (m : Action A) (k : A → Action B) (w : World)
      → Ends Q E m w
      → ((a : A) (w : World) → Q a w.store → Ends P E (k a) w)
      → Ends P E (m >>= k) w
  unfolding Ends ◌>>=◌
  Ends-bind Q m k w h next = Ended-follow Q (run m w) k h next

  pub Ends-then :
      (Q : A → Store → Type 0) (m : Action A) (k : Action B) (w : World)
      → Ends Q E m w
      → ((a : A) (w : World) → Q a w.store → Ends P E k w)
      → Ends P E (m >> k) w
  unfolding ◌>>◌
  Ends-then Q m k w h next = Ends-bind Q m (λ _. k) w h next

module _ {A : Type 0} (E : Stage0Error → Store → Type 0) (P : A → Store → Type 0) where
  Ended-recovered :
      (F : Stage0Error → Store → Type 0) (r : Outcome A) (handle : Stage0Error → Action A)
      → Ended P F r
      → ((e : Stage0Error) (w : World) → F e w.store → Ended P E (run (handle e) w))
      → Ended P E (recovered handle r)
  Ended-recovered F (ok a, w) handle h next = h
  Ended-recovered F (err e, w) handle h next = next e w h

  pub Ends-on_error :
      (F : Stage0Error → Store → Type 0) (m : Action A) (handle : Stage0Error → Action A)
      (w : World)
      → Ends P F m w
      → ((e : Stage0Error) (w : World) → F e w.store → Ends P E (handle e) w)
      → Ends P E (on_error m handle) w
  unfolding Ends on_error
  Ends-on_error F m handle w h next = Ended-recovered F (run m w) handle h next

  Ended-logged :
      (Q : Store → Type 0) (r : Outcome A)
      → Ended (λ a s. Q s) (λ e s. Q s) r
      → Ended (λ a s. Q s) E (logged r)
  Ended-logged Q (ok a, w) h = h
  Ended-logged Q (err e, w) h = h

  -- A call whose error is only logged leaves what both its outcomes leave.
  pub Ends-log_error :
      (Q : Store → Type 0) (m : Action A) (w : World)
      → Ends (λ a s. Q s) (λ e s. Q s) m w
      → Ends (λ a s. Q s) E (log_error m) w
  unfolding Ends log_error
  Ends-log_error Q m w h = Ended-logged Q (run m w) h

  Ended-rolled_back :
      (s : Store) (r : Outcome A)
      → Ended P (λ e t. Unit {0}) r
      → ((e : Stage0Error) → E e s)
      → Ended P E (rolled_back s r)
  Ended-rolled_back s (ok a, w) h k = h
  Ended-rolled_back s (err e, w) h k = k e

module _ ⦃o : Outside⦄ {A : Type 0} (E : Stage0Error → Store → Type 0)
    (P : A → Store → Type 0) where
  -- A statement ends in an error on the same store, or well with what it says.
  pub Ends-statement :
      (e : Stage0Error) (f : Store → Option (A × Store)) (w : World)
      → E database_failed w.store
      → (f w.store ≡ none → E e w.store)
      → ((a : A) (s : Store) → f w.store ≡ some (a, s) → P a s)
      → Ends P E (statement e f) w
  unfolding Ends statement
  Ends-statement e f w failed missing found = elim (Bool-cases (o.fails w.calls)) [
    | inl b ↦ rw b failed
    | inr b ↦ elim (Option-cases (f w.store)) [
      | inl n ↦ rw (b, n) (missing n)
      | inr (r, s) ↦ rw (b, s) (found r.0 r.1 s)
    ]
  ]

  -- A statement that does not fail and finds its row.
  pub Ends-steady :
      (e : Stage0Error) (f : Store → Option (A × Store)) (w : World) (a : A) (s : Store)
      → o.fails w.calls ≡ false
      → f w.store ≡ some (a, s)
      → P a s
      → Ends P E (statement e f) w
  unfolding Ends statement
  Ends-steady e f w a s steady row p = rw (steady, row) p

module _ ⦃o : Outside⦄ (E : Stage0Error → Store → Type 0) where
  -- The store does not see a call of the model.
  pub Ends-ask :
      (P : Store → Type 0) (prompt content : Str) (max_tokens : ℕ) (w : World)
      → P w.store
      → ((e : Stage0Error) → E e w.store)
      → Ends (λ a s. P s) E (ask prompt content max_tokens) w
  unfolding Ends ask
  Ends-ask P prompt content max_tokens w h k =
      elim (Option-cases (o.complete w.asked prompt content max_tokens)) [
        | inl n ↦ rw n (k _)
        | inr (r, s) ↦ rw s h
      ]

  -- A transaction whose body ends well with what its store says; an error leaves the store as it was.
  pub Ends-in_transaction :
      {A : Type 0} (P : A → Store → Type 0) (body : Action A) (w : World)
      → ((w0 : World) → w0.store ≡ w.store → Ends P (λ e s. Unit {0}) body w0)
      → ((e : Stage0Error) → E e w.store)
      → Ends P E (in_transaction body) w
  unfolding Ends in_transaction
  Ends-in_transaction P body w h k =
      Ended-rolled_back E P w.store _
        (Ends-bind _ P P (touch >> body) (λ a. touch >> pure a) w
          (Ends-then _ P (λ a s. s ≡ w.store) touch body w
            (Ends-statement _ _ _ _ w tt (λ n. tt) (λ a s e. at_touch w e)) (λ a w0 e. h w0 e))
          (λ a w1 p.
            Ends-then _ P (λ b s. P a s) touch (pure a) w1
              (Ends-statement _ _ _ _ w1 tt (λ n. tt)
                (λ b s e. subst (P a) (sym (at_touch w1 e)) p))
              (λ b w2 q. Ends-pure _ P a w2 q)))
        k
    where
      at_touch :
          (w : World) {a : Unit {0}} {s : Store}
          → ◌≡◌ {A = Option (Unit {0} × Store)} (some (tt, w.store)) (some (a, s))
          → s ≡ w.store
      at_touch w e = sym (ap (λ p. p.1) (some_eq e))

-- Reads and writes of a store `s`, an error of which leaves the store.
module _ ⦃o : Outside⦄ (s : Store) (w : World) (at_s : w.store ≡ s) where
  abbrev pub Same : Stage0Error → Store → Type 0
  Same e t = t ≡ s

  found-some :
      {A : Type 0} (t : Store) (r : Option A) (a : A) (t' : Store)
      → ◌≡◌ {A = Option (A × Store)} (found t r) (some (a, t'))
      → (r ≡ some a) × (t' ≡ t)
  found-some t none a t' e = cc
  found-some t (some b) a t' e =
      (ap some (ap (λ p. p.0) (some_eq e)), sym (ap (λ p. p.1) (some_eq e)))

  pub Ends-read :
      {A : Type 0} (e : Stage0Error) (g : Store → Option A)
      → Ends (λ a t. (g s ≡ some a) × (t ≡ s)) (λ e t. t ≡ s) (statement e (λ t. found t (g t))) w
  Ends-read e g =
      Ends-statement _ _ e _ w at_s (λ n. at_s)
        (λ a t h.
          let (r, t_eq) = found-some w.store (g w.store) a t h in
          (ap g (sym at_s) ∙ r, t_eq ∙ at_s))

  pub Ends-new_id : (E : Stage0Error → Store → Type 0) → Ends (λ id t. t ≡ s) E new_id w
  unfolding Ends new_id
  Ends-new_id E = at_s

  pub Ends-write :
      {A : Type 0} (E : Stage0Error → Store → Type 0)
      → ((e : Stage0Error) → E e w.store)
      → (e : Stage0Error) (a : A) (f : Store → Store)
      → Ends (λ b t. (b ≡ a) × (t ≡ f s)) E (statement e (λ t. some (a, f t))) w
  Ends-write {A} E k e a f =
      Ends-statement _ _ e _ w (k _) (λ n. k _)
        (λ b t h. (
          sym (ap (λ (p : A × Store). p.0) (some_eq h)),
          sym (ap (λ (p : A × Store). p.1) (some_eq h)) ∙ ap f at_s,
        ))

  updated-some :
      (b : Bool) (t : Store) (a : Unit {0}) (t' : Store)
      → ◌≡◌ {A = Option (Unit {0} × Store)} (updated b t) (some (a, t'))
      → t' ≡ t
  updated-some true t a t' e = sym (ap (λ p. p.1) (some_eq e))
  updated-some false t a t' e = cc

  pub Ends-update :
      (E : Stage0Error → Store → Type 0)
      → ((e : Stage0Error) → E e w.store)
      → (e : Stage0Error) (p : Store → Bool) (f : Store → Store)
      → Ends (λ a t. t ≡ f s) E (statement e (λ t. updated (p t) (f t))) w
  Ends-update E k e p f =
      Ends-statement _ _ e _ w (k _) (λ n. k _)
        (λ a t h. updated-some (p w.store) (f w.store) a t h ∙ ap f at_s)
