-- ===== src/Intake/Extraction/Outcomes.antt =====
-- Tests that decide whether a loop of PlanDrafts ends well (internal/intake/extract.go).
use mathlib.Core.Path.{subst}
use role_model.Prelude.{
  ℕ, ◌≡◌, refl, sym, ap, ◌∙◌, Bool, true, false, not, ◌&&◌, ◌||◌, List, [], ◌∷◌, map, all, any,
  some, Bool-cases, inl, inr, arith,
}
use role_model.Prelude.Results.{Result, ok, err, ◌>>=◌}
use role_model.GoText.{Str, Unicode, str_eq}
use role_model.GoText.Maps.{assign, lookup-assign}
use role_model.Intake.Payloads.{
  DraftError, EmployerPayload, PositionPayload, ContributionPayload, SkillPayload,
  PreferencePayload, EducationPayload, CredentialPayload, is_blank,
}
use role_model.Intake.Extraction.{CareerExtraction, JsonWriter, Planning, has_key, plan_each}

abbrev pub among : List Str → Str → Bool
among refs r = any (λ s. str_eq s r) refs

abbrev pub distinct : List Str → Bool
distinct [] = true
distinct (r ∷ rs) = all (λ s. not (str_eq r s)) rs && distinct rs

module _ ⦃u : Unicode⦄ where
  -- Every entry has its names, no reference is used twice, and every parent is in the extraction.
  unfoldable pub plannable : CareerExtraction → Bool
  plannable x =
      (all (λ e. not (is_blank e.name)) x.employers && distinct (map (λ e. e.ref) x.employers))
      && ((all (λ p. among (map (λ e. e.ref) x.employers) p.employer_ref) x.positions
            && distinct (map (λ p. p.ref) x.positions))
          && (all (λ c. among (map (λ p. p.ref) x.positions) c.position_ref) x.contributions
              && (all (λ s. not (is_blank s.tag || is_blank s.category)) x.skills
                  && (all (λ p. not (is_blank p.label)) x.preferences
                      && (all (λ e. not (is_blank e.institution)) x.education
                          && all (λ c. not (is_blank c.name)) x.credentials)))))

-- json.Marshal succeeds on every payload.
pub record IsTotal (j : JsonWriter) : Type 0 where
  pub employer : (p : EmployerPayload) → (t : Str) × (j.write_employer p ≡ some t)
  pub position : (p : PositionPayload) → (t : Str) × (j.write_position p ≡ some t)
  pub contribution : (p : ContributionPayload) → (t : Str) × (j.write_contribution p ≡ some t)
  pub skill : (p : SkillPayload) → (t : Str) × (j.write_skill p ≡ some t)
  pub preference : (p : PreferencePayload) → (t : Str) × (j.write_preference p ≡ some t)
  pub education : (p : EducationPayload) → (t : Str) × (j.write_education p ≡ some t)
  pub credential : (p : CredentialPayload) → (t : Str) × (j.write_credential p ≡ some t)

-- A test decides whether a step ends well, and what then holds of the state.
abbrev pub Outcome : Bool → (Planning → Type 0) → Result DraftError Planning → Type 0
Outcome check F (ok st) = (check ≡ true) × F st
Outcome check F (err e) = check ≡ false

abbrev pub is_ok : {A : Type 0} → Result DraftError A → Bool
is_ok (ok a) = true
is_ok (err e) = false

pub Outcome-is_ok :
    (check : Bool) (F : Planning → Type 0) (r : Result DraftError Planning)
    → Outcome check F r
    → is_ok r ≡ check
Outcome-is_ok check F (ok st) h = sym h.0
Outcome-is_ok check F (err e) h = sym h

module _ (c d : Bool) (F G : Planning → Type 0) where
  pub Outcome-bind :
      (r : Result DraftError Planning) (k : Planning → Result DraftError Planning)
      → Outcome c F r
      → ((st : Planning) → F st → Outcome d G (k st))
      → Outcome (c && d) G (r >>= k)
  Outcome-bind (err e) k h g = rw h refl
  Outcome-bind (ok st) k h g = rw h.0 (g st h.1)

pub Outcome-map :
    (c : Bool) (F G : Planning → Type 0) (r : Result DraftError Planning)
    → Outcome c F r
    → ((st : Planning) → F st → G st)
    → Outcome c G r
Outcome-map c F G (ok st) h k = (h.0, k st h.1)
Outcome-map c F G (err e) h k = h

pub Outcome-eq :
    (c d : Bool) (F : Planning → Type 0) (r : Result DraftError Planning)
    → c ≡ d
    → Outcome c F r
    → Outcome d F r
Outcome-eq c d F r e h = subst (λ b. Outcome b F r) e h

pub has_key-assign :
    (k j : Str) (v : ℕ) (m : List (Str × ℕ))
    → has_key j (assign k v m) ≡ (str_eq k j || has_key j m)
has_key-assign k j v m = elim (Bool-cases (str_eq k j)) [
  | inl e ↦ rw (lookup-assign k j v m, e) refl
  | inr e ↦ rw (lookup-assign k j v m, e) refl
]

pub all-ext :
    {A : Type 0} (p q : A → Bool) (xs : List A) → ((x : A) → p x ≡ q x) → all p xs ≡ all q xs
all-ext p q [] h = refl
all-ext p q (x ∷ xs) h = rw (h x, all-ext p q xs h) refl

all-apart :
    {A : Type 0} (t s h : A → Bool) (xs : List A)
    → all (λ x. t x && not (s x || h x)) xs
      ≡ (all (λ x. t x && not (h x)) xs && all (λ x. not (s x)) xs)
all-apart t s h [] = refl
all-apart t s h (x ∷ xs) = ground (arith, all-apart t s h xs)

all-map :
    {A B : Type 0} (f : A → B) (p : B → Bool) (xs : List A)
    → all p (map f xs) ≡ all (λ x. p (f x)) xs
all-map f p [] = refl
all-map f p (x ∷ xs) = rw (all-map f p xs) refl

pub and_true : (b : Bool) → (b && true) ≡ b
and_true true = refl
and_true false = refl

pub or_false : (b : Bool) → (b || false) ≡ b
or_false true = refl
or_false false = refl

regroup : (c a n d : Bool) → (c && ((a && n) && d)) ≡ ((c && a) && (n && d))
regroup true true n d = refl
regroup true false n d = refl
regroup false a n d = refl

-- A loop that tests each entry.
pub tests_each :
    {A : Type 0} (plan : A → Planning → Result DraftError Planning) (P : Planning → Type 0)
    (test : A → Bool)
    → ((x : A) (st : Planning) → P st → Outcome (test x) P (plan x st))
    → (xs : List A) (st : Planning) → P st
    → Outcome (all test xs) P (plan_each plan xs st)
unfolding plan_each
tests_each plan P test step [] st i = (refl, i)
tests_each plan P test step (x ∷ xs) st i =
    Outcome-bind (test x) (all test xs) P P (plan x st) (plan_each plan xs) (step x st i)
      (λ mid k. tests_each plan P test step xs mid k)

-- A loop that tests each entry and notes its reference, which must be new.
module _ {A : Type 0} (plan : A → Planning → Result DraftError Planning) (ref : A → Str)
    (ids : Planning → List (Str × ℕ)) (P : Planning → Type 0) (test : A → Bool) where
  abbrev Noted : List Str → Planning → Planning → Type 0
  Noted refs st s = P s × ((r : Str) → has_key r (ids s) ≡ (among refs r || has_key r (ids st)))

  abbrev fresh : Planning → A → Bool
  fresh st x = test x && not (has_key (ref x) (ids st))

  fresh_after :
      (x : A) (st mid : Planning) (r : Str)
      → has_key r (ids mid) ≡ (among (ref x ∷ []) r || has_key r (ids st))
      → (b : Bool)
      → (b && not (has_key r (ids mid))) ≡ (b && not (str_eq (ref x) r || has_key r (ids st)))
  fresh_after x st mid r h b = rw h (ground arith)

  -- From the state after an entry to the state before it.
  extend :
      (x : A) (xs : List A) (st mid : Planning)
      → ((r : Str) → has_key r (ids mid) ≡ (among (ref x ∷ []) r || has_key r (ids st)))
      → (r : Result DraftError Planning)
      → Outcome (all (fresh mid) xs && distinct (map ref xs)) (Noted (map ref xs) mid) r
      → Outcome
          ((all (fresh st) xs && all (λ s. not (str_eq (ref x) s)) (map ref xs))
            && distinct (map ref xs))
          (Noted (ref x ∷ map ref xs) st)
          r
  extend x xs st mid keys r h =
      let same : all (fresh mid) xs
          ≡ (all (fresh st) xs && all (λ s. not (str_eq (ref x) s)) (map ref xs)) =
        all-ext (fresh mid) _ xs (λ y. fresh_after x st mid (ref y) (keys (ref y)) (test y))
        ∙ all-apart test (λ y. str_eq (ref x) (ref y)) (λ y. has_key (ref y) (ids st)) xs
        ∙ ap (λ b. all (fresh st) xs && b) (sym (all-map ref (λ s. not (str_eq (ref x) s)) xs)) in
      Outcome-eq _ _ _ r (ap (λ b. b && distinct (map ref xs)) same) (
        Outcome-map _ (Noted (map ref xs) mid) (Noted (ref x ∷ map ref xs) st) r h
          (λ s n. (n.0, (λ k. either s k (n.1 k) (keys k)))))
    where
      either :
          (s : Planning) (k : Str)
          → has_key k (ids s) ≡ (among (map ref xs) k || has_key k (ids mid))
          → has_key k (ids mid) ≡ (among (ref x ∷ []) k || has_key k (ids st))
          → has_key k (ids s) ≡ (among (ref x ∷ map ref xs) k || has_key k (ids st))
      either s k e f = ground arith

  pub names_each :
      ((x : A) (st : Planning) → P st → Outcome (fresh st x) (Noted (ref x ∷ []) st) (plan x st))
      → (xs : List A) (st : Planning) → P st
      → Outcome
          (all (fresh st) xs && distinct (map ref xs))
          (Noted (map ref xs) st)
          (plan_each plan xs st)
  unfolding plan_each
  names_each step [] st i = (refl, (i, (λ r. refl)))
  names_each step (x ∷ xs) st i =
      let d =
        (all (fresh st) xs && all (λ s. not (str_eq (ref x) s)) (map ref xs))
        && distinct (map ref xs) in
      Outcome-eq (fresh st x && d) _ (Noted (ref x ∷ map ref xs) st) _ (regroup (fresh st x) _ _ _)
        (Outcome-bind (fresh st x) d (Noted (ref x ∷ []) st) (Noted (ref x ∷ map ref xs) st)
          (plan x st) (plan_each plan xs) (step x st i)
          (λ mid k. extend x xs st mid k.1 _ (names_each step xs mid k.0)))
