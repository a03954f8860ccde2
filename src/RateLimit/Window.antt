-- ===== src/RateLimit/Window.antt =====
-- How often a client is let through (internal/api/middleware/ratelimit.go: allow).
use mathlib.Core.Path.{subst}
use native.Mathlib.Decide.{dec_lt}
use role_model.Prelude.{
  ℕ, ◌+◌, ◌-◌, ◌*◌, ◌≤◌, ◌≡◌, refl, sym, ◌<◌, ◌⊎◌, Bool, true, false, ◌&&◌, List, [], ◌∷◌,
  if◌then◌else◌, Bool-cases, inl, inr, All, arith,
}
use role_model.GoText.{Str, str_eq}
use role_model.GoText.Equality.{eq_of_str_eq, str_eq_refl}
use role_model.GoText.Maps.{assign, lookup-assign}
use role_model.RateLimit.{RateLimit, count_of, roll, count_request, decide, allow}

pub count_of-assign :
    (k key : Str) (n : ℕ) (counts : List (Str × ℕ))
    → count_of key (assign k n counts) ≡ (if str_eq k key then n else count_of key counts)
unfolding count_of
count_of-assign k key n counts = elim (Bool-cases (str_eq k key)) [
  | inl e ↦ rw (lookup-assign k key n counts, e) refl
  | inr e ↦ rw (lookup-assign k key n counts, e) refl
]

pub count_of-count_request :
    (k key : Str) (rl : RateLimit)
    → count_of key (count_request k rl).counts
      ≡ (if str_eq k key then count_of key rl.counts + 1 else count_of key rl.counts)
unfolding count_request
count_of-count_request k key rl = elim (Bool-cases (str_eq k key)) [
  | inl e ↦
      rw (count_of-assign k key (count_of k rl.counts + 1) rl.counts, e)
        (rw (eq_of_str_eq k key e) refl)
  | inr e ↦ rw (count_of-assign k key (count_of k rl.counts + 1) rl.counts, e) refl
]

-- An instant and the key of the client.
abbrev pub Request : Type 0
Request = ℕ × Str

-- How many of the requests of a client are permitted.
unfoldable pub granted : Str → RateLimit → List Request → ℕ
granted key rl [] = 0
granted key rl ((now, k) ∷ requests) =
    let (rl', (left, permitted)) = allow now k rl in
    (if str_eq k key && permitted then 1 else 0) + granted key rl' requests

pub decide_permits :
    (now : ℕ) (key : Str) (rl : RateLimit)
    → (decide now key rl).1 ≡ true
    → count_of key rl.counts ≤ rl.limit
unfolding decide
decide_permits now key rl h = ground arith

points :
    (b : Bool) (more limit before after rest : ℕ)
    → (b ≡ true → after ≤ limit)
    → after ≡ before + 1
    → rest ≤ more + (limit - after)
    → (if b then 1 else 0) + rest ≤ more + (limit - before)
points true more limit before after rest p n h = omega (arith, p refl)
points false more limit before after rest p n h = omega arith

-- One step, in a window that has not passed: what is permitted was still left.
own_step :
    (key : Str) (now : ℕ) (rl : RateLimit) (more rest : ℕ)
    → rest ≤ more + (rl.limit - count_of key (count_request key rl).counts)
    → (if str_eq key key && (decide now key (count_request key rl)).1 then 1 else 0) + rest
      ≤ more + (rl.limit - count_of key rl.counts)
unfolding count_request
own_step key now rl more rest h = rw (str_eq_refl key) (
    points _ more _ _ _ rest (decide_permits now key (count_request key rl))
      (rw (count_of-count_request key key rl, str_eq_refl key) refl) h)

counted_step :
    (key k : Str) (now : ℕ) (rl : RateLimit) (more rest : ℕ)
    → rest ≤ more + (rl.limit - count_of key (count_request k rl).counts)
    → (if str_eq k key && (decide now k (count_request k rl)).1 then 1 else 0) + rest
      ≤ more + (rl.limit - count_of key rl.counts)
counted_step key k now rl more rest h = elim (Bool-cases (str_eq k key)) [
  | inr e ↦
      let n : count_of key (count_request k rl).counts ≡ count_of key rl.counts =
        rw (count_of-count_request k key rl, e) refl in
      rw e (omega (arith, h, n))
  | inl e ↦
      subst
        (λ j.
          rest ≤ more + (rl.limit - count_of key (count_request j rl).counts)
          → (if str_eq j key && (decide now j (count_request j rl)).1 then 1 else 0) + rest
            ≤ more + (rl.limit - count_of key rl.counts))
        (sym (eq_of_str_eq k key e)) (own_step key now rl more rest) h
]

pub roll_early : (now : ℕ) (rl : RateLimit) → now ≤ rl.reset_at → roll now rl ≡ rl
unfolding roll
roll_early now rl h = ground arith

-- A sweep starts a window with nothing counted.
pub roll_late :
    (now : ℕ) (rl : RateLimit)
    → rl.reset_at < now
    → roll now rl ≡ record rl { counts = []; reset_at = now + rl.window }
unfolding roll
roll_late now rl h = ground arith

le_or_lt : (a b : ℕ) → (a ≤ b) ⊎ (b < a)
le_or_lt a b = elim (dec_lt b a) [ yes h ↦ inr h | no h ↦ inl (omega arith) ]

all_le :
    (t now window : ℕ) (requests : List Request)
    → t ≤ now
    → All (λ (r : Request). (t ≤ r.0) × (r.0 ≤ t + window)) requests
    → All (λ (r : Request). r.0 ≤ now + window) requests
all_le t now window [] h k = tt
all_le t now window (r ∷ requests) h k = ((omega (arith, k.0)), all_le t now window requests h k.1)

module _ (key k : Str) (now : ℕ) (rl : RateLimit) (requests : List Request) (more : ℕ) where
  early_step :
      now ≤ rl.reset_at
      → granted key (count_request k rl) requests
        ≤ more + (rl.limit - count_of key (count_request k rl).counts)
      → granted key rl ((now, k) ∷ requests) ≤ more + (rl.limit - count_of key rl.counts)
  unfolding granted allow
  early_step early later = rw (roll_early now rl early) (counted_step key k now rl more _ later)

-- While the window lasts a client gets no more than what is left of its limit.
quiet :
    (key : Str) (rl : RateLimit) (requests : List Request)
    → All (λ (r : Request). r.0 ≤ rl.reset_at) requests
    → granted key rl requests ≤ rl.limit - count_of key rl.counts
unfolding count_request
quiet key rl [] h = unfold granted in omega arith
quiet key rl ((now, k) ∷ requests) h =
    let later = quiet key (count_request k rl) requests h.1 in
    let whole = early_step key k now rl requests 0 h.0 (omega (arith, later)) in
    omega (arith, whole)

late_step :
    (key k : Str) (now : ℕ) (rl : RateLimit) (requests : List Request)
    → rl.reset_at < now
    → All (λ (r : Request). r.0 ≤ now + rl.window) requests
    → granted key rl ((now, k) ∷ requests) ≤ rl.limit
unfolding granted allow count_request
late_step key k now rl requests late h =
    let fresh : RateLimit = record rl { counts = []; reset_at = now + rl.window } in
    let later = quiet key (count_request k fresh) requests h in
    let whole =
      counted_step key k now fresh 0 (granted key (count_request k fresh) requests)
        (omega (arith, later)) in
    rw (roll_late now rl late) (omega (arith, whole))

burst :
    (key : Str) (rl : RateLimit) (t : ℕ) (requests : List Request)
    → All (λ (r : Request). (t ≤ r.0) × (r.0 ≤ t + rl.window)) requests
    → granted key rl requests ≤ rl.limit + (rl.limit - count_of key rl.counts)
unfolding count_request
burst key rl t [] h = unfold granted in omega arith
burst key rl t ((now, k) ∷ requests) ((from, to), h) =
    let later = burst key (count_request k rl) t requests h in
    elim (le_or_lt now rl.reset_at) [
      | inl early ↦ early_step key k now rl requests rl.limit early later
      | inr late ↦
          let whole =
            late_step key k now rl requests late (all_le t now rl.window requests from h) in
          omega (arith, whole)
    ]

-- A client gets at most twice its limit in any stretch of time as long as a window, however the
-- requests of all clients fall and whatever was counted before.
pub granted_burst :
    (key : Str) (rl : RateLimit) (t : ℕ) (requests : List Request)
    → All (λ (r : Request). (t ≤ r.0) × (r.0 ≤ t + rl.window)) requests
    → granted key rl requests ≤ 2 * rl.limit
granted_burst key rl t requests h = omega (arith, burst key rl t requests h)
