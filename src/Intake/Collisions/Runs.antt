-- ===== src/Intake/Collisions/Runs.antt =====
-- The run tests of two packages side by side (internal/intake/collision.go: containsRun;
-- internal/fitgate/scorer.go: containsPhrase).
use role_model.Prelude.{
  ◌≡◌, refl, true, false, ◌||◌, List, [], ◌∷◌, length, take, ltb, leb, ◌==◌, if◌then◌else◌, arith,
}
use role_model.GoText.{Str}
use role_model.FitGate.Tokens.{runs_eq, run_at}
use role_model.Intake.Collisions.{match_at, match_from, contains_run}

-- Matching at a position that leaves room is comparing a slice.
match_at-eq :
    (h n : List Str)
    → leb (length n) (length h) ≡ true
    → match_at h n ≡ runs_eq (take (length n) h) n
unfolding match_at runs_eq
match_at-eq [] [] r = refl
match_at-eq (t ∷ h) [] r = refl
match_at-eq [] (s ∷ n) r = ground arith
match_at-eq (t ∷ h) (s ∷ n) r = ground (arith, match_at-eq h n)

match_from-eq : (h n : List Str) → match_from h n ≡ run_at n h
unfolding match_from run_at
match_from-eq [] n = refl
match_from-eq (t ∷ h) n = ground (arith, match_from-eq h n, match_at-eq (t ∷ h) n)

-- Between the same tokens, the collision check and the fit gate's matcher find the same runs.
pub contains_run-eq :
    (haystack needle : List Str)
    → contains_run haystack needle ≡ (
        if length needle == 0 || ltb (length haystack) (length needle)
        then false
        else run_at needle haystack)
unfolding contains_run
contains_run-eq haystack needle = rw (match_from-eq haystack needle) refl
