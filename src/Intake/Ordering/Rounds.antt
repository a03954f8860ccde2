-- ===== src/Intake/Ordering/Rounds.antt =====
-- The rounds of the outer loop of topoOrder (internal/intake/resolve.go).
use role_model.Prelude.{
  ℕ, zero, suc, ◌+◌, ◌≤◌, ◌<◌, ◌≡◌, refl, sym, ap, ◌∙◌, Bool, true, false, not, ◌&&◌, List, [], ◌∷◌,
  Memᴰ, some, ◌==◌, length, length-keep-le, Bool-cases, inl, inr, some_eq, if_true, if_false, All,
  All-mem, arith,
}
use mathlib.Core.Path.{subst}
use role_model.Intake.Ordering.{
  EntityDraft, is_pending, put, holds, remove, collect_pending, Progress, is_ready, settle, visit,
  pass, rounds, start, final_state,
}

-- The test of the inner loop.
abbrev pub fires : Progress → EntityDraft → Bool
fires st d = holds st.pending d.id && is_ready st.satisfied d

-- A state that the loop reaches keeps whatever each visit keeps.
module _ {ℓ} (P : Progress → Type ℓ) (drafts : List EntityDraft) where
  pub pass_inv :
      (ds : List EntityDraft) (st : Progress)
      → ((d : EntityDraft) (s : Progress) → Memᴰ d ds → P s → P (visit d s))
      → P st
      → P (pass ds st)
  unfolding pass
  pass_inv [] st keeps h = h
  pass_inv (d ∷ ds) st keeps h =
      pass_inv ds (visit d st) (λ e s m. keeps e s (Memᴰ.tail m)) (keeps d st (Memᴰ.head refl) h)

  pub rounds_inv :
      (n : ℕ) (st st' : Progress)
      → ((d : EntityDraft) (s : Progress) → Memᴰ d drafts → P s → P (visit d s))
      → ((s : Progress) → P s → P (record s { progressed = false }))
      → rounds n drafts st ≡ some st'
      → P st
      → P st'
  unfolding rounds
  rounds_inv zero st st' keeps reset e h = cc
  rounds_inv (suc n) st st' keeps reset e h =
      let next = pass drafts (record st { progressed = false }) in
      let h' = pass_inv drafts (record st { progressed = false }) keeps (reset st h) in
      elim (Bool-cases next.progressed) [
        | inl more ↦
            rounds_inv n next st' keeps reset (sym (if_true next.progressed _ _ more) ∙ e) h'
        | inr done ↦ subst P (some_eq (sym (if_false next.progressed _ _ done) ∙ e)) h'
      ]

visit_progressed :
    (d : EntityDraft) (st : Progress) → st.progressed ≡ true → (visit d st).progressed ≡ true
unfolding visit
visit_progressed d st h = ground arith

pass_progressed :
    (ds : List EntityDraft) (st : Progress) → st.progressed ≡ true → (pass ds st).progressed ≡ true
pass_progressed ds st h =
    pass_inv (λ s. s.progressed ≡ true) ds ds st (λ d s m k. visit_progressed d s k) h

pub visit-fires : (d : EntityDraft) (st : Progress) → fires st d ≡ true → visit d st ≡ settle d st
unfolding visit
visit-fires d st h = if_true (fires st d) (settle d st) st h

pub visit-idle : (d : EntityDraft) (st : Progress) → fires st d ≡ false → visit d st ≡ st
unfolding visit
visit-idle d st h = if_false (fires st d) (settle d st) st h

-- A pass without progress changes nothing, and no draft was ready.
pass-idle :
    (ds : List EntityDraft) (st : Progress)
    → (pass ds st).progressed ≡ false
    → (pass ds st ≡ st) × All (λ d. fires st d ≡ false) ds
unfolding pass
pass-idle [] st h = (refl, tt)
pass-idle (d ∷ ds) st h = elim (Bool-cases (fires st d)) [
  | inl busy ↦
      let later = pass_progressed ds (settle d st) refl in
      let h' : (pass ds (settle d st)).progressed ≡ false =
        subst (λ s. (pass ds s).progressed ≡ false) (visit-fires d st busy) h in
      cc
  | inr idle ↦
      let unmoved = visit-idle d st idle in
      let (same, rest) = pass-idle ds st (subst (λ s. (pass ds s).progressed ≡ false) unmoved h) in
      (ap (pass ds) unmoved ∙ same, (idle, rest))
]

-- Where the loop ends, no draft of the batch is both pending and ready.
pub rounds-idle :
    (n : ℕ) (drafts : List EntityDraft) (st st' : Progress)
    → rounds n drafts st ≡ some st'
    → (d : EntityDraft) → Memᴰ d drafts
    → fires st' d ≡ false
unfolding rounds
rounds-idle zero drafts st st' e d m = cc
rounds-idle (suc n) drafts st st' e d m =
    let next = pass drafts (record st { progressed = false }) in
    elim (Bool-cases next.progressed) [
      | inl more ↦ rounds-idle n drafts next st' (sym (if_true next.progressed _ _ more) ∙ e) d m
      | inr done ↦
          let (same, idle) = pass-idle drafts (record st { progressed = false }) done in
          let ended = some_eq (sym (if_false next.progressed _ _ done) ∙ e) in
          subst (λ s. fires s d ≡ false) (sym same ∙ ended)
            (All-mem (λ x. fires (record st { progressed = false }) x ≡ false) drafts d idle m)
    ]

length-remove :
    (id : ℕ) (ds : List EntityDraft) → holds ds id ≡ true → length (remove id ds) < length ds
length-remove id [] h = cc
length-remove id (d ∷ ds) h =
    ground (arith, length-remove id ds, length-keep-le (λ e. not (e.id == id)) ds)

-- A visit never adds to the pending drafts, and takes one away if it makes progress.
record Shrinks (st st' : Progress) : Type 0 where
  no_more : length st'.pending ≤ length st.pending
  fewer : st.progressed ≡ false → st'.progressed ≡ true → length st'.pending < length st.pending

visit-Shrinks : (d : EntityDraft) (st : Progress) → Shrinks st (visit d st)
visit-Shrinks d st = elim (Bool-cases (fires st d)) [
  | inl busy ↦
      let less = length-remove d.id st.pending (ground arith) in
      rw (visit-fires d st busy) (record { no_more = omega arith; fewer = λ a b. less })
  | inr idle ↦ rw (visit-idle d st idle) (record { no_more = omega arith; fewer = λ a b. cc })
]

pass-Shrinks : (ds : List EntityDraft) (st : Progress) → Shrinks st (pass ds st)
unfolding pass
pass-Shrinks [] st = record { no_more = omega arith; fewer = λ a b. cc }
pass-Shrinks (d ∷ ds) st =
    let first = visit-Shrinks d st in
    let rest = pass-Shrinks ds (visit d st) in
    record {
      no_more = omega (arith, first.no_more, rest.no_more);
      fewer = λ a b. elim (Bool-cases (visit d st).progressed) [
        | inl early ↦ omega (arith, first.fewer a early, rest.no_more)
        | inr late ↦ omega (arith, first.no_more, rest.fewer late b)
      ];
    }

-- Rounds beyond the number of pending drafts are enough.
rounds_total :
    (n : ℕ) (drafts : List EntityDraft) (st : Progress)
    → length st.pending < n
    → (st' : Progress) × (rounds n drafts st ≡ some st')
unfolding rounds
rounds_total zero drafts st h = absurd (omega arith)
rounds_total (suc n) drafts st h =
    let next = pass drafts (record st { progressed = false }) in
    let shrinks = pass-Shrinks drafts (record st { progressed = false }) in
    elim (Bool-cases next.progressed) [
      | inl more ↦
          let less = shrinks.fewer refl more in
          let (st', e) = rounds_total n drafts next (omega arith) in
          (st', if_true next.progressed _ _ more ∙ e)
      | inr done ↦ (next, if_false next.progressed _ _ done)
    ]

length-put-le : (d : EntityDraft) (ds : List EntityDraft) → length (put d ds) ≤ suc (length ds)
unfolding put
length-put-le d [] = omega arith
length-put-le d (e ∷ ds) = ground (arith, length-put-le d ds)

length-collect_pending-le :
    (drafts pending : List EntityDraft)
    → length (collect_pending drafts pending) ≤ length pending + length drafts
unfolding collect_pending
length-collect_pending-le [] pending = omega arith
length-collect_pending-le (d ∷ drafts) pending = elim (Bool-cases (is_pending d)) [
  | inl e ↦
      rw e
        (omega (arith, length-put-le d pending, length-collect_pending-le drafts (put d pending)))
  | inr e ↦ rw e (omega (arith, length-collect_pending-le drafts pending))
]

-- The loop always ends.
pub final_state_total :
    (drafts : List EntityDraft) (resolved : List ℕ)
    → (st : Progress) × (final_state drafts resolved ≡ some st)
unfolding final_state
final_state_total drafts resolved =
    rounds_total (suc (length drafts)) drafts (start drafts resolved)
      (omega (arith, length-collect_pending-le drafts []))

-- At the end no draft of the batch is both pending and ready.
pub final_state-idle :
    (drafts : List EntityDraft) (resolved : List ℕ) (st : Progress)
    → final_state drafts resolved ≡ some st
    → (d : EntityDraft) → Memᴰ d drafts
    → fires st d ≡ false
unfolding final_state
final_state-idle drafts resolved st e d m =
    rounds-idle (suc (length drafts)) drafts (start drafts resolved) st e d m
