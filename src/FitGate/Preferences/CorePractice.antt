-- ===== src/FitGate/Preferences/CorePractice.antt =====
-- Entries of the core practice of a posting (internal/fitgate/scorer.go: corePracticeAnswered).
use role_model.Prelude.{
  ◌≡◌, refl, sym, ◌∙◌, ◌↔◌, Bool, true, false, not, List, [], ◌∷◌, Memᴰ, all, any, any_of_mem,
  mem_of_any, all_of_mem, Bool-cases, inl, inr, ◌&&◌, arith, keep, mem-keep, mem-keep_inv,
}
use role_model.GoText.{Str, Unicode, codes, str_eq}
use role_model.FitGate.Signals.{Preference, JdSignals}
use role_model.FitGate.Alternatives.{split_alternatives, collapse_subsumed}
use role_model.FitGate.Alternatives.Reference.{survives, collapse_subsumed-eq-keep}
use role_model.FitGate.Matching.{preference_matches}
use role_model.FitGate.Skills.{is_nil}
use role_model.FitGate.Preferences.{
  answers_all, core_practice_answered, pref_fields_for, preference_answered,
}

module _ ⦃u : Unicode⦄ where
  answers_all-eq-all :
      (p : Preference) (alts : List Str)
      → answers_all p alts ≡ all (λ alt. preference_matches p (alt ∷ [])) alts
  unfolding answers_all
  answers_all-eq-all p [] = refl
  answers_all-eq-all p (alt ∷ alts) = ground (arith, answers_all-eq-all p alts)

  -- The row refuses the entry: it offers something, and the row answers each alternative.
  abbrev pub refuses : Preference → Str → Bool
  refuses p entry =
      not (is_nil (split_alternatives entry))
      && all (λ alt. preference_matches p (alt ∷ [])) (split_alternatives entry)

  core_practice_answered-eq-any :
      (p : Preference) (entries : List Str)
      → core_practice_answered p entries ≡ any (refuses p) entries
  unfolding core_practice_answered
  core_practice_answered-eq-any p [] = refl
  core_practice_answered-eq-any p (entry ∷ entries) = ground (
    arith,
    core_practice_answered-eq-any p entries,
    answers_all-eq-all p (split_alternatives entry),
  )

  pub entries-answered_iff :
      (p : Preference) (entries : List Str)
      → (core_practice_answered p entries ≡ true)
        ↔ ((entry : Str) × Memᴰ entry entries × (refuses p entry ≡ true))
  entries-answered_iff p entries = (
    λ h. mem_of_any (refuses p) entries (sym (core_practice_answered-eq-any p entries) ∙ h),
    λ (entry, m, h).
        core_practice_answered-eq-any p entries ∙ any_of_mem (refuses p) entry entries m h,
  )

  pref_fields_for-core_practice :
      (signals : JdSignals)
      → pref_fields_for (codes "core_practice") signals ≡ collapse_subsumed signals.core_practice
  unfolding pref_fields_for str_eq
  pref_fields_for-core_practice signals = refl

  preference_answered-eq :
      (p : Preference) (signals : JdSignals)
      → p.preference_type ≡ codes "core_practice"
      → preference_answered p signals
        ≡ core_practice_answered p (keep (survives signals.core_practice) signals.core_practice)
  unfolding preference_answered str_eq
  preference_answered-eq p signals e =
      rw (e, pref_fields_for-core_practice signals, collapse_subsumed-eq-keep signals.core_practice)
        refl

  -- A row on core practice is answered by a posting exactly when the row answers every alternative
  -- of some entry of the posting's core practice that offers an alternative and whose alternatives
  -- are not a strict part of another entry's.
  pub core_practice_answered_iff :
      (p : Preference) (signals : JdSignals)
      → p.preference_type ≡ codes "core_practice"
      → (preference_answered p signals ≡ true) ↔ (
          (entry : Str) × Memᴰ entry signals.core_practice
          × (survives signals.core_practice entry ≡ true)
          × (refuses p entry ≡ true))
  core_practice_answered_iff p signals e =
      let kept = keep (survives signals.core_practice) signals.core_practice in
      let (to, fro) = entries-answered_iff p kept in
      let q = preference_answered-eq p signals e in
      (
        λ h.
            let (entry, m, t) = to (sym q ∙ h) in
            let (i, s) =
              mem-keep_inv (survives signals.core_practice) entry signals.core_practice m in
            (entry, i, s, t),
        λ (entry, m, s, t).
            q ∙ fro (entry, mem-keep (survives signals.core_practice) entry _ m s, t),
      )

  -- An entry with an alternative that the row does not answer is a way out: a posting whose entries
  -- all have one does not trip the row.
  pub core_practice_way_out :
      (p : Preference) (entries : List Str)
      → ((entry : Str)
          → Memᴰ entry entries
          → (alt : Str) × Memᴰ alt (split_alternatives entry)
            × (preference_matches p (alt ∷ []) ≡ false))
      → core_practice_answered p entries ≡ false
  core_practice_way_out p entries out = elim (Bool-cases (core_practice_answered p entries)) [
    | inr h ↦ h
    | inl h ↦
        let (entry, m, whole) = (entries-answered_iff p entries).0 h in
        let (alt, i, free) = out entry m in
        let each : all (λ a. preference_matches p (a ∷ [])) (split_alternatives entry) ≡ true =
          ground arith in
        let taken = all_of_mem (λ a. preference_matches p (a ∷ [])) alt _ each i in cc
  ]
