-- ===== src/FitGate/Levels/Precedence.antt =====
-- The rank of a level under a vocabulary (internal/fitgate/scorer.go: NewLevelScale, Rank).
use mathlib.Core.List.{◌++◌}
use role_model.Prelude.{◌≡◌, refl, ◌∙◌, ◌≢◌, false, List, [], ◌∷◌, All, Bool-cases, inl, inr}
use role_model.Prelude.Int.{ℤ, pos}
use role_model.GoText.{Str, str_eq, is_empty, Unicode}
use role_model.GoText.Equality.{str_eq_refl}
use role_model.FitGate.Signals.{ProficiencyLevel}
use role_model.FitGate.Levels.{
  LevelScale, read, write, level_key, write_values, write_aliases, write_all_aliases,
  new_level_scale, or_default, rank,
}

module _ ⦃u : Unicode⦄ where
  -- No row of the list has the name `k`.
  abbrev pub IsUnnamed : Str → List ProficiencyLevel → Type 0
  IsUnnamed k rows = All (λ r. str_eq (level_key r.value) k ≡ false) rows

  read-write_other :
      (k j : Str) (v : ℤ) (scale : LevelScale)
      → str_eq j k ≡ false
      → read k (write j v scale) ≡ read k scale
  unfolding read write
  read-write_other k j v scale h = elim (Bool-cases (is_empty j)) [
    | inl e ↦ rw e refl
    | inr e ↦ rw e (rw h refl)
  ]

  read-write_values_other :
      (k : Str) (rows : List ProficiencyLevel) (scale : LevelScale)
      → IsUnnamed k rows
      → read k (write_values rows scale) ≡ read k scale
  unfolding write_values
  read-write_values_other k [] scale h = refl
  read-write_values_other k (r ∷ rows) scale h =
      read-write_values_other k rows _ h.1 ∙ read-write_other k (level_key r.value) r.rank scale h.0

  read-write_values :
      (before : List ProficiencyLevel) (r : ProficiencyLevel) (after : List ProficiencyLevel)
      (scale : LevelScale)
      → is_empty (level_key r.value) ≡ false
      → IsUnnamed (level_key r.value) after
      → read (level_key r.value) (write_values (before ++ r ∷ after) scale) ≡ r.rank
  unfolding write_values
  read-write_values [] r after scale h k =
      read-write_values_other (level_key r.value) after _ k
      ∙ unfold write read in rw h (rw (str_eq_refl (level_key r.value)) refl)
  read-write_values (b ∷ before) r after scale h k = read-write_values before r after _ h k

  write-ne-nil : (k : Str) (v : ℤ) (scale : LevelScale) → scale ≢ [] → write k v scale ≢ []
  unfolding write
  write-ne-nil k v scale h = elim (Bool-cases (is_empty k)) [
    | inl e ↦ rw e h
    | inr e ↦ rw e (λ c. cc)
  ]

  write_values-ne-nil :
      (rows : List ProficiencyLevel) (scale : LevelScale)
      → scale ≢ []
      → write_values rows scale ≢ []
  unfolding write_values
  write_values-ne-nil [] scale h = h
  write_values-ne-nil (r ∷ rows) scale h =
      write_values-ne-nil rows _ (write-ne-nil (level_key r.value) r.rank scale h)

  named-ne-nil :
      (before : List ProficiencyLevel) (r : ProficiencyLevel) (after : List ProficiencyLevel)
      (scale : LevelScale)
      → is_empty (level_key r.value) ≡ false
      → write_values (before ++ r ∷ after) scale ≢ []
  unfolding write_values
  named-ne-nil [] r after scale h = write_values-ne-nil after _ (unfold write in rw h (λ c. cc))
  named-ne-nil (b ∷ before) r after scale h = named-ne-nil before r after _ h

  or_default-ne-nil : (scale : LevelScale) → scale ≢ [] → or_default scale ≡ scale
  or_default-ne-nil [] h = absurd (h refl)
  or_default-ne-nil (w ∷ scale) h = refl

  -- A level that spells the name of a band, up to case and outer space, has that band's rank,
  -- whatever the aliases of any band say, if no later band has the same name.
  pub rank-named :
      (before : List ProficiencyLevel) (r : ProficiencyLevel) (after : List ProficiencyLevel)
      (level : Str)
      → is_empty (level_key r.value) ≡ false
      → IsUnnamed (level_key r.value) after
      → level_key level ≡ level_key r.value
      → rank (new_level_scale (before ++ r ∷ after)) level ≡ r.rank
  unfolding rank new_level_scale
  rank-named before r after level h k same =
      let rows = before ++ r ∷ after in
      let aliased = write_all_aliases rows [] in
      let own =
        or_default-ne-nil (write_values rows aliased) (named-ne-nil before r after aliased h) in
      rw (same, own) (read-write_values before r after aliased h k)

  -- No alias of the list is spelled `k`.
  abbrev pub IsNoAlias : Str → List Str → Type 0
  IsNoAlias k aliases = All (λ a. str_eq (level_key a) k ≡ false) aliases

  read-write_aliases_other :
      (k : Str) (v : ℤ) (aliases : List Str) (scale : LevelScale)
      → IsNoAlias k aliases
      → read k (write_aliases v aliases scale) ≡ read k scale
  unfolding write_aliases
  read-write_aliases_other k v [] scale h = refl
  read-write_aliases_other k v (a ∷ aliases) scale h =
      read-write_aliases_other k v aliases _ h.1 ∙ read-write_other k (level_key a) v scale h.0

  read-write_all_aliases_other :
      (k : Str) (rows : List ProficiencyLevel) (scale : LevelScale)
      → All (λ r. IsNoAlias k r.aliases) rows
      → read k (write_all_aliases rows scale) ≡ read k scale
  unfolding write_all_aliases
  read-write_all_aliases_other k [] scale h = refl
  read-write_all_aliases_other k (r ∷ rows) scale h =
      read-write_all_aliases_other k rows _ h.1
      ∙ read-write_aliases_other k r.rank r.aliases scale h.0

  -- A level that no band names and no alias spells ranks 0 under a vocabulary of the profile's own.
  pub rank-unknown :
      (rows : List ProficiencyLevel) (level : Str)
      → new_level_scale rows ≢ []
      → IsUnnamed (level_key level) rows
      → All (λ r. IsNoAlias (level_key level) r.aliases) rows
      → rank (new_level_scale rows) level ≡ pos 0
  unfolding rank new_level_scale
  rank-unknown rows level own unnamed no_alias = rw (or_default-ne-nil _ own) (
      read-write_values_other _ rows _ unnamed
      ∙ read-write_all_aliases_other _ rows [] no_alias
      ∙ unfold read in refl)
