-- ===== src/FitGate/Alternatives/Collapse.antt =====
-- The survivors of collapseSubsumed (internal/fitgate/scorer.go).
use Prim.Native.Nat.{max}
use role_model.Prelude.{
  ℕ, zero, suc, ◌+◌, ◌≤◌, ◌<◌, ◌≡◌, sym, true, false, List, [], ◌∷◌, Memᴰ, map, any, length,
  Bool-cases, inl, inr, any_of_mem, mem_of_any, all_of_mem, all_intro, mem-keep, mem-map,
  mem-map_inv, arith,
}
use role_model.GoText.{Str, str_eq, Unicode}
use role_model.GoText.Equality.{eq_of_str_eq, str_eq_refl}
use role_model.FitGate.Alternatives.{has, is_subset, group_of, collapse_subsumed}
use role_model.FitGate.Alternatives.Reference.{wider, survives, collapse_subsumed-eq-keep}

pub has-mem : (k : Str) (g : List Str) → has g k ≡ true → Memᴰ k g
has-mem k [] h = cc
has-mem k (j ∷ g) h = elim (Bool-cases (str_eq j k)) [
  | inl e ↦ Memᴰ.head (sym (eq_of_str_eq j k e))
  | inr e ↦ Memᴰ.tail (has-mem k g (rw e at h))
]

pub mem-has : (k : Str) (g : List Str) → Memᴰ k g → has g k ≡ true
mem-has k g m = any_of_mem (λ j. str_eq j k) k g m (str_eq_refl k)

pub is_subset_refl : (a : List Str) → is_subset a a ≡ true
unfolding is_subset
is_subset_refl a = all_intro (λ k. has a k) a (λ k m. mem-has k a m)

pub is_subset_trans :
    (a b c : List Str) → is_subset a b ≡ true → is_subset b c ≡ true → is_subset a c ≡ true
unfolding is_subset
is_subset_trans a b c ab bc =
    all_intro (λ k. has c k) a
      (λ k m. all_of_mem (λ j. has c j) k b bc (has-mem k b (all_of_mem (λ j. has b j) k a ab m)))

widest : List (List Str) → ℕ
widest [] = 0
widest (g ∷ gs) = max (length g) (widest gs)

le-widest : (g : List Str) (gs : List (List Str)) → Memᴰ g gs → length g ≤ widest gs
unfolding widest
le-widest g [] m = elim m [ ]
le-widest g (h ∷ gs) (Memᴰ.head e) = let e' : length g ≡ length h = rw e in omega arith
le-widest g (h ∷ gs) (Memᴰ.tail m) = omega (arith, le-widest g gs m)

module _ ⦃u : Unicode⦄ where
  -- The entry survives, or a wider one is there.
  wider_entry :
      (entries : List Str) (e : Str)
      → any (wider (group_of e)) (map group_of entries) ≡ true
      → (f : Str) × Memᴰ f entries
        × (length (group_of e) < length (group_of f))
        × (is_subset (group_of e) (group_of f) ≡ true)
  wider_entry entries e h =
      let (g, m, w) = mem_of_any (wider (group_of e)) (map group_of entries) h in
      let (f, i, same) = mem-map_inv group_of g entries m in
      let w' : wider (group_of e) (group_of f) ≡ true = rw same at w in
      (f, i, ground arith, ground arith)

  -- Some survivor offers all that `e` offers.
  abbrev Covered : List Str → Str → Type 0
  Covered entries e =
      (s : Str) × Memᴰ s (collapse_subsumed entries) × (is_subset (group_of e) (group_of s) ≡ true)

  settled :
      (entries : List Str) (e : Str)
      → Memᴰ e entries
      → 0 < length (group_of e)
      → any (wider (group_of e)) (map group_of entries) ≡ false
      → Covered entries e
  settled entries e m some_key h = (
    e,
    rw (collapse_subsumed-eq-keep entries)
        (mem-keep (survives entries) e entries m (rw h (ground arith))),
    is_subset_refl (group_of e),
  )

  -- By recursion on how far the widest group is above that of the entry.
  covered :
      (k : ℕ) (entries : List Str) (e : Str)
      → Memᴰ e entries
      → 0 < length (group_of e)
      → widest (map group_of entries) < length (group_of e) + k
      → Covered entries e
  covered zero entries e m some_key room =
      let reached = le-widest (group_of e) _ (mem-map group_of e entries m) in
      elim (Bool-cases (any (wider (group_of e)) (map group_of entries))) [
        | inl h ↦
            let (f, i, longer, _) = wider_entry entries e h in
            let above = le-widest (group_of f) _ (mem-map group_of f entries i) in
            absurd (omega arith)
        | inr h ↦ settled entries e m some_key h
      ]
  covered (suc k) entries e m some_key room =
      elim (Bool-cases (any (wider (group_of e)) (map group_of entries))) [
        | inl h ↦
            let (f, i, longer, sub) = wider_entry entries e h in
            let (s, j, sub') = covered k entries f i (omega arith) (omega arith) in
            (s, j, is_subset_trans _ _ _ sub sub')
        | inr h ↦ settled entries e m some_key h
      ]

  -- Collapsing loses no alternative: for each entry that offers one, a survivor offers all of its
  -- alternatives.
  pub collapse_subsumed_covers :
      (entries : List Str) (e : Str)
      → Memᴰ e entries
      → 0 < length (group_of e)
      → (s : Str) × Memᴰ s (collapse_subsumed entries)
        × (is_subset (group_of e) (group_of s) ≡ true)
  collapse_subsumed_covers entries e m some_key =
      covered (suc (widest (map group_of entries))) entries e m some_key (omega arith)
