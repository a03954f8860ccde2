-- ===== src/Stage0/Approval/Links.antt =====
-- Linking tags to a contribution (internal/stage0/service.go: ApproveDraft).
use mathlib.Core.Path.{subst}
use role_model.Prelude.{
  ℕ, ◌≡◌, refl, sym, ap, ap₂, ◌∙◌, Bool, true, false, ◌||◌, ◌&&◌, List, [], ◌∷◌, ◌++◌, any-snoc,
  or_drop, ◌==◌, ==_iff, if◌then◌else◌, Bool-cases, inl, inr,
}
use role_model.Stage0.{Store, World, Outside, is_tagged, assign_tag}
use role_model.Stage0.Outcomes.{Ends, Ends-map, Ends-pure, Ends-then, Ends-write}
use role_model.Stage0.Approval.{has_tag_id, assign_tags}

-- The links with the contribution are those there were and one for each tag.
abbrev pub Linked : ℕ → List ℕ → Store → Store → Type 0
Linked c ids s t =
    (t ≡ record s { contribution_tags = t.contribution_tags })
    × ((k i : ℕ)
        → is_tagged k i t.contribution_tags
          ≡ (is_tagged k i s.contribution_tags || ((c == k) && has_tag_id i ids)))

abbrev link : ℕ → ℕ → Store → Store
link c id s =
    if is_tagged c id s.contribution_tags
    then s
    else record s { contribution_tags = s.contribution_tags ++ (c, id) ∷ [] }

spread : (a x y z : Bool) → ((a || (x && y)) || (x && z)) ≡ (a || (x && (y || z)))
spread true x y z = refl
spread false true y z = refl
spread false false y z = refl

old_link :
    (c id k i : ℕ) (b : Bool) (links : List (ℕ × ℕ))
    → is_tagged c id links ≡ true
    → (is_tagged k i links || ((c == k) && b))
      ≡ (is_tagged k i links || ((c == k) && (id == i || b)))
old_link c id k i b links old = elim (Bool-cases (c == k)) [
  | inr e ↦ rw e refl
  | inl e ↦ elim (Bool-cases (id == i)) [
    | inr f ↦ rw (e, f) refl
    | inl f ↦
        let there : is_tagged k i links ≡ true =
          ap₂ (λ m n. is_tagged m n links) (sym ((==_iff c k).0 e)) (sym ((==_iff id i).0 f))
          ∙ old in
        rw there refl
  ]
]

link-Linked :
    (c id : ℕ) (ids : List ℕ) (s t : Store) → Linked c ids (link c id s) t → Linked c (id ∷ ids) s t
link-Linked c id ids s t linked = elim (Bool-cases (is_tagged c id s.contribution_tags)) [
  | inl old ↦
      let (e, h) : Linked c ids s t = subst (λ b. Linked c ids (chosen b) t) old linked in
      (e, (λ k i. h k i ∙ old_link c id k i (has_tag_id i ids) s.contribution_tags old))
  | inr new ↦
      let (e, h) : Linked c ids (chosen false) t =
        subst (λ b. Linked c ids (chosen b) t) new linked in
      (
        e,
        (λ k i.
            h k i
            ∙ ap (λ b. b || ((c == k) && has_tag_id i ids))
                (any-snoc (λ l. (l.0 == k) && (l.1 == i)) s.contribution_tags (c, id))
            ∙ spread (is_tagged k i s.contribution_tags) (c == k) (id == i) (has_tag_id i ids)),
      )
]
  where
    chosen : Bool → Store
    chosen b = if b then s else record s { contribution_tags = s.contribution_tags ++ (c, id) ∷ [] }

no_link : (c : ℕ) (s t : Store) → t ≡ s → Linked c [] s t
no_link c s t e = (
  e ∙ ap (λ (u : Store). record s { contribution_tags = u.contribution_tags }) (sym e),
  (λ k i.
      ap (λ (u : Store). is_tagged k i u.contribution_tags) e
      ∙ sym (or_drop (is_tagged k i s.contribution_tags) _ (no_tag (c == k)))),
)
  where
    no_tag : (b : Bool) → (b && false) ≡ false
    no_tag true = refl
    no_tag false = refl

module _ ⦃o : Outside⦄ where
  pub assign_tags-Ends :
      (c : ℕ) (ids : List ℕ) (s : Store) (w : World)
      → w.store ≡ s
      → Ends (λ a t. Linked c ids s t) (λ e t. Unit {0}) (assign_tags c ids) w
  unfolding assign_tags
  assign_tags-Ends c [] s w at_s = Ends-pure _ _ tt w (no_link c s w.store at_s)
  assign_tags-Ends c (id ∷ ids) s w at_s =
      Ends-then _ _ _ (assign_tag c id) (assign_tags c ids) w
        (Ends-write s w at_s _ (λ e. tt) _ tt (link c id))
        (λ a w1 (u, at_s1).
          Ends-map _ _ _ _ (assign_tags c ids) w1 (assign_tags-Ends c ids (link c id s) w1 at_s1)
            (λ b t h. link-Linked c id ids s t h) (λ e t h. tt))
