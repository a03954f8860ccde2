-- ===== src/Stage0/Approval/Guards.antt =====
-- The guards on a draft, its position and its tags (internal/stage0/service.go: ApproveDraft).
use mathlib.Core.Path.{subst}
use role_model.Prelude.{
  ℕ, ◌≡◌, refl, sym, ap, ◌∙◌, true, false, ◌||◌, List, [], ◌∷◌, ◌++◌, any, any-snoc, or_assoc,
  or_drop, Option, none, some, ◌==◌, ==_iff, Bool-cases, inl, inr,
}
use role_model.Prelude.Results.{Result, ok, err, ok_eq}
use role_model.GoText.{Str, codes, str_eq, is_empty}
use role_model.GoText.Equality.{eq_of_str_eq}
use role_model.Stage0.{Stage0Error, ContributionDraft, Store, World, Outside, first_with, get_tag}
use role_model.Stage0.Outcomes.{Ends, Ends-map, Ends-pure, Ends-bind, Ends-read, first_with-any}
use role_model.Stage0.Approval.{filled_text, both, check_draft, has_tag_id, verify_tags}

-- A draft that can be approved, with its two texts.
pub record IsComplete (d : ContributionDraft) (content : Str × Str) : Type 0 where
  pub pending : d.status ≡ codes "pending"
  pub summary : d.summary ≡ some content.0
  pub full_description : d.full_description ≡ some content.1
  pub filled : (is_empty content.0 ≡ false) × (is_empty content.1 ≡ false)

filled_text-ok :
    (o : Option Str) (t : Str) → filled_text o ≡ ok t → (o ≡ some t) × (is_empty t ≡ false)
filled_text-ok (some t) r h = elim (Bool-cases (is_empty t)) [
  | inl e ↦ cc (rw e at h)
  | inr e ↦ let same : t ≡ r = ok_eq (rw e at h) in (ap some same, sym (ap is_empty same) ∙ e)
]
filled_text-ok none r h = cc

both-ok :
    (r q : Result Stage0Error Str) (c : Str × Str) → both r q ≡ ok c → (r ≡ ok c.0) × (q ≡ ok c.1)
both-ok (err e) q c h = cc
both-ok (ok a) (err e) c h = cc
both-ok (ok a) (ok b) c h =
    (ap (λ (p : Str × Str). ok p.0) (ok_eq h), ap (λ (p : Str × Str). ok p.1) (ok_eq h))

pub check_draft-ok : (d : ContributionDraft) (c : Str × Str) → check_draft d ≡ ok c → IsComplete d c
unfolding check_draft
check_draft-ok d c h = elim (Bool-cases (str_eq d.status (codes "pending"))) [
  | inr e ↦ cc (rw e at h)
  | inl e ↦
      let (r, q) = both-ok (filled_text d.summary) (filled_text d.full_description) c (rw e at h) in
      let (s, f) = filled_text-ok d.summary c.0 r in
      let (t, g) = filled_text-ok d.full_description c.1 q in
      record {
        pending = eq_of_str_eq d.status (codes "pending") e;
        summary = s;
        full_description = t;
        filled = (f, g);
      }
]

-- The ids that are already there add nothing.
known_id :
    (i id : ℕ) (ids unique : List ℕ)
    → has_tag_id id unique ≡ true
    → (has_tag_id i unique || has_tag_id i ids)
      ≡ (has_tag_id i unique || (id == i || has_tag_id i ids))
known_id i id ids unique h = elim (Bool-cases (id == i)) [
  | inr e ↦ rw e refl
  | inl e ↦
      let at_i : has_tag_id i unique ≡ true =
        subst (λ n. has_tag_id n unique ≡ true) ((==_iff id i).0 e) h in
      rw at_i refl
]

module _ ⦃o : Outside⦄ where
  abbrev pub Known : Store → List ℕ → Type 0
  Known s ids = (id : ℕ) → has_tag_id id ids ≡ true → any (λ t. t.id == id) s.tags ≡ true

  Known-snoc :
      (s : Store) (ids : List ℕ) (id : ℕ)
      → Known s ids
      → any (λ t. t.id == id) s.tags ≡ true
      → Known s (ids ++ id ∷ [])
  Known-snoc s ids id known h i m = elim (Bool-cases (has_tag_id i ids)) [
    | inl e ↦ known i e
    | inr e ↦
        let same : id == i ≡ true = (rw (any-snoc (λ j. j == i) ids id, e) at m) in
        subst (λ n. any (λ t. t.id == n) s.tags ≡ true) ((==_iff id i).0 same) h
  ]

  -- The tags verified, with those before.
  abbrev pub Verified : Store → List ℕ → List ℕ → List ℕ → Type 0
  Verified s ids before unique =
      ((i : ℕ) → has_tag_id i unique ≡ (has_tag_id i before || has_tag_id i ids)) × Known s unique

  pub verify_tags-Ends :
      (s : Store) (ids before : List ℕ) (w : World)
      → w.store ≡ s
      → Known s before
      → Ends
          (λ unique t. (t ≡ s) × Verified s ids before unique)
          (λ e t. t ≡ s)
          (verify_tags ids before)
          w
  unfolding verify_tags first_with
  verify_tags-Ends s [] before w at_s known =
      Ends-pure _ _ before w (at_s, ((λ i. sym (or_drop _ false refl)), known))
  verify_tags-Ends s (id ∷ ids) before w at_s known = elim (Bool-cases (has_tag_id id before)) [
    | inl seen ↦ rw seen (
        Ends-map _ _ _ _ (verify_tags ids before) w (verify_tags-Ends s ids before w at_s known)
          (λ unique t (e, (h, k)). (e, ((λ i. h i ∙ known_id i id ids before seen), k)))
          (λ e t h. h))
    | inr new ↦ rw new (
        Ends-bind _ _ _ (get_tag id) _ w
          (Ends-read s w at_s _ (λ t. first_with (λ t. t.id == id) t.tags))
          (λ tag w1 (e, at_s1).
            Ends-map _ _ _ _ (verify_tags ids (before ++ id ∷ [])) w1
              (verify_tags-Ends s ids (before ++ id ∷ []) w1 at_s1
                (Known-snoc s before id known (first_with-any (λ t. t.id == id) s.tags tag e)))
              (λ unique t (e, (h, k)). (e, ((λ i. h i ∙ grown i), k))) (λ e t h. h)))
  ]
    where
      grown :
          (i : ℕ)
          → (has_tag_id i (before ++ id ∷ []) || has_tag_id i ids)
            ≡ (has_tag_id i before || (id == i || has_tag_id i ids))
      grown i =
          ap (λ b. b || has_tag_id i ids) (any-snoc (λ j. j == i) before id)
          ∙ or_assoc (has_tag_id i before) (id == i) (has_tag_id i ids)
