-- ===== src/Intake/Approval/Loop.antt =====
-- What the loop of ResolveBatch over the ordered drafts leaves behind, and what a committed
-- transaction does (internal/intake/resolve.go).
use mathlib.Core.List.Memᴰ
use role_model.Prelude.{
  ℕ, ◌≡◌, refl, sym, ap, ◌∙◌, true, List, [], ◌∷◌, ◌++◌, map, inl, inr, All, Memᴰ, append_assoc,
  mem-append_left, mem-append_right, mem-append_cases,
}
use role_model.Prelude.Results.{Result, ok, err}
use role_model.GoText.{Unicode}
use role_model.Intake.Payloads.{DraftError, kind_named, Json}
use role_model.Intake.Ordering.{EntityDraft}
use role_model.Intake.Store.{Store, World, Outside, Action, ◌>>◌, pure, mark_in}
use role_model.Intake.Store.Steps.{
  Yielded, Yields, Yields-pure, Yields-bind, Yields->>, Yields-map, Yields-query,
}
use role_model.Intake.Store.Growth.{has_row}
use role_model.Intake.Resolvers.{Resolved}
use role_model.Intake.Resolvers.Kinds.{IsListing}
use role_model.Intake.Approval.{begin_tx, commit_tx, rolled_back, in_transaction, resolve_all}
use role_model.Intake.Approval.Marking.{
  GrowsRows, GrowsRows-refl, GrowsRows-trans, has_row-GrowsRows, Marked, resolve_and_mark-Marked,
}

-- A draft with its row.
abbrev pub Done : Type 0
Done = List (EntityDraft × ℕ)

abbrev pub entries : Done → Resolved
entries done = map (λ e. (e.0.id, e.1)) done

-- The drafts with each of the entries marked, the latest entry last.
unfoldable pub mark_entries : Resolved → List EntityDraft → List EntityDraft
mark_entries [] ds = ds
mark_entries ((id, row) ∷ es) ds = mark_in id row (mark_entries es ds)

abbrev pub IsBackedBy : Store → EntityDraft × ℕ → Type 0
IsBackedBy s e = has_row (kind_named (e.0).kind) e.1 s ≡ true

-- What the loop has done when it ends.
pub record Resolves (order : List EntityDraft) (resolved : Resolved) (s : Store)
    (resolved' : Resolved) (s' : Store) : Type 0 where
  pub done : Done
  pub covers : (d : EntityDraft) → Memᴰ d order → (row : ℕ) × Memᴰ (d, row) done
  pub only : (e : EntityDraft × ℕ) → Memᴰ e done → Memᴰ e.0 order
  pub noted : resolved' ≡ entries done ++ resolved
  pub grown : GrowsRows s s'
  pub marked : s'.drafts ≡ mark_entries (entries done) s.drafts
  pub backed : All (IsBackedBy s') done

mark_entries-append :
    (es : Resolved) (id row : ℕ) (ds : List EntityDraft)
    → mark_entries (es ++ (id, row) ∷ []) ds ≡ mark_entries es (mark_in id row ds)
unfolding mark_entries
mark_entries-append [] id row ds = refl
mark_entries-append ((k, r) ∷ es) id row ds = rw (mark_entries-append es id row ds)

entries-append :
    (done : Done) (d : EntityDraft) (row : ℕ)
    → entries (done ++ (d, row) ∷ []) ≡ entries done ++ (d.id, row) ∷ []
entries-append [] d row = refl
entries-append (e ∷ done) d row = rw (entries-append done d row)

backed_append :
    (s : Store) (done : Done) (e : EntityDraft × ℕ)
    → All (IsBackedBy s) done
    → IsBackedBy s e
    → All (IsBackedBy s) (done ++ e ∷ [])
backed_append s [] e a b = (b, tt)
backed_append s (f ∷ done) e a b = (a.0, backed_append s done e a.1 b)

-- One draft more, resolved before the others.
Resolves-cons :
    (d : EntityDraft) (order : List EntityDraft) (row : ℕ) (resolved resolved' : Resolved)
    (s s1 s' : Store)
    → Marked d s row s1
    → Resolves order ((d.id, row) ∷ resolved) s1 resolved' s'
    → Resolves (d ∷ order) resolved s resolved' s'
Resolves-cons d order row resolved resolved' s s1 s' m r = record {
  done = r.done ++ (d, row) ∷ [];
  covers = λ e i. elim (Memᴰ.cases_cons i) [
    | inl q ↦ (row, mem-append_right _ r.done _ (Memᴰ.head (ap (λ x. (x, row)) q)))
    | inr i' ↦ let (n, k) = r.covers e i' in (n, mem-append_left _ r.done _ k)
  ];
  only = λ e i. elim (mem-append_cases e r.done _ i) [
    | inl k ↦ Memᴰ.tail (r.only e k)
    | inr k ↦ elim (Memᴰ.cases_cons k) [ inl q ↦ Memᴰ.head (ap (λ x. x.0) q) | inr n ↦ elim n [ ] ]
  ];
  noted =
      r.noted
      ∙ sym (append_assoc (entries r.done) ((d.id, row) ∷ []) resolved)
      ∙ sym (ap (λ l. l ++ resolved) (entries-append r.done d row));
  grown = GrowsRows-trans s s1 s' m.grown r.grown;
  marked =
      r.marked
      ∙ ap (mark_entries (entries r.done)) m.marked
      ∙ sym (mark_entries-append (entries r.done) d.id row s.drafts)
      ∙ sym (ap (λ l. mark_entries l s.drafts) (entries-append r.done d row));
  backed =
      backed_append s' r.done (d, row) r.backed
        (has_row-GrowsRows (kind_named d.kind) row s1 s' r.grown m.backed);
}

module _ ⦃o : Outside⦄ where
  committed :
      {A : Type 0} (Q : A → Store → Type 0) (s : Store) (r : Result DraftError A × World)
      → Yielded Q r
      → Yielded Q (rolled_back s r)
  committed Q s (ok a, w') y = y
  committed Q s (err e, w') y = tt

  -- A transaction that is committed has done what its body does.
  pub in_transaction-Yields :
      {A : Type 0} (Q : A → Store → Type 0) (m : Action A) (w : World)
      → ((w' : World) → w'.store ≡ w.store → Yields Q m w')
      → Yields Q (in_transaction m) w
  unfolding in_transaction Yields
  in_transaction-Yields Q m w h = committed Q w.store _ (
      Yields-bind Q Q (begin_tx >> m) (λ a. commit_tx >> pure a) w
        (Yields->> (λ t s. s ≡ w.store) Q begin_tx m w (Yields-query _ _ w refl) (λ t w' e. h w' e))
        λ a w' q.
          Yields->> (λ t s. Q a s) Q commit_tx (pure a) w' (Yields-query _ _ w' q)
            λ t w'' q'. Yields-pure Q a w'' q')

  module _ ⦃u : Unicode⦄ ⦃j : Json⦄ (listing : IsListing o) where
    pub resolve_all-Resolves :
        (order : List EntityDraft) (resolved : Resolved) (w : World)
        → Yields (Resolves order resolved w.store) (resolve_all order resolved) w
    unfolding resolve_all mark_entries
    resolve_all-Resolves [] resolved w = Yields-pure _ resolved w (record {
      done = [];
      covers = λ e i. elim i [ ];
      only = λ e i. elim i [ ];
      noted = refl;
      grown = GrowsRows-refl w.store;
      marked = refl;
      backed = tt;
    })
    resolve_all-Resolves (d ∷ order) resolved w =
        Yields-bind _ _ _ _ w (resolve_and_mark-Marked listing resolved d w) λ row w1 m.
          Yields-map _ _ _ w1 (resolve_all-Resolves order ((d.id, row) ∷ resolved) w1)
            λ resolved' s' r. Resolves-cons d order row resolved resolved' w.store w1.store s' m r
