-- ===== src/Intake/Collisions/Bags.antt =====
-- Sorted words and the order they forget (internal/intake/collision.go: equalBags).
use mathlib.Core.List.{Permᴰ}
use mathlib.Core.List.Permᴰ
use mathlib.Core.Path.{subst}
use role_model.Prelude.{
  ℕ, suc, ◌≡◌, refl, sym, ap, ap₂, ◌∙◌, ◌↔◌, true, false, not, List, [], ◌∷◌, length, ◌==◌,
  if◌then◌else◌, arith, Bool-cases, inl, inr,
}
use role_model.GoText.{Str, str_eq}
use role_model.GoText.Equality.{eq_of_str_eq, str_eq_refl}
use role_model.Intake.Collisions.{str_leb, insert, sort, equal_runs, equal_bags}

str_leb_refl : (s : Str) → str_leb s s ≡ true
unfolding str_leb
str_leb_refl [] = refl
str_leb_refl (a ∷ s) = ground (arith, str_leb_refl s)

str_leb-total : (s t : Str) → str_leb s t ≡ false → str_leb t s ≡ true
unfolding str_leb
str_leb-total [] t h = cc
str_leb-total (a ∷ s) [] h = refl
str_leb-total (a ∷ s) (b ∷ t) h = ground (arith, str_leb-total s t)

str_leb_trans : (s t v : Str) → str_leb s t ≡ true → str_leb t v ≡ true → str_leb s v ≡ true
unfolding str_leb
str_leb_trans [] t v h k = refl
str_leb_trans (a ∷ s) [] v h k = cc
str_leb_trans (a ∷ s) (b ∷ t) [] h k = cc
str_leb_trans (a ∷ s) (b ∷ t) (c ∷ v) h k = ground (arith, str_leb_trans s t v)

str_leb-antisym : (s t : Str) → str_leb s t ≡ true → str_leb t s ≡ true → s ≡ t
unfolding str_leb
str_leb-antisym [] [] h k = refl
str_leb-antisym [] (b ∷ t) h k = cc
str_leb-antisym (a ∷ s) [] h k = cc
str_leb-antisym (a ∷ s) (b ∷ t) h k = ground (arith, str_leb-antisym s t)

insert_comm : (s t : Str) (l : List Str) → insert s (insert t l) ≡ insert t (insert s l)
unfolding insert
insert_comm s t [] = elim (Bool-cases (str_leb s t)) [
  | inl h ↦ elim (Bool-cases (str_leb t s)) [
    | inl k ↦ let e = str_leb-antisym s t h k in rw e refl
    | inr k ↦ rw (h, k) refl
  ]
  | inr h ↦ let k = str_leb-total s t h in rw (h, k) refl
]
insert_comm s t (v ∷ l) = ground (
  arith,
  insert_comm s t l,
  str_leb-total s t,
  str_leb-total t s,
  str_leb-antisym s t,
  str_leb_trans s t v,
  str_leb_trans t s v,
  str_leb-total s v,
  str_leb-total t v,
)

insert-Permᴰ : (s : Str) (l : List Str) → Permᴰ (insert s l) (s ∷ l)
unfolding insert
insert-Permᴰ s [] = Permᴰ.refl _
insert-Permᴰ s (t ∷ l) = elim (Bool-cases (str_leb s t)) [
  | inl h ↦ rw h (Permᴰ.refl _)
  | inr h ↦ rw h (Permᴰ.trans (Permᴰ.cons refl (insert-Permᴰ s l)) (Permᴰ.swap refl refl))
]

sort-Permᴰ : (l : List Str) → Permᴰ (sort l) l
unfolding sort
sort-Permᴰ [] = Permᴰ.nil
sort-Permᴰ (s ∷ l) = Permᴰ.trans (insert-Permᴰ s (sort l)) (Permᴰ.cons refl (sort-Permᴰ l))

-- Sorting forgets the order.
sort-eq : {a b : List Str} → Permᴰ a b → sort a ≡ sort b
unfolding sort
sort-eq Permᴰ.nil = refl
sort-eq (Permᴰ.cons {a} {b} e p) = ap₂ insert e (sort-eq p)
sort-eq (Permᴰ.swap {a} {b} {a'} {b'} {l} e f) =
    ap₂ (λ x y. insert x (insert y (sort l))) e f ∙ insert_comm b' a' (sort l)
sort-eq (Permᴰ.trans p q) = sort-eq p ∙ sort-eq q

Permᴰ-length : {a b : List Str} → Permᴰ a b → length a ≡ length b
Permᴰ-length Permᴰ.nil = refl
Permᴰ-length (Permᴰ.cons e p) = ap suc (Permᴰ-length p)
Permᴰ-length (Permᴰ.swap e f) = refl
Permᴰ-length (Permᴰ.trans p q) = Permᴰ-length p ∙ Permᴰ-length q

pub equal_runs-eq : (a b : List Str) → equal_runs a b ≡ true → a ≡ b
unfolding equal_runs
equal_runs-eq [] [] h = refl
equal_runs-eq [] (t ∷ b) h = cc
equal_runs-eq (s ∷ a) [] h = cc
equal_runs-eq (s ∷ a) (t ∷ b) h = elim (Bool-cases (str_eq s t)) [
  | inl e ↦ ap₂ (λ x l. x ∷ l) (eq_of_str_eq s t e) (equal_runs-eq a b (rw e at h))
  | inr e ↦ let q : false ≡ true = rw e at h in cc
]

pub equal_runs_refl : (a : List Str) → equal_runs a a ≡ true
unfolding equal_runs
equal_runs_refl [] = refl
equal_runs_refl (s ∷ a) = rw (str_eq_refl s) (equal_runs_refl a)

same_length : {m n : ℕ} → m ≡ n → (m == n) ≡ true
same_length e = ground arith

-- Two labels count as the same words exactly if the words of one are a rearrangement of those of the
-- other, each as often.
pub equal_bags_iff : (a b : List Str) → (equal_bags a b ≡ true) ↔ Permᴰ a b
unfolding equal_bags
equal_bags_iff a b = (to, from)
  where
    to :
        (if not (length a == length b) then false else equal_runs (sort a) (sort b)) ≡ true
        → Permᴰ a b
    to h = elim (Bool-cases (length a == length b)) [
      | inl e ↦
          let same = equal_runs-eq (sort a) (sort b) (rw e at h) in
          Permᴰ.trans (Permᴰ.symm (sort-Permᴰ a)) (subst (λ l. Permᴰ l b) (sym same) (sort-Permᴰ b))
      | inr e ↦ let q : false ≡ true = rw e at h in cc
    ]

    from :
        Permᴰ a b
        → (if not (length a == length b) then false else equal_runs (sort a) (sort b)) ≡ true
    from p = rw (same_length (Permᴰ-length p), sort-eq p) (equal_runs_refl (sort b))
