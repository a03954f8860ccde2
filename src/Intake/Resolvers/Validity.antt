-- ===== src/Intake/Resolvers/Validity.antt =====
-- From the resolver to the edit-time check (internal/intake/resolve.go: ValidatePayload against
-- resolveOne).
use mathlib.Core.Path.{subst}
use role_model.Prelude.{ℕ, ◌≡◌, refl, true, Option, none, some}
use role_model.Prelude.Results.{Result, ok, err}
use role_model.GoText.{Str, Unicode}
use role_model.Intake.Payloads.{
  DraftError, bad_payload, Kind, kind_employer, kind_position, kind_contribution, kind_skill,
  kind_preference, kind_education, kind_credential, kind_other, kind_named, Json, Checked,
  decode_then, EmployerPayload, PositionPayload, ContributionPayload, SkillPayload,
  PreferencePayload, EducationPayload, CredentialPayload, validate_employer, validate_position,
  validate_contribution, validate_skill, validate_preference, validate_education,
  validate_credential, validate_kind, validate_payload,
}
use role_model.Intake.Ordering.{EntityDraft}
use role_model.Intake.Store.{World, Outside, Action, run, ◌>>=◌, ◌>>◌, lift}
use role_model.Intake.Store.Steps.{
  Yields, Yields-ok, Yields-map, Yields-const, Yields-bind, Yields->>, Yields-lift,
}
use role_model.Intake.Resolvers.{
  Resolved, payload_of, write_employer, write_position, write_contribution, write_skill,
  write_preference, write_education, write_credential, resolve_kind, resolve_one,
}

module _ (P : Type 0) ⦃o : Outside⦄ where
  -- What a step that only computes has shown.
  from_lift :
      {A B : Type 0} (r : Result DraftError A) (f : A → Action B) (w : World)
      → ((a : A) (w' : World) → r ≡ ok a → Yields (λ b s. P) (f a) w')
      → Yields (λ b s. P) (lift r >>= f) w
  from_lift r f w k =
      Yields-bind (λ a s. r ≡ ok a) _ _ f w (Yields-lift _ r w λ a e. e) λ a w' e. k a w' e

  from_check :
      {B : Type 0} (r : Checked) (m : Action B) (w : World)
      → ((w' : World) → r ≡ ok tt → Yields (λ b s. P) m w')
      → Yields (λ b s. P) (lift r >> m) w
  from_check r m w k =
      Yields->> (λ a s. r ≡ ok tt) _ _ m w (Yields-lift _ r w λ a e. e) λ a w' e. k w' e

  from_step :
      {A B : Type 0} (m : Action A) (f : A → Action B) (w : World)
      → ((a : A) (w' : World) → Yields (λ b s. P) (f a) w')
      → Yields (λ b s. P) (m >>= f) w
  from_step m f w k = Yields-bind (λ a s. Unit {0}) _ m f w (Yields-const _ m w tt) λ a w' t. k a w'

module _ ⦃u : Unicode⦄ ⦃o : Outside⦄ where
  write_employer-valid :
      (p : EmployerPayload) (w : World)
      → Yields (λ b s. validate_employer p ≡ ok tt) (write_employer p) w
  unfolding write_employer
  write_employer-valid p w = from_check _ _ _ w λ w1 e. Yields-const _ _ w1 e

  write_preference-valid :
      (p : PreferencePayload) (w : World)
      → Yields (λ b s. validate_preference p ≡ ok tt) (write_preference p) w
  unfolding write_preference
  write_preference-valid p w = from_check _ _ _ w λ w1 e. Yields-const _ _ w1 e

  write_education-valid :
      (p : EducationPayload) (w : World)
      → Yields (λ b s. validate_education p ≡ ok tt) (write_education p) w
  unfolding write_education
  write_education-valid p w = from_check _ _ _ w λ w1 e. Yields-const _ _ w1 e

  write_credential-valid :
      (p : CredentialPayload) (w : World)
      → Yields (λ b s. validate_credential p ≡ ok tt) (write_credential p) w
  unfolding write_credential
  write_credential-valid p w = from_check _ _ _ w λ w1 e. Yields-const _ _ w1 e

  write_skill-valid :
      (p : SkillPayload) (w : World) → Yields (λ b s. validate_skill p ≡ ok tt) (write_skill p) w
  unfolding write_skill
  write_skill-valid p w =
      from_step _ _ _ w λ t w1. from_check _ _ _ w1 λ w2 e. Yields-const _ _ w2 e

  write_contribution-valid :
      (resolved : Resolved) (p : ContributionPayload) (w : World)
      → Yields (λ b s. validate_contribution p ≡ ok tt) (write_contribution resolved p) w
  unfolding write_contribution
  write_contribution-valid resolved p w =
      from_lift _ _ _ w λ i w1 _. from_check _ _ _ w1 λ w2 e. Yields-const _ _ w2 e

  write_position-valid :
      (resolved : Resolved) (p : PositionPayload) (w : World)
      → Yields (λ b s. validate_position p ≡ ok tt) (write_position resolved p) w
  unfolding write_position validate_position
  write_position-valid resolved p w = from_lift _ _ _ w λ i w1 _.
      from_lift _ _ _ w1
        λ d w2 e. from_lift _ _ _ w2 λ d' w3 e'. Yields-const _ _ w3 (rw (e, e') refl)

  module _ ⦃j : Json⦄ where
    read_check :
        {A : Type 0} (kind raw : Str) (found : Option A) (check : A → Checked) (p : A)
        → j.only_known kind raw ≡ true
        → (elim found as (λ _. Result DraftError A) [ none ↦ err bad_payload | some p ↦ ok p ])
          ≡ ok p
        → check p ≡ ok tt
        → decode_then kind raw found check ≡ ok tt
    read_check kind raw none check p known e c = cc
    read_check kind raw (some q) check p known e c = let s : q ≡ p = cc in rw (known, s) c

    -- The reader's result passes, hence the document does.
    decoded :
        {A : Type 0} (kind raw : Str) (d : Option Str) (read : Str → Option A) (check : A → Checked)
        (p : A)
        → d ≡ some raw
        → j.only_known kind raw ≡ true
        → payload_of read d ≡ ok p
        → check p ≡ ok tt
        → decode_then kind raw (read raw) check ≡ ok tt
    decoded kind raw d read check p h known e c =
        read_check kind raw (read raw) check p known (subst (λ x. payload_of read x ≡ ok p) h e) c

    module _ (d : EntityDraft) (raw : Str) (kind : Str) (h : d.payload ≡ some raw)
        (known : j.only_known kind raw ≡ true) where
      -- A reader, then a writer that succeeds only on a payload that passes the check.
      read_then :
          {A : Type 0} (read : Str → Option A) (check : A → Checked) (write : A → Action ℕ)
          (w : World)
          → ((p : A) (w' : World) → Yields (λ b s. check p ≡ ok tt) (write p) w')
          → Yields
              (λ b s. decode_then kind raw (read raw) check ≡ ok tt)
              (lift (payload_of read d.payload) >>= write)
              w
      read_then read check write w k = from_lift _ _ _ w λ p w1 e.
          Yields-map _ _ (write p) w1 (k p w1)
            λ b s c. decoded kind raw d.payload read check p h known e c

      resolve_kind-valid :
          (k : Kind) (resolved : Resolved) (w : World)
          → Yields (λ b s. validate_kind k kind raw ≡ ok tt) (resolve_kind k d resolved) w
      unfolding resolve_kind validate_kind
      resolve_kind-valid kind_employer r w = read_then _ _ _ w write_employer-valid
      resolve_kind-valid kind_position r w = read_then _ _ _ w (write_position-valid r)
      resolve_kind-valid kind_contribution r w = read_then _ _ _ w (write_contribution-valid r)
      resolve_kind-valid kind_skill r w = read_then _ _ _ w write_skill-valid
      resolve_kind-valid kind_preference r w = read_then _ _ _ w write_preference-valid
      resolve_kind-valid kind_education r w = read_then _ _ _ w write_education-valid
      resolve_kind-valid kind_credential r w = read_then _ _ _ w write_credential-valid
      resolve_kind-valid kind_other r w =
          Yields-lift (λ b s. validate_kind kind_other kind raw ≡ ok tt) _ w λ a e. cc

    -- A draft that resolves has a payload that the edit-time check accepts, if the payload has no
    -- field unknown to its kind.
    pub resolve_one-valid :
        (d : EntityDraft) (raw : Str) (resolved : Resolved) (row : ℕ) (w w' : World)
        → d.payload ≡ some raw
        → j.only_known d.kind raw ≡ true
        → run (resolve_one d resolved) w ≡ (ok row, w')
        → validate_payload d.kind raw ≡ ok tt
    unfolding resolve_one validate_payload
    resolve_one-valid d raw resolved row w w' h known e =
        Yields-ok (λ b s. validate_kind (kind_named d.kind) d.kind raw ≡ ok tt) _ w
          (resolve_kind-valid d raw d.kind h known (kind_named d.kind) resolved w) row w' e
