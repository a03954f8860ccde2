-- ===== src/Intake/Resolvers/Sufficiency.antt =====
-- From the edit-time check to the resolver (internal/intake/resolve.go: ValidatePayload against
-- resolveOne).
use role_model.Prelude.{
  ℕ, ◌+◌, ◌≡◌, refl, ap, ◌∙◌, Bool, true, false, Option, none, some, Bool-cases, inl, inr,
}
use role_model.Prelude.Results.{Result, ok, err, first-ok}
use role_model.GoText.{Str, codes, Unicode}
use role_model.Intake.Dates.{optional_date}
use role_model.Intake.Payloads.{
  DraftError, bad_payload, Kind, kind_employer, kind_position, kind_contribution, kind_skill,
  kind_preference, kind_education, kind_credential, kind_other, kind_named, Json, Checked, require,
  date_field, decode_then, EmployerPayload, PreferencePayload, EducationPayload, CredentialPayload,
  validate_employer, validate_preference, validate_education, validate_credential, validate_kind,
  validate_payload,
}
use role_model.Intake.Ordering.{EntityDraft}
use role_model.Intake.Store.{
  Store, World, Outside, Action, run, follow, ◌>>=◌, ◌>>◌, pure, lift, query, execute, new_id,
}
use role_model.Intake.Store.Steps.{Yields-ok}
use role_model.Intake.Store.Growth.{has_row}
use role_model.Intake.Resolvers.Kinds.{IsListing, resolve_one-Wrote}
use role_model.Intake.Resolvers.{
  Resolved, payload_of, find_employer, create_employer, create_preference, create_education,
  create_credential, write_employer, write_preference, write_education, write_credential,
  resolve_kind, resolve_one,
}

-- The action ends well.
unfoldable pub Succeeds : {A : Type 0} → Action A → World → Type 0
Succeeds {A} m w = (a : A) × (w' : World) × (run m w ≡ (ok a, w'))

Succeeds-pure : {A : Type 0} (a : A) (w : World) → Succeeds (pure a) w
unfolding Succeeds pure
Succeeds-pure a w = (a, w, refl)

module _ {A B : Type 0} where
  Succeeds-bind :
      (m : Action A) (f : A → Action B) (w : World)
      → Succeeds m w
      → ((a : A) (w' : World) → Succeeds (f a) w')
      → Succeeds (m >>= f) w
  unfolding Succeeds ◌>>=◌
  Succeeds-bind m f w (a, w', e) k = let (b, w'', e') = k a w' in (b, w'', ap (follow f) e ∙ e')

  Succeeds->> :
      (m : Action A) (k : Action B) (w : World)
      → Succeeds m w
      → ((w' : World) → Succeeds k w')
      → Succeeds (m >> k) w
  unfolding ◌>>◌
  Succeeds->> m k w s h = Succeeds-bind m (λ _. k) w s (λ a w'. h w')

  Succeeds-lift :
      (r : Result DraftError A) (f : A → Action B) (a : A) (w : World)
      → r ≡ ok a
      → Succeeds (f a) w
      → Succeeds (lift r >>= f) w
  unfolding Succeeds ◌>>=◌ lift
  Succeeds-lift r f a w e (b, w', h) = (b, w', ap (λ x. follow f (x, w)) e ∙ h)

  Succeeds-check :
      (r : Result DraftError A) (m : Action B) (a : A) (w : World)
      → r ≡ ok a
      → Succeeds m w
      → Succeeds (lift r >> m) w
  unfolding ◌>>◌
  Succeeds-check r m a w e s = Succeeds-lift r (λ _. m) a w e s

payload_of-some :
    {A : Type 0} (read : Str → Option A) (d : Option Str) (raw : Str) (p : A)
    → d ≡ some raw
    → read raw ≡ some p
    → payload_of read d ≡ ok p
payload_of-some read d raw p h f = rw (h, f, payload_of) refl

-- The kinds whose payloads name nothing else.
abbrev pub stands_alone : Kind → Bool
stands_alone kind_employer = true
stands_alone kind_position = false
stands_alone kind_contribution = false
stands_alone kind_skill = false
stands_alone kind_preference = true
stands_alone kind_education = true
stands_alone kind_credential = true
stands_alone kind_other = false

module _ ⦃o : Outside⦄ (works : (n : ℕ) → o.fails n ≡ false) where
  Succeeds-query : {A : Type 0} (f : Store → A) (w : World) → Succeeds (query f) w
  unfolding Succeeds query
  Succeeds-query f w = (f w.store, record w { calls = w.calls + 1 }, rw (works w.calls) refl)

  Succeeds-created :
      (add : ℕ → Store → Store) (w : World)
      → Succeeds (new_id >>= λ id. execute (add id) >> pure id) w
  unfolding Succeeds query new_id execute
  Succeeds-created add w =
      Succeeds-bind new_id _ w (_, _, refl)
        λ id w1.
          Succeeds->> (execute (add id)) (pure id) w1
            (
              tt,
              record w1 { store = add id w1.store; calls = w1.calls + 1 },
              rw (works w1.calls) refl,
            )
            λ w2. Succeeds-pure id w2

  module _ ⦃u : Unicode⦄ where
    write_preference-Succeeds :
        (p : PreferencePayload) (w : World)
        → validate_preference p ≡ ok tt
        → Succeeds (write_preference p) w
    unfolding write_preference create_preference
    write_preference-Succeeds p w e = Succeeds-check _ _ tt w e (Succeeds-created _ w)

    employer_or_new :
        (p : EmployerPayload) (found : Option ℕ) (w : World)
        → Succeeds (elim found [ some id ↦ pure id | none ↦ create_employer p ]) w
    unfolding create_employer
    employer_or_new p none w = Succeeds-created _ w
    employer_or_new p (some id) w = Succeeds-pure id w

    write_employer-Succeeds :
        (p : EmployerPayload) (w : World)
        → validate_employer p ≡ ok tt
        → Succeeds (write_employer p) w
    unfolding write_employer
    write_employer-Succeeds p w e = Succeeds-check _ _ tt w e (
        Succeeds-bind _ _ w (Succeeds-query _ w)
          λ rows w1. employer_or_new p (find_employer p.name rows) w1)

    write_education-Succeeds :
        (p : EducationPayload) (w : World)
        → validate_education p ≡ ok tt
        → Succeeds (write_education p) w
    unfolding write_education create_education validate_education
    write_education-Succeeds p w e =
        let (_, _, e1) = first-ok (require (codes "institution") p.institution) _ _ e in
        let (d, h, e2) =
          first-ok (date_field (codes "started_on") (optional_date p.started_on)) _ _ e1 in
        let (d', h', _) =
          first-ok (date_field (codes "ended_on") (optional_date p.ended_on)) _ _ e2 in
        Succeeds-check _ _ tt w e
          (Succeeds-lift _ _ d w h (Succeeds-lift _ _ d' w h' (Succeeds-created _ w)))

    write_credential-Succeeds :
        (p : CredentialPayload) (w : World)
        → validate_credential p ≡ ok tt
        → Succeeds (write_credential p) w
    unfolding write_credential create_credential validate_credential
    write_credential-Succeeds p w e =
        let (_, _, e1) = first-ok (require (codes "name") p.name) _ _ e in
        let (d, h, e2) =
          first-ok (date_field (codes "issued_on") (optional_date p.issued_on)) _ _ e1 in
        let (d', h', _) =
          first-ok (date_field (codes "expires_on") (optional_date p.expires_on)) _ _ e2 in
        Succeeds-check _ _ tt w e
          (Succeeds-lift _ _ d w h (Succeeds-lift _ _ d' w h' (Succeeds-created _ w)))

    module _ ⦃j : Json⦄ where
      -- The check passes only on a payload that is read and is usable.
      decode_then-ok :
          {A : Type 0} (kind raw : Str) (found : Option A) (check : A → Checked)
          → decode_then kind raw found check ≡ ok tt
          → (p : A) × (found ≡ some p) × (check p ≡ ok tt)
      decode_then-ok kind raw none check e = cc
      decode_then-ok kind raw (some p) check e = elim (Bool-cases (j.only_known kind raw)) [
        | inl y ↦ (p, refl, rw y at e)
        | inr n ↦ let q : err bad_payload ≡ ok tt = rw n at e in cc
      ]

      module _ (d : EntityDraft) (raw : Str) (kind : Str) (h : d.payload ≡ some raw) where
        read_then :
            {A : Type 0} (read : Str → Option A) (check : A → Checked) (write : A → Action ℕ)
            (w : World)
            → ((p : A) (w' : World) → check p ≡ ok tt → Succeeds (write p) w')
            → decode_then kind raw (read raw) check ≡ ok tt
            → Succeeds (lift (payload_of read d.payload) >>= write) w
        read_then read check write w k e =
            let (p, f, c) = decode_then-ok kind raw (read raw) check e in
            Succeeds-lift _ write p w (payload_of-some read d.payload raw p h f) (k p w c)

        resolve_kind-Succeeds :
            (k : Kind) (resolved : Resolved) (w : World)
            → stands_alone k ≡ true
            → validate_kind k kind raw ≡ ok tt
            → Succeeds (resolve_kind k d resolved) w
        unfolding resolve_kind validate_kind
        resolve_kind-Succeeds kind_employer r w s e =
            read_then _ validate_employer _ w write_employer-Succeeds e
        resolve_kind-Succeeds kind_position r w s e = cc
        resolve_kind-Succeeds kind_contribution r w s e = cc
        resolve_kind-Succeeds kind_skill r w s e = cc
        resolve_kind-Succeeds kind_preference r w s e =
            read_then _ validate_preference _ w write_preference-Succeeds e
        resolve_kind-Succeeds kind_education r w s e =
            read_then _ validate_education _ w write_education-Succeeds e
        resolve_kind-Succeeds kind_credential r w s e =
            read_then _ validate_credential _ w write_credential-Succeeds e
        resolve_kind-Succeeds kind_other r w s e = cc

      -- Whenever no statement fails, an employer, preference, education or credential whose payload
      -- passes the edit-time check is resolved, and the row of the id that the resolver gives is in
      -- the table of the draft's kind, if a listing of employers shows only rows that are there.
      pub validate_payload_suffices :
          (listing : IsListing o) (d : EntityDraft) (raw : Str) (resolved : Resolved) (w : World)
          → d.payload ≡ some raw
          → stands_alone (kind_named d.kind) ≡ true
          → validate_payload d.kind raw ≡ ok tt
          → (row : ℕ) × (w' : World) × (run (resolve_one d resolved) w ≡ (ok row, w'))
            × (has_row (kind_named d.kind) row w'.store ≡ true)
      unfolding Succeeds resolve_one validate_payload
      validate_payload_suffices listing d raw resolved w h s e =
          let (row, w', ran) =
            resolve_kind-Succeeds d raw d.kind h (kind_named d.kind) resolved w s e in
          let wrote =
            Yields-ok _ (resolve_one d resolved) w (resolve_one-Wrote listing d resolved w) row w'
              ran in
          (row, w', ran, wrote.1)
