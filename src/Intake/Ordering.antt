-- ===== src/Intake/Ordering.antt =====
-- The order in which the pending drafts of a batch are resolved (internal/intake/resolve.go:
-- topoOrder). A uuid is a number. The maps are lists with one entry to a key; the iteration order
-- of `pending` does not show in the result, which is a map again.
pub mod Prefix
pub mod Rounds
pub mod Account
pub mod Result
pub mod Acyclic
use role_model.Prelude.{
  ℕ, zero, suc, Bool, true, false, not, ◌&&◌, List, [], ◌∷◌, ◌++◌, map, keep, any, all, Option,
  none, some, ◌==◌, if◌then◌else◌, length,
}
use role_model.GoText.{Str, codes, str_eq}

-- A row of entity_drafts. The payload is the text of one JSON document.
pub record EntityDraft : Type 0 where
  pub id : ℕ
  pub batch_id : ℕ
  pub kind : Str
  pub payload : Option Str
  pub status : Str
  pub depends_on : List ℕ
  pub resolved_id : Option ℕ
  pub flags : Option Str

abbrev pub has_id : List ℕ → ℕ → Bool
has_id ids id = any (λ i. i == id) ids

abbrev pub is_pending : EntityDraft → Bool
is_pending d = str_eq d.status (codes "pending")

-- pending[d.ID] = d
unfoldable pub put : EntityDraft → List EntityDraft → List EntityDraft
put d [] = d ∷ []
put d (e ∷ es) = if e.id == d.id then d ∷ es else e ∷ put d es

abbrev pub holds : List EntityDraft → ℕ → Bool
holds drafts id = any (λ d. d.id == id) drafts

-- delete(pending, id)
abbrev pub remove : ℕ → List EntityDraft → List EntityDraft
remove id drafts = keep (λ d. not (d.id == id)) drafts

unfoldable pub collect_pending : List EntityDraft → List EntityDraft → List EntityDraft
collect_pending [] pending = pending
collect_pending (d ∷ drafts) pending =
    collect_pending drafts (if is_pending d then put d pending else pending)

-- The variables of the loop.
pub record Progress : Type 0 where
  pub order : List EntityDraft
  pub satisfied : List ℕ
  pub pending : List EntityDraft
  pub progressed : Bool

abbrev pub is_ready : List ℕ → EntityDraft → Bool
is_ready satisfied d = all (has_id satisfied) d.depends_on

abbrev pub settle : EntityDraft → Progress → Progress
settle d st = record {
  order = st.order ++ d ∷ [];
  satisfied = d.id ∷ st.satisfied;
  pending = remove d.id st.pending;
  progressed = true;
}

-- The body of the inner loop.
unfoldable pub visit : EntityDraft → Progress → Progress
visit d st = if holds st.pending d.id && is_ready st.satisfied d then settle d st else st

unfoldable pub pass : List EntityDraft → Progress → Progress
pass [] st = st
pass (d ∷ drafts) st = pass drafts (visit d st)

-- The outer loop; `none` if the rounds given are too few.
unfoldable pub rounds : ℕ → List EntityDraft → Progress → Option Progress
rounds zero drafts st = none
rounds (suc n) drafts st =
    let st' = pass drafts (record st { progressed = false }) in
    let again = rounds n drafts st' in if st'.progressed then again else some st'

pub data StuckReason : Type 0 where
  missing : List ℕ → StuckReason
  cycle : List ℕ → StuckReason
  unreachable : StuckReason

-- The unmet dependencies that are themselves pending, and the others.
unfoldable pub in_cycle : List ℕ → List EntityDraft → List ℕ → List ℕ
in_cycle satisfied pending deps = keep (λ dep. not (has_id satisfied dep) && holds pending dep) deps

unfoldable pub unresolved : List ℕ → List EntityDraft → List ℕ → List ℕ
unresolved satisfied pending deps =
    keep (λ dep. not (has_id satisfied dep) && not (holds pending dep)) deps

abbrev pub reason_of : List ℕ → List ℕ → StuckReason
reason_of [] [] = unreachable
reason_of [] (c ∷ cs) = cycle (c ∷ cs)
reason_of (m ∷ ms) cs = missing (m ∷ ms)

unfoldable pub classify : Progress → EntityDraft → StuckReason
classify st d =
    reason_of (unresolved st.satisfied st.pending d.depends_on)
      (in_cycle st.satisfied st.pending d.depends_on)

pub record BatchOrder : Type 0 where
  pub order : List EntityDraft
  pub stuck : List (ℕ × StuckReason)

abbrev pub start : List EntityDraft → List ℕ → Progress
start drafts already_resolved = record {
  order = [];
  satisfied = already_resolved;
  pending = collect_pending drafts [];
  progressed = false;
}

-- A round that makes progress settles a pending draft, so one round more than there are drafts is
-- enough.
unfoldable pub final_state : List EntityDraft → List ℕ → Option Progress
final_state drafts already_resolved =
    rounds (suc (length drafts)) drafts (start drafts already_resolved)

unfoldable pub topo_order : List EntityDraft → List ℕ → Option BatchOrder
topo_order drafts already_resolved = elim (final_state drafts already_resolved) [
  | none ↦ none
  | some st ↦
      some (record { order = st.order; stuck = map (λ d. (d.id, classify st d)) st.pending })
]
