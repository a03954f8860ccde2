-- ===== src/RateLimit/Refinement.antt =====
-- The limiter against a log of the clients seen since the window began
-- (internal/api/middleware/ratelimit.go: RateLimit, allow, Handler).
use mathlib.Core.Path.{subst}
use role_model.Prelude.{
  ℕ, ◌+◌, ◌-◌, ◌*◌, ◌≤◌, ◌<◌, All, ◌≡◌, refl, ◌∙◌, true, false, List, [], ◌∷◌, if◌then◌else◌,
  Bool-cases, inl, inr, arith, ltb, length,
}
use role_model.GoText.{Str, str_eq}
use role_model.GoText.Equality.{str_eq_refl}
use role_model.GoText.Maps.{length-assign}
use role_model.RateLimit.{
  RateLimit, new_rate_limit, count_of, roll, count_request, decide, allow, Response, served,
  too_many_requests, answer, client_key, handler,
}
use role_model.RateLimit.Peers.{Peer, address, host_of, IsPeer, client_key-address}
use role_model.RateLimit.Window.{count_of-count_request}

-- The clients of the requests of a window, in any order, and the end of the window.
pub record Log : Type 0 where
  pub clients : List Str
  pub until : ℕ

unfoldable pub times_in : Str → List Str → ℕ
times_in key [] = 0
times_in key (k ∷ clients) = (if str_eq k key then 1 else 0) + times_in key clients

-- A log that is past its end is emptied.
unfoldable pub current : ℕ → ℕ → Log → Log
current window now log =
    if ltb log.until now then record { clients = []; until = now + window } else log

-- The answer to a client that has made `seen` requests of the window before, of which `left`
-- nanoseconds are left: it is served below the limit, and told otherwise the least number of whole
-- seconds that is more than what is left.
unfoldable pub Answers : ℕ → ℕ → ℕ → Response → Type 0
Answers limit seen left served = seen < limit
Answers limit seen left (too_many_requests seconds) =
    (limit ≤ seen) × (left < seconds * 1000000000) × (seconds * 1000000000 ≤ left + 1000000000)

-- Responses to requests, each an instant and a peer, that follow the log of the hosts.
unfoldable pub FollowsLog : ℕ → ℕ → Log → List (ℕ × Peer) → List Response → Type 0
unfolding times_in current
FollowsLog limit window log [] [] = Unit {0}
FollowsLog limit window log [] (r ∷ rs) = ⊥
FollowsLog limit window log (q ∷ qs) [] = ⊥
FollowsLog limit window log ((now, peer) ∷ qs) (r ∷ rs) =
    let log' = current window now log in
    Answers limit (times_in (host_of peer) log'.clients) (log'.until - now) r
    × FollowsLog limit window (record log' { clients = host_of peer ∷ log'.clients }) qs rs

-- The limiter counts what the log lists, in no more entries than the log has.
pub record Counts (rl : RateLimit) (log : Log) : Type 0 where
  pub ends : rl.reset_at ≡ log.until
  pub counted : (key : Str) → count_of key rl.counts ≡ times_in key log.clients
  pub bounded : length rl.counts ≤ length log.clients

-- The responses of the limiter to requests in sequence.
unfoldable pub responses : RateLimit → List (ℕ × Peer) → List Response
unfolding handler address
responses rl [] = []
responses rl ((now, peer) ∷ requests) =
    let (rl', response) = handler now (address peer) rl in response ∷ responses rl' requests

roll-Counts :
    (now : ℕ) (rl : RateLimit) (log : Log)
    → Counts rl log
    → Counts (roll now rl) (current rl.window now log)
unfolding roll current
roll-Counts now rl log c = elim (Bool-cases (ltb log.until now)) [
  | inl e ↦
      let e' : ltb rl.reset_at now ≡ true = ground arith in
      rw (e', e)
        (record {
          ends = refl;
          counted = λ key. unfold count_of times_in in refl;
          bounded = omega arith;
        })
  | inr e ↦
      let e' : ltb rl.reset_at now ≡ false = ground arith in
      rw (e', e) (record { ends = c.ends; counted = c.counted; bounded = c.bounded })
]

count_request-Counts :
    (key : Str) (rl : RateLimit) (log : Log)
    → Counts rl log
    → Counts (count_request key rl) (record log { clients = key ∷ log.clients })
count_request-Counts key rl log c = record {
  ends = unfold count_request in c.ends;
  counted = λ k. elim (Bool-cases (str_eq key k)) [
    | inl e ↦ unfold times_in in rw (count_of-count_request key k rl, e, c.counted k) (omega arith)
    | inr e ↦ unfold times_in in rw (count_of-count_request key k rl, e, c.counted k) (omega arith)
  ];
  bounded =
      unfold count_request in
      omega (arith, length-assign key (count_of key rl.counts + 1) rl.counts, c.bounded);
}

decide_lem :
    (now : ℕ) (key : Str) (rl : RateLimit)
    → decide now key rl
      ≡ (if ltb rl.limit (count_of key rl.counts) then (rl.reset_at - now, false) else (0, true))
unfolding decide
decide_lem now key rl = refl

answer-Answers :
    (cap limit seen n left left' : ℕ)
    → cap ≡ limit
    → n ≡ seen + 1
    → left ≡ left'
    → Answers limit seen left' (answer (if ltb cap n then (left, false) else (0, true)))
unfolding Answers
answer-Answers cap limit seen n left left' s e f = elim (Bool-cases (ltb cap n)) [
  | inl h ↦ rw h ((ground (arith, h)), (omega (arith, f)), (omega (arith, f)))
  | inr h ↦ rw h (ground (arith, h))
]

decide-log :
    (limit now : ℕ) (key : Str) (rl : RateLimit) (log : Log)
    → rl.limit ≡ limit
    → Counts rl log
    → Answers limit
        (times_in key log.clients)
        (log.until - now)
        (answer (decide now key (count_request key rl)))
unfolding count_request
decide-log limit now key rl log same c = rw (decide_lem now key (count_request key rl)) (
    answer-Answers rl.limit limit (times_in key log.clients)
      (count_of key (count_request key rl).counts) (rl.reset_at - now) (log.until - now) same
      (rw (count_of-count_request key key rl, str_eq_refl key, c.counted key) refl)
      (rw c.ends refl))

roll-limit :
    (now : ℕ) (rl : RateLimit)
    → ((roll now rl).limit ≡ rl.limit) × ((roll now rl).window ≡ rl.window)
unfolding roll
roll-limit now rl = ground arith

abbrev Agrees : ℕ → ℕ → ℕ → Str → Str → RateLimit → Log → Type 0
Agrees limit window now addr host rl log =
    let log' = current window now log in
    Answers limit (times_in host log'.clients) (log'.until - now) (handler now addr rl).1
    × Counts (handler now addr rl).0 (record log' { clients = host ∷ log'.clients })

-- One request: an answer of the log, and the counts still follow the log.
handler-step :
    (now : ℕ) (addr : Str) (rl : RateLimit) (log : Log)
    → Counts rl log
    → Agrees rl.limit rl.window now addr (client_key addr) rl log
unfolding handler allow
handler-step now addr rl log c =
    let rolled = roll-Counts now rl log c in
    (
      decide-log rl.limit now (client_key addr) (roll now rl) (current rl.window now log)
          (roll-limit now rl).0 rolled,
      count_request-Counts (client_key addr) (roll now rl) (current rl.window now log) rolled,
    )

handler-settings :
    (now : ℕ) (addr : Str) (rl : RateLimit)
    → ((handler now addr rl).0.limit ≡ rl.limit) × ((handler now addr rl).0.window ≡ rl.window)
unfolding handler allow count_request
handler-settings now addr rl = roll-limit now rl

handler-step_at :
    (limit window now : ℕ) (addr host : Str) (rl : RateLimit) (log : Log)
    → client_key addr ≡ host
    → rl.limit ≡ limit
    → rl.window ≡ window
    → Counts rl log
    → Agrees limit window now addr host rl log
handler-step_at limit window now addr host rl log k e f c =
    subst (λ h. Agrees limit window now addr h rl log) k
      (subst (λ l. Agrees l window now addr (client_key addr) rl log) e
        (subst (λ w. Agrees rl.limit w now addr (client_key addr) rl log) f
          (handler-step now addr rl log c)))

responses-log :
    (limit window : ℕ) (rl : RateLimit) (log : Log) (requests : List (ℕ × Peer))
    → All (λ r. IsPeer r.1) requests
    → rl.limit ≡ limit
    → rl.window ≡ window
    → Counts rl log
    → FollowsLog limit window log requests (responses rl requests)
unfolding responses FollowsLog
responses-log limit window rl log [] ps e f c = tt
responses-log limit window rl log ((now, peer) ∷ requests) (p, ps) e f c =
    let addr = address peer in
    let (answered, after) =
      handler-step_at limit window now addr (host_of peer) rl log (client_key-address peer p) e f
        c in
    let kept = handler-settings now addr rl in
    (
      answered,
      responses-log limit window (handler now addr rl).0 _ requests ps (kept.0 ∙ e) (kept.1 ∙ f)
          after,
    )

-- A limiter answers any sequence of requests, each at any instant and from any well-formed remote
-- address, as the log of the hosts of the current window says, whatever their ports: a request is
-- served if its host has made fewer than `limit` requests since the window began, and is otherwise
-- refused with the least number of whole seconds that is more than what is left of the window.
pub responses-refine :
    (limit window now : ℕ) (requests : List (ℕ × Peer))
    → All (λ r. IsPeer r.1) requests
    → FollowsLog limit window
        (record { clients = []; until = now + window })
        requests
        (responses (new_rate_limit limit window now) requests)
unfolding new_rate_limit count_of times_in
responses-refine limit window now requests ps =
    responses-log limit window (new_rate_limit limit window now)
      (record { clients = []; until = now + window }) requests ps refl refl
      (record { ends = refl; counted = λ key. refl; bounded = omega arith })
