-- ===== src/RateLimit/Witnesses.antt =====
-- The rate limiter at a few requests (internal/api/middleware/ratelimit.go).
use role_model.Prelude.{ℕ, ◌*◌, ◌≤◌, ◌≡◌, refl, List, [], ◌∷◌, All, arith}
use role_model.GoText.{codes, str_eq}
use role_model.GoText.Splitting.{split_at_first, split_at_last}
use role_model.GoText.Maps.{lookup, assign}
use role_model.RateLimit.{
  RateLimit, new_rate_limit, count_of, roll, count_request, decide, allow, served,
  too_many_requests, split_host_port, client_key, handler,
}
use role_model.RateLimit.Window.{Request, granted, granted_burst}
use role_model.RateLimit.Refinement.{FollowsLog, responses, responses-refine}
use role_model.RateLimit.Peers.{Peer, named_peer, bracketed_peer, IsPeer, address}

-- Two requests in a window of two seconds.
abbrev limiter : RateLimit
limiter = record { limit = 2; window = 2000000000; counts = []; reset_at = 1000 }

-- The window of `limiter` ends between the second and the third request.
abbrev busy : List Request
busy =
    (900, codes "10.0.0.1")
    ∷ (950, codes "10.0.0.1")
    ∷ (1001, codes "10.0.0.1")
    ∷ (1002, codes "10.0.0.1")
    ∷ (1003, codes "10.0.0.1")
    ∷ []

-- The bound is reached.
four_granted : granted (codes "10.0.0.1") limiter busy ≡ 4
unfolding str_eq lookup assign count_of roll count_request decide allow granted
four_granted = refl

granted_burst_example : granted (codes "10.0.0.1") limiter busy ≤ 2 * 2
granted_burst_example = granted_burst (codes "10.0.0.1") limiter 900 busy (omega arith)

abbrev visits : List (ℕ × Peer)
visits =
    (1, named_peer (codes "10.0.0.1") (codes "80"))
    ∷ (2, named_peer (codes "10.0.0.1") (codes "81"))
    ∷ (3, named_peer (codes "10.0.0.1") (codes "82"))
    ∷ (4, bracketed_peer (codes "::1") (codes "80"))
    ∷ []

-- The port does not matter, another host has a count of its own.
port_ignored :
    responses (new_rate_limit 2 5000000000 0) visits
    ≡ served ∷ served ∷ too_many_requests 5 ∷ served ∷ []
unfolding str_eq lookup assign count_of roll count_request decide allow split_at_last split_at_first
    split_host_port client_key handler new_rate_limit address responses
port_ignored = refl

visits-IsPeer : All (λ r. IsPeer r.1) visits
visits-IsPeer = ground arith

responses-refine_example :
    FollowsLog 2 5000000000
      (record { clients = []; until = 5000000000 })
      visits
      (responses (new_rate_limit 2 5000000000 0) visits)
responses-refine_example = responses-refine 2 5000000000 0 visits visits-IsPeer
