-- ===== src/RateLimit.antt =====
-- The fixed-window rate limiter (internal/api/middleware/ratelimit.go). An instant and a duration
-- are numbers of nanoseconds; the limit, which the router fixes, is not negative. The mutex makes
-- each call of `allow` one step, so any interleaving of requests is a sequence of these steps.
pub mod Window
pub mod Peers
pub mod Refinement
mod Witnesses
use role_model.Prelude.{
  ℕ, ◌+◌, ◌-◌, ◌/◌, Bool, true, false, ◌||◌, List, [], ◌∷◌, Option, none, some, ltb, ◌==◌,
  if◌then◌else◌, any,
}
use role_model.GoText.{Str}
use role_model.GoText.Splitting.{split_at_first, split_at_last}
use role_model.GoText.Maps.{lookup, assign}

pub record RateLimit : Type 0 where
  pub limit : ℕ
  pub window : ℕ
  pub counts : List (Str × ℕ)
  pub reset_at : ℕ

unfoldable pub new_rate_limit : ℕ → ℕ → ℕ → RateLimit
new_rate_limit limit window now = record {
  limit = limit;
  window = window;
  counts = [];
  reset_at = now + window;
}

-- The zero value stands for a missing entry.
abbrev pub or_zero : Option ℕ → ℕ
or_zero none = 0
or_zero (some n) = n

unfoldable pub count_of : Str → List (Str × ℕ) → ℕ
unfolding lookup
count_of key counts = or_zero (lookup key counts)

-- The sweep, when the window has passed.
unfoldable pub roll : ℕ → RateLimit → RateLimit
roll now rl =
    if ltb rl.reset_at now then record rl { counts = []; reset_at = now + rl.window } else rl

-- rl.counts[key]++
unfoldable pub count_request : Str → RateLimit → RateLimit
unfolding count_of assign
count_request key rl = record rl { counts = assign key (count_of key rl.counts + 1) rl.counts }

-- What is left of the window, and whether the request is permitted.
unfoldable pub decide : ℕ → Str → RateLimit → ℕ × Bool
unfolding count_of
decide now key rl =
    if ltb rl.limit (count_of key rl.counts) then (rl.reset_at - now, false) else (0, true)

unfoldable pub allow : ℕ → Str → RateLimit → RateLimit × (ℕ × Bool)
unfolding roll count_request decide
allow now key rl =
    let counted = count_request key (roll now rl) in (counted, decide now key counted)

pub data Response : Type 0 where
  served : Response
  too_many_requests : ℕ → Response

-- int(retryAfter.Seconds()) + 1, the value of Retry-After.
abbrev pub answer : ℕ × Bool → Response
answer (retry_after, true) = served
answer (retry_after, false) = too_many_requests (retry_after / 1000000000 + 1)

abbrev pub has_rune : ℕ → Str → Bool
has_rune c s = any (λ d. d == c) s

-- The host of net.SplitHostPort, `none` where that function returns an error: with a bracket the
-- host ends at the first closing one and a colon with the port must follow.
abbrev pub port_follows : Str → Str → Option Str
port_follows host [] = none
port_follows host (c ∷ port) =
    if c == b':'
    then (if has_rune b':' port || has_rune b'[' host || has_rune b'[' port || has_rune b']' port
        then none
        else some host)
    else none

abbrev pub bracketed : Option (Str × Str) → Option Str
bracketed none = none
bracketed (some (host, after)) = port_follows host after

abbrev pub unbracketed : Option (Str × Str) → Option Str
unbracketed none = none
unbracketed (some (host, port)) =
    if has_rune b':' host
      || has_rune b'[' host
      || has_rune b']' host
      || has_rune b'[' port
      || has_rune b']' port
    then none
    else some host

unfoldable pub split_host_port : Str → Option Str
unfolding split_at_first split_at_last
split_host_port [] = none
split_host_port (c ∷ s) =
    if c == b'['
    then bracketed (split_at_first b']' s)
    else unbracketed (split_at_last b':' (c ∷ s))

unfoldable pub client_key : Str → Str
unfolding split_host_port
client_key remote_addr = elim (split_host_port remote_addr) [
  | some host ↦ host
  | none ↦ remote_addr
]

-- A request is its instant and its remote address; the headers are not read.
unfoldable pub handler : ℕ → Str → RateLimit → RateLimit × Response
unfolding allow client_key
handler now remote_addr rl =
    let (rl', verdict) = allow now (client_key remote_addr) rl in (rl', answer verdict)
