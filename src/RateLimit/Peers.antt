-- ===== src/RateLimit/Peers.antt =====
-- The remote addresses of a server and the host that each counts for
-- (internal/api/middleware/ratelimit.go: clientKey).
use role_model.Prelude.{
  ℕ, ◌≡◌, refl, ◌∙◌, ◌≢◌, true, false, ◌==◌, [], ◌∷◌, ◌++◌, none, some, All, arith,
}
use role_model.GoText.{Str}
use role_model.GoText.Splitting.{split_at_first, split_at_last}
use role_model.RateLimit.{has_rune, unbracketed, split_host_port, client_key}

-- A peer with a host and a port, one whose host is written in brackets, and one without a port.
pub data Peer : Type 0 where
  named_peer bracketed_peer : Str → Str → Peer
  bare_peer : Str → Peer

-- How net/http writes the peer in RemoteAddr.
unfoldable pub address : Peer → Str
address (named_peer host port) = host ++ b':' ∷ port
address (bracketed_peer host port) = b'[' ∷ (host ++ b']' ∷ b':' ∷ port)
address (bare_peer host) = host

unfoldable pub host_of : Peer → Str
host_of (named_peer host port) = host
host_of (bracketed_peer host port) = host
host_of (bare_peer host) = host

abbrev pub Without : ℕ → Str → Type 0
Without c s = All (λ d. d ≢ c) s

abbrev pub NoBrackets : Str → Type 0
NoBrackets s = Without b'[' s × Without b']' s

-- A port holds no colon and no bracket, a host no bracket, and a host that stands alone no colon.
abbrev pub IsPeer : Peer → Type 0
IsPeer (named_peer host port) =
    (Without b':' host × NoBrackets host) × (Without b':' port × NoBrackets port)
IsPeer (bracketed_peer host port) = NoBrackets host × (Without b':' port × NoBrackets port)
IsPeer (bare_peer host) = Without b':' host × NoBrackets host

has_rune-Without : (c : ℕ) (s : Str) → Without c s → has_rune c s ≡ false
has_rune-Without c [] h = refl
has_rune-Without c (d ∷ s) h =
    let e : (d == c) ≡ false = ground (arith, h.0) in rw (e, has_rune-Without c s h.1) refl

split_at_last-none : (sep : ℕ) (s : Str) → Without sep s → split_at_last sep s ≡ none
unfolding split_at_last
split_at_last-none sep [] h = refl
split_at_last-none sep (c ∷ s) h =
    let e : (c == sep) ≡ false = ground (arith, h.0) in rw (split_at_last-none sep s h.1, e) refl

split_at_last-append :
    (sep : ℕ) (s after : Str)
    → Without sep after
    → split_at_last sep (s ++ sep ∷ after) ≡ some (s, after)
unfolding split_at_last
split_at_last-append sep [] after h =
    let e : (sep == sep) ≡ true = ground arith in rw (split_at_last-none sep after h, e) refl
split_at_last-append sep (c ∷ s) after h = rw (split_at_last-append sep s after h) refl

split_at_first-append :
    (sep : ℕ) (s after : Str)
    → Without sep s
    → split_at_first sep (s ++ sep ∷ after) ≡ some (s, after)
unfolding split_at_first
split_at_first-append sep [] after h = let e : (sep == sep) ≡ true = ground arith in rw e refl
split_at_first-append sep (c ∷ s) after h =
    let e : (c == sep) ≡ false = ground (arith, h.0) in
    rw (e, split_at_first-append sep s after h.1) refl

client_key_host : (addr host : Str) → split_host_port addr ≡ some host → client_key addr ≡ host
unfolding client_key
client_key_host addr host h = rw (h, client_key) refl

client_key_whole : (addr : Str) → split_host_port addr ≡ none → client_key addr ≡ addr
unfolding client_key
client_key_whole addr h = rw (h, client_key) refl

-- An address whose first rune is no bracket.
split_host_port-unbracketed :
    (addr : Str) → Without b'[' addr → split_host_port addr ≡ unbracketed (split_at_last b':' addr)
unfolding split_host_port split_at_last
split_host_port-unbracketed [] h = refl
split_host_port-unbracketed (c ∷ s) h =
    let e : (c == b'[') ≡ false = ground (arith, h.0) in rw e refl

Without-append : (c : ℕ) (a b : Str) → Without c a → Without c b → Without c (a ++ b)
Without-append c [] b h k = k
Without-append c (d ∷ a) b h k = (h.0, Without-append c a b h.1 k)

-- Each peer counts for its host, whatever its port.
pub client_key-address : (p : Peer) → IsPeer p → client_key (address p) ≡ host_of p
unfolding address host_of
client_key-address (named_peer host port) ((colon, (left, right)), (colon', (left', right'))) =
    client_key_host (host ++ b':' ∷ port) host (
      split_host_port-unbracketed (host ++ b':' ∷ port)
        (Without-append b'[' host (b':' ∷ port) left ((omega arith), left'))
      ∙ rw
          (
            split_at_last-append b':' host port colon',
            has_rune-Without b':' host colon,
            has_rune-Without b'[' host left,
            has_rune-Without b']' host right,
            has_rune-Without b'[' port left',
            has_rune-Without b']' port right',
          )
          refl)
client_key-address (bracketed_peer host port) ((left, right), (colon', (left', right'))) =
    client_key_host (b'[' ∷ (host ++ b']' ∷ b':' ∷ port)) host (
      unfold split_host_port in
      rw
        (
          split_at_first-append b']' host (b':' ∷ port) right,
          has_rune-Without b':' port colon',
          has_rune-Without b'[' host left,
          has_rune-Without b'[' port left',
          has_rune-Without b']' port right',
        )
        refl)
client_key-address (bare_peer host) (colon, (left, right)) =
    client_key_whole host
      (split_host_port-unbracketed host left ∙ rw (split_at_last-none b':' host colon) refl)
