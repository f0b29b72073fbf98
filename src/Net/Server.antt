-- ===== src/Net/Server.antt =====
-- How a listening socket is made, and what an accept yields.
use mini_pubsub_broker.Base.{
  zero, suc, ℕ, ◌+◌, ◌*◌, ◌/◌, ◌%◌, ◌≡◌, ◌<◌, refl, ap, ◌∙◌, Bool, true, false, Option, none, some,
  List, [], ◌∷◌, ◌++◌, Bytes, arith, ==_refl, ◌==◌, ◌||◌, replicate, ℤ,
}
use mini_pubsub_broker.Client.{ok, ◌>>=◌}
use mini_pubsub_broker.Net.{
  Net, at_bind, at_listen, at_setsockopt, Sockets, Family, af_inet, set_message, without,
  net_listen, net_set_reuse_addr, net_set_error, serve, serve_socket, serve_loop, serve_addresses,
  net_tcp_server, port_text, Accepted, accepted, interrupted, Peer, peer_of, ntohs,
  net_generic_accept, net_tcp_accept,
}

abbrev is_open : ℕ → List ℕ → Bool
is_open s [] = false
is_open s (t ∷ ts) = t == s || is_open s ts

without-closed : (ts : List ℕ) (s : ℕ) → is_open s ts ≡ false → without ts s ≡ ts
without-closed [] s h = refl
without-closed (t ∷ ts) s h = ground (arith, without-closed ts s)

without_self : (ts : List ℕ) (s : ℕ) → is_open s ts ≡ false → without (s ∷ ts) s ≡ ts
without_self ts s h = rw (==_refl s) (without-closed ts s h)

-- The outcome for a socket by the answers of the three calls.
unfoldable pub served : (reuse bound listening : Bool) → ℕ → Net → Option ℕ × Net
served false bound listening s n =
    (none, record n { err = set_message at_setsockopt n.err; opened = s ∷ n.opened })
served true false listening s n = (none, record n { err = set_message at_bind n.err })
served true true false s n = (none, record n { err = set_message at_listen n.err })
served true true true s n = (some s, record n { opened = s ∷ n.opened })

module _ (sys : Sockets) where
  -- No address of the list gets a socket.
  abbrev pub NoSocket : List sys.Address → Type 0
  NoSocket [] = Unit {0}
  NoSocket (sa ∷ sas) = (sys.socket sa ≡ none) × NoSocket sas

  serve-served :
      (backlog s : ℕ) (sa : sys.Address) (n : Net)
      → is_open s n.opened ≡ false
      → serve sys af_inet backlog s sa n
        ≡ served (sys.set_reuse s) (sys.bind s sa) (sys.listen s backlog) s n
  unfolding serve served net_listen net_set_reuse_addr net_set_error
  serve-served backlog s sa n fresh = ground (arith, without_self n.opened s fresh)

  serve_loop-first :
      (backlog s : ℕ) (pre : List sys.Address) (sa : sys.Address) (post : List sys.Address)
      (n : Net)
      → NoSocket pre
      → sys.socket sa ≡ some s
      → serve_loop sys af_inet backlog (pre ++ (sa ∷ post)) n ≡ serve sys af_inet backlog s sa n
  unfolding serve_loop serve_socket
  serve_loop-first backlog s [] sa post n lacking e = rw e
  serve_loop-first backlog s (a ∷ pre) sa post n lacking e =
      rw lacking.0 (serve_loop-first backlog s pre sa post n lacking.1 e)

  -- The first address of the bind address that gets a socket, one that is not open yet, decides,
  -- and the addresses behind it are not tried. The socket is returned, open, when it may be reused, bound and listened on; it is closed where a
  -- bind or a listen fails, and stays open where the reuse of the address cannot be set.
  pub net_tcp_server-served :
      (bindaddr : Bytes) (port : ℤ) (backlog s : ℕ) (pre : List sys.Address) (sa : sys.Address)
      (post : List sys.Address) (n : Net)
      → sys.getaddrinfo bindaddr (port_text port) af_inet ≡ some (pre ++ (sa ∷ post))
      → NoSocket pre
      → sys.socket sa ≡ some s
      → is_open s n.opened ≡ false
      → net_tcp_server sys bindaddr port backlog n
        ≡ served (sys.set_reuse s) (sys.bind s sa) (sys.listen s backlog) s n
  unfolding net_tcp_server serve_addresses
  net_tcp_server-served bindaddr port backlog s pre sa post n e lacking es fresh =
      ap (λ sas. serve_addresses sys af_inet backlog sas n) e
      ∙ serve_loop-first backlog s pre sa post n lacking es
      ∙ serve-served backlog s sa n fresh

-- A port as it stands in a peer's address on a little-endian machine.
abbrev pub htons : ℕ → ℕ
htons q = q % 256 * 256 + q / 256

ntohs-htons : (q : ℕ) → q < 65536 → ntohs (htons q) ≡ q
ntohs-htons q h = omega arith

net_generic_accept-interrupted :
    {A : Type 0} (k : ℕ) (rs : List (Accepted A)) (n : Net)
    → net_generic_accept (replicate k interrupted ++ rs) n ≡ net_generic_accept rs n
unfolding net_generic_accept
net_generic_accept-interrupted zero rs n = refl
net_generic_accept-interrupted (suc k) rs n = net_generic_accept-interrupted k rs n

-- However often an accept is interrupted, the connection that comes then is returned, with the
-- text and the port, below 2^16, of its peer.
pub net_tcp_accept-accepted :
    (ntop : Family → Bytes → Bytes) (k fd : ℕ) (family : Family) (host : Bytes) (port : ℕ)
    (rs : List (Accepted Peer)) (n : Net)
    → port < 65536
    → net_tcp_accept ntop
        (replicate k interrupted
          ++ (accepted fd (record { family = family; host = host; port = htons port }) ∷ rs))
        n
      ≡ ok (some (fd, ntop family host, port), record n { opened = fd ∷ n.opened })
unfolding net_tcp_accept net_generic_accept peer_of
net_tcp_accept-accepted ntop k fd family host port rs n h =
    ap (λ r. r >>= λ x. ok (peer_of ntop x)) (net_generic_accept-interrupted k _ n)
    ∙ ap (λ (q : ℕ). ok (some (fd, ntop family host, q), record n { opened = fd ∷ n.opened }))
        (ntohs-htons port h)
