-- ===== src/Net.antt =====
-- The sockets of src/net.c. What the system calls return is given; what the code does to the
-- descriptors and to the caller's error buffer is modelled.
pub mod Server
use mini_pubsub_broker.Base.{
  ℕ, zero, suc, ◌+◌, ◌*◌, ◌/◌, ◌%◌, Bool, true, false, not, ◌&&◌, Option, none, some, List, [], ◌∷◌,
  Bytes, ◌==◌, if◌then◌else◌, take, ℤ, pos, negsuc,
}
use mini_pubsub_broker.Number.Print.{print}
use Prim.Native.Nat.{bit_or}
use mini_pubsub_broker.Client.{Run, ok, out_of_fuel, ◌>>=◌}

-- `NET_OK` and `NET_ERR`.
pub data NetStatus : Type 0 where
  net_ok net_err : NetStatus

-- The messages of `net_set_error`, by the call that failed.
pub data NetError : Type 0 where
  at_bind at_listen at_setsockopt at_getaddrinfo unable_to_bind at_getfl at_setfl at_accept :
      NetError

-- The buffer behind `char *err`: `none` is NULL, `some none` an empty buffer. `opened` are the
-- descriptors that the process holds.
pub record Net : Type 0 where
  pub err : Option (Option NetError)
  pub opened : List ℕ

-- `AF_INET` and `AF_INET6`.
pub data Family : Type 0 where
  af_inet af_inet6 : Family

-- The results of the calls of a server's start, by their arguments.
pub record Sockets : Type 1 where
  pub Address : Type 0
  pub getaddrinfo : Bytes → Bytes → Family → Option (List Address)
  -- A new descriptor, or `none` at -1.
  pub socket : Address → Option ℕ
  pub set_v6only : ℕ → Bool
  pub set_reuse : ℕ → Bool
  pub bind : ℕ → Address → Bool
  pub listen : ℕ → ℕ → Bool

abbrev pub set_message : NetError → Option (Option NetError) → Option (Option NetError)
set_message e none = none
set_message e (some _) = some (some e)

unfoldable pub net_set_error : NetError → Net → Net
net_set_error e n = record n { err = set_message e n.err }

abbrev pub without : List ℕ → ℕ → List ℕ
without [] s = []
without (t ∷ ts) s = if t == s then without ts s else t ∷ without ts s

-- `close(s)`.
abbrev pub close : ℕ → Net → Net
close s n = record n { opened = without n.opened s }

-- `snprintf(_port, 6, "%d", port)` keeps five characters.
unfoldable pub port_text : ℤ → Bytes
port_text (pos n) = take 5 (print n)
port_text (negsuc n) = take 5 (b'-' ∷ print (suc n))

module _ (sys : Sockets) where
  unfoldable pub net_listen : ℕ → sys.Address → ℕ → Net → NetStatus × Net
  unfolding net_set_error
  net_listen s sa backlog n =
      if not (sys.bind s sa)
      then (net_err, close s (net_set_error at_bind n))
      else if not (sys.listen s backlog)
      then (net_err, close s (net_set_error at_listen n))
      else (net_ok, n)

  unfoldable pub anet_v6_only : ℕ → Net → NetStatus × Net
  unfolding net_set_error
  anet_v6_only s n =
      if sys.set_v6only s then (net_ok, n) else (net_err, close s (net_set_error at_setsockopt n))

  -- The socket stays open.
  unfoldable pub net_set_reuse_addr : ℕ → Net → NetStatus × Net
  unfolding net_set_error
  net_set_reuse_addr s n =
      if sys.set_reuse s then (net_ok, n) else (net_err, net_set_error at_setsockopt n)

  abbrev pub v6_step : Family → ℕ → Net → NetStatus × Net
  v6_step af_inet s n = (net_ok, n)
  v6_step af_inet6 s n = anet_v6_only s n

  -- `goto error` where a step fails, and the next step else.
  abbrev pub or_error : NetStatus × Net → (Net → Option ℕ × Net) → Option ℕ × Net
  or_error (net_err, n) next = (none, n)
  or_error (net_ok, n) next = next n

  -- The body of the loop for an address with a socket.
  unfoldable pub serve : Family → ℕ → ℕ → sys.Address → Net → Option ℕ × Net
  unfolding net_listen anet_v6_only net_set_reuse_addr
  serve af backlog s sa n = or_error (v6_step af s (record n { opened = s ∷ n.opened })) (λ n1.
      or_error (net_set_reuse_addr s n1)
        (λ n2. or_error (net_listen s sa backlog n2) (λ n3. (some s, n3))))

  unfoldable pub serve_socket :
      (Net → Option ℕ × Net) → Family → ℕ → sys.Address → Option ℕ → Net → Option ℕ × Net
  unfolding serve
  serve_socket next af backlog sa none n = next n
  serve_socket next af backlog sa (some s) n = serve af backlog s sa n

  -- The loop over the addresses, and what follows it without a socket.
  unfoldable pub serve_loop : Family → ℕ → List sys.Address → Net → Option ℕ × Net
  unfolding serve_socket net_set_error
  serve_loop af backlog [] n = (none, net_set_error unable_to_bind n)
  serve_loop af backlog (sa ∷ sas) n =
      serve_socket (serve_loop af backlog sas) af backlog sa (sys.socket sa) n

  unfoldable pub serve_addresses : Family → ℕ → Option (List sys.Address) → Net → Option ℕ × Net
  unfolding serve_loop net_set_error
  serve_addresses af backlog none n = (none, net_set_error at_getaddrinfo n)
  serve_addresses af backlog (some sas) n = serve_loop af backlog sas n

  -- `_net_tcp_server`. The descriptor, or `none` at NET_ERR.
  unfoldable pub net_tcp_server_af : Bytes → ℤ → Family → ℕ → Net → Option ℕ × Net
  unfolding serve_addresses port_text
  net_tcp_server_af bindaddr port af backlog n =
      serve_addresses af backlog (sys.getaddrinfo bindaddr (port_text port) af) n

  unfoldable pub net_tcp_server : Bytes → ℤ → ℕ → Net → Option ℕ × Net
  unfolding net_tcp_server_af
  net_tcp_server bindaddr port backlog n = net_tcp_server_af bindaddr port af_inet backlog n

-- `O_NONBLOCK`.
abbrev pub o_nonblock : ℕ
o_nonblock = 2048

unfoldable pub set_flags : (ℕ → Bool) → Option ℕ → Net → NetStatus × Net
unfolding net_set_error
set_flags setfl none n = (net_err, net_set_error at_getfl n)
set_flags setfl (some flags) n =
    if setfl (bit_or flags o_nonblock) then (net_ok, n) else (net_err, net_set_error at_setfl n)

-- Over the flags that `fcntl(F_GETFL)` returns and the answer of `fcntl(F_SETFL)` to new ones.
unfoldable pub net_tcp_set_nonblock : Option ℕ → (ℕ → Bool) → Net → NetStatus × Net
unfolding set_flags
net_tcp_set_nonblock flags setfl n = set_flags setfl flags n

-- What a call of `accept` yields: a descriptor with the peer's address, -1 with `EINTR`, or -1
-- with another error.
pub data Accepted (Peer : Type 0) : Type 0 where
  accepted : ℕ → Peer → Accepted Peer
  interrupted refused : Accepted Peer

-- The loop, over the results of its calls of `accept`.
unfoldable pub net_generic_accept :
    {Peer : Type 0} → List (Accepted Peer) → Net → Run (Option (ℕ × Peer) × Net)
unfolding net_set_error
net_generic_accept [] n = out_of_fuel
net_generic_accept (accepted fd peer ∷ rs) n =
    ok (some (fd, peer), record n { opened = fd ∷ n.opened })
net_generic_accept (interrupted ∷ rs) n = net_generic_accept rs n
net_generic_accept (refused ∷ rs) n = ok (none, net_set_error at_accept n)

-- A peer's address: its family, its host and its port in network order.
pub record Peer : Type 0 where
  pub family : Family
  pub host : Bytes
  pub port : ℕ

abbrev pub ntohs : ℕ → ℕ
ntohs p = p % 256 * 256 + p / 256

-- The descriptor with the text and the port of the peer; `ntop` is `inet_ntop`.
unfoldable pub peer_of :
    (Family → Bytes → Bytes) → Option (ℕ × Peer) × Net → Option (ℕ × Bytes × ℕ) × Net
peer_of ntop (none, n) = (none, n)
peer_of ntop (some (fd, p), n) = (some (fd, ntop p.family p.host, ntohs p.port), n)

unfoldable pub net_tcp_accept :
    (Family → Bytes → Bytes) → List (Accepted Peer) → Net → Run (Option (ℕ × Bytes × ℕ) × Net)
unfolding net_generic_accept peer_of
net_tcp_accept ntop rs n = net_generic_accept rs n >>= λ r. ok (peer_of ntop r)

-- `nodelay` answers `setsockopt(TCP_NODELAY)` with a value.
unfoldable pub net_set_tcp_no_delay : (ℕ → Bool) → ℕ → Net → NetStatus × Net
unfolding net_set_error
net_set_tcp_no_delay nodelay val n =
    if nodelay val then (net_ok, n) else (net_err, net_set_error at_setsockopt n)

unfoldable pub net_enable_tcp_no_delay : (ℕ → Bool) → Net → NetStatus × Net
unfolding net_set_tcp_no_delay
net_enable_tcp_no_delay nodelay n = net_set_tcp_no_delay nodelay 1 n

unfoldable pub net_disable_tcp_no_delay : (ℕ → Bool) → Net → NetStatus × Net
unfolding net_set_tcp_no_delay
net_disable_tcp_no_delay nodelay n = net_set_tcp_no_delay nodelay 0 n
