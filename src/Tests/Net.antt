-- ===== src/Tests/Net.antt =====
-- Sockets on a machine with two addresses, of which the first gets no socket.
use mini_pubsub_broker.Base.{
  ℕ, zero, suc, ◌+◌, ◌≡◌, refl, true, false, Option, none, some, [], ◌∷◌, Bytes, pos, codes,
}
use mini_pubsub_broker.Net.{Net, Sockets, Family, net_tcp_server}
use mini_pubsub_broker.Net.Server.{served, net_tcp_server-served}

abbrev socket_of : ℕ → Option ℕ
socket_of zero = none
socket_of (suc a) = some (a + 3)

-- The addresses are 0 and 1, and the socket of 1 is 3. It is bound and then not listened on.
abbrev sockets : Sockets
sockets = record {
  Address = ℕ;
  getaddrinfo = λ bindaddr port family. some (0 ∷ 1 ∷ []);
  socket = socket_of;
  set_v6only = λ s. true;
  set_reuse = λ s. true;
  bind = λ s a. true;
  listen = λ s backlog. false;
}

abbrev net : Net
net = record { err = some none; opened = 2 ∷ 1 ∷ 0 ∷ [] }

net_tcp_server-served_example :
    net_tcp_server sockets (codes "0.0.0.0") (pos 5561) 511 net ≡ served true true false 3 net
net_tcp_server-served_example =
    net_tcp_server-served sockets (codes "0.0.0.0") (pos 5561) 511 3 (0 ∷ []) 1 [] net refl
      (refl, tt) refl refl

abbrev ntop : Family → Bytes → Bytes
ntop family host = host
