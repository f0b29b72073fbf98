-- ===== src/Broker/Handlers.antt =====
-- The handlers of src/event.c that libevent calls for a ready socket.
pub mod Session
pub mod Messages
pub mod Joining
pub mod Delivery
pub mod Publishing
pub mod Invariant
pub mod Reach
pub mod Live
use mini_pubsub_broker.Base.{
  ℕ, ◌+◌, ◌≡◌, ◌≢◌, refl, Bool, true, false, Option, none, some, List, [], ◌++◌, Bytes,
  if◌then◌else◌,
}
use mini_pubsub_broker.Client.{Run, ok, fault, ◌>>=◌, Events, SubClient}
use mini_pubsub_broker.Client.Create.{Origin, sub_cli_create}
use mini_pubsub_broker.Net.{Net, Family, Accepted, Peer, net_tcp_accept}
use mini_pubsub_broker.Reply.Send.{Written, send_reply_to_subcli}
use mini_pubsub_broker.Broker.{
  Libraries, Server, PubClient, pub_cli_create, pub_cli_release, store_client, sub_cli_release,
  process_pub_read_buf,
}
use mini_pubsub_broker.Broker.Command.{process_sub_read_buf}

-- What a call of `read` yields: bytes, the end of the stream, -1 with `EAGAIN` or `EINTR`, or -1
-- with another error.
pub data Received : Type 0 where
  received : Bytes → Received
  detached unavailable broken : Received

-- `EV_READ | EV_PERSIST`.
abbrev pub watched : Events
watched = record { ev_read = true; ev_write = false; ev_persist = true }

abbrev pub accepted_fd : Option (ℕ × Bytes × ℕ) × Net → Option ℕ × Net
accepted_fd (none, n) = (none, n)
accepted_fd (some (fd, _, _), n) = (some fd, n)

-- Over the results of `accept`; the text of the peer is only logged.
unfoldable pub accept_tcp_handler :
    (Family → Bytes → Bytes) → List (Accepted Peer) → Net → Run (Option ℕ × Net)
accept_tcp_handler ntop rs n = net_tcp_accept ntop rs n >>= λ r. ok (accepted_fd r)

module _ (libs : Libraries) where
  open libs use {libevent, ght}

  -- What follows a send: the connection is kept, or is gone, as it was left.
  unfoldable pub keep_sent : Server libs → ℕ → Option SubClient × Bytes → Server libs × Bytes
  keep_sent srv p (none, out) = (sub_cli_release libs srv p, out)
  keep_sent srv p (some c, out) = (store_client libs srv p c, out)

  unfoldable pub keep_read : ℕ → Server libs × SubClient → Server libs × Bytes
  keep_read p (srv, c) = (store_client libs srv p c, [])

  -- `sdsMakeRoomFor` and `sdsIncrLen` put the bytes that are read behind those of the buffer.
  unfoldable pub sub_read : Server libs → ℕ → SubClient → Received → Run (Server libs × Bytes)
  unfolding keep_read
  sub_read srv p c unavailable = ok (srv, [])
  sub_read srv p c broken = ok (sub_cli_release libs srv p, [])
  sub_read srv p c detached = ok (sub_cli_release libs srv p, [])
  sub_read srv p c (received s) =
      process_sub_read_buf libs srv p (record c { read_buf = c.read_buf ++ s }) >>= λ r.
      ok (keep_read p r)

  unfoldable pub sub_write :
      Server libs → ℕ → SubClient → Written → List Written → Run (Server libs × Bytes)
  unfolding keep_sent
  sub_write srv p c junk ws =
      send_reply_to_subcli libevent junk ws c >>= λ sent. ok (keep_sent srv p sent)

  -- A connection at an address, if it is live. The results of `read` and of the calls of `write`
  -- are given; the result holds the bytes that went out.
  unfoldable pub sub_event :
      Server libs
      → ℕ
      → Events
      → Received
      → Written
      → List Written
      → Option SubClient
      → Run (Server libs × Bytes)
  unfolding sub_read sub_write
  sub_event srv p event r junk ws none = fault
  sub_event srv p event r junk ws (some c) =
      if event.ev_read
      then sub_read srv p c r
      else if event.ev_write
      then sub_write srv p c junk ws
      else ok (srv, [])

  unfoldable pub sub_ev_handler :
      Server libs → ℕ → Events → Received → Written → List Written → Run (Server libs × Bytes)
  unfolding sub_event
  sub_ev_handler srv p event r junk ws = sub_event srv p event r junk ws (srv.clients p)

  unfoldable pub pub_read :
      Server libs → PubClient → Received → Run (Option PubClient × Server libs)
  pub_read srv c unavailable = ok (some c, srv)
  pub_read srv c broken = ok (pub_cli_release (some c), srv)
  pub_read srv c detached = ok (pub_cli_release (some c), srv)
  pub_read srv c (received s) =
      process_pub_read_buf libs (record c { read_buf = c.read_buf ++ s }) srv >>= λ (c', srv').
      ok (some c', srv')

  -- A publisher's connection is `none` behind `pub_cli_release`.
  unfoldable pub pub_ev_handler :
      Server libs → PubClient → Events → Received → Run (Option PubClient × Server libs)
  unfolding pub_read
  pub_ev_handler srv c event r = if event.ev_read then pub_read srv c r else ok (some c, srv)

  -- The result of `accept_tcp_handler` is `none` at -1. Where `event_new` fails, the code calls `free`
  -- on memory of `zmalloc`, which is not the start of a block of the C library, a fault.
  unfoldable pub accept_pub_handler : Option ℕ → Run (Option PubClient)
  accept_pub_handler none = ok none
  accept_pub_handler (some cfd) =
      if libevent.event_new cfd watched then ok (some (pub_cli_create cfd)) else fault

  -- A connection whose event is made; the result of `event_add` is not looked at.
  unfoldable pub store_created : Server libs → ℕ → ℕ → SubClient → Server libs
  store_created srv cfd p c0 =
      let c = record c0 { ev = watched; ev_pending = libevent.event_add cfd watched } in
      store_client libs (record srv { subcli_table = (ght.ght_insert srv.subcli_table p c.id).1 }) p
        c

  -- What follows `sub_cli_create`, with the socket's event; the connection is freed as in
  -- `accept_pub_handler`.
  unfoldable pub watch_created : Server libs → ℕ → ℕ → SubClient → Run (Server libs)
  unfolding store_created
  watch_created srv cfd p c =
      if libevent.event_new cfd watched then ok (store_created srv cfd p c) else fault

  -- `p` is the address of the new connection.
  unfoldable pub accept_sub_handler : Server libs → Option ℕ → ℕ → Origin → Run (Server libs)
  unfolding watch_created
  accept_sub_handler srv none p o = ok srv
  accept_sub_handler srv (some cfd) p o =
      let n = srv.sub_inc_counter + 1 in
      sub_cli_create o cfd n >>= watch_created (record srv { sub_inc_counter = n }) cfd p
