-- ===== src/Startup/Ready.antt =====
-- The sockets of a start, as `server_init` makes them.
use mini_pubsub_broker.Base.{ℕ, ◌≡◌, refl, ap, sym, true, Option, none, some}
use mathlib.Core.Path.{subst}
use mini_pubsub_broker.Net.{Net, net_tcp_server}
use mini_pubsub_broker.Config.{Settings}
use mini_pubsub_broker.TrieUtil.{trie_create}
use mini_pubsub_broker.TrieUtil.Alphabet.{trie_create-HasLetters}
use mini_pubsub_broker.Broker.{Server}
use mini_pubsub_broker.Broker.Linked.{SetIn}
use mini_pubsub_broker.Broker.Valid.{IsValid}
use mini_pubsub_broker.Startup.{
  new_server, table_size, ◌>>=◌, Calls, Broker, server_config_init, server_init, watch_pub,
  watch_sub, open_pub, open_sub, make_tables,
}
use mini_pubsub_broker.Startup.Order.{prepared}
use mini_pubsub_broker.Startup.Serving.{no_sockets}
use mini_pubsub_broker.Startup.Going.{Holds, Holds-bind, Holds-if, Holds-map}

module _ (sys : Calls) where
  open sys use {libs, json, sockets}
  open libs use {ght, datrie}

  -- The tables of the broker, if they are made, hold nothing that is not valid.
  abbrev pub TablesValid : Option (Server libs) → Type 1
  TablesValid none = Unit {1}
  TablesValid (some srv) = (Q : ℕ → Type 0) → IsValid libs Q srv

  new_server-TablesValid :
      (counter : ℕ) (o : Option datrie.Trie)
      → trie_create datrie ≡ o
      → TablesValid (new_server sys counter o)
  new_server-TablesValid counter none made = tt
  new_server-TablesValid counter (some t) made = λ Q. (
    trie_create-HasLetters datrie t made,
    λ q. tt,
    λ channel. subst (SetIn libs Q) (sym (ght.get-create table_size channel)) tt,
  )

  -- The publisher's socket is the one that `net_tcp_server` has made, with its event.
  record HasPub (cfg : Settings) (b : Broker sys) : Type 1 where
    pub_fd : ℕ
    pub_socket :
        net_tcp_server sockets cfg.pub_ip cfg.pub_port cfg.pub_backlog no_sockets
        ≡ (some pub_fd, b.net)
    pub_made : sys.event_new pub_fd ≡ true
    pub_srv_fd : b.pub_srv_fd ≡ some pub_fd
    pub_ev : b.pub_ev ≡ true
    settings : b.settings ≡ cfg
    evloop : b.evloop ≡ true
    tables : TablesValid b.server

  -- Both descriptors are those that `net_tcp_server` has returned, one behind the other, for the
  -- addresses, ports and backlogs of the settings; both have their events, and the event base is made.
  pub record HasSockets (cfg : Settings) (b : Broker sys) : Type 1 where
    pub pub_fd : ℕ
    pub sub_fd : ℕ
    pub between : Net
    pub pub_socket :
        net_tcp_server sockets cfg.pub_ip cfg.pub_port cfg.pub_backlog no_sockets
        ≡ (some pub_fd, between)
    pub sub_socket :
        net_tcp_server sockets cfg.sub_ip cfg.sub_port cfg.sub_backlog between
        ≡ (some sub_fd, b.net)
    pub pub_made : sys.event_new pub_fd ≡ true
    pub sub_made : sys.event_new sub_fd ≡ true
    pub pub_srv_fd : b.pub_srv_fd ≡ some pub_fd
    pub sub_srv_fd : b.sub_srv_fd ≡ some sub_fd
    pub pub_ev : b.pub_ev ≡ true
    pub sub_ev : b.sub_ev ≡ true
    pub settings : b.settings ≡ cfg
    pub evloop : b.evloop ≡ true
    pub tables : TablesValid b.server

  -- If the event loop is there, every call of `server_init` has succeeded.
  abbrev pub IsReady : Settings → Broker sys → Type 1
  IsReady cfg b =
      b.evloop ≡ true → (sys.signal ≡ true) × (sys.event_base_new ≡ true) × HasSockets cfg b

  watch_pub-HasPub :
      (cfg : Settings) (b : Broker sys) (r : Option ℕ × Net)
      → net_tcp_server sockets cfg.pub_ip cfg.pub_port cfg.pub_backlog no_sockets ≡ r
      → b.settings ≡ cfg
      → b.evloop ≡ true
      → TablesValid b.server
      → Holds (HasPub cfg) (watch_pub sys b r)
  unfolding watch_pub
  watch_pub-HasPub cfg b (none, n) made same loop valid = tt
  watch_pub-HasPub cfg b (some fd, n) made same loop valid =
      Holds-if (HasPub cfg) (sys.event_new fd) _ _
        (λ e. record {
          pub_fd = fd;
          pub_socket = made;
          pub_made = e;
          pub_srv_fd = refl;
          pub_ev = refl;
          settings = same;
          evloop = loop;
          tables = valid;
        })
        (λ e. tt)

  watch_sub-HasSockets :
      (cfg : Settings) (b : Broker sys) (r : Option ℕ × Net)
      → net_tcp_server sockets cfg.sub_ip cfg.sub_port cfg.sub_backlog b.net ≡ r
      → HasPub cfg b
      → Holds (HasSockets cfg) (watch_sub sys b r)
  unfolding watch_sub
  watch_sub-HasSockets cfg b (none, n) made h = tt
  watch_sub-HasSockets cfg b (some fd, n) made h =
      Holds-if (HasSockets cfg) (sys.event_new fd) _ _
        (λ e. record {
          pub_fd = h.pub_fd;
          sub_fd = fd;
          between = b.net;
          pub_socket = h.pub_socket;
          sub_socket = made;
          pub_made = h.pub_made;
          sub_made = e;
          pub_srv_fd = h.pub_srv_fd;
          sub_srv_fd = refl;
          pub_ev = h.pub_ev;
          sub_ev = refl;
          settings = h.settings;
          evloop = h.evloop;
          tables = h.tables;
        })
        (λ e. tt)

  open_sub-HasSockets :
      (cfg : Settings) (b : Broker sys) → HasPub cfg b → Holds (HasSockets cfg) (open_sub sys b)
  unfolding open_sub
  open_sub-HasSockets cfg b h =
      watch_sub-HasSockets cfg b _
        (ap (λ (c : Settings). net_tcp_server sockets c.sub_ip c.sub_port c.sub_backlog b.net)
          (sym h.settings))
        h

  pub server_init-IsReady :
      (cfg : Settings) → Holds (IsReady cfg) (server_init sys (prepared sys cfg))
  unfolding server_init open_pub make_tables server_config_init
  server_init-IsReady cfg =
      let b : Broker sys = record (make_tables sys (prepared sys cfg)) { evloop = true } in
      Holds-if (IsReady cfg) sys.signal _ _
        (λ e.
          Holds-if (IsReady cfg) sys.event_base_new _ _
            (λ e'.
              Holds-map (HasSockets cfg) (IsReady cfg) (open_pub sys b >>= open_sub sys)
                (λ b' h loop. (e, e', h))
                (Holds-bind (HasPub cfg) (HasSockets cfg) (open_pub sys b) (open_sub sys)
                  (watch_pub-HasPub cfg b _ refl refl refl
                    (new_server-TablesValid sys.counter (trie_create datrie) refl))
                  (open_sub-HasSockets cfg)))
            (λ e'. tt))
        (λ e l. cc)
