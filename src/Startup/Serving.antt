-- ===== src/Startup/Serving.antt =====
-- What a start leaves to the event loop.
use mini_pubsub_broker.Base.{ℕ, ◌≡◌, refl, ap, ◌∙◌, true, false, none, some, List, [], Bytes}
use mini_pubsub_broker.Net.{Net, net_tcp_server}
use mini_pubsub_broker.Config.{Settings}
use mini_pubsub_broker.TrieUtil.{trie_create}
use mini_pubsub_broker.TrieUtil.Alphabet.{HasLetters, trie_create-HasLetters, trie_create-no_key}
use mini_pubsub_broker.Broker.{Server}
use mini_pubsub_broker.Broker.Command.{sub_commands_init}
use mini_pubsub_broker.Startup.{
  run_server, table_size, running, ◌>>=◌, Opt, Calls, Broker, server_init, server_evloop_start,
  start, watch_pub, watch_sub, open_pub, open_sub, new_server, make_tables, server_config_init,
  nonblock,
}
use mini_pubsub_broker.Startup.Order.{Prepared, prepared, start-prepared}

-- The descriptors of a process before it opens a socket: none.
abbrev pub no_sockets : Net
no_sockets = record { err = some none; opened = [] }

module _ (sys : Calls) where
  open sys use {libs, sockets}
  open libs use {ght, datrie}

  -- Every step of `server_init` succeeds, with these sockets and this trie.
  pub record Serves (cfg : Settings) (p s : ℕ) (n1 n2 : Net) (t : datrie.Trie) : Type 0 where
    pub signal : sys.signal ≡ true
    pub event_base_new : sys.event_base_new ≡ true
    pub trie : trie_create datrie ≡ some t
    pub pub_socket :
        net_tcp_server sockets cfg.pub_ip cfg.pub_port cfg.pub_backlog no_sockets ≡ (some p, n1)
    pub pub_watched : sys.event_new p ≡ true
    pub sub_socket :
        net_tcp_server sockets cfg.sub_ip cfg.sub_port cfg.sub_backlog n1 ≡ (some s, n2)
    pub sub_watched : sys.event_new s ≡ true

  -- The state in which the event loop begins: two sockets, no subscription, and a trie for words
  -- of letters.
  pub record Begins (cfg : Settings) (p s : ℕ) (n2 : Net) (b : Broker sys) : Type 1 where
    pub settings : b.settings ≡ cfg
    pub pub_srv_fd : b.pub_srv_fd ≡ some p
    pub sub_srv_fd : b.sub_srv_fd ≡ some s
    pub net : b.net ≡ n2
    pub server : Server libs
    pub has_server : b.server ≡ some server
    pub no_connection : (q : ℕ) → server.clients q ≡ none
    pub no_channel : (k : Bytes) → ght.ght_get server.subscibe_table k ≡ none
    pub no_key : (k : List ℕ) → datrie.trie_retrieve server.sub_trie k ≡ false
    pub letters : HasLetters datrie server.sub_trie
    pub commands : server.sub_commands ≡ sub_commands_init libs

  watch_pub-watched :
      (b : Broker sys) (p : ℕ) (n : Net)
      → sys.event_new p ≡ true
      → watch_pub sys b (some p, n)
        ≡ running (record b {
          pub_srv_fd = some p;
          pub_ev = true;
          net = n;
          nonblocking = nonblock sys p n b.nonblocking;
        })
  unfolding watch_pub
  watch_pub-watched b p n e = simp e

  watch_sub-watched :
      (b : Broker sys) (s : ℕ) (n : Net)
      → sys.event_new s ≡ true
      → watch_sub sys b (some s, n)
        ≡ running (record b {
          sub_srv_fd = some s;
          sub_ev = true;
          net = n;
          nonblocking = nonblock sys s n b.nonblocking;
        })
  unfolding watch_sub
  watch_sub-watched b s n e = simp e

  server_init-success :
      (b : Broker sys)
      → sys.signal ≡ true
      → sys.event_base_new ≡ true
      → server_init sys b
        ≡ open_pub sys (record (make_tables sys b) { evloop = true }) >>= open_sub sys
  unfolding server_init
  server_init-success b e e' = simp (e, e')

  -- A start comes to its event loop if the options and the configuration are read, the log and the pid
  -- file can be opened, SIGPIPE can be ignored, the event base and the trie are made, and both
  -- listening sockets are made, with their events. It has then both sockets on the configured
  -- addresses, no connection and no subscription, the table of commands, and a trie that holds no
  -- channel and whose alphabet is a to z and A to Z.
  pub start-Begins :
      (opts : List Opt) (cfg cfg' : Settings) (p s : ℕ) (n1 n2 : Net) (t : datrie.Trie)
      → Prepared sys opts cfg cfg'
      → Serves cfg' p s n1 n2 t
      → (b : Broker sys) × (start sys opts ≡ running b) × Begins cfg' p s n2 b
  unfolding run_server server_init server_evloop_start open_pub open_sub make_tables
      server_config_init
  start-Begins opts cfg cfg' p s n1 n2 t prep h =
      let b : Broker sys = prepared sys cfg' in
      let b0 : Broker sys = record (make_tables sys b) { evloop = true } in
      let b1 : Broker sys = record b0 {
        pub_srv_fd = some p;
        pub_ev = true;
        net = n1;
        nonblocking = nonblock sys p n1 [];
      } in
      let b2 : Broker sys = record b1 {
        sub_srv_fd = some s;
        sub_ev = true;
        net = n2;
        nonblocking = nonblock sys s n2 b1.nonblocking;
      } in
      let init : server_init sys b ≡ running b2 =
        server_init-success b h.signal h.event_base_new
        ∙ ap (λ r. watch_pub sys b0 r >>= open_sub sys) h.pub_socket
        ∙ ap (λ m. m >>= open_sub sys) (watch_pub-watched b0 p n1 h.pub_watched)
        ∙ ap (watch_sub sys b1) h.sub_socket
        ∙ watch_sub-watched b1 s n2 h.sub_watched in
      (
        b2,
        start-prepared sys opts cfg cfg' prep ∙ ap (λ m. m >>= server_evloop_start sys) init,
        record {
          settings = refl;
          pub_srv_fd = refl;
          sub_srv_fd = refl;
          net = refl;
          server = record {
            sub_inc_counter = sys.counter;
            subcli_table = ght.ght_create ℕ table_size;
            subscibe_table = ght.ght_create _ table_size;
            sub_commands = sub_commands_init libs;
            sub_trie = t;
            clients = λ q. none;
          };
          has_server = ap (new_server sys sys.counter) h.trie;
          no_connection = λ q. refl;
          no_channel = λ k. ght.get-create table_size k;
          no_key = λ k. trie_create-no_key datrie t k h.trie;
          commands = refl;
          letters = trie_create-HasLetters datrie t h.trie;
        },
      )
