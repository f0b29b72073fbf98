-- ===== src/Broker.antt =====
-- What the connections share (src/broker.h), the commands of a subscriber
-- (src/protocol/subcli.c) and the publication of a message (src/protocol/pubcli.c). A connection
-- lives at an address, and the tables hold addresses.
pub mod Subscribe
pub mod Command
pub mod Publish
pub mod Topics
pub mod Handlers
pub mod Foreign
pub mod Linked
pub mod Valid
use mini_pubsub_broker.Base.{
  ℕ, zero, suc, ◌+◌, ◌-◌, Bool, true, false, ◌&&◌, ◌||◌, Option, none, some, List, [], ◌∷◌, ◌++◌,
  Bytes, length, take, drop, set, get_elem?, ltb, ◌==◌, if◌then◌else◌, ℤ, pos, negsuc,
}
use mini_pubsub_broker.Libc.{c_string, byte_at}
use mini_pubsub_broker.Sds.{Sds}
use mini_pubsub_broker.Libevent.{Libevent}
use mini_pubsub_broker.Ght.{Ght, Insert, inserted, exists, no_memory}
use mini_pubsub_broker.Datrie.{Datrie, Iconv}
use mini_pubsub_broker.TrieUtil.{conv_to_alpha, trie_walker}
use mini_pubsub_broker.Hset
use mini_pubsub_broker.Hset.{Hset, Item, fake, item}
use mini_pubsub_broker.Client.{
  Run, ok, fault, out_of_fuel, ◌>>=◌, ◌>>◌, Status, subcli_ok, subcli_err, SubClient, reset_client,
  free_client_argv,
}
use mini_pubsub_broker.Reply.{
  crlf, pong, add_reply, add_reply_string, add_reply_bulk, add_reply_error_fmt,
}
use mini_pubsub_broker.Protocol.ReadLoop.{read_loop}

-- `SUB_SET_LEN`.
abbrev pub sub_set_len : ℕ
sub_set_len = 16

-- `pub_client`, without its event; nothing writes to `write_buf`.
pub record PubClient : Type 0 where
  pub fd : ℕ
  pub read_buf : Bytes
  pub write_buf : Bytes

unfoldable pub pub_cli_create : ℕ → PubClient
pub_cli_create fd = record { fd = fd; read_buf = []; write_buf = [] }

-- A connection that is gone.
abbrev pub pub_cli_release : Option PubClient → Option PubClient
pub_cli_release c = none

-- What the code takes from other libraries.
pub record Libraries : Type 1 where
  pub sds : Sds
  pub libevent : Libevent
  pub ght : Ght
  pub datrie : Datrie
  pub iconv : Iconv

-- The entries of `sub_command_table`: `sub_command_proc` is one of three functions.
pub data Proc : Type 0 where
  ping_command subscribe_command unsubscribe_command : Proc

pub record SubCommand : Type 0 where
  pub name : Bytes
  pub proc : Proc
  pub arity : ℤ

module _ (libs : Libraries) where
  open libs use {sds, libevent, ght, datrie, iconv}
  open ght use {Table, ght_insert, ght_get}
  open datrie use {Trie, State, trie_retrieve, trie_store, trie_root}

  -- The fields of `broker` that the connections use, and the live connections by address.
  pub record Server : Type 0 where
    pub sub_inc_counter : ℕ
    pub subcli_table : Table ℕ
    pub subscibe_table : Table (Hset ght ℕ)
    pub sub_commands : Table SubCommand
    pub sub_trie : Trie
    pub clients : ℕ → Option SubClient

  -- `*p = c`.
  unfoldable pub store_client : Server → ℕ → SubClient → Server
  store_client srv p c = record srv { clients = λ q. if q == p then some c else srv.clients q }

  -- `sub_cli_release`: the tables keep the address.
  unfoldable pub sub_cli_release : Server → ℕ → Server
  sub_cli_release srv p = record srv { clients = λ q. if q == p then none else srv.clients q }

  unfoldable pub channel_alpha : Bytes → List ℕ
  channel_alpha channel = c_string (conv_to_alpha iconv channel (length channel + 1))

  -- The set of a new channel goes into the table; only the result -1 counts as an error.
  unfoldable pub add_channel : Server → Insert × Table (Hset ght ℕ) → Status × Server
  add_channel srv (exists, t) = (subcli_err, srv)
  add_channel srv (inserted, t) = (subcli_ok, record srv { subscibe_table = t })
  add_channel srv (no_memory, t) = (subcli_ok, record srv { subscibe_table = t })

  -- A channel that the trie does not hold, with the trie that holds it.
  unfoldable pub new_channel : Server → ℕ → Bytes → Bytes → Option Trie → Status × Server
  unfolding add_channel Hset.hset_insert Hset.hset_create
  new_channel srv p id channel none = (subcli_err, srv)
  new_channel srv p id channel (some t) =
      let hs = (Hset.hset_insert ght (Hset.hset_create ght ℕ sub_set_len) id (some p)).1 in
      add_channel (record srv { sub_trie = t }) (ght_insert srv.subscibe_table hs channel)

  -- `p` is the address of the connection, and `id` its id.
  unfoldable pub subscribe_channel : Server → ℕ → Bytes → Bytes → Status × Server
  unfolding new_channel channel_alpha
  subscribe_channel srv p id channel =
      if trie_retrieve srv.sub_trie (channel_alpha channel)
      then (subcli_ok, srv)
      else new_channel srv p id channel (trie_store srv.sub_trie (channel_alpha channel))

  -- The `for` loop over `argv[1]` to `argv[argc - 1]`; the results are not looked at.
  unfoldable pub subscribe_all : Server → ℕ → Bytes → ℕ → List (Option Bytes) → Run Server
  unfolding subscribe_channel
  subscribe_all srv p id zero argv = ok srv
  subscribe_all srv p id (suc n) [] = fault
  subscribe_all srv p id (suc n) (none ∷ argv) = fault
  subscribe_all srv p id (suc n) (some channel ∷ argv) =
      subscribe_all (subscribe_channel srv p id channel).1 p id n argv

  -- The bulk string for the connection at an address.
  unfoldable pub publish_to : Bytes → Server → ℕ → Option SubClient → Run Server
  publish_to msg srv p none = fault
  publish_to msg srv p (some c) =
      add_reply_bulk libevent sds c msg >>= λ c'. ok (store_client srv p c')

  -- For one channel: each connection in its set gets the message.
  unfoldable pub publish_item : Bytes → Server → Item ℕ → Run Server
  unfolding publish_to
  publish_item msg srv fake = fault
  publish_item msg srv (item p) = publish_to msg srv p (srv.clients p)

  unfoldable pub publish_items : Bytes → Server → List (Bytes × Item ℕ) → Run Server
  unfolding publish_item store_client
  publish_items msg srv [] = ok srv
  publish_items msg srv ((id, i) ∷ items) =
      publish_item msg srv i >>= λ srv'. publish_items msg srv' items

  unfoldable pub publish_set : Bytes → Server → Option (Hset ght ℕ) → Run Server
  unfolding publish_items Hset.hset_items
  publish_set msg srv none = ok srv
  publish_set msg srv (some hs) = publish_items msg srv (Hset.hset_items ght hs)

  unfoldable pub single_chan_publish : Bytes → Server → Bytes → Run Server
  unfolding publish_set
  single_chan_publish msg srv chan = publish_set msg srv (ght_get srv.subscibe_table chan)

  -- The body of the `while` loop for a key that ends at index `cur`: the byte that the last round
  -- overwrote comes back, the prefix is cut behind the key, and the search goes on.
  unfoldable pub publish_found :
      (ℕ → Bytes → State → Server → Run Server)
      → Bytes
      → ℕ
      → Bytes
      → Server
      → Option ℕ × State
      → Run Server
  unfolding single_chan_publish
  publish_found next msg k prefix srv (none, s) = ok srv
  publish_found next msg k prefix srv (some cur, s) =
      let prefix' = set (set prefix k (byte_at msg k)) (cur + 1) 0 in
      single_chan_publish msg srv (take (cur + 1) prefix') >>= next (cur + 1) prefix' s

  -- `k` is `last + 1`.
  unfoldable pub publish_loop : ℕ → Bytes → List ℕ → ℕ → Bytes → State → Server → Run Server
  unfolding publish_found
  publish_loop zero msg alpha k prefix s srv = out_of_fuel
  publish_loop (suc fuel) msg alpha k prefix s srv =
      trie_walker datrie s alpha (length msg) k
      >>= publish_found (publish_loop fuel msg alpha) msg k prefix srv

  -- The buffer is published, and cleared. `memcpy` copies its NUL too.
  unfoldable pub process_pub_read_buf : PubClient → Server → Run (PubClient × Server)
  unfolding publish_loop
  process_pub_read_buf c srv =
      publish_loop (length c.read_buf + 1) c.read_buf
        (conv_to_alpha iconv c.read_buf (length c.read_buf + 1)) 0 (c.read_buf ++ (0 ∷ []))
        (trie_root srv.sub_trie) srv
      >>= λ srv'. ok (record c { read_buf = sds.sdsclear c.read_buf }, srv')
