-- ===== src/Startup/Delivery.antt =====
-- From a start to a delivered message.
use mini_pubsub_broker.Base.{
  ℕ, ◌+◌, ◌≤◌, ◌≡◌, ap, ◌∙◌, true, false, some, List, [], ◌∷◌, ◌++◌, map, Bytes, length, codes, pos,
  negsuc, arith,
}
use mini_pubsub_broker.Libc.{c_string}
use mini_pubsub_broker.Client.{ok, Events, sub_write_buf_len, max_bulk_len}
use mini_pubsub_broker.Client.Create.{Origin}
use mini_pubsub_broker.Reply.{crlf}
use mini_pubsub_broker.Reply.Buffer.{header}
use mini_pubsub_broker.Reply.Send.{Written, wrote, total, AllPositive}
use mini_pubsub_broker.Protocol.Encode.{encode}
use mini_pubsub_broker.Net.{Net}
use mini_pubsub_broker.Config.{Settings}
use mini_pubsub_broker.Ght.{HasRoom}
use mini_pubsub_broker.TrieUtil.{conv_to_alpha}
use mini_pubsub_broker.TrieUtil.Walk.{matching-nil}
use mini_pubsub_broker.TrieUtil.Alphabet.{HasLetters}
use mini_pubsub_broker.Hset.{Item, item}
use mini_pubsub_broker.Broker.{
  Libraries, sub_set_len, Server, SubCommand, ping_command, subscribe_command, unsubscribe_command,
  channel_alpha,
}
use mini_pubsub_broker.Broker.Publish.{channels_of, channels_of-matching}
use mini_pubsub_broker.Broker.Command.{sub_commands_init, insert_commands}
use mini_pubsub_broker.Broker.Command.Whole.{subscribe_reply}
use mini_pubsub_broker.Broker.Handlers.Delivery.{delivery, delivery-delivers}
use mini_pubsub_broker.Broker.Handlers.Joining.{Takes}
use mini_pubsub_broker.Startup.{running, Opt, Calls, Broker, start}
use mini_pubsub_broker.Startup.Order.{Prepared}
use mini_pubsub_broker.Startup.Serving.{Serves, Begins, start-Begins}

module _ (libs : Libraries) where
  open libs use {ght, datrie}

  pub get-sub_commands_init :
      HasRoom ght
      → ght.ght_get (sub_commands_init libs) (codes "subscribe")
        ≡ some (record { name = codes "subscribe"; proc = subscribe_command; arity = negsuc 1 })
  unfolding sub_commands_init insert_commands
  get-sub_commands_init has_room =
      let empty = ght.ght_create SubCommand 9 in
      let ping : SubCommand = record { name = codes "ping"; proc = ping_command; arity = pos 1 } in
      let subscribe : SubCommand = record {
        name = codes "subscribe";
        proc = subscribe_command;
        arity = negsuc 1;
      } in
      let unsubscribe : SubCommand = record {
        name = codes "unsubscribe";
        proc = unsubscribe_command;
        arity = negsuc 0;
      } in
      let t1 = (ght.ght_insert empty ping ping.name).1 in
      ght.get-insert_ne (ght.ght_insert t1 subscribe subscribe.name).1 unsubscribe unsubscribe.name
        subscribe.name (λ e. omega (arith, ap (length {0}) e))
      ∙ ght.get-insert_self t1 subscribe subscribe.name (
          has_room SubCommand t1 subscribe subscribe.name (
            ght.get-insert_ne empty ping ping.name subscribe.name
              (λ e. omega (arith, ap (length {0}) e))
            ∙ ght.get-create 9 subscribe.name))

  -- No key, no channel.
  channels_of-nil :
      (t : datrie.Trie) (msg : Bytes)
      → ((k : List ℕ) → datrie.trie_retrieve t k ≡ false)
      → channels_of libs t msg ≡ []
  channels_of-nil t msg h =
      channels_of-matching libs t msg
      ∙ matching-nil (datrie.trie_retrieve t) [] msg (λ a r. h (a ∷ r))

module _ (sys : Calls) where
  open sys use {libs}
  open libs use {sds, libevent, ght, datrie}

  -- The trie library stores a channel in every trie over the letters.
  abbrev pub Stores : Bytes → Type 0
  Stores channel =
      (u : datrie.Trie)
      → HasLetters datrie u
      → (u' : datrie.Trie) × (datrie.trie_store u channel ≡ some u')

  -- The first channel is taken.
  pub Begins-Takes :
      (cfg : Settings) (pub_fd sub_fd : ℕ) (n2 : Net) (b : Broker sys) (p : ℕ) (channel : Bytes)
      (begins : Begins sys cfg pub_fd sub_fd n2 b)
      → HasRoom ght
      → (stores : Stores channel) → channel_alpha libs channel ≡ channel
      → Takes libs begins.server p channel (stores begins.server.sub_trie begins.letters).0
  Begins-Takes cfg pub_fd sub_fd n2 b p channel begins has_room stores own =
      let srv = begins.server in
      (
        own,
        λ id. record {
          absent = begins.no_key (channel_alpha libs channel);
          stored = ap (datrie.trie_store srv.sub_trie) own ∙ (stores srv.sub_trie begins.letters).1;
          in_set =
              has_room (Item ℕ) (ght.ght_create (Item ℕ) sub_set_len) (item p) id
                (ght.get-create sub_set_len id);
          in_table = has_room _ srv.subscibe_table _ channel (begins.no_channel channel);
        },
      )

  -- Behind a start for which all the calls of `Prepared` and `Serves` succeed, with tables that do
  -- not run out of memory and with a trie that stores the channel: a subscriber connects, to memory
  -- whose `argc` happens to be 0, and subscribes to one channel that is not empty, in a request that
  -- comes in one read, and a message that begins with the channel comes from a new publisher in one
  -- read. The subscriber gets exactly `+subscribe` and the message as one bulk string, over any
  -- positive counts of `write` that add up to them, if both fit the write buffer, no argument is
  -- longer than an announced length may be, iconv converts the channel and the message to their own
  -- bytes, and libevent agrees to watch the socket.
  pub start-delivers :
      (opts : List Opt) (cfg cfg' : Settings) (pub_fd sub_fd : ℕ) (n1 n2 : Net) (t : datrie.Trie)
      (cfd p pfd : ℕ) (o : Origin) (arg channel rest : Bytes) (last : Written) (n : ℕ) (ns : List ℕ)
      → Prepared sys opts cfg cfg'
      → Serves sys cfg' pub_fd sub_fd n1 n2 t
      → HasRoom ght
      → ((u : datrie.Trie)
          → HasLetters datrie u
          → (u' : datrie.Trie) × (datrie.trie_store u channel ≡ some u'))
      → ((e : Events) → libevent.event_new cfd e ≡ true)
      → ((e : Events) → libevent.event_add cfd e ≡ true)
      → o.junk.argc ≡ 0
      → length arg ≤ max_bulk_len
      → length channel ≤ max_bulk_len
      → sds.sdstolower (sds.sdsnewlen arg (length (c_string arg))) ≡ codes "subscribe"
      → channel_alpha libs channel ≡ channel
      → let msg = channel ++ rest in
        let sent = subscribe_reply ++ (header msg ++ (msg ++ crlf)) in
        1 ≤ length channel
        → conv_to_alpha libs.iconv msg (length msg + 1) ≡ msg ++ (0 ∷ [])
        → length sent ≤ sub_write_buf_len
        → AllPositive (n ∷ ns)
        → total (n ∷ ns) ≡ length sent
        → (b : Broker sys) × (srv : Server libs) × (srv' : Server libs) × (start sys opts
            ≡ running b)
          × (b.server ≡ some srv)
          × (delivery libs srv cfd p o pfd
                (encode (arg ∷ channel ∷ []) [])
                msg
                last
                (map wrote (n ∷ ns))
              ≡ ok (srv', sent))
  start-delivers opts cfg cfg' pub_fd sub_fd n1 n2 t cfd p pfd o arg channel rest last n ns prep
        serves has_room stores new add fresh fit fit' en own some_bytes plain room positive sum =
      let (b, running_b, begins) =
        start-Begins sys opts cfg cfg' pub_fd sub_fd n1 n2 t prep serves in
      let srv = begins.server in
      let takes = Begins-Takes cfg' pub_fd sub_fd n2 b p channel begins has_room stores own in
      let delivered =
        delivery-delivers libs srv cfd p pfd o arg (codes "subscribe") channel rest _ last n ns new
          add fresh fit fit' en
          (ap (λ table. ght.ght_get table (codes "subscribe")) begins.commands
            ∙ get-sub_commands_init libs has_room)
          takes some_bytes (channels_of-nil libs srv.sub_trie (channel ++ rest) begins.no_key) plain
          room positive sum in
      (b, srv, delivered.0, running_b, begins.has_server, delivered.2)
