-- ===== src/Broker/Subscribe.antt =====
-- What a subscription leaves in the tables, and what it means for later calls.
use mini_pubsub_broker.Base.{
  ℕ, ◌+◌, ◌≤◌, ◌≡◌, ◌≢◌, refl, ap, ◌∙◌, Bool, true, false, none, some, [], ◌∷◌, ◌++◌, Bytes, length,
  ==_refl, if◌then◌else◌,
}
use mini_pubsub_broker.Client.{ok, fault, ◌>>=◌, subcli_ok, SubClient, sub_write_buf_len}
use mini_pubsub_broker.Reply.{crlf}
use mini_pubsub_broker.Reply.Buffer.{
  IsSound, CanWrite, armed, header, with_wbuf, add_reply_bulk-fits,
}
use mini_pubsub_broker.Ght.{Insert, inserted, exists, no_memory}
use mini_pubsub_broker.Hset
use mini_pubsub_broker.Hset.{Hset, Item, item}
use mini_pubsub_broker.Broker.{
  Libraries, Server, sub_set_len, store_client, sub_cli_release, channel_alpha, add_channel,
  new_channel, subscribe_channel, publish_to, publish_item, publish_items, publish_set,
  single_chan_publish,
}

module _ (libs : Libraries) where
  open libs use {sds, libevent, ght, datrie}

  add_channel-inserted :
      (srv : Server libs) (r : Insert × ght.Table (Hset ght ℕ))
      → r.0 ≡ inserted
      → add_channel libs srv r ≡ (subcli_ok, record srv { subscibe_table = r.1 })
  unfolding add_channel
  add_channel-inserted srv (inserted, t) e = refl
  add_channel-inserted srv (exists, t) e = cc
  add_channel-inserted srv (no_memory, t) e = cc

  -- A message to a channel whose set holds one connection goes, as one bulk string, into the write
  -- buffer of that connection.
  pub single_chan_publish-only :
      (msg : Bytes) (srv : Server libs) (p : ℕ) (id channel : Bytes) (hs : Hset ght ℕ)
      (c : SubClient)
      → ght.ght_get srv.subscibe_table channel ≡ some hs
      → Hset.hset_items ght hs ≡ (id, item p) ∷ []
      → srv.clients p ≡ some c
      → IsSound c
      → CanWrite libevent c
      → length c.wbuf + (length (header msg) + (length msg + 2)) ≤ sub_write_buf_len
      → single_chan_publish libs msg srv channel
        ≡ ok (
            store_client libs srv p (with_wbuf (armed c) (c.wbuf ++ (header msg ++ (msg ++ crlf)))))
  unfolding single_chan_publish publish_set publish_items publish_item publish_to
  single_chan_publish-only msg srv p id channel hs c get items live sound h room =
      ap (publish_set libs msg srv) get
      ∙ ap (publish_items libs msg srv) items
      ∙ ap (λ o. publish_to libs msg srv p o >>= ok) live
      ∙ ap (λ r. (r >>= λ c'. ok (store_client libs srv p c')) >>= ok)
          (add_reply_bulk-fits libevent sds c msg sound h room)

  -- A channel that the trie holds changes nothing.
  subscribe_channel-again :
      (srv : Server libs) (q : ℕ) (id channel : Bytes)
      → datrie.trie_retrieve srv.sub_trie (channel_alpha libs channel) ≡ true
      → subscribe_channel libs srv q id channel ≡ (subcli_ok, srv)
  unfolding subscribe_channel
  subscribe_channel-again srv q id channel e = rw e

  -- The set that a new channel gets.
  abbrev pub first_set : ℕ → Bytes → Hset ght ℕ
  first_set p id = (Hset.hset_insert ght (Hset.hset_create ght ℕ sub_set_len) id (some p)).1

  -- The libraries take a channel that is not there: the trie stores it, and neither table is out
  -- of memory.
  pub record TakesChannel (srv : Server libs) (p : ℕ) (id channel : Bytes) (t : datrie.Trie)
      : Type 0 where
    pub absent : datrie.trie_retrieve srv.sub_trie (channel_alpha libs channel) ≡ false
    pub stored : datrie.trie_store srv.sub_trie (channel_alpha libs channel) ≡ some t
    pub in_set : (ght.ght_insert (ght.ght_create (Item ℕ) sub_set_len) (item p) id).0 ≡ inserted
    pub in_table : (ght.ght_insert srv.subscibe_table (first_set p id) channel).0 ≡ inserted

  module _ (srv : Server libs) (p : ℕ) (id channel : Bytes) (t : datrie.Trie)
      (takes : TakesChannel srv p id channel t) where
    -- The state behind the subscription.
    abbrev pub subscribed : Server libs
    subscribed = record srv {
      sub_trie = t;
      subscibe_table = (ght.ght_insert srv.subscibe_table (first_set p id) channel).1;
    }

    pub subscribe_channel-subscribed :
        subscribe_channel libs srv p id channel ≡ (subcli_ok, subscribed)
    unfolding subscribe_channel new_channel
    subscribe_channel-subscribed =
        rw (takes.absent, takes.stored)
          (add_channel-inserted (record srv { sub_trie = t })
            (ght.ght_insert srv.subscibe_table (first_set p id) channel) takes.in_table)

    items-first_set : Hset.hset_items ght (first_set p id) ≡ (id, item p) ∷ []
    unfolding Hset.hset_items Hset.hset_insert Hset.hset_create
    items-first_set =
        ght.entries-insert (ght.ght_create (Item ℕ) sub_set_len) (item p) id takes.in_set
        ∙ ap (λ es. es ++ ((id, item p) ∷ [])) (ght.entries-create sub_set_len)

    get-subscribed : ght.ght_get subscribed.subscibe_table channel ≡ some (first_set p id)
    get-subscribed = ght.get-insert_self srv.subscibe_table (first_set p id) channel takes.in_table

    -- The first subscription to a channel makes a set with just that connection, under the
    -- channel's name; the other channels and the connections are as they were.
    pub subscribe_channel-first :
        let (status, srv') = subscribe_channel libs srv p id channel in
        (hs : Hset ght ℕ) × (status ≡ subcli_ok)
        × (ght.ght_get srv'.subscibe_table channel ≡ some hs)
        × (Hset.hset_items ght hs ≡ (id, item p) ∷ [])
        × ((other : Bytes)
            → channel ≢ other
            → ght.ght_get srv'.subscibe_table other ≡ ght.ght_get srv.subscibe_table other)
        × (srv'.clients ≡ srv.clients)
    subscribe_channel-first = rw subscribe_channel-subscribed (
      first_set p id,
      refl,
      get-subscribed,
      items-first_set,
      λ other ne. ght.get-insert_ne srv.subscibe_table (first_set p id) channel other ne,
      refl,
    )

    -- A second connection that subscribes to the channel is told that all went well, and is not
    -- put into the channel's set: the set still holds the first connection alone.
    pub subscribe_channel-second :
        (q : ℕ) (id' : Bytes)
        → let srv' = (subscribe_channel libs srv p id channel).1 in
          let (status, srv'') = subscribe_channel libs srv' q id' channel in
          (hs : Hset ght ℕ) × (status ≡ subcli_ok)
          × (ght.ght_get srv''.subscibe_table channel ≡ some hs)
          × (Hset.hset_items ght hs ≡ (id, item p) ∷ [])
    subscribe_channel-second q id' =
        rw
          (
            subscribe_channel-subscribed,
            subscribe_channel-again subscribed q id' channel
                (datrie.retrieve-store srv.sub_trie t (channel_alpha libs channel) takes.stored),
          )
          (first_set p id, refl, get-subscribed, items-first_set)

    single_chan_publish-subscribed :
        (msg : Bytes) (srv' : Server libs)
        → srv'.subscibe_table ≡ subscribed.subscibe_table
        → single_chan_publish libs msg srv' channel
          ≡ publish_items libs msg srv' ((id, item p) ∷ [])
    unfolding single_chan_publish publish_set
    single_chan_publish-subscribed msg srv' e =
        ap (λ table. publish_set libs msg srv' (ght.ght_get table channel)) e
        ∙ ap (publish_set libs msg srv') get-subscribed
        ∙ ap (publish_items libs msg srv') items-first_set

    -- In any later state with the same sets, a message to the channel goes to the connection that
    -- is then at the address.
    pub single_chan_publish-later :
        (msg : Bytes) (srv' : Server libs) (c : SubClient)
        → srv'.subscibe_table ≡ subscribed.subscibe_table
        → srv'.clients p ≡ some c
        → IsSound c
        → CanWrite libevent c
        → length c.wbuf + (length (header msg) + (length msg + 2)) ≤ sub_write_buf_len
        → single_chan_publish libs msg srv' channel
          ≡ ok (
              store_client libs srv' p
                (with_wbuf (armed c) (c.wbuf ++ (header msg ++ (msg ++ crlf)))))
    single_chan_publish-later msg srv' c same live sound h room =
        single_chan_publish-only msg srv' p id channel (first_set p id) c
          (ap (λ table. ght.ght_get table channel) same ∙ get-subscribed) items-first_set live sound
          h room

    -- A message that is published to the channel goes, as one bulk string, into the write buffer
    -- of the connection that subscribed.
    pub single_chan_publish-delivers :
        (msg : Bytes) (c : SubClient)
        → srv.clients p ≡ some c
        → IsSound c
        → CanWrite libevent c
        → length c.wbuf + (length (header msg) + (length msg + 2)) ≤ sub_write_buf_len
        → let srv' = (subscribe_channel libs srv p id channel).1 in
          single_chan_publish libs msg srv' channel
          ≡ ok (
              store_client libs srv' p
                (with_wbuf (armed c) (c.wbuf ++ (header msg ++ (msg ++ crlf)))))
    single_chan_publish-delivers msg c live sound h room =
        rw subscribe_channel-subscribed
          (single_chan_publish-later msg subscribed c refl live sound h room)

    -- A connection that is released stays in the sets of its channels: a message to such a channel
    -- then writes to the freed connection.
    pub single_chan_publish-released :
        (msg : Bytes)
        → let srv' = sub_cli_release libs (subscribe_channel libs srv p id channel).1 p in
          single_chan_publish libs msg srv' channel ≡ fault
    unfolding publish_items publish_item publish_to sub_cli_release
    single_chan_publish-released msg = rw subscribe_channel-subscribed (
        single_chan_publish-subscribed msg (sub_cli_release libs subscribed p) refl
        ∙ ap
            (λ (gone : Bool).
              publish_to libs msg (sub_cli_release libs subscribed p) p
                (if gone then none else srv.clients p)
              >>= ok)
            (==_refl p))
