-- ===== src/Broker/Handlers/Joining.antt =====
-- A subscriber that connects and subscribes, one handler after the other.
use mini_pubsub_broker.Base.{
  ℕ, ◌+◌, ◌≤◌, ◌≡◌, ◌≢◌, refl, ap, ◌∙◌, true, some, [], ◌∷◌, ◌++◌, Bytes, length, arith, negsuc,
  inr,
}
use mini_pubsub_broker.Libc.{c_string}
use mini_pubsub_broker.Client.{
  Run, ok, ◌>>=◌, Status, SubClient, Events, sub_write_buf_len, max_bulk_len,
}
use mini_pubsub_broker.Client.Create.{Origin}
use mini_pubsub_broker.Reply.Buffer.{IsSound, CanWrite, armed}
use mini_pubsub_broker.Reply.Send.{Written}
use mini_pubsub_broker.Protocol.Encode.{encode}
use mini_pubsub_broker.Protocol.Request.{IsIdle}
use mini_pubsub_broker.Broker.{Libraries, Server, subscribe_command, store_client, channel_alpha}
use mini_pubsub_broker.Broker.Subscribe.{
  TakesChannel, first_set, subscribed, subscribe_channel-subscribed,
}
use mini_pubsub_broker.Broker.Command.Ping.{answered}
use mini_pubsub_broker.Broker.Command.Whole.{
  subscribe_reply, subscribe_each, process_sub_read_buf-subscribe,
}
use mini_pubsub_broker.Broker.Handlers.{received, watched, sub_ev_handler, accept_sub_handler}
use mini_pubsub_broker.Broker.Handlers.Session.{
  readable, connection, accepted, accept_sub_handler-accepted, clients-accepted,
  clients-accepted_ne, sub_commands-accepted, tables-accepted, clients-store_client,
  clients-store_client_ne, sub_ev_handler-read,
}

module _ (libs : Libraries) where
  open libs use {sds, libevent, ght, datrie}

  -- A channel whose characters are its bytes, which the libraries take under any id.
  abbrev pub Takes : Server libs → ℕ → Bytes → datrie.Trie → Type 0
  Takes srv p channel t =
      (channel_alpha libs channel ≡ channel) × ((id : Bytes) → TakesChannel libs srv p id channel t)

  pub TakesChannel-tables :
      (srv srv' : Server libs) (p : ℕ) (id channel : Bytes) (t : datrie.Trie)
      → srv'.sub_trie ≡ srv.sub_trie
      → srv'.subscibe_table ≡ srv.subscibe_table
      → TakesChannel libs srv p id channel t
      → TakesChannel libs srv' p id channel t
  TakesChannel-tables srv srv' p id channel t same_trie same_table takes = record {
    absent = ap (λ x. datrie.trie_retrieve x (channel_alpha libs channel)) same_trie ∙ takes.absent;
    stored = ap (λ x. datrie.trie_store x (channel_alpha libs channel)) same_trie ∙ takes.stored;
    in_set = takes.in_set;
    in_table =
        ap (λ x. (ght.ght_insert x (first_set libs p id) channel).0) same_table ∙ takes.in_table;
  }

  -- The subscriber's handler for a `subscribe` request of one channel.
  pub sub_ev_handler-subscribe :
      (srv : Server libs) (p : ℕ) (c : SubClient) (arg name channel : Bytes) (t : datrie.Trie)
      (last : Written) (takes : TakesChannel libs srv p c.id channel t)
      → srv.clients p ≡ some c
      → c.read_buf ≡ []
      → IsIdle c
      → IsSound c
      → CanWrite libevent c
      → length arg ≤ max_bulk_len
      → length channel ≤ max_bulk_len
      → sds.sdstolower (sds.sdsnewlen arg (length (c_string arg))) ≡ name
      → ght.ght_get srv.sub_commands name
        ≡ some (record { name = name; proc = subscribe_command; arity = negsuc 1 })
      → length c.wbuf + 12 ≤ sub_write_buf_len
      → sub_ev_handler libs srv p readable (received (encode (arg ∷ channel ∷ []) [])) last []
        ≡ ok (
          store_client libs
              (subscribed libs srv p c.id channel t takes)
              p
              (answered c (c.wbuf ++ subscribe_reply)),
          [],
        )
  unfolding armed subscribe_each
  sub_ev_handler-subscribe srv p c arg name channel t last takes live empty idle sound h fit fit' en
        eg room =
      let s = encode (arg ∷ channel ∷ []) [] in
      let c0 : SubClient = record c { read_buf = c.read_buf ++ s } in
      sub_ev_handler-read libs srv (subscribed libs srv p c.id channel t takes) p c
        (answered c (c.wbuf ++ subscribe_reply)) s last live
        (process_sub_read_buf-subscribe libs srv p c0 arg (channel ∷ []) name
            (record {
              no_args = idle.no_args;
              no_count = idle.no_count;
              no_length = idle.no_length;
            })
            (record { fits = sound.fits }) h (ap (λ b. b ++ s) empty) (omega arith) (omega arith)
            (fit, (fit', tt)) en eg room
          ∙ ap (λ (r : Status × Server libs). ok (r.1, answered c0 (c.wbuf ++ subscribe_reply)))
              (subscribe_channel-subscribed libs srv p c.id channel t takes)
          ∙ ground arith)

  -- Two handlers: a subscriber is accepted, and its request comes in one read.
  abbrev pub joining : Server libs → ℕ → ℕ → Origin → Bytes → Written → Run (Server libs × Bytes)
  joining srv cfd p o request last = accept_sub_handler libs srv (some cfd) p o >>= λ srv0.
      sub_ev_handler libs srv0 p readable (received request) last []

  -- The server with the new connection, behind its subscription.
  abbrev pub joined :
      (srv : Server libs) (cfd p : ℕ) (o : Origin) (id channel : Bytes) (t : datrie.Trie)
      → TakesChannel libs (accepted libs srv cfd p o id) p id channel t
      → Server libs
  joined srv cfd p o id channel t takes =
      store_client libs (subscribed libs (accepted libs srv cfd p o id) p id channel t takes) p
        (answered (connection libs o cfd id) subscribe_reply)

  pub joining-joined :
      (srv : Server libs) (cfd p : ℕ) (o : Origin) (arg name channel : Bytes) (t : datrie.Trie)
      (last : Written)
      → ((e : Events) → libevent.event_new cfd e ≡ true)
      → ((e : Events) → libevent.event_add cfd e ≡ true)
      → o.junk.argc ≡ 0
      → length arg ≤ max_bulk_len
      → length channel ≤ max_bulk_len
      → sds.sdstolower (sds.sdsnewlen arg (length (c_string arg))) ≡ name
      → ght.ght_get srv.sub_commands name
        ≡ some (record { name = name; proc = subscribe_command; arity = negsuc 1 })
      → Takes srv p channel t
      → (id : Bytes) × (takes : TakesChannel libs (accepted libs srv cfd p o id) p id channel t)
        × (joining srv cfd p o (encode (arg ∷ channel ∷ []) []) last
            ≡ ok (joined srv cfd p o id channel t takes, []))
  joining-joined srv cfd p o arg name channel t last new add fresh fit fit' en eg takes =
      let request = encode (arg ∷ channel ∷ []) [] in
      let (id, ea) = accept_sub_handler-accepted libs srv cfd p o (new watched) in
      let srv0 = accepted libs srv cfd p o id in
      let (same_trie, same_table) = tables-accepted libs srv cfd p o id in
      let takes0 = TakesChannel-tables srv srv0 p id channel t same_trie same_table (takes.1 id) in
      (
        id,
        takes0,
        ap (λ x. x >>= λ srv0. sub_ev_handler libs srv0 p readable (received request) last []) ea
            ∙ sub_ev_handler-subscribe srv0 p (connection libs o cfd id) arg name channel t last
                takes0 (clients-accepted libs srv cfd p o id) refl
                (record { no_args = fresh; no_count = refl; no_length = refl })
                (record { fits = omega arith }) (inr (new _, add _)) fit fit' en
                (ap (λ table. ght.ght_get table name) (sub_commands-accepted libs srv cfd p o id)
                  ∙ eg)
                (omega arith),
      )

  pub clients-joined :
      (srv : Server libs) (cfd p : ℕ) (o : Origin) (id channel : Bytes) (t : datrie.Trie)
      (takes : TakesChannel libs (accepted libs srv cfd p o id) p id channel t)
      → (joined srv cfd p o id channel t takes).clients p
        ≡ some (answered (connection libs o cfd id) subscribe_reply)
  clients-joined srv cfd p o id channel t takes =
      clients-store_client libs
        (subscribed libs (accepted libs srv cfd p o id) p id channel t takes) p
        (answered (connection libs o cfd id) subscribe_reply)

  -- The other connections are as they were.
  pub clients-joined_ne :
      (srv : Server libs) (cfd p q : ℕ) (o : Origin) (id channel : Bytes) (t : datrie.Trie)
      (takes : TakesChannel libs (accepted libs srv cfd p o id) p id channel t)
      → q ≢ p
      → (joined srv cfd p o id channel t takes).clients q ≡ srv.clients q
  clients-joined_ne srv cfd p q o id channel t takes h =
      clients-store_client_ne libs
        (subscribed libs (accepted libs srv cfd p o id) p id channel t takes) p q
        (answered (connection libs o cfd id) subscribe_reply) h
      ∙ clients-accepted_ne libs srv cfd p q o id h
