-- ===== src/Broker/Handlers/Delivery.antt =====
-- A message from a publisher's socket to a subscriber's socket, one handler after the other.
use mini_pubsub_broker.Base.{
  ℕ, ◌+◌, ◌≤◌, ◌≡◌, ◌≢◌, refl, ap, ◌∙◌, sym, true, Option, some, List, [], ◌∷◌, ◌++◌, map, Bytes,
  length, length-append, arith, negsuc, inr,
}
use mini_pubsub_broker.Libc.{c_string}
use mini_pubsub_broker.Client.{Run, ok, ◌>>=◌, SubClient, Events, sub_write_buf_len, max_bulk_len}
use mini_pubsub_broker.Client.Create.{Origin}
use mini_pubsub_broker.Reply.{crlf}
use mini_pubsub_broker.Reply.Buffer.{IsSound, CanWrite, armed, header, with_wbuf}
use mini_pubsub_broker.Reply.Send.{Written, wrote, without_write, total, AllPositive}
use mini_pubsub_broker.Protocol.Encode.{encode}
use mini_pubsub_broker.Protocol.Request.{IsIdle}
use mini_pubsub_broker.TrieUtil.{conv_to_alpha}
use mini_pubsub_broker.TrieUtil.Walk.{matching-new}
use mini_pubsub_broker.Broker.{
  Libraries, Server, subscribe_command, store_client, PubClient, pub_cli_create,
}
use mini_pubsub_broker.Broker.Subscribe.{TakesChannel, subscribed, single_chan_publish-later}
use mini_pubsub_broker.Broker.Publish.{publish_all, channels_of, channels_of-matching}
use mini_pubsub_broker.Broker.Command.Ping.{answered}
use mini_pubsub_broker.Broker.Command.Whole.{subscribe_reply}
use mini_pubsub_broker.Broker.Handlers.{
  received, unavailable, watched, sub_ev_handler, pub_ev_handler,
}
use mini_pubsub_broker.Broker.Handlers.Joining.{
  Takes, joining, joined, joining-joined, clients-joined, clients-joined_ne,
}
use mini_pubsub_broker.Broker.Handlers.Messages.{pub_ev_handler-received}
use mini_pubsub_broker.Broker.Handlers.Session.{
  readable, writable, connection, accepted, clients-store_client, clients-store_client_ne,
  sub_ev_handler-all,
}

module _ (libs : Libraries) where
  open libs use {sds, libevent, ght, datrie}

  -- Four handlers: a subscriber is accepted, its request comes in one read, a message of a new
  -- publisher comes in one read, and the subscriber's socket is writable.
  abbrev pub delivery :
      Server libs
      → ℕ
      → ℕ
      → Origin
      → ℕ
      → Bytes
      → Bytes
      → Written
      → List Written
      → Run (Server libs × Bytes)
  delivery srv cfd p o pfd request msg last ws = do
    (srv1, out) ← joining libs srv cfd p o request last
    (publisher, srv2) ← pub_ev_handler libs srv1 (pub_cli_create pfd) readable (received msg)
    (srv3, out') ← sub_ev_handler libs srv2 p writable unavailable last ws
    ok (srv3, out ++ out')

  -- A message that begins with a new channel and with no other, the empty one aside, goes to it alone.
  channels_of-new :
      (t t' : datrie.Trie) (channel rest : Bytes)
      → 1 ≤ length channel
      → datrie.trie_store t channel ≡ some t'
      → channels_of libs t (channel ++ rest) ≡ []
      → channels_of libs t' (channel ++ rest) ≡ channel ∷ []
  channels_of-new t t' channel rest some_bytes e none_yet =
      channels_of-matching libs t' (channel ++ rest)
      ∙ matching-new (datrie.trie_retrieve t) (datrie.trie_retrieve t') channel [] channel rest refl
          some_bytes (datrie.retrieve-store t t' channel e)
          (λ j ne. datrie.retrieve-store_ne t t' channel j e ne)
          (sym (channels_of-matching libs t (channel ++ rest)) ∙ none_yet)

  -- The publisher's handler for a message that is for one channel only, in a state
  -- with the sets behind the channel's first subscription.
  pub_ev_handler-alone :
      (srv srv' : Server libs) (p pfd : ℕ) (id channel msg : Bytes) (t : datrie.Trie)
      (c : SubClient) (takes : TakesChannel libs srv p id channel t)
      → conv_to_alpha libs.iconv msg (length msg + 1) ≡ msg ++ (0 ∷ [])
      → srv'.subscibe_table ≡ (subscribed libs srv p id channel t takes).subscibe_table
      → channels_of libs srv'.sub_trie msg ≡ channel ∷ []
      → srv'.clients p ≡ some c
      → IsSound c
      → CanWrite libevent c
      → length c.wbuf + (length (header msg) + (length msg + 2)) ≤ sub_write_buf_len
      → pub_ev_handler libs srv' (pub_cli_create pfd) readable (received msg)
        ≡ ok (
          some (pub_cli_create pfd),
          store_client libs srv' p (with_wbuf (armed c) (c.wbuf ++ (header msg ++ (msg ++ crlf)))),
        )
  unfolding publish_all
  pub_ev_handler-alone srv srv' p pfd id channel msg t c takes plain same alone live sound h room =
      pub_ev_handler-received libs srv' pfd msg plain
      ∙ ap
          (λ chans.
            publish_all libs msg srv' chans >>= λ srv''. ok (some (pub_cli_create pfd), srv''))
          alone
      ∙ ap
          (λ (r : Run (Server libs)). (r >>= λ srv''. publish_all libs msg srv'' []) >>= λ srv''.
            ok (some (pub_cli_create pfd), srv''))
          (single_chan_publish-later libs srv p id channel t takes msg srv' c same live sound h
            room)

  -- A subscriber connects, to memory whose `argc` happens to be 0, and subscribes to a channel that
  -- is new and not empty, in a request that comes in one read; a message that begins with it, and
  -- with no other channel but perhaps the empty one, comes from a new publisher in one read. The
  -- subscriber gets exactly `+subscribe` and the message as one bulk string, over any positive counts
  -- of `write` that add up to them. Its connection is then between two requests, with empty buffers,
  -- and watched for reading, and the other connections are as they were. The conditions: both texts
  -- fit the write buffer, no argument is longer than an announced length may be, the table of commands
  -- has `subscribe`, the channel is taken (`Takes`), iconv converts the message to its own
  -- bytes, and libevent agrees to watch the socket.
  pub delivery-delivers :
      (srv : Server libs) (cfd p pfd : ℕ) (o : Origin) (arg name channel rest : Bytes)
      (t : datrie.Trie) (last : Written) (n : ℕ) (ns : List ℕ)
      → ((e : Events) → libevent.event_new cfd e ≡ true)
      → ((e : Events) → libevent.event_add cfd e ≡ true)
      → o.junk.argc ≡ 0
      → length arg ≤ max_bulk_len
      → length channel ≤ max_bulk_len
      → sds.sdstolower (sds.sdsnewlen arg (length (c_string arg))) ≡ name
      → ght.ght_get srv.sub_commands name
        ≡ some (record { name = name; proc = subscribe_command; arity = negsuc 1 })
      → Takes libs srv p channel t
      → let msg = channel ++ rest in
        let sent = subscribe_reply ++ (header msg ++ (msg ++ crlf)) in
        1 ≤ length channel
        → channels_of libs srv.sub_trie msg ≡ []
        → conv_to_alpha libs.iconv msg (length msg + 1) ≡ msg ++ (0 ∷ [])
        → length sent ≤ sub_write_buf_len
        → AllPositive (n ∷ ns)
        → total (n ∷ ns) ≡ length sent
        → (srv' : Server libs) × (c : SubClient) × (delivery srv cfd p o pfd
              (encode (arg ∷ channel ∷ []) [])
              msg
              last
              (map wrote (n ∷ ns))
            ≡ ok (srv', sent))
          × (srv'.clients p ≡ some c)
          × IsIdle c
          × (c.read_buf ≡ [])
          × (c.wbuf ≡ [])
          × (c.ev ≡ watched)
          × ((q : ℕ) → q ≢ p → srv'.clients q ≡ srv.clients q)
  unfolding armed store_client
  delivery-delivers srv cfd p pfd o arg name channel rest t last n ns new add fresh fit fit' en eg
        takes some_bytes none_yet plain room positive sum =
      let msg = channel ++ rest in
      let ws = map wrote (n ∷ ns) in
      let (id, taken, ej) =
        joining-joined libs srv cfd p o arg name channel t last new add fresh fit fit' en eg
          takes in
      let c1 = answered (connection libs o cfd id) subscribe_reply in
      let srv1 = joined libs srv cfd p o id channel t taken in
      let c2 = with_wbuf (armed c1) (subscribe_reply ++ (header msg ++ (msg ++ crlf))) in
      let srv2 = store_client libs srv1 p c2 in
      let c3 = record c2 { wbuf = []; ev = without_write c2.ev; ev_pending = true } in
      let alone : channels_of libs t msg ≡ channel ∷ [] =
        channels_of-new srv.sub_trie t channel rest some_bytes
          (ap (datrie.trie_store srv.sub_trie) (sym takes.0) ∙ (takes.1 id).stored) none_yet in
      let last_step : Server libs → Bytes → Run (Server libs × Bytes) = λ srv' out.
        sub_ev_handler libs srv' p writable unavailable last ws >>= λ (srv3, out').
        ok (srv3, out ++ out') in
      (
        store_client libs srv2 p c3,
        c3,
        ap
              (λ (x : Run (Server libs × Bytes)). x >>= λ (srv', out).
                pub_ev_handler libs srv' (pub_cli_create pfd) readable (received msg)
                >>= λ (k, srv''). last_step srv'' out)
              ej
            ∙ ap
                (λ (x : Run (Option PubClient × Server libs)). x >>= λ (k, srv'). last_step srv' [])
                (pub_ev_handler-alone (accepted libs srv cfd p o id) srv1 p pfd id channel msg t c1
                  taken plain refl alone (clients-joined libs srv cfd p o id channel t taken)
                  (record { fits = omega arith }) (inr (new _, add _))
                  (omega (
                    arith,
                    length-append subscribe_reply (header msg ++ (msg ++ crlf)),
                    length-append (header msg) (msg ++ crlf),
                    length-append msg crlf,
                  )))
            ∙ ap (λ (x : Run (Server libs × Bytes)). x >>= λ (srv3, out'). ok (srv3, out'))
                (sub_ev_handler-all libs srv2 p c2 unavailable last n ns
                  (clients-store_client libs srv1 p c2) positive sum (new _) (add _)),
        clients-store_client libs srv2 p c3,
        record { no_args = refl; no_count = refl; no_length = refl },
        refl,
        refl,
        refl,
        λ q h.
            clients-store_client_ne libs srv2 p q c3 h
            ∙ clients-store_client_ne libs srv1 p q c2 h
            ∙ clients-joined_ne libs srv cfd p q o id channel t taken h,
      )
