-- ===== src/Broker/Topics.antt =====
-- A message that begins with several channels of one subscriber.
use mini_pubsub_broker.Base.{
  ℕ, zero, suc, ◌+◌, ◌*◌, ◌≤◌, ◌≡◌, refl, sym, ap, ◌∙◌, some, List, [], ◌∷◌, ◌++◌, append_assoc,
  append-nil, Bytes, length, length-append, inl, arith,
}
use mini_pubsub_broker.Client.{ok, ◌>>=◌, SubClient, sub_write_buf_len}
use mini_pubsub_broker.Reply.{crlf}
use mini_pubsub_broker.Reply.Buffer.{IsSound, CanWrite, armed, ev_write-armed, header, with_wbuf}
use mini_pubsub_broker.TrieUtil.{conv_to_alpha}
use mini_pubsub_broker.Hset
use mini_pubsub_broker.Hset.{Hset, item}
use mini_pubsub_broker.Broker.{Libraries, Server, PubClient, store_client, process_pub_read_buf}
use mini_pubsub_broker.Broker.Subscribe.{single_chan_publish-only}
use mini_pubsub_broker.Broker.Handlers.Session.{clients-store_client}
use mini_pubsub_broker.Broker.Publish.{publish_all, channels_of, process_pub_read_buf-channels_of}

-- A message as a bulk string.
abbrev pub bulk_of : Bytes → Bytes
bulk_of msg = header msg ++ (msg ++ crlf)

unfoldable pub times : ℕ → Bytes → Bytes
times zero s = []
times (suc n) s = s ++ times n s

length-bulk_of : (msg : Bytes) → length (bulk_of msg) ≡ length (header msg) + (length msg + 2)
length-bulk_of msg = omega (arith, length-append (header msg) (msg ++ crlf), length-append msg crlf)

module _ (libs : Libraries) where
  open libs use {libevent, ght}

  -- The set of each of some channels holds one connection, the same one.
  abbrev pub AllOnly : Server libs → ℕ → Bytes → List Bytes → Type 0
  AllOnly srv p id [] = Unit {0}
  AllOnly srv p id (channel ∷ channels) =
      ((hs : Hset ght ℕ) × (ght.ght_get srv.subscibe_table channel ≡ some hs)
        × (Hset.hset_items ght hs ≡ (id, item p) ∷ []))
      × AllOnly srv p id channels

  AllOnly-store_client :
      (srv : Server libs) (p q : ℕ) (id : Bytes) (c : SubClient) (channels : List Bytes)
      → AllOnly srv p id channels
      → AllOnly (store_client libs srv q c) p id channels
  unfolding store_client
  AllOnly-store_client srv p q id c [] all = tt
  AllOnly-store_client srv p q id c (channel ∷ channels) all =
      (all.0, AllOnly-store_client srv p q id c channels all.1)

  publish_all-times :
      (msg : Bytes) (channels : List Bytes) (srv : Server libs) (p : ℕ) (id : Bytes) (c : SubClient)
      → srv.clients p ≡ some c
      → AllOnly srv p id channels
      → IsSound c
      → CanWrite libevent c
      → length c.wbuf + length channels * length (bulk_of msg) ≤ sub_write_buf_len
      → (srv' : Server libs) × (c' : SubClient) × (publish_all libs msg srv channels ≡ ok srv')
        × (srv'.clients p ≡ some c')
        × (c'.wbuf ≡ c.wbuf ++ times (length channels) (bulk_of msg))
  unfolding publish_all times
  publish_all-times msg [] srv p id c live all sound h room =
      (srv, c, refl, live, sym (append-nil c.wbuf))
  publish_all-times msg (channel ∷ channels) srv p id c live all sound h room =
      let ((hs, get, items), later) = all in
      let size = length-bulk_of msg in
      let w = c.wbuf ++ bulk_of msg in
      let c1 = with_wbuf (armed c) w in
      let srv1 = store_client libs srv p c1 in
      let split : suc (length channels) * length (bulk_of msg)
          ≡ length (bulk_of msg) + length channels * length (bulk_of msg) =
        omega arith in
      let (srv', c', e, live', w') =
        publish_all-times msg channels srv1 p id c1 (clients-store_client libs srv p c1)
          (AllOnly-store_client srv p p id c1 channels later)
          (record { fits = omega (arith, split, length-append c.wbuf (bulk_of msg)) })
          (inl (ev_write-armed c)) (omega (arith, split, length-append c.wbuf (bulk_of msg))) in
      (
        srv',
        c',
        ap (λ r. r >>= λ s. publish_all libs msg s channels)
              (single_chan_publish-only libs msg srv p id channel hs c get items live sound h
                (omega (arith, split, size)))
            ∙ e,
        live',
        w' ∙ append_assoc c.wbuf (bulk_of msg) (times (length channels) (bulk_of msg)),
      )

  -- A subscriber that is alone in the sets of all the channels of the trie, other than the empty one,
  -- that a message begins with gets the message once for each of them, one bulk string after the
  -- other in its write buffer, if they fit it, iconv converts the message to its own bytes, and
  -- libevent agrees to watch the socket. The publisher's read buffer is empty behind it.
  pub process_pub_read_buf-times :
      (publisher : PubClient) (srv : Server libs) (p : ℕ) (id : Bytes) (c : SubClient)
      → let msg = publisher.read_buf in
        let channels = channels_of libs srv.sub_trie msg in
        conv_to_alpha libs.iconv msg (length msg + 1) ≡ msg ++ (0 ∷ [])
        → srv.clients p ≡ some c
        → AllOnly srv p id channels
        → IsSound c
        → CanWrite libevent c
        → length c.wbuf + length channels * length (bulk_of msg) ≤ sub_write_buf_len
        → (srv' : Server libs) × (c' : SubClient) × (process_pub_read_buf libs publisher srv
            ≡ ok (record publisher { read_buf = [] }, srv'))
          × (srv'.clients p ≡ some c')
          × (c'.wbuf ≡ c.wbuf ++ times (length channels) (bulk_of msg))
  process_pub_read_buf-times publisher srv p id c plain live all sound h room =
      let msg = publisher.read_buf in
      let (srv', c', e, live', w') =
        publish_all-times msg (channels_of libs srv.sub_trie msg) srv p id c live all sound h
          room in
      (
        srv',
        c',
        process_pub_read_buf-channels_of libs publisher srv plain
            ∙ ap (λ r. r >>= λ s. ok (record publisher { read_buf = [] }, s)) e,
        live',
        w',
      )
