-- ===== src/Broker/Handlers/Publishing.antt =====
-- What a publication and the handler of a publisher keep.
use mini_pubsub_broker.Base.{
  ℕ, zero, suc, ◌+◌, Option, none, some, List, [], ◌∷◌, ◌++◌, Bytes, length, take, set,
}
use mini_pubsub_broker.Libc.{byte_at}
use mini_pubsub_broker.Client.{Run, ok, SubClient, Events}
use mini_pubsub_broker.Client.Returns.{Returns, Returns-bind, Returns-if, Returns-any, Fits}
use mini_pubsub_broker.Reply.{add_reply_bulk}
use mini_pubsub_broker.Reply.Bounds.{add_reply_bulk-Fits}
use mini_pubsub_broker.Hset
use mini_pubsub_broker.Hset.{Hset, Item, fake, item}
use mini_pubsub_broker.TrieUtil.{conv_to_alpha, trie_walker}
use mini_pubsub_broker.Broker.{
  Libraries, Server, PubClient, store_client, publish_to, publish_item, publish_items, publish_set,
  single_chan_publish, publish_found, publish_loop, process_pub_read_buf,
}
use mini_pubsub_broker.Broker.Valid.{LiveIn, IsValid, store_client-IsValid}
use mini_pubsub_broker.Broker.Handlers.{
  Received, received, detached, unavailable, broken, pub_read, pub_ev_handler,
}

module _ (libs : Libraries) (Q : ℕ → Type 0) where
  open libs use {sds, libevent, ght, datrie, iconv}
  open datrie use {State, trie_root}

  publish_to-IsValid :
      (msg : Bytes) (srv : Server libs) (p : ℕ) (o : Option SubClient)
      → IsValid libs Q srv
      → LiveIn libs Q p o
      → Returns (IsValid libs Q) (publish_to libs msg srv p o)
  unfolding publish_to
  publish_to-IsValid msg srv p none v h = tt
  publish_to-IsValid msg srv p (some c) v h =
      Returns-bind Fits (IsValid libs Q) (add_reply_bulk libevent sds c msg)
        (λ c'. ok (store_client libs srv p c')) (add_reply_bulk-Fits libevent sds c msg h.1)
        (λ c' h'. store_client-IsValid libs Q srv p c' v h.0 h')

  publish_item-IsValid :
      (msg : Bytes) (srv : Server libs) (i : Item ℕ)
      → IsValid libs Q srv
      → Returns (IsValid libs Q) (publish_item libs msg srv i)
  unfolding publish_item
  publish_item-IsValid msg srv fake v = tt
  publish_item-IsValid msg srv (item p) v = publish_to-IsValid msg srv p (srv.clients p) v (v.1 p)

  publish_items-IsValid :
      (msg : Bytes) (items : List (Bytes × Item ℕ)) (srv : Server libs)
      → IsValid libs Q srv
      → Returns (IsValid libs Q) (publish_items libs msg srv items)
  unfolding publish_items
  publish_items-IsValid msg [] srv v = v
  publish_items-IsValid msg ((id, i) ∷ items) srv v =
      Returns-bind (IsValid libs Q) (IsValid libs Q) (publish_item libs msg srv i)
        (λ srv'. publish_items libs msg srv' items) (publish_item-IsValid msg srv i v)
        (publish_items-IsValid msg items)

  publish_set-IsValid :
      (msg : Bytes) (srv : Server libs) (hs : Option (Hset ght ℕ))
      → IsValid libs Q srv
      → Returns (IsValid libs Q) (publish_set libs msg srv hs)
  unfolding publish_set
  publish_set-IsValid msg srv none v = v
  publish_set-IsValid msg srv (some hs) v = publish_items-IsValid msg (Hset.hset_items ght hs) srv v

  -- What a search from some point keeps.
  abbrev NextValid : (ℕ → Bytes → State → Server libs → Run (Server libs)) → Type 0
  NextValid next =
      (k : ℕ) (prefix : Bytes) (s : State) (srv : Server libs)
      → IsValid libs Q srv
      → Returns (IsValid libs Q) (next k prefix s srv)

  publish_found-IsValid :
      (next : ℕ → Bytes → State → Server libs → Run (Server libs)) (msg : Bytes) (k : ℕ)
      (prefix : Bytes) (srv : Server libs) (r : Option ℕ × State)
      → NextValid next
      → IsValid libs Q srv
      → Returns (IsValid libs Q) (publish_found libs next msg k prefix srv r)
  unfolding publish_found single_chan_publish
  publish_found-IsValid next msg k prefix srv (none, s) ih v = v
  publish_found-IsValid next msg k prefix srv (some cur, s) ih v =
      let prefix' = set (set prefix k (byte_at msg k)) (cur + 1) 0 in
      let chan = take (cur + 1) prefix' in
      Returns-bind (IsValid libs Q) (IsValid libs Q) (single_chan_publish libs msg srv chan)
        (next (cur + 1) prefix' s)
        (publish_set-IsValid msg srv (ght.ght_get srv.subscibe_table chan) v)
        (ih (cur + 1) prefix' s)

  publish_loop-IsValid :
      (fuel : ℕ) (msg : Bytes) (alpha : List ℕ) → NextValid (publish_loop libs fuel msg alpha)
  unfolding publish_loop
  publish_loop-IsValid zero msg alpha k prefix s srv v = tt
  publish_loop-IsValid (suc fuel) msg alpha k prefix s srv v =
      let m = trie_walker datrie s alpha (length msg) k in
      Returns-bind (λ _. Unit {0}) (IsValid libs Q) m
        (publish_found libs (publish_loop libs fuel msg alpha) msg k prefix srv) (Returns-any m)
        (λ r _.
          publish_found-IsValid (publish_loop libs fuel msg alpha) msg k prefix srv r
            (publish_loop-IsValid fuel msg alpha) v)

  abbrev pub PubValid : Option PubClient × Server libs → Type 0
  PubValid (c, srv) = IsValid libs Q srv

  process_pub_read_buf-IsValid :
      (c : PubClient) (srv : Server libs)
      → IsValid libs Q srv
      → Returns
          (λ (r : PubClient × Server libs). IsValid libs Q r.1)
          (process_pub_read_buf libs c srv)
  unfolding process_pub_read_buf
  process_pub_read_buf-IsValid c srv v =
      let text = c.read_buf in
      let alpha = conv_to_alpha iconv text (length text + 1) in
      Returns-bind (IsValid libs Q) (λ (r : PubClient × Server libs). IsValid libs Q r.1)
        (publish_loop libs (length text + 1) text alpha 0 (text ++ (0 ∷ []))
          (trie_root srv.sub_trie) srv)
        (λ srv'. ok (record c { read_buf = sds.sdsclear text }, srv'))
        (publish_loop-IsValid (length text + 1) text alpha 0 (text ++ (0 ∷ []))
          (trie_root srv.sub_trie) srv v)
        (λ srv' v'. v')

  pub_read-IsValid :
      (srv : Server libs) (c : PubClient) (r : Received)
      → IsValid libs Q srv
      → Returns PubValid (pub_read libs srv c r)
  unfolding pub_read
  pub_read-IsValid srv c unavailable v = v
  pub_read-IsValid srv c broken v = v
  pub_read-IsValid srv c detached v = v
  pub_read-IsValid srv c (received s) v =
      let c0 : PubClient = record c { read_buf = c.read_buf ++ s } in
      Returns-bind (λ (r : PubClient × Server libs). IsValid libs Q r.1) PubValid
        (process_pub_read_buf libs c0 srv) (λ (c', srv'). ok (some c', srv'))
        (process_pub_read_buf-IsValid c0 srv v) (λ r v'. v')

  pub pub_ev_handler-IsValid :
      (srv : Server libs) (c : PubClient) (event : Events) (r : Received)
      → IsValid libs Q srv
      → Returns PubValid (pub_ev_handler libs srv c event r)
  unfolding pub_ev_handler
  pub_ev_handler-IsValid srv c event r v =
      Returns-if PubValid event.ev_read _ _ (λ _. pub_read-IsValid srv c r v) (λ _. v)
