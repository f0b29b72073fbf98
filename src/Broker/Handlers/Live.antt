-- ===== src/Broker/Handlers/Live.antt =====
-- Publication where every connection in the sets of the channels is live.
use mini_pubsub_broker.Base.{
  ℕ, ◌+◌, ◌≡◌, ap, ◌∙◌, sym, true, Option, none, some, List, [], ◌∷◌, ◌++◌, Bytes, length, ◌==◌,
}
use mathlib.Core.Bool.{true≢false}
use mini_pubsub_broker.Client.{ok, ◌>>=◌, Status, subcli_ok, subcli_err, Events, SubClient}
use mini_pubsub_broker.Client.Returns.{Any, Gives, Gives-bind, Gives-if, of_Gives, if_both}
use mini_pubsub_broker.Reply.{
  crlf, subcli_event_update, prepare_to_write, add_prepared, add_reply, add_reply_bulklen,
  add_reply_bulk,
}
use mini_pubsub_broker.TrieUtil.{conv_to_alpha}
use mini_pubsub_broker.Hset
use mini_pubsub_broker.Hset.{Hset, Item, fake, item}
use mini_pubsub_broker.Broker.{
  Libraries, Server, pub_cli_create, store_client, publish_to, publish_item, publish_items,
  publish_set, single_chan_publish,
}
use mini_pubsub_broker.Broker.Linked.{AllIn, SetIn, SetsIn}
use mini_pubsub_broker.Broker.Publish.{publish_all, channels_of}
use mini_pubsub_broker.Broker.Handlers.{received, pub_ev_handler}
use mini_pubsub_broker.Broker.Handlers.Session.{readable}
use mini_pubsub_broker.Broker.Handlers.Messages.{pub_ev_handler-received}

-- A connection that is there.
abbrev pub IsLive : Option SubClient → Type 0
IsLive none = ⊥
IsLive (some c) = Unit {0}

module _ (libs : Libraries)
    (events : (fd : ℕ) (e : Events) → libs.libevent.event_new fd e ≡ true) where
  open libs use {sds, libevent, ght}

  -- A reply comes to an end where libevent makes its events.
  add_prepared-Gives :
      (s : Bytes) (len : ℕ) (r : Status × SubClient) → Gives Any (add_prepared libevent s len r)
  unfolding add_prepared
  add_prepared-Gives s len (subcli_err, c) = tt
  add_prepared-Gives s len (subcli_ok, c) = tt

  subcli_event_update-Gives :
      (c : SubClient) (event : Events) → Gives Any (subcli_event_update libevent c event)
  unfolding subcli_event_update
  subcli_event_update-Gives c event =
      Gives-if {A = Status × SubClient} Any (libevent.event_new c.fd event) _ _
        (λ _.
          Gives-if {A = Status × SubClient} Any (libevent.event_add c.fd event) _ _ (λ _. tt)
            (λ _. tt))
        (λ none_made. absurd (true≢false (sym (events c.fd event) ∙ none_made)))

  prepare_to_write-Gives : (c : SubClient) → Gives Any (prepare_to_write libevent c)
  unfolding prepare_to_write
  prepare_to_write-Gives c =
      Gives-if {A = Status × SubClient} Any c.ev.ev_write _ _ (λ _. tt)
        (λ _. subcli_event_update-Gives c _)

  add_reply-Gives : (c : SubClient) (s : Bytes) → Gives Any (add_reply libevent c s)
  unfolding add_reply
  add_reply-Gives c s =
      Gives-bind Any Any (prepare_to_write libevent c) (add_prepared libevent s (length s))
        (prepare_to_write-Gives c) (λ r _. add_prepared-Gives s (length s) r)

  add_reply_bulk-Gives :
      (c : SubClient) (msg : Bytes) → Gives Any (add_reply_bulk libevent sds c msg)
  unfolding add_reply_bulk add_reply_bulklen
  add_reply_bulk-Gives c msg =
      Gives-bind Any Any _ _ (add_reply-Gives c _) (λ c' _.
        Gives-bind Any Any _ _ (add_reply-Gives c' msg) (λ c'' _. add_reply-Gives c'' crlf))

  module _ (Q : ℕ → Type 0) where
    -- A connection is live at each of some addresses, and the sets hold no other ones.
    abbrev pub IsOpen : Server libs → Type 0
    IsOpen srv = ((q : ℕ) → Q q → IsLive (srv.clients q)) × SetsIn libs Q srv.subscibe_table

    store_client-IsOpen :
        (srv : Server libs) (p : ℕ) (c : SubClient)
        → IsOpen srv
        → IsOpen (store_client libs srv p c)
    unfolding store_client
    store_client-IsOpen srv p c open_srv = (
      λ q among. if_both IsLive (q == p) (some c) (srv.clients q) tt (open_srv.0 q among),
      open_srv.1,
    )

    publish_to-IsOpen :
        (msg : Bytes) (srv : Server libs) (p : ℕ) (o : Option SubClient)
        → IsOpen srv
        → IsLive o
        → Gives IsOpen (publish_to libs msg srv p o)
    unfolding publish_to
    publish_to-IsOpen msg srv p none h live = absurd live
    publish_to-IsOpen msg srv p (some c) h live =
        Gives-bind Any IsOpen (add_reply_bulk libevent sds c msg)
          (λ c'. ok (store_client libs srv p c')) (add_reply_bulk-Gives c msg)
          (λ c' _. store_client-IsOpen srv p c' h)

    publish_items-IsOpen :
        (msg : Bytes) (items : List (Bytes × Item ℕ)) (srv : Server libs)
        → IsOpen srv
        → AllIn libs Q items
        → Gives IsOpen (publish_items libs msg srv items)
    unfolding publish_items publish_item
    publish_items-IsOpen msg [] srv h all = h
    publish_items-IsOpen msg ((id, fake) ∷ items) srv h all = absurd all.0
    publish_items-IsOpen msg ((id, item p) ∷ items) srv h all =
        Gives-bind IsOpen IsOpen (publish_to libs msg srv p (srv.clients p))
          (λ srv'. publish_items libs msg srv' items)
          (publish_to-IsOpen msg srv p (srv.clients p) h (h.0 p all.0))
          (λ srv' h'. publish_items-IsOpen msg items srv' h' all.1)

    publish_set-IsOpen :
        (msg : Bytes) (srv : Server libs) (hs : Option (Hset ght ℕ))
        → IsOpen srv
        → SetIn libs Q hs
        → Gives IsOpen (publish_set libs msg srv hs)
    unfolding publish_set
    publish_set-IsOpen msg srv none h all = h
    publish_set-IsOpen msg srv (some hs) h all =
        publish_items-IsOpen msg (Hset.hset_items ght hs) srv h all

    publish_all-IsOpen :
        (msg : Bytes) (channels : List Bytes) (srv : Server libs)
        → IsOpen srv
        → Gives IsOpen (publish_all libs msg srv channels)
    unfolding publish_all single_chan_publish
    publish_all-IsOpen msg [] srv h = h
    publish_all-IsOpen msg (channel ∷ channels) srv h =
        Gives-bind IsOpen IsOpen (single_chan_publish libs msg srv channel)
          (λ srv'. publish_all libs msg srv' channels)
          (publish_set-IsOpen msg srv (ght.ght_get srv.subscibe_table channel) h (h.1 channel))
          (publish_all-IsOpen msg channels)

    -- A message of a new publisher is published where the connections are live.
    pub pub_ev_handler-IsOpen :
        (srv : Server libs) (cfd : ℕ) (msg : Bytes)
        → IsOpen srv
        → conv_to_alpha libs.iconv msg (length msg + 1) ≡ msg ++ (0 ∷ [])
        → (srv' : Server libs) × (pub_ev_handler libs srv
              (pub_cli_create cfd)
              readable
              (received msg)
            ≡ ok (some (pub_cli_create cfd), srv'))
          × IsOpen srv'
    pub_ev_handler-IsOpen srv cfd msg h plain =
        let chans = channels_of libs srv.sub_trie msg in
        let (srv', e, h') =
          of_Gives IsOpen (publish_all libs msg srv chans) (publish_all-IsOpen msg chans srv h) in
        (
          srv',
          pub_ev_handler-received libs srv cfd msg plain
              ∙ ap (λ r. r >>= λ srv'. ok (some (pub_cli_create cfd), srv')) e,
          h',
        )
