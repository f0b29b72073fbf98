-- ===== src/Broker/Handlers/Invariant.antt =====
-- What the handlers of subscribers keep.
use mathlib.Core.Path.{subst}
use mini_pubsub_broker.Base.{ℕ, ◌+◌, sym, Option, none, some, List, ◌++◌, Bytes, arith}
use mini_pubsub_broker.Client.{ok, SubClient, Events}
use mini_pubsub_broker.Client.Create.{Origin, sub_cli_create, sub_cli_create-created}
use mini_pubsub_broker.Client.Returns.{Returns, Returns-bind, Returns-if, Fits}
use mini_pubsub_broker.Reply.Send.{Written, send_reply_to_subcli}
use mini_pubsub_broker.Reply.Bounds.{SentFits, send_reply_to_subcli-Fits}
use mini_pubsub_broker.Broker.{Libraries, Server}
use mini_pubsub_broker.Broker.Command.{process_sub_read_buf}
use mini_pubsub_broker.Broker.Valid.{
  LiveIn, IsValid, PairFits, store_client-IsValid, sub_cli_release-IsValid,
  process_sub_read_buf-Fits,
}
use mini_pubsub_broker.Broker.Handlers.{
  Received, received, detached, unavailable, broken, keep_sent, keep_read, sub_read, sub_write,
  sub_event, sub_ev_handler, store_created, watch_created, accept_sub_handler, watched,
}

sub_cli_create-Fits : (o : Origin) (fd n : ℕ) → Returns Fits (sub_cli_create o fd n)
sub_cli_create-Fits o fd n =
    let (id, e, _) = sub_cli_create-created o fd n in subst (Returns Fits) (sym e) (omega arith)

-- Connections are accepted at some addresses only.
module _ (libs : Libraries) (Q : ℕ → Type 0) where
  open libs use {sds, libevent, ght, datrie, iconv}
  open datrie use {State, trie_root}

  abbrev pub SubValid : Server libs × Bytes → Type 0
  SubValid (srv, out) = IsValid libs Q srv

  keep_sent-IsValid :
      (srv : Server libs) (p : ℕ) (r : Option SubClient × Bytes)
      → IsValid libs Q srv
      → Q p
      → SentFits r
      → SubValid (keep_sent libs srv p r)
  unfolding keep_sent
  keep_sent-IsValid srv p (none, out) v here h = sub_cli_release-IsValid libs Q srv p v
  keep_sent-IsValid srv p (some c, out) v here h = store_client-IsValid libs Q srv p c v here h

  sub_read-IsValid :
      (srv : Server libs) (p : ℕ) (c : SubClient) (r : Received)
      → IsValid libs Q srv
      → Q p
      → Fits c
      → Returns SubValid (sub_read libs srv p c r)
  unfolding sub_read keep_read
  sub_read-IsValid srv p c unavailable v here h = v
  sub_read-IsValid srv p c broken v here h = sub_cli_release-IsValid libs Q srv p v
  sub_read-IsValid srv p c detached v here h = sub_cli_release-IsValid libs Q srv p v
  sub_read-IsValid srv p c (received s) v here h =
      let c0 : SubClient = record c { read_buf = c.read_buf ++ s } in
      Returns-bind (PairFits libs Q) SubValid (process_sub_read_buf libs srv p c0)
        (λ r. ok (keep_read libs p r)) (process_sub_read_buf-Fits libs Q srv p c0 v here h)
        (λ (srv', c') (v', h'). store_client-IsValid libs Q srv' p c' v' here h')

  sub_write-IsValid :
      (srv : Server libs) (p : ℕ) (c : SubClient) (junk : Written) (ws : List Written)
      → IsValid libs Q srv
      → Q p
      → Fits c
      → Returns SubValid (sub_write libs srv p c junk ws)
  unfolding sub_write
  sub_write-IsValid srv p c junk ws v here h =
      Returns-bind SentFits SubValid (send_reply_to_subcli libevent junk ws c)
        (λ sent. ok (keep_sent libs srv p sent)) (send_reply_to_subcli-Fits libevent junk ws c h)
        (λ r h'. keep_sent-IsValid srv p r v here h')

  sub_event-IsValid :
      (srv : Server libs) (p : ℕ) (event : Events) (r : Received) (junk : Written)
      (ws : List Written) (o : Option SubClient)
      → IsValid libs Q srv
      → LiveIn libs Q p o
      → Returns SubValid (sub_event libs srv p event r junk ws o)
  unfolding sub_event
  sub_event-IsValid srv p event r junk ws none v h = tt
  sub_event-IsValid srv p event r junk ws (some c) v (here, h) =
      Returns-if SubValid event.ev_read _ _ (λ _. sub_read-IsValid srv p c r v here h)
        (λ _.
          Returns-if SubValid event.ev_write _ _ (λ _. sub_write-IsValid srv p c junk ws v here h)
            (λ _. v))

  pub sub_ev_handler-IsValid :
      (srv : Server libs) (p : ℕ) (event : Events) (r : Received) (junk : Written)
      (ws : List Written)
      → IsValid libs Q srv
      → Returns SubValid (sub_ev_handler libs srv p event r junk ws)
  unfolding sub_ev_handler
  sub_ev_handler-IsValid srv p event r junk ws v =
      sub_event-IsValid srv p event r junk ws (srv.clients p) v (v.1 p)

  watch_created-IsValid :
      (srv : Server libs) (cfd p : ℕ) (c : SubClient)
      → IsValid libs Q srv
      → Q p
      → Fits c
      → Returns (IsValid libs Q) (watch_created libs srv cfd p c)
  unfolding watch_created store_created
  watch_created-IsValid srv cfd p c v here h =
      Returns-if (IsValid libs Q) (libevent.event_new cfd watched) _ _
        (λ _. store_client-IsValid libs Q _ p _ v here h) (λ _. tt)

  pub accept_sub_handler-IsValid :
      (srv : Server libs) (cfd : Option ℕ) (p : ℕ) (o : Origin)
      → IsValid libs Q srv
      → Q p
      → Returns (IsValid libs Q) (accept_sub_handler libs srv cfd p o)
  unfolding accept_sub_handler
  accept_sub_handler-IsValid srv none p o v here = v
  accept_sub_handler-IsValid srv (some cfd) p o v here =
      let n = srv.sub_inc_counter + 1 in
      Returns-bind Fits (IsValid libs Q) (sub_cli_create o cfd n)
        (watch_created libs (record srv { sub_inc_counter = n }) cfd p)
        (sub_cli_create-Fits o cfd n) (λ c h. watch_created-IsValid _ cfd p c v here h)
