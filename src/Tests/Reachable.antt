-- ===== src/Tests/Reachable.antt =====
-- A start, an accepted subscriber, and the end of its stream.
use mini_pubsub_broker.Base.{
  ℕ, ◌≡◌, refl, ap, sym, ◌∙◌, true, some, List, [], ◌∷◌, Bytes, codes, inr, arith,
}
use mini_pubsub_broker.Samples.{libs, letters}
use mini_pubsub_broker.Samples.Tries.{SampleTrie}
use mini_pubsub_broker.Reply.Send.{wrote}
use mini_pubsub_broker.Config.{default_settings}
use mini_pubsub_broker.Broker.{
  Server, SubCommand, channel_alpha, pub_cli_create, sub_cli_release, store_client,
}
use mini_pubsub_broker.Broker.Valid.{IsValid}
use mini_pubsub_broker.Broker.Handlers.{
  store_created, accept_sub_handler, sub_ev_handler, pub_ev_handler, watched, detached, received,
}
use mini_pubsub_broker.Broker.Handlers.Session.{
  readable, accepted, accept_sub_handler-accepted, clients-accepted, connection,
  clients-store_client, tables-accepted, sub_commands-accepted,
}
use mini_pubsub_broker.Broker.Handlers.Joining.{
  Takes, TakesChannel-tables, sub_ev_handler-subscribe,
}
use mini_pubsub_broker.Startup.Delivery.{Begins-Takes, get-sub_commands_init}
use mini_pubsub_broker.Tests.Delivery.{has_room, stores_net}
use mini_pubsub_broker.Broker.Command.Ping.{answered}
use mini_pubsub_broker.Broker.Command.Whole.{subscribe_reply}
use mini_pubsub_broker.Broker.Subscribe.{TakesChannel, subscribed}
use mini_pubsub_broker.Protocol.Encode.{encode}
use mini_pubsub_broker.Broker.Handlers.Live.{IsLive}
use mini_pubsub_broker.TrieUtil.{conv_to_alpha}
use mini_pubsub_broker.Libc.{c_string}
use mathlib.Core.Path.{subst}
use mini_pubsub_broker.Client.{ok, SubClient}
use mini_pubsub_broker.Client.Create.{Origin}
use mini_pubsub_broker.Broker.Handlers.Reach.{Reach, here, next, sub_ready, sub_accepted}
use mini_pubsub_broker.Startup.{Broker, running, start}
use mini_pubsub_broker.Startup.Serving.{Begins, start-Begins}
use mini_pubsub_broker.Startup.Reachable.{start-IsValid, start-publishes}
use mini_pubsub_broker.Tests.Client.{client}
use mini_pubsub_broker.Tests.Startup.{calls, net_3, net_4, prepared_no_options, serves}

abbrev begun :
    (b : Broker (calls true)) × (start (calls true) [] ≡ running b)
    × Begins (calls true) default_settings 3 4 net_4 b
begun =
    start-Begins (calls true) [] default_settings default_settings 3 4 net_3 net_4 (letters, [])
      (prepared_no_options true) serves

abbrev origin : Origin
origin = record { junk = client []; memory = λ i. i; tv_sec = 1700000000; pid = 4242 }

abbrev accepting :
    (id : Bytes) × (accept_sub_handler libs begun.2.server (some 9) 7 origin
      ≡ ok (accepted libs begun.2.server 9 7 origin id))
accepting = accept_sub_handler-accepted libs begun.2.server 9 7 origin refl

abbrev connected : Server libs
connected = accepted libs begun.2.server 9 7 origin accepting.0

reached : Reach libs (λ q. q ≡ 7) begun.2.server (sub_cli_release libs connected 7)
unfolding sub_ev_handler store_created store_client
reached =
    next (next here (sub_accepted (some 9) 7 origin refl accepting.1))
      (sub_ready 7 watched detached (wrote 0) [] [] refl)

start-IsValid_example : IsValid libs (λ q. q ≡ 7) (sub_cli_release libs connected 7)
start-IsValid_example =
    start-IsValid (calls true) (λ q. q ≡ 7) [] begun.0 begun.2.server
      (sub_cli_release libs connected 7) begun.1 begun.2.has_server reached

-- The connection subscribes, and a message comes to its channel.
abbrev c : SubClient
c = connection libs origin 9 accepting.0

own_net : channel_alpha libs (codes "net") ≡ codes "net"
unfolding channel_alpha conv_to_alpha c_string
own_net = refl

abbrev taken :
    Takes libs begun.2.server 7 (codes "net") (stores_net begun.2.server.sub_trie begun.2.letters).0
taken =
    Begins-Takes (calls true) default_settings 3 4 net_4 begun.0 7 (codes "net") begun.2 has_room
      stores_net own_net

abbrev with_net : SampleTrie
with_net = (stores_net begun.2.server.sub_trie begun.2.letters).0

abbrev takes_net : TakesChannel libs connected 7 c.id (codes "net") with_net
takes_net =
    let (same_trie, same_table) = tables-accepted libs begun.2.server 9 7 origin accepting.0 in
    TakesChannel-tables libs begun.2.server connected 7 c.id (codes "net") with_net same_trie
      same_table (taken.1 c.id)

abbrev told : Server libs
told =
    store_client libs (subscribed libs connected 7 c.id (codes "net") with_net takes_net) 7
      (answered c subscribe_reply)

subscribing :
    sub_ev_handler libs connected 7 readable
      (received (encode (codes "subscribe" ∷ codes "net" ∷ []) []))
      (wrote 0)
      []
    ≡ ok (told, [])
unfolding c_string
subscribing =
    sub_ev_handler-subscribe libs connected 7 c (codes "subscribe") (codes "subscribe")
      (codes "net") with_net (wrote 0) takes_net
      (clients-accepted libs begun.2.server 9 7 origin accepting.0) refl
      (record { no_args = refl; no_count = refl; no_length = refl }) (record { fits = omega arith })
      (inr (refl, refl)) (omega arith) (omega arith) refl
      (ap (λ (table : List (Bytes × SubCommand)). libs.ght.ght_get table (codes "subscribe"))
          (sub_commands-accepted libs begun.2.server 9 7 origin accepting.0 ∙ begun.2.commands)
        ∙ get-sub_commands_init libs has_room)
      (omega arith)

live : (q : ℕ) → q ≡ 7 → IsLive (told.clients q)
live q h =
    subst (λ k. IsLive (told.clients k)) (sym h)
      (subst IsLive (sym (clients-store_client libs _ 7 (answered c subscribe_reply))) tt)

start-publishes_example :
    (srv' : Server libs) × (pub_ev_handler libs told
        (pub_cli_create 10)
        readable
        (received (codes "network"))
      ≡ ok (some (pub_cli_create 10), srv'))
    × ((q : ℕ) → q ≡ 7 → IsLive (srv'.clients q))
unfolding conv_to_alpha c_string
start-publishes_example =
    start-publishes (calls true) (λ q. q ≡ 7) [] begun.0 begun.2.server told 10 (codes "network")
      (λ fd e. refl) begun.1 begun.2.has_server
      (next (next here (sub_accepted (some 9) 7 origin refl accepting.1)) (
        sub_ready 7 readable (received (encode (codes "subscribe" ∷ codes "net" ∷ []) [])) (wrote 0)
          [] [] subscribing))
      live refl
