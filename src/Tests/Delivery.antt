-- ===== src/Tests/Delivery.antt =====
-- A subscription and a message behind a start, at concrete libraries.
use mini_pubsub_broker.Base.{
  ◌≡◌, refl, true, Option, none, some, List, [], ◌∷◌, ◌++◌, map, Bytes, arith, codes,
}
use mini_pubsub_broker.Libc.{c_string}
use mini_pubsub_broker.Number.Print.{print}
use mini_pubsub_broker.Samples.{libs, letters}
use mini_pubsub_broker.Samples.Tables.{ght, add_new}
use mini_pubsub_broker.Samples.Tries.{SampleTrie, datrie}
use mini_pubsub_broker.Client.{ok}
use mini_pubsub_broker.Client.Create.{Origin}
use mini_pubsub_broker.Reply.{crlf}
use mini_pubsub_broker.Reply.Buffer.{header}
use mini_pubsub_broker.Reply.Send.{wrote, total}
use mini_pubsub_broker.Protocol.Encode.{encode}
use mini_pubsub_broker.Config.{default_settings}
use mini_pubsub_broker.Ght.{inserted, HasRoom}
use mini_pubsub_broker.TrieUtil.{conv_to_alpha}
use mini_pubsub_broker.TrieUtil.Alphabet.{HasLetters}
use mini_pubsub_broker.Broker.{Server, channel_alpha}
use mini_pubsub_broker.Broker.Command.Whole.{subscribe_reply}
use mini_pubsub_broker.Broker.Handlers.Delivery.{delivery}
use mini_pubsub_broker.Startup.{running, Broker, start}
use mini_pubsub_broker.Startup.Delivery.{start-delivers}
use mini_pubsub_broker.Tests.Client.{client}
use mini_pubsub_broker.Tests.Startup.{calls, net_3, net_4, prepared_no_options, serves}

add_new-inserted :
    {V : Type 0} (t : List (Bytes × V)) (v : V) (k : Bytes) (o : Option V)
    → o ≡ none
    → (add_new t v k o).0 ≡ inserted
add_new-inserted t v k none h = refl
add_new-inserted t v k (some w) h = cc

pub has_room : HasRoom ght
has_room V t v k h = add_new-inserted t v k (ght.ght_get t k) h

pub stores_net :
    (u : SampleTrie)
    → HasLetters datrie u
    → (u' : SampleTrie) × (datrie.trie_store u (codes "net") ≡ some u')
stores_net u h = ((u.0, codes "net" ∷ u.1), rw (h 110, h 101, h 116) refl)

abbrev origin : Origin
origin = record { junk = client []; memory = λ i. i; tv_sec = 1700000000; pid = 4242 }

abbrev sent : Bytes
sent = subscribe_reply ++ (header (codes "network") ++ (codes "network" ++ crlf))

start-delivers_example :
    (b : Broker (calls true)) × (srv : Server libs) × (srv' : Server libs) × (start (calls true) []
      ≡ running b)
    × (b.server ≡ some srv)
    × (delivery libs srv 9 7 origin 10
          (encode (codes "Subscribe" ∷ codes "net" ∷ []) [])
          (codes "network")
          (wrote 0)
          (map wrote (20 ∷ 5 ∷ []))
        ≡ ok (srv', sent))
unfolding conv_to_alpha channel_alpha c_string total header print
start-delivers_example =
    start-delivers (calls true) [] default_settings default_settings 3 4 net_3 net_4 (letters, []) 9
      7 10 origin (codes "Subscribe") (codes "net") (codes "work") (wrote 0) 20 (5 ∷ [])
      (prepared_no_options true) serves has_room stores_net (λ e. refl) (λ e. refl) refl
      (omega arith) (omega arith) refl refl (omega arith) refl (omega arith)
      (omega arith, (omega arith, tt)) refl
