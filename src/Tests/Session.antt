-- ===== src/Tests/Session.antt =====
-- Sessions of a subscriber and of a publisher on a small server.
use mini_pubsub_broker.Base.{ℕ, ◌≡◌, ◌≢◌, refl, none, some, List, [], ◌∷◌, map, Bytes, arith, codes}
use mini_pubsub_broker.Libc.{c_string}
use mini_pubsub_broker.Samples.{letters, libs}
use mini_pubsub_broker.Client.Create.{Origin}
use mini_pubsub_broker.Client.{ok, ◌>>=◌, SubClient}
use mini_pubsub_broker.Protocol.Encode.{encode}
use mini_pubsub_broker.Protocol.Request.{IsIdle}
use mini_pubsub_broker.Reply.{pong}
use mini_pubsub_broker.Reply.Send.{wrote, total}
use mini_pubsub_broker.Broker.{Server, pub_cli_create}
use mini_pubsub_broker.Broker.Command.{sub_commands_init}
use mini_pubsub_broker.Broker.Handlers.{received, watched}
use mini_pubsub_broker.Broker.Handlers.Session.{session, session-ping}
use mini_pubsub_broker.Broker.Handlers.Messages.{
  read_messages, publish_messages, read_messages-publish_messages,
}
use mini_pubsub_broker.TrieUtil.{conv_to_alpha}
use mini_pubsub_broker.Tests.Client.{client}

abbrev server : Server libs
server = record {
  sub_inc_counter = 41;
  subcli_table = [];
  subscibe_table = [];
  sub_commands = sub_commands_init libs;
  sub_trie = (letters, []);
  clients = λ _. none;
}

abbrev origin : Origin
origin = record { junk = client (codes "junk"); memory = λ i. i; tv_sec = 1700000000; pid = 4242 }

session-ping_example :
    (srv' : Server libs) × (c : SubClient) × (session libs server 5 7 origin
        (received (encode (codes "Ping" ∷ []) []))
        (wrote 0)
        (map wrote (3 ∷ 4 ∷ []))
      ≡ ok (srv', pong))
    × (srv'.clients 7 ≡ some c)
    × IsIdle c
    × (c.read_buf ≡ [])
    × (c.wbuf ≡ [])
    × (c.ev ≡ watched)
    × ((q : ℕ) → q ≢ 7 → srv'.clients q ≡ none)
unfolding sub_commands_init c_string total
session-ping_example =
    session-ping libs server 5 7 origin (codes "Ping") (codes "ping") (wrote 0) 3 (4 ∷ [])
      (λ e. refl) (λ e. refl) refl (omega arith) refl refl (omega arith, (omega arith, tt)) refl

-- Two messages, where the trie holds one channel.
abbrev server_with_channel : Server libs
server_with_channel = record server { sub_trie = (letters, codes "net" ∷ []) }

abbrev messages : List Bytes
messages = codes "network" ∷ codes "net" ∷ []

read_messages-publish_messages_example :
    read_messages libs messages (some (pub_cli_create 9), server_with_channel)
    ≡ publish_messages libs messages server_with_channel >>= λ srv'.
        ok (some (pub_cli_create 9), srv')
unfolding conv_to_alpha c_string
read_messages-publish_messages_example =
    read_messages-publish_messages libs messages server_with_channel 9 (refl, (refl, tt))
