-- ===== src/Tests/Broker.antt =====
-- Commands, subscriptions and publications on a small server.
use mini_pubsub_broker.Base.{
  ℕ, ◌≡◌, refl, none, some, [], ◌∷◌, ◌++◌, Bytes, inr, arith, codes, ◌==◌, if◌then◌else◌,
}
use mini_pubsub_broker.Number.Print.{print}
use mini_pubsub_broker.Libc.{c_string}
use mini_pubsub_broker.Samples.{letters, libs}
use mini_pubsub_broker.Samples.Tables.{ght}
use mini_pubsub_broker.Client.{ok, fault, ◌>>=◌, subcli_ok}
use mini_pubsub_broker.Hset
use mini_pubsub_broker.Hset.{Hset, item}
use mini_pubsub_broker.Protocol.Encode.{encode, encode_args}
use mini_pubsub_broker.Protocol.Partial.{encode_part, part_held}
use mini_pubsub_broker.Broker.Command.Part.{process_sub_read_buf-part}
use mini_pubsub_broker.Protocol.Pipeline.{multibulk}
use mini_pubsub_broker.Reply.{pong}
use mini_pubsub_broker.TrieUtil.{conv_to_alpha}
use mini_pubsub_broker.Broker.{
  PubClient, Server, sub_cli_release, channel_alpha, subscribe_channel, single_chan_publish,
  process_pub_read_buf,
}
use mini_pubsub_broker.Broker.Command.{
  sub_commands_init, process_command, reset_after, process_sub_read_buf,
}
use mini_pubsub_broker.Broker.Command.Ping.{answered, process_sub_read_buf-ping}
use mini_pubsub_broker.Broker.Subscribe.{
  TakesChannel, subscribe_channel-second, single_chan_publish-released,
}
use mini_pubsub_broker.Broker.Publish.{publish_all, channels_of, process_pub_read_buf-channels_of}
use mini_pubsub_broker.Tests.Client.{client, client-IsIdle}

-- One connection, at address 7, and no subscription.
abbrev pub server : Server libs
server = record {
  sub_inc_counter = 0;
  subcli_table = [];
  subscibe_table = [];
  sub_commands = sub_commands_init libs;
  sub_trie = (letters, []);
  clients = λ q. if q == 7 then some (client []) else none;
}

abbrev ping_request : Bytes
ping_request = encode (codes "PING" ∷ []) []

process_sub_read_buf-ping_example :
    process_sub_read_buf libs server 7 (client ping_request)
    ≡ ok (server, answered (client ping_request) ([] ++ pong))
unfolding sub_commands_init c_string
process_sub_read_buf-ping_example =
    process_sub_read_buf-ping libs server 7 (client ping_request) (codes "PING") (codes "ping")
      (client-IsIdle ping_request) (omega arith) (inr (refl, refl)) refl (omega arith) refl refl
      (omega arith)

-- Of `subscribe net` only the name of the command has come.
abbrev first_part : Bytes
first_part = encode_part 2 (codes "subscribe" ∷ [])

process_sub_read_buf-part_example : process_sub_read_buf libs server 7 (client first_part) ≡ (
    process_command libs server 7
      (part_held (multibulk (client first_part)) (codes "subscribe" ∷ []) 0)
    >>= reset_after libs)
unfolding print encode_args
process_sub_read_buf-part_example =
    process_sub_read_buf-part libs server 7 (client first_part) (codes "subscribe" ∷ []) 0
      (client-IsIdle first_part) refl (omega arith) (omega arith) (omega arith) (omega arith, tt)

takes_net : TakesChannel libs server 7 (codes "id1") (codes "net") (letters, codes "net" ∷ [])
unfolding channel_alpha conv_to_alpha c_string Hset.hset_insert Hset.hset_create
takes_net = record { absent = refl; stored = refl; in_set = refl; in_table = refl }

subscribe_channel-second_example :
    let srv = (subscribe_channel libs server 7 (codes "id1") (codes "net")).1 in
    let (status, srv') = subscribe_channel libs srv 8 (codes "id2") (codes "net") in
    (hs : Hset ght ℕ) × (status ≡ subcli_ok)
    × (ght.ght_get srv'.subscibe_table (codes "net") ≡ some hs)
    × (Hset.hset_items ght hs ≡ (codes "id1", item 7) ∷ [])
subscribe_channel-second_example =
    subscribe_channel-second libs server 7 (codes "id1") (codes "net") (letters, codes "net" ∷ [])
      takes_net 8 (codes "id2")

single_chan_publish-released_example :
    let srv =
      sub_cli_release libs (subscribe_channel libs server 7 (codes "id1") (codes "net")).1 7 in
    single_chan_publish libs (codes "netnews") srv (codes "net") ≡ fault
single_chan_publish-released_example =
    single_chan_publish-released libs server 7 (codes "id1") (codes "net")
      (letters, codes "net" ∷ []) takes_net (codes "netnews")

abbrev publisher : PubClient
publisher = record { fd = 9; read_buf = codes "netnews"; write_buf = [] }

-- A server whose trie holds the empty channel and two others.
abbrev three_channels : Server libs
three_channels = record server { sub_trie = (letters, [] ∷ codes "net" ∷ codes "zoo" ∷ []) }

process_pub_read_buf-channels_of_example : process_pub_read_buf libs publisher three_channels ≡ (
    publish_all libs
      (codes "netnews")
      three_channels
      (channels_of libs three_channels.sub_trie (codes "netnews"))
    >>= λ srv. ok (record publisher { read_buf = [] }, srv))
unfolding conv_to_alpha c_string
process_pub_read_buf-channels_of_example =
    process_pub_read_buf-channels_of libs publisher three_channels refl

channels_of_network :
    channels_of libs (letters, codes "n" ∷ codes "net" ∷ codes "zoo" ∷ []) (codes "network")
    ≡ codes "n" ∷ codes "net" ∷ []
unfolding channels_of
channels_of_network = refl

channels_of_three : channels_of libs three_channels.sub_trie (codes "netnews") ≡ codes "net" ∷ []
unfolding channels_of
channels_of_three = refl
