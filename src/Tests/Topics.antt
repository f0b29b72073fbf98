-- ===== src/Tests/Topics.antt =====
-- A subscriber of `n` and of `net`, and a message that begins with both.
use mini_pubsub_broker.Base.{◌≡◌, refl, some, [], ◌∷◌, ◌++◌, codes, inr, arith}
use mini_pubsub_broker.Number.Print.{print}
use mini_pubsub_broker.Libc.{c_string}
use mini_pubsub_broker.Samples.{libs}
use mini_pubsub_broker.Client.{ok, SubClient}
use mini_pubsub_broker.Reply.Buffer.{header}
use mini_pubsub_broker.Hset
use mini_pubsub_broker.TrieUtil.{conv_to_alpha}
use mini_pubsub_broker.Broker.{
  Server, PubClient, channel_alpha, subscribe_channel, process_pub_read_buf,
}
use mini_pubsub_broker.Broker.Subscribe.{first_set}
use mini_pubsub_broker.Broker.Publish.{channels_of}
use mini_pubsub_broker.Broker.Command.Whole.{subscribe_each}
use mini_pubsub_broker.Broker.Topics.{AllOnly, bulk_of, times, process_pub_read_buf-times}
use mini_pubsub_broker.Tests.Client.{client}
use mini_pubsub_broker.Tests.Broker.{server}

abbrev told : Server libs
told = subscribe_each libs server 7 (codes "id1") (codes "n" ∷ codes "net" ∷ [])

abbrev publisher : PubClient
publisher = record { fd = 9; read_buf = codes "network"; write_buf = [] }

all_only : AllOnly libs told 7 (codes "id1") (channels_of libs told.sub_trie (codes "network"))
unfolding subscribe_each subscribe_channel channel_alpha conv_to_alpha c_string Hset.hset_items
    channels_of Hset.hset_insert Hset.hset_create
all_only = (
  (first_set libs 7 (codes "id1"), refl, refl),
  ((first_set libs 7 (codes "id1"), refl, refl), tt),
)

process_pub_read_buf-times_example :
    (srv' : Server libs) × (c' : SubClient) × (process_pub_read_buf libs publisher told
      ≡ ok (record publisher { read_buf = [] }, srv'))
    × (srv'.clients 7 ≡ some c')
    × (c'.wbuf ≡ [] ++ times 2 (bulk_of (codes "network")))
unfolding subscribe_each subscribe_channel channel_alpha conv_to_alpha c_string channels_of header
    print
process_pub_read_buf-times_example =
    process_pub_read_buf-times libs publisher told 7 (codes "id1") (client []) refl refl all_only
      (record { fits = omega arith }) (inr (refl, refl)) (omega arith)
