-- ===== src/Tests/Foreign.antt =====
-- A subscription to a channel with a dot in its name.
use mini_pubsub_broker.Base.{◌≡◌, refl, some, [], ◌∷◌, ◌++◌, codes, arith, inr}
use mini_pubsub_broker.Libc.{c_string}
use mini_pubsub_broker.Samples.{libs}
use mini_pubsub_broker.Client.{ok, SubClient}
use mini_pubsub_broker.Reply.{crlf}
use mini_pubsub_broker.Reply.Buffer.{armed, with_wbuf}
use mini_pubsub_broker.TrieUtil.{conv_to_alpha}
use mini_pubsub_broker.Broker.{channel_alpha, subscribe_command}
use mini_pubsub_broker.Broker.Command.{run_proc}
use mini_pubsub_broker.Broker.Foreign.{run_proc-foreign}
use mini_pubsub_broker.Tests.Client.{client}
use mini_pubsub_broker.Tests.Broker.{server}

abbrev subscriber : SubClient
subscriber = record (client []) {
  argc = 2;
  argv = some (codes "subscribe") ∷ some (codes "a.b") ∷ [];
}

run_proc-foreign_example :
    run_proc libs server 7 subscriber subscribe_command
    ≡ ok (server, with_wbuf (armed subscriber) ([] ++ (codes "+subscribe" ++ crlf)))
unfolding channel_alpha conv_to_alpha c_string
run_proc-foreign_example =
    run_proc-foreign libs server 7 subscriber (codes "subscribe") (codes "a.b") (codes "a") b'.'
      (codes "b") (λ a. refl) refl refl refl refl (record { fits = omega arith }) (inr (refl, refl))
      (omega arith)
