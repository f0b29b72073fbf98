-- ===== src/Tests/Whole.antt =====
-- A subscription, and requests that are refused.
use mini_pubsub_broker.Base.{◌≡◌, refl, [], ◌∷◌, ◌++◌, Bytes, arith, codes, inr, pos}
use mini_pubsub_broker.Libc.{c_string}
use mini_pubsub_broker.Samples.{libs}
use mini_pubsub_broker.Client.{ok}
use mini_pubsub_broker.Protocol.Encode.{encode}
use mini_pubsub_broker.Broker.{ping_command}
use mini_pubsub_broker.Broker.Command.{sub_commands_init, process_sub_read_buf, wrong_arity}
use mini_pubsub_broker.Broker.Command.Ping.{answered}
use mini_pubsub_broker.Broker.Command.Whole.{
  subscribe_reply, unsubscribe_reply, process_sub_read_buf-unsubscribe, subscribe_each, Refused,
  process_sub_read_buf-subscribe, process_sub_read_buf-unknown, process_sub_read_buf-wrong_arity,
}
use mini_pubsub_broker.Tests.Broker.{server}
use mini_pubsub_broker.Tests.Client.{client, client-IsIdle}

abbrev subscribe_request : Bytes
subscribe_request = encode (codes "subscribe" ∷ codes "net" ∷ codes "news" ∷ []) []

process_sub_read_buf-subscribe_example :
    process_sub_read_buf libs server 7 (client subscribe_request)
    ≡ ok (
      subscribe_each libs server 7 [] (codes "net" ∷ codes "news" ∷ []),
      answered (client subscribe_request) ([] ++ subscribe_reply),
    )
unfolding sub_commands_init c_string
process_sub_read_buf-subscribe_example =
    process_sub_read_buf-subscribe libs server 7 (client subscribe_request) (codes "subscribe")
      (codes "net" ∷ codes "news" ∷ []) (codes "subscribe") (client-IsIdle subscribe_request)
      (record { fits = omega arith }) (inr (refl, refl)) refl (omega arith) (omega arith)
      (omega arith, (omega arith, (omega arith, tt))) refl refl (omega arith)

abbrev quit_request : Bytes
quit_request = encode (codes "Quit" ∷ []) []

process_sub_read_buf-unknown_example :
    Refused libs server 7 (client quit_request) (codes "unknown command 'quit'")
unfolding sub_commands_init c_string
process_sub_read_buf-unknown_example =
    process_sub_read_buf-unknown libs server 7 (client quit_request) (codes "Quit") []
      (codes "quit") (client-IsIdle quit_request) (record { fits = omega arith }) (inr (refl, refl))
      refl (omega arith) (omega arith, tt) refl refl (omega arith)

-- A `ping` with an argument.
abbrev long_request : Bytes
long_request = encode (codes "ping" ∷ codes "x" ∷ []) []

process_sub_read_buf-wrong_arity_example :
    Refused libs server 7
      (client long_request)
      (codes "wrong number of arguments for 'ping' command")
unfolding sub_commands_init c_string wrong_arity
process_sub_read_buf-wrong_arity_example =
    process_sub_read_buf-wrong_arity libs server 7 (client long_request) (codes "ping")
      (codes "x" ∷ []) (codes "ping")
      (record { name = codes "ping"; proc = ping_command; arity = pos 1 })
      (client-IsIdle long_request) (record { fits = omega arith }) (inr (refl, refl)) refl
      (omega arith) (omega arith, (omega arith, tt)) refl refl refl (omega arith)

abbrev unsubscribe_request : Bytes
unsubscribe_request = encode (codes "unsubscribe" ∷ codes "net" ∷ []) []

process_sub_read_buf-unsubscribe_example :
    process_sub_read_buf libs server 7 (client unsubscribe_request)
    ≡ ok (server, answered (client unsubscribe_request) ([] ++ unsubscribe_reply))
unfolding sub_commands_init c_string
process_sub_read_buf-unsubscribe_example =
    process_sub_read_buf-unsubscribe libs server 7 (client unsubscribe_request)
      (codes "unsubscribe") (codes "net" ∷ []) (codes "unsubscribe")
      (client-IsIdle unsubscribe_request) (record { fits = omega arith }) (inr (refl, refl)) refl
      (omega arith) (omega arith, (omega arith, tt)) refl refl (omega arith)
