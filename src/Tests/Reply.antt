-- ===== src/Tests/Reply.antt =====
-- Replies to a connection, and their way out.
use mini_pubsub_broker.Base.{
  ℕ, ◌≡◌, refl, some, [], ◌∷◌, ◌++◌, map, Bytes, length, replicate, length-replicate, inr, arith,
  codes,
}
use mini_pubsub_broker.Number.Print.{print}
use mini_pubsub_broker.Samples.{sds, libevent}
use mini_pubsub_broker.Client.{ok, SubClient}
use mini_pubsub_broker.Reply.{crlf, add_reply_bulk}
use mini_pubsub_broker.Reply.Buffer.{IsSound, armed, with_wbuf, header, add_reply_bulk-broken}
use mini_pubsub_broker.Reply.Send.{
  wrote, again, send_reply_to_subcli, total, send_reply_to_subcli-again,
}
use mini_pubsub_broker.Tests.Client.{client, client_with}

abbrev empty : SubClient
empty = client []

empty-IsSound : IsSound empty
empty-IsSound = omega arith

-- A write buffer with twelve bytes of room.
full_buf : Bytes
full_buf = replicate 16372 0

length-full_buf : length full_buf ≡ 16372
unfolding full_buf
length-full_buf = length-replicate {A = ℕ} 16372 0

abbrev full : SubClient
full = client_with [] full_buf

full-IsSound : IsSound full
full-IsSound = record { fits = omega (arith, length-full_buf) }

add_reply_bulk-broken_example :
    add_reply_bulk libevent sds full (codes "newspaper")
    ≡ ok (with_wbuf (armed full) (full_buf ++ (header (codes "newspaper") ++ crlf)))
unfolding header print
add_reply_bulk-broken_example =
    add_reply_bulk-broken libevent sds full (codes "newspaper") full-IsSound (inr (refl, refl))
      (omega (arith, length-full_buf)) (omega (arith, length-full_buf))

send_reply_to_subcli-again_example :
    send_reply_to_subcli libevent again
      (map wrote (2 ∷ []) ++ again ∷ [])
      (client_with [] (codes "+PONG"))
    ≡ ok (some (client_with [] (codes "+PONG")), codes "+P")
unfolding total
send_reply_to_subcli-again_example =
    send_reply_to_subcli-again libevent again (2 ∷ []) [] (client_with [] (codes "+PONG"))
      (omega arith, tt) (omega arith)
