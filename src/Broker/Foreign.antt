-- ===== src/Broker/Foreign.antt =====
-- A channel whose name is not a word of letters.
use mini_pubsub_broker.Base.{
  ℕ, ◌+◌, ◌≤◌, ◌≡◌, ap, ◌∙◌, false, some, List, [], ◌∷◌, ◌++◌, Bytes, length, codes,
}
use mini_pubsub_broker.Client.{ok, subcli_err, SubClient, sub_write_buf_len}
use mini_pubsub_broker.Reply.{crlf}
use mini_pubsub_broker.Reply.Buffer.{IsSound, CanWrite, armed, with_wbuf}
use mini_pubsub_broker.TrieUtil.Alphabet.{is_letter, HasLetters}
use mini_pubsub_broker.Broker.{
  Libraries, Server, subscribe_command, channel_alpha, subscribe_channel, new_channel,
}
use mini_pubsub_broker.Broker.Command.{run_proc}
use mini_pubsub_broker.Broker.Command.Whole.{subscribe_each, subscribe_reply, run_proc-subscribe}

module _ (libs : Libraries) where
  open libs use {libevent, datrie}

  subscribe_channel-foreign :
      (srv : Server libs) (p : ℕ) (id channel : Bytes) (w : List ℕ) (a : ℕ) (r : List ℕ)
      → HasLetters datrie srv.sub_trie
      → channel_alpha libs channel ≡ w ++ (a ∷ r)
      → is_letter a ≡ false
      → subscribe_channel libs srv p id channel ≡ (subcli_err, srv)
  unfolding subscribe_channel new_channel
  subscribe_channel-foreign srv p id channel w a r letters e foreign = rw (
    e,
    datrie.retrieve-foreign srv.sub_trie w a r (letters a ∙ foreign),
    datrie.store-foreign srv.sub_trie w a r (letters a ∙ foreign),
  )

  -- Where the alphabet of the trie is a to z and A to Z, a subscription to one channel whose name
  -- holds some other character, as a digit or a dot, changes nothing, and the subscriber is told
  -- `+subscribe`, if the reply has room and libevent agrees to watch the socket.
  pub run_proc-foreign :
      (srv : Server libs) (p : ℕ) (c : SubClient) (name channel : Bytes) (w : List ℕ) (a : ℕ)
      (r : List ℕ)
      → HasLetters datrie srv.sub_trie
      → channel_alpha libs channel ≡ w ++ (a ∷ r)
      → is_letter a ≡ false
      → c.argv ≡ some name ∷ some channel ∷ []
      → c.argc ≡ 2
      → IsSound c
      → CanWrite libevent c
      → length c.wbuf + 12 ≤ sub_write_buf_len
      → run_proc libs srv p c subscribe_command
        ≡ ok (srv, with_wbuf (armed c) (c.wbuf ++ (codes "+subscribe" ++ crlf)))
  unfolding subscribe_each
  run_proc-foreign srv p c name channel w a r letters e foreign ev en sound h room =
      run_proc-subscribe libs srv p c name (channel ∷ []) ev en sound h room
      ∙ ap (λ x. ok (x.1, with_wbuf (armed c) (c.wbuf ++ subscribe_reply)))
          (subscribe_channel-foreign srv p c.id channel w a r letters e foreign)
