-- ===== src/Broker/Valid.antt =====
-- What a request keeps: the keys of the trie are words of letters, the sets of the channels hold
-- addresses of connections, and no write buffer passes the end of its array.
use mini_pubsub_broker.Base.{
  ℕ, zero, suc, ◌+◌, ◌-◌, ◌≡◌, refl, sym, Bool, Bool-cases, inl, inr, arith, true, false, Option,
  none, some, List, [], ◌∷◌, Bytes, length, drop, ltb, get_elem?, ◌==◌, if◌then◌else◌, codes,
}
use mathlib.Core.Path.{subst}
use mini_pubsub_broker.Libc.{c_string}
use mini_pubsub_broker.Client.{
  Run, ok, ◌>>=◌, Status, SubClient, reset_client, free_args, free_client_argv,
}
use mini_pubsub_broker.Client.Returns.{
  Returns, Returns-bind, Returns-if, Returns-any, if_both, Fits,
}
use mini_pubsub_broker.Protocol.ReadLoop.{read_loop}
use mini_pubsub_broker.Protocol.KeepsReplies.{read_loop-Fits}
use mini_pubsub_broker.Reply.{pong, crlf, add_reply, add_reply_string}
use mini_pubsub_broker.Broker.Linked.{SetsIn, ght_insert-first_set}
use mini_pubsub_broker.Reply.Bounds.{
  add_reply-Fits, add_reply_string-Fits, add_reply_error_fmt-Fits,
}
use mini_pubsub_broker.Ght.{Insert, inserted, exists, no_memory}
use mini_pubsub_broker.Hset.{Hset}
use mini_pubsub_broker.TrieUtil.Alphabet.{HasLetters, trie_store-HasLetters}
use mini_pubsub_broker.Broker.{
  Libraries, Server, store_client, sub_cli_release, channel_alpha, add_channel, new_channel,
  subscribe_channel, subscribe_all, Proc, ping_command, subscribe_command, unsubscribe_command,
  SubCommand,
}
use mini_pubsub_broker.Broker.Command.{
  wrong_arity, run_proc, run_command, command_of, process_command, reset_after, run_requested,
  process_sub_read_buf,
}

-- What holds at two addresses that are told apart.
if_same : (P : Bool → Type 0) (q p : ℕ) → (q ≡ p → P true) → P false → P (q == p)
if_same P q p f g = elim (Bool-cases (q == p)) [
  | inl e ↦ subst P (sym e) (f (ground arith))
  | inr e ↦ subst P (sym e) g
]

module _ (libs : Libraries) (Q : ℕ → Type 0) where
  open libs use {sds, libevent, ght, datrie, iconv}

  -- A live connection has its address among some, and a write buffer within its array.
  abbrev pub LiveIn : ℕ → Option SubClient → Type 0
  LiveIn q none = Unit {0}
  LiveIn q (some c) = Q q × Fits c

  -- The keys of the trie are words of letters, and the live connections and those in the sets of
  -- the channels are at some addresses.
  abbrev pub IsValid : Server libs → Type 0
  IsValid srv =
      HasLetters datrie srv.sub_trie
      × ((q : ℕ) → LiveIn q (srv.clients q))
      × SetsIn libs Q srv.subscibe_table

  abbrev pub PairFits : Server libs × SubClient → Type 0
  PairFits (srv, c) = IsValid srv × Fits c

  pub store_client-IsValid :
      (srv : Server libs) (p : ℕ) (c : SubClient)
      → IsValid srv
      → Q p
      → Fits c
      → IsValid (store_client libs srv p c)
  unfolding store_client
  store_client-IsValid srv p c v here h = (
    v.0,
    λ q.
        if_same (λ x. LiveIn q (if x then some c else srv.clients q)) q p
          (λ e. (subst Q (sym e) here, h)) (v.1 q),
    v.2,
  )

  pub sub_cli_release-IsValid :
      (srv : Server libs) (p : ℕ) → IsValid srv → IsValid (sub_cli_release libs srv p)
  unfolding sub_cli_release
  sub_cli_release-IsValid srv p v =
      (v.0, λ q. if_both (LiveIn q) (q == p) none (srv.clients q) tt (v.1 q), v.2)

  add_channel-IsValid :
      (srv : Server libs) (r : Insert × ght.Table (Hset ght ℕ))
      → IsValid srv
      → SetsIn libs Q r.1
      → IsValid (add_channel libs srv r).1
  unfolding add_channel
  add_channel-IsValid srv (exists, t) v new = v
  add_channel-IsValid srv (inserted, t) v new = (v.0, v.1, new)
  add_channel-IsValid srv (no_memory, t) v new = (v.0, v.1, new)

  new_channel-IsValid :
      (srv : Server libs) (p : ℕ) (id channel : Bytes) (o : Option datrie.Trie)
      → datrie.trie_store srv.sub_trie (channel_alpha libs channel) ≡ o
      → IsValid srv
      → Q p
      → IsValid (new_channel libs srv p id channel o).1
  unfolding new_channel
  new_channel-IsValid srv p id channel none e v here = v
  new_channel-IsValid srv p id channel (some t) e v here =
      add_channel-IsValid _ _ (trie_store-HasLetters datrie srv.sub_trie t _ v.0 e, v.1, v.2)
        (ght_insert-first_set libs Q srv.subscibe_table p id channel v.2 here)

  subscribe_channel-IsValid :
      (srv : Server libs) (p : ℕ) (id channel : Bytes)
      → IsValid srv
      → Q p
      → IsValid (subscribe_channel libs srv p id channel).1
  unfolding subscribe_channel
  subscribe_channel-IsValid srv p id channel v here =
      if_both (λ (r : Status × Server libs). IsValid r.1)
        (datrie.trie_retrieve srv.sub_trie (channel_alpha libs channel)) _ _ v
        (new_channel-IsValid srv p id channel
          (datrie.trie_store srv.sub_trie (channel_alpha libs channel)) refl v here)

  subscribe_all-IsValid :
      (srv : Server libs) (p : ℕ) (id : Bytes) (n : ℕ) (argv : List (Option Bytes))
      → IsValid srv
      → Q p
      → Returns IsValid (subscribe_all libs srv p id n argv)
  unfolding subscribe_all
  subscribe_all-IsValid srv p id zero argv v here = v
  subscribe_all-IsValid srv p id (suc n) [] v here = tt
  subscribe_all-IsValid srv p id (suc n) (none ∷ argv) v here = tt
  subscribe_all-IsValid srv p id (suc n) (some channel ∷ argv) v here =
      subscribe_all-IsValid (subscribe_channel libs srv p id channel).1 p id n argv
        (subscribe_channel-IsValid srv p id channel v here) here

  -- A reply, with the server beside it.
  beside :
      (srv : Server libs) (m : Run SubClient)
      → IsValid srv
      → Returns Fits m
      → Returns PairFits (m >>= λ c'. ok (srv, c'))
  beside srv m v h = Returns-bind Fits PairFits m (λ c'. ok (srv, c')) h (λ c' h'. (v, h'))

  -- A line with its end, with the server beside it.
  line_beside :
      (srv : Server libs) (c : SubClient) (s : Bytes) (len : ℕ)
      → IsValid srv
      → Fits c
      → Returns PairFits (
          add_reply_string libevent c s len >>= λ c'.
          (add_reply_string libevent c' crlf 2 >>= λ c''. ok (srv, c'')))
  line_beside srv c s len v h =
      Returns-bind Fits PairFits (add_reply_string libevent c s len)
        (λ c'. add_reply_string libevent c' crlf 2 >>= λ c''. ok (srv, c''))
        (add_reply_string-Fits libevent c s len h)
        (λ c' h'.
          beside srv (add_reply_string libevent c' crlf 2) v
            (add_reply_string-Fits libevent c' crlf 2 h'))

  run_proc-Fits :
      (srv : Server libs) (p : ℕ) (c : SubClient) (proc : Proc)
      → IsValid srv
      → Q p
      → Fits c
      → Returns PairFits (run_proc libs srv p c proc)
  unfolding run_proc
  run_proc-Fits srv p c ping_command v here h =
      beside srv (add_reply libevent c pong) v (add_reply-Fits libevent c pong h)
  run_proc-Fits srv p c subscribe_command v here h =
      Returns-bind IsValid PairFits (subscribe_all libs srv p c.id (c.argc - 1) (drop 1 c.argv))
        (λ srv'. add_reply_string libevent c (codes "+subscribe") 10 >>= λ c'.
          (add_reply_string libevent c' crlf 2 >>= λ c''. ok (srv', c'')))
        (subscribe_all-IsValid srv p c.id (c.argc - 1) (drop 1 c.argv) v here)
        (λ srv' v'. line_beside srv' c (codes "+subscribe") 10 v' h)
  run_proc-Fits srv p c unsubscribe_command v here h =
      line_beside srv c (codes "+unsubscribe") 12 v h

  run_command-Fits :
      (srv : Server libs) (p : ℕ) (c : SubClient) (name : Bytes) (cmd : Option SubCommand)
      → IsValid srv
      → Q p
      → Fits c
      → Returns PairFits (run_command libs srv p c name cmd)
  unfolding run_command
  run_command-Fits srv p c name none v here h =
      beside srv _ v (add_reply_error_fmt-Fits libevent sds c _ _ _ h)
  run_command-Fits srv p c name (some cmd) v here h =
      Returns-if PairFits (wrong_arity cmd.arity c.argc) _ _
        (λ _. beside srv _ v (add_reply_error_fmt-Fits libevent sds c _ _ _ h))
        (λ _. run_proc-Fits srv p c cmd.proc v here h)

  command_of-Fits :
      (srv : Server libs) (p : ℕ) (c : SubClient) (arg : Option (Option Bytes))
      → IsValid srv
      → Q p
      → Fits c
      → Returns PairFits (command_of libs srv p c arg)
  unfolding command_of
  command_of-Fits srv p c none v here h = tt
  command_of-Fits srv p c (some none) v here h = tt
  command_of-Fits srv p c (some (some arg)) v here h =
      let name = sds.sdstolower (sds.sdsnewlen arg (length (c_string arg))) in
      run_command-Fits srv p c name (ght.ght_get srv.sub_commands name) v here h

  free_client_argv-Fits : (c : SubClient) → Fits c → Returns Fits (free_client_argv c)
  unfolding free_client_argv
  free_client_argv-Fits c h =
      Returns-bind (λ _. Unit {0}) Fits (free_args c.argc c.argv)
        (λ _. ok (record c { argc = 0; argv = if ltb 0 c.argc then [] else c.argv }))
        (Returns-any (free_args c.argc c.argv)) (λ _ _. h)

  reset_after-Fits :
      (r : Server libs × SubClient) → PairFits r → Returns PairFits (reset_after libs r)
  unfolding reset_after reset_client
  reset_after-Fits (srv, c) (v, h) = beside srv (reset_client c) v (
      Returns-bind Fits Fits (free_client_argv c)
        (λ c'. ok (record c' { req_type = 0; multi_bulk_len = 0; bulk_len = none }))
        (free_client_argv-Fits c h) (λ c' h'. h'))

  run_requested-Fits :
      (srv : Server libs) (p : ℕ) (c : SubClient)
      → IsValid srv
      → Q p
      → Fits c
      → Returns PairFits (run_requested libs srv p c)
  unfolding run_requested process_command
  run_requested-Fits srv p c v here h =
      Returns-if PairFits (c.argc == 0) _ _
        (λ _. beside srv (free_client_argv c) v (free_client_argv-Fits c h))
        (λ _.
          Returns-bind PairFits PairFits (process_command libs srv p c) (reset_after libs)
            (command_of-Fits srv p c (get_elem? c.argv 0) v here h) reset_after-Fits)

  pub process_sub_read_buf-Fits :
      (srv : Server libs) (p : ℕ) (c : SubClient)
      → IsValid srv
      → Q p
      → Fits c
      → Returns PairFits (process_sub_read_buf libs srv p c)
  unfolding process_sub_read_buf
  process_sub_read_buf-Fits srv p c v here h =
      Returns-bind Fits PairFits (read_loop sds (length c.read_buf + 1) c)
        (run_requested libs srv p) (read_loop-Fits sds (length c.read_buf + 1) c h)
        (λ c' h'. run_requested-Fits srv p c' v here h')
