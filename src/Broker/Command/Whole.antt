-- ===== src/Broker/Command/Whole.antt =====
-- A whole request for a subscription, and those that are refused.
use mini_pubsub_broker.Base.{
  ℕ, suc, ◌+◌, ◌-◌, ◌≤◌, ◌≡◌, refl, ap, ◌∙◌, sym, drop, true, false, none, some, List, [], ◌∷◌,
  ◌++◌, map, Bytes, length, arith, negsuc, codes,
}
use mini_pubsub_broker.Libc.{c_string}
use mini_pubsub_broker.Client.{
  Run, ok, bind_assoc, ◌>>=◌, SubClient, sub_write_buf_len, sub_read_buf_len,
}
use mini_pubsub_broker.Reply.{crlf, err_prefix, add_reply, add_reply_string}
use mini_pubsub_broker.Reply.Buffer.{IsSound, CanWrite, armed, with_wbuf, add_reply-pair_fits}
use mini_pubsub_broker.Reply.Error.{OneLine, Cleaned, add_reply_error_fmt-OneLine}
use mini_pubsub_broker.Protocol.Encode.{encode, FitBulks}
use mini_pubsub_broker.Protocol.Request.{IsIdle, requested}
use mini_pubsub_broker.Protocol.Pipeline.{multibulk}
use mini_pubsub_broker.Broker.{
  Libraries, Server, SubCommand, subscribe_command, unsubscribe_command, subscribe_channel,
  subscribe_all,
}
use mini_pubsub_broker.Broker.Command.{wrong_arity, run_proc, run_command, process_sub_read_buf}
use mini_pubsub_broker.Broker.Command.Ping.{answered, process_sub_read_buf-answered}

bind_last {ℓ κ μ} :
    {A : Type ℓ} {B : Type κ} {C : Type μ} (m : Run A) (f : A → Run B) (g : B → Run C)
    → (m >>= λ a. (f a >>= g)) ≡ (m >>= f) >>= g
bind_last m f g = sym (bind_assoc m f g)

-- `+subscribe` and the line end.
abbrev pub subscribe_reply : Bytes
subscribe_reply = codes "+subscribe" ++ crlf

abbrev pub unsubscribe_reply : Bytes
unsubscribe_reply = codes "+unsubscribe" ++ crlf

some_arguments : (n : ℕ) → 1 ≤ n → wrong_arity (negsuc 1) (suc n) ≡ false
unfolding wrong_arity
some_arguments n h = ground arith

no_arguments : (n : ℕ) → wrong_arity (negsuc 0) (suc n) ≡ false
unfolding wrong_arity
no_arguments n = ground arith

module _ (libs : Libraries) where
  open libs use {sds, libevent, ght}

  -- The subscriptions of a connection, one channel after the other.
  unfoldable pub subscribe_each : Server libs → ℕ → Bytes → List Bytes → Server libs
  subscribe_each srv p id [] = srv
  subscribe_each srv p id (channel ∷ channels) =
      subscribe_each (subscribe_channel libs srv p id channel).1 p id channels

  subscribe_all-each :
      (srv : Server libs) (p : ℕ) (id : Bytes) (channels : List Bytes)
      → subscribe_all libs srv p id (length channels) (map some channels)
        ≡ ok (subscribe_each srv p id channels)
  unfolding subscribe_all subscribe_each
  subscribe_all-each srv p id [] = refl
  subscribe_all-each srv p id (channel ∷ channels) =
      subscribe_all-each (subscribe_channel libs srv p id channel).1 p id channels

  pub run_proc-subscribe :
      (srv : Server libs) (p : ℕ) (c : SubClient) (arg : Bytes) (channels : List Bytes)
      → c.argv ≡ some arg ∷ map some channels
      → c.argc ≡ suc (length channels)
      → IsSound c
      → CanWrite libevent c
      → length c.wbuf + 12 ≤ sub_write_buf_len
      → run_proc libs srv p c subscribe_command
        ≡ ok (subscribe_each srv p c.id channels, with_wbuf (armed c) (c.wbuf ++ subscribe_reply))
  unfolding run_proc add_reply add_reply_string
  run_proc-subscribe srv p c arg channels ev en sound h room =
      let each : subscribe_all libs srv p c.id (c.argc - 1) (drop 1 c.argv)
          ≡ ok (subscribe_each srv p c.id channels) =
        ap (λ (n : ℕ). subscribe_all libs srv p c.id n (drop 1 c.argv)) {y = length channels}
          (omega arith)
        ∙ ap (λ v. subscribe_all libs srv p c.id (length channels) (drop 1 v)) ev
        ∙ subscribe_all-each srv p c.id channels in
      ap
        (λ x. x >>= λ srv'.
          (add_reply_string libevent c (codes "+subscribe") 10 >>= λ c'.
          (add_reply_string libevent c' crlf 2 >>= λ c''. ok (srv', c''))))
        each
      ∙ bind_last (add_reply_string libevent c (codes "+subscribe") 10)
          (λ c'. add_reply_string libevent c' crlf 2)
          (λ c''. ok (subscribe_each srv p c.id channels, c''))
      ∙ ap (λ x. x >>= λ c''. ok (subscribe_each srv p c.id channels, c''))
          (add_reply-pair_fits libevent c (codes "+subscribe") sound h room)

  -- A whole `subscribe` request for one channel or more makes the subscriptions of its channels in
  -- their order, and is answered by one `+subscribe`, whatever comes of them.
  pub process_sub_read_buf-subscribe :
      (srv : Server libs) (p : ℕ) (c : SubClient) (arg : Bytes) (channels : List Bytes)
      (name : Bytes)
      → IsIdle c
      → IsSound c
      → CanWrite libevent c
      → c.read_buf ≡ encode (arg ∷ channels) []
      → 1 ≤ length channels
      → suc (length channels) ≤ sub_read_buf_len
      → FitBulks (arg ∷ channels)
      → sds.sdstolower (sds.sdsnewlen arg (length (c_string arg))) ≡ name
      → ght.ght_get srv.sub_commands name
        ≡ some (record { name = name; proc = subscribe_command; arity = negsuc 1 })
      → length c.wbuf + 12 ≤ sub_write_buf_len
      → process_sub_read_buf libs srv p c
        ≡ ok (subscribe_each srv p c.id channels, answered c (c.wbuf ++ subscribe_reply))
  unfolding run_command
  process_sub_read_buf-subscribe srv p c arg channels name idle sound h e some_channels fit fits en
        eg room =
      let c' = requested (multibulk c) (arg ∷ channels) [] in
      process_sub_read_buf-answered libs srv (subscribe_each srv p c.id channels) p c arg channels
        name (c.wbuf ++ subscribe_reply) idle e fit fits en
        (ap (run_command libs srv p c' name) eg
          ∙ rw (some_arguments (length channels) some_channels) (
              run_proc-subscribe srv p c' arg channels refl refl (record { fits = sound.fits }) h
                room))

  run_proc-unsubscribe :
      (srv : Server libs) (p : ℕ) (c : SubClient)
      → IsSound c
      → CanWrite libevent c
      → length c.wbuf + 14 ≤ sub_write_buf_len
      → run_proc libs srv p c unsubscribe_command
        ≡ ok (srv, with_wbuf (armed c) (c.wbuf ++ unsubscribe_reply))
  unfolding run_proc add_reply add_reply_string
  run_proc-unsubscribe srv p c sound h room =
      bind_last (add_reply_string libevent c (codes "+unsubscribe") 12)
        (λ c'. add_reply_string libevent c' crlf 2) (λ c''. ok (srv, c''))
      ∙ ap (λ x. x >>= λ c''. ok (srv, c''))
          (add_reply-pair_fits libevent c (codes "+unsubscribe") sound h room)

  -- A whole `unsubscribe` request, for whatever channels, is answered by `+unsubscribe`, and ends no
  -- subscription: the trie, the sets of the channels and all that is shared are as they were.
  pub process_sub_read_buf-unsubscribe :
      (srv : Server libs) (p : ℕ) (c : SubClient) (arg : Bytes) (channels : List Bytes)
      (name : Bytes)
      → IsIdle c
      → IsSound c
      → CanWrite libevent c
      → c.read_buf ≡ encode (arg ∷ channels) []
      → suc (length channels) ≤ sub_read_buf_len
      → FitBulks (arg ∷ channels)
      → sds.sdstolower (sds.sdsnewlen arg (length (c_string arg))) ≡ name
      → ght.ght_get srv.sub_commands name
        ≡ some (record { name = name; proc = unsubscribe_command; arity = negsuc 0 })
      → length c.wbuf + 14 ≤ sub_write_buf_len
      → process_sub_read_buf libs srv p c ≡ ok (srv, answered c (c.wbuf ++ unsubscribe_reply))
  unfolding run_command
  process_sub_read_buf-unsubscribe srv p c arg channels name idle sound h e fit fits en eg room =
      let c' = requested (multibulk c) (arg ∷ channels) [] in
      process_sub_read_buf-answered libs srv srv p c arg channels name (c.wbuf ++ unsubscribe_reply)
        idle e fit fits en
        (ap (run_command libs srv p c' name) eg
          ∙ rw (no_arguments (length channels))
              (run_proc-unsubscribe srv p c' (record { fits = sound.fits }) h room))

  -- A request that is answered by `-ERR `, a text in which line ends have become spaces, and the line
  -- end, and that does nothing else.
  abbrev pub Refused : Server libs → ℕ → SubClient → Bytes → Type 0
  Refused srv p c text =
      (s : Bytes) × OneLine s
      × Cleaned text s
      × (process_sub_read_buf libs srv p c
          ≡ ok (srv, answered c (c.wbuf ++ (err_prefix ++ (s ++ crlf)))))

  -- A whole request whose command the table does not know changes nothing that is shared; the
  -- subscriber gets the line `-ERR unknown command '<name>'`, the name in lower case, cut at its first
  -- NUL and with a space for every line end in it, if the line has room and libevent agrees to watch
  -- the socket. The connection is then between two requests.
  pub process_sub_read_buf-unknown :
      (srv : Server libs) (p : ℕ) (c : SubClient) (arg : Bytes) (args : List Bytes) (name : Bytes)
      → IsIdle c
      → IsSound c
      → CanWrite libevent c
      → c.read_buf ≡ encode (arg ∷ args) []
      → suc (length args) ≤ sub_read_buf_len
      → FitBulks (arg ∷ args)
      → sds.sdstolower (sds.sdsnewlen arg (length (c_string arg))) ≡ name
      → ght.ght_get srv.sub_commands name ≡ none
      → let text = codes "unknown command '" ++ (c_string name ++ codes "'") in
        length c.wbuf + (5 + (length text + 2)) ≤ sub_write_buf_len → Refused srv p c text
  unfolding run_command c_string
  process_sub_read_buf-unknown srv p c arg args name idle sound h e fit fits en eg room =
      let c' = requested (multibulk c) (arg ∷ args) [] in
      let (s, line, cleaned, reply) =
        add_reply_error_fmt-OneLine libevent sds c' (codes "unknown command '") name (codes "'")
          (record { fits = sound.fits }) h refl refl room in
      (
        s,
        line,
        cleaned,
        process_sub_read_buf-answered libs srv srv p c arg args name _ idle e fit fits en
            (ap (run_command libs srv p c' name) eg ∙ ap (λ r. r >>= λ k. ok (srv, k)) reply),
      )

  -- So does a request for a command that it knows with a number of arguments that the command does
  -- not take, which gets `-ERR wrong number of arguments for '<name>' command`.
  pub process_sub_read_buf-wrong_arity :
      (srv : Server libs) (p : ℕ) (c : SubClient) (arg : Bytes) (args : List Bytes) (name : Bytes)
      (cmd : SubCommand)
      → IsIdle c
      → IsSound c
      → CanWrite libevent c
      → c.read_buf ≡ encode (arg ∷ args) []
      → suc (length args) ≤ sub_read_buf_len
      → FitBulks (arg ∷ args)
      → sds.sdstolower (sds.sdsnewlen arg (length (c_string arg))) ≡ name
      → ght.ght_get srv.sub_commands name ≡ some cmd
      → wrong_arity cmd.arity (suc (length args)) ≡ true
      → let text =
          codes "wrong number of arguments for '" ++ (c_string name ++ codes "' command") in
        length c.wbuf + (5 + (length text + 2)) ≤ sub_write_buf_len → Refused srv p c text
  unfolding run_command c_string
  process_sub_read_buf-wrong_arity srv p c arg args name cmd idle sound h e fit fits en eg wrong
        room =
      let c' = requested (multibulk c) (arg ∷ args) [] in
      let (s, line, cleaned, reply) =
        add_reply_error_fmt-OneLine libevent sds c' (codes "wrong number of arguments for '") name
          (codes "' command") (record { fits = sound.fits }) h refl refl room in
      (
        s,
        line,
        cleaned,
        process_sub_read_buf-answered libs srv srv p c arg args name _ idle e fit fits en (
            ap (run_command libs srv p c' name) eg
            ∙ rw wrong (ap (λ r. r >>= λ k. ok (srv, k)) reply)),
      )
