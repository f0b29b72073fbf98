-- ===== src/Broker/Handlers/Session.antt =====
-- A subscriber that connects, sends a `ping` and gets its reply, one handler after the other.
use mini_pubsub_broker.Base.{
  ℕ, ◌+◌, ◌≤◌, ◌≡◌, ◌≢◌, refl, ap, ◌∙◌, true, false, some, List, [], ◌∷◌, ◌++◌, map, Bytes, length,
  arith, pos, inr, ne→==,
}
use mini_pubsub_broker.Libc.{c_string}
use mini_pubsub_broker.Client.{Run, ok, ◌>>=◌, SubClient, Events, sub_write_buf_len, max_bulk_len}
use mini_pubsub_broker.Client.Create.{Origin, created, sub_cli_create-created}
use mini_pubsub_broker.Reply.{pong}
use mini_pubsub_broker.Reply.Buffer.{IsSound, CanWrite, armed}
use mini_pubsub_broker.Reply.Send.{
  Written, wrote, without_write, total, AllPositive, send_reply_to_subcli-all,
}
use mini_pubsub_broker.Protocol.Encode.{encode}
use mini_pubsub_broker.Protocol.Request.{IsIdle}
use mini_pubsub_broker.Broker.{Libraries, Server, ping_command, store_client}
use mini_pubsub_broker.Broker.Command.{process_sub_read_buf}
use mini_pubsub_broker.Broker.Command.Ping.{answered, process_sub_read_buf-ping}
use mini_pubsub_broker.Broker.Handlers.{
  Received, received, watched, keep_sent, keep_read, sub_read, sub_write, sub_event, sub_ev_handler,
  store_created, watch_created, accept_sub_handler,
}

-- A socket that is ready for reading, or for writing.
abbrev pub readable : Events
readable = record { ev_read = true; ev_write = false; ev_persist = false }

abbrev pub writable : Events
writable = record { ev_read = false; ev_write = true; ev_persist = false }

module _ (libs : Libraries) where
  open libs use {sds, libevent, ght}

  pub clients-store_client :
      (srv : Server libs) (p : ℕ) (c : SubClient) → (store_client libs srv p c).clients p ≡ some c
  unfolding store_client
  clients-store_client srv p c = ground arith

  pub clients-store_client_ne :
      (srv : Server libs) (p q : ℕ) (c : SubClient)
      → q ≢ p
      → (store_client libs srv p c).clients q ≡ srv.clients q
  unfolding store_client
  clients-store_client_ne srv p q c h = rw (ne→== q p h)

  -- Bytes that come in one read, with which the connection does something that returns.
  pub sub_ev_handler-read :
      (srv srv' : Server libs) (p : ℕ) (c c' : SubClient) (s : Bytes) (junk : Written)
      → srv.clients p ≡ some c
      → process_sub_read_buf libs srv p (record c { read_buf = c.read_buf ++ s }) ≡ ok (srv', c')
      → sub_ev_handler libs srv p readable (received s) junk []
        ≡ ok (store_client libs srv' p c', [])
  unfolding sub_ev_handler sub_event sub_read keep_read
  sub_ev_handler-read srv srv' p c c' s junk live e =
      ap (sub_event libs srv p readable (received s) junk []) live
      ∙ ap (λ r. r >>= λ k. ok (keep_read libs p k)) e

  -- A `ping` that comes in one read on an idle connection.
  sub_ev_handler-ping :
      (srv : Server libs) (p : ℕ) (c : SubClient) (arg name : Bytes) (junk : Written)
      → srv.clients p ≡ some c
      → c.read_buf ≡ []
      → IsIdle c
      → IsSound c
      → CanWrite libevent c
      → length arg ≤ max_bulk_len
      → sds.sdstolower (sds.sdsnewlen arg (length (c_string arg))) ≡ name
      → ght.ght_get srv.sub_commands name
        ≡ some (record { name = name; proc = ping_command; arity = pos 1 })
      → length c.wbuf + 7 ≤ sub_write_buf_len
      → sub_ev_handler libs srv p readable (received (encode (arg ∷ []) [])) junk []
        ≡ ok (store_client libs srv p (answered c (c.wbuf ++ pong)), [])
  unfolding armed
  sub_ev_handler-ping srv p c arg name junk live empty idle sound h fit en eg room =
      let s = encode (arg ∷ []) [] in
      let c0 : SubClient = record c { read_buf = c.read_buf ++ s } in
      sub_ev_handler-read srv srv p c (answered c (c.wbuf ++ pong)) s junk live (
        process_sub_read_buf-ping libs srv p c0 arg name
          (record { no_args = idle.no_args; no_count = idle.no_count; no_length = idle.no_length })
          (record { fits = sound.fits }) h (ap (λ b. b ++ s) empty) fit en eg room
        ∙ ground arith)

  -- A connection whose write buffer goes out whole.
  pub sub_ev_handler-all :
      (srv : Server libs) (p : ℕ) (c : SubClient) (r : Received) (junk : Written) (n : ℕ)
      (ns : List ℕ)
      → srv.clients p ≡ some c
      → AllPositive (n ∷ ns)
      → total (n ∷ ns) ≡ length c.wbuf
      → libevent.event_new c.fd (without_write c.ev) ≡ true
      → libevent.event_add c.fd (without_write c.ev) ≡ true
      → sub_ev_handler libs srv p writable r junk (map wrote (n ∷ ns))
        ≡ ok (
          store_client libs srv p
              (record c { wbuf = []; ev = without_write c.ev; ev_pending = true }),
          c.wbuf,
        )
  unfolding sub_ev_handler sub_event sub_write keep_sent
  sub_ev_handler-all srv p c r junk n ns live positive sum new add =
      ap (sub_event libs srv p writable r junk (map wrote (n ∷ ns))) live
      ∙ ap (λ x. x >>= λ sent. ok (keep_sent libs srv p sent))
          (send_reply_to_subcli-all libevent junk n ns c positive sum new add)

  -- A new connection whose socket is watched.
  abbrev pub connection : Origin → ℕ → Bytes → SubClient
  connection o cfd id = record (created o cfd id) {
    ev = watched;
    ev_pending = libevent.event_add cfd watched;
  }

  -- The server behind an accepted connection with some id.
  abbrev pub accepted : Server libs → ℕ → ℕ → Origin → Bytes → Server libs
  accepted srv cfd p o id =
      store_created libs (record srv { sub_inc_counter = srv.sub_inc_counter + 1 }) cfd p
        (created o cfd id)

  pub accept_sub_handler-accepted :
      (srv : Server libs) (cfd p : ℕ) (o : Origin)
      → libevent.event_new cfd watched ≡ true
      → (id : Bytes) × (accept_sub_handler libs srv (some cfd) p o ≡ ok (accepted srv cfd p o id))
  unfolding accept_sub_handler watch_created
  accept_sub_handler-accepted srv cfd p o h =
      let n = srv.sub_inc_counter + 1 in
      let (id, e, _) = sub_cli_create-created o cfd n in
      (
        id,
        ap (λ r. r >>= λ c. watch_created libs (record srv { sub_inc_counter = n }) cfd p c) e
            ∙ rw h refl,
      )

  pub clients-accepted :
      (srv : Server libs) (cfd p : ℕ) (o : Origin) (id : Bytes)
      → (accepted srv cfd p o id).clients p ≡ some (connection o cfd id)
  unfolding store_created store_client
  clients-accepted srv cfd p o id = ground arith

  pub sub_commands-accepted :
      (srv : Server libs) (cfd p : ℕ) (o : Origin) (id : Bytes)
      → (accepted srv cfd p o id).sub_commands ≡ srv.sub_commands
  unfolding store_created store_client
  sub_commands-accepted srv cfd p o id = ground arith

  pub tables-accepted :
      (srv : Server libs) (cfd p : ℕ) (o : Origin) (id : Bytes)
      → let srv' = accepted srv cfd p o id in
        (srv'.sub_trie ≡ srv.sub_trie) × (srv'.subscibe_table ≡ srv.subscibe_table)
  unfolding store_created store_client
  tables-accepted srv cfd p o id = ground arith

  pub clients-accepted_ne :
      (srv : Server libs) (cfd p q : ℕ) (o : Origin) (id : Bytes)
      → q ≢ p
      → (accepted srv cfd p o id).clients q ≡ srv.clients q
  unfolding store_created store_client
  clients-accepted_ne srv cfd p q o id h = ground (arith, ne→== q p h)

  -- Three handlers: a connection is accepted, bytes come in one read, and the socket is writable.
  abbrev pub session :
      Server libs → ℕ → ℕ → Origin → Received → Written → List Written → Run (Server libs × Bytes)
  session srv cfd p o r last ws = do
    srv0 ← accept_sub_handler libs srv (some cfd) p o
    (srv', out) ← sub_ev_handler libs srv0 p readable r last []
    (srv'', out') ← sub_ev_handler libs srv' p writable r last ws
    ok (srv'', out ++ out')

  -- A subscriber that connects, to memory whose `argc` happens to be 0, and sends one `ping` in any
  -- case of its letters gets exactly the bytes of `+PONG`, over any positive counts of `write` that
  -- add up to them. Its connection is then between two requests, with empty buffers, watched for
  -- reading, and the other connections are as they were.
  pub session-ping :
      (srv : Server libs) (cfd p : ℕ) (o : Origin) (arg name : Bytes) (last : Written) (n : ℕ)
      (ns : List ℕ)
      → ((e : Events) → libevent.event_new cfd e ≡ true)
      → ((e : Events) → libevent.event_add cfd e ≡ true)
      → o.junk.argc ≡ 0
      → length arg ≤ max_bulk_len
      → sds.sdstolower (sds.sdsnewlen arg (length (c_string arg))) ≡ name
      → ght.ght_get srv.sub_commands name
        ≡ some (record { name = name; proc = ping_command; arity = pos 1 })
      → AllPositive (n ∷ ns)
      → total (n ∷ ns) ≡ 7
      → (srv' : Server libs) × (c : SubClient) × (session srv cfd p o
            (received (encode (arg ∷ []) []))
            last
            (map wrote (n ∷ ns))
          ≡ ok (srv', pong))
        × (srv'.clients p ≡ some c)
        × IsIdle c
        × (c.read_buf ≡ [])
        × (c.wbuf ≡ [])
        × (c.ev ≡ watched)
        × ((q : ℕ) → q ≢ p → srv'.clients q ≡ srv.clients q)
  unfolding armed
  session-ping srv cfd p o arg name last n ns new add fresh fit en eg positive sum =
      let (id, ea) = accept_sub_handler-accepted srv cfd p o (new watched) in
      let srv0 = accepted srv cfd p o id in
      let c0 = connection o cfd id in
      let c1 = answered c0 pong in
      let srv1 = store_client libs srv0 p c1 in
      let c2 = record c1 { wbuf = []; ev = without_write c1.ev; ev_pending = true } in
      let s = received (encode (arg ∷ []) []) in
      let ws = map wrote (n ∷ ns) in
      (
        store_client libs srv1 p c2,
        c2,
        ap
              (λ x. x >>= λ srv0. sub_ev_handler libs srv0 p readable s last [] >>= λ (srv', out).
                sub_ev_handler libs srv' p writable s last ws >>= λ (srv'', out').
                ok (srv'', out ++ out'))
              ea
            ∙ ap
                (λ x. x >>= λ (srv', out).
                  sub_ev_handler libs srv' p writable s last ws >>= λ (srv'', out').
                  ok (srv'', out ++ out'))
                (sub_ev_handler-ping srv0 p c0 arg name last (clients-accepted srv cfd p o id) refl
                  (record { no_args = fresh; no_count = refl; no_length = refl })
                  (record { fits = omega arith }) (inr (new _, add _)) fit en
                  (ap (λ t. ght.ght_get t name) (sub_commands-accepted srv cfd p o id) ∙ eg)
                  (omega arith))
            ∙ ap (λ x. x >>= λ (srv'', out'). ok (srv'', out'))
                (sub_ev_handler-all srv1 p c1 s last n ns (clients-store_client srv0 p c1) positive
                  sum (new _) (add _)),
        clients-store_client srv1 p c2,
        record { no_args = refl; no_count = refl; no_length = refl },
        refl,
        refl,
        refl,
        λ q h.
            clients-store_client_ne srv1 p q c2 h
            ∙ clients-store_client_ne srv0 p q c1 h
            ∙ clients-accepted_ne srv cfd p q o id h,
      )
