-- ===== src/Broker/Command/Ping.antt =====
-- A command that has come whole is run, and the connection waits for the next one.
use mini_pubsub_broker.Base.{
  ℕ, suc, ◌+◌, ◌-◌, ◌≤◌, ◌<◌, ◌≡◌, refl, ap, ◌∙◌, none, some, List, [], ◌∷◌, ◌++◌, map, Bytes,
  length, arith, pos,
}
use mini_pubsub_broker.Libc.{c_string}
use mini_pubsub_broker.Client.{
  ok, ◌>>=◌, SubClient, reset_client, free_client_argv, free_args, sub_write_buf_len,
  sub_read_buf_len, max_bulk_len,
}
use mini_pubsub_broker.Reply.{pong}
use mini_pubsub_broker.Reply.Buffer.{
  IsSound, CanWrite, armed, with_wbuf, wbuf-armed, appended-fits, add_reply-appended,
}
use mini_pubsub_broker.Protocol.Encode.{encode, drop-encode, FitBulks}
use mini_pubsub_broker.Protocol.Request.{IsIdle, requested}
use mini_pubsub_broker.Protocol.ReadLoop.{read_loop}
use mini_pubsub_broker.Protocol.Pipeline.{multibulk, read_loop-request}
use mini_pubsub_broker.Broker.{Libraries, Server, ping_command}
use mini_pubsub_broker.Broker.Command.{
  run_proc, run_command, command_of, process_command, run_requested, process_sub_read_buf,
  wrong_arity, reset_after,
}

-- Every string of an argument vector is freed once.
free_args-map : (args : List Bytes) → free_args (length args) (map some args) ≡ ok tt
unfolding free_args
free_args-map [] = refl
free_args-map (a ∷ args) = free_args-map args

pub reset_client-requested :
    (c : SubClient) (args : List Bytes)
    → c.argv ≡ map some args
    → c.argc ≡ length args
    → 0 < length args
    → reset_client c
      ≡ ok (record c { argc = 0; argv = []; req_type = 0; multi_bulk_len = 0; bulk_len = none })
unfolding reset_client free_client_argv
reset_client-requested c args ev en h = ground (arith, free_args-map args)

armed-requested :
    (c : SubClient) (args : List Bytes)
    → armed (requested (multibulk c) args []) ≡ requested (multibulk (armed c)) args []
unfolding armed
armed-requested c args = ground arith

-- A connection behind a command, with what its reply has put in.
abbrev pub answered : SubClient → Bytes → SubClient
answered c w = record (armed c) {
  read_buf = [];
  wbuf = w;
  req_type = 0;
  multi_bulk_len = 0;
  bulk_len = none;
  argc = 0;
  argv = [];
}

module _ (libs : Libraries) where
  open libs use {sds, libevent, ght}

  -- A request that has come whole is run as a command on exactly its arguments, and its state is
  -- cleared behind it.
  pub process_sub_read_buf-request :
      (srv : Server libs) (p : ℕ) (c : SubClient) (args : List Bytes)
      → IsIdle c
      → c.read_buf ≡ encode args []
      → 0 < length args
      → length args ≤ sub_read_buf_len
      → FitBulks args
      → process_sub_read_buf libs srv p c
        ≡ (process_command libs srv p (requested (multibulk c) args []) >>= reset_after libs)
  unfolding process_sub_read_buf run_requested
  process_sub_read_buf-request srv p c args idle e some_args fit fits =
      let rounds : length c.read_buf + 1 ≡ suc (suc (length c.read_buf - 1)) =
        omega (arith, (drop-encode c.read_buf args [] e).1) in
      ap (λ (n : ℕ). read_loop sds n c >>= run_requested libs srv p) rounds
      ∙ ap (λ r. r >>= run_requested libs srv p)
          (read_loop-request sds (length c.read_buf - 1) c args idle e some_args fit fits)
      ∙ ground arith

  -- A whole request whose command puts its reply into the write buffer is run once, and the
  -- connection is then between two requests.
  pub process_sub_read_buf-answered :
      (srv srv' : Server libs) (p : ℕ) (c : SubClient) (arg : Bytes) (args : List Bytes)
      (name w : Bytes)
      → IsIdle c
      → c.read_buf ≡ encode (arg ∷ args) []
      → suc (length args) ≤ sub_read_buf_len
      → FitBulks (arg ∷ args)
      → sds.sdstolower (sds.sdsnewlen arg (length (c_string arg))) ≡ name
      → let c' = requested (multibulk c) (arg ∷ args) [] in
        run_command libs srv p c' name (ght.ght_get srv.sub_commands name)
          ≡ ok (srv', with_wbuf (armed c') w)
        → process_sub_read_buf libs srv p c ≡ ok (srv', answered c w)
  unfolding process_command command_of reset_after
  process_sub_read_buf-answered srv srv' p c arg args name w idle e fit fits en run =
      let c' = requested (multibulk c) (arg ∷ args) [] in
      process_sub_read_buf-request srv p c (arg ∷ args) idle e (omega arith) fit fits
      ∙ ap
          (λ (n : Bytes).
            run_command libs srv p c' n (ght.ght_get srv.sub_commands n) >>= reset_after libs)
          en
      ∙ ap (λ r. r >>= reset_after libs) run
      ∙ ap (λ k. reset_after libs (srv', with_wbuf k w)) (armed-requested c (arg ∷ args))
      ∙ ap (λ r. r >>= λ k. ok (srv', k))
          (reset_client-requested (with_wbuf (requested (multibulk (armed c)) (arg ∷ args) []) w)
            (arg ∷ args) refl refl (omega arith))

  run_proc-ping :
      (srv : Server libs) (p : ℕ) (c : SubClient)
      → IsSound c
      → CanWrite libevent c
      → length c.wbuf + 7 ≤ sub_write_buf_len
      → run_proc libs srv p c ping_command ≡ ok (srv, with_wbuf (armed c) (c.wbuf ++ pong))
  unfolding run_proc
  run_proc-ping srv p c sound h room =
      ap (λ r. r >>= λ c'. ok (srv, c')) (add_reply-appended libevent c pong sound h)
      ∙ ap (λ k. ok (srv, k))
          (appended-fits (armed c) pong (omega (arith, ap (length {0}) (wbuf-armed c)))
            ∙ ap (λ w. with_wbuf (armed c) (w ++ pong)) (wbuf-armed c))

  -- A `ping` in any case of its letters, as the table of commands knows it, is answered by `+PONG`;
  -- nothing else changes, and the connection waits for the next request.
  pub process_sub_read_buf-ping :
      (srv : Server libs) (p : ℕ) (c : SubClient) (arg name : Bytes)
      → IsIdle c
      → IsSound c
      → CanWrite libevent c
      → c.read_buf ≡ encode (arg ∷ []) []
      → length arg ≤ max_bulk_len
      → sds.sdstolower (sds.sdsnewlen arg (length (c_string arg))) ≡ name
      → ght.ght_get srv.sub_commands name
        ≡ some (record { name = name; proc = ping_command; arity = pos 1 })
      → length c.wbuf + 7 ≤ sub_write_buf_len
      → process_sub_read_buf libs srv p c ≡ ok (srv, answered c (c.wbuf ++ pong))
  unfolding run_command wrong_arity
  process_sub_read_buf-ping srv p c arg name idle sound h e fit en eg room =
      let c' = requested (multibulk c) (arg ∷ []) [] in
      process_sub_read_buf-answered srv srv p c arg [] name (c.wbuf ++ pong) idle e (omega arith)
        (fit, tt) en
        (ap (run_command libs srv p c' name) eg
          ∙ run_proc-ping srv p c' (record { fits = sound.fits }) h room)
