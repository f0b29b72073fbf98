-- ===== src/Broker/Command.antt =====
-- `process_command` and `process_sub_read_buf` of src/protocol/subcli.c.
pub mod Ping
pub mod Part
pub mod Whole
use mini_pubsub_broker.Base.{
  ℕ, zero, suc, ◌+◌, ◌-◌, Bool, true, false, not, ◌&&◌, ◌||◌, Option, none, some, List, [], ◌∷◌,
  ◌++◌, Bytes, length, drop, get_elem?, ltb, ◌==◌, if◌then◌else◌, ℤ, pos, negsuc, codes,
}
use mini_pubsub_broker.Libc.{c_string}
use mini_pubsub_broker.Client.{
  Run, ok, fault, ◌>>=◌, ◌>>◌, SubClient, reset_client, free_client_argv,
}
use mini_pubsub_broker.Reply.{crlf, pong, add_reply, add_reply_string, add_reply_error_fmt}
use mini_pubsub_broker.Protocol.ReadLoop.{read_loop}
use mini_pubsub_broker.Broker.{
  Libraries, Server, Proc, ping_command, subscribe_command, unsubscribe_command, SubCommand,
  subscribe_all,
}

-- `sub_command_table`.
abbrev pub sub_command_table : List SubCommand
sub_command_table =
    record { name = codes "ping"; proc = ping_command; arity = pos 1 }
    ∷ record { name = codes "subscribe"; proc = subscribe_command; arity = negsuc 1 }
    ∷ record { name = codes "unsubscribe"; proc = unsubscribe_command; arity = negsuc 0 }
    ∷ []

-- `cmd->arity > 0 && cmd->arity != c->argc || c->argc < -cmd->arity`.
unfoldable pub wrong_arity : ℤ → ℕ → Bool
wrong_arity (pos n) argc = ltb 0 n && not (n == argc)
wrong_arity (negsuc n) argc = ltb argc (suc n)

module _ (libs : Libraries) where
  open libs use {sds, libevent, ght}
  open ght use {Table, ght_create, ght_insert, ght_get}

  unfoldable pub insert_commands : List SubCommand → Table SubCommand → Table SubCommand
  insert_commands [] t = t
  insert_commands (cmd ∷ cmds) t = insert_commands cmds (ght_insert t cmd cmd.name).1

  -- The table is made for `3 * num_cmds` entries.
  unfoldable pub sub_commands_init : Table SubCommand
  unfolding insert_commands
  sub_commands_init = insert_commands sub_command_table (ght_create SubCommand 9)

  -- `cmd->proc(c)`.
  unfoldable pub run_proc : Server libs → ℕ → SubClient → Proc → Run (Server libs × SubClient)
  run_proc srv p c ping_command = add_reply libevent c pong >>= λ c'. ok (srv, c')
  run_proc srv p c subscribe_command = do
    srv' ← subscribe_all libs srv p c.id (c.argc - 1) (drop 1 c.argv)
    c' ← add_reply_string libevent c (codes "+subscribe") 10
    c'' ← add_reply_string libevent c' crlf 2
    ok (srv', c'')
  run_proc srv p c unsubscribe_command = do
    c' ← add_reply_string libevent c (codes "+unsubscribe") 12
    c'' ← add_reply_string libevent c' crlf 2
    ok (srv, c'')

  unfoldable pub run_command :
      Server libs → ℕ → SubClient → Bytes → Option SubCommand → Run (Server libs × SubClient)
  unfolding run_proc wrong_arity
  run_command srv p c name none =
      add_reply_error_fmt libevent sds c (codes "unknown command '") (c_string name) (codes "'")
      >>= λ c'. ok (srv, c')
  run_command srv p c name (some cmd) =
      if wrong_arity cmd.arity c.argc
      then (add_reply_error_fmt libevent sds c (codes "wrong number of arguments for '")
            (c_string name) (codes "' command")
          >>= λ c'. ok (srv, c'))
      else run_proc srv p c cmd.proc

  -- By `argv[0]`: the name is copied up to its first NUL, and in lower case.
  unfoldable pub command_of :
      Server libs → ℕ → SubClient → Option (Option Bytes) → Run (Server libs × SubClient)
  unfolding run_command
  command_of srv p c none = fault
  command_of srv p c (some none) = fault
  command_of srv p c (some (some arg)) =
      let name = sds.sdstolower (sds.sdsnewlen arg (length (c_string arg))) in
      run_command srv p c name (ght_get srv.sub_commands name)

  unfoldable pub process_command : Server libs → ℕ → SubClient → Run (Server libs × SubClient)
  unfolding command_of
  process_command srv p c = command_of srv p c (get_elem? c.argv 0)

  unfoldable pub reset_after : Server libs × SubClient → Run (Server libs × SubClient)
  reset_after (srv, c) = reset_client c >>= λ c'. ok (srv, c')

  -- What follows the read loop.
  unfoldable pub run_requested : Server libs → ℕ → SubClient → Run (Server libs × SubClient)
  unfolding process_command reset_after
  run_requested srv p c =
      if c.argc == 0
      then (free_client_argv c >>= λ c'. ok (srv, c'))
      else process_command srv p c >>= reset_after

  -- The rounds of the loop are bounded by the bytes in the buffer.
  unfoldable pub process_sub_read_buf : Server libs → ℕ → SubClient → Run (Server libs × SubClient)
  unfolding run_requested
  process_sub_read_buf srv p c = read_loop sds (length c.read_buf + 1) c >>= run_requested srv p
