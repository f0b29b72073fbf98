-- ===== src/Startup.antt =====
-- The start of the server and its end: src/broker.c.
pub mod Order
pub mod Serving
pub mod Going
pub mod Ready
pub mod Watched
pub mod Delivery
pub mod Reachable
use mini_pubsub_broker.Base.{
  ℕ, zero, suc, ◌%◌, ◌^◌, Bool, true, false, Option, none, some, List, [], ◌∷◌, ◌++◌, Bytes, codes,
  if◌then◌else◌, ℤ,
}
use mini_pubsub_broker.Client.{Run, ok, fault, exit, out_of_fuel}
use mini_pubsub_broker.Net.{
  Net, NetStatus, net_ok, net_err, Sockets, net_tcp_server, net_tcp_set_nonblock,
}
use mini_pubsub_broker.Config.{
  Settings, default_settings, Json, ConfigStatus, config_ok, config_err, srv_load_cfg,
}
use mini_pubsub_broker.TrieUtil.{trie_create, Locales, init_conv}
use mini_pubsub_broker.Log.{Level, log_set_level}
use mini_pubsub_broker.Broker.{Libraries, Server}
use mini_pubsub_broker.Broker.Command.{sub_commands_init}

-- A process that goes on, that has ended by `exit` or the end of `main` with a status, or that a
-- fault has stopped.
pub data Process {ℓ} (A : Type ℓ) : Type ℓ where
  running : A → Process A
  exited : ℕ → Process A
  crashed : Process A

infixl 5 ◌>>=◌
abbrev pub ◌>>=◌ {ℓ κ} : {A : Type ℓ} {B : Type κ} → Process A → (A → Process B) → Process B
running a >>= k = k a
exited n >>= k = exited n
crashed >>= k = crashed

-- `EXIT_SUCCESS` and `EXIT_FAILURE`.
abbrev pub exit_success : ℕ
exit_success = 0

abbrev pub exit_failure : ℕ
exit_failure = 1

-- What `getopt` yields.
pub data Opt : Type 0 where
  opt_c : Bytes → Opt
  opt_h : Opt
  opt_other : Opt

-- The results of the calls of a start.
pub record Calls : Type 1 where
  pub libs : Libraries
  pub json : Json
  pub sockets : Sockets
  pub locales : Locales
  -- What `fcntl(F_GETFL)` returns for a descriptor, and whether it takes new flags.
  pub get_flags : ℕ → Option ℕ
  pub set_flags : ℕ → ℕ → Bool
  -- What `rand_int64(1 << 24)` yields.
  pub counter : ℕ
  -- Whether `signal` succeeds, and `event_base_new`.
  pub signal : Bool
  pub event_base_new : Bool
  -- Whether `event_new` for the accepting handler of a descriptor succeeds.
  pub event_new : ℕ → Bool
  -- The chunks that `fgets` reads from a file.
  pub read_file : Bytes → Option (List Bytes)
  -- Whether a file can be opened for writing.
  pub can_write : Bytes → Bool

-- The loop over the options.
unfoldable pub read_options : List Opt → Settings → Process Settings
read_options [] cfg = running cfg
read_options (opt_c path ∷ opts) cfg = read_options opts (record cfg { cfg_path = path })
read_options (opt_h ∷ opts) cfg = exited exit_success
read_options (opt_other ∷ opts) cfg = exited exit_failure

unfoldable pub loaded : Run (ConfigStatus × Settings) → Process Settings
loaded (ok (config_ok, cfg)) = running cfg
loaded (ok (config_err, cfg)) = exited exit_failure
loaded fault = crashed
loaded exit = exited exit_failure
loaded out_of_fuel = crashed

-- What `server_free` gives back to libevent.
pub data Resource : Type 0 where
  pub_ev_freed sub_ev_freed base_freed : Resource

abbrev pub freed_if : Bool → Resource → List Resource
freed_if true r = r ∷ []
freed_if false r = []

-- `SIZE512`.
abbrev pub table_size : ℕ
table_size = 512

module _ (sys : Calls) where
  open sys use {libs, json, sockets, locales}

  -- The other fields of `broker`. `evloop`, `pub_ev` and `sub_ev` say whether the pointer is set,
  -- and `none` is -1 or NULL elsewhere. `shared_made` says whether the shared replies are there.
  pub record Broker : Type 0 where
    pub settings : Settings
    pub log_level : Level
    pub counter : ℕ
    pub server : Option (Server libs)
    pub shared_made : Bool
    pub dflt_to_alpha_conv : Option locales.Conv
    pub locale : Bytes
    pub evloop : Bool
    pub pub_srv_fd : Option ℕ
    pub pub_ev : Bool
    pub sub_srv_fd : Option ℕ
    pub sub_ev : Bool
    pub net : Net
    -- The descriptors that were set to return at once.
    pub nonblocking : List ℕ

  unfoldable pub server_config_init : Broker
  server_config_init = record {
    settings = default_settings;
    log_level = Level.log_debug;
    counter = sys.counter;
    server = none;
    shared_made = false;
    dflt_to_alpha_conv = none;
    locale = codes "C";
    evloop = false;
    pub_srv_fd = none;
    pub_ev = false;
    sub_srv_fd = none;
    sub_ev = false;
    net = record { err = some none; opened = [] };
    nonblocking = [];
  }

  -- The tables, if the trie is made.
  abbrev pub new_server : ℕ → Option libs.datrie.Trie → Option (Server libs)
  new_server counter none = none
  new_server counter (some t) = some (record {
    sub_inc_counter = counter;
    subcli_table = libs.ght.ght_create ℕ table_size;
    subscibe_table = libs.ght.ght_create _ table_size;
    sub_commands = sub_commands_init libs;
    sub_trie = t;
    clients = λ p. none;
  })

  unfoldable pub make_tables : Broker → Broker
  unfolding init_conv
  make_tables b =
      let (conv, locale') = init_conv locales b.locale in
      record b {
        shared_made = true;
        server = new_server b.counter (trie_create libs.datrie);
        dflt_to_alpha_conv = some conv;
        locale = locale';
      }

  abbrev pub if_ok : NetStatus × Net → ℕ → List ℕ → List ℕ
  if_ok (net_ok, n) fd fds = fd ∷ fds
  if_ok (net_err, n) fd fds = fds

  -- `net_tcp_set_nonblock(NULL, fd)`, whose result the caller does not look at.
  unfoldable pub nonblock : ℕ → Net → List ℕ → List ℕ
  unfolding net_tcp_set_nonblock
  nonblock fd n fds =
      if_ok (net_tcp_set_nonblock (sys.get_flags fd) (sys.set_flags fd) (record n { err = none }))
        fd fds

  -- A listening socket with its event; `event_add` on NULL is a fault.
  unfoldable pub watch_pub : Broker → Option ℕ × Net → Process Broker
  unfolding nonblock
  watch_pub b (none, n) = exited exit_failure
  watch_pub b (some fd, n) =
      if sys.event_new fd
      then running (record b {
        pub_srv_fd = some fd;
        pub_ev = true;
        net = n;
        nonblocking = nonblock fd n b.nonblocking;
      })
      else crashed

  unfoldable pub watch_sub : Broker → Option ℕ × Net → Process Broker
  unfolding nonblock
  watch_sub b (none, n) = exited exit_failure
  watch_sub b (some fd, n) =
      if sys.event_new fd
      then running (record b {
        sub_srv_fd = some fd;
        sub_ev = true;
        net = n;
        nonblocking = nonblock fd n b.nonblocking;
      })
      else crashed

  unfoldable pub open_pub : Broker → Process Broker
  unfolding watch_pub
  open_pub b =
      let cfg = b.settings in
      watch_pub b (net_tcp_server sockets cfg.pub_ip cfg.pub_port cfg.pub_backlog b.net)

  unfoldable pub open_sub : Broker → Process Broker
  unfolding watch_sub
  open_sub b =
      let cfg = b.settings in
      watch_sub b (net_tcp_server sockets cfg.sub_ip cfg.sub_port cfg.sub_backlog b.net)

  -- Where `signal` fails the function returns at once.
  unfoldable pub server_init : Broker → Process Broker
  unfolding make_tables open_pub open_sub
  server_init b =
      let b' = record (make_tables b) { evloop = true } in
      if sys.signal
      then (if sys.event_base_new then open_pub b' >>= open_sub else exited exit_failure)
      else running b

  -- `event_base_dispatch`, a fault on NULL. It returns when the loop ends.
  unfoldable pub server_evloop_start : Broker → Process Broker
  server_evloop_start b = if b.evloop then running b else crashed

  unfoldable pub server_free : Broker → List Resource
  server_free b =
      freed_if b.pub_ev pub_ev_freed
      ++ (freed_if b.sub_ev sub_ev_freed ++ freed_if b.evloop base_freed)

  -- A file that must be opened.
  abbrev pub need_file : Bytes → Broker → Process Broker
  need_file path b = if sys.can_write path then running b else exited exit_failure

  -- The settings from the options and the configuration.
  unfoldable pub read_settings : List Opt → Settings → Process Settings
  unfolding read_options loaded
  read_settings opts cfg = read_options opts cfg >>= λ cfg'.
      loaded (srv_load_cfg json sys.read_file (some cfg'.cfg_path) cfg')

  -- The log and the pid file.
  unfoldable pub open_files : Broker → Process Broker
  open_files b =
      need_file b.settings.log_file
        (record b { log_level = log_set_level b.settings.log_level b.log_level })
      >>= λ b1. need_file b1.settings.pid_file b1

  unfoldable pub run_server : Broker → Process Broker
  unfolding server_init server_evloop_start
  run_server b = server_init b >>= server_evloop_start

  unfoldable pub open_and_run : Settings → Process Broker
  unfolding server_config_init open_files run_server
  open_and_run cfg = open_files (record server_config_init { settings = cfg }) >>= run_server

  -- The process behind the event loop, which has come to `server_free`.
  unfoldable pub start : List Opt → Process Broker
  unfolding read_settings open_and_run server_config_init
  start opts = read_settings opts server_config_init.settings >>= open_and_run

  unfoldable pub main : List Opt → Process (List Resource)
  unfolding start server_free
  main opts = start opts >>= λ b. running (server_free b)
