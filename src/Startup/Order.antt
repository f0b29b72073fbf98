-- ===== src/Startup/Order.antt =====
-- The steps of a start in front of `server_init`, and a signal that cannot be ignored.
use mini_pubsub_broker.Base.{◌≡◌, ap, ◌∙◌, true, false, some, List}
use mini_pubsub_broker.Client.{ok}
use mini_pubsub_broker.Config.{Settings, default_settings, config_ok, srv_load_cfg}
use mini_pubsub_broker.Log.{Level, log_set_level}
use mini_pubsub_broker.Startup.{
  running, crashed, ◌>>=◌, Opt, Calls, Broker, server_config_init, server_init, server_evloop_start,
  server_free, read_options, loaded, read_settings, open_files, run_server, open_and_run, start,
  main,
}

module _ (sys : Calls) where
  open sys use {libs, json}
  open libs use {ght, datrie}

  -- Every step up to `server_init` succeeds.
  pub record Prepared (opts : List Opt) (cfg cfg' : Settings) : Type 0 where
    pub options : read_options opts default_settings ≡ running cfg
    pub config : srv_load_cfg json sys.read_file (some cfg.cfg_path) cfg ≡ ok (config_ok, cfg')
    pub log_file : sys.can_write cfg'.log_file ≡ true
    pub pid_file : sys.can_write cfg'.pid_file ≡ true

  -- The broker that comes to `server_init`.
  abbrev pub prepared : Settings → Broker sys
  prepared cfg = record (server_config_init sys) {
    settings = cfg;
    log_level = log_set_level cfg.log_level Level.log_debug;
  }

  pub start-prepared :
      (opts : List Opt) (cfg cfg' : Settings)
      → Prepared opts cfg cfg'
      → start sys opts ≡ run_server sys (prepared cfg')
  unfolding start open_and_run open_files read_settings loaded server_config_init
  start-prepared opts cfg cfg' h = rw (h.options, h.config, h.log_file, h.pid_file)

  -- Where every step up to `server_init` succeeds and SIGPIPE cannot be ignored, `server_init`
  -- returns before it has made the event loop, and the process runs a loop that is NULL, a fault.
  pub main-no_signal :
      (opts : List Opt) (cfg cfg' : Settings)
      → Prepared opts cfg cfg'
      → sys.signal ≡ false
      → main sys opts ≡ crashed
  unfolding main run_server server_init server_evloop_start server_config_init
  main-no_signal opts cfg cfg' h e =
      ap (λ m. m >>= λ b. running (server_free sys b)) (start-prepared opts cfg cfg' h) ∙ simp e
